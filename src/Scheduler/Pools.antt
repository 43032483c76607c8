-- ===== src/Scheduler/Pools.antt =====
-- What every operation on a channel and its workers keeps: no stream is lost or run twice, and a
-- single worker runs them in the order in which the channel accepted them.
use fraise.Prelude.{
  ℕ, zero, suc, ◌+◌, ◌≤◌, ◌≡◌, refl, ap, subst, ◌∙◌, Bool, true, false, not, ◌&&◌, List, [], ◌∷◌,
  ◌++◌, Option, none, some, ◌==◌, ltb, arith, length, length-append, length-set, get_elem?, set,
  if◌then◌else◌,
}
use mathlib.Core.List.{append_assoc, append-nil}
use fraise.Scheduler.{
  Stream, Mode, Worker, Pool, guard, is_exited, is_idle, is_serving, is_draining, send, receive,
  complete, notice, leave, sweep, all_exited, Action, act,
}

abbrev pub count : ℕ → List Stream → ℕ
count id [] = 0
count id (s ∷ ss) = (if s.id == id then 1 else 0) + count id ss

pub count-append : (id : ℕ) (xs ys : List Stream) → count id (xs ++ ys) ≡ count id xs + count id ys
count-append id [] ys = omega arith
count-append id (x ∷ xs) ys = omega (arith, count-append id xs ys)

-- The stream that a worker executes.
abbrev pub load : Option Stream → List Stream
load none = []
load (some s) = s ∷ []

abbrev pub executing : List Worker → List Stream
executing [] = []
executing (w ∷ ws) = load w.busy ++ executing ws

abbrev pub ReturnIdle : List Worker → Type 0
ReturnIdle [] = Unit
ReturnIdle (w ∷ ws) = (is_exited w.mode ≡ true → w.busy ≡ none) × ReturnIdle ws

pub record IsAccounted (size crew : ℕ) (p : Pool) : Type 0 where
  pub bounded : length p.buffer ≤ size
  pub counted :
      (id : ℕ)
      → count id p.accepted
        ≡ count id p.finished + count id (executing p.workers) + count id p.buffer
  pub ordered : length p.workers ≤ 1 → p.accepted ≡ p.finished ++ (executing p.workers ++ p.buffer)
  pub idle : ReturnIdle p.workers
  pub staffed : length p.workers ≡ crew

count-executing :
    (id : ℕ) (ws : List Worker) (k : ℕ) (w w' : Worker)
    → get_elem? ws k ≡ some w
    → count id (executing (set ws k w')) + count id (load w.busy)
      ≡ count id (executing ws) + count id (load w'.busy)
count-executing id [] k w w' e = absurd cc
count-executing id (v ∷ ws) zero w w' e =
    let same : v ≡ w = cc in
    omega (
      arith,
      count-append id (load v.busy) (executing ws),
      count-append id (load w'.busy) (executing ws),
      ap (λ (x : Worker). count id (load x.busy)) same,
    )
count-executing id (v ∷ ws) (suc k) w w' e = omega (
  arith,
  count-append id (load v.busy) (executing ws),
  count-append id (load v.busy) (executing (set ws k w')),
  count-executing id ws k w w' e,
)

pub some_inj : {A : Type 0} {a b : A} → some a ≡ some b → a ≡ b
some_inj e = cc

-- The only worker.
executing-only :
    (ws : List Worker) (k : ℕ) (w w' : Worker)
    → length ws ≤ 1
    → get_elem? ws k ≡ some w
    → (executing ws ≡ load w.busy) × (executing (set ws k w') ≡ load w'.busy)
executing-only [] k w w' l e = absurd cc
executing-only (v ∷ []) zero w w' l e = (
  append-nil (load v.busy) ∙ ap (λ (x : Worker). load x.busy) (some_inj e),
  append-nil (load w'.busy),
)
executing-only (v ∷ []) (suc k) w w' l e = absurd cc
executing-only (v ∷ x ∷ ws) k w w' l e = absurd (omega arith)

set-ReturnIdle :
    (ws : List Worker) (k : ℕ) (w : Worker)
    → ReturnIdle ws
    → (is_exited w.mode ≡ true → w.busy ≡ none)
    → ReturnIdle (set ws k w)
set-ReturnIdle [] k w r h = tt
set-ReturnIdle (v ∷ ws) zero w (a, r) h = (h, r)
set-ReturnIdle (v ∷ ws) (suc k) w (a, r) h = (a, set-ReturnIdle ws k w r h)

elem-ReturnIdle :
    (ws : List Worker) (k : ℕ) (w : Worker)
    → ReturnIdle ws
    → get_elem? ws k ≡ some w
    → is_exited w.mode ≡ true
    → w.busy ≡ none
elem-ReturnIdle [] k w r e = absurd cc
elem-ReturnIdle (v ∷ ws) zero w (a, r) e = rw (some_inj e) at a
elem-ReturnIdle (v ∷ ws) (suc k) w (a, r) e = elem-ReturnIdle ws k w r e

-- Once every worker has returned, nothing is being executed.
pub executing-exited : (ws : List Worker) → all_exited ws ≡ true → ReturnIdle ws → executing ws ≡ []
executing-exited [] e r = refl
executing-exited (w ∷ ws) e (a, r) = ground (arith, executing-exited ws)

pub guard-some : {A : Type 0} (c : Bool) (a : A) {b : A} → guard c a ≡ some b → (c ≡ true) × (a ≡ b)
guard-some true a e = (refl, some_inj e)
guard-some false a e = absurd cc

module _ {size crew : ℕ} (p : Pool) (g : IsAccounted size crew p) where
  pub send-IsAccounted :
      (s : Stream) (p' : Pool) → send size s p ≡ some p' → IsAccounted size crew p'
  unfolding send
  send-IsAccounted s p' e =
      let (room, same) = guard-some (ltb (length p.buffer) size) _ e in
      subst (IsAccounted size crew) same (record {
        bounded = ground (arith, room, length-append p.buffer (s ∷ []));
        counted = λ id. omega (
          arith,
          g.counted id,
          count-append id p.buffer (s ∷ []),
          count-append id p.accepted (s ∷ []),
        );
        ordered = λ l.
            ap (λ (a : List Stream). a ++ s ∷ []) (g.ordered l) ∙ rw (append_assoc, append_assoc);
        idle = g.idle;
        staffed = g.staffed;
      })

  pub sweep-IsAccounted :
      all_exited p.workers ≡ true
      → (buffer : List Stream) (p' : Pool) → p.buffer ≡ buffer
      → sweep p buffer ≡ some p'
      → IsAccounted size crew p'
  unfolding sweep
  sweep-IsAccounted x [] p' b e = absurd cc
  sweep-IsAccounted x (s ∷ rest) p' b e =
      let none_left = executing-exited p.workers x g.idle in
      subst (IsAccounted size crew) (some_inj e) (record {
        bounded = omega (arith, g.bounded, ap length b);
        counted =
            λ id. omega (arith, g.counted id, ap (count id) b, count-append id p.finished (s ∷ []));
        ordered = λ l. g.ordered l ∙ rw (none_left, b, append_assoc);
        idle = g.idle;
        staffed = g.staffed;
      })

  module _ (k : ℕ) (w : Worker) (at : get_elem? p.workers k ≡ some w) where
    -- A worker moved, and the streams with it.
    moved-IsAccounted :
        (w' : Worker) (buffer finished : List Stream)
        → length buffer ≤ length p.buffer
        → ((id : ℕ)
            → count id p.finished + count id (load w.busy) + count id p.buffer
              ≡ count id finished + count id (load w'.busy) + count id buffer)
        → p.finished ++ (load w.busy ++ p.buffer) ≡ finished ++ (load w'.busy ++ buffer)
        → (is_exited w'.mode ≡ true → w'.busy ≡ none)
        → IsAccounted size crew
            (record p { buffer = buffer; workers = set p.workers k w'; finished = finished })
    moved-IsAccounted w' buffer finished b c o i = record {
      bounded = omega (arith, g.bounded, b);
      counted = λ id. omega (arith, g.counted id, c id, count-executing id p.workers k w w' at);
      ordered = λ l.
          let few : length p.workers ≤ 1 = rw length-set at l in
          let (before, after) = executing-only p.workers k w w' few at in
          g.ordered few ∙ rw (before, after) o;
      idle = set-ReturnIdle p.workers k w' g.idle i;
      staffed = length-set p.workers k w' ∙ g.staffed;
    }

    receive-IsAccounted :
        (buffer : List Stream) (p' : Pool)
        → p.buffer ≡ buffer
        → receive k w p buffer ≡ some p'
        → IsAccounted size crew p'
    unfolding receive
    receive-IsAccounted [] p' b e = absurd cc
    receive-IsAccounted (s ∷ rest) p' b e =
        let (free, same) = guard-some (is_idle w && not (is_exited w.mode)) _ e in
        let idle : w.busy ≡ none = ground (arith, free) in
        subst (IsAccounted size crew) same (
          moved-IsAccounted (record w { busy = some s }) rest p.finished
            (omega (arith, ap length b))
            (λ id.
              omega (arith, ap (count id) b, ap (λ (o : Option Stream). count id (load o)) idle))
            (rw (idle, b) refl) (λ x. ground (arith, x, free)))

    complete-IsAccounted :
        (busy : Option Stream) (p' : Pool)
        → w.busy ≡ busy
        → complete k w p busy ≡ some p'
        → IsAccounted size crew p'
    unfolding complete
    complete-IsAccounted none p' b e = absurd cc
    complete-IsAccounted (some s) p' b e = subst (IsAccounted size crew) (some_inj e) (
        moved-IsAccounted (record w { busy = none }) p.buffer (p.finished ++ s ∷ []) (omega arith)
          (λ id. omega (
            arith,
            count-append id p.finished (s ∷ []),
            ap (λ (o : Option Stream). count id (load o)) b,
          ))
          (rw (b, append_assoc) refl) (λ x. refl))

    -- A step of a worker that moves no stream.
    turned-IsAccounted :
        (m : Mode) (c : Bool) (p' : Pool)
        → guard c (record p { workers = set p.workers k (record w { mode = m }) }) ≡ some p'
        → (c ≡ true → w.busy ≡ none)
        → IsAccounted size crew p'
    turned-IsAccounted m c p' e i =
        let (free, same) = guard-some c _ e in
        subst (IsAccounted size crew) same (
          moved-IsAccounted (record w { mode = m }) p.buffer p.finished (omega arith) (λ id. refl)
            refl (λ _. i free))

    pub act-IsAccounted :
        (quit : Bool) (a : Action) (p' : Pool)
        → act quit k p a w ≡ some p'
        → IsAccounted size crew p'
    unfolding act notice leave
    act-IsAccounted quit Action.receives p' e = receive-IsAccounted p.buffer p' refl e
    act-IsAccounted quit Action.completes p' e = complete-IsAccounted w.busy p' refl e
    act-IsAccounted quit Action.notices p' e =
        turned-IsAccounted Mode.draining (quit && is_idle w && is_serving w.mode) p' e
          (λ c. ground (arith, c))
    act-IsAccounted quit Action.leaves p' e =
        turned-IsAccounted Mode.exited (length p.buffer == 0 && is_idle w && is_draining w.mode) p'
          e (λ c. ground (arith, c))
