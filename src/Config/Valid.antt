-- ===== src/Config/Valid.antt =====
-- internal/config/validate.go: what the configuration that validate accepts satisfies, and what an error
-- of it names.
use fraise.Prelude.{
  ◌≡◌, refl, inl, inr, Bool, true, false, not, ◌&&◌, ◌||◌, Bool-cases, List, [], ◌∷◌, arith,
}
use fraise.Prelude.Text.{Text, codes, text_eq, text_eq_iff, text_eq_refl}
use fraise.Prelude.Decimal.{ℤ, int_ltb}
use fraise.Config.{
  ConfigSet, InvalidValue, Result, ◌>>=◌, refuse_if, Outside, canonical_from, canonical,
  canonical_names, check_numbers, validate, log_levels, log_formats, precisions, hashing_functions,
  search_algorithms, scoring_algorithms, relevance_models,
}

abbrev pub listed : Text → List Text → Bool
listed v [] = false
listed v (w ∷ ws) = text_eq v w || listed v ws

-- A result that satisfies `P`, or an error that satisfies `E`.
pub data Ends {F A : Type 0} (P : A → Type 0) (E : InvalidValue F → Type 0)
    : Result F A → Type 0 where
  accepted : {a : A} → P a → Ends P E (Result.ok a)
  refused : {e : InvalidValue F} → E e → Ends P E (Result.err e)

bind-Ends :
    {F A B : Type 0} {P : A → Type 0} {Q : B → Type 0} {E : InvalidValue F → Type 0}
    (m : Result F A) (f : A → Result F B)
    → Ends P E m
    → ((a : A) → P a → Ends Q E (f a))
    → Ends Q E (m >>= f)
unfolding ◌>>=◌
bind-Ends _ f (Ends.accepted {a} p) h = h a p
bind-Ends _ f (Ends.refused e) h = Ends.refused e

map-Ends :
    {F A : Type 0} {P Q : A → Type 0} {E B : InvalidValue F → Type 0} (m : Result F A)
    → ((a : A) → P a → Q a)
    → ((e : InvalidValue F) → E e → B e)
    → Ends P E m
    → Ends Q B m
map-Ends _ f g (Ends.accepted {a} p) = Ends.accepted (f a p)
map-Ends _ f g (Ends.refused {e} p) = Ends.refused (g e p)

refuse_if-Ends :
    {F : Type 0} {E : InvalidValue F → Type 0} (bad : Bool) (e : InvalidValue F)
    → (bad ≡ true → E e)
    → Ends (λ _. bad ≡ false) E (refuse_if bad e)
unfolding refuse_if
refuse_if-Ends true e h = Ends.refused (h refl)
refuse_if-Ends false e h = Ends.accepted refl

module _ {F : Type 0} (o : Outside F) where
  -- `w` is an accepted spelling of `v`.
  abbrev IsSpelling : List Text → Text → Text → Type 0
  IsSpelling words v w = (listed w words ≡ true) × (o.equal_fold v w ≡ true)

  abbrev IsUnknown : List Text → Text → Type 0
  IsUnknown words v = (w : Text) → listed w words ≡ true → o.equal_fold v w ≡ false

  canonical_from-Ends :
      (v name : Text) (words wants : List Text)
      → Ends
          (IsSpelling wants v)
          (λ e. (e ≡ InvalidValue.no_such_name name v words) × IsUnknown wants v)
          (canonical_from o v name words wants)
  unfolding canonical_from
  canonical_from-Ends v name words [] = Ends.refused (refl, λ w e. absurd cc)
  canonical_from-Ends v name words (want ∷ wants) = elim (Bool-cases (o.equal_fold v want)) [
    | inl same ↦ rw same (Ends.accepted (ground (arith, text_eq_refl want), same))
    | inr other ↦ rw other (
        map-Ends (canonical_from o v name words wants) (λ w p. (ground (arith, p.0), p.1))
          (λ _ p. (
            p.0,
            λ w m. elim (Bool-cases (text_eq w want)) [
              | inl is ↦ rw ((text_eq_iff w want).0 is) other
              | inr not_it ↦ p.1 w (ground (arith, m, not_it))
            ],
          ))
          (canonical_from-Ends v name words wants))
  ]

  -- The table of the settings with a fixed vocabulary: the name, the value and the accepted words.
  pub data Setting (c : ConfigSet F) : Text → Text → List Text → Type 0 where
    level : Setting c (codes "log.level") c.log.level log_levels
    format : Setting c (codes "log.format") c.log.format log_formats
    precision : Setting c (codes "db.precision") c.db.precision precisions
    hashing : Setting c (codes "db.hashing-function.name") c.db.hashing_function hashing_functions
    search : Setting c (codes "db.search-algorithm.name") c.db.search_algorithm search_algorithms
    scoring :
        Setting c (codes "db.scoring-algorithm.name") c.db.scoring_algorithm scoring_algorithms
    relevance : Setting c (codes "db.relevance-model.name") c.db.relevance_model relevance_models

  abbrev is_fraction : F → Bool
  is_fraction r = o.at_most o.nought r && o.at_most r o.one

  abbrev below_or_above : ℤ → ℤ → ℤ → Bool
  below_or_above low high n = int_ltb n low || int_ltb high n

  -- What an error says of the configuration.
  pub data Blamed (c : ConfigSet F) : InvalidValue F → Type 0 where
    no_such_name :
        {name v : Text} {words : List Text}
        → Setting c name v words
        → IsUnknown words v
        → Blamed c (InvalidValue.no_such_name name v words)
    min_score_ratio :
        {r : F}
        → r ≡ c.db.min_score_ratio
        → is_fraction r ≡ false
        → Blamed c (InvalidValue.min_score_ratio r)
    window_gamma :
        {w : F}
        → w ≡ c.db.window_gamma
        → o.at_most w o.one ≡ false
        → Blamed c (InvalidValue.window_gamma w)
    workers :
        {n : ℤ} → n ≡ c.workers → int_ltb n (ℤ.pos 1) ≡ true → Blamed c (InvalidValue.workers n)
    max_depth :
        {n : ℤ}
        → n ≡ c.db.max_depth
        → below_or_above (ℤ.pos 0) (ℤ.pos 2) n ≡ true
        → Blamed c (InvalidValue.max_depth n)
    max_top :
        {n : ℤ} → n ≡ c.db.max_top → int_ltb n (ℤ.pos 1) ≡ true → Blamed c (InvalidValue.max_top n)
    num_graphs :
        {n : ℤ}
        → n ≡ c.db.num_graphs
        → below_or_above (ℤ.pos 1) (ℤ.pos 256) n ≡ true
        → Blamed c (InvalidValue.num_graphs n)

  -- Every name of `d` is an accepted spelling of that of `c`, and the numbers are those of `c`.
  pub record IsNamed (c d : ConfigSet F) : Type 0 where
    pub level : IsSpelling log_levels c.log.level d.log.level
    pub format : IsSpelling log_formats c.log.format d.log.format
    pub precision : IsSpelling precisions c.db.precision d.db.precision
    pub hashing : IsSpelling hashing_functions c.db.hashing_function d.db.hashing_function
    pub search : IsSpelling search_algorithms c.db.search_algorithm d.db.search_algorithm
    pub scoring : IsSpelling scoring_algorithms c.db.scoring_algorithm d.db.scoring_algorithm
    pub relevance : IsSpelling relevance_models c.db.relevance_model d.db.relevance_model
    pub same_ratio : d.db.min_score_ratio ≡ c.db.min_score_ratio
    pub same_gamma : d.db.window_gamma ≡ c.db.window_gamma
    pub same_workers : d.workers ≡ c.workers
    pub same_depth : d.db.max_depth ≡ c.db.max_depth
    pub same_top : d.db.max_top ≡ c.db.max_top
    pub same_graphs : d.db.num_graphs ≡ c.db.num_graphs

  pub record IsInRange (d : ConfigSet F) : Type 0 where
    pub ratio : is_fraction d.db.min_score_ratio ≡ true
    pub gamma : o.at_most d.db.window_gamma o.one ≡ true
    pub workers : int_ltb d.workers (ℤ.pos 1) ≡ false
    pub depth : below_or_above (ℤ.pos 0) (ℤ.pos 2) d.db.max_depth ≡ false
    pub top : int_ltb d.db.max_top (ℤ.pos 1) ≡ false
    pub graphs : below_or_above (ℤ.pos 1) (ℤ.pos 256) d.db.num_graphs ≡ false

  canonical-Ends :
      (c : ConfigSet F) {v name : Text} {words : List Text}
      → Setting c name v words
      → Ends (IsSpelling words v) (Blamed c) (canonical o v name words)
  unfolding canonical
  canonical-Ends c {v} {name} {words} s =
      map-Ends (canonical_from o v name words words) (λ w p. p)
        (λ e p. rw p.0 (Blamed.no_such_name s p.1)) (canonical_from-Ends v name words words)

  canonical_names-Ends : (c : ConfigSet F) → Ends (IsNamed c) (Blamed c) (canonical_names o c)
  unfolding canonical_names
  canonical_names-Ends c = bind-Ends _ _ (canonical-Ends c Setting.level) (λ _ level.
      bind-Ends _ _ (canonical-Ends c Setting.format) (λ _ format.
        bind-Ends _ _ (canonical-Ends c Setting.precision) (λ _ precision.
          bind-Ends _ _ (canonical-Ends c Setting.hashing) (λ _ hashing.
            bind-Ends _ _ (canonical-Ends c Setting.search) (λ _ search.
              bind-Ends _ _ (canonical-Ends c Setting.scoring) (λ _ scoring.
                bind-Ends _ _ (canonical-Ends c Setting.relevance) (λ _ relevance.
                  Ends.accepted (record {
                    level = level;
                    format = format;
                    precision = precision;
                    hashing = hashing;
                    search = search;
                    scoring = scoring;
                    relevance = relevance;
                    same_ratio = refl;
                    same_gamma = refl;
                    same_workers = refl;
                    same_depth = refl;
                    same_top = refl;
                    same_graphs = refl;
                  }))))))))

  check_numbers-Ends :
      (c d : ConfigSet F) → IsNamed c d → Ends (λ _. IsInRange d) (Blamed c) (check_numbers o d)
  unfolding check_numbers
  check_numbers-Ends c d h =
      bind-Ends _ _
        (refuse_if-Ends (not (is_fraction d.db.min_score_ratio)) _
          (λ e. Blamed.min_score_ratio h.same_ratio (ground (arith, e))))
        (λ _ ratio.
          bind-Ends _ _
            (refuse_if-Ends (not (o.at_most d.db.window_gamma o.one)) _
              (λ e. Blamed.window_gamma h.same_gamma (ground (arith, e))))
            (λ _ gamma.
              bind-Ends _ _ (refuse_if-Ends _ _ (Blamed.workers h.same_workers)) (λ _ workers.
                bind-Ends _ _ (refuse_if-Ends _ _ (Blamed.max_depth h.same_depth)) (λ _ depth.
                  bind-Ends _ _ (refuse_if-Ends _ _ (Blamed.max_top h.same_top)) (λ _ top.
                    map-Ends _
                      (λ _ graphs. record {
                        ratio = ground (arith, ratio);
                        gamma = ground (arith, gamma);
                        workers = workers;
                        depth = depth;
                        top = top;
                        graphs = graphs;
                      })
                      (λ _ e. e) (refuse_if-Ends _ _ (Blamed.num_graphs h.same_graphs)))))))

  -- validate accepts a configuration with each name rewritten to an accepted word that equals it under
  -- case folding, the numbers unchanged and in their ranges; or it returns an error that names a setting
  -- of the configuration with its value, which no accepted word equals or which is out of its range.
  pub validate-Ends :
      (c : ConfigSet F) → Ends (λ d. IsNamed c d × IsInRange d) (Blamed c) (validate o c)
  unfolding validate
  validate-Ends c = bind-Ends _ _ (canonical_names-Ends c) (λ d named.
      bind-Ends _ _ (check_numbers-Ends c d named) (λ _ ranged. Ends.accepted (named, ranged)))
