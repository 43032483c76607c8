-- ===== src/Parser/WellFormed.antt =====
-- What a node of a command satisfies that was accepted from the query `text`.
use fraise.Prelude.{
  ℕ, suc, length, ◌≤◌, ◌≡◌, ◌≢◌, ◌⊎◌, true, false, ◌||◌, List, [], ◌∷◌, Option, none, some,
}
use fraise.Prelude.Text.{Text}
use fraise.Prelude.Decimal.{ℤ}
use fraise.Lexer.Token.{Unicode, lower, TokenType, Token, is_mis_cased_keyword}
use fraise.Containers.Time.{Clock, TimeValue, TimeResult, parse_time_value}
use fraise.Parser.Ast.{
  GraphSelectorNode, PhraseNode, TermNode, NameFieldNode, FieldNode, AnchorFieldNode,
  BoundFieldNode, NumberFieldNode, VecFieldNode, RecallCommandNode, RememberCommandNode,
  CommandNode,
}
use fraise.Parser.Written.{token_at}
use fraise.Parser.Number.{IntParsed, atoi}
use fraise.Parser.Errors.{is_empty_value, is_relative}
use fraise.Parser.Warnings.{has_seed, has_other_term, is_present, stop_tokens}

module _ (u : Unicode) (text : Text) where
  -- A token that the lexer returns in the query.
  abbrev pub IsToken : Token → Type 0
  IsToken t = (i : ℕ) × (token_at u text i ≡ some t)

  -- A key of the query and the value behind it, with one token, the colon, between them.
  abbrev pub AreClause : Token → Token → Type 0
  AreClause key tok =
      (i : ℕ) × (token_at u text i ≡ some key) × (token_at u text (suc (suc i)) ≡ some tok)

  -- A bare word or a phrase, folded, with something in it; no reserved word in any case.
  pub record IsTerm (t : TermNode) : Type 0 where
    pub kind : (t.token.type ≡ TokenType.literal) ⊎ (t.token.type ≡ TokenType.phrase)
    pub not_reserved : is_mis_cased_keyword u t.token ≡ false
    pub not_empty : is_empty_value u t.token.literal ≡ false
    pub folded : t.value ≡ lower u t.token.literal
    pub written : IsToken t.token
    pub within : t.token.pos ≤ length text

  pub record IsName (kind : TokenType) (f : NameFieldNode) : Type 0 where
    pub key_type : f.key.type ≡ kind
    pub not_empty : is_empty_value u f.token.literal ≡ false
    pub folded : f.value ≡ lower u f.token.literal
    pub written : AreClause f.key f.token
    pub key_within : f.key.pos ≤ length text
    pub within : f.token.pos ≤ length text

  abbrev pub IsEntity : AnchorFieldNode → Type 0
  IsEntity a =
      (f : NameFieldNode) × (a.field ≡ FieldNode.entity_field f) × IsName TokenType.entity f

  abbrev pub IsTopic : AnchorFieldNode → Type 0
  IsTopic a = (f : NameFieldNode) × (a.field ≡ FieldNode.topic_field f) × IsName TokenType.topic f

abbrev pub Every : {A : Type 0} → (A → Type 0) → List A → Type 0
Every P [] = Unit
Every P (x ∷ xs) = P x × Every P xs

module _ (u : Unicode) (text : Text) where
  -- The graph of a query whose command is its token 0: the number that the token 2 spells if the
  -- token 1 is an `@`, and 0 if it is not.
  pub data IsGraph : ℕ → Type 0 where
    default : (t : Token) → token_at u text 1 ≡ some t → t.type ≢ TokenType.at → IsGraph 0
    written :
        {g : ℕ} (key tok : Token)
        → token_at u text 1 ≡ some key
        → key.type ≡ TokenType.at
        → token_at u text 2 ≡ some tok
        → atoi tok.literal ≡ IntParsed.value (ℤ.pos g)
        → g ≤ 255
        → IsGraph g

  -- Its key is the `@`, or the zero token where there is no selector.
  abbrev pub IsSelector : GraphSelectorNode → Type 0
  IsSelector s =
      (s.key.pos ≤ length text)
      × IsGraph s.value
      × ((s.key.type ≡ TokenType.illegal) ⊎ (token_at u text 1 ≡ some s.key))

  -- The fact of a remember: a phrase of the query, with something in it.
  abbrev pub IsFact : PhraseNode → Type 0
  IsFact f =
      (tok : Token) × IsToken u text tok
      × (tok.type ≡ TokenType.phrase)
      × (f.value ≡ tok.literal)
      × (f.pos ≡ tok.pos)
      × (f.pos ≤ length text)
      × (is_empty_value u f.value ≡ false)

  -- Either the zero node, which stands for no clause, or the number that the value of the clause spells.
  abbrev pub IsNumber : TokenType → NumberFieldNode → Type 0
  IsNumber kind f =
      (f.key.pos ≤ length text)
      × ((f.key.type ≡ TokenType.illegal)
          ⊎ ((f.key.type ≡ kind)
              × ((tok : Token) × AreClause u text f.key tok
                  × (atoi tok.literal ≡ IntParsed.value f.value))))

-- Either no clause, or a time that was read, and that was not quoted if it is a duration.
abbrev pub IsBound :
    {Time : Type 0} → Unicode → Text → Clock Time → TokenType → BoundFieldNode Time → Type 0
IsBound {Time} u text clock kind f =
    (f.key.pos ≤ length text)
    × (f.token.pos ≤ length text)
    × (((f.key.type ≡ TokenType.illegal) × (f.value ≡ none))
        ⊎ ((f.key.type ≡ kind)
            × AreClause u text f.key f.token
            × ((t : TimeValue Time) × (f.value ≡ some t)
                × (parse_time_value clock f.token.literal ≡ TimeResult.ok t)
                × (is_relative t ≡ true → f.token.type ≢ TokenType.phrase))))

-- The vector is the one that the client sent under the name, which is three tokens behind the key.
abbrev pub IsVec :
    {P : Type 0} → Unicode → Text → (Text → Option (List P)) → Option (VecFieldNode P) → Type 0
IsVec u text params none = Unit
IsVec u text params (some v) =
    (v.key.pos ≤ length text)
    × (v.param.pos ≤ length text)
    × (v.key.type ≡ TokenType.vec)
    × (v.param.type ≡ TokenType.literal)
    × (v.value ≡ params v.param.literal)
    × ((i : ℕ) × (token_at u text i ≡ some v.key)
        × (token_at u text (suc (suc (suc i))) ≡ some v.param))

module _ (u : Unicode) (text : Text) {P Time : Type 0} (clock : Clock Time)
    (params : Text → Option (List P)) where
  pub record IsRecall (r : RecallCommandNode P Time) : Type 0 where
    pub verb : r.key.type ≡ TokenType.recall
    pub verb_within : r.key.pos ≤ length text
    pub command : token_at u text 0 ≡ some r.key
    pub selector : IsSelector u text r.selector
    pub terms : Every (IsTerm u text) r.terms
    pub entities : Every (IsEntity u text) r.entities
    pub topics : Every (IsTopic u text) r.topics
    pub top : IsNumber u text TokenType.top r.top
    pub depth : IsNumber u text TokenType.depth r.depth
    pub since : IsBound u text clock TokenType.since r.since
    pub until : IsBound u text clock TokenType.until r.until
    pub vec : IsVec u text params r.vec

module _ (u : Unicode) (text : Text) {P : Type 0} (params : Text → Option (List P)) where
  pub record IsRemember (r : RememberCommandNode P) : Type 0 where
    pub verb : r.key.type ≡ TokenType.remember
    pub verb_within : r.key.pos ≤ length text
    pub command : token_at u text 0 ≡ some r.key
    pub selector : IsSelector u text r.selector
    pub fact : IsFact u text r.value
    pub anchors : Every (λ a. IsEntity u text a ⊎ IsTopic u text a) r.anchors
    pub vec : IsVec u text params r.vec

-- A recall has something to search from, and not only stop words.
pub record IsSeeded (u : Unicode) {P Time : Type 0} (r : RecallCommandNode P Time) : Type 0 where
  pub seed : has_seed u r ≡ true
  pub not_only_stop_words :
      (stop_tokens u r.terms ≡ []) ⊎ ((is_present r.vec || has_other_term u r.terms) ≡ true)

module _ (u : Unicode) (text : Text) {P Time : Type 0} (clock : Clock Time)
    (params : Text → Option (List P)) where
  abbrev pub IsAccepted : CommandNode P Time → Type 0
  IsAccepted (CommandNode.recall r) = IsRecall u text clock params r × IsSeeded u r
  IsAccepted (CommandNode.remember r) = IsRemember u text params r
