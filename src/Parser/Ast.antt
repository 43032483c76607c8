-- ===== src/Parser/Ast.antt =====
-- internal/query/parser/ast.go: the nodes of the syntax tree and what the query layer reads of them.
use fraise.Prelude.{
  ◌++◌, ℕ, Bool, true, false, ◌&&◌, ◌||◌, List, [], ◌∷◌, Option, none, some, ltb, length,
  if◌then◌else◌,
}
use fraise.Prelude.Text.{Text}
use fraise.Prelude.Decimal.{ℤ, int_ltb}
use fraise.Lexer.Token.{TokenType, Token, Position, type_eq}
use fraise.Containers.Time.{TimeValue}

pub data ClauseType : Type 0 where
  must : ClauseType
  must_not : ClauseType
  loose : ClauseType

pub record GraphSelectorNode : Type 0 where
  pub key : Token
  pub value : ℕ
  pub pos : Position
  pub end : Position

pub record ClauseNode : Type 0 where
  pub clause : ClauseType
  pub value : Token

pub record TermNode : Type 0 where
  pub token : Token
  pub value : Text
  pub pos : Position
  pub end : Position

pub record PhraseNode : Type 0 where
  pub value : Text
  pub pos : Position
  pub end : Position

-- An `EntityFieldNode` or a `TopicFieldNode`, which have the same fields.
pub record NameFieldNode : Type 0 where
  pub key : Token
  pub token : Token
  pub value : Text
  pub pos : Position
  pub end : Position

pub data FieldNode : Type 0 where
  entity_field : NameFieldNode → FieldNode
  topic_field : NameFieldNode → FieldNode

pub record AnchorFieldNode : Type 0 where
  pub clause : Option ClauseNode
  pub token : Token
  pub field : FieldNode

-- A `SinceFieldNode` or an `UntilFieldNode`; no value is a clause that is not there.
pub record BoundFieldNode (Time : Type 0) : Type 0 where
  pub key : Token
  pub token : Token
  pub value : Option (TimeValue Time)
  pub pos : Position
  pub end : Position

-- A `TopFieldNode` or a `DepthFieldNode`.
pub record NumberFieldNode : Type 0 where
  pub key : Token
  pub value : ℤ
  pub pos : Position
  pub end : Position

-- The value is none for a nil slice, where no parameter has the name.
pub record VecFieldNode (P : Type 0) : Type 0 where
  pub key : Token
  pub param : Token
  pub value : Option (List P)
  pub pos : Position
  pub end : Position

pub record RecallCommandNode (P Time : Type 0) : Type 0 where
  pub key : Token
  pub selector : GraphSelectorNode
  pub terms : List TermNode
  pub entities : List AnchorFieldNode
  pub topics : List AnchorFieldNode
  pub top : NumberFieldNode
  pub depth : NumberFieldNode
  pub since : BoundFieldNode Time
  pub until : BoundFieldNode Time
  pub vec : Option (VecFieldNode P)
  pub pos : Position
  pub end : Position

pub record RememberCommandNode (P : Type 0) : Type 0 where
  pub key : Token
  pub selector : GraphSelectorNode
  pub value : PhraseNode
  pub anchors : List AnchorFieldNode
  pub vec : Option (VecFieldNode P)
  pub pos : Position
  pub end : Position

pub data CommandNode (P Time : Type 0) : Type 0 where
  recall : RecallCommandNode P Time → CommandNode P Time
  remember : RememberCommandNode P → CommandNode P Time

unfoldable pub field_value : FieldNode → Text
field_value (FieldNode.entity_field f) = f.value
field_value (FieldNode.topic_field f) = f.value

unfoldable pub anchor_value : AnchorFieldNode → Text
anchor_value a = field_value a.field

unfoldable pub anchor_values : List AnchorFieldNode → List Text
anchor_values [] = []
anchor_values (a ∷ anchors) = anchor_value a ∷ anchor_values anchors

unfoldable pub term_values : List TermNode → List Text
term_values [] = []
term_values (t ∷ terms) = t.value ∷ term_values terms

-- The methods of the list type `Terms`; `End` gives the place where the last term starts.
unfoldable pub terms_literal : List TermNode → Text
terms_literal [] = []
terms_literal (t ∷ terms) = t.value ++ terms_literal terms

unfoldable pub terms_pos : List TermNode → Position
terms_pos [] = 0
terms_pos (t ∷ terms) = t.pos

unfoldable pub terms_end : List TermNode → Position
terms_end [] = 0
terms_end (t ∷ []) = t.pos
terms_end (t ∷ u ∷ terms) = terms_end (u ∷ terms)

-- `RememberCommandNode.Entities`: the anchors whose field is an entity.
unfoldable pub entities_of : List AnchorFieldNode → List Text
entities_of [] = []
entities_of (a ∷ anchors) = elim (a.field) [
  | FieldNode.entity_field f ↦ f.value ∷ entities_of anchors
  | FieldNode.topic_field f ↦ entities_of anchors
]

unfoldable pub topics_of : List AnchorFieldNode → List Text
topics_of [] = []
topics_of (a ∷ anchors) = elim (a.field) [
  | FieldNode.entity_field f ↦ topics_of anchors
  | FieldNode.topic_field f ↦ f.value ∷ topics_of anchors
]

-- The vector of `vec:`, and nothing without the clause.
unfoldable pub vec_value : {P : Type 0} → Option (VecFieldNode P) → Option (List P)
vec_value none = none
vec_value (some v) = v.value

unfoldable pub vec_param : {P : Type 0} → Option (VecFieldNode P) → Option Text
vec_param none = none
vec_param (some v) = some v.param.literal

module _ {P Time : Type 0} where
  unfoldable pub has_top : RecallCommandNode P Time → Bool
  has_top r = type_eq r.top.key.type TokenType.top

  unfoldable pub top_or : RecallCommandNode P Time → ℤ → ℤ
  top_or r v = if has_top r then r.top.value else v

  unfoldable pub has_depth : RecallCommandNode P Time → Bool
  has_depth r = type_eq r.depth.key.type TokenType.depth

  unfoldable pub anchored_search : RecallCommandNode P Time → Bool
  anchored_search r =
      (ltb 0 (length r.topics) || ltb 0 (length r.entities))
      && (ltb 0 (length r.terms) || elim (r.vec) [ none ↦ false | some _ ↦ true ])

  unfoldable pub depth_or : RecallCommandNode P Time → ℤ → ℤ
  depth_or r v =
      let asked = if has_depth r then r.depth.value else v in
      if int_ltb asked (ℤ.pos 1) && anchored_search r then ℤ.pos 1 else asked
