-- ===== src/Parser/Print.antt =====
-- internal/query/parser/ast.go: the `String` methods, which print a command as a query.
use fraise.Prelude.{List, [], ◌∷◌, ◌++◌, Option, none, some, if◌then◌else◌}
use fraise.Prelude.Text.{Text, join}
use fraise.Prelude.Decimal.{decimal, itoa}
use fraise.Lexer.Token.{TokenType, Token, type_eq}
use fraise.Lexer.Grammar.{quote}
use fraise.Parser.Ast.{
  GraphSelectorNode, TermNode, NameFieldNode, FieldNode, AnchorFieldNode, BoundFieldNode,
  NumberFieldNode, VecFieldNode, RecallCommandNode, RememberCommandNode,
}

unfoldable pub print_selector : GraphSelectorNode → Text
print_selector n = if type_eq n.key.type TokenType.at then b'@' ∷ decimal n.value else []

-- A value quoted again where it was written as a phrase.
unfoldable pub print_value : Token → Text → Text
print_value token value = if type_eq token.type TokenType.phrase then quote value else value

unfoldable pub print_term : TermNode → Text
print_term n = print_value n.token n.value

unfoldable pub print_name : NameFieldNode → Text
print_name n = n.key.literal ++ b':' ∷ print_value n.token n.value

unfoldable pub print_field : FieldNode → Text
print_field (FieldNode.entity_field n) = print_name n
print_field (FieldNode.topic_field n) = print_name n

unfoldable pub print_anchor : AnchorFieldNode → Text
print_anchor n =
    (elim (n.clause) [ none ↦ [] | some c ↦ c.value.literal ])
    ++ (n.token.literal ++ print_field n.field)

unfoldable pub print_bound : {Time : Type 0} → BoundFieldNode Time → Text
print_bound n = n.key.literal ++ b':' ∷ print_value n.token n.token.literal

unfoldable pub print_number : NumberFieldNode → Text
print_number n = n.key.literal ++ b':' ∷ itoa n.value

unfoldable pub print_vec : {P : Type 0} → VecFieldNode P → Text
print_vec n = n.key.literal ++ b':' ∷ b'$' ∷ n.param.literal

unfoldable pub print_optional_vec : {P : Type 0} → Option (VecFieldNode P) → List Text
print_optional_vec none = []
print_optional_vec (some v) = print_vec v ∷ []

unfoldable pub print_if : Token → TokenType → Text → List Text
print_if key type s = if type_eq key.type type then s ∷ [] else []

unfoldable pub print_terms : List TermNode → List Text
print_terms [] = []
print_terms (t ∷ ts) = print_term t ∷ print_terms ts

unfoldable pub print_anchors : List AnchorFieldNode → List Text
print_anchors [] = []
print_anchors (a ∷ anchors) = print_anchor a ∷ print_anchors anchors

unfoldable pub print_remember : {P : Type 0} → RememberCommandNode P → Text
print_remember n = join (
    (n.key.literal ++ print_selector n.selector)
    ∷ quote n.value.value
    ∷ (print_anchors n.anchors ++ print_optional_vec n.vec))

unfoldable pub print_recall : {P Time : Type 0} → RecallCommandNode P Time → Text
print_recall n = join (
    (n.key.literal ++ print_selector n.selector)
    ∷ (print_terms n.terms
        ++ (print_anchors n.entities
            ++ (print_anchors n.topics
                ++ (print_if n.top.key TokenType.top (print_number n.top)
                    ++ (print_if n.depth.key TokenType.depth (print_number n.depth)
                        ++ (print_if n.since.key TokenType.since (print_bound n.since)
                            ++ (print_if n.until.key TokenType.until (print_bound n.until)
                                ++ print_optional_vec n.vec))))))))
