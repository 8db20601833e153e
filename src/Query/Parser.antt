-- ===== src/Query/Parser.antt =====
-- src/ha_backend/search_query.py: _Parser and parse_query, by the tokens that are left.
-- The recursion and the loops are on fuel; `spent` means that it ran out.
use healtharchive.Base.{
  ℕ, zero, suc, String, Bool, true, false, Option, none, some, List, [], ◌∷◌, length, if◌then◌else◌,
}
use healtharchive.Base.Text.{lower, chars}
use healtharchive.Query.Tokens.{
  Token, word, phrase, lparen, rparen, colon, op_and, op_or, op_not, QueryError, too_complex,
  empty_query, unexpected_end, expected_rparen, expected_term, expected_after_field, trailing_input,
  unknown_field, is_field_name, Tokenized, tokens_of, too_many, unfinished, tokenize,
}
use healtharchive.Query.Syntax.{
  QueryNode, QueryNodes, term, not_of, none_left, also, and_all, or_all,
}
use Prim.Native.Char.{Char}

-- What a method of the parser leaves: a result and the tokens that are left, or an error.
pub data Parsed (A : Type 0) : Type 0 where
  parsed : A → List Token → Parsed A
  refused : QueryError → Parsed A
  spent : Parsed A

abbrev pub then_parse : {A B : Type 0} → Parsed A → (A → List Token → Parsed B) → Parsed B
then_parse (parsed a rest) next = next a rest
then_parse (refused e) next = refused e
then_parse spent next = spent

abbrev pub text_term : String → Option String → Bool → QueryNode
text_term text field is_phrase = term (record { text = text; field = field; is_phrase = is_phrase })

-- self._expect(TokenType.rparen)
unfoldable pub expect_rparen : QueryNode → List Token → Parsed QueryNode
expect_rparen node [] = refused unexpected_end
expect_rparen node (rparen ∷ rest) = parsed node rest
expect_rparen node (tok ∷ rest) = refused expected_rparen

-- The term behind `field:`.
unfoldable pub parse_field : String → List Token → Parsed QueryNode
parse_field field [] = refused unexpected_end
parse_field field (phrase text ∷ rest) = parsed (text_term text (some field) true) rest
parse_field field (word text ∷ rest) = parsed (text_term text (some field) false) rest
parse_field field (tok ∷ rest) = refused expected_after_field

-- Behind a word.
unfoldable pub parse_word : String → List Token → Parsed QueryNode
parse_word text (colon ∷ rest) =
    if is_field_name (lower text)
    then parse_field (lower text) rest
    else refused (unknown_field (lower text))
parse_word text rest = parsed (text_term text none false) rest

-- `nested` is self._parse_or behind a parenthesis.
unfoldable pub parse_primary : (List Token → Parsed QueryNode) → List Token → Parsed QueryNode
parse_primary nested [] = refused unexpected_end
parse_primary nested (lparen ∷ rest) = then_parse (nested rest) expect_rparen
parse_primary nested (phrase text ∷ rest) = parsed (text_term text none true) rest
parse_primary nested (word text ∷ rest) = parse_word text rest
parse_primary nested (tok ∷ rest) = refused expected_term

unfoldable pub parse_not : (List Token → Parsed QueryNode) → ℕ → List Token → Parsed QueryNode
parse_not nested zero tokens = spent
parse_not nested (suc fuel) (op_not ∷ rest) =
    then_parse (parse_not nested fuel rest) (λ child left. parsed (not_of child) left)
parse_not nested (suc fuel) tokens = parse_primary nested tokens

-- Where the loop of _parse_and goes on: behind an "and", or at a token that starts a primary.
unfoldable pub and_goes_on : List Token → Option (List Token)
and_goes_on [] = none
and_goes_on (op_and ∷ rest) = some rest
and_goes_on (word text ∷ rest) = some (word text ∷ rest)
and_goes_on (phrase text ∷ rest) = some (phrase text ∷ rest)
and_goes_on (lparen ∷ rest) = some (lparen ∷ rest)
and_goes_on (op_not ∷ rest) = some (op_not ∷ rest)
and_goes_on (tok ∷ rest) = none

-- self._match(TokenType.op_or)
unfoldable pub or_goes_on : List Token → Option (List Token)
or_goes_on [] = none
or_goes_on (op_or ∷ rest) = some rest
or_goes_on (tok ∷ rest) = none

-- The items of a loop that `goes_on` continues: `nodes` of the source from the first item on.
unfoldable pub parse_items :
    (List Token → Parsed QueryNode)
    → (List Token → Option (List Token))
    → ℕ
    → List Token
    → Parsed QueryNodes
parse_items item goes_on zero tokens = spent
parse_items item goes_on (suc fuel) tokens = then_parse (item tokens) (λ node left.
    elim (goes_on left) [
      | none ↦ parsed (also node none_left) left
      | some next ↦
          then_parse (parse_items item goes_on fuel next)
            (λ nodes end. parsed (also node nodes) end)
    ])

unfoldable pub parse_and : (List Token → Parsed QueryNode) → ℕ → List Token → Parsed QueryNode
parse_and nested fuel tokens =
    then_parse (parse_items (parse_not nested fuel) and_goes_on fuel tokens)
      (λ nodes left. parsed (and_all nodes) left)

unfoldable pub parse_or : ℕ → List Token → Parsed QueryNode
parse_or zero tokens = spent
parse_or (suc fuel) tokens =
    then_parse (parse_items (parse_and (parse_or fuel) (suc fuel)) or_goes_on (suc fuel) tokens)
      (λ nodes left. parsed (or_all nodes) left)

unfoldable pub at_end : QueryNode → List Token → Parsed QueryNode
at_end node [] = parsed node []
at_end node (tok ∷ rest) = refused trailing_input

-- _Parser.parse
unfoldable pub parse : ℕ → List Token → Parsed QueryNode
parse fuel tokens = then_parse (parse_or fuel tokens) at_end

-- What tokenize left: no token is refused as an empty query.
unfoldable pub parse_tokens : Tokenized → Parsed QueryNode
parse_tokens unfinished = spent
parse_tokens too_many = refused too_complex
parse_tokens (tokens_of []) = refused empty_query
parse_tokens (tokens_of (tok ∷ rest)) = parse (suc (length (tok ∷ rest))) (tok ∷ rest)

unfoldable pub parse_query : (Char → Bool) → ℕ → String → Parsed QueryNode
parse_query is_alnum max_tokens value =
    parse_tokens (tokenize is_alnum max_tokens (chars value) value)
