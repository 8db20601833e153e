-- ===== src/Query/Parses.antt =====
-- src/ha_backend/search_query.py: what the methods of the parser leave.
use healtharchive.Base.{
  ℕ, zero, suc, ◌≤◌, ◌<◌, String, List, [], ◌∷◌, length, arith, Bool-cases, inl, inr,
}
use healtharchive.Base.Text.{lower}
use healtharchive.Query.Tokens.{
  Token, word, phrase, lparen, rparen, colon, op_and, op_or, op_not, is_field_name,
}
use healtharchive.Query.Syntax.{QueryNode, not_of}
use healtharchive.Query.Flatten.{IsNormal}
use healtharchive.Query.Parser.{
  Parsed, parsed, refused, spent, then_parse, expect_rparen, parse_field, parse_word, parse_primary,
  parse_not,
}

-- A result of `tokens` that is not for want of fuel: a normal node, and fewer tokens are left.
abbrev pub Good : List Token → Parsed QueryNode → Type 0
Good tokens (parsed node rest) = (length rest < length tokens) × IsNormal node
Good tokens (refused e) = Unit
Good tokens spent = ⊥

-- A parser that is good on every list of at most `k` tokens.
abbrev pub GoodTo : ℕ → (List Token → Parsed QueryNode) → Type 0
GoodTo k p = (tokens : List Token) → length tokens ≤ k → Good tokens (p tokens)

Good-longer :
    (t : Token) (tokens : List Token) (o : Parsed QueryNode) → Good tokens o → Good (t ∷ tokens) o
Good-longer t tokens (parsed node rest) h = (omega (arith, h.0), h.1)
Good-longer t tokens (refused e) h = tt
Good-longer t tokens spent h = h

Good-expect :
    (tokens : List Token) (node : QueryNode) (rest : List Token)
    → length rest < length tokens
    → IsNormal node
    → Good tokens (expect_rparen node rest)
unfolding expect_rparen
Good-expect tokens node [] h n = tt
Good-expect tokens node (rparen ∷ rest) h n = (omega arith, n)
Good-expect tokens node (word s ∷ rest) h n = tt
Good-expect tokens node (phrase s ∷ rest) h n = tt
Good-expect tokens node (lparen ∷ rest) h n = tt
Good-expect tokens node (colon ∷ rest) h n = tt
Good-expect tokens node (op_and ∷ rest) h n = tt
Good-expect tokens node (op_or ∷ rest) h n = tt
Good-expect tokens node (op_not ∷ rest) h n = tt

Good-field :
    (f : String) (t u : Token) (rest : List Token) → Good (t ∷ u ∷ rest) (parse_field f rest)
unfolding parse_field
Good-field f t u [] = tt
Good-field f t u (phrase s ∷ rest) = (omega arith, tt)
Good-field f t u (word s ∷ rest) = (omega arith, tt)
Good-field f t u (lparen ∷ rest) = tt
Good-field f t u (rparen ∷ rest) = tt
Good-field f t u (colon ∷ rest) = tt
Good-field f t u (op_and ∷ rest) = tt
Good-field f t u (op_or ∷ rest) = tt
Good-field f t u (op_not ∷ rest) = tt

Good-word : (s : String) (rest : List Token) → Good (word s ∷ rest) (parse_word s rest)
unfolding parse_word
Good-word s (colon ∷ rest) = elim (Bool-cases (is_field_name (lower s))) [
  | inl e ↦ rw e (Good-field (lower s) (word s) colon rest)
  | inr e ↦ rw e tt
]
Good-word s [] = (omega arith, tt)
Good-word s (phrase u ∷ rest) = (omega arith, tt)
Good-word s (word u ∷ rest) = (omega arith, tt)
Good-word s (lparen ∷ rest) = (omega arith, tt)
Good-word s (rparen ∷ rest) = (omega arith, tt)
Good-word s (op_and ∷ rest) = (omega arith, tt)
Good-word s (op_or ∷ rest) = (omega arith, tt)
Good-word s (op_not ∷ rest) = (omega arith, tt)

Good-nested :
    (rest : List Token) (o : Parsed QueryNode)
    → Good rest o
    → Good (lparen ∷ rest) (then_parse o expect_rparen)
Good-nested rest (parsed node left) h =
    Good-expect (lparen ∷ rest) node left (omega (arith, h.0)) h.1
Good-nested rest (refused e) h = tt
Good-nested rest spent h = h

Good-not :
    (rest : List Token) (o : Parsed QueryNode)
    → Good rest o
    → Good (op_not ∷ rest) (then_parse o (λ child left. parsed (not_of child) left))
Good-not rest (parsed node left) h = (omega (arith, h.0), h.1)
Good-not rest (refused e) h = tt
Good-not rest spent h = h

module _ (k : ℕ) (nested : List Token → Parsed QueryNode) (good : GoodTo k nested) where
  Good-primary :
      (tokens : List Token) → length tokens ≤ suc k → Good tokens (parse_primary nested tokens)
  unfolding parse_primary
  Good-primary [] h = tt
  Good-primary (lparen ∷ rest) h = Good-nested rest (nested rest) (good rest (omega arith))
  Good-primary (phrase s ∷ rest) h = (omega arith, tt)
  Good-primary (word s ∷ rest) h = Good-word s rest
  Good-primary (rparen ∷ rest) h = tt
  Good-primary (colon ∷ rest) h = tt
  Good-primary (op_and ∷ rest) h = tt
  Good-primary (op_or ∷ rest) h = tt
  Good-primary (op_not ∷ rest) h = tt

  pub Good-parse_not :
      (fuel : ℕ) (tokens : List Token)
      → length tokens ≤ suc k
      → length tokens < fuel
      → Good tokens (parse_not nested fuel tokens)
  unfolding parse_not
  Good-parse_not zero tokens h f = absurd (omega arith)
  Good-parse_not (suc fuel) (op_not ∷ rest) h f =
      Good-not rest (parse_not nested fuel rest)
        (Good-parse_not fuel rest (omega arith) (omega arith))
  Good-parse_not (suc fuel) [] h f = Good-primary [] h
  Good-parse_not (suc fuel) (word s ∷ rest) h f = Good-primary (word s ∷ rest) h
  Good-parse_not (suc fuel) (phrase s ∷ rest) h f = Good-primary (phrase s ∷ rest) h
  Good-parse_not (suc fuel) (lparen ∷ rest) h f = Good-primary (lparen ∷ rest) h
  Good-parse_not (suc fuel) (rparen ∷ rest) h f = Good-primary (rparen ∷ rest) h
  Good-parse_not (suc fuel) (colon ∷ rest) h f = Good-primary (colon ∷ rest) h
  Good-parse_not (suc fuel) (op_and ∷ rest) h f = Good-primary (op_and ∷ rest) h
  Good-parse_not (suc fuel) (op_or ∷ rest) h f = Good-primary (op_or ∷ rest) h
