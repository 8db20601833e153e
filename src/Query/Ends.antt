-- ===== src/Query/Ends.antt =====
-- src/ha_backend/search_query.py: the parser ends.
use healtharchive.Base.{
  ℕ, zero, suc, ◌≤◌, ◌<◌, ◌≡◌, sym, Option, none, some, List, [], ◌∷◌, length, arith, Option-cases,
  some_injective, inl, inr,
}
use healtharchive.Query.Tokens.{Token, word, phrase, lparen, rparen, colon, op_and, op_or, op_not}
use healtharchive.Query.Syntax.{QueryNode, QueryNodes, none_left, also, and_all, or_all}
use healtharchive.Query.Flatten.{IsNormal, AllNormal, IsNormal-and_all, IsNormal-or_all}
use healtharchive.Query.Parser.{
  Parsed, parsed, refused, spent, then_parse, parse_primary, parse_not, and_goes_on, or_goes_on,
  parse_items, parse_and, parse_or, at_end, parse,
}
use healtharchive.Query.Parses.{Good, GoodTo, Good-parse_not}

abbrev GoodItems : List Token → Parsed QueryNodes → Type 0
GoodItems tokens (parsed none_left rest) = ⊥
GoodItems tokens (parsed (also n ns) rest) = (length rest < length tokens) × AllNormal (also n ns)
GoodItems tokens (refused e) = Unit
GoodItems tokens spent = ⊥

-- `goes_on` gives no token back.
abbrev Shrinks : (List Token → Option (List Token)) → Type 0
Shrinks goes_on = (left next : List Token) → goes_on left ≡ some next → length next ≤ length left

shorter : {xs ys : List Token} {n : ℕ} → xs ≡ ys → length xs ≤ n → length ys ≤ n
shorter e h = rw (sym e) h

Shrinks-and_goes_on : Shrinks and_goes_on
unfolding and_goes_on
Shrinks-and_goes_on [] next e = absurd cc
Shrinks-and_goes_on (op_and ∷ rest) next e = shorter (some_injective e) (omega arith)
Shrinks-and_goes_on (word s ∷ rest) next e = shorter (some_injective e) (omega arith)
Shrinks-and_goes_on (phrase s ∷ rest) next e = shorter (some_injective e) (omega arith)
Shrinks-and_goes_on (lparen ∷ rest) next e = shorter (some_injective e) (omega arith)
Shrinks-and_goes_on (op_not ∷ rest) next e = shorter (some_injective e) (omega arith)
Shrinks-and_goes_on (rparen ∷ rest) next e = absurd cc
Shrinks-and_goes_on (colon ∷ rest) next e = absurd cc
Shrinks-and_goes_on (op_or ∷ rest) next e = absurd cc

Shrinks-or_goes_on : Shrinks or_goes_on
unfolding or_goes_on
Shrinks-or_goes_on [] next e = absurd cc
Shrinks-or_goes_on (op_or ∷ rest) next e = shorter (some_injective e) (omega arith)
Shrinks-or_goes_on (word s ∷ rest) next e = absurd cc
Shrinks-or_goes_on (phrase s ∷ rest) next e = absurd cc
Shrinks-or_goes_on (lparen ∷ rest) next e = absurd cc
Shrinks-or_goes_on (op_not ∷ rest) next e = absurd cc
Shrinks-or_goes_on (rparen ∷ rest) next e = absurd cc
Shrinks-or_goes_on (colon ∷ rest) next e = absurd cc
Shrinks-or_goes_on (op_and ∷ rest) next e = absurd cc

GoodItems-also :
    (tokens next : List Token) (node : QueryNode) (o : Parsed QueryNodes)
    → length next < length tokens
    → IsNormal node
    → GoodItems next o
    → GoodItems tokens (then_parse o (λ nodes end. parsed (also node nodes) end))
GoodItems-also tokens next node (parsed none_left end) l n h = absurd h
GoodItems-also tokens next node (parsed (also m ms) end) l n h = (omega (arith, h.0), (n, h.1))
GoodItems-also tokens next node (refused e) l n h = tt
GoodItems-also tokens next node spent l n h = h

Good-join :
    (join : QueryNodes → QueryNode)
    → ((n : QueryNode) (ns : QueryNodes) → AllNormal (also n ns) → IsNormal (join (also n ns)))
    → (tokens : List Token) (o : Parsed QueryNodes) → GoodItems tokens o
    → Good tokens (then_parse o (λ nodes left. parsed (join nodes) left))
Good-join join normal tokens (parsed none_left left) h = absurd h
Good-join join normal tokens (parsed (also n ns) left) h = (h.0, normal n ns h.1)
Good-join join normal tokens (refused e) h = tt
Good-join join normal tokens spent h = h

module _ (k : ℕ) (item : List Token → Parsed QueryNode) (good : GoodTo k item)
    (goes_on : List Token → Option (List Token)) (shrinks : Shrinks goes_on) where
  abbrev GoodAt : ℕ → Type 0
  GoodAt fuel =
      (tokens : List Token)
      → length tokens ≤ k
      → length tokens < fuel
      → GoodItems tokens (parse_items item goes_on fuel tokens)

  Good-items_after :
      (fuel : ℕ)
      → GoodAt fuel
      → (tokens : List Token) (o : Parsed QueryNode) → Good tokens o
      → length tokens ≤ k
      → length tokens ≤ fuel
      → GoodItems tokens (
          then_parse o (λ node left. elim (goes_on left) [
            | none ↦ parsed (also node none_left) left
            | some next ↦
                then_parse
                  (parse_items item goes_on fuel next)
                  (λ nodes end. parsed (also node nodes) end)
          ]))
  Good-items_after fuel more tokens (refused e) g h f = tt
  Good-items_after fuel more tokens spent g h f = g
  Good-items_after fuel more tokens (parsed node left) g h f = elim (Option-cases (goes_on left)) [
    | inl e ↦ rw e (g.0, (g.1, tt))
    | inr (next, e) ↦
        let l = shrinks left next e in
        rw e (
          GoodItems-also tokens next node (parse_items item goes_on fuel next) (omega (arith, g.0))
            g.1 (more next (omega (arith, g.0)) (omega (arith, g.0))))
  ]

  Good-parse_items : (fuel : ℕ) → GoodAt fuel
  unfolding parse_items
  Good-parse_items zero tokens h f = absurd (omega arith)
  Good-parse_items (suc fuel) tokens h f =
      Good-items_after fuel (Good-parse_items fuel) tokens (item tokens) (good tokens h) h
        (omega arith)

Good-parse_and :
    (k : ℕ) (nested : List Token → Parsed QueryNode)
    → GoodTo k nested
    → (fuel : ℕ) (tokens : List Token) → length tokens ≤ suc k
    → suc k < fuel
    → Good tokens (parse_and nested fuel tokens)
unfolding parse_and
Good-parse_and k nested good fuel tokens h f =
    Good-join and_all IsNormal-and_all tokens
      (parse_items (parse_not nested fuel) and_goes_on fuel tokens)
      (Good-parse_items (suc k) (parse_not nested fuel)
        (λ ts l. Good-parse_not k nested good fuel ts l (omega arith)) and_goes_on
        Shrinks-and_goes_on fuel tokens h (omega arith))

Good-parse_or :
    (fuel : ℕ) (tokens : List Token) → length tokens < fuel → Good tokens (parse_or fuel tokens)
unfolding parse_or
Good-parse_or zero tokens h = absurd (omega arith)
Good-parse_or (suc zero) [] h = unfold parse_items parse_and parse_not parse_primary in tt
Good-parse_or (suc zero) (t ∷ ts) h = absurd (omega arith)
Good-parse_or (suc (suc fuel)) tokens h =
    Good-join or_all IsNormal-or_all tokens
      (parse_items (parse_and (parse_or (suc fuel)) (suc (suc fuel))) or_goes_on (suc (suc fuel))
        tokens)
      (Good-parse_items (suc fuel) (parse_and (parse_or (suc fuel)) (suc (suc fuel)))
        (λ ts l.
          Good-parse_and fuel (parse_or (suc fuel))
            (λ us m. Good-parse_or (suc fuel) us (omega arith)) (suc (suc fuel)) ts l (omega arith))
        or_goes_on Shrinks-or_goes_on (suc (suc fuel)) tokens (omega arith) (omega arith))

-- The parser ends with a normal query in which nothing is left over, or with an error.
abbrev pub Ends : Parsed QueryNode → Type 0
Ends (parsed node []) = IsNormal node
Ends (parsed node (tok ∷ rest)) = ⊥
Ends (refused e) = Unit
Ends spent = ⊥

Ends-at_end :
    (tokens : List Token) (o : Parsed QueryNode) → Good tokens o → Ends (then_parse o at_end)
unfolding at_end
Ends-at_end tokens (parsed node []) h = h.1
Ends-at_end tokens (parsed node (tok ∷ rest)) h = tt
Ends-at_end tokens (refused e) h = tt
Ends-at_end tokens spent h = h

-- With more fuel than there are tokens the parser ends, with an error or with a query that uses all
-- the tokens and in which each "and" and "or" has two children at least, none of its own kind.
pub parse-Ends : (fuel : ℕ) (tokens : List Token) → length tokens < fuel → Ends (parse fuel tokens)
unfolding parse
parse-Ends fuel tokens h = Ends-at_end tokens (parse_or fuel tokens) (Good-parse_or fuel tokens h)
