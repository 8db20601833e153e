-- ===== src/Query/Text.antt =====
-- src/ha_backend/search_query.py: parse_query on any text.
use healtharchive.Base.{
  ℕ, zero, suc, ◌≤◌, ◌≡◌, ◌≢◌, refl, String, Bool, true, false, ◌&&◌, Option, none, some, List, [],
  ◌∷◌, length, ltb, ◌==◌, if◌then◌else◌, arith, Bool-cases, Option-cases, inl, inr, is_some,
}
use healtharchive.Base.Text.{strip, chars, chars-strip, lower, concat, is_space}
use healtharchive.Query.Tokens.{
  Token, Tokenized, tokens_of, too_many, unfinished, tokenize, limit_tokens, scan, next_tokens,
  read_word, read_phrase, ends_word, is_field_name,
}
use healtharchive.Query.Parser.{parse_query, parse_tokens}
use healtharchive.Query.Ends.{Ends, parse-Ends}
use Prim.Native.Char.{Char, code}

chars-read_phrase : (s : String) → chars (read_phrase s).1 ≤ chars s
unfolding read_phrase
chars-read_phrase String.[] = omega arith
chars-read_phrase (String.◌∷◌ c String.[]) = elim (Bool-cases (code c == 34)) [
  | inl e ↦ rw (e, chars) (omega arith)
  | inr e ↦ rw (e, chars) (omega arith)
]
chars-read_phrase (String.◌∷◌ c (String.◌∷◌ d rest)) = elim (Bool-cases (code c == 92)) [
  | inl e ↦ rw (e, chars) (omega (arith, chars-read_phrase rest))
  | inr e ↦
      rw (e, chars)
        (elim (Bool-cases (code c == 34)) [
          | inl f ↦ rw (f, chars) (omega arith)
          | inr f ↦ rw (f, chars) (omega (arith, chars-read_phrase (String.◌∷◌ d rest)))
        ])
]

module _ (is_alnum : Char → Bool) where
  chars-read_word : (buf s : String) → chars (read_word is_alnum buf s).1 ≤ chars s
  unfolding read_word
  chars-read_word buf String.[] = omega arith
  chars-read_word buf (String.◌∷◌ c rest) = elim (Bool-cases (ends_word c)) [
    | inl e ↦ rw (e, chars) (omega arith)
    | inr e ↦
        rw (e, chars)
          (elim (Bool-cases (code c == 58 && is_field_name (lower buf))) [
            | inl f ↦ rw (f, chars) (omega arith)
            | inr f ↦
                rw (f, chars)
                  (omega (arith, chars-read_word (concat buf (String.◌∷◌ c String.[])) rest))
          ])
  ]

  -- A character that is no blank and no parenthesis is read.
  chars-read_word_start :
      (c : Char) (rest : String)
      → ends_word c ≡ false
      → chars (read_word is_alnum String.[] (String.◌∷◌ c rest)).1 ≤ chars rest
  unfolding read_word
  chars-read_word_start c rest h =
      rw (h, chars)
        (elim (Bool-cases (code c == 58 && is_field_name (lower String.[]))) [
          | inl f ↦ rw (f, chars) (omega arith)
          | inr f ↦ rw (f, chars) (chars-read_word (concat String.[] (String.◌∷◌ c String.[])) rest)
        ])

  chars-next_tokens :
      (c : Char) (rest : String) → chars (next_tokens is_alnum c rest).1 ≤ chars rest
  unfolding next_tokens
  chars-next_tokens c rest = elim (Bool-cases (is_space (code c))) [
    | inl e ↦ rw (e, chars) (omega arith)
    | inr e ↦
        rw (e, chars)
          (elim (Bool-cases (code c == 40)) [
            | inl f ↦ rw (f, chars) (omega arith)
            | inr f ↦
                rw (f, chars)
                  (elim (Bool-cases (code c == 41)) [
                    | inl g ↦ rw (g, chars) (omega arith)
                    | inr g ↦
                        rw (g, chars)
                          (elim (Bool-cases (code c == 34)) [
                            | inl h ↦ rw (h, chars) (chars-read_phrase rest)
                            | inr h ↦
                                rw (h, chars)
                                  (chars-read_word_start c rest
                                    (unfold ends_word in rw (e, f, g) refl))
                          ])
                  ])
          ])
  ]

  scan-ends : (rounds : ℕ) (s : String) → chars s ≤ rounds → is_some (scan is_alnum rounds s) ≡ true
  unfolding scan
  scan-ends rounds String.[] h = refl
  scan-ends zero (String.◌∷◌ c rest) h = absurd (omega arith)
  scan-ends (suc rounds) (String.◌∷◌ c rest) h =
      let left = (next_tokens is_alnum c rest).1 in
      let ih = scan-ends rounds left (omega (arith, chars-next_tokens c rest)) in
      elim (Option-cases (scan is_alnum rounds left)) [
        | inl e ↦ absurd cc
        | inr (more, e) ↦ rw (e, is_some) refl
      ]

Ends-parse_tokens : (t : Tokenized) → t ≢ unfinished → Ends (parse_tokens t)
unfolding parse_tokens
Ends-parse_tokens unfinished h = absurd (h refl)
Ends-parse_tokens too_many h = tt
Ends-parse_tokens (tokens_of []) h = tt
Ends-parse_tokens (tokens_of (tok ∷ rest)) h =
    parse-Ends (suc (length (tok ∷ rest))) (tok ∷ rest) (omega arith)

within_limit :
    (b : Bool) (tokens : List Token) → (if b then too_many else tokens_of tokens) ≢ unfinished
within_limit true tokens h = absurd cc
within_limit false tokens h = absurd cc

limit_tokens-ends :
    (max_tokens : ℕ) (o : Option (List Token))
    → is_some o ≡ true
    → limit_tokens max_tokens o ≢ unfinished
unfolding limit_tokens
limit_tokens-ends max_tokens none h = absurd cc
limit_tokens-ends max_tokens (some tokens) h = within_limit (ltb max_tokens (length tokens)) tokens

tokenize-ends :
    (is_alnum : Char → Bool) (max_tokens : ℕ) (value : String)
    → tokenize is_alnum max_tokens (chars value) value ≢ unfinished
unfolding tokenize
tokenize-ends is_alnum max_tokens value =
    limit_tokens-ends max_tokens (scan is_alnum (chars value) (strip value))
      (scan-ends is_alnum (chars value) (strip value) (chars-strip value))

-- On any text, limit and alphabet, parsing ends: with an error, or with a query that uses all the
-- tokens and in which each "and" and "or" has two children at least, none of its own kind.
pub parse_query-Ends :
    (is_alnum : Char → Bool) (max_tokens : ℕ) (value : String)
    → Ends (parse_query is_alnum max_tokens value)
unfolding parse_query
parse_query-Ends is_alnum max_tokens value =
    Ends-parse_tokens (tokenize is_alnum max_tokens (chars value) value)
      (tokenize-ends is_alnum max_tokens value)
