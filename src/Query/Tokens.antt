-- ===== src/Query/Tokens.antt =====
-- src/ha_backend/search_query.py: Token and tokenize, over the texts of `str`.
use healtharchive.Base.{
  ℕ, zero, suc, ◌≡◌, refl, String, Bool, true, false, ◌&&◌, ◌||◌, Option, none, some, List, [], ◌∷◌,
  ◌++◌, ◌==◌, ltb, str_eq, str_mem, length, if◌then◌else◌,
}
use healtharchive.Base.Text.{strip, lower, concat, is_space}
use Prim.Native.Char.{Char, code}

-- A token of the source has a type and, for a word and a phrase, a value.
pub data Token : Type 0 where
  word : String → Token
  phrase : String → Token
  lparen rparen colon op_and op_or op_not : Token

pub data QueryError : Type 0 where
  too_complex empty_query unexpected_end expected_rparen expected_term : QueryError
  expected_after_field trailing_input : QueryError
  unknown_field : String → QueryError

abbrev pub field_names : List String
field_names = "title" ∷ "snippet" ∷ "url" ∷ []

unfoldable pub is_field_name : String → Bool
is_field_name value = str_mem value field_names

-- The phrase after its opening quote: its text and what stands behind the closing quote, if any.
unfoldable pub read_phrase : String → String × String
read_phrase String.[] = (String.[], String.[])
read_phrase (String.◌∷◌ c String.[]) =
    if code c == 34 then (String.[], String.[]) else (String.◌∷◌ c String.[], String.[])
read_phrase (String.◌∷◌ c (String.◌∷◌ d rest)) = elim (code c == 92) [
  | true ↦ let (text, behind) = read_phrase rest in (String.◌∷◌ d text, behind)
  | false ↦ elim (code c == 34) [
    | true ↦ (String.[], String.◌∷◌ d rest)
    | false ↦ let (text, behind) = read_phrase (String.◌∷◌ d rest) in (String.◌∷◌ c text, behind)
  ]
]

-- The tokens of a word that no field prefix ended; `is_alnum` is str.isalnum of a character.
unfoldable pub word_tokens : (Char → Bool) → String → List Token
word_tokens is_alnum String.[] = []
word_tokens is_alnum (String.◌∷◌ c String.[]) = word (String.◌∷◌ c String.[]) ∷ []
word_tokens is_alnum (String.◌∷◌ c (String.◌∷◌ d rest)) =
    let text : String = String.◌∷◌ c (String.◌∷◌ d rest) in
    let lowered : String = lower text in
    if code c == 45 && is_alnum d
    then op_not ∷ word (String.◌∷◌ d rest) ∷ []
    else if str_eq lowered "and"
    then op_and ∷ []
    else if str_eq lowered "or"
    then op_or ∷ []
    else if str_eq lowered "not"
    then op_not ∷ []
    else word text ∷ []

-- cur.isspace() or cur in ("(", ")")
unfoldable pub ends_word : Char → Bool
ends_word c = is_space (code c) || code c == 40 || code c == 41

-- A word from `buf`, the characters read so far: its tokens and what stands behind it.
unfoldable pub read_word : (Char → Bool) → String → String → List Token × String
read_word is_alnum buf String.[] = (word_tokens is_alnum (strip buf), String.[])
read_word is_alnum buf (String.◌∷◌ c rest) = elim (ends_word c) [
  | true ↦ (word_tokens is_alnum (strip buf), String.◌∷◌ c rest)
  | false ↦ elim (code c == 58 && is_field_name (lower buf)) [
    | true ↦ (word (lower buf) ∷ colon ∷ [], rest)
    | false ↦ read_word is_alnum (concat buf (String.◌∷◌ c String.[])) rest
  ]
]

-- One round of the outer loop: its tokens and what is left.
unfoldable pub next_tokens : (Char → Bool) → Char → String → List Token × String
next_tokens is_alnum c rest =
    let (text, behind) = read_phrase rest in
    if is_space (code c)
    then ([], rest)
    else if code c == 40
    then (lparen ∷ [], rest)
    else if code c == 41
    then (rparen ∷ [], rest)
    else if code c == 34
    then (phrase (strip text) ∷ [], behind)
    else read_word is_alnum String.[] (String.◌∷◌ c rest)

-- The outer loop; `none` means that the rounds ran out before the text did.
unfoldable pub scan : (Char → Bool) → ℕ → String → Option (List Token)
scan is_alnum rounds String.[] = some []
scan is_alnum zero (String.◌∷◌ c rest) = none
scan is_alnum (suc rounds) (String.◌∷◌ c rest) =
    let (tokens, left) = next_tokens is_alnum c rest in
    elim (scan is_alnum rounds left) [ none ↦ none | some more ↦ some (tokens ++ more) ]

pub data Tokenized : Type 0 where
  tokens_of : List Token → Tokenized
  too_many : Tokenized
  unfinished : Tokenized

-- The source stops at the first token over the limit; the tokens before it are not used.
unfoldable pub limit_tokens : ℕ → Option (List Token) → Tokenized
limit_tokens max_tokens none = unfinished
limit_tokens max_tokens (some tokens) =
    if ltb max_tokens (length tokens) then too_many else tokens_of tokens

unfoldable pub tokenize : (Char → Bool) → ℕ → ℕ → String → Tokenized
tokenize is_alnum max_tokens rounds value =
    limit_tokens max_tokens (scan is_alnum rounds (strip value))

quoted : read_phrase "a\\\"b\" c" ≡ ("a\"b", " c")
quoted = unfold read_phrase in refl

fielded :
    tokenize (λ c. true) 128 40 "title:flu (a OR -b)"
    ≡ tokens_of (
        word "title"
        ∷ colon
        ∷ word "flu"
        ∷ lparen
        ∷ word "a"
        ∷ op_or
        ∷ op_not
        ∷ word "b"
        ∷ rparen
        ∷ [])
fielded =
    unfold tokenize limit_tokens scan next_tokens read_word word_tokens read_phrase ends_word
      is_field_name strip lower in
    refl
