-- ===== src/Base/Text.antt =====
-- Python's `str`, as the native text: equality, `strip`, `lower` and `endswith`.
-- `lower` maps the letters A to Z alone: the texts that the program lowers and then compares are
-- backend names, policies and statuses, which are ASCII.
use Prim.Native.Nat.{ℕ, zero, suc, ◌-◌, ◌%◌, ◌/◌, ◌≤◌}
use Prim.Native.Char.{Char, code}
use Prim.Native.String.{String, char_at, ◌++◌ as append_text}
use mathlib.Core.Path.{◌≡◌, refl}
use mathlib.Core.Logic.{◌↔◌, inl, inr}
use mathlib.Core.Bool.{Bool, true, false, ◌&&◌, ◌||◌}
use mathlib.Core.Option.{Option, none, some}
use mathlib.Core.List.{List, [], ◌∷◌}
use native.Mathlib.Omega.{arith}
use text.Mathlib.Text.{◌==◌ as same_text}
use text.Mathlib.TextEquality.{eq_iff}
use text.Mathlib.TextPositions.{eq_refl}
use healtharchive.Base.Tests.{leb, ltb, ◌==◌, if◌then◌else◌, Bool-cases}

abbrev pub str_eq : String → String → Bool
str_eq s t = same_text s t

pub str_eq_iff : (s t : String) → (str_eq s t ≡ true) ↔ (s ≡ t)
str_eq_iff = eq_iff

pub str_eq_refl : (s : String) → str_eq s s ≡ true
str_eq_refl s = eq_refl s

-- `o == t` where `o` may be None
abbrev pub opt_is : Option String → String → Bool
opt_is none t = false
opt_is (some s) t = str_eq s t

-- `s in (t, u, …)`
abbrev pub str_mem : String → List String → Bool
str_mem s [] = false
str_mem s (t ∷ ts) = str_eq s t || str_mem s ts

is_upper : Char → Bool
is_upper c = leb 65 (code c) && leb (code c) 90

lower_char : Char → Char
unfolding is_upper
lower_char c = if is_upper c then char_at "abcdefghijklmnopqrstuvwxyz" (code c - 65) else c

-- str.isspace of one character
pub is_space : ℕ → Bool
is_space n =
    (leb 9 n && leb n 13)
    || (leb 28 n && leb n 32)
    || n == 133
    || n == 160
    || n == 5760
    || (leb 8192 n && leb n 8202)
    || n == 8232
    || n == 8233
    || n == 8239
    || n == 8287
    || n == 12288

-- str.lower
unfoldable pub lower : String → String
unfolding lower_char
lower String.[] = String.[]
lower (String.◌∷◌ c s) = String.◌∷◌ (lower_char c) (lower s)

lstrip : String → String
unfolding is_space
lstrip String.[] = String.[]
lstrip (String.◌∷◌ c s) = let rest = lstrip s in if is_space (code c) then rest else String.◌∷◌ c s

abbrev push_back : Char → String → String
push_back c String.[] = if is_space (code c) then String.[] else String.◌∷◌ c String.[]
push_back c (String.◌∷◌ d s) = String.◌∷◌ c (String.◌∷◌ d s)

rstrip : String → String
unfolding is_space
rstrip String.[] = String.[]
rstrip (String.◌∷◌ c s) = push_back c (rstrip s)

-- str.strip
unfoldable pub strip : String → String
unfolding lstrip rstrip
strip s = rstrip (lstrip s)

-- The number of characters.
abbrev pub chars : String → ℕ
chars String.[] = 0
chars (String.◌∷◌ c s) = suc (chars s)

chars-lstrip : (s : String) → chars (lstrip s) ≤ chars s
unfolding lstrip
chars-lstrip String.[] = omega arith
chars-lstrip (String.◌∷◌ c s) = ground (arith, chars-lstrip s)

chars-push_back : (c : Char) (s : String) → chars (push_back c s) ≤ suc (chars s)
chars-push_back c String.[] = elim (Bool-cases (is_space (code c))) [
  | inl e ↦ rw (e, chars) (omega arith)
  | inr e ↦ rw (e, chars) (omega arith)
]
chars-push_back c (String.◌∷◌ d s) = omega arith

chars-rstrip : (s : String) → chars (rstrip s) ≤ chars s
unfolding rstrip
chars-rstrip String.[] = omega arith
chars-rstrip (String.◌∷◌ c s) = omega (arith, chars-push_back c (rstrip s), chars-rstrip s)

pub chars-strip : (s : String) → chars (strip s) ≤ chars s
unfolding strip
chars-strip s = omega (arith, chars-rstrip (lstrip s), chars-lstrip s)

-- s + t
abbrev pub concat : String → String → String
concat s t = append_text s t

-- s.startswith(t)
unfoldable pub starts_with : String → String → Bool
starts_with s String.[] = true
starts_with String.[] (String.◌∷◌ d t) = false
starts_with (String.◌∷◌ c s) (String.◌∷◌ d t) = code c == code d && starts_with s t

digit_text : ℕ → String
digit_text d = String.◌∷◌ (char_at "0123456789" d) String.[]

digits_text : ℕ → ℕ → String
unfolding digit_text
digits_text zero n = digit_text (n % 10)
digits_text (suc rounds) n =
    let high = digits_text rounds (n / 10) in
    if ltb n 10 then digit_text n else concat high (digit_text (n % 10))

-- str(n) of a natural number
unfoldable pub show : ℕ → String
unfolding digits_text
show n = digits_text n n

shown : show 2026 ≡ "2026"
unfolding show
shown = refl

-- sep.join(texts)
unfoldable pub join_texts : String → List String → String
join_texts sep [] = ""
join_texts sep (t ∷ []) = t
join_texts sep (t ∷ u ∷ ts) = concat t (concat sep (join_texts sep (u ∷ ts)))

-- s.endswith(t)
unfoldable pub ends_with : String → String → Bool
ends_with String.[] t = str_eq String.[] t
ends_with (String.◌∷◌ c s) t = str_eq (String.◌∷◌ c s) t || ends_with s t

normalised : lower (strip "  Http_WARC \n") ≡ "http_warc"
unfolding lower strip
normalised = refl
