-- ===== src/Editions/Urls.antt =====
-- src/ha_backend/annual_editions.py: the counts of URLs of a coverage report.
use healtharchive.Base.{
  suc, ◌+◌, ◌≡◌, refl, sym, ap, ◌∙◌, inl, inr, String, Bool, true, false, ◌||◌, not, List, [], ◌∷◌,
  ◌++◌, str_eq, str_mem, keep, length, arith, if◌then◌else◌, Bool-cases, str_eq_iff,
}
use healtharchive.Editions.Report.{distinct}

-- No text stands twice in the list.
abbrev pub AreApart : List String → Type 0
AreApart [] = Unit
AreApart (x ∷ xs) = (str_mem x xs ≡ false) × AreApart xs

pub str_eq_swap : (s t : String) → str_eq s t ≡ str_eq t s
str_eq_swap s t = elim (Bool-cases (str_eq s t)) [
  | inl e ↦ e ∙ sym ((str_eq_iff t s).1 (sym ((str_eq_iff s t).0 e)))
  | inr e ↦ elim (Bool-cases (str_eq t s)) [
    | inl f ↦ (str_eq_iff s t).1 (sym ((str_eq_iff t s).0 f)) ∙ sym f
    | inr f ↦ e ∙ sym f
  ]
]

pub str_mem-append :
    (x : String) (a b : List String) → str_mem x (a ++ b) ≡ str_mem x a || str_mem x b
str_mem-append x [] b = refl
str_mem-append x (y ∷ a) b = ground (arith, str_mem-append x a b)

str_mem_same : (x y : String) (l : List String) → str_eq x y ≡ true → str_mem x l ≡ str_mem y l
str_mem_same x y l e = ap (λ t. str_mem t l) ((str_eq_iff x y).0 e)

str_mem_again :
    (x y : String) (l : List String)
    → str_mem y l ≡ true
    → (str_eq x y || str_mem x l) ≡ str_mem x l
str_mem_again x y l h = elim (Bool-cases (str_eq x y)) [
  | inl e ↦ rw (e, str_mem_same x y l e, h) refl
  | inr e ↦ rw (e) refl
]

str_mem-distinct : (x : String) (l : List String) → str_mem x (distinct l) ≡ str_mem x l
unfolding distinct
str_mem-distinct x [] = refl
str_mem-distinct x (y ∷ l) = elim (Bool-cases (str_mem y l)) [
  | inl e ↦ rw (e) (str_mem-distinct x l ∙ sym (str_mem_again x y l e))
  | inr e ↦ rw (e) (ap (λ b. str_eq x y || b) (str_mem-distinct x l))
]

pub distinct-AreApart : (l : List String) → AreApart (distinct l)
unfolding distinct
distinct-AreApart [] = tt
distinct-AreApart (y ∷ l) = elim (Bool-cases (str_mem y l)) [
  | inl e ↦ rw (e) (distinct-AreApart l)
  | inr e ↦ rw (e) (str_mem-distinct y l ∙ e, distinct-AreApart l)
]

pub AreApart-distinct : (l : List String) → AreApart l → distinct l ≡ l
unfolding distinct
AreApart-distinct [] d = refl
AreApart-distinct (y ∷ l) d = rw (d.0, AreApart-distinct l d.1) refl

-- Whether the texts of one list stand in another.
abbrev pub inside : List String → String → Bool
inside l x = str_mem x l

abbrev pub outside : List String → String → Bool
outside l x = not (str_mem x l)

-- A union is counted as what only its first part has and the second part.
pub length-distinct :
    (a b : List String)
    → AreApart a
    → AreApart b
    → length (distinct (a ++ b)) ≡ length (keep (outside b) a) + length b
unfolding distinct
length-distinct [] b d g = ap length (AreApart-distinct b g) ∙ omega arith
length-distinct (x ∷ a) b d g =
    let here : str_mem x (a ++ b) ≡ str_mem x b = str_mem-append x a b ∙ rw (d.0) refl in
    elim (Bool-cases (str_mem x b)) [
      | inl e ↦ rw (here, e) (length-distinct a b d.1 g)
      | inr e ↦ rw (here, e) (ap suc (length-distinct a b d.1 g) ∙ omega arith)
    ]

-- One more text that is asked for is met once at most.
length-keep_more :
    (x : String) (a c : List String)
    → str_mem x a ≡ false
    → AreApart c
    → length (keep (inside (x ∷ a)) c) ≡ length (keep (inside a) c) + (if str_mem x c then 1 else 0)
length-keep_more x a [] h d = omega arith
length-keep_more x a (y ∷ c) h d = elim (Bool-cases (str_eq x y)) [
  | inl e ↦
      let other : str_mem y a ≡ false = sym (str_mem_same x y a e) ∙ h in
      let last : str_mem x c ≡ false = str_mem_same x y c e ∙ d.0 in
      let ih : length (keep (inside (x ∷ a)) c) ≡ length (keep (inside a) c) =
        length-keep_more x a c h d.1 ∙ rw (last) (omega arith) in
      rw (str_eq_swap y x, e, other) (ap suc ih ∙ omega arith)
  | inr e ↦
      let apart : str_eq y x ≡ false = str_eq_swap y x ∙ e in
      let ih = length-keep_more x a c h d.1 in
      elim (Bool-cases (str_mem y a)) [
        | inl f ↦ rw (e, apart, f) (omega arith)
        | inr f ↦ rw (e, apart, f) ih
      ]
]

keep_none : (c : List String) → keep (inside []) c ≡ []
keep_none [] = refl
keep_none (x ∷ c) = keep_none c

-- Two lists have as many texts of the first in the second as of the second in the first.
pub length-inside :
    (a c : List String)
    → AreApart a
    → AreApart c
    → length (keep (inside c) a) ≡ length (keep (inside a) c)
length-inside [] c d g = sym (ap length (keep_none c))
length-inside (x ∷ a) c d g =
    let more = length-keep_more x a c d.0 g in
    let ih = length-inside a c d.1 g in
    elim (Bool-cases (str_mem x c)) [
      | inl e ↦
          let count : length (keep (inside (x ∷ a)) c) ≡ length (keep (inside a) c) + 1 =
            more ∙ rw (e) refl in
          rw (e) (omega arith)
      | inr e ↦
          let count : length (keep (inside (x ∷ a)) c) ≡ length (keep (inside a) c) + 0 =
            more ∙ rw (e) refl in
          rw (e) (omega arith)
    ]

pub length-outside :
    (a c : List String) → length (keep (inside a) c) + length (keep (outside a) c) ≡ length c
length-outside a [] = omega arith
length-outside a (x ∷ c) = ground (arith, length-outside a c)
