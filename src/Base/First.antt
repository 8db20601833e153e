-- ===== src/Base/First.antt =====
-- A query that sorts rows and answers the first: .filter(test).order_by(lt).first(), and that what it
-- answers is a least row.
use mathlib.Core.Path.{subst}
use mathlib.Core.Path.{◌≡◌, refl, sym, ◌∙◌}
use mathlib.Core.Logic.{◌⊎◌, inl, inr}
use mathlib.Core.Bool.{Bool, true, false, ◌&&◌}
use mathlib.Core.Option.{Option, none, some}
use mathlib.Core.List.{List, [], ◌∷◌}
use native.Mathlib.Omega.{arith}
use healtharchive.Base.Tests.{Bool-cases, Option-cases, if◌then◌else◌, some_injective}
use healtharchive.Base.Lists.{All}

-- What the choice of a first row needs of an order.
pub record IsSortOrder {ℓ} {A : Type ℓ} (lt : A → A → Bool) : Type ℓ where
  pub irreflexive : (a : A) → lt a a ≡ false
  pub asymmetric : (a b : A) → lt a b ≡ true → lt b a ≡ false
  pub negatively_transitive : (a b c : A) → lt a b ≡ false → lt b c ≡ false → lt a c ≡ false

module _ {ℓ} {A : Type ℓ} where
  -- The earlier of a row and the best of the rows after it.
  abbrev pub earlier : (A → A → Bool) → A → Option A → A
  earlier lt a none = a
  earlier lt a (some b) = if lt b a then b else a

  unfoldable pub first_by : (A → Bool) → (A → A → Bool) → List A → Option A
  first_by test lt [] = none
  first_by test lt (j ∷ js) =
      let rest = first_by test lt js in if test j then some (earlier lt j rest) else rest

-- `j` is a row of the table.
pub data IsRow {ℓ} {A : Type ℓ} (j : A) : List A → Type ℓ where
  first : {js : List A} → IsRow j (j ∷ js)
  later : {k : A} {js : List A} → IsRow j js → IsRow j (k ∷ js)

module _ {ℓ} {A : Type ℓ} (test : A → Bool) (lt : A → A → Bool) (order : IsSortOrder lt) where
  -- Every row that passes the test is not before `j`.
  abbrev pub NoneBefore : A → List A → Type 0
  NoneBefore j = All (λ k. (test k && lt k j) ≡ false)

  unless : (k j : A) → (test k ≡ true → lt k j ≡ false) → (test k && lt k j) ≡ false
  unless k j h = elim (Bool-cases (test k)) [ inl e ↦ rw (e, h e) refl | inr e ↦ rw e refl ]

  not_before : (k j : A) → (test k && lt k j) ≡ false → test k ≡ true → lt k j ≡ false
  not_before k j h t = sym (rw t refl) ∙ h

  NoneBefore-weaken : (a b : A) (js : List A) → lt b a ≡ false → NoneBefore b js → NoneBefore a js
  NoneBefore-weaken a b [] h n = tt
  NoneBefore-weaken a b (k ∷ js) h n = (
    unless k a (λ t. order.negatively_transitive k b a (not_before k b n.0 t) h),
    NoneBefore-weaken a b js h n.1,
  )

  pub first_by-none : (js : List A) → first_by test lt js ≡ none → All (λ k. test k ≡ false) js
  unfolding first_by
  first_by-none [] h = tt
  first_by-none (k ∷ js) h = elim (Bool-cases (test k)) [
    | inl e ↦ absurd (ground arith)
    | inr e ↦ (e, first_by-none js (sym (rw e refl) ∙ h))
  ]

  NoneBefore-none : (j : A) (js : List A) → All (λ k. test k ≡ false) js → NoneBefore j js
  NoneBefore-none j [] h = tt
  NoneBefore-none j (k ∷ js) h = (rw h.0 refl, NoneBefore-none j js h.1)

  first_by_nil : (j : A) → ¬ (first_by test lt [] ≡ some j)
  unfolding first_by
  first_by_nil j h = cc

  first_by_hit :
      (k : A) (js : List A)
      → test k ≡ true
      → first_by test lt (k ∷ js) ≡ some (earlier lt k (first_by test lt js))
  unfolding first_by
  first_by_hit k js e = rw e refl

  first_by_miss :
      (k : A) (js : List A) → test k ≡ false → first_by test lt (k ∷ js) ≡ first_by test lt js
  unfolding first_by
  first_by_miss k js e = rw e refl

  earlier_later : (k b : A) → lt b k ≡ true → earlier lt k (some b) ≡ b
  earlier_later k b e = rw e refl

  earlier_self : (k b : A) → lt b k ≡ false → earlier lt k (some b) ≡ k
  earlier_self k b e = rw e refl

  -- The chosen row passes the test, stands in the table, and no row that passes is before it.
  abbrev pub IsFirst : A → List A → Type ℓ
  IsFirst j js = (test j ≡ true) × IsRow j js × NoneBefore j js

  IsFirst-earlier :
      (k : A) (js : List A) (best : Option A)
      → test k ≡ true
      → (best ≡ none → All (λ x. test x ≡ false) js)
      → ((b : A) → best ≡ some b → IsFirst b js)
      → IsFirst (earlier lt k best) (k ∷ js)
  IsFirst-earlier k js none t nobody somebody =
      (t, first, (unless k k (λ _. order.irreflexive k), NoneBefore-none k js (nobody refl)))
  IsFirst-earlier k js (some b) t nobody somebody =
      let (tb, row, least) = somebody b refl in
      elim (Bool-cases (lt b k)) [
        | inl e ↦
            subst (λ x. IsFirst x (k ∷ js)) (sym (earlier_later k b e))
              (tb, later row, (unless k b (λ _. order.asymmetric b k e), least))
        | inr e ↦
            subst (λ x. IsFirst x (k ∷ js)) (sym (earlier_self k b e))
              (t, first, (unless k k (λ _. order.irreflexive k), NoneBefore-weaken k b js e least))
      ]

  pub first_by-IsFirst : (js : List A) (j : A) → first_by test lt js ≡ some j → IsFirst j js
  first_by-IsFirst [] j h = absurd (first_by_nil j h)
  first_by-IsFirst (k ∷ js) j h = elim (Bool-cases (test k)) [
    | inl e ↦
        subst (λ x. IsFirst x (k ∷ js)) (some_injective (sym (first_by_hit k js e) ∙ h))
          (IsFirst-earlier k js (first_by test lt js) e (first_by-none js)
            (λ b. first_by-IsFirst js b))
    | inr e ↦
        let (t, row, least) = first_by-IsFirst js j (sym (first_by_miss k js e) ∙ h) in
        (t, later row, (rw e refl, least))
  ]

-- What a query for a first row answers, said of the rows that are wanted and of the order they are
-- wanted in: none where no row is wanted, or a wanted row of the table that is in order with every other
-- wanted row.
pub data SelectsFirst {ℓ} {A : Type ℓ} (P : A → Type 0) (R : A → A → Type 0) (js : List A)
    : Option A → Type ℓ where
  nothing_wanted : All (λ k. ¬ P k) js → SelectsFirst P R js none
  selected :
      {j : A} → IsRow j js → P j → All (λ k. (¬ P k) ⊎ R j k) js → SelectsFirst P R js (some j)

module _ {ℓ} {A : Type ℓ} (test : A → Bool) (lt : A → A → Bool) (order : IsSortOrder lt)
    (P : A → Type 0) (R : A → A → Type 0) (sound : (a : A) → test a ≡ true → P a)
    (refuted : (a : A) → test a ≡ false → ¬ P a)
    (ordered : (a b : A) → lt b a ≡ false → R a b) where
  all_refuted : (js : List A) → All (λ k. test k ≡ false) js → All (λ k. ¬ P k) js
  all_refuted [] h = tt
  all_refuted (k ∷ js) h = (refuted k h.0, all_refuted js h.1)

  all_ordered :
      (j : A) (js : List A) → NoneBefore test lt order j js → All (λ k. (¬ P k) ⊎ R j k) js
  all_ordered j [] h = tt
  all_ordered j (k ∷ js) h = (
    elim (Bool-cases (test k)) [
      | inl e ↦ inr (ordered j k (not_before test lt order k j h.0 e))
      | inr e ↦ inl (refuted k e)
    ],
    all_ordered j js h.1,
  )

  pub first_by-SelectsFirst : (js : List A) → SelectsFirst P R js (first_by test lt js)
  first_by-SelectsFirst js = elim (Option-cases (first_by test lt js)) [
    | inl e ↦
        subst (SelectsFirst P R js) (sym e)
          (nothing_wanted (all_refuted js (first_by-none test lt order js e)))
    | inr (j, e) ↦
        let (t, row, least) = first_by-IsFirst test lt order js j e in
        subst (SelectsFirst P R js) (sym e) (selected row (sound j t) (all_ordered j js least))
  ]
