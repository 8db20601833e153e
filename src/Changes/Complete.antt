-- ===== src/Changes/Complete.antt =====
-- src/ha_backend/changes.py: a backfill whose limit is high enough leaves no row without a change.
use healtharchive.Base.{
  ℕ, zero, suc, ◌≤◌, ◌≡◌, refl, sym, ap, ◌∙◌, inl, inr, true, false, not, Option, none, some, List,
  [], ◌∷◌, ◌++◌, drop, length, length-keep, num_mem, arith, Bool-cases, All,
}
use mathlib.Core.List.{nil≢cons}
use healtharchive.Changes.{Snapshot}
use healtharchive.Changes.Pair.{Pages}
use healtharchive.Changes.Backfill.{backfill_rows, changed_ids}
use healtharchive.Changes.Resume.{pairs, open_pairs, AreDistinct}
use healtharchive.Changes.Interrupt.{events_rest, open_pairs_open, open_pairs_done}

length-pairs :
    (last : Option Snapshot) (rows : List Snapshot) → length (pairs last rows) ≡ length rows
unfolding pairs
length-pairs last [] = refl
length-pairs last (s ∷ rest) = ap suc (length-pairs (some s) rest)

drop_all {ℓ} : {A : Type ℓ} (n : ℕ) (l : List A) → length l ≤ n → drop n l ≡ []
drop_all zero [] h = refl
drop_all zero (x ∷ l) h = absurd (omega arith)
drop_all (suc n) [] h = refl
drop_all (suc n) (x ∷ l) h = drop_all n l (omega arith)

none_open :
    (done : List ℕ) (last : Option Snapshot) (rows : List Snapshot)
    → open_pairs done (pairs last rows) ≡ []
    → All (λ s. num_mem s.id done ≡ true) rows
none_open done last [] h = tt
none_open done last (s ∷ rest) h = elim (Bool-cases (num_mem s.id done)) [
  | inl e ↦ (e, none_open done (some s) rest (sym (open_pairs_done done last s rest e) ∙ h))
  | inr e ↦ absurd (nil≢cons (sym h ∙ open_pairs_open done last s rest e))
]

-- Where no two rows have one id and the limit is positive and not lower than the number of rows, every
-- row has a change after the loop.
pub backfill_rows-completes :
    (pages : Pages) (m : ℕ) (existing : List ℕ) (rows : List Snapshot)
    → AreDistinct rows
    → length rows ≤ suc m
    → All
        (λ s.
          num_mem s.id (
            existing ++ changed_ids (backfill_rows pages false (suc m) existing none 0 rows).events)
          ≡ true)
        rows
backfill_rows-completes pages m existing rows d h =
    let all_pairs = pairs none rows in
    let fewer : length (open_pairs existing all_pairs) ≤ suc m =
      let a = length-keep (λ p. not (num_mem p.0.id existing)) all_pairs in
      let b = length-pairs none rows in omega arith in
    none_open _ none rows (
      events_rest pages none rows d m existing
      ∙ drop_all (suc m) (open_pairs existing all_pairs) fewer)
