-- ===== src/Changes/Resume.antt =====
-- src/ha_backend/changes.py: what a backfill computes, and that a limit only interrupts it.
use healtharchive.Base.{
  ℕ, suc, ◌-◌, ◌≡◌, refl, ap, ◌∙◌, inl, inr, Bool, true, false, not, Option, some, List, [], ◌∷◌,
  map, leb, ◌==◌, keep, any, take, num_mem, arith, Bool-cases, if◌then◌else◌,
}
use healtharchive.Changes.{Snapshot, SnapshotChange}
use healtharchive.Changes.Pair.{Pages, compute_change_for_snapshot_pair}
use healtharchive.Changes.Backfill.{previous, backfill_rows}

-- Each row with the one before it, if that is of its group.
unfoldable pub pairs : Option Snapshot → List Snapshot → List (Snapshot × Option Snapshot)
pairs last [] = []
pairs last (s ∷ rest) = (s, previous last s) ∷ pairs (some s) rest

-- The pairs of the rows that have no change event yet.
abbrev pub open_pairs :
    List ℕ → List (Snapshot × Option Snapshot) → List (Snapshot × Option Snapshot)
open_pairs existing = keep (λ p. not (num_mem p.0.id existing))

-- No two rows have one id.
abbrev pub AreDistinct : List Snapshot → Type 0
AreDistinct [] = Unit
AreDistinct (s ∷ rest) = (any (λ t. t.id == s.id) rest ≡ false) × AreDistinct rest

-- An id that no row has makes no difference.
pub open_pairs-other :
    (i : ℕ) (existing : List ℕ) (last : Option Snapshot) (rows : List Snapshot)
    → any (λ t. t.id == i) rows ≡ false
    → open_pairs (i ∷ existing) (pairs last rows) ≡ open_pairs existing (pairs last rows)
unfolding pairs
open_pairs-other i existing last [] h = refl
open_pairs-other i existing last (s ∷ rest) h =
    ground (arith, open_pairs-other i existing (some s) rest)

open_pairs-grown :
    (dry : Bool) (i : ℕ) (existing : List ℕ) (last : Option Snapshot) (rows : List Snapshot)
    → any (λ t. t.id == i) rows ≡ false
    → open_pairs (if dry then existing else i ∷ existing) (pairs last rows)
      ≡ open_pairs existing (pairs last rows)
open_pairs-grown true i existing last rows h = refl
open_pairs-grown false i existing last rows h = open_pairs-other i existing last rows h

module _ (pages : Pages) where
  abbrev pub event : Snapshot × Option Snapshot → SnapshotChange
  event (s, prev) = compute_change_for_snapshot_pair pages s prev "backfill"

  -- Where no two rows have one id the loop, with `created` events made, makes the events of the rows
  -- without one, each compared with the row before it in its group, in their order, up to the limit
  -- and one at least, whether it is a dry run or not.
  pub backfill_rows-pairs :
      (dry : Bool) (limit : ℕ) (existing : List ℕ) (last : Option Snapshot) (created : ℕ)
      (rows : List Snapshot)
      → AreDistinct rows
      → (backfill_rows pages dry limit existing last created rows).events
        ≡ map event (take (suc (limit - suc created)) (open_pairs existing (pairs last rows)))
  unfolding backfill_rows pairs
  backfill_rows-pairs dry limit existing last created [] d = refl
  backfill_rows-pairs dry limit existing last created (s ∷ rest) d =
      elim (Bool-cases (num_mem s.id existing)) [
        | inl e ↦
            rw (e, backfill_rows) (backfill_rows-pairs dry limit existing (some s) created rest d.1)
        | inr e ↦ elim (Bool-cases (leb limit (suc created))) [
          | inl full ↦
              let z : limit - suc created ≡ 0 = ground arith in rw (e, full, z, backfill_rows) refl
          | inr more ↦
              let z : limit - suc created ≡ suc (limit - suc (suc created)) = ground arith in
              let now = if dry then existing else s.id ∷ existing in
              rw (e, more, z, backfill_rows)
                (ap (λ l. event (s, previous last s) ∷ l)
                  (backfill_rows-pairs dry limit now (some s) (suc created) rest d.1
                    ∙ ap (λ l. map event (take (suc (limit - suc (suc created))) l))
                        (open_pairs-grown dry s.id existing (some s) rest d.0)))
        ]
      ]
