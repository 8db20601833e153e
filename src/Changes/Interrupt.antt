-- ===== src/Changes/Interrupt.antt =====
-- src/ha_backend/changes.py: a backfill that is interrupted by its limit and called again.
use healtharchive.Base.{
  ℕ, zero, suc, ◌+◌, ◌-◌, ◌≡◌, refl, sym, ap, ◌∙◌, inl, inr, String, true, false, ◌||◌, Option,
  none, some, List, [], ◌∷◌, ◌++◌, map, ◌==◌, take, drop, num_mem, arith, Bool-cases,
}
use mathlib.Core.List.{map-append}
use healtharchive.Changes.{Snapshot, SnapshotChange}
use healtharchive.Changes.Pair.{
  Pages, compute_change_for_snapshot_pair, change_from, compare_documents, diff_event, error_event,
  plain_event,
}
use healtharchive.Changes.Backfill.{previous, backfill_rows, changed_ids}
use healtharchive.Changes.Resume.{
  pairs, open_pairs, open_pairs-other, AreDistinct, event, backfill_rows-pairs,
}

num_mem-append : (i : ℕ) (a b : List ℕ) → num_mem i (a ++ b) ≡ num_mem i a || num_mem i b
num_mem-append i [] b = refl
num_mem-append i (x ∷ a) b = ground (arith, num_mem-append i a b)

num_mem_swap : (i : ℕ) (a b : List ℕ) → num_mem i (a ++ b) ≡ num_mem i (b ++ a)
num_mem_swap i a b = ground (arith, num_mem-append i a b, num_mem-append i b a)

num_mem_right : (i : ℕ) (a b : List ℕ) → num_mem i b ≡ true → num_mem i (a ++ b) ≡ true
num_mem_right i a b e = ground (arith, num_mem-append i a b)

==_refl : (n : ℕ) → (n == n) ≡ true
==_refl n = ground arith

-- The ids of the rows of pairs.
abbrev ids : List (Snapshot × Option Snapshot) → List ℕ
ids = map (λ p. p.0.id)

pub compute_change-to_snapshot_id :
    (pages : Pages) (s : Snapshot) (prev : Option Snapshot) (by_whom : String)
    → (compute_change_for_snapshot_pair pages s prev by_whom).to_snapshot_id ≡ s.id
unfolding compute_change_for_snapshot_pair change_from compare_documents diff_event error_event
    plain_event
compute_change-to_snapshot_id pages s none by_whom = refl
compute_change-to_snapshot_id pages s (some from) by_whom = ground arith

changed_ids-events :
    (pages : Pages) (l : List (Snapshot × Option Snapshot))
    → changed_ids (map (event pages) l) ≡ ids l
unfolding changed_ids
changed_ids-events pages [] = refl
changed_ids-events pages ((s, prev) ∷ l) =
    rw (compute_change-to_snapshot_id) (ap (λ t. s.id ∷ t) (changed_ids-events pages l))

pub open_pairs_done :
    (existing : List ℕ) (last : Option Snapshot) (s : Snapshot) (rest : List Snapshot)
    → num_mem s.id existing ≡ true
    → open_pairs existing (pairs last (s ∷ rest)) ≡ open_pairs existing (pairs (some s) rest)
unfolding pairs
open_pairs_done existing last s rest e = rw (e) refl

pub open_pairs_open :
    (existing : List ℕ) (last : Option Snapshot) (s : Snapshot) (rest : List Snapshot)
    → num_mem s.id existing ≡ false
    → open_pairs existing (pairs last (s ∷ rest))
      ≡ (s, previous last s) ∷ open_pairs existing (pairs (some s) rest)
unfolding pairs
open_pairs_open existing last s rest e = rw (e) refl

open_pairs_none :
    (k : ℕ) (existing : List ℕ) (last : Option Snapshot)
    → open_pairs (ids (take k (open_pairs existing (pairs last []))) ++ existing) (pairs last [])
      ≡ drop k (open_pairs existing (pairs last []))
unfolding pairs
open_pairs_none zero existing last = refl
open_pairs_none (suc k) existing last = refl

-- With the first `k` open rows done the others are open.
open_pairs-rest :
    (k : ℕ) (existing : List ℕ) (last : Option Snapshot) (rows : List Snapshot)
    → AreDistinct rows
    → open_pairs
        (ids (take k (open_pairs existing (pairs last rows))) ++ existing)
        (pairs last rows)
      ≡ drop k (open_pairs existing (pairs last rows))
open_pairs-rest zero existing last rows d = refl
open_pairs-rest (suc k) existing last [] d = open_pairs_none (suc k) existing last
open_pairs-rest (suc k) existing last (s ∷ rest) d = elim (Bool-cases (num_mem s.id existing)) [
  | inl e ↦
      let q = open_pairs_done existing last s rest e in
      let done = ids (take (suc k) (open_pairs existing (pairs (some s) rest))) in
      ap (λ f. open_pairs (ids (take (suc k) f) ++ existing) (pairs last (s ∷ rest))) q
      ∙ open_pairs_done (done ++ existing) last s rest (num_mem_right s.id done existing e)
      ∙ open_pairs-rest (suc k) existing (some s) rest d.1
      ∙ sym (ap (drop (suc k)) q)
  | inr e ↦
      let q = open_pairs_open existing last s rest e in
      let done = ids (take k (open_pairs existing (pairs (some s) rest))) ++ existing in
      let here : num_mem s.id (s.id ∷ done) ≡ true = rw (==_refl s.id) refl in
      ap (λ f. open_pairs (ids (take (suc k) f) ++ existing) (pairs last (s ∷ rest))) q
      ∙ open_pairs_done (s.id ∷ done) last s rest here
      ∙ open_pairs-other s.id done (some s) rest d.0
      ∙ open_pairs-rest k existing (some s) rest d.1
      ∙ sym (ap (drop (suc k)) q)
]

-- An order of the memberships of the ids does not count.
open_pairs_swap :
    (a b : List ℕ) (l : List (Snapshot × Option Snapshot))
    → open_pairs (a ++ b) l ≡ open_pairs (b ++ a) l
open_pairs_swap a b [] = refl
open_pairs_swap a b ((s, prev) ∷ l) = rw (num_mem_swap s.id a b, open_pairs_swap a b l) refl

none_left {ℓ} : {A : Type ℓ} (n : ℕ) → take {A = A} n [] ≡ []
none_left zero = refl
none_left (suc n) = refl

take-sum {ℓ} : {A : Type ℓ} (m n : ℕ) (l : List A) → take (m + n) l ≡ take m l ++ take n (drop m l)
take-sum zero n l = let e : 0 + n ≡ n = omega arith in rw (e) refl
take-sum (suc m) n [] = none_left (suc m + n) ∙ sym (none_left n)
take-sum (suc m) n (x ∷ l) =
    let e : suc m + n ≡ suc (m + n) = omega arith in rw (e) (ap (λ t. x ∷ t) (take-sum m n l))

module _ (pages : Pages) (last : Option Snapshot) (rows : List Snapshot)
    (d : AreDistinct rows) where
  abbrev pub events : ℕ → List ℕ → List SnapshotChange
  events limit existing = (backfill_rows pages false limit existing last 0 rows).events

  events_lem :
      (m : ℕ) (existing : List ℕ)
      → events (suc m) existing
        ≡ map (event pages) (take (suc m) (open_pairs existing (pairs last rows)))
  events_lem m existing =
      let e : suc m - suc 0 ≡ m = omega arith in
      backfill_rows-pairs pages false (suc m) existing last 0 rows d ∙ rw (e) refl

  pub events_rest :
      (m : ℕ) (existing : List ℕ)
      → open_pairs (existing ++ changed_ids (events (suc m) existing)) (pairs last rows)
        ≡ drop (suc m) (open_pairs existing (pairs last rows))
  events_rest m existing =
      let f = open_pairs existing (pairs last rows) in
      let done = ids (take (suc m) f) in
      let e : changed_ids (events (suc m) existing) ≡ done =
        ap changed_ids (events_lem m existing) ∙ changed_ids-events pages (take (suc m) f) in
      ap (λ l. open_pairs (existing ++ l) (pairs last rows)) e
      ∙ open_pairs_swap existing done (pairs last rows)
      ∙ open_pairs-rest (suc m) existing last rows d

  -- The events of two calls are those of one with the sum of the limits.
  pub backfill_rows-sum :
      (m n : ℕ) (existing : List ℕ)
      → events (suc m) existing
          ++ events (suc n) (existing ++ changed_ids (events (suc m) existing))
        ≡ events (suc m + suc n) existing
  backfill_rows-sum m n existing =
      let f = open_pairs existing (pairs last rows) in
      let e : suc m + suc n ≡ suc (m + suc n) = omega arith in
      let second =
        events_lem n (existing ++ changed_ids (events (suc m) existing))
        ∙ ap (λ l. map (event pages) (take (suc n) l)) (events_rest m existing) in
      ap (λ l. l ++ events (suc n) (existing ++ changed_ids (events (suc m) existing)))
        (events_lem m existing)
      ∙ ap (λ l. map (event pages) (take (suc m) f) ++ l) second
      ∙ sym (map-append (event pages) (take (suc m) f) (take (suc n) (drop (suc m) f)))
      ∙ sym (ap (map (event pages)) (take-sum (suc m) (suc n) f))
      ∙ sym (
          ap (λ k. events k existing) e
          ∙ events_lem (m + suc n) existing
          ∙ ap (λ k. map (event pages) (take k f)) (sym e))
