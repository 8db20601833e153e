-- ===== src/Changes/Latest.antt =====
-- src/ha_backend/changes.py: the capture that compute_changes_since compares a row with.
use healtharchive.Base.{
  ℕ, ◌≤◌, ◌<◌, ◌≡◌, ◌⊎◌, ◌↔◌, inl, inr, true, false, Bool-cases, Option, none, some, String, List,
  arith, ltb, str_eq_iff,
}
use healtharchive.Base.First.{IsSortOrder, SelectsFirst, first_by-SelectsFirst}
use healtharchive.Changes.{Snapshot}
use healtharchive.Changes.Backfill.{same_number, same_text, same_group}
use healtharchive.Changes.Since.{is_earlier, newer, latest_before}

newer-IsSortOrder : IsSortOrder newer
unfolding newer
newer-IsSortOrder = record {
  irreflexive = λ a. ground arith;
  asymmetric = λ a b h. ground arith;
  negatively_transitive = λ a b c h k. ground arith;
}

-- `t` is a capture of the source and the URL group of `s`, at an earlier time.
abbrev pub IsBefore : Snapshot → Snapshot → Type 0
IsBefore s t =
    (t.source_id ≡ s.source_id)
    × (t.normalized_url_group ≡ s.normalized_url_group)
    × (t.capture_timestamp < s.capture_timestamp)

-- `t` is the later of the two captures, or has the greater id where they have one time.
abbrev pub IsNearer : Snapshot → Snapshot → Type 0
IsNearer t u =
    (u.capture_timestamp < t.capture_timestamp)
    ⊎ ((u.capture_timestamp ≡ t.capture_timestamp) × (u.id ≤ t.id))

same_number_iff : (m n : Option ℕ) → (same_number m n ≡ true) ↔ (m ≡ n)
same_number_iff none none = ground arith
same_number_iff none (some n) = ground arith
same_number_iff (some m) none = ground arith
same_number_iff (some m) (some n) = ground arith

same_text_iff : (s t : Option String) → (same_text s t ≡ true) ↔ (s ≡ t)
same_text_iff none none = ground arith
same_text_iff none (some t) = ground arith
same_text_iff (some s) none = ground arith
same_text_iff (some s) (some t) = ground (arith, str_eq_iff s t)

is_earlier-IsBefore : (s t : Snapshot) → is_earlier s t ≡ true → IsBefore s t
unfolding is_earlier same_group
is_earlier-IsBefore s t h = ground (
  arith,
  same_number_iff t.source_id s.source_id,
  same_text_iff t.normalized_url_group s.normalized_url_group,
)

is_earlier-refuted : (s t : Snapshot) → is_earlier s t ≡ false → ¬ IsBefore s t
unfolding is_earlier same_group
is_earlier-refuted s t h before = ground (
  arith,
  same_number_iff t.source_id s.source_id,
  same_text_iff t.normalized_url_group s.normalized_url_group,
)

newer-IsNearer : (t u : Snapshot) → newer u t ≡ false → IsNearer t u
unfolding newer
newer-IsNearer t u h = elim (Bool-cases (ltb u.capture_timestamp t.capture_timestamp)) [
  | inl e ↦ inl (ground arith)
  | inr e ↦ inr (ground arith)
]

-- A row is compared with a capture of its source and URL group at a strictly earlier time, the latest
-- of those in the table and the one of the greatest id among those of that time; it is compared with
-- nothing only where the table has no such capture.
pub latest_before-cases :
    (s : Snapshot) (table : List Snapshot)
    → SelectsFirst (IsBefore s) IsNearer table (latest_before s table)
unfolding latest_before
latest_before-cases s table =
    first_by-SelectsFirst _ _ newer-IsSortOrder _ _ (is_earlier-IsBefore s) (is_earlier-refuted s)
      newer-IsNearer table
