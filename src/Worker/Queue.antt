-- ===== src/Worker/Queue.antt =====
-- src/ha_backend/worker/main.py: which job each of the two queries selects.
use healtharchive.Base.{
  ℕ, ◌+◌, ◌≤◌, ◌<◌, ◌≡◌, ◌≢◌, ◌⊎◌, refl, ap, inl, inr, true, false, ◌&&◌, ◌||◌, Bool-cases, Option,
  none, some, arith, ltb, str_eq_iff,
}
use healtharchive.Jobs.{ArchiveJob, Jobs}
use healtharchive.Base.First.{SelectsFirst, first_by-SelectsFirst}
use healtharchive.Worker.Selection.{is_indexable, before, ties, index_before, select_next_index_job}
use healtharchive.Worker.Orders.{index_before-IsSortOrder}

-- A job that waits for a crawl at `now`: queued or retryable, of a source, and not within 600 seconds of
-- an infra error.
abbrev pub IsDue : ℕ → ArchiveJob → Type 0
IsDue now j =
    (j.source_code ≢ none)
    × ((j.status ≡ "queued") ⊎ (j.status ≡ "retryable"))
    × ((j.crawler_status ≢ some "infra_error") ⊎ (j.updated_at + 600 ≤ now))

-- A job of a source that waits to be indexed.
abbrev pub IsCrawled : ArchiveJob → Type 0
IsCrawled j = (j.source_code ≢ none) × (j.status ≡ "completed")

-- A missing time stands before every time.
abbrev pub IsSooner : Option ℕ → Option ℕ → Type 0
IsSooner none none = ⊥
IsSooner none (some b) = Unit
IsSooner (some a) none = ⊥
IsSooner (some a) (some b) = a < b

-- By a time, and by a number where the times are equal.
abbrev pub InOrder : Option ℕ → ℕ → Option ℕ → ℕ → Type 0
InOrder s m t n = IsSooner s t ⊎ ((s ≡ t) × (m ≤ n))

in_order :
    (s t : Option ℕ) (m n : ℕ) → (before t s || (ties t s && ltb n m)) ≡ false → InOrder s m t n
in_order none none m n h = inr (refl, ground arith)
in_order none (some b) m n h = inl tt
in_order (some a) none m n h = absurd (ground arith)
in_order (some a) (some b) m n h = elim (Bool-cases (ltb a b)) [
  | inl e ↦ inl (ground arith)
  | inr e ↦ let same : a ≡ b = ground arith in inr (ap some same, ground arith)
]

is_indexable-IsCrawled : (j : ArchiveJob) → is_indexable j ≡ true → IsCrawled j
unfolding is_indexable
is_indexable-IsCrawled j h = ground (arith, str_eq_iff j.status "completed")

is_indexable-refuted : (j : ArchiveJob) → is_indexable j ≡ false → ¬ IsCrawled j
unfolding is_indexable
is_indexable-refuted j h c = ground (arith, str_eq_iff j.status "completed")

-- The index query answers a completed row with a source that finished no later than any other such row,
-- and has the least id of those that finished at the same time, where a row without a finish time comes
-- first; it answers none only where no row with a source is completed.
pub select_next_index_job-cases :
    (js : Jobs)
    → SelectsFirst IsCrawled
        (λ j k. InOrder j.finished_at j.id k.finished_at k.id)
        js
        (select_next_index_job js)
unfolding select_next_index_job index_before
select_next_index_job-cases js =
    first_by-SelectsFirst _ _ index_before-IsSortOrder _ _ is_indexable-IsCrawled
      is_indexable-refuted (λ j k. in_order j.finished_at k.finished_at j.id k.id) js
