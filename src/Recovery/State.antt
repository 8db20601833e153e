-- ===== src/Recovery/State.antt =====
-- scripts/vps-crawl-auto-recover.py: the state file, its records of recoveries and starts.
-- A time is the number of microseconds since 1970; the script runs later than the first day of 1970.
use healtharchive.Base.{
  ℕ, suc, ◌-◌, ◌*◌, ◌/◌, Bool, true, false, Option, none, some, List, [], ◌∷◌, ◌++◌, leb, ◌==◌,
  if◌then◌else◌,
}

-- The lists of a table by job id; a missing list is empty. A text of the file that is no time is none.
abbrev pub Table : Type 0 → Type 0
Table A = List (ℕ × List A)

-- The crawled pages at a recovery.
pub record ProgressEntry : Type 0 where
  pub timestamp : ℕ
  pub crawled_count : ℕ

pub record State : Type 0 where
  pub recoveries : Table (Option ℕ)
  pub starts : Table (Option ℕ)
  pub recovery_progress : Table ProgressEntry

-- What an unreadable or missing file gives.
abbrev pub no_state : State
no_state = record { recoveries = []; starts = []; recovery_progress = [] }

-- table.get(str(job_id)) or []
unfoldable pub items_of : {A : Type 0} → ℕ → Table A → List A
items_of i [] = []
items_of i ((j, items) ∷ rest) = if j == i then items else items_of i rest

-- The list of the job with one entry more.
unfoldable pub append_item : {A : Type 0} → ℕ → A → Table A → Table A
append_item i a [] = (i, a ∷ []) ∷ []
append_item i a ((j, items) ∷ rest) =
    let more = append_item i a rest in
    if j == i then (j, items ++ (a ∷ [])) ∷ rest else (j, items) ∷ more

abbrev pub second : ℕ
second = 1000000

abbrev pub day : ℕ
day = 86400 * second

-- when.replace(microsecond=0)
abbrev pub whole_second : ℕ → ℕ
whole_second when = when / second * second

unfoldable pub record_recovery : ℕ → ℕ → State → State
record_recovery i when s = record s {
  recoveries = append_item i (some (whole_second when)) s.recoveries;
}

unfoldable pub record_start : ℕ → ℕ → State → State
record_start i when s = record s { starts = append_item i (some (whole_second when)) s.starts }

unfoldable pub record_recovery_progress : ℕ → ℕ → ℕ → State → State
record_recovery_progress i crawled when s = record s {
  recovery_progress =
      append_item i (record { timestamp = whole_second when; crawled_count = crawled })
        s.recovery_progress;
}

unfoldable pub count_since : ℕ → List (Option ℕ) → ℕ
count_since since [] = 0
count_since since (none ∷ items) = count_since since items
count_since since (some t ∷ items) =
    let n = count_since since items in if leb since t then suc n else n

unfoldable pub count_recent_recoveries : ℕ → ℕ → State → ℕ
count_recent_recoveries i since s = count_since since (items_of i s.recoveries)

unfoldable pub count_recent_starts : ℕ → ℕ → State → ℕ
count_recent_starts i since s = count_since since (items_of i s.starts)

-- The limit that each of main's three ways to recover a job tests first: at the limit the job is
-- skipped, else the recovery is made and recorded. The flag says whether it is made. The commands in
-- between do not touch the state; a run that leaves between the two is no attempt.
unfoldable pub attempt_recovery : ℕ → ℕ → ℕ → State → State × Bool
attempt_recovery max_recoveries i now s =
    if leb max_recoveries (count_recent_recoveries i (now - day) s)
    then (s, false)
    else (record_recovery i now s, true)
