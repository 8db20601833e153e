-- ===== src/Recovery/Records.antt =====
-- scripts/vps-crawl-auto-recover.py: what a record in the state file changes, and how many recoveries
-- the limit lets through.
use healtharchive.Base.{
  ℕ, ◌+◌, ◌-◌, ◌≤◌, ◌≡◌, Bool, refl, ap, ◌∙◌, inl, inr, true, false, ◌&&◌, Option, none, some, List,
  [], ◌∷◌, ◌++◌, leb, ◌==◌, arith, Bool-cases, ==_iff, if◌then◌else◌,
}
use healtharchive.Recovery.State.{
  day, second, whole_second, attempt_recovery, Table, State, items_of, append_item, record_recovery,
  count_since, count_recent_recoveries,
}

items_of-append_item :
    {A : Type 0} (i : ℕ) (a : A) (t : Table A)
    → items_of i (append_item i a t) ≡ items_of i t ++ (a ∷ [])
unfolding items_of append_item
items_of-append_item i a [] = let e : (i == i) ≡ true = ground arith in rw (e) refl
items_of-append_item i a ((j, items) ∷ rest) = elim (Bool-cases (j == i)) [
  | inl e ↦ rw (e, e) refl
  | inr e ↦ rw (e, e) (items_of-append_item i a rest)
]

items_of-append_item_other :
    {A : Type 0} (k i : ℕ) (a : A) (t : Table A)
    → (i == k) ≡ false
    → items_of k (append_item i a t) ≡ items_of k t
unfolding items_of append_item
items_of-append_item_other k i a [] h = rw (h) refl
items_of-append_item_other k i a ((j, items) ∷ rest) h = elim (Bool-cases (j == i)) [
  | inl e ↦ let f : (j == k) ≡ false = ground arith in rw (e, f) refl
  | inr e ↦ elim (Bool-cases (j == k)) [
    | inl f ↦ rw (e, f) refl
    | inr f ↦ rw (e, f) (items_of-append_item_other k i a rest h)
  ]
]

count_since-append :
    (since when : ℕ) (items : List (Option ℕ))
    → count_since since (items ++ (some when ∷ []))
      ≡ count_since since items + (if leb since when then 1 else 0)
unfolding count_since
count_since-append since when [] = ground arith
count_since-append since when (none ∷ items) = count_since-append since when items
count_since-append since when (some t ∷ items) = ground (arith, count_since-append since when items)

count-record_recovery :
    (k i since when : ℕ) (s : State)
    → count_recent_recoveries k since (record_recovery i when s)
      ≡ count_recent_recoveries k since s
        + (if i == k && leb since (whole_second when) then 1 else 0)
unfolding count_recent_recoveries record_recovery
count-record_recovery k i since when s = elim (Bool-cases (i == k)) [
  | inl e ↦
      let same : i ≡ k = (==_iff i k).0 e in
      ap (count_since since) (
        ap (λ j. items_of k (append_item j (some (whole_second when)) s.recoveries)) same
        ∙ items_of-append_item k (some (whole_second when)) s.recoveries)
      ∙ count_since-append since (whole_second when) (items_of k s.recoveries)
      ∙ rw (e) refl
  | inr e ↦
      ap (count_since since)
        (items_of-append_item_other k i (some (whole_second when)) s.recoveries e)
      ∙ rw (e) (omega arith)
]

count_since-later :
    (a b : ℕ) (items : List (Option ℕ)) → a ≤ b → count_since b items ≤ count_since a items
unfolding count_since
count_since-later a b [] h = omega arith
count_since-later a b (none ∷ items) h = count_since-later a b items h
count_since-later a b (some t ∷ items) h = ground (arith, count_since-later a b items h)

-- The recoveries of job `k` that a list of attempts, of job and time each, makes a second or more
-- after `since`.
module _ (max_recoveries k since : ℕ) where
  abbrev pub is_made : ℕ → ℕ → State → Bool
  is_made i t s = (attempt_recovery max_recoveries i t s).1 && i == k && leb (since + second) t

  unfoldable pub recoveries_made : List (ℕ × ℕ) → State → ℕ
  recoveries_made [] s = 0
  recoveries_made ((i, t) ∷ rest) s =
      (if is_made i t s then 1 else 0)
      + recoveries_made rest (attempt_recovery max_recoveries i t s).0

-- Attempts in the order of their times, none before `start` and none after `now`.
abbrev pub IsBetween : ℕ → ℕ → List (ℕ × ℕ) → Type 0
IsBetween start now [] = start ≤ now
IsBetween start now ((i, t) ∷ rest) = (start ≤ t) × IsBetween t now rest

IsBetween-le :
    (start now : ℕ) (attempts : List (ℕ × ℕ)) → IsBetween start now attempts → start ≤ now
IsBetween-le start now [] h = h
IsBetween-le start now ((i, t) ∷ rest) h =
    let later : t ≤ now = IsBetween-le t now rest h.1 in omega (arith, later, h.0)

whole_second-le : (since t : ℕ) → since + second ≤ t → since ≤ whole_second t
whole_second-le since t h = omega arith

count-later :
    (k a b : ℕ) (s : State) → a ≤ b → count_recent_recoveries k b s ≤ count_recent_recoveries k a s
unfolding count_recent_recoveries
count-later k a b s h = count_since-later a b (items_of k s.recoveries) h

-- One attempt: what it makes is counted after it, and the limit holds after it.
attempt-counted :
    (c k i since t : ℕ) (s : State)
    → count_recent_recoveries k since s + (if is_made c k since i t s then 1 else 0)
      ≤ count_recent_recoveries k since (attempt_recovery c i t s).0
unfolding attempt_recovery
attempt-counted c k i since t s =
    ground (arith, count-record_recovery k i since t s, whole_second-le since t)

attempt-limit :
    (c k i start t : ℕ) (s : State)
    → start ≤ t
    → count_recent_recoveries k (start - day) s ≤ c
    → count_recent_recoveries k (t - day) (attempt_recovery c i t s).0 ≤ c
unfolding attempt_recovery
attempt-limit c k i start t s later h = elim (Bool-cases (i == k)) [
  | inl e ↦ ground (
    arith,
    ==_iff i k,
    count-record_recovery k i (t - day) t s,
    count-later k (start - day) (t - day) s,
  )
  | inr e ↦
      ground
        (arith, count-record_recovery k i (t - day) t s, count-later k (start - day) (t - day) s)
]

-- For attempts in the order of their times, on a state in which a job has no more recoveries than the
-- limit in the day before them: the recoveries of the job that the state has in the day before any time
-- after the attempts, and those that the attempts make in that day less its first second, are together
-- no more than the limit.
pub recoveries_made-limit :
    (max_recoveries k start now : ℕ) (attempts : List (ℕ × ℕ)) (s : State)
    → IsBetween start now attempts
    → count_recent_recoveries k (start - day) s ≤ max_recoveries
    → count_recent_recoveries k (now - day) s
        + recoveries_made max_recoveries k (now - day) attempts s
      ≤ max_recoveries
unfolding recoveries_made
recoveries_made-limit c k start now [] s h limit =
    let fewer = count-later k (start - day) (now - day) s (omega (arith, h)) in
    omega (arith, fewer, limit)
recoveries_made-limit c k start now ((i, t) ∷ rest) s h limit =
    let counted = attempt-counted c k i (now - day) t s in
    let limit_after = attempt-limit c k i start t s h.0 limit in
    let after = recoveries_made-limit c k t now rest (attempt_recovery c i t s).0 h.1 limit_after in
    omega (arith, counted, after)
