-- ===== src/Editions/Status.antt =====
-- src/ha_backend/annual_editions.py: what the status of a reported edition says.
use healtharchive.Base.{
  ℕ, ◌≡◌, ◌≢◌, ◌⊎◌, refl, sym, ◌∙◌, inl, inr, Bool, true, false, ◌&&◌, not, Option, some, String,
  List, [], ◌∷◌, map, ltb, ◌==◌, num_mem, length, str_eq, keep, arith, Bool-cases, Option-cases, ap,
  All, str_eq_iff,
}
use healtharchive.Base.First.{IsRow, first, later}
use healtharchive.Editions.{ArchiveJob, Snapshot, AnnualEdition}
use healtharchive.Editions.Attach.{is_edition}
use healtharchive.Editions.Report.{
  edition_status, is_empty, is_accepted, is_in_review, is_blocking, distinct, reported, coverage_of,
  jobs_of_edition, generate_coverage_report,
}

status-research : (r n b s j : Bool) → str_eq (edition_status r n b s j) "research_ready" ≡ r
unfolding edition_status
status-research true n b s j = refl
status-research false true b s j = refl
status-research false false true s j = refl
status-research false false false true j = refl
status-research false false false false true = refl
status-research false false false false false = refl

-- A job that a person has accepted, as it is or with its gap, or has excluded.
abbrev pub IsAccepted : ArchiveJob → Type 0
IsAccepted j =
    (j.acceptance_state ≡ some "accepted")
    ⊎ (j.acceptance_state ≡ some "accepted_gap")
    ⊎ (j.acceptance_state ≡ some "excluded")

-- A job that neither waits, nor runs, nor has failed, nor has still to be indexed.
abbrev pub IsOver : ArchiveJob → Type 0
IsOver j =
    (j.status ≢ "queued")
    × (j.status ≢ "retryable")
    × (j.status ≢ "running")
    × (j.status ≢ "completed")
    × (j.status ≢ "indexing")
    × (j.status ≢ "index_failed")
    × (j.status ≢ "failed")

is_accepted-IsAccepted : (j : ArchiveJob) → is_accepted j ≡ true → IsAccepted j
is_accepted-IsAccepted j h = elim (Option-cases j.acceptance_state) [
  | inl e ↦ absurd (ground arith)
  | inr (s, e) ↦
      ground (arith, str_eq_iff s "accepted", str_eq_iff s "accepted_gap", str_eq_iff s "excluded")
]

not_listed : (s t : String) → str_eq s t ≡ false → s ≢ t
not_listed s t h = ground (arith, str_eq_iff s t)

settled :
    (j : ArchiveJob) → is_blocking j ≡ false → is_in_review j ≡ false → IsAccepted j ⊎ IsOver j
unfolding is_blocking is_in_review
settled j b r = elim (Bool-cases (is_accepted j)) [
  | inl e ↦ inl (is_accepted-IsAccepted j e)
  | inr e ↦ inr (
    not_listed _ _ (ground arith),
    not_listed _ _ (ground arith),
    not_listed _ _ (ground arith),
    not_listed _ _ (ground arith),
    not_listed _ _ (ground arith),
    not_listed _ _ (ground arith),
    not_listed _ _ (ground arith),
  )
]

module _ (i : ℕ) where
  abbrev of_edition : ArchiveJob → Bool
  of_edition j = is_edition j.edition_id i

  of_edition_iff : (j : ArchiveJob) → of_edition j ≡ true → j.edition_id ≡ some i
  of_edition_iff j h = elim (Option-cases j.edition_id) [
    | inl e ↦ absurd (ground arith)
    | inr (n, e) ↦ let same : n ≡ i = ground arith in e ∙ ap some same
  ]

  not_of_edition : (j : ArchiveJob) → of_edition j ≡ false → j.edition_id ≢ some i
  not_of_edition j h same = ground arith

  blank :
      (p : ArchiveJob → Bool) (j : ArchiveJob) (l : List ArchiveJob)
      → is_empty (keep p (j ∷ l)) ≡ true
      → (p j ≡ false) × (is_empty (keep p l) ≡ true)
  blank p j l h = elim (Bool-cases (p j)) [
    | inl e ↦ absurd (ground arith)
    | inr e ↦ (e, sym (rw e refl) ∙ h)
  ]

  -- No shard of the edition blocks or waits for a review.
  all_settled :
      (jobs : List ArchiveJob)
      → is_empty (keep is_blocking (keep of_edition jobs)) ≡ true
      → is_empty (keep is_in_review (keep of_edition jobs)) ≡ true
      → All (λ j. (j.edition_id ≢ some i) ⊎ (IsAccepted j ⊎ IsOver j)) jobs
  all_settled [] b r = tt
  all_settled (j ∷ jobs) b r = elim (Bool-cases (of_edition j)) [
    | inl e ↦
        let (b0, bs) = blank is_blocking j (keep of_edition jobs) (sym (rw e refl) ∙ b) in
        let (r0, rs) = blank is_in_review j (keep of_edition jobs) (sym (rw e refl) ∙ r) in
        (inr (settled j b0 r0), all_settled jobs bs rs)
    | inr e ↦
        (inl (not_of_edition j e), all_settled jobs (sym (rw e refl) ∙ b) (sym (rw e refl) ∙ r))
  ]

-- A list that is not empty after two filters has a row that passes both.
found_by_both {ℓ} :
    {A : Type ℓ} (p q : A → Bool) (l : List A)
    → not (is_empty (keep q (keep p l))) ≡ true
    → (x : A) × IsRow x l × (p x ≡ true) × (q x ≡ true)
found_by_both p q [] h = absurd (ground arith)
found_by_both p q (x ∷ l) h = elim (Bool-cases (p x)) [
  | inl e ↦ elim (Bool-cases (q x)) [
    | inl f ↦ (x, first, e, f)
    | inr f ↦
        let (y, row, a, b) = found_by_both p q l (sym (rw (e, f) refl) ∙ h) in (y, later row, a, b)
  ]
  | inr e ↦ let (y, row, a, b) = found_by_both p q l (sym (rw e refl) ∙ h) in (y, later row, a, b)
]

module _ (i : ℕ) where
  -- An id among those of the edition's jobs is the id of one of them.
  found_by_id :
      (k : ℕ) (jobs : List ArchiveJob)
      → num_mem k (map (λ j. j.id) (keep (of_edition i) jobs)) ≡ true
      → (j : ArchiveJob) × IsRow j jobs × (j.edition_id ≡ some i) × (j.id ≡ k)
  found_by_id k [] h = absurd (ground arith)
  found_by_id k (j ∷ jobs) h = elim (Bool-cases (of_edition i j)) [
    | inl e ↦ elim (Bool-cases (k == j.id)) [
      | inl f ↦ (j, first, of_edition_iff i j e, ground arith)
      | inr f ↦
          let (x, row, a, b) = found_by_id k jobs (sym (rw (e, f) refl) ∙ h) in (x, later row, a, b)
    ]
    | inr e ↦ let (x, row, a, b) = found_by_id k jobs (sym (rw e refl) ∙ h) in (x, later row, a, b)
  ]

-- Where URLs were captured there is a capture.
found_capture :
    (p : Snapshot → Bool) (l : List Snapshot)
    → ltb 0 (length (distinct (map (λ s. s.url) (keep p l)))) ≡ true
    → (s : Snapshot) × IsRow s l × (p s ≡ true)
unfolding distinct
found_capture p [] h = absurd (ground arith)
found_capture p (s ∷ l) h = elim (Bool-cases (p s)) [
  | inl e ↦ (s, first, e)
  | inr e ↦ let (x, row, a) = found_capture p l (sym (rw e refl) ∙ h) in (x, later row, a)
]

and_left : (a b : Bool) → (a && b) ≡ true → a ≡ true
and_left a b h = ground arith

and_right : (a b : Bool) → (a && b) ≡ true → b ≡ true
and_right a b h = ground arith

-- A job of the table that is a shard of the edition and indexed.
abbrev pub HasIndexedShard : ℕ → List ArchiveJob → Type 0
HasIndexedShard i jobs =
    (j : ArchiveJob) × IsRow j jobs × (j.edition_id ≡ some i) × (j.status ≡ "indexed")

-- A snapshot of the table that a shard of the edition captured.
abbrev pub HasCapture : ℕ → List ArchiveJob → List Snapshot → Type 0
HasCapture i jobs snapshots =
    (s : Snapshot) × IsRow s snapshots
    × ((j : ArchiveJob) × IsRow j jobs × (j.edition_id ≡ some i) × (j.id ≡ s.job_id))

module _ (root : String) (source_code : Option String) (now : ℕ) (e : AnnualEdition)
    (jobs : List ArchiveJob) (snapshots : List Snapshot) where
  abbrev report : AnnualEdition
  report = (generate_coverage_report root source_code now e jobs snapshots).0

  report_status : str_eq report.status "research_ready" ≡ report.research_ready
  unfolding generate_coverage_report reported
  report_status = status-research _ _ _ _ _

  -- An edition that a report finds ready for research has that status and is ready for search. One of
  -- its shards is indexed and one of them has a capture, and each of them was accepted, accepted with
  -- a gap or excluded, or is in none of the statuses queued, retryable, running, completed, indexing,
  -- index_failed and failed.
  pub generate_coverage_report-ready :
      (generate_coverage_report root source_code now e jobs snapshots).0.research_ready ≡ true
      → ((generate_coverage_report root source_code now e jobs snapshots).0.status
          ≡ "research_ready")
        × ((generate_coverage_report root source_code now e jobs snapshots).0.search_ready ≡ true)
        × HasIndexedShard e.id jobs
        × HasCapture e.id jobs snapshots
        × All (λ j. (j.edition_id ≢ some e.id) ⊎ (IsAccepted j ⊎ IsOver j)) jobs
  unfolding generate_coverage_report reported coverage_of jobs_of_edition
  generate_coverage_report-ready h =
      let search = and_left _ _ h in
      let clear = and_right _ _ h in
      let (j, row, ours, indexed) =
        found_by_both (of_edition e.id) (λ k. str_eq k.status "indexed") jobs
          (and_left _ _ search) in
      let (s, captured, mine) = found_capture _ snapshots (and_right _ _ search) in
      (
        (str_eq_iff report.status "research_ready").0 (report_status ∙ h),
        search,
        (j, row, of_edition_iff e.id j ours, (str_eq_iff j.status "indexed").0 indexed),
        (s, captured, found_by_id e.id s.job_id jobs mine),
        all_settled e.id jobs (and_left _ _ clear) (and_right _ _ clear),
      )
