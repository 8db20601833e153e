-- ===== src/Editions/Again.antt =====
-- src/ha_backend/annual_editions.py: a second coverage report of the same jobs and snapshots.
use healtharchive.Base.{
  ℕ, suc, ◌+◌, ◌≡◌, refl, ap, ◌∙◌, inl, inr, String, Bool, Option, some, List, [], ◌∷◌, ◌++◌, map,
  str_eq, num_mem, keep, length, arith, Bool-cases,
}
use healtharchive.Editions.{ArchiveJob, Snapshot, AnnualEdition}
use healtharchive.Editions.Attach.{is_edition}
use healtharchive.Editions.Report.{
  is_in_review, is_blocking, is_empty, mark_for_review, mark_shards, jobs_of_edition,
  seed_rows_for_jobs, seed_rows_from, seed_rows_of, SeedRow, distinct, exclusions_of, fresh_texts,
  all_exclusions, scope_exclusions_from_jobs, sum_failed, coverage_of, reported, artifact_path,
  edition_artifact_dir, generate_coverage_report,
}

module _ (path : String) where
  -- The mark changes the acceptance of a job and the path of its report only.
  mark_lem :
      (j : ArchiveJob)
      → mark_for_review path j ≡ record j {
        acceptance_state = (mark_for_review path j).acceptance_state;
        coverage_report_path = some path;
      }
  unfolding mark_for_review
  mark_lem j = ground arith

  -- A job that was marked is in review as before, and blocks as before.
  mark-is_in_review : (j : ArchiveJob) → is_in_review (mark_for_review path j) ≡ is_in_review j
  unfolding mark_for_review is_in_review
  mark-is_in_review j = ground arith

  mark-is_blocking : (j : ArchiveJob) → is_blocking (mark_for_review path j) ≡ is_blocking j
  unfolding mark_for_review is_blocking is_in_review
  mark-is_blocking j = ground arith

  mark-mark :
      (j : ArchiveJob) → mark_for_review path (mark_for_review path j) ≡ mark_for_review path j
  unfolding mark_for_review is_in_review
  mark-mark j = ground arith

  abbrev marked : List ArchiveJob → List ArchiveJob
  marked = map (mark_for_review path)

  -- A test that the mark does not change counts as many jobs.
  length-keep-marked :
      (p : ArchiveJob → Bool) (jobs : List ArchiveJob)
      → ((j : ArchiveJob) → p (mark_for_review path j) ≡ p j)
      → length (keep p (marked jobs)) ≡ length (keep p jobs)
  length-keep-marked p [] h = refl
  length-keep-marked p (j ∷ jobs) h = elim (Bool-cases (p j)) [
    | inl e ↦ rw (h j, e) (ap suc (length-keep-marked p jobs h))
    | inr e ↦ rw (h j, e) (length-keep-marked p jobs h)
  ]

  is_empty-keep-marked :
      (p : ArchiveJob → Bool) (jobs : List ArchiveJob)
      → ((j : ArchiveJob) → p (mark_for_review path j) ≡ p j)
      → is_empty (keep p (marked jobs)) ≡ is_empty (keep p jobs)
  is_empty-keep-marked p [] h = refl
  is_empty-keep-marked p (j ∷ jobs) h = elim (Bool-cases (p j)) [
    | inl e ↦ rw (h j, e) refl
    | inr e ↦ rw (h j, e) (is_empty-keep-marked p jobs h)
  ]

  is_empty-marked : (jobs : List ArchiveJob) → is_empty (marked jobs) ≡ is_empty jobs
  is_empty-marked [] = refl
  is_empty-marked (j ∷ jobs) = refl

  length-marked : (jobs : List ArchiveJob) → length (marked jobs) ≡ length jobs
  length-marked [] = refl
  length-marked (j ∷ jobs) = ap suc (length-marked jobs)

  sum_failed-marked : (jobs : List ArchiveJob) → sum_failed (marked jobs) ≡ sum_failed jobs
  sum_failed-marked [] = refl
  sum_failed-marked (j ∷ jobs) =
      ap (λ k. k.pages_failed + sum_failed (marked jobs)) (mark_lem j)
      ∙ ap (λ n. j.pages_failed + n) (sum_failed-marked jobs)

  ids-marked : (jobs : List ArchiveJob) → map (λ j. j.id) (marked jobs) ≡ map (λ j. j.id) jobs
  ids-marked [] = refl
  ids-marked (j ∷ jobs) =
      ap (λ k. k.id ∷ map (λ x. x.id) (marked jobs)) (mark_lem j)
      ∙ ap (λ l. j.id ∷ l) (ids-marked jobs)

  exclusions-marked : (jobs : List ArchiveJob) → all_exclusions (marked jobs) ≡ all_exclusions jobs
  unfolding all_exclusions
  exclusions-marked [] = refl
  exclusions-marked (j ∷ jobs) =
      ap (λ k. exclusions_of k.config.zimit_passthrough_args ++ all_exclusions (marked jobs))
        (mark_lem j)
      ∙ ap (λ l. exclusions_of j.config.zimit_passthrough_args ++ l) (exclusions-marked jobs)

  rules-marked :
      (jobs : List ArchiveJob)
      → scope_exclusions_from_jobs (marked jobs) ≡ scope_exclusions_from_jobs jobs
  unfolding scope_exclusions_from_jobs
  rules-marked jobs = ap (fresh_texts []) (exclusions-marked jobs)

  abbrev from_seeds : List String → List String → List ArchiveJob → ArchiveJob → List SeedRow
  from_seeds captured seen jobs j =
      let (rows, after) = seed_rows_of j.id captured seen j.config.seeds in
      rows ++ seed_rows_from captured after jobs

  rows-marked :
      (captured seen : List String) (jobs : List ArchiveJob)
      → seed_rows_from captured seen (marked jobs) ≡ seed_rows_from captured seen jobs
  unfolding seed_rows_from
  rows-marked captured seen [] = refl
  rows-marked captured seen (j ∷ jobs) =
      let r = seed_rows_of j.id captured seen j.config.seeds in
      ap (from_seeds captured seen (marked jobs)) (mark_lem j)
      ∙ ap (λ l. r.0 ++ l) (rows-marked captured r.1 jobs)

  seed_rows-marked :
      (captured : List String) (jobs : List ArchiveJob)
      → seed_rows_for_jobs (marked jobs) captured ≡ seed_rows_for_jobs jobs captured
  unfolding seed_rows_for_jobs
  seed_rows-marked captured jobs = rows-marked captured [] jobs

  mark-edition :
      (i : ℕ) (j : ArchiveJob)
      → is_edition (mark_for_review path j).edition_id i ≡ is_edition j.edition_id i
  mark-edition i j = ap (λ k. is_edition k.edition_id i) (mark_lem j)

  jobs_of_edition-mark_shards :
      (i : ℕ) (jobs : List ArchiveJob)
      → jobs_of_edition i (mark_shards path i jobs) ≡ marked (jobs_of_edition i jobs)
  unfolding jobs_of_edition
  jobs_of_edition-mark_shards i [] = refl
  jobs_of_edition-mark_shards i (j ∷ jobs) = elim (Bool-cases (is_edition j.edition_id i)) [
    | inl e ↦
        rw (e, mark-edition i j, e)
          (ap (λ l. mark_for_review path j ∷ l) (jobs_of_edition-mark_shards i jobs))
    | inr e ↦ rw (e, e) (jobs_of_edition-mark_shards i jobs)
  ]

  mark_shards-again :
      (i : ℕ) (jobs : List ArchiveJob)
      → mark_shards path i (mark_shards path i jobs) ≡ mark_shards path i jobs
  mark_shards-again i [] = refl
  mark_shards-again i (j ∷ jobs) = elim (Bool-cases (is_edition j.edition_id i)) [
    | inl e ↦
        rw (e, mark-edition i j, e, mark-mark j)
          (ap (λ l. mark_for_review path j ∷ l) (mark_shards-again i jobs))
    | inr e ↦ rw (e, e) (ap (λ l. j ∷ l) (mark_shards-again i jobs))
  ]

  indexed-marked :
      (j : ArchiveJob)
      → str_eq (mark_for_review path j).status "indexed" ≡ str_eq j.status "indexed"
  indexed-marked j = ap (λ k. str_eq k.status "indexed") (mark_lem j)

module _ (root : String) (source_code : Option String) where
  abbrev report_path : AnnualEdition → String
  report_path e = artifact_path root source_code e "coverage-report.json"

  reported-marked :
      (path : String) (now then : ℕ) (e : AnnualEdition) (jobs : List ArchiveJob)
      (captures : List Snapshot)
      → reported root source_code now
          (reported root source_code then e jobs (coverage_of jobs captures))
          (marked path jobs)
          (coverage_of (marked path jobs) captures)
        ≡ record (reported root source_code then e jobs (coverage_of jobs captures)) {
          generated_at = some now;
          updated_at = some now;
        }
  unfolding reported coverage_of edition_artifact_dir
  reported-marked path now then e jobs captures =
      let is_indexed : ArchiveJob → Bool = λ j. str_eq j.status "indexed" in
      rw
        (
          seed_rows-marked path (distinct (map (λ s. s.url) captures)) jobs,
          rules-marked path jobs,
          sum_failed-marked path jobs,
          length-marked path jobs,
          is_empty-marked path jobs,
          length-keep-marked path is_in_review jobs (mark-is_in_review path),
          is_empty-keep-marked path is_in_review jobs (mark-is_in_review path),
          is_empty-keep-marked path is_blocking jobs (mark-is_blocking path),
          length-keep-marked path is_indexed jobs (indexed-marked path),
          is_empty-keep-marked path is_indexed jobs (indexed-marked path),
        )
        refl

-- A second report of the same snapshots, on the jobs that the first one left and with the same archive
-- root and source code, leaves the jobs alone, their report paths included, and changes no column of
-- the edition but generated_at and updated_at.
pub generate_coverage_report-again :
    (root : String) (source_code : Option String) (now then : ℕ) (e : AnnualEdition)
    (jobs : List ArchiveJob) (snapshots : List Snapshot)
    → let (first, marked_jobs) = generate_coverage_report root source_code then e jobs snapshots in
      generate_coverage_report root source_code now first marked_jobs snapshots
      ≡ (record first { generated_at = some now; updated_at = some now }, marked_jobs)
unfolding generate_coverage_report reported edition_artifact_dir
generate_coverage_report-again root source_code now then e jobs snapshots =
    let path = report_path root source_code e in
    let shards = jobs_of_edition e.id jobs in
    let ids : List ArchiveJob → List ℕ = map (λ j. j.id) in
    let captures : List ℕ → List Snapshot = λ l. keep (λ s. num_mem s.job_id l) snapshots in
    let first : AnnualEdition =
      reported root source_code then e shards (coverage_of shards (captures (ids shards))) in
    let later : AnnualEdition = record first { generated_at = some now; updated_at = some now } in
    let again : List ArchiveJob → AnnualEdition =
      λ k. reported root source_code now first k (coverage_of k (captures (ids k))) in
    let same : again (jobs_of_edition e.id (mark_shards path e.id jobs)) ≡ later =
      ap again (jobs_of_edition-mark_shards path e.id jobs)
      ∙ ap
          (λ l.
            reported root source_code now first (marked path shards)
              (coverage_of (marked path shards) (captures l)))
          (ids-marked path shards)
      ∙ reported-marked root source_code path now then e shards (captures (ids shards)) in
    ap (λ x. (x, mark_shards path e.id (mark_shards path e.id jobs))) same
    ∙ ap (λ l. (later, l)) (mark_shards-again path e.id jobs)
