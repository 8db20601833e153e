-- ===== src/Jobs/Table.antt =====
-- src/ha_backend/jobs.py, run_persistent_job over the whole table: which calls change nothing, and
-- what a call that runs changes.
use mathlib.Core.Path.{subst}
use healtharchive.Base.{
  ℕ, ◌≡◌, inl, inr, refl, sym, ap, ◌∙◌, Bool, true, false, ◌&&◌, Option, none, some, [], ◌∷◌, arith,
  ◌==◌, str_eq, str_mem, Option-cases, if◌then◌else◌,
}
use healtharchive.Base.Int.{ℤ}
use healtharchive.Base.Text.{strip}
use healtharchive.Contract.Policy.{text_of}
use healtharchive.Contract.Job
use healtharchive.Contract.Job.{ConfigDict, no_config}
use healtharchive.Rescue.{policy_of}
use healtharchive.Jobs.{ArchiveJob, Jobs, get_job, put_job, get_job-put_job, id-get_job}
use healtharchive.Jobs.Laws.{Ended, run_row-Ended}
use healtharchive.Jobs.Log.{LogFile, warc_complete_finalization_failure}
use healtharchive.Jobs.Run.{
  World, CrawlOutcome, raised, returned, DirStat, mark_running, mark_infra_error, mark_config_error,
  sync_stats, classify_log, accept_warcs, classify_failure, record_failure, record_outcome,
  stamp_finished, run_row, run_persistent_job, RunResult, exit_code, already_running, no_such_job,
  not_runnable, no_seeds, pin_primary_backend, seeds_of, has_seeds,
}

-- What run_persistent_job asks of a row before it runs it.
abbrev pub is_runnable : ArchiveJob → Bool
is_runnable j = str_mem j.status ("queued" ∷ "retryable" ∷ []) && has_seeds (seeds_of j)

abbrev pub is_exit : RunResult → Bool
is_exit (exit_code rc) = true
is_exit already_running = false
is_exit no_such_job = false
is_exit not_runnable = false
is_exit no_seeds = false

-- A call that raises (lock held, no such job, wrong status, no seeds) leaves the table as it was.
pub run_persistent_job_refused :
    (w : World) (i : ℕ) (js : Jobs)
    → is_exit (run_persistent_job w i js).1 ≡ false
    → (run_persistent_job w i js).0 ≡ js
unfolding run_persistent_job
run_persistent_job_refused w i js h = ground arith

-- A call on a runnable job whose lock is free runs it: the row at its id is the row that was run,
-- every other row is as it was, and the code is the run's.
pub run_persistent_job_runs :
    (w : World) (i : ℕ) (js : Jobs) (j : ArchiveJob)
    → w.run.lock_held ≡ false
    → get_job i js ≡ some j
    → is_runnable j ≡ true
    → run_persistent_job w i js ≡ (put_job (run_row w j).0 js, exit_code (run_row w j).1)
unfolding run_persistent_job
run_persistent_job_runs w i js j l g r = ground arith

-- A run keeps the row's id, its retry count and, past the first session, its config.
module _ (w : World) where
  abbrev SameRow : ArchiveJob → ArchiveJob → Type 0
  SameRow a b = (a.id ≡ b.id) × (a.retry_count ≡ b.retry_count) × (a.config ≡ b.config)

  log-SameRow : (rc : ℤ) (k : ArchiveJob) (l : Option LogFile) → SameRow (classify_log w rc k l).0 k
  unfolding classify_log sync_stats mark_infra_error mark_config_error
  log-SameRow rc k l = ground arith

  accept-SameRow : (rc : ℤ) (k : ArchiveJob) (n : Option ℕ) → SameRow (accept_warcs w rc k n).0 k
  unfolding accept_warcs
  accept-SameRow rc k none = log-SameRow rc k w.run.latest_log
  accept-SameRow rc k (some n) = (refl, refl, refl)

  failure-SameRow : (rc : ℤ) (k : ArchiveJob) (d : DirStat) → SameRow (record_failure w rc k d).0 k
  unfolding record_failure classify_failure mark_infra_error mark_config_error
  failure-SameRow rc k d =
      ground (
        arith,
        accept-SameRow rc k (warc_complete_finalization_failure w.run.latest_log w.run.warcs),
      )

  outcome-SameRow : (o : CrawlOutcome) (k : ArchiveJob) → SameRow (record_outcome w o k).0 k
  unfolding record_outcome mark_infra_error mark_config_error sync_stats
  outcome-SameRow (raised e) k = ground arith
  outcome-SameRow (returned none) k = ground arith
  outcome-SameRow (returned (some rc)) k =
      ground (arith, failure-SameRow rc (record k { crawler_exit_code = some rc }) w.run.dir)

  pub id-run_row : (j : ArchiveJob) → (run_row w j).0.id ≡ j.id
  unfolding run_row stamp_finished mark_running pin_primary_backend
  id-run_row j = ground (arith, outcome-SameRow w.run.outcome (stamp_finished w (mark_running w j)))

  -- The config that a run leaves where the stored policy names no primary backend: the four keys of
  -- ArchiveJobConfig, and no campaign key.
  pub campaign_kind-run_row :
      (j : ArchiveJob)
      → str_eq (strip (text_of (policy_of j.config).primary_backend)) "" ≡ true
      → (d : ConfigDict) → (run_row w j).0.config ≡ some d
      → (d.campaign_kind ≡ none) × (d.campaign_year ≡ none)
  unfolding run_row stamp_finished mark_running pin_primary_backend Job.to_dict
  campaign_kind-run_row j blank d e =
      ground (arith, outcome-SameRow w.run.outcome (stamp_finished w (mark_running w j)))

run_persistent_job_inv :
    (w : World) (i : ℕ) (js : Jobs) (rc : ℤ)
    → (run_persistent_job w i js).1 ≡ exit_code rc
    → (j : ArchiveJob) × (get_job i js ≡ some j)
      × (run_persistent_job w i js ≡ (put_job (run_row w j).0 js, exit_code (run_row w j).1))
unfolding run_persistent_job
run_persistent_job_inv w i js rc h = elim (Option-cases (get_job i js)) [
  | inl e ↦ absurd (ground arith)
  | inr (j, e) ↦ (j, e, ground arith)
]

code_injective : {a b : ℤ} → exit_code a ≡ exit_code b → a ≡ b
code_injective e = cc

-- The read of a row that is put at its own id.
get_job-put_self :
    (i m : ℕ) (k j : ArchiveJob) (js : Jobs)
    → k.id ≡ i
    → get_job i js ≡ some j
    → get_job m (put_job k js) ≡ (if i == m then some k else get_job m js)
get_job-put_self i m k j js e h = rw (← e) (get_job-put_job m k j js (rw e h))

-- The code and the row of a call that does not raise: the row at its id ended, and every other row
-- is as it was.
pub run_persistent_job-effect :
    (w : World) (i m : ℕ) (js : Jobs) (rc : ℤ)
    → (run_persistent_job w i js).1 ≡ exit_code rc
    → (j : ArchiveJob) × (k : ArchiveJob) × (get_job i js ≡ some j)
      × Ended k rc j.retry_count
      × (get_job m (run_persistent_job w i js).0 ≡ (if i == m then some k else get_job m js))
run_persistent_job-effect w i m js rc h =
    let (j, g, run) = run_persistent_job_inv w i js rc h in
    let k = (run_row w j).0 in
    let same : k.id ≡ i = id-run_row w j ∙ id-get_job i j js g in
    let codes : exit_code (run_row w j).1 ≡ exit_code rc = sym (ap (λ r. r.1) run) ∙ h in
    (
      j,
      k,
      g,
      subst (λ c. Ended k c j.retry_count) (code_injective codes) (run_row-Ended w j),
      rw run (get_job-put_self i m k j js same g),
    )
