-- ===== src/Jobs/Laws.antt =====
-- src/ha_backend/jobs.py, run_persistent_job: what a run leaves in its row and in the table.
use mathlib.Core.Path.{subst}
use healtharchive.Base.{
  ℕ, ◌<◌, ◌≡◌, inl, inr, refl, ◌∙◌, true, false, ◌||◌, Option, none, some, arith, ltb, Bool-cases,
}
use healtharchive.Base.Int.{ℤ, pos, is_zero}
use healtharchive.Infra.Classify.{is_storage_infra_errno, is_output_dir_write_infra_error}
use healtharchive.Jobs.{ArchiveJob}
use healtharchive.Jobs.Log.{LogFile, looks_like_config_error, looks_like_infra_error}
use healtharchive.Jobs.Run.{
  World, CrawlOutcome, raised, returned, DirStat, directory, stat_error, mark_running,
  mark_infra_error, mark_config_error, sync_stats, is_infra_failure, classify_log, accept_warcs,
  classify_failure, record_failure, record_outcome, stamp_finished, run_row,
  max_infra_error_retries, pin_primary_backend,
}

-- How a run may end. Completed: the crawler status is `success` and the code returned is 0.
-- Retryable: an infra error below the cap. Failed: for good. In the last two the code is not 0.
pub data Ended (k : ArchiveJob) (rc : ℤ) (retries : ℕ) : Type 0 where
  completed :
      k.status ≡ "completed"
      → k.crawler_status ≡ some "success"
      → is_zero rc ≡ true
      → Ended k rc retries
  retryable :
      k.status ≡ "retryable"
      → k.crawler_status ≡ some "infra_error"
      → is_zero rc ≡ false
      → retries < max_infra_error_retries
      → Ended k rc retries
  failed : k.status ≡ "failed" → is_zero rc ≡ false → Ended k rc retries

-- The statistics touch neither the status nor what identifies and counts.
pub record Kept (a b : ArchiveJob) : Type 0 where
  pub id : a.id ≡ b.id
  pub retry_count : a.retry_count ≡ b.retry_count
  pub started_at : a.started_at ≡ b.started_at
  pub finished_at : a.finished_at ≡ b.finished_at
  pub config : a.config ≡ b.config

sync-Kept : (log : Option LogFile) (k : ArchiveJob) → Kept (sync_stats log k) k
unfolding sync_stats
sync-Kept log k = record {
  id = ground arith;
  retry_count = ground arith;
  started_at = ground arith;
  finished_at = ground arith;
  config = ground arith;
}

status-sync : (log : Option LogFile) (k : ArchiveJob) → (sync_stats log k).status ≡ k.status
unfolding sync_stats
status-sync log k = ground arith

crawler_status-sync :
    (log : Option LogFile) (k : ArchiveJob) → (sync_stats log k).crawler_status ≡ k.crawler_status
unfolding sync_stats
crawler_status-sync log k = ground arith

completed-sync :
    (log : Option LogFile) (k : ArchiveJob) (rc : ℤ) (r : ℕ)
    → k.status ≡ "completed"
    → k.crawler_status ≡ some "success"
    → is_zero rc ≡ true
    → Ended (sync_stats log k) rc r
completed-sync log k rc r a b z =
    completed (status-sync log k ∙ a) (crawler_status-sync log k ∙ b) z

failed-sync :
    (log : Option LogFile) (k : ArchiveJob) (rc : ℤ) (r : ℕ)
    → k.status ≡ "failed"
    → is_zero rc ≡ false
    → Ended (sync_stats log k) rc r
failed-sync log k rc r a z = failed (status-sync log k ∙ a) z

infra-Ended :
    (k : ArchiveJob) (rc : ℤ) → is_zero rc ≡ false → Ended (mark_infra_error k) rc k.retry_count
unfolding mark_infra_error
infra-Ended k rc z = elim (Bool-cases (ltb k.retry_count max_infra_error_retries)) [
  | inl e ↦ rw e (retryable refl refl z (ground arith))
  | inr e ↦ rw e (failed refl z)
]

config-Ended :
    (k : ArchiveJob) (rc : ℤ) (r : ℕ) → is_zero rc ≡ false → Ended (mark_config_error k) rc r
unfolding mark_config_error
config-Ended k rc r z = failed refl z

abbrev EndedPair : ℕ → ArchiveJob × ℤ → Type 0
EndedPair r p = Ended p.0 p.1 r

log-Ended :
    (w : World) (rc : ℤ) (k : ArchiveJob) (log : Option LogFile)
    → is_zero rc ≡ false
    → EndedPair k.retry_count (classify_log w rc k log)
unfolding classify_log
log-Ended w rc k none z = failed-sync w.run.stats_log _ rc _ refl z
log-Ended w rc k (some log) z = elim (Bool-cases (looks_like_infra_error log.tail)) [
  | inl e ↦ rw e (infra-Ended k rc z)
  | inr e ↦ elim (Bool-cases (looks_like_config_error log.tail)) [
    | inl f ↦ rw (e, f) (config-Ended k rc _ z)
    | inr f ↦ rw (e, f) (failed-sync w.run.stats_log _ rc _ refl z)
  ]
]

accept-Ended :
    (w : World) (rc : ℤ) (k : ArchiveJob) (accepted : Option ℕ)
    → is_zero rc ≡ false
    → EndedPair k.retry_count (accept_warcs w rc k accepted)
unfolding accept_warcs
accept-Ended w rc k none z = log-Ended w rc k w.run.latest_log z
accept-Ended w rc k (some n) z = completed refl refl refl

classify-Ended :
    (w : World) (rc : ℤ) (k : ArchiveJob)
    → is_zero rc ≡ false
    → EndedPair k.retry_count (classify_failure w rc k)
unfolding classify_failure
classify-Ended w rc k z = accept-Ended w rc k _ z

failure-Ended :
    (w : World) (rc : ℤ) (k : ArchiveJob) (dir : DirStat)
    → is_zero rc ≡ false
    → EndedPair k.retry_count (record_failure w rc k dir)
unfolding record_failure
failure-Ended w rc k (directory true) z = classify-Ended w rc k z
failure-Ended w rc k (directory false) z = config-Ended k rc _ z
failure-Ended w rc k (stat_error n e) z =
    elim (Bool-cases (
      is_storage_infra_errno n
      || is_output_dir_write_infra_error w.resolve k.output_dir e.heap e.chain)) [
        | inl h ↦ rw h (infra-Ended k rc z)
        | inr h ↦ rw h (classify-Ended w rc k z)
      ]

coded-Ended :
    (k : ArchiveJob) (rc : ℤ) (c : Option ℤ) (r : ℕ)
    → Ended k rc r
    → Ended (record k { crawler_exit_code = c }) rc r
coded-Ended k rc c r (completed a b z) = completed a b z
coded-Ended k rc c r (retryable a b z h) = retryable a b z h
coded-Ended k rc c r (failed a z) = failed a z

outcome-Ended :
    (w : World) (o : CrawlOutcome) (k : ArchiveJob) → EndedPair k.retry_count (record_outcome w o k)
unfolding record_outcome
outcome-Ended w (raised e) k = elim (Bool-cases (is_infra_failure w k e)) [
  | inl h ↦ rw h (coded-Ended _ _ _ _ (infra-Ended k (pos 1) refl))
  | inr h ↦ rw h (coded-Ended _ _ _ _ (config-Ended k (pos 1) _ refl))
]
outcome-Ended w (returned none) k = coded-Ended _ _ _ _ (config-Ended k (pos 1) _ refl)
outcome-Ended w (returned (some rc)) k = elim (Bool-cases (is_zero rc)) [
  | inl z ↦ rw z (completed-sync w.run.stats_log _ rc _ refl refl z)
  | inr z ↦ rw z (failure-Ended w rc _ w.run.dir z)
]

retry_count-start :
    (w : World) (j : ArchiveJob) → (stamp_finished w (mark_running w j)).retry_count ≡ j.retry_count
unfolding stamp_finished mark_running pin_primary_backend
retry_count-start w j = ground arith

-- Whatever the crawl does, a row that was run ends completed, retryable or failed, as `Ended` says,
-- and never stays running.
pub run_row-Ended :
    (w : World) (j : ArchiveJob) → Ended (run_row w j).0 (run_row w j).1 j.retry_count
unfolding run_row
run_row-Ended w j =
    subst (Ended (run_row w j).0 (run_row w j).1) (retry_count-start w j)
      (outcome-Ended w w.run.outcome (stamp_finished w (mark_running w j)))
