-- ===== src/Jobs/Run.antt =====
-- src/ha_backend/jobs.py: run_persistent_job.
use healtharchive.Base.{
  ℕ, String, Bool, true, false, ◌||◌, not, Option, none, some, List, [], ◌∷◌, ltb, str_eq, str_mem,
  or_else, if◌then◌else◌,
}
use healtharchive.Base.Int.{ℤ, pos, is_zero}
use healtharchive.Base.Text.{strip}
use healtharchive.Contract.Policy.{PolicyDict, text_of}
use healtharchive.Contract.Job
use healtharchive.Contract.Job.{ConfigDict, ArchiveJobConfig, no_config}
use healtharchive.Infra.{FailureHeap, FilePath}
use healtharchive.Infra.Classify.{
  is_storage_infra_errno, is_storage_infra_error, is_output_dir_write_infra_error,
}
use healtharchive.Rescue.{infer_primary_backend, warc_complete_finalization_failed}
use healtharchive.Jobs.{ArchiveJob, Jobs, get_job, put_job}
use healtharchive.Jobs.Log.{
  LogFile, looks_like_config_error, looks_like_infra_error, warc_complete_finalization_failure,
}

abbrev pub max_infra_error_retries : ℕ
max_infra_error_retries = 5

-- An exception with the heap that its chain lies in, and the identities of that chain.
pub record Raised : Type 0 where
  pub heap : FailureHeap
  pub chain : List ℕ

-- The crawl as a child process: an exception, or a return code that may be None.
pub data CrawlOutcome : Type 0 where
  raised : Raised → CrawlOutcome
  returned : Option ℤ → CrawlOutcome

-- output_dir.stat(): whether it is a directory, or the OSError with its number.
pub data DirStat : Type 0 where
  directory : Bool → DirStat
  stat_error : Option ℕ → Raised → DirStat

-- All that the run observes outside the database.
pub record Run : Type 0 where
  pub lock_held : Bool
  pub started : ℕ
  pub outcome : CrawlOutcome
  pub finished : ℕ
  pub latest_log : Option LogFile
  pub dir : DirStat
  pub warcs : ℕ
  pub stats_log : Option LogFile

-- What the world answers in a run: the source profiles, Path.resolve and the observations.
pub record World : Type 0 where
  pub profiles : String → Option PolicyDict
  pub resolve : FilePath → FilePath
  pub run : Run

pub data RunResult : Type 0 where
  exit_code : ℤ → RunResult
  already_running : RunResult
  no_such_job not_runnable no_seeds : RunResult

-- The configuration with the primary backend pinned, if the stored one names none.
unfoldable pub pin_primary_backend :
    (String → Option PolicyDict) → ArchiveJob → ArchiveJobConfig → ArchiveJob
pin_primary_backend profiles j cfg =
    let policy = cfg.execution_policy in
    let primary : String = infer_primary_backend profiles j.source_code j.config in
    if str_eq (strip (text_of policy.primary_backend)) ""
    then record j {
      config = some (
          Job.to_dict
            (record cfg { execution_policy = record policy { primary_backend = some primary } }));
    }
    else j

-- The first session: the row is marked as running.
unfoldable pub mark_running : World → ArchiveJob → ArchiveJob
mark_running w j =
    let cfg = Job.from_dict (or_else j.config no_config) in
    record (pin_primary_backend w.profiles j cfg) {
      status = "running";
      started_at = some w.run.started;
      updated_at = w.run.started;
      finished_at = none;
      crawler_exit_code = none;
      crawler_status = none;
      crawler_stage = none;
      combined_log_path = none;
    }

-- The cap on infra errors: retryable below it, failed from it on.
unfoldable pub mark_infra_error : ArchiveJob → ArchiveJob
mark_infra_error j =
    if ltb j.retry_count max_infra_error_retries
    then record j { status = "retryable"; crawler_status = some "infra_error" }
    else record j { status = "failed"; crawler_status = some "infra_error" }

unfoldable pub mark_config_error : ArchiveJob → ArchiveJob
mark_config_error j = record j { status = "failed"; crawler_status = some "infra_error_config" }

-- The stats of update_job_stats_from_logs; `none` where no log or no statistics are found.
unfoldable pub sync_stats : Option LogFile → ArchiveJob → ArchiveJob
sync_stats none j = j
sync_stats (some log) j = elim log.stats [
  | none ↦ j
  | some s ↦ record j {
    last_stats = some s;
    pages_crawled = s.crawled;
    pages_total = s.total;
    pages_failed = s.failed;
    combined_log_path = some log.path;
  }
]

unfoldable pub is_infra_failure : World → ArchiveJob → Raised → Bool
is_infra_failure w j e =
    is_storage_infra_error e.heap e.chain
    || is_output_dir_write_infra_error w.resolve j.output_dir e.heap e.chain

-- A failure that is accepted by nothing: the log's tail is searched for infra errors and then for
-- config errors, and all else is a plain failure.
unfoldable pub classify_log : World → ℤ → ArchiveJob → Option LogFile → ArchiveJob × ℤ
classify_log w rc j none = (
  sync_stats w.run.stats_log (record j { status = "failed"; crawler_status = some "failed" }),
  rc,
)
classify_log w rc j (some log) =
    if looks_like_infra_error log.tail
    then (mark_infra_error j, rc)
    else if looks_like_config_error log.tail
    then (mark_config_error j, rc)
    else (
      sync_stats w.run.stats_log (record j { status = "failed"; crawler_status = some "failed" }),
      rc,
    )

-- A run that captured all its WARCs is accepted in spite of its return code.
unfoldable pub accept_warcs : World → ℤ → ArchiveJob → Option ℕ → ArchiveJob × ℤ
accept_warcs w rc j none = classify_log w rc j w.run.latest_log
accept_warcs w rc j (some n) = (
  record j {
    status = "completed";
    crawler_status = some "success";
    crawler_stage = some warc_complete_finalization_failed;
    warc_file_count = n;
  },
  pos 0,
)

unfoldable pub classify_failure : World → ℤ → ArchiveJob → ArchiveJob × ℤ
classify_failure w rc j =
    accept_warcs w rc j (warc_complete_finalization_failure w.run.latest_log w.run.warcs)

-- A return code other than 0: the output directory is looked at first.
unfoldable pub record_failure : World → ℤ → ArchiveJob → DirStat → ArchiveJob × ℤ
record_failure w rc j (directory true) = classify_failure w rc j
record_failure w rc j (directory false) = (mark_config_error j, rc)
record_failure w rc j (stat_error n e) =
    if is_storage_infra_errno n
      || is_output_dir_write_infra_error w.resolve j.output_dir e.heap e.chain
    then (mark_infra_error j, rc)
    else classify_failure w rc j

-- The second session: final status and exit code, with the value returned.
unfoldable pub record_outcome : World → CrawlOutcome → ArchiveJob → ArchiveJob × ℤ
record_outcome w (raised e) j =
    if is_infra_failure w j e
    then (record (mark_infra_error j) { crawler_exit_code = none }, pos 1)
    else (record (mark_config_error j) { crawler_exit_code = none }, pos 1)
record_outcome w (returned none) j =
    (record (mark_config_error j) { crawler_exit_code = none }, pos 1)
record_outcome w (returned (some rc)) j =
    let coded = record j { crawler_exit_code = some rc } in
    if is_zero rc
    then (
      sync_stats w.run.stats_log
          (record coded { status = "completed"; crawler_status = some "success" }),
      rc,
    )
    else record_failure w rc coded w.run.dir

-- The row as the second session loads and stamps it, before the outcome is recorded.
unfoldable pub stamp_finished : World → ArchiveJob → ArchiveJob
stamp_finished w j = record j {
  finished_at = some w.run.finished;
  updated_at = w.run.finished;
  combined_log_path = elim w.run.latest_log [
    | none ↦ j.combined_log_path
    | some log ↦ some log.path
  ];
}

-- Both sessions over a row that may be run.
unfoldable pub run_row : World → ArchiveJob → ArchiveJob × ℤ
run_row w j = record_outcome w w.run.outcome (stamp_finished w (mark_running w j))

abbrev pub seeds_of : ArchiveJob → List String
seeds_of j = (Job.from_dict (or_else j.config no_config)).seeds

abbrev pub has_seeds : List String → Bool
has_seeds [] = false
has_seeds (s ∷ ss) = true

unfoldable pub run_persistent_job : World → ℕ → Jobs → Jobs × RunResult
run_persistent_job w i js = if w.run.lock_held then (js, already_running) else elim (get_job i js) [
  | none ↦ (js, no_such_job)
  | some j ↦
      if not (str_mem j.status ("queued" ∷ "retryable" ∷ []))
      then (js, not_runnable)
      else if not (has_seeds (seeds_of j))
      then (js, no_seeds)
      else (put_job (run_row w j).0 js, exit_code (run_row w j).1)
]
