-- ===== src/Jobs.antt =====
-- src/ha_backend/models.py: the columns of ArchiveJob that the life cycle reads and writes, and the
-- table of jobs. Times are seconds.
pub mod Log
pub mod Run
pub mod Laws
pub mod Table
pub mod Command
pub mod Features
use healtharchive.Base.{
  ℕ, String, ◌≡◌, Bool, true, false, Option, none, some, List, [], ◌∷◌, arith, ◌==◌, if◌then◌else◌,
}
use healtharchive.Base.Int.{ℤ}
use healtharchive.Contract.Job.{ConfigDict}
use healtharchive.Infra.{FilePath}

-- The statistics of a crawl log line.
pub record CrawlStats : Type 0 where
  pub crawled : ℕ
  pub total : ℕ
  pub pending : ℕ
  pub failed : ℕ

pub record ArchiveJob : Type 0 where
  pub id : ℕ
  pub source_code : Option String
  pub name : String
  pub output_dir : FilePath
  pub status : String
  pub queued_at : Option ℕ
  pub created_at : ℕ
  pub updated_at : ℕ
  pub started_at : Option ℕ
  pub finished_at : Option ℕ
  pub retry_count : ℕ
  pub config : Option ConfigDict
  pub crawler_exit_code : Option ℤ
  pub crawler_status : Option String
  pub crawler_stage : Option String
  pub last_stats : Option CrawlStats
  pub pages_crawled : ℕ
  pub pages_total : ℕ
  pub pages_failed : ℕ
  pub warc_file_count : ℕ
  pub combined_log_path : Option String
  pub acceptance_state : Option String

abbrev pub Jobs : Type 0
Jobs = List ArchiveJob

-- session.get(ArchiveJob, job_id)
unfoldable pub get_job : ℕ → Jobs → Option ArchiveJob
get_job i [] = none
get_job i (j ∷ js) = if j.id == i then some j else get_job i js

-- The commit of one changed row.
unfoldable pub put_job : ArchiveJob → Jobs → Jobs
put_job k [] = []
put_job k (j ∷ js) = if j.id == k.id then k ∷ js else j ∷ put_job k js

-- A read after a commit: the changed row at its id, every other row as it was.
pub get_job-put_job :
    (i : ℕ) (k j : ArchiveJob) (js : Jobs)
    → get_job k.id js ≡ some j
    → get_job i (put_job k js) ≡ (if k.id == i then some k else get_job i js)
unfolding get_job put_job
get_job-put_job i k j [] h = ground arith
get_job-put_job i k j (x ∷ js) h = ground (arith, get_job-put_job i k j js)

pub id-get_job : (i : ℕ) (j : ArchiveJob) (js : Jobs) → get_job i js ≡ some j → j.id ≡ i
unfolding get_job
id-get_job i j [] h = ground arith
id-get_job i j (x ∷ js) h = ground (arith, id-get_job i j js)
