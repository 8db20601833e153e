-- ===== src/Tests/Changes.antt =====
-- Three captures of two pages, one of them twice.
use healtharchive.Base.{
  ◌++◌, ◌+◌, ◌-◌, suc, ◌≡◌, refl, Bool, true, false, none, some, List, [], ◌∷◌, map, take, leb,
  num_mem, arith, ◌==◌, if◌then◌else◌, All,
}
use healtharchive.Base.First.{SelectsFirst}
use healtharchive.Changes.{Snapshot}
use healtharchive.Changes.Diff.{Difflib}
use healtharchive.Changes.Pair.{Pages, returned, raised}
use healtharchive.Changes.Backfill.{Database, backfill_rows, compute_changes_backfill}
use healtharchive.Changes.Resume.{pairs, open_pairs, event, backfill_rows-pairs}
use healtharchive.Changes.Resumed.{compute_changes_backfill-resumes}
use healtharchive.Changes.Dry.{compute_changes_backfill_dry}
use healtharchive.Changes.Since.{latest_before}
use healtharchive.Changes.Since.{compute_changes_since}
use healtharchive.Changes.Once.{AreNewOnce, compute_changes_since-AreNewOnce}
use healtharchive.Changes.Complete.{backfill_rows-completes}
use healtharchive.Changes.Backfill.{changed_ids}
use healtharchive.Changes.Latest.{IsBefore, IsNearer, latest_before-cases}

abbrev flu_page : Snapshot
flu_page = record {
  id = 1;
  job_id = some 7;
  source_id = some 2;
  url = "https://www.canada.ca/flu";
  normalized_url_group = some "https://www.canada.ca/flu";
  capture_timestamp = 1000;
  mime_type = some "text/html";
  content_hash = some "abc";
}

abbrev flu_page_later : Snapshot
flu_page_later = record flu_page {
  id = 2;
  job_id = some 8;
  capture_timestamp = 2000;
  content_hash = some "abd";
}

abbrev cold_page : Snapshot
cold_page = record flu_page {
  id = 3;
  url = "https://www.canada.ca/cold";
  normalized_url_group = some "https://www.canada.ca/cold";
}

abbrev page_rows : List Snapshot
page_rows = flu_page ∷ flu_page_later ∷ cold_page ∷ []

abbrev sample_difflib : Difflib
sample_difflib = record {
  unified_diff = λ a b. "-old" ∷ "+new" ∷ [];
  matching_lines = λ a b. 1;
  escape = λ s. s;
}

abbrev sample_pages : Pages
sample_pages = record {
  load_html = λ s. if s.id == 3 then raised "WARC file not found" else returned s.url;
  normalize_html =
      λ html. returned (record { text = html; lines = html ∷ "b" ∷ []; sections = [] });
  difflib = sample_difflib;
  grouping = λ url. some url;
}

abbrev page_database : Database
page_database = record { snapshots = page_rows; changes = []; sources = ("hc", 2) ∷ [] }

abbrev by_id : Snapshot → Snapshot → Bool
by_id a b = leb a.id b.id

backfill_rows-pairs_example :
    (backfill_rows sample_pages false 2 (1 ∷ []) none 0 page_rows).events
    ≡ map (event sample_pages) (take (suc (2 - 1)) (open_pairs (1 ∷ []) (pairs none page_rows)))
backfill_rows-pairs_example =
    backfill_rows-pairs sample_pages false 2 (1 ∷ []) none 0 page_rows (refl, (refl, (refl, tt)))

compute_changes_backfill-resumes_example :
    (compute_changes_backfill sample_pages by_id true
      (some "hc")
      2
      false
      (compute_changes_backfill sample_pages by_id true (some "hc") 1 false page_database).0).0
    ≡ (compute_changes_backfill sample_pages by_id true (some "hc") (1 + 2) false page_database).0
compute_changes_backfill-resumes_example =
    compute_changes_backfill-resumes sample_pages by_id (some "hc") 0 1 page_database
      (refl, (refl, (refl, tt)))

compute_changes_backfill_dry_example :
    compute_changes_backfill sample_pages by_id true none 2 true page_database ≡ (
      page_database,
      (compute_changes_backfill sample_pages by_id true none 2 false page_database).1,
    )
compute_changes_backfill_dry_example =
    compute_changes_backfill_dry sample_pages by_id true none 2 page_database
      (refl, (refl, (refl, tt)))

latest_before-cases_example :
    SelectsFirst
      (IsBefore flu_page_later)
      IsNearer
      page_rows
      (latest_before flu_page_later page_rows)
latest_before-cases_example = latest_before-cases flu_page_later page_rows

page_database-AreNewOnce : AreNewOnce [] (changed_ids page_database.changes)
unfolding changed_ids
page_database-AreNewOnce = tt

compute_changes_since-AreNewOnce_example : AreNewOnce [] (
    changed_ids
      (compute_changes_since sample_pages 90000 true 1 none 5 false page_database).0.changes)
compute_changes_since-AreNewOnce_example =
    compute_changes_since-AreNewOnce sample_pages 90000 true 1 none 5 page_database
      page_database-AreNewOnce

backfill_rows-completes_example :
    All
      (λ s.
        num_mem s.id (
          (1 ∷ [])
          ++ changed_ids (backfill_rows sample_pages false 3 (1 ∷ []) none 0 page_rows).events)
        ≡ true)
      page_rows
backfill_rows-completes_example =
    backfill_rows-completes sample_pages 2 (1 ∷ []) page_rows (refl, (refl, (refl, tt)))
      (omega arith)
