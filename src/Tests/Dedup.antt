-- ===== src/Tests/Dedup.antt =====
-- Two captures of one page on one day.
use healtharchive.Base.{◌+◌, ◌≡◌, refl, false, none, some, List, [], ◌∷◌}
use healtharchive.Dedup.{
  Snapshot, Database, DedupCandidate, deduplicate_snapshots, restore_deduped_snapshots,
}
use healtharchive.Dedup.Find.{
  find_same_day_duplicates, candidates_of, duplicates_of, is_canonical, is_duplicate, is_considered,
  same_group, candidate,
}
use healtharchive.Dedup.Undo.{restore-deduplicate_snapshots}
use healtharchive.Dedup.Canonical.{here, is_duplicate-canonical}

abbrev first_capture : Snapshot
first_capture = record {
  id = 1;
  job_id = some 7;
  source_id = some 2;
  url = "https://www.canada.ca/flu";
  normalized_url_group = none;
  capture_day = 20000;
  content_hash = some "abc";
  deduplicated = false;
}

abbrev second_capture : Snapshot
second_capture = record first_capture { id = 2; job_id = some 8 }

abbrev captures : List Snapshot
captures = first_capture ∷ second_capture ∷ []

-- The second capture is a duplicate of the first.
one_candidate :
    find_same_day_duplicates none none captures ≡ candidate first_capture second_capture ∷ []
one_candidate =
    unfold find_same_day_duplicates candidates_of duplicates_of is_canonical is_duplicate
      is_considered same_group in
    refl

abbrev found : List DedupCandidate
found = candidate first_capture second_capture ∷ candidate first_capture second_capture ∷ []

restore-deduplicate_snapshots_example :
    let db : Database = record { snapshots = captures; audits = [] } in
    let (marked, result) = deduplicate_snapshots false 9000 found db in
    (restore_deduped_snapshots none marked ≡ (db, result.deduped_count))
    × (result.deduped_count + result.skipped_count ≡ 2)
restore-deduplicate_snapshots_example =
    restore-deduplicate_snapshots 9000 found captures (refl, (refl, tt))

is_duplicate-canonical_example : is_duplicate first_capture first_capture ≡ false
is_duplicate-canonical_example =
    is_duplicate-canonical none none captures first_capture first_capture here here
      (unfold is_canonical is_considered same_group in refl)
      (unfold is_canonical is_considered same_group in refl)
