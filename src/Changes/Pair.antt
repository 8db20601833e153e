-- ===== src/Changes/Pair.antt =====
-- src/ha_backend/changes.py: compute_change_for_snapshot_pair and what it calls.
use healtharchive.Base.{
  ℕ, ◌+◌, ◌*◌, String, Bool, true, false, ◌&&◌, ◌||◌, not, Option, none, some, List, [], ◌∷◌, ◌++◌,
  ltb, leb, ◌==◌, length, str_eq, or_else, if◌then◌else◌,
}
use mathlib.Core.Option
use healtharchive.Base.Text.{concat, lower, starts_with, show, join_texts}
use healtharchive.Changes.{
  Snapshot, SnapshotChange, ChangeType, updated, unchanged, new_page, error,
}
use healtharchive.Changes.Diff.{
  Difflib, DiffDocument, DiffResult, compute_diff, compute_section_stats,
}

-- What a call returns, or the text of the exception that it raises.
pub data Attempt (A : Type 0) : Type 0 where
  returned : A → Attempt A
  raised : String → Attempt A

-- _load_snapshot_html finds the WARC record of a snapshot and decodes it; normalize_html_for_diff
-- parses a page; `grouping` is normalize_url_for_grouping.
pub record Pages : Type 0 where
  pub load_html : Snapshot → Attempt String
  pub normalize_html : String → Attempt DiffDocument
  pub difflib : Difflib
  pub grouping : String → Option String

unfoldable pub is_html_snapshot : Snapshot → Bool
is_html_snapshot s = elim s.mime_type [
  | none ↦ false
  | some mime ↦ not (str_eq mime "") && starts_with (lower mime) "text/html"
]

abbrev pub counted : ℕ → String → List String
counted n text = if n == 0 then [] else concat (show n) text ∷ []

-- The counts of an update; no other change type has any.
pub record Counts : Type 0 where
  pub added_sections : ℕ
  pub removed_sections : ℕ
  pub changed_sections : ℕ
  pub added_lines : ℕ
  pub removed_lines : ℕ

unfoldable pub section_parts : Counts → List String
section_parts c =
    counted c.changed_sections " sections changed"
    ++ (counted c.added_sections " added" ++ counted c.removed_sections " removed")

-- The parts of the summary of an update: at least one.
unfoldable pub summary_parts : Counts → List String → List String
summary_parts c [] =
    if c.added_lines == 0 && c.removed_lines == 0
    then "Archived text updated" ∷ []
    else concat (show c.added_lines)
        (concat " lines added; " (concat (show c.removed_lines) " removed"))
      ∷ []
summary_parts c (p ∷ ps) = p ∷ ps

unfoldable pub summarize_update : Counts → Bool → String
summarize_update c high_noise =
    let summary : String = join_texts "; " (summary_parts c (section_parts c)) in
    if high_noise then concat summary " (high-noise change)" else summary

unfoldable pub summarize_change : ChangeType → Counts → Bool → String
summarize_change new_page c noise = "First archived capture for this page."
summarize_change unchanged c noise = "No text changes detected (identical content hash)."
summarize_change error c noise = "Diff unavailable due to a processing error."
summarize_change updated c noise = summarize_update c noise

abbrev pub no_counts : Counts
no_counts = record {
  added_sections = 0;
  removed_sections = 0;
  changed_sections = 0;
  added_lines = 0;
  removed_lines = 0;
}

-- `snapshot.normalized_url_group or normalize_url_for_grouping(snapshot.url)`
abbrev pub group_or : Pages → Snapshot → Option String
group_or pages s = elim s.normalized_url_group [
  | none ↦ pages.grouping s.url
  | some g ↦ if str_eq g "" then pages.grouping s.url else some g
]

-- _build_change_event with the defaults of the arguments that only an update with a diff gives.
unfoldable pub plain_event :
    Pages
    → Snapshot
    → Option Snapshot
    → ChangeType
    → String
    → Bool
    → Option String
    → String
    → SnapshotChange
plain_event pages to from kind summary high_noise message computed_by = record {
  source_id = to.source_id;
  normalized_url_group = group_or pages to;
  from_snapshot_id = Option.map (λ s. s.id) from;
  to_snapshot_id = to.id;
  from_job_id = elim from [ none ↦ none | some s ↦ s.job_id ];
  to_job_id = to.job_id;
  from_capture_timestamp = Option.map (λ s. s.capture_timestamp) from;
  to_capture_timestamp = to.capture_timestamp;
  change_type = kind;
  summary = summary;
  diff_format = none;
  diff_html = none;
  diff_truncated = false;
  added_sections = none;
  removed_sections = none;
  changed_sections = none;
  added_lines = none;
  removed_lines = none;
  change_ratio = none;
  high_noise = high_noise;
  diff_version = none;
  normalization_version = none;
  computed_by = computed_by;
  error_message = message;
}

-- `diff.change_ratio >= 0.6 or (added + removed) / max(lines, 1) > 0.7`, in whole numbers.
unfoldable pub is_high_noise : DiffResult → ℕ → Bool
is_high_noise diff lines =
    leb (6 * diff.change_ratio.whole) (10 * diff.change_ratio.part)
    || (ltb 0 lines && ltb (7 * lines) (10 * (diff.added_lines + diff.removed_lines)))

unfoldable pub diff_event :
    Pages → Snapshot → Snapshot → DiffDocument → DiffDocument → String → SnapshotChange
diff_event pages to from doc_a doc_b computed_by =
    let diff = compute_diff pages.difflib doc_a doc_b in
    let stats = compute_section_stats doc_a.sections doc_b.sections in
    let counts : Counts = record {
      added_sections = stats.0;
      removed_sections = stats.1.0;
      changed_sections = stats.1.1;
      added_lines = diff.added_lines;
      removed_lines = diff.removed_lines;
    } in
    let noise = is_high_noise diff (length doc_b.lines) in
    record (plain_event pages to (some from) updated (summarize_change updated counts noise) noise
      none computed_by) {
        diff_format = if str_eq diff.diff_html "" then none else some "html";
        diff_html = some diff.diff_html;
        diff_truncated = diff.diff_truncated;
        added_sections = some stats.0;
        removed_sections = some stats.1.0;
        changed_sections = some stats.1.1;
        added_lines = some diff.added_lines;
        removed_lines = some diff.removed_lines;
        change_ratio = some diff.change_ratio;
        diff_version = some "v1";
        normalization_version = some "v1";
      }

unfoldable pub error_event : Pages → Snapshot → Snapshot → String → String → SnapshotChange
error_event pages to from message computed_by =
    plain_event pages to (some from) error (summarize_change error no_counts false) true
      (some message) computed_by

-- The body of the `try`: both pages are loaded, then both parsed, the earlier one first.
unfoldable pub compare_documents : Pages → Snapshot → Snapshot → String → SnapshotChange
compare_documents pages to from computed_by = elim (pages.load_html from) [
  | raised message ↦ error_event pages to from message computed_by
  | returned html_a ↦ elim (pages.load_html to) [
    | raised message ↦ error_event pages to from message computed_by
    | returned html_b ↦ elim (pages.normalize_html html_a) [
      | raised message ↦ error_event pages to from message computed_by
      | returned doc_a ↦ elim (pages.normalize_html html_b) [
        | raised message ↦ error_event pages to from message computed_by
        | returned doc_b ↦ diff_event pages to from doc_a doc_b computed_by
      ]
    ]
  ]
]

-- Both hashes are there and equal.
unfoldable pub same_content : Snapshot → Snapshot → Bool
same_content to from =
    let hash : String = or_else to.content_hash "" in
    not (str_eq hash "")
    && not (str_eq (or_else from.content_hash "") "")
    && str_eq hash (or_else from.content_hash "")

unfoldable pub change_from : Pages → Snapshot → Snapshot → String → SnapshotChange
change_from pages to from computed_by =
    if same_content to from
    then plain_event pages to (some from) unchanged (summarize_change unchanged no_counts false)
        false none computed_by
    else if not (is_html_snapshot to && is_html_snapshot from)
    then plain_event pages to (some from) updated
        "Content updated (diff unavailable for non-HTML capture)." true none computed_by
    else compare_documents pages to from computed_by

unfoldable pub compute_change_for_snapshot_pair :
    Pages → Snapshot → Option Snapshot → String → SnapshotChange
compute_change_for_snapshot_pair pages to none computed_by =
    plain_event pages to none new_page (summarize_change new_page no_counts false) false none
      computed_by
compute_change_for_snapshot_pair pages to (some from) computed_by =
    change_from pages to from computed_by
