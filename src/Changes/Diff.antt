-- ===== src/Changes/Diff.antt =====
-- src/ha_backend/diffing.py: compute_diff, over the unified diff and the similarity of difflib.
use healtharchive.Base.{
  ℕ, ◌+◌, ◌-◌, ◌*◌, String, Bool, true, false, ◌&&◌, not, Option, none, some, List, [], ◌∷◌, map,
  ltb, keep, length, take, str_eq, if◌then◌else◌,
}
use healtharchive.Base.Text.{concat, starts_with, join_texts}
use healtharchive.Changes.{Ratio}

pub record DiffDocument : Type 0 where
  pub text : String
  pub lines : List String
  pub sections : List (String × String)

pub record DiffResult : Type 0 where
  pub diff_html : String
  pub diff_truncated : Bool
  pub added_lines : ℕ
  pub removed_lines : ℕ
  pub change_ratio : Ratio

-- difflib: the lines of a unified diff with three lines of context, and of SequenceMatcher the
-- number of lines that match; html.escape.
pub record Difflib : Type 0 where
  pub unified_diff : List String → List String → List String
  pub matching_lines : List String → List String → ℕ
  pub escape : String → String

abbrev pub max_diff_lines : ℕ
max_diff_lines = 400

unfoldable pub is_added : String → Bool
is_added line = starts_with line "+" && not (starts_with line "+++")

unfoldable pub is_removed : String → Bool
is_removed line = starts_with line "-" && not (starts_with line "---")

unfoldable pub line_class : String → String
line_class line =
    if starts_with line "@@"
    then "ha-diff-hunk"
    else if is_added line
    then "ha-diff-add"
    else if is_removed line
    then "ha-diff-del"
    else "ha-diff-context"

unfoldable pub render_diff_line : Difflib → String → String
render_diff_line d line =
    concat "<div class=\"ha-diff-line "
      (concat (line_class line) (concat "\"><code>" (concat (d.escape line) "</code></div>")))

-- ratio() is 2 M / T for M matches among T lines, and 1 where there are no lines.
unfoldable pub change_ratio : Difflib → List String → List String → Ratio
change_ratio d a b =
    let total = length a + length b in
    if ltb 0 total
    then record { part = total - 2 * d.matching_lines a b; whole = total }
    else record { part = 0; whole = 1 }

unfoldable pub compute_diff : Difflib → DiffDocument → DiffDocument → DiffResult
compute_diff d a b =
    let diff_lines = d.unified_diff a.lines b.lines in
    let shown = take max_diff_lines diff_lines in
    record {
      diff_html = join_texts "\n" (map (render_diff_line d) shown);
      diff_truncated = ltb max_diff_lines (length diff_lines);
      added_lines = length (keep is_added shown);
      removed_lines = length (keep is_removed shown);
      change_ratio = change_ratio d a.lines b.lines;
    }

-- {title: text for title, text in sections}: the last text of a title counts.
unfoldable pub section_text : String → List (String × String) → Option String
section_text title [] = none
section_text title ((t, text) ∷ rest) = elim (section_text title rest) [
  | some later ↦ some later
  | none ↦ if str_eq t title then some text else none
]

abbrev pub has_title : List (String × String) → String → Bool
has_title sections title = elim (section_text title sections) [ none ↦ false | some t ↦ true ]

-- The keys of the dictionary.
unfoldable pub titles : List (String × String) → List String
titles [] = []
titles ((t, text) ∷ rest) = let more = titles rest in if has_title rest t then more else t ∷ more

abbrev pub same_section : List (String × String) → List (String × String) → String → Bool
same_section a b title = elim (section_text title a) [
  | none ↦ false
  | some s ↦ elim (section_text title b) [ none ↦ false | some t ↦ str_eq s t ]
]

-- added, removed, changed
unfoldable pub compute_section_stats : List (String × String) → List (String × String) → ℕ × (ℕ × ℕ)
compute_section_stats a b = (
  length (keep (λ t. not (has_title a t)) (titles b)),
  (
    length (keep (λ t. not (has_title b t)) (titles a)),
    length (keep (λ t. has_title b t && not (same_section a b t)) (titles a)),
  ),
)
