-- ===== src/Crawl/TempDirs.antt =====
-- src/archive_tool/state.py: the clean-up of the temp directories that save_persistent_state makes.
use healtharchive.Base.{
  ℕ, String, Bool, true, false, ◌||◌, not, Option, none, some, List, [], ◌∷◌, map, leb, str_eq,
  if◌then◌else◌,
}

-- What the file system answers: whether a path is a directory (`none` is an OSError), the canonical
-- path, and the time of the last change (0 where that raises).
pub record Files : Type 0 where
  pub is_dir : String → Option Bool
  pub canonical : String → String
  pub mtime : String → ℕ

abbrev pub is_true : Option Bool → Bool
is_true none = false
is_true (some b) = b

-- path in seen
unfoldable pub path_mem : String → List String → Bool
path_mem p [] = false
path_mem p (q ∷ qs) = str_eq p q || path_mem p qs

-- An entry of the list that is sorted: the time and the canonical path.
abbrev pub Entry : Type 0
Entry = ℕ × String

abbrev pub not_dir : Files → String → Bool
not_dir fs p = not (is_true (fs.is_dir p))

-- The loop: the directories that exist, by canonical path, each once.
unfoldable pub collect : Files → List String → List String → List Entry
unfolding path_mem
collect fs seen [] = []
collect fs seen (p ∷ ps) =
    let c : String = fs.canonical p in
    elim (not_dir fs p || path_mem c seen) [
      | true ↦ collect fs seen ps
      | false ↦ (fs.mtime p, c) ∷ collect fs (c ∷ seen) ps
    ]

-- entries.sort(key=mtime), which is stable
unfoldable pub insert_entry : Entry → List Entry → List Entry
insert_entry e [] = e ∷ []
insert_entry e (f ∷ fs) = if leb e.0 f.0 then e ∷ f ∷ fs else f ∷ insert_entry e fs

unfoldable pub sort_entries : List Entry → List Entry
unfolding insert_entry
sort_entries [] = []
sort_entries (e ∷ es) = insert_entry e (sort_entries es)

unfoldable pub clean_temp_dirs : Files → List String → List String
clean_temp_dirs fs paths = map (λ e. e.1) (sort_entries (collect fs [] paths))
