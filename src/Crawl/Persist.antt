-- ===== src/Crawl/Persist.antt =====
-- src/archive_tool/state.py: the JSON state file, load_persistent_state, save_persistent_state and
-- the operations that save.
use healtharchive.Base.{
  String, Bool, true, ◌||◌, ◌&&◌, not, Option, none, some, List, [], ◌∷◌, ◌++◌, if◌then◌else◌,
}
use healtharchive.Base.Int.{ℤ, pos, min_ℤ}
use healtharchive.Crawl.State.{
  CrawlState, ErrorCounts, initial_state, reset_persistent_values, zero_adaptation_counts,
}
use healtharchive.Crawl.TempDirs.{Files, not_dir, path_mem, clean_temp_dirs}

-- A value of the JSON object, by the types that the load tells apart.
pub data Json : Type 0 where
  int : ℤ → Json
  list : List String → Json
  other : Json

-- The object in the file; a key that is absent is `none`.
pub record Saved : Type 0 where
  pub current_workers : Option Json
  pub temp_dirs_host_paths : Option Json
  pub vpn_rotations_done : Option Json
  pub worker_reductions_done : Option Json
  pub container_restarts_done : Option Json
  pub error_counts : ErrorCounts

pub data StateFile : Type 0 where
  missing unreadable : StateFile
  readable : Saved → StateFile

-- The state in memory with the file on disk.
pub record Persistent : Type 0 where
  pub state : CrawlState
  pub file : StateFile

-- data.get(key, default), and the default where the value is no int
abbrev pub int_or : Option Json → ℤ → ℤ
int_or none d = d
int_or (some (int z)) d = z
int_or (some (list l)) d = d
int_or (some other) d = d

abbrev pub paths_or_empty : Option Json → List String
paths_or_empty none = []
paths_or_empty (some (int z)) = []
paths_or_empty (some (list l)) = l
paths_or_empty (some other) = []

-- [p for p in paths if Path(p).is_dir()]; `none` where an is_dir raises
unfoldable pub existing_dirs : Files → List String → Option (List String)
existing_dirs fs [] = some []
existing_dirs fs (p ∷ ps) = elim (fs.is_dir p) [
  | none ↦ none
  | some b ↦ elim (existing_dirs fs ps) [
    | none ↦ none
    | some rest ↦ some (if b then p ∷ rest else rest)
  ]
]

-- The fields that a parsed object sets, with the paths that still exist.
unfoldable pub load_fields : Saved → List String → CrawlState → CrawlState
load_fields d paths s = record s {
  current_workers = min_ℤ (int_or d.current_workers s.initial_workers) s.initial_workers;
  temp_dirs_host_paths = paths;
  vpn_rotations_done = int_or d.vpn_rotations_done (pos 0);
  worker_reductions_done = int_or d.worker_reductions_done (pos 0);
  container_restarts_done = int_or d.container_restarts_done (pos 0);
  last_vpn_rotation_timestamp = none;
}

-- All or nothing: an exception of the path test resets the fields as well.
unfoldable pub load_paths : Saved → Option (List String) → CrawlState → CrawlState
load_paths d none s = reset_persistent_values s
load_paths d (some paths) s = load_fields d paths s

unfoldable pub load_persistent_state : Files → StateFile → CrawlState → CrawlState
load_persistent_state fs missing s = reset_persistent_values s
load_persistent_state fs unreadable s = reset_persistent_values s
load_persistent_state fs (readable d) s =
    load_paths d (existing_dirs fs (paths_or_empty d.temp_dirs_host_paths)) s

-- The object that is written.
unfoldable pub snapshot : CrawlState → Saved
snapshot s = record {
  current_workers = some (int s.current_workers);
  temp_dirs_host_paths = some (list s.temp_dirs_host_paths);
  vpn_rotations_done = some (int s.vpn_rotations_done);
  worker_reductions_done = some (int s.worker_reductions_done);
  container_restarts_done = some (int s.container_restarts_done);
  error_counts = s.error_counts;
}

-- `writable` says whether the write and the fsync succeed; a failed write leaves the file unreadable
-- or as it was, which `broken` says.
pub record Disk : Type 0 where
  pub files : Files
  pub writable : Bool
  pub broken : Bool

unfoldable pub save_persistent_state : Disk → Persistent → Persistent
save_persistent_state disk p =
    let cleaned = record (p.state) {
      temp_dirs_host_paths = clean_temp_dirs disk.files p.state.temp_dirs_host_paths;
    } in
    record {
      state = cleaned;
      file =
          if disk.writable
          then readable (snapshot cleaned)
          else if disk.broken
          then unreadable
          else p.file;
    }

-- CrawlState.__init__
unfoldable pub init : Disk → ℤ → StateFile → Persistent
init disk workers file =
    save_persistent_state disk (record {
      state = load_persistent_state disk.files file (initial_state workers);
      file = file;
    })

unfoldable pub reset_adaptation_counts : Disk → Persistent → Persistent
reset_adaptation_counts disk p =
    save_persistent_state disk (record p { state = zero_adaptation_counts p.state })

-- add_temp_dir with a path; no path changes nothing.
unfoldable pub add_temp_dir : Disk → String → Persistent → Persistent
add_temp_dir disk path p =
    let canonical : String = disk.files.canonical path in
    let s = p.state in
    if not_dir disk.files path || path_mem canonical s.temp_dirs_host_paths
    then p
    else save_persistent_state disk (record p {
      state = record s { temp_dirs_host_paths = s.temp_dirs_host_paths ++ canonical ∷ [] };
    })

-- [p for p in paths if is_dir(p)], where an OSError counts as no directory
unfoldable pub keep_dirs : Files → List String → List String
keep_dirs fs [] = []
keep_dirs fs (p ∷ ps) = let rest = keep_dirs fs ps in if not_dir fs p then rest else p ∷ rest

unfoldable pub all_dirs : Files → List String → Bool
all_dirs fs [] = true
all_dirs fs (p ∷ ps) = not (not_dir fs p) && all_dirs fs ps

-- get_temp_dir_paths: the answer, and the state saved if a path was removed.
unfoldable pub get_temp_dir_paths : Disk → Persistent → Persistent × List String
get_temp_dir_paths disk p =
    let s = p.state in
    let paths = keep_dirs disk.files s.temp_dirs_host_paths in
    if all_dirs disk.files s.temp_dirs_host_paths then (p, paths) else (
      save_persistent_state disk (record p { state = record s { temp_dirs_host_paths = paths } }),
      paths,
    )
