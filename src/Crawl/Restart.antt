-- ===== src/Crawl/Restart.antt =====
-- src/archive_tool/state.py: a crawl that starts again on the state file of an earlier one.
use healtharchive.Base.{◌≡◌, refl, ◌∙◌, List, String, true, Option, none, some, arith, is_some}
use healtharchive.Base.Int.{ℤ, ◌≤ℤ◌, min_ℤ}
use healtharchive.Crawl.State.{CrawlState, initial_state, reset_persistent_values}
use healtharchive.Crawl.TempDirs.{Files}
use healtharchive.Crawl.Persist.{
  Saved, StateFile, missing, unreadable, readable, Persistent, int_or, paths_or_empty, Disk,
  existing_dirs, load_fields, load_paths, load_persistent_state, snapshot, save_persistent_state,
  init,
}
use healtharchive.Crawl.Counts.{counts}
use healtharchive.Crawl.Budget.{counts-save}

min_le_right : (x y : ℤ) → min_ℤ x y ≤ℤ y
min_le_right x y = ground arith

min_below : (x y : ℤ) → x ≤ℤ y → min_ℤ x y ≡ x
min_below x y h = ground arith

self_le : (x : ℤ) → x ≤ℤ x
self_le x = ground arith

paths-cap :
    (d : Saved) (paths : Option (List String)) (workers : ℤ)
    → (load_paths d paths (initial_state workers)).current_workers ≤ℤ workers
unfolding load_paths load_fields reset_persistent_values initial_state
paths-cap d none workers = self_le workers
paths-cap d (some paths) workers = min_le_right (int_or d.current_workers workers) workers

load-cap :
    (fs : Files) (workers : ℤ) (file : StateFile)
    → (load_persistent_state fs file (initial_state workers)).current_workers ≤ℤ workers
unfolding load_persistent_state reset_persistent_values initial_state
load-cap fs workers missing = self_le workers
load-cap fs workers unreadable = self_le workers
load-cap fs workers (readable d) =
    paths-cap d (existing_dirs fs (paths_or_empty d.temp_dirs_host_paths)) workers

-- Whatever the state file holds, and whether it can be read or not, a crawl starts with at most the
-- workers that it was given.
pub init-cap :
    (disk : Disk) (workers : ℤ) (file : StateFile)
    → (init disk workers file).state.current_workers ≤ℤ workers
unfolding init save_persistent_state
init-cap disk workers file = load-cap disk.files workers file

counts-load_paths :
    (s : CrawlState) (paths : Option (List String)) (workers : ℤ)
    → is_some paths ≡ true
    → s.current_workers ≤ℤ workers
    → counts (load_paths (snapshot s) paths (initial_state workers)) ≡ counts s
unfolding load_paths load_fields snapshot initial_state
counts-load_paths s none workers h below = absurd cc
counts-load_paths s (some paths) workers h below =
    rw (min_below s.current_workers workers below) refl

counts-load :
    (fs : Files) (s : CrawlState) (workers : ℤ)
    → is_some (existing_dirs fs s.temp_dirs_host_paths) ≡ true
    → s.current_workers ≤ℤ workers
    → counts (load_persistent_state fs (readable (snapshot s)) (initial_state workers)) ≡ counts s
unfolding load_persistent_state snapshot
counts-load fs s workers h below =
    counts-load_paths s (existing_dirs fs s.temp_dirs_host_paths) workers h below

workers-save :
    (disk : Disk) (p : Persistent)
    → (save_persistent_state disk p).state.current_workers ≡ p.state.current_workers
unfolding save_persistent_state
workers-save disk p = refl

file-save :
    (disk : Disk) (p : Persistent)
    → disk.writable ≡ true
    → (save_persistent_state disk p).file ≡ readable (snapshot (save_persistent_state disk p).state)
unfolding save_persistent_state
file-save disk p h = rw h refl

-- The CrawlState that is made from the file of a save that reached the disk has the workers and the
-- three adaptation counts of that save, if it is given as many workers and every path of the save can
-- be looked at. What the main loop resets afterwards, unless it resumes, is not part of it.
pub init-save_persistent_state :
    (disk later : Disk) (workers : ℤ) (p : Persistent)
    → disk.writable ≡ true
    → is_some (existing_dirs later.files (save_persistent_state disk p).state.temp_dirs_host_paths)
      ≡ true
    → p.state.current_workers ≤ℤ workers
    → counts (init later workers (save_persistent_state disk p).file).state ≡ counts p.state
unfolding init
init-save_persistent_state disk later workers p writable paths below =
    let saved = (save_persistent_state disk p).state in
    rw (file-save disk p writable) (
      counts-save later (record {
        state =
            load_persistent_state later.files (readable (snapshot saved)) (initial_state workers);
        file = readable (snapshot saved);
      })
      ∙ counts-load later.files saved workers paths (rw (workers-save disk p) below)
      ∙ counts-save disk p)
