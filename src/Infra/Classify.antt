-- ===== src/Infra/Classify.antt =====
-- src/ha_backend/infra_errors.py: is_storage_infra_error and is_output_dir_write_infra_error, over
-- the identities that `iter_exception_chain` yields.
use healtharchive.Base.{
  ℕ, Bool, true, false, ◌&&◌, ◌||◌, Option, none, some, List, [], ◌∷◌, ◌==◌, str_eq,
}
use healtharchive.Infra.{FailureHeap, FilePath}
use healtharchive.Infra.Chain.{seen_has}

-- ENOTCONN, EIO, ETIMEDOUT, ENETUNREACH, ECONNREFUSED, EHOSTUNREACH, ENOSPC, ESTALE on Linux
abbrev pub storage_infra_errnos : List ℕ
storage_infra_errnos = 107 ∷ 5 ∷ 110 ∷ 101 ∷ 111 ∷ 113 ∷ 28 ∷ 116 ∷ []

unfoldable pub is_storage_infra_errno : Option ℕ → Bool
unfolding seen_has
is_storage_infra_errno none = false
is_storage_infra_errno (some n) = seen_has n storage_infra_errnos

unfoldable pub is_storage_infra_error : FailureHeap → List ℕ → Bool
unfolding is_storage_infra_errno
is_storage_infra_error heap [] = false
is_storage_infra_error heap (i ∷ rest) =
    ((heap i).is_os_error && is_storage_infra_errno (heap i).errno)
    || is_storage_infra_error heap rest

-- `base` is `path` or one of its parents.
unfoldable pub path_is_within : FilePath → FilePath → Bool
path_is_within path [] = true
path_is_within [] (b ∷ bs) = false
path_is_within (p ∷ ps) (b ∷ bs) = str_eq p b && path_is_within ps bs

-- EPERM, EACCES
abbrev is_permission_errno : Option ℕ → Bool
is_permission_errno none = false
is_permission_errno (some n) = n == 1 || n == 13

abbrev file_within : (FilePath → FilePath) → FilePath → Option FilePath → Bool
file_within resolve output_dir none = false
file_within resolve output_dir (some path) = path_is_within (resolve path) (resolve output_dir)

-- `resolve` is Path.resolve, with the path itself where that raises.
unfoldable pub is_output_dir_write_infra_error :
    (FilePath → FilePath) → FilePath → FailureHeap → List ℕ → Bool
unfolding path_is_within
is_output_dir_write_infra_error resolve output_dir heap [] = false
is_output_dir_write_infra_error resolve output_dir heap (i ∷ rest) =
    ((heap i).is_os_error
      && is_permission_errno (heap i).errno
      && file_within resolve output_dir (heap i).filename)
    || is_output_dir_write_infra_error resolve output_dir heap rest
