-- ===== src/Infra.antt =====
-- src/ha_backend/infra_errors.py: which exceptions mean that storage, not the crawl, failed.
-- Exceptions live on a heap, since `__cause__` and `__context__` may form a cycle.
pub mod Chain
pub mod Classify
pub mod Ends
use healtharchive.Base.{ℕ, String, Bool, Option, List}

-- A path by its parts; the root is the empty list.
abbrev pub FilePath : Type 0
FilePath = List String

-- What is read of one exception object: whether it is an OSError, its number and file name, and the
-- identities of the exceptions that it points to.
pub record Failure : Type 0 where
  pub is_os_error : Bool
  pub errno : Option ℕ
  pub filename : Option FilePath
  pub cause : Option ℕ
  pub context : Option ℕ

-- id(exc) to the object
abbrev pub FailureHeap : Type 0
FailureHeap = ℕ → Failure
