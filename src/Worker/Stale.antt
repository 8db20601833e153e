-- ===== src/Worker/Stale.antt =====
-- src/ha_backend/worker/main.py: which rows _auto_recover_stale_running_jobs gives back to the queue.
use healtharchive.Base.{
  ℕ, ◌+◌, ◌≤◌, ◌<◌, ◌≡◌, inl, inr, true, false, Bool-cases, Option, none, some, [], ◌∷◌, arith,
  str_eq_iff,
}
use healtharchive.Jobs.{ArchiveJob, Jobs}
use healtharchive.Worker.Recovery.{LockProbe, is_stale, recover_job, recover_stale_running_jobs}

-- A start that is missing or lies more than 600 seconds back.
abbrev pub StartedLongAgo : ℕ → Option ℕ → Type 0
StartedLongAgo now none = Unit
StartedLongAgo now (some t) = t + 600 < now

-- The log shows no progress, or none in the last 300 seconds.
abbrev pub IsQuiet : Option ℕ → Type 0
IsQuiet none = Unit
IsQuiet (some age) = 300 ≤ age

module _ (now : ℕ) (probe : ArchiveJob → LockProbe) (age : ArchiveJob → Option ℕ) where
  -- A row that no worker crawls any more: running since long ago, its lock free and its log quiet.
  abbrev pub IsLost : ArchiveJob → Type 0
  IsLost j =
      (j.status ≡ "running")
      × StartedLongAgo now j.started_at
      × (probe j ≡ LockProbe.free)
      × IsQuiet (age j)

  -- The table before and after a recovery, and the number of rows that it gave back.
  pub data Recovers : Jobs → Jobs → ℕ → Type 0 where
    ended : Recovers [] [] 0
    given_back :
        {j : ArchiveJob} {js ks : Jobs} {n : ℕ}
        → IsLost j
        → Recovers js ks n
        → Recovers
            (j ∷ js)
            (record j {
              status = "retryable";
              crawler_stage = some "recovered_stale_running";
              updated_at = now;
            }
              ∷ ks)
            (n + 1)
    kept :
        {j : ArchiveJob} {js ks : Jobs} {n : ℕ}
        → ¬ IsLost j
        → Recovers js ks n
        → Recovers (j ∷ js) (j ∷ ks) n

  is_stale-IsLost : (j : ArchiveJob) → is_stale now probe age j ≡ true → IsLost j
  unfolding is_stale
  is_stale-IsLost j h = ground (arith, str_eq_iff j.status "running")

  is_stale-refuted : (j : ArchiveJob) → is_stale now probe age j ≡ false → ¬ IsLost j
  unfolding is_stale
  is_stale-refuted j h lost = ground (arith, str_eq_iff j.status "running")

  -- The recovery gives back to the queue, as retryable, exactly the rows that run since more than 600
  -- seconds or since an unknown time, whose lock is free and whose log shows no progress in the last
  -- 300 seconds; it changes no other field of them but stage and time, no other row, and answers how
  -- many it gave back.
  pub recover_stale_running_jobs-Recovers :
      (js : Jobs)
      → Recovers js
          (recover_stale_running_jobs now probe age js).0
          (recover_stale_running_jobs now probe age js).1
  unfolding recover_stale_running_jobs recover_job
  recover_stale_running_jobs-Recovers [] = ended
  recover_stale_running_jobs-Recovers (j ∷ js) = elim (Bool-cases (is_stale now probe age j)) [
    | inl e ↦ rw e (given_back (is_stale-IsLost j e) (recover_stale_running_jobs-Recovers js))
    | inr e ↦ rw e (kept (is_stale-refuted j e) (recover_stale_running_jobs-Recovers js))
  ]
