-- ===== src/Editions/Legacy.antt =====
-- src/ha_backend/annual_editions.py: new shards do not hide the legacy shards of an edition.
use healtharchive.Base.{
  ℕ, suc, ◌≡◌, refl, sym, ap, ◌∙◌, inl, inr, String, Bool, true, ◌&&◌, ◌||◌, not, Option, none,
  some, List, [], ◌∷◌, ◌++◌, opt_is, any, or_else, arith, Bool-cases, if◌then◌else◌, str_eq_refl,
}
use healtharchive.Editions.{ArchiveJob, is_text}
use healtharchive.Editions.Attach.{is_edition}
use healtharchive.Editions.Shards.{is_legacy, existing_jobs}
use healtharchive.Editions.Planned.{has_key, has_key_cons, has_key-append, AreServed}
use healtharchive.Editions.Replan.{AreNew}

is_listed : ℕ → ArchiveJob → List ArchiveJob → Bool
is_listed i j jobs =
    is_edition j.edition_id i
    && (is_text j.shard_key && not (has_key i jobs (or_else j.shard_key "")))

listed_lem :
    (i : ℕ) (j : ArchiveJob) (jobs : List ArchiveJob)
    → existing_jobs i (j ∷ jobs)
      ≡ (if is_listed i j jobs then j ∷ existing_jobs i jobs else existing_jobs i jobs)
unfolding existing_jobs is_listed
listed_lem i j jobs = refl

own_text : (key : Option String) → is_text key ≡ true → opt_is key (or_else key "") ≡ true
own_text none h = h
own_text (some k) h = str_eq_refl k

own_key :
    (i : ℕ) (j : ArchiveJob) (jobs : List ArchiveJob)
    → is_listed i j jobs ≡ true
    → has_key i (j ∷ jobs) (or_else j.shard_key "") ≡ true
unfolding is_listed
own_key i j jobs h =
    let text : is_text j.shard_key ≡ true = ground arith in
    let own = own_text j.shard_key text in
    has_key_cons i (or_else j.shard_key "") j jobs ∙ ground arith

-- New keys leave a listed job listed.
listed_kept :
    (i : ℕ) (j : ArchiveJob) (known new : List ArchiveJob)
    → AreNew i (j ∷ known) new
    → is_listed i j known ≡ true
    → is_listed i j (known ++ new) ≡ true
unfolding is_listed
listed_kept i j known new fresh h =
    let other = fresh (or_else j.shard_key "") (own_key i j known h) in
    let more = has_key-append i (or_else j.shard_key "") known new in ground arith

AreNew-tail :
    (i : ℕ) (j : ArchiveJob) (known new : List ArchiveJob)
    → AreNew i (j ∷ known) new
    → AreNew i known new
AreNew-tail i j known new fresh = λ key t. fresh key (has_key_cons i key j known ∙ rw (t) refl)

legacy_lem :
    (i : ℕ) (j : ArchiveJob) (jobs : List ArchiveJob)
    → any is_legacy (existing_jobs i (j ∷ jobs))
      ≡ (is_listed i j jobs && is_legacy j) || any is_legacy (existing_jobs i jobs)
legacy_lem i j jobs = ap (any is_legacy) (listed_lem i j jobs) ∙ ground arith

-- New keys leave a legacy shard of the edition in sight.
pub legacy_kept :
    (i : ℕ) (known new : List ArchiveJob)
    → AreNew i known new
    → any is_legacy (existing_jobs i known) ≡ true
    → any is_legacy (existing_jobs i (known ++ new)) ≡ true
unfolding existing_jobs
legacy_kept i [] new fresh h = absurd (ground arith)
legacy_kept i (j ∷ known) new fresh h =
    let before = sym (legacy_lem i j known) ∙ h in
    legacy_lem i j (known ++ new) ∙ elim (Bool-cases (is_listed i j known && is_legacy j)) [
      | inl e ↦
          let l : is_listed i j known ≡ true = ground arith in
          let k : is_legacy j ≡ true = ground arith in
          rw (listed_kept i j known new fresh l, k) refl
      | inr e ↦
          let t : any is_legacy (existing_jobs i known) ≡ true = ground arith in
          rw (legacy_kept i known new (AreNew-tail i j known new fresh) t) ground arith
    ]

pub AreServed-none :
    (i : ℕ) (jobs : List ArchiveJob) (missing : Option (List String)) (index : ℕ)
    (seeds : List String)
    → AreServed i jobs none index seeds
    → AreServed i jobs missing index seeds
AreServed-none i jobs missing index [] s = tt
AreServed-none i jobs missing index (seed ∷ seeds) s =
    (rw (s.0) ground arith, AreServed-none i jobs missing (suc index) seeds s.1)
