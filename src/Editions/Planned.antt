-- ===== src/Editions/Planned.antt =====
-- src/ha_backend/annual_editions.py: what the loop over the seeds of a source leaves.
use healtharchive.Base.{
  ℕ, suc, ◌≡◌, refl, sym, ◌∙◌, inl, inr, String, Bool, true, false, ◌&&◌, ◌||◌, Option, List, [],
  ◌∷◌, ◌++◌, opt_is, is_some, any, arith, Bool-cases, Option-cases,
}
use healtharchive.Editions.{ArchiveJob, AnnualEdition, is_text}
use healtharchive.Editions.Attach.{is_edition}
use healtharchive.Editions.Shards.{
  create, skip, error, ShardPlanItem, Outside, seed_shard_key, existing_job,
}
use healtharchive.Editions.Plan.{is_covered, plan_seeds, skip_all}

-- Whether a job of the edition has the key.
abbrev pub has_key : ℕ → List ArchiveJob → String → Bool
has_key i jobs key = is_some (existing_job i key jobs)

abbrev pub holds_key : ℕ → String → ArchiveJob → Bool
holds_key i key j = is_edition j.edition_id i && (is_text j.shard_key && opt_is j.shard_key key)

pub has_key_cons :
    (i : ℕ) (key : String) (j : ArchiveJob) (jobs : List ArchiveJob)
    → has_key i (j ∷ jobs) key ≡ has_key i jobs key || holds_key i key j
unfolding existing_job
has_key_cons i key j jobs = elim (Option-cases (existing_job i key jobs)) [
  | inl e ↦ rw (e, existing_job) ground arith
  | inr (k, e) ↦ rw (e, existing_job) refl
]

pub has_key_nil : (i : ℕ) (key : String) → has_key i [] key ≡ false
unfolding existing_job
has_key_nil i key = refl

pub has_key-append :
    (i : ℕ) (key : String) (a b : List ArchiveJob)
    → has_key i (a ++ b) key ≡ has_key i a key || has_key i b key
has_key-append i key [] b = rw (has_key_nil i key) refl
has_key-append i key (j ∷ a) b =
    has_key_cons i key j (a ++ b)
    ∙ rw (has_key-append i key a b, has_key_cons i key j a) ground arith

abbrev pub is_create : ShardPlanItem → Bool
is_create p = elim p.action [ create ↦ true | skip ↦ false | error ↦ false ]

-- Every seed that is not covered has a job in the edition.
abbrev pub AreServed : ℕ → List ArchiveJob → Option (List String) → ℕ → List String → Type 0
AreServed i jobs missing index [] = Unit
AreServed i jobs missing index (seed ∷ seeds) =
    ((is_covered missing seed || has_key i jobs (seed_shard_key seed index)) ≡ true)
    × AreServed i jobs missing (suc index) seeds

pub skip_all-creates :
    (code : String) (year : ℕ) (reason : String) (index : ℕ) (seeds : List String)
    → any is_create (skip_all code year reason index seeds) ≡ false
unfolding skip_all
skip_all-creates code year reason index [] = refl
skip_all-creates code year reason index (seed ∷ seeds) =
    skip_all-creates code year reason (suc index) seeds

module _ (o : Outside) (code : String) (source_id year : ℕ) (apply : Bool) (e : AnnualEdition) where
  -- Where every seed is served the loop makes no job and plans none.
  pub plan_seeds-served :
      (known : List ArchiveJob) (missing : Option (List String)) (index : ℕ) (seeds : List String)
      (jobs : List ArchiveJob)
      → AreServed e.id known missing index seeds
      → any is_create (plan_seeds o code source_id year apply e known missing index seeds jobs).1
        ≡ false
  unfolding plan_seeds
  plan_seeds-served known missing index [] jobs h = refl
  plan_seeds-served known missing index (seed ∷ seeds) jobs h =
      let ih = plan_seeds-served known missing (suc index) seeds jobs h.1 in
      elim (Bool-cases (is_covered missing seed)) [
        | inl c ↦ rw (c, plan_seeds) ih
        | inr c ↦ elim (Option-cases (existing_job e.id (seed_shard_key seed index) known)) [
          | inl n ↦
              let impossible : false ≡ true = sym (rw (c, n) refl) ∙ h.0 in absurd (ground arith)
          | inr (j, n) ↦ rw (c, n, plan_seeds) ih
        ]
      ]
