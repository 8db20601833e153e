-- ===== src/Editions/Replan.antt =====
-- src/ha_backend/annual_editions.py: shards are planned again after they were created.
use mathlib.Core.List.{append_assoc, append-nil}
use mathlib.Core.Path.{subst}
use healtharchive.Base.{
  ℕ, suc, ◌+◌, ◌≡◌, refl, sym, ap, ◌∙◌, inl, inr, String, true, false, ◌&&◌, ◌||◌, not, Option,
  List, [], ◌∷◌, ◌++◌, str_eq, arith, Bool-cases, Option-cases, str_eq_iff, str_eq_refl,
}
use Prim.Native.String.{len}
use text.Mathlib.TextPositions.{len-append}
use healtharchive.Base.Text.{concat, lower, show}
use healtharchive.Jobs.Log.{contains}
use healtharchive.Editions.{ArchiveJob, AnnualEdition}
use healtharchive.Editions.Shards.{Outside, seed_shard_key, existing_job}
use healtharchive.Editions.Plan.{is_covered, new_shard, plan_seeds}
use healtharchive.Editions.Planned.{
  has_key, has_key_cons, has_key-append, has_key_nil, holds_key, AreServed,
}

-- The new jobs have no key that the edition had.
abbrev pub AreNew : ℕ → List ArchiveJob → List ArchiveJob → Type 0
AreNew i known new = (key : String) → has_key i known key ≡ true → has_key i new key ≡ false

pub AreServed-more :
    (i : ℕ) (a b : List ArchiveJob) (missing : Option (List String)) (index : ℕ)
    (seeds : List String)
    → ((key : String) → has_key i a key ≡ true → has_key i b key ≡ true)
    → AreServed i a missing index seeds
    → AreServed i b missing index seeds
AreServed-more i a b missing index [] h s = tt
AreServed-more i a b missing index (seed ∷ seeds) h s =
    let here : (is_covered missing seed || has_key i b (seed_shard_key seed index)) ≡ true =
      elim (Bool-cases (is_covered missing seed)) [
        | inl c ↦ rw (c) refl
        | inr c ↦ rw (c) (h (seed_shard_key seed index) (sym (rw (c) refl) ∙ s.0))
      ] in
    (here, AreServed-more i a b missing (suc index) seeds h s.1)

numbered_text : (t : String) → str_eq (concat "seed-" t) "" ≡ false
numbered_text t = elim (Bool-cases (str_eq (concat "seed-" t) "")) [
  | inl e ↦
      let size : 5 + len t ≡ 0 =
        sym (len-append "seed-" t) ∙ ap len ((str_eq_iff (concat "seed-" t) "").0 e) in
      absurd (omega arith)
  | inr e ↦ e
]

seed_shard_key_text : (seed : String) (index : ℕ) → str_eq (seed_shard_key seed index) "" ≡ false
unfolding seed_shard_key
seed_shard_key_text seed index =
    elim (Bool-cases (contains (lower seed) "/en/" || contains (lower seed) "/e/")) [
      | inl a ↦ rw (a, seed_shard_key) refl
      | inr a ↦ elim (Bool-cases (contains (lower seed) "/fr/" || contains (lower seed) "/f/")) [
        | inl b ↦ rw (a, b, seed_shard_key) refl
        | inr b ↦ rw (a, b, seed_shard_key) (numbered_text (show index))
      ]
    ]

module _ (o : Outside) (code : String) (source_id year : ℕ) (e : AnnualEdition) where
  abbrev made : String → String → List ArchiveJob → ArchiveJob
  made key seed jobs = new_shard o code source_id year true e key seed jobs

  made-holds_key :
      (key seed : String) (jobs : List ArchiveJob) (other : String)
      → holds_key e.id other (made key seed jobs) ≡ (not (str_eq key "") && str_eq key other)
  unfolding new_shard
  made-holds_key key seed jobs other = ground arith

  made-has_key :
      (key seed : String) (jobs new : List ArchiveJob) (other : String)
      → has_key e.id (made key seed jobs ∷ new) other
        ≡ has_key e.id new other || (not (str_eq key "") && str_eq key other)
  made-has_key key seed jobs new other =
      has_key_cons e.id other (made key seed jobs) new
      ∙ ap (λ b. has_key e.id new other || b) (made-holds_key key seed jobs other)

  abbrev pub run :
      List ArchiveJob → Option (List String) → ℕ → List String → List ArchiveJob → List ArchiveJob
  run known missing index seeds jobs =
      (plan_seeds o code source_id year true e known missing index seeds jobs).0

  -- The loop appends new jobs, and then every seed that is not covered has one.
  pub record Made (known : List ArchiveJob) (missing : Option (List String)) (index : ℕ)
      (seeds : List String) (jobs after : List ArchiveJob) : Type 0 where
    pub new : List ArchiveJob
    pub appended : after ≡ jobs ++ new
    pub are_new : AreNew e.id known new
    pub served : AreServed e.id (known ++ new) missing index seeds

  skipped :
      (known : List ArchiveJob) (missing : Option (List String)) (index : ℕ) (seed : String)
      (seeds : List String) (jobs after : List ArchiveJob)
      → (is_covered missing seed || has_key e.id known (seed_shard_key seed index)) ≡ true
      → Made known missing (suc index) seeds jobs after
      → Made known missing index (seed ∷ seeds) jobs after
  skipped known missing index seed seeds jobs after h m =
      let key : String = seed_shard_key seed index in
      let more = has_key-append e.id key known m.new in
      record {
        new = m.new;
        appended = m.appended;
        are_new = m.are_new;
        served = (ground arith, m.served);
      }

  -- A key that the edition had is not that of a shard made for a key that it had not.
  made_apart :
      (known new : List ArchiveJob) (key seed : String) (jobs : List ArchiveJob) (k : String)
      → has_key e.id known key ≡ false
      → has_key e.id known k ≡ true
      → has_key e.id new k ≡ false
      → has_key e.id (made key seed jobs ∷ new) k ≡ false
  made_apart known new key seed jobs k h t n = elim (Bool-cases (str_eq key k)) [
    | inl s ↦
        let impossible : false ≡ true =
          sym h ∙ ap (has_key e.id known) ((str_eq_iff key k).0 s) ∙ t in
        absurd (ground arith)
    | inr s ↦ made-has_key key seed jobs new k ∙ rw (n, s) ground arith
  ]

  added :
      (known : List ArchiveJob) (missing : Option (List String)) (index : ℕ) (seed : String)
      (seeds : List String) (jobs after : List ArchiveJob)
      → has_key e.id known (seed_shard_key seed index) ≡ false
      → Made known missing
          (suc index)
          seeds
          (jobs ++ (made (seed_shard_key seed index) seed jobs ∷ []))
          after
      → Made known missing index (seed ∷ seeds) jobs after
  added known missing index seed seeds jobs after h m =
      let key : String = seed_shard_key seed index in
      let j = made key seed jobs in
      let other_key : (k : String)
          → has_key e.id known k ≡ true
          → has_key e.id (j ∷ m.new) k ≡ false =
        λ k t. made_apart known m.new key seed jobs k h t (m.are_new k t) in
      let here : (is_covered missing seed || has_key e.id (known ++ (j ∷ m.new)) key) ≡ true =
        let c = has_key-append e.id key known (j ∷ m.new) in
        let b = made-has_key key seed jobs m.new key in
        let n = seed_shard_key_text seed index in let r = str_eq_refl key in ground arith in
      record {
        new = j ∷ m.new;
        appended = m.appended ∙ append_assoc jobs (j ∷ []) m.new;
        are_new = other_key;
        served = (
          here,
          AreServed-more e.id (known ++ m.new) (known ++ (j ∷ m.new)) missing (suc index) seeds
              (λ k t.
                let c = has_key-append e.id k known (j ∷ m.new) in
                let d = has_key-append e.id k known m.new in
                let b = made-has_key key seed jobs m.new k in ground arith)
              m.served,
        );
      }

  pub plan_seeds-Made :
      (known : List ArchiveJob) (missing : Option (List String)) (index : ℕ) (seeds : List String)
      (jobs : List ArchiveJob)
      → Made known missing index seeds jobs (run known missing index seeds jobs)
  unfolding plan_seeds
  plan_seeds-Made known missing index [] jobs = record {
    new = [];
    appended = sym (append-nil jobs);
    are_new = λ k t. has_key_nil e.id k;
    served = tt;
  }
  plan_seeds-Made known missing index (seed ∷ seeds) jobs =
      let key : String = seed_shard_key seed index in
      let ih = plan_seeds-Made known missing (suc index) seeds in
      elim (Bool-cases (is_covered missing seed)) [
        | inl c ↦ skipped known missing index seed seeds jobs _ (rw (c) refl) (
            subst (Made known missing (suc index) seeds jobs) (rw (c, plan_seeds, run) refl)
              (ih jobs))
        | inr c ↦ elim (Option-cases (existing_job e.id key known)) [
          | inr (j, n) ↦ skipped known missing index seed seeds jobs _ (rw (c, n) refl) (
              subst (Made known missing (suc index) seeds jobs) (rw (c, n, plan_seeds, run) refl)
                (ih jobs))
          | inl n ↦
              let more = jobs ++ (made key seed jobs ∷ []) in
              added known missing index seed seeds jobs _ (rw (n) refl) (
                subst (Made known missing (suc index) seeds more) (rw (c, n, plan_seeds, run) refl)
                  (ih more))
        ]
      ]
