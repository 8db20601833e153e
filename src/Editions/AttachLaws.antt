-- ===== src/Editions/AttachLaws.antt =====
-- src/ha_backend/annual_editions.py: attaching a job a second time.
use healtharchive.Base.{
  ℕ, ◌≡◌, refl, sym, ap, ◌∙◌, inl, inr, String, Bool, true, false, ◌&&◌, ◌||◌, not, Option, none,
  some, arith, opt_is, str_eq, is_none, Bool-cases, str_eq_refl,
}
use healtharchive.Editions.{ShardConfig, ArchiveJob, AnnualEdition, is_text}
use healtharchive.Editions.Attach.{
  attach_edition, attach_key, attach_kind, attach_acceptance, attach_config, is_campaign_of,
  attach_job_to_edition, setdefault, is_edition,
}

-- What a job has that a call would leave alone.
abbrev HasEdition : AnnualEdition → ArchiveJob → Type 0
HasEdition e j = is_edition j.edition_id e.id ≡ true

abbrev key_due : Option String → Option String → Bool
key_due none now = false
key_due (some key) now = not (str_eq key "") && not (opt_is now key)

is_edition_refl : (i : ℕ) → is_edition (some i) i ≡ true
is_edition_refl i = ground arith

attach_edition-HasEdition :
    (e : AnnualEdition) (j : ArchiveJob) → HasEdition e (attach_edition e j).0
unfolding attach_edition
attach_edition-HasEdition e j = elim (Bool-cases (is_edition j.edition_id e.id)) [
  | inl h ↦ rw (h) h
  | inr h ↦ rw (h) (is_edition_refl e.id)
]

attach_key_done :
    (key : Option String) (j : ArchiveJob) → key_due key (attach_key key j).0.shard_key ≡ false
unfolding attach_key
attach_key_done none j = refl
attach_key_done (some key) j =
    elim (Bool-cases (not (str_eq key "") && not (opt_is j.shard_key key))) [
      | inl h ↦ rw (h, str_eq_refl key) ground arith
      | inr h ↦ rw (h) h
    ]

attach_kind_done :
    (kind : String) (j : ArchiveJob) → opt_is (attach_kind kind j).0.shard_kind kind ≡ true
unfolding attach_kind
attach_kind_done kind j = elim (Bool-cases (opt_is j.shard_kind kind)) [
  | inl h ↦ rw (h) h
  | inr h ↦ rw (h) (str_eq_refl kind)
]

attach_acceptance_done : (j : ArchiveJob) → is_text (attach_acceptance j).0.acceptance_state ≡ true
unfolding attach_acceptance
attach_acceptance_done j = elim (Bool-cases (is_text j.acceptance_state)) [
  | inl h ↦ rw (h) h
  | inr h ↦ rw (h) refl
]

-- The configuration has an edition, a key and a kind, or is not that of the campaign.
abbrev is_due : AnnualEdition → ShardConfig → Bool
is_due e cfg =
    is_campaign_of e cfg
    && (is_none cfg.edition_id
        || (is_none cfg.campaign_shard_key || is_none cfg.campaign_shard_kind))

setdefault-is_none {ℓ} : {A : Type ℓ} (o : Option A) (a : A) → is_none (setdefault o a) ≡ false
setdefault-is_none none a = refl
setdefault-is_none (some b) a = refl

attach_config_done :
    (e : AnnualEdition) (key : Option String) (kind : String) (j : ArchiveJob)
    → is_due e (attach_config e key kind j).0.config ≡ false
unfolding attach_config
attach_config_done e key kind j = elim (Bool-cases (is_due e j.config)) [
  | inl h ↦
      rw
        (
          h,
          setdefault-is_none j.config.edition_id,
          setdefault-is_none j.config.campaign_shard_key,
          setdefault-is_none j.config.campaign_shard_kind,
        )
        ground arith
  | inr h ↦ rw (h) h
]

-- A later step keeps what an earlier one looks at.
attach_key_keeps :
    (key : Option String) (j : ArchiveJob)
    → (attach_key key j).0 ≡ record j { shard_key = (attach_key key j).0.shard_key }
unfolding attach_key
attach_key_keeps none j = refl
attach_key_keeps (some key) j = ground arith

attach_kind_keeps :
    (kind : String) (j : ArchiveJob)
    → (attach_kind kind j).0 ≡ record j { shard_kind = (attach_kind kind j).0.shard_kind }
unfolding attach_kind
attach_kind_keeps kind j = ground arith

attach_acceptance_keeps :
    (j : ArchiveJob)
    → (attach_acceptance j).0
      ≡ record j { acceptance_state = (attach_acceptance j).0.acceptance_state }
unfolding attach_acceptance
attach_acceptance_keeps j = ground arith

attach_config_keeps :
    (e : AnnualEdition) (key : Option String) (kind : String) (j : ArchiveJob)
    → (attach_config e key kind j).0 ≡ record j { config = (attach_config e key kind j).0.config }
unfolding attach_config
attach_config_keeps e key kind j = ground arith

attach_key_idle :
    (key : Option String) (j : ArchiveJob)
    → key_due key j.shard_key ≡ false
    → attach_key key j ≡ (j, false)
unfolding attach_key
attach_key_idle none j h = refl
attach_key_idle (some key) j h = rw (h) refl

-- A call with nothing to do changes nothing.
attach_idle :
    (e : AnnualEdition) (key : Option String) (kind : String) (j : ArchiveJob)
    → is_edition j.edition_id e.id ≡ true
    → key_due key j.shard_key ≡ false
    → opt_is j.shard_kind kind ≡ true
    → is_text j.acceptance_state ≡ true
    → is_due e j.config ≡ false
    → attach_job_to_edition j e key kind ≡ (j, false)
unfolding attach_job_to_edition attach_edition attach_kind attach_acceptance attach_config
attach_idle e key kind j h1 h2 h3 h4 h5 = rw (h1, attach_key_idle key j h2, h3, h4, h5) refl

module _ (e : AnnualEdition) (key : Option String) (kind : String) (j : ArchiveJob) where
  abbrev with_edition : ArchiveJob
  with_edition = (attach_edition e j).0

  abbrev with_key : ArchiveJob
  with_key = (attach_key key with_edition).0

  abbrev with_kind : ArchiveJob
  with_kind = (attach_kind kind with_key).0

  abbrev with_acceptance : ArchiveJob
  with_acceptance = (attach_acceptance with_kind).0

  abbrev attached : ArchiveJob
  attached = (attach_config e key kind with_acceptance).0

  attached-with_acceptance : attached ≡ record with_acceptance { config = attached.config }
  attached-with_acceptance = attach_config_keeps e key kind with_acceptance

  attached_edition : is_edition attached.edition_id e.id ≡ true
  attached_edition =
      ap (λ k. is_edition k.edition_id e.id) attached-with_acceptance
      ∙ ap (λ k. is_edition k.edition_id e.id) (attach_acceptance_keeps with_kind)
      ∙ ap (λ k. is_edition k.edition_id e.id) (attach_kind_keeps kind with_key)
      ∙ ap (λ k. is_edition k.edition_id e.id) (attach_key_keeps key with_edition)
      ∙ attach_edition-HasEdition e j

  attached_key : key_due key attached.shard_key ≡ false
  attached_key =
      ap (λ k. key_due key k.shard_key) attached-with_acceptance
      ∙ ap (λ k. key_due key k.shard_key) (attach_acceptance_keeps with_kind)
      ∙ ap (λ k. key_due key k.shard_key) (attach_kind_keeps kind with_key)
      ∙ attach_key_done key with_edition

  attached_kind : opt_is attached.shard_kind kind ≡ true
  attached_kind =
      ap (λ k. opt_is k.shard_kind kind) attached-with_acceptance
      ∙ ap (λ k. opt_is k.shard_kind kind) (attach_acceptance_keeps with_kind)
      ∙ attach_kind_done kind with_key

  attached_acceptance : is_text attached.acceptance_state ≡ true
  attached_acceptance =
      ap (λ k. is_text k.acceptance_state) attached-with_acceptance
      ∙ attach_acceptance_done with_kind

  -- A job that was attached to an edition is left as it is, and said to be unchanged, by the same call.
  pub attach_job_to_edition-again :
      attach_job_to_edition (attach_job_to_edition j e key kind).0 e key kind
      ≡ ((attach_job_to_edition j e key kind).0, false)
  attach_job_to_edition-again =
      let done : (attach_job_to_edition j e key kind).0 ≡ attached =
        unfold attach_job_to_edition in refl in
      ap (λ k. attach_job_to_edition k e key kind) done
      ∙ attach_idle e key kind attached attached_edition attached_key attached_kind
          attached_acceptance (attach_config_done e key kind with_acceptance)
      ∙ ap (λ k. (k, false)) (sym done)
