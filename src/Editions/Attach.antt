-- ===== src/Editions/Attach.antt =====
-- src/ha_backend/annual_editions.py: get_or_create_annual_edition, attach_job_to_edition and
-- salvage_existing_annual_jobs.
use healtharchive.Base.{
  ℕ, String, Bool, true, false, ◌&&◌, ◌||◌, not, Option, none, some, ◌==◌, opt_is, str_eq, is_none,
  if◌then◌else◌,
}
use healtharchive.Editions.{
  YearValue, number, text, ShardConfig, ArchiveJob, AnnualEdition, is_text, or_text,
}

-- `cfg.get("campaign_year") == edition.year`: a text is equal to no number.
abbrev pub year_is : Option YearValue → ℕ → Bool
year_is none y = false
year_is (some (number n)) y = n == y
year_is (some (text s n)) y = false

-- cfg.setdefault(key, value)
abbrev pub setdefault {ℓ} : {A : Type ℓ} → Option A → A → Option A
setdefault none a = some a
setdefault (some b) a = some b

abbrev pub is_edition : Option ℕ → ℕ → Bool
is_edition none i = false
is_edition (some e) i = e == i

-- Each step gives the job on and says whether it changed it.
unfoldable pub attach_edition : AnnualEdition → ArchiveJob → ArchiveJob × Bool
attach_edition e j =
    if is_edition j.edition_id e.id then (j, false) else (record j { edition_id = some e.id }, true)

unfoldable pub attach_key : Option String → ArchiveJob → ArchiveJob × Bool
attach_key none j = (j, false)
attach_key (some key) j =
    if not (str_eq key "") && not (opt_is j.shard_key key)
    then (record j { shard_key = some key }, true)
    else (j, false)

unfoldable pub attach_kind : String → ArchiveJob → ArchiveJob × Bool
attach_kind kind j =
    if opt_is j.shard_kind kind then (j, false) else (record j { shard_kind = some kind }, true)

unfoldable pub attach_acceptance : ArchiveJob → ArchiveJob × Bool
attach_acceptance j =
    if is_text j.acceptance_state
    then (j, false)
    else (record j { acceptance_state = some "pending" }, true)

unfoldable pub is_campaign_of : AnnualEdition → ShardConfig → Bool
is_campaign_of e cfg = opt_is cfg.campaign_kind "annual" && year_is cfg.campaign_year e.year

-- A key is added where it is missing, so the dictionary differs exactly where one was.
unfoldable pub attach_config :
    AnnualEdition → Option String → String → ArchiveJob → ArchiveJob × Bool
attach_config e key kind j =
    let cfg = j.config in
    let filled : ShardConfig = record cfg {
      edition_id = setdefault cfg.edition_id e.id;
      campaign_shard_key = setdefault cfg.campaign_shard_key (or_text j.shard_key key);
      campaign_shard_kind = setdefault cfg.campaign_shard_kind (or_text j.shard_kind (some kind));
    } in
    let differs : Bool =
      is_none cfg.edition_id
      || (is_none cfg.campaign_shard_key || is_none cfg.campaign_shard_kind) in
    if is_campaign_of e cfg && differs then (record j { config = filled }, true) else (j, false)

-- One step after another.
abbrev pub then_step : (ArchiveJob → ArchiveJob × Bool) → ArchiveJob × Bool → ArchiveJob × Bool
then_step f r = let (j, changed) = f r.0 in (j, r.1 || changed)

unfoldable pub attach_job_to_edition :
    ArchiveJob → AnnualEdition → Option String → String → ArchiveJob × Bool
attach_job_to_edition j e key kind = then_step (attach_config e key kind) (
    then_step attach_acceptance
      (then_step (attach_kind kind) (then_step (attach_key key) (attach_edition e j))))
