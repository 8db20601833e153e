-- ===== src/Contract/Job.antt =====
-- src/ha_backend/archive_contract.py: ArchiveJobConfig and its JSON form.
use healtharchive.Base.{ℕ, String, Option, none, some, List, [], or_else}
use healtharchive.Contract.Options
use healtharchive.Contract.Options.{ArchiveToolOptions, OptionsDict, JsonObject, no_options}
use healtharchive.Contract.Policy
use healtharchive.Contract.Policy.{ExecutionPolicy, PolicyDict, no_policy}

-- The JSON stored on ArchiveJob.config. Beside the four keys of `ArchiveJobConfig` the program
-- itself writes and reads `campaign_kind` and `campaign_year`; `other` holds the keys that are left.
pub record ConfigDict : Type 0 where
  pub seeds : Option (List String)
  pub zimit_passthrough_args : Option (List String)
  pub tool_options : Option OptionsDict
  pub execution_policy : Option PolicyDict
  pub campaign_kind : Option String
  pub campaign_year : Option ℕ
  pub other : JsonObject

-- `{}`
abbrev pub no_config : ConfigDict
no_config = record {
  seeds = none;
  zimit_passthrough_args = none;
  tool_options = none;
  execution_policy = none;
  campaign_kind = none;
  campaign_year = none;
  other = [];
}

pub record ArchiveJobConfig : Type 0 where
  pub seeds : List String
  pub zimit_passthrough_args : List String
  pub tool_options : ArchiveToolOptions
  pub execution_policy : ExecutionPolicy

unfoldable pub to_dict : ArchiveJobConfig → ConfigDict
to_dict c = record {
  seeds = some c.seeds;
  zimit_passthrough_args = some c.zimit_passthrough_args;
  tool_options = some (Options.to_dict c.tool_options);
  execution_policy = some (Policy.to_dict c.execution_policy);
  campaign_kind = none;
  campaign_year = none;
  other = [];
}

unfoldable pub from_dict : ConfigDict → ArchiveJobConfig
from_dict d = record {
  seeds = or_else d.seeds [];
  zimit_passthrough_args = or_else d.zimit_passthrough_args [];
  tool_options = Options.from_dict (or_else d.tool_options no_options);
  execution_policy = Policy.from_dict (or_else d.execution_policy no_policy);
}
