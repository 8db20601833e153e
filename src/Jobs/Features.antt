-- ===== src/Jobs/Features.antt =====
-- src/ha_backend/jobs.py: validated options reach archive_tool.
use healtharchive.Base.{
  ◌≡◌, refl, sym, ap, ◌∙◌, inl, inr, String, Bool, true, false, ◌&&◌, ◌||◌, not, none, List, [],
  ◌∷◌, ◌++◌, str_eq, str_eq_iff, str_mem, arith, Bool-cases, if_true,
}
use healtharchive.Base.Text.{strip}
use healtharchive.Contract.Options.{ArchiveToolOptions, JsonObject, validate_tool_options}
use healtharchive.Contract.Policy.{ExecutionPolicy, text_of}
use healtharchive.Jobs.Command.{
  docker_args, config_args, monitoring_args, workers_args, vpn_args, restart_args,
  build_tool_extra_args,
}

str_mem-left : (x : String) (a b : List String) → str_mem x a ≡ true → str_mem x (a ++ b) ≡ true
str_mem-left x [] b h = absurd (ground arith)
str_mem-left x (y ∷ a) b h = elim (Bool-cases (str_eq x y)) [
  | inl e ↦ rw (e) refl
  | inr e ↦ rw (e) (str_mem-left x a b (sym (rw (e) refl) ∙ h))
]

str_mem-right : (x : String) (a b : List String) → str_mem x b ≡ true → str_mem x (a ++ b) ≡ true
str_mem-right x [] b h = h
str_mem-right x (y ∷ a) b h = rw (str_mem-right x a b h) ground arith

strip_empty : str_eq (strip "") "" ≡ true
unfolding strip
strip_empty = refl

strip_text : (s : String) → str_eq (strip s) "" ≡ false → str_eq s "" ≡ false
strip_text s h = elim (Bool-cases (str_eq s "")) [
  | inl e ↦
      let impossible : true ≡ false =
        sym strip_empty ∙ ap (λ t. str_eq (strip t) "") (sym ((str_eq_iff s "").0 e)) ∙ h in
      absurd (ground arith)
  | inr e ↦ e
]

module _ (o : ArchiveToolOptions) (ok : validate_tool_options o ≡ none) where
  workers_ok : (o.enable_adaptive_workers && not o.enable_monitoring) ≡ false
  unfolding validate_tool_options
  workers_ok = ground arith

  restart_ok : (o.enable_adaptive_restart && not o.enable_monitoring) ≡ false
  unfolding validate_tool_options
  restart_ok = ground arith

  vpn_ok : (o.enable_vpn_rotation && not o.enable_monitoring) ≡ false
  unfolding validate_tool_options
  vpn_ok = ground arith

  command_ok : (o.enable_vpn_rotation && str_eq (strip (text_of o.vpn_connect_command)) "") ≡ false
  unfolding validate_tool_options
  command_ok = ground arith

  monitoring_emitted :
      o.enable_monitoring ≡ true → str_mem "--enable-monitoring" (monitoring_args o) ≡ true
  unfolding monitoring_args
  monitoring_emitted m = ap (str_mem "--enable-monitoring") (if_true o.enable_monitoring _ _ m)

  workers_emitted :
      o.enable_adaptive_workers ≡ true → str_mem "--enable-adaptive-workers" (workers_args o) ≡ true
  unfolding workers_args
  workers_emitted w =
      let both : (o.enable_monitoring && o.enable_adaptive_workers) ≡ true =
        ground (arith, workers_ok) in
      ap (str_mem "--enable-adaptive-workers") (if_true _ _ _ both)

  restart_emitted :
      o.enable_adaptive_restart ≡ true → str_mem "--enable-adaptive-restart" (restart_args o) ≡ true
  unfolding restart_args
  restart_emitted w =
      let both : (o.enable_monitoring && o.enable_adaptive_restart) ≡ true =
        ground (arith, restart_ok) in
      ap (str_mem "--enable-adaptive-restart") (if_true _ _ _ both)

  vpn_emitted : o.enable_vpn_rotation ≡ true → str_mem "--enable-vpn-rotation" (vpn_args o) ≡ true
  unfolding vpn_args
  vpn_emitted v =
      let given : str_eq (strip (text_of o.vpn_connect_command)) "" ≡ false =
        ground (arith, command_ok) in
      let named = strip_text (text_of o.vpn_connect_command) given in
      let all : (o.enable_monitoring
            && (o.enable_vpn_rotation && not (str_eq (text_of o.vpn_connect_command) "")))
          ≡ true =
        ground (arith, vpn_ok) in
      ap (str_mem "--enable-vpn-rotation") (if_true _ _ _ all)

implied : (a b : Bool) → (a ≡ true → b ≡ true) → (not a || b) ≡ true
implied true b h = h refl
implied false b h = refl

-- The flag of each feature that is enabled in options which validation accepts is among the arguments
-- of archive_tool: monitoring, adaptive workers, VPN rotation and adaptive restart.
pub build_tool_extra_args-features :
    (dumps : JsonObject → String) (o : ArchiveToolOptions) (p : ExecutionPolicy)
    → validate_tool_options o ≡ none
    → ((not o.enable_monitoring || str_mem "--enable-monitoring" (build_tool_extra_args dumps o p))
        ≡ true)
      × ((not o.enable_adaptive_workers
            || str_mem "--enable-adaptive-workers" (build_tool_extra_args dumps o p))
          ≡ true)
      × ((not o.enable_vpn_rotation
            || str_mem "--enable-vpn-rotation" (build_tool_extra_args dumps o p))
          ≡ true)
      × ((not o.enable_adaptive_restart
            || str_mem "--enable-adaptive-restart" (build_tool_extra_args dumps o p))
          ≡ true)
unfolding build_tool_extra_args
build_tool_extra_args-features dumps o p ok =
    let a = docker_args o in
    let b = config_args dumps o.browsertrix_config in
    (
      implied _ _ (λ h.
          str_mem-right _ a _ (
            str_mem-right _ b _
              (str_mem-left _ (monitoring_args o) _ (monitoring_emitted o ok h)))),
      implied _ _ (λ h. str_mem-right _ a _ (
          str_mem-right _ b _ (
            str_mem-right _ (monitoring_args o) _
              (str_mem-left _ (workers_args o) _ (workers_emitted o ok h))))),
      implied _ _ (λ h. str_mem-right _ a _ (
          str_mem-right _ b _ (
            str_mem-right _ (monitoring_args o) _ (
              str_mem-right _ (workers_args o) _
                (str_mem-left _ (vpn_args o) _ (vpn_emitted o ok h)))))),
      implied _ _ (λ h. str_mem-right _ a _ (
          str_mem-right _ b _ (
            str_mem-right _ (monitoring_args o) _ (
              str_mem-right _ (workers_args o) _ (
                str_mem-right _ (vpn_args o) _
                  (str_mem-left _ (restart_args o) _ (restart_emitted o ok h))))))),
    )
