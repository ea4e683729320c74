-- ===== src/Tests/Policies.antt =====
-- Requests that the policy engine answers.
use labos.Prelude.{◌≡◌, ◌⊎◌, ◌↔◌, refl, true, List, [], ◌∷◌, ok, All}
use labos.Policy.HostMounts.Trees.{IsMountable, validate_host_mounts-IsMountable}
use labos.Policy.Models.{validate, RequesterType}
use labos.Policy.PosixPaths.{parse}
use labos.Policy.Values.{Item, Overrides, scalar, list, text, lookup}
use labos.Policy.Profiles.{default_profiles, red_zone}
use labos.Policy.WellFormed.{WellFormed, validate_iff, IsBuiltIn, default_profiles-IsBuiltIn}
use labos.Policy.HostMounts.{validate_host_mounts, check_entry, before_colon}
use labos.Policy.Engine.{get_profile, enforce_all, enforce_profile_locked_field, check_secrets}
use labos.Policy.Engine.{RequestDecision, decide_request, validate_request, approval_reasons}
use labos.Policy.Engine.Requests.{Granted, validate_request-Granted}

abbrev overrides : Overrides
overrides = ("network_mode", scalar (text "deny")) ∷ ("secrets", list []) ∷ []

abbrev granted : RequestDecision
granted = decide_request red_zone [] (approval_reasons red_zone RequesterType.agent)

agent_granted : validate_request default_profiles "red-zone" overrides "agent" ≡ ok granted
unfolding validate_request get_profile lookup validate_host_mounts enforce_all
    enforce_profile_locked_field check_secrets
agent_granted = refl

validate_request-Granted_example : Granted default_profiles "red-zone" overrides "agent" granted
validate_request-Granted_example =
    validate_request-Granted default_profiles "red-zone" overrides "agent" granted agent_granted

validate_iff_example : (validate red_zone ≡ ok red_zone) ↔ WellFormed red_zone
validate_iff_example = validate_iff red_zone

default_profiles-IsBuiltIn_example : IsBuiltIn "red-zone" red_zone
unfolding lookup
default_profiles-IsBuiltIn_example = default_profiles-IsBuiltIn "red-zone" red_zone refl

abbrev mounts : List Item
mounts = text "/srv/data:/data" ∷ []

mounts_pass : validate_host_mounts (list mounts) true ≡ ok tt
unfolding validate_host_mounts check_entry before_colon parse
mounts_pass = refl

validate_host_mounts-IsMountable_example : All IsMountable mounts × ((true ≡ true) ⊎ (mounts ≡ []))
validate_host_mounts-IsMountable_example = validate_host_mounts-IsMountable mounts true mounts_pass
