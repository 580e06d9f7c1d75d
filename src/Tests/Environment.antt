-- ===== src/Tests/Environment.antt =====
-- An environment with all variables.
use karpenter_provider_exosc.InstanceProvider.Environment.{
  EnvironmentOptions, environment, new_options_from_environment, get_required_env, Complete,
  new_options_from_environment_lem, IsRead,
}
use karpenter_provider_exosc.Prelude.{◌≡◌, ◌↔◌, refl, Bool, true, String, ok, if◌then◌else◌, ◌==◌}

abbrev env : String → String
env key =
    if key == "EXOSCALE_ZONE"
    then "ch-gva-2"
    else if key == "EXOSCALE_SKS_CLUSTER_ID"
    then "11111111-1111-1111-1111-111111111111"
    else if key == "EXOSCALE_API_KEY"
    then "key"
    else if key == "EXOSCALE_API_SECRET"
    then "secret"
    else ""

abbrev any_uuid : String → Bool
any_uuid id = true

abbrev read : EnvironmentOptions
read =
    environment env any_uuid "https://api" "ch-gva-2" "11111111-1111-1111-1111-111111111111" "key"
      "secret"

read_lem : new_options_from_environment env any_uuid "https://api" ≡ ok read
unfolding new_options_from_environment get_required_env
read_lem = refl

new_options_from_environment_lem_example :
    (((o : EnvironmentOptions) × (new_options_from_environment env any_uuid "https://api" ≡ ok o))
      ↔ Complete env any_uuid "https://api")
    × ((o : EnvironmentOptions)
        → new_options_from_environment env any_uuid "https://api" ≡ ok o
        → IsRead env any_uuid "https://api" o)
new_options_from_environment_lem_example =
    new_options_from_environment_lem env any_uuid "https://api"
