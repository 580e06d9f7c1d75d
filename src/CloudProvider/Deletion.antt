-- ===== src/CloudProvider/Deletion.antt =====
-- `Delete`, `Reboot` and `Get`.
use karpenter_provider_exosc.Kube
use karpenter_provider_exosc.Kube.{ApiError, not_found, NodeClaim}
use karpenter_provider_exosc.Instance.{Instance, to_node_claim}
use karpenter_provider_exosc.InstanceProvider.Listing.{
  ProviderError, api_not_found, CallAnswer, refused, no_operation, operation, delete, reboot,
}
use karpenter_provider_exosc.Lo.{Lo}
use karpenter_provider_exosc.ProviderId.{ParseError, parse_provider_id}
use karpenter_provider_exosc.CloudProvider.Drain.{Cluster, Action, delete_instance, drain_node}
use karpenter_provider_exosc.Prelude.{
  ◌≡◌, ◌⊎◌, Bool, true, false, Option, none, some, String, List, [], ◌∷◌, ◌++◌, map, Result, ok,
  err, wrap,
}

-- How a method of the interface fails: `node_claim_not_found` is the error by which Karpenter knows
-- that the instance is gone.
pub data MethodError : Type 0 where
  node_claim_not_found : MethodError
  drain_failed : ApiError → MethodError
  bad_id : ParseError → MethodError
  provider_failed : ProviderError → MethodError
  list_failed : MethodError

abbrev pub is_not_found : ProviderError → Bool
is_not_found api_not_found = true
is_not_found _ = false

abbrev pub delete_end : Result ProviderError (Unit {0}) → MethodError
delete_end (ok _) = node_claim_not_found
delete_end (err api_not_found) = node_claim_not_found
delete_end (err e) = provider_failed e

abbrev pub delete_by_id :
    (String → CallAnswer) → List Action → Result ParseError String → List Action × MethodError
delete_by_id api before (err e) = (before, bad_id e)
delete_by_id api before (ok id) = (before ++ delete_instance id ∷ [], delete_end (delete (api id)))

abbrev pub after_drain :
    (String → CallAnswer)
    → NodeClaim
    → Option (List Action × Result ApiError (Unit {0}))
    → Option (List Action × MethodError)
after_drain api claim none = none
after_drain api claim (some (before, err e)) = some (before, drain_failed e)
after_drain api claim (some (before, ok _)) =
    some (delete_by_id api before (parse_provider_id claim.provider_id))

-- `Delete`, which always ends with an error; `none` is out of fuel. `cluster` answers about the node
-- that the claim names, `api` the request to delete an instance.
unfoldable pub delete_claim :
    Cluster → (String → CallAnswer) → NodeClaim → Option (List Action × MethodError)
delete_claim cluster api claim = after_drain api claim (drain_node cluster)

abbrev method_error : ProviderError → MethodError
method_error api_not_found = node_claim_not_found
method_error e = provider_failed e

abbrev reboot_by_id :
    (String → CallAnswer) → Result ParseError String → Result MethodError (Unit {0})
reboot_by_id api (err e) = err (bad_id e)
reboot_by_id api (ok id) = wrap method_error (reboot (api id))

-- `Reboot`
unfoldable pub reboot_claim : (String → CallAnswer) → NodeClaim → Result MethodError (Unit {0})
reboot_claim api claim = reboot_by_id api (parse_provider_id claim.provider_id)

module _ (lo : Lo) where
  abbrev claim_of : Result ProviderError Instance → Result MethodError NodeClaim
  claim_of (ok i) = ok (to_node_claim lo i)
  claim_of (err e) = err (method_error e)

  abbrev get_by_id :
      (String → Result ProviderError Instance)
      → Result ParseError String
      → Result MethodError NodeClaim
  get_by_id get (err e) = err (bad_id e)
  get_by_id get (ok id) = claim_of (get id)

  -- `Get`
  unfoldable pub get_claim :
      (String → Result ProviderError Instance) → String → Result MethodError NodeClaim
  get_claim get provider_id = get_by_id get (parse_provider_id provider_id)

  abbrev claims_of : Result ProviderError (List Instance) → Result MethodError (List NodeClaim)
  claims_of (err e) = err list_failed
  claims_of (ok is) = ok (map (to_node_claim lo) is)

  -- `List`
  unfoldable pub list_claims :
      Result ProviderError (List Instance) → Result MethodError (List NodeClaim)
  list_claims answer = claims_of answer

-- What the API answers about an instance that is gone: that it does not know it, or that there is
-- nothing to wait for, or an operation that ended well.
abbrev pub IsGone : CallAnswer → Type 0
IsGone a = (a ≡ refused not_found) ⊎ (a ≡ no_operation) ⊎ (a ≡ operation true)
