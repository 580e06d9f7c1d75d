-- ===== src/GarbageCollection/Defs.antt =====
-- The pass as the source writes it.
use karpenter_provider_exosc.Constants.{instance_label_node_claim}
use karpenter_provider_exosc.Kube.{NodeClaim}
use karpenter_provider_exosc.Instance.{Instance}
use karpenter_provider_exosc.ProviderId.{ParseError, parse_provider_id}
use karpenter_provider_exosc.Prelude.{
  ℕ, suc, ◌*◌, Bool, true, false, not, ◌&&◌, Option, none, some, String, List, [], ◌∷◌, ◌++◌, map,
  length, lookup, keep, contains, Time, is_zero, time_sub, ge_dur, lt_dur, minute, Result, ok, err,
  if◌then◌else◌, ◌==◌,
}

abbrev pub stuck_node_claim_timeout : ℕ
stuck_node_claim_timeout = 10 * minute

abbrev pub orphan_instance_grace_period : ℕ
orphan_instance_grace_period = 15 * minute

abbrev pub termination_finalizer_name : String
termination_finalizer_name = "karpenter.sh/termination"

-- What `InstanceProvider.Delete` answers.
pub data DeleteAnswer : Type 0 where
  done gone failed : DeleteAnswer

-- What the world answers in one pass. The clock is read once for each instance or NodeClaim, and
-- an answer may depend on how many came before.
pub record World : Type 0 where
  pub cloud_instances : Option (List Instance)
  pub node_claims : Option (List NodeClaim)
  pub clock : ℕ → Time
  pub delete : ℕ → String → DeleteAnswer

-- A call that changes something: the deletion of an instance, or the patch that sets the
-- finalizers of a NodeClaim.
pub data Action : Type 0 where
  delete_instance : String → Action
  patch_finalizers : NodeClaim → List String → Action

pub data GcError : Type 0 where
  list_instances_failed list_node_claims_failed delete_failed : GcError

unfoldable pub id_of : Result ParseError String → List String → List String
id_of (ok id) ids = id ∷ ids
id_of (err e) ids = ids

-- The keys of `nodeClaimProviderIDs`.
unfoldable pub node_claim_provider_ids : List NodeClaim → List String
unfolding id_of
node_claim_provider_ids [] = []
node_claim_provider_ids (nc ∷ ncs) =
    id_of (parse_provider_id nc.provider_id) (node_claim_provider_ids ncs)

-- The keys of `nodeClaimNames`.
abbrev pub node_claim_names : List NodeClaim → List String
node_claim_names = map (λ nc. nc.name)

-- `inst.Labels[key]`, the empty text where the key is missing.
abbrev label_or_empty : Option String → String
label_or_empty none = ""
label_or_empty (some v) = v

unfoldable pub has_matching_node_claim : Instance → List String → List String → Bool
has_matching_node_claim inst provider_ids names =
    if contains provider_ids inst.id
    then true
    else (let name = label_or_empty (lookup instance_label_node_claim inst.labels) in
        if not (name == "") && contains names name then true else false)

unfoldable pub is_orphan_instance_reapable : Time → Time → ℕ → Bool
is_orphan_instance_reapable created_at now grace_period =
    if is_zero created_at then false else ge_dur (time_sub now created_at) grace_period

-- The loop that deletes orphaned instances; the number counts the instances seen so far.
unfoldable pub sweep_instances :
    World → List String → List String → ℕ → List Instance → List Action × Option GcError
sweep_instances w provider_ids names n [] = ([], none)
sweep_instances w provider_ids names n (inst ∷ insts) =
    let rest = sweep_instances w provider_ids names (suc n) insts in
    if has_matching_node_claim inst provider_ids names
    then rest
    else if not
        (is_orphan_instance_reapable inst.created_at (w.clock n) orphan_instance_grace_period)
    then rest
    else (elim (w.delete n inst.id) [
      | done ↦ (delete_instance inst.id ∷ rest.0, rest.1)
      | gone ↦ (delete_instance inst.id ∷ rest.0, rest.1)
      | failed ↦ (delete_instance inst.id ∷ [], some delete_failed)
    ])

abbrev pub deletion_time : Option Time → Time
deletion_time none = 0
deletion_time (some t) = t

abbrev pub has_termination_finalizer : NodeClaim → Bool
has_termination_finalizer nc = contains nc.finalizers termination_finalizer_name

-- The finalizers that `removeTerminationFinalizer` leaves.
abbrev pub without_termination : List String → List String
without_termination = keep (λ f. not (f == termination_finalizer_name))

unfoldable pub stuck_id : List String → ℕ → Time → Result ParseError String → Bool
stuck_id cloud_ids now deleted (err e) = false
stuck_id cloud_ids now deleted (ok id) =
    if contains cloud_ids id
    then false
    else if lt_dur (time_sub now deleted) stuck_node_claim_timeout
    then false
    else true

-- The guards of the second loop.
unfoldable pub is_stuck : List String → Time → NodeClaim → Bool
unfolding stuck_id
is_stuck cloud_ids now nc =
    if is_zero (deletion_time nc.deletion_timestamp)
    then false
    else if not (has_termination_finalizer nc)
    then false
    else stuck_id cloud_ids now (deletion_time nc.deletion_timestamp)
        (parse_provider_id nc.provider_id)

-- The loop over stuck NodeClaims. A patch that fails is logged and the loop goes on.
unfoldable pub sweep_stuck : World → List String → ℕ → List NodeClaim → List Action
sweep_stuck w cloud_ids n [] = []
sweep_stuck w cloud_ids n (nc ∷ ncs) =
    let rest = sweep_stuck w cloud_ids (suc n) ncs in
    if is_stuck cloud_ids (w.clock n) nc
    then patch_finalizers nc (without_termination nc.finalizers) ∷ rest
    else rest

abbrev pub instance_ids : List Instance → List String
instance_ids = map (λ i. i.id)

unfoldable pub finish :
    World
    → List Instance
    → List NodeClaim
    → List Action × Option GcError
    → List Action × Result GcError (Unit {0})
finish w insts ncs (actions, some e) = (actions, err e)
finish w insts ncs (actions, none) =
    (actions ++ sweep_stuck w (instance_ids insts) (length insts) ncs, ok tt)

unfoldable pub reconcile_with :
    World
    → Option (List Instance)
    → Option (List NodeClaim)
    → List Action × Result GcError (Unit {0})
unfolding finish
reconcile_with w none ncs = ([], err list_instances_failed)
reconcile_with w (some insts) none = ([], err list_node_claims_failed)
reconcile_with w (some insts) (some ncs) =
    finish w insts ncs
      (sweep_instances w (node_claim_provider_ids ncs) (node_claim_names ncs) 0 insts)

-- `Controller.Reconcile`
unfoldable pub reconcile : World → List Action × Result GcError (Unit {0})
unfolding reconcile_with
reconcile w = reconcile_with w w.cloud_instances w.node_claims
