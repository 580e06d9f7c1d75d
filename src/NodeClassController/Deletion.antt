-- ===== src/NodeClassController/Deletion.antt =====
-- pkg/controllers/nodeclass/controller.go: the deletion of a NodeClass.
use karpenter_provider_exosc.Constants.{
  instance_label_managed_by, instance_label_cluster_id, instance_label_node_claim,
  managed_by_karpenter,
}
use karpenter_provider_exosc.Instance.{ExoInstance}
use karpenter_provider_exosc.Kube.{ApiError, NodeClaim, NodeClassRef}
use karpenter_provider_exosc.LabelFilter.{EncodeError, karpenter_filter}
use karpenter_provider_exosc.NodeClass.{ExoscaleNodeClass, ExoscaleNodeClassStatus}
use karpenter_provider_exosc.Prelude.{
  ℕ, suc, ◌*◌, Bool, true, false, not, ◌&&◌, Option, none, some, String, List, [], ◌∷◌, ◌++◌, map,
  Map, lookup, keep, contains, Time, second, eqb, Result, ok, err, if◌then◌else◌, ◌==◌,
}

abbrev pub finalizer : String
finalizer = "exoscale.com/nodeclass-finalizer"

abbrev pub ref_names : Option NodeClassRef → String → Bool
ref_names none name = false
ref_names (some ref) name =
    ref.group == "karpenter.exoscale.com" && ref.kind == "ExoscaleNodeClass" && ref.name == name

unfoldable pub is_node_claim_using_node_class : NodeClaim → String → Bool
is_node_claim_using_node_class nc name = ref_names nc.node_class_ref name

abbrev pub is_none : Option Time → Bool
is_none none = true
is_none (some t) = false

unfoldable pub count_active_node_claims : List NodeClaim → String → ℕ
count_active_node_claims [] name = 0
count_active_node_claims (nc ∷ ncs) name =
    let rest = count_active_node_claims ncs name in
    if is_node_claim_using_node_class nc name && is_none nc.deletion_timestamp
    then suc rest
    else rest

abbrev pub is_label : Option String → String → Bool
is_label none v = false
is_label (some w) v = w == v

abbrev pub orphaned : Option String → List String → Option String
orphaned none valid = none
orphaned (some name) valid = if contains valid name then none else some name

-- The NodeClaim that an orphaned instance names.
unfoldable pub orphaned_node_claim_name : String → Map String → List String → Option String
orphaned_node_claim_name cluster_id labels valid =
    if not (is_label (lookup instance_label_managed_by labels) managed_by_karpenter)
    then none
    else if not (is_label (lookup instance_label_cluster_id labels) cluster_id)
    then none
    else orphaned (lookup instance_label_node_claim labels) valid

-- A call that changes something; the status is that of the patch.
pub data Action : Type 0 where
  delete_instance : String → Action
  update_finalizers : List String → Action
  patch_status : ExoscaleNodeClassStatus → Action

abbrev pub is_some_name : Option String → Bool
is_some_name none = false
is_some_name (some n) = true

-- The loop over the instances; a deletion that fails is only logged.
unfoldable pub delete_orphans : String → List String → List ExoInstance → List Action
delete_orphans cluster_id valid [] = []
delete_orphans cluster_id valid (x ∷ xs) =
    let rest = delete_orphans cluster_id valid xs in
    if is_some_name (orphaned_node_claim_name cluster_id x.labels valid)
    then delete_instance x.id ∷ rest
    else rest

pub data CleanupError : Type 0 where
  cluster_id_missing filter_failed list_instances_failed list_node_claims_failed : CleanupError

-- What the API servers answer while a NodeClass is deleted: the NodeClaims when they are counted and
-- when they are listed again, the instances by the filter, and the update of the finalizers.
pub record DeletionAnswers : Type 0 where
  pub counted : Result ApiError (List NodeClaim)
  pub instances : String → Result ApiError (List ExoInstance)
  pub listed : Result ApiError (List NodeClaim)
  pub updated : Result ApiError (Unit {0})

abbrev with_claims :
    String
    → List ExoInstance
    → Result ApiError (List NodeClaim)
    → List Action × Result CleanupError (Unit {0})
with_claims cluster_id xs (err e) = ([], err list_node_claims_failed)
with_claims cluster_id xs (ok ncs) = (delete_orphans cluster_id (map (λ nc. nc.name) ncs) xs, ok tt)

abbrev with_instances :
    String
    → Result ApiError (List ExoInstance)
    → Result ApiError (List NodeClaim)
    → List Action × Result CleanupError (Unit {0})
with_instances cluster_id (err e) listed = ([], err list_instances_failed)
with_instances cluster_id (ok xs) listed = with_claims cluster_id xs listed

abbrev with_filter :
    String
    → DeletionAnswers
    → Result EncodeError String
    → List Action × Result CleanupError (Unit {0})
with_filter cluster_id a (err e) = ([], err filter_failed)
with_filter cluster_id a (ok filter) = with_instances cluster_id (a.instances filter) a.listed

unfoldable pub cleanup_orphaned_instances :
    String → DeletionAnswers → List Action × Result CleanupError (Unit {0})
cleanup_orphaned_instances cluster_id a =
    if cluster_id == ""
    then ([], err cluster_id_missing)
    else with_filter cluster_id a (karpenter_filter cluster_id)

pub data ReconcileError : Type 0 where
  api_failed patch_failed : ApiError → ReconcileError

-- `reconcile.Result` with the error; zero asks for no requeue.
pub record Reconciled : Type 0 where
  pub requeue_after : ℕ
  pub error : Option ReconcileError

abbrev pub requeue : ℕ → Reconciled
requeue t = record { requeue_after = t; error = none }

abbrev pub fails : ReconcileError → Reconciled
fails e = record { requeue_after = 0; error = some e }

abbrev pub after_update : Result ApiError (Unit {0}) → ℕ → Reconciled
after_update (ok u) t = requeue t
after_update (err e) t = fails (api_failed e)

abbrev pub counted_deletion :
    String
    → ExoscaleNodeClass
    → DeletionAnswers
    → Result ApiError (List NodeClaim)
    → List Action × Reconciled
counted_deletion cluster_id nc a (err e) = ([], fails (api_failed e))
counted_deletion cluster_id nc a (ok claims) =
    if eqb (count_active_node_claims claims nc.name) 0
    then (
      (cleanup_orphaned_instances cluster_id a).0
          ++ update_finalizers (keep (λ s. not (s == finalizer)) nc.finalizers) ∷ [],
      after_update a.updated 0,
    )
    else ([], requeue (30 * second))

-- `handleDeletion`, without the events that it records
unfoldable pub handle_deletion :
    String → ExoscaleNodeClass → DeletionAnswers → List Action × Reconciled
handle_deletion cluster_id nc a =
    if not (contains nc.finalizers finalizer)
    then ([], requeue 0)
    else counted_deletion cluster_id nc a a.counted
