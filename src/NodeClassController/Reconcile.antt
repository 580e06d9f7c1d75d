-- ===== src/NodeClassController/Reconcile.antt =====
-- pkg/controllers/nodeclass/controller.go: one reconciliation, without the events that it records.
use karpenter_provider_exosc.Kube.{ApiError, not_found, conflict}
use karpenter_provider_exosc.NodeClass.{
  ExoscaleNodeClass, ExoscaleNodeClassStatus, ResourceReservation, SelectorTerms,
}
use karpenter_provider_exosc.NodeClassController.Deletion.{
  finalizer, Action, update_finalizers, patch_status, DeletionAnswers, handle_deletion, api_failed,
  patch_failed, Reconciled, requeue, fails, after_update, is_none,
}
use karpenter_provider_exosc.NodeClassController.Selectors.{
  StepError, template_unresolved, template_not_found, secrets_failed, resolve_all,
  resolve_elastic_ips,
}
use karpenter_provider_exosc.NodeClassController.Hash.{reconcile_configuration_hash}
use karpenter_provider_exosc.NodeClassController.Steps.{
  ConditionSet, Outcomes, set_false, reconcile_resources, condition_ready,
}
use karpenter_provider_exosc.Template.{TemplateError, resolve_template}
use karpenter_provider_exosc.Prelude.{
  ℕ, ◌*◌, Bool, true, false, not, ◌&&◌, Option, none, some, String, List, [], ◌∷◌, ◌++◌, Map,
  contains, second, minute, Result, ok, err, wrap, ◌>>=◌, ◌^^◌, if◌then◌else◌, ◌==◌,
}

-- `parses` tells whether `resource.ParseQuantity` succeeds.
module _ (parses : String → Bool) where
  abbrev valid_quantity : String → Bool
  valid_quantity value = if not (value == "") then parses value else true

  -- `validateResourceQuantities`; the order in which the three are tried only shows in the error.
  unfoldable pub validate_resource_quantities : ResourceReservation → Bool
  validate_resource_quantities r =
      valid_quantity r.cpu && valid_quantity r.memory && valid_quantity r.ephemeral_storage

  unfoldable pub validate_spec : ExoscaleNodeClass → Bool
  unfolding validate_resource_quantities
  validate_spec nc =
      if not (validate_resource_quantities nc.spec.kubelet.kube_reserved)
      then false
      else validate_resource_quantities nc.spec.kubelet.system_reserved

-- The answers of the Exoscale API about one kind of resource: by ID, and by the cached list.
pub record Lookups : Type 0 where
  pub by_id : String → Result ApiError String
  pub by_name : String → Result ApiError (Option String)

pub record Answers : Type 0 where
  pub active_template : String → String → Result TemplateError String
  pub server_version : Result TemplateError String
  pub get_template : String → Result ApiError (Unit {0})
  pub security_groups : Lookups
  pub anti_affinity_groups : Lookups
  pub elastic_ips : Lookups
  pub private_networks : Lookups
  pub secrets : String → Result ApiError (Map String)

-- `reconcileTemplate`, with the ID that it writes into the status
unfoldable pub reconcile_template : Answers → ExoscaleNodeClass → Result StepError String
reconcile_template a nc =
    wrap (λ _. template_unresolved) (resolve_template a.active_template a.server_version nc)
    >>= λ t. wrap (λ _. template_not_found) (a.get_template t.id) >>= λ _. ok t.id

abbrev resolve_resources :
    Lookups → List String → List SelectorTerms → Result StepError (List String)
resolve_resources l ids terms = resolve_all (λ id. id) l.by_id l.by_name ids terms

-- The functions for the four kinds of resource, with the IDs that they write into the status.
unfoldable pub reconcile_security_groups :
    Lookups → ExoscaleNodeClass → Result StepError (List String)
reconcile_security_groups l nc =
    resolve_resources l nc.spec.security_groups nc.spec.security_group_selector_terms

unfoldable pub reconcile_anti_affinity_groups :
    Lookups → ExoscaleNodeClass → Result StepError (List String)
reconcile_anti_affinity_groups l nc =
    resolve_resources l nc.spec.anti_affinity_groups nc.spec.anti_affinity_group_selector_terms

unfoldable pub reconcile_private_networks :
    Lookups → ExoscaleNodeClass → Result StepError (List String)
reconcile_private_networks l nc =
    resolve_resources l nc.spec.private_networks nc.spec.private_network_selector_terms

unfoldable pub reconcile_elastic_ips : Lookups → ExoscaleNodeClass → Result StepError (List String)
reconcile_elastic_ips l nc =
    resolve_elastic_ips (λ id. id) l.by_id l.by_name nc.spec.elastic_ip_selector_terms

-- The six functions of the steps, in their order.
unfoldable pub outcomes :
    (String → Option String) → (String → String) → Answers → ExoscaleNodeClass → Outcomes
unfolding reconcile_template reconcile_security_groups reconcile_anti_affinity_groups
    reconcile_private_networks reconcile_elastic_ips
outcomes pem sha a nc = record {
  template = reconcile_template a nc;
  security_groups = reconcile_security_groups a.security_groups nc;
  anti_affinity_groups = reconcile_anti_affinity_groups a.anti_affinity_groups nc;
  elastic_ips = reconcile_elastic_ips a.elastic_ips nc;
  private_networks = reconcile_private_networks a.private_networks nc;
  configuration_hash = wrap secrets_failed (reconcile_configuration_hash pem a.secrets sha nc);
}

-- After a patch of the status: a conflict asks to run again, without an error.
abbrev pub after_patch : Result ApiError (Unit {0}) → ℕ → Reconciled
after_patch (ok u) t = requeue t
after_patch (err conflict) t = requeue 0
after_patch (err e) t = record { requeue_after = 30 * second; error = some (patch_failed e) }

abbrev pub is_deleted : ExoscaleNodeClass → Bool
is_deleted nc = not (is_none nc.deletion_timestamp)

-- The parameters: the library of conditions, the texts of errors, `equality.Semantic.DeepEqual` of
-- two states of the status, the validation of quantities with its error, and the cluster's ID.
module _ (cs : ConditionSet) (text : StepError → String)
    (same_status : ExoscaleNodeClassStatus → ExoscaleNodeClassStatus → Bool)
    (parses : String → Bool) (why : ExoscaleNodeClass → String) (cluster_id : String) where
  abbrev pub patched :
      ExoscaleNodeClassStatus
      → Option ExoscaleNodeClassStatus
      → Result ApiError (Unit {0})
      → Option (List Action × Reconciled)
  patched stored none answer = none
  patched stored (some st) answer =
      if same_status stored st
      then some ([], requeue (5 * minute))
      else some (patch_status st ∷ [], after_patch answer (5 * minute))

  abbrev pub validated :
      Bool
      → Outcomes
      → ExoscaleNodeClass
      → Result ApiError (Unit {0})
      → Option (List Action × Reconciled)
  validated true o nc answer = patched nc.status (reconcile_resources cs text o nc.status) answer
  validated false o nc answer =
      let st =
        set_false cs text condition_ready "ValidationFailed" ("Validation failed: " ^^ why nc)
          nc.status in
      some (patch_status st ∷ [], after_patch answer (30 * second))

  abbrev pub live :
      Outcomes
      → ExoscaleNodeClass
      → Result ApiError (Unit {0})
      → Result ApiError (Unit {0})
      → Option (List Action × Reconciled)
  live o nc update patch =
      if not (contains nc.finalizers finalizer)
      then some
          (update_finalizers (nc.finalizers ++ finalizer ∷ []) ∷ [], after_update update minute)
      else validated (validate_spec parses nc) o nc patch

  abbrev pub found_class :
      Outcomes
      → ExoscaleNodeClass
      → DeletionAnswers
      → Result ApiError (Unit {0})
      → Option (List Action × Reconciled)
  found_class o nc a patch =
      if is_deleted nc then some (handle_deletion cluster_id nc a) else live o nc a.updated patch

  abbrev get_error : ApiError → Reconciled
  get_error not_found = requeue 0
  get_error e = fails (api_failed e)

  -- `Reconcile`, by the answer about the NodeClass, what its steps come to, and the answers to its
  -- calls; `none` is a panic.
  unfoldable pub reconcile :
      Result ApiError ExoscaleNodeClass
      → (ExoscaleNodeClass → Outcomes)
      → DeletionAnswers
      → Result ApiError (Unit {0})
      → Option (List Action × Reconciled)
  reconcile (err e) o a patch = some ([], get_error e)
  reconcile (ok nc) o a patch = found_class (o nc) nc a patch
