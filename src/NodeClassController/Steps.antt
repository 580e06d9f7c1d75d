-- ===== src/NodeClassController/Steps.antt =====
-- pkg/controllers/nodeclass/controller.go: the steps that resolve a NodeClass into its status, and
-- its conditions.
use karpenter_provider_exosc.NodeClass.{Condition, is_true, is_false, ExoscaleNodeClassStatus}
use karpenter_provider_exosc.NodeClassController.Selectors.{StepError, nil_dereference}
use karpenter_provider_exosc.Prelude.{
  ◌≡◌, ◌≢◌, Bool, true, false, ◌&&◌, Option, none, some, String, List, [], ◌∷◌, Map, lookup, Result,
  ok, err, if◌then◌else◌,
}

-- The library github.com/awslabs/operatorpkg/status. `set` replaces the condition of a type. Setting
-- any other condition may also set the root condition `Ready`; the rest stays.
pub record ConditionSet : Type 0 where
  pub set : String → Condition → Map Condition → Map Condition
  pub set_here : (k : String) (c : Condition) (m : Map Condition) → lookup k (set k c m) ≡ some c
  pub set_elsewhere :
      (j k : String) (c : Condition) (m : Map Condition)
      → j ≢ k
      → j ≢ "Ready"
      → lookup j (set k c m) ≡ lookup j m

abbrev pub condition_ready : String
condition_ready = "Ready"

abbrev pub condition_template_resolved : String
condition_template_resolved = "TemplateResolved"

abbrev pub condition_security_groups_resolved : String
condition_security_groups_resolved = "SecurityGroupsResolved"

abbrev pub condition_anti_affinity_groups_resolved : String
condition_anti_affinity_groups_resolved = "AntiAffinityGroupsResolved"

abbrev pub condition_private_networks_resolved : String
condition_private_networks_resolved = "PrivateNetworksResolved"

abbrev pub condition_elastic_ips_resolved : String
condition_elastic_ips_resolved = "ElasticIPsResolved"

abbrev pub condition_container_registry_resolved : String
condition_container_registry_resolved = "ContainerRegistrySecretsResolved"

-- What the six functions come to: an error, or the value that goes into the status.
pub record Outcomes : Type 0 where
  pub template : Result StepError String
  pub security_groups : Result StepError (List String)
  pub anti_affinity_groups : Result StepError (List String)
  pub elastic_ips : Result StepError (List String)
  pub private_networks : Result StepError (List String)
  pub configuration_hash : Result StepError String

-- A step with what its function does to the status.
pub record Step : Type 0 where
  pub outcome : Result StepError (ExoscaleNodeClassStatus → ExoscaleNodeClassStatus)
  pub reason : String
  pub condition : String

abbrev pub written :
    {A : Type 0}
    → (A → ExoscaleNodeClassStatus → ExoscaleNodeClassStatus)
    → Result StepError A
    → Result StepError (ExoscaleNodeClassStatus → ExoscaleNodeClassStatus)
written f (ok a) = ok (f a)
written f (err e) = err e

-- The assignments of the six functions.
abbrev pub set_image_id : String → ExoscaleNodeClassStatus → ExoscaleNodeClassStatus
set_image_id v st = record st { image_id = v }

abbrev pub set_security_groups : List String → ExoscaleNodeClassStatus → ExoscaleNodeClassStatus
set_security_groups v st = record st { security_groups = v }

abbrev pub set_anti_affinity_groups :
    List String → ExoscaleNodeClassStatus → ExoscaleNodeClassStatus
set_anti_affinity_groups v st = record st { anti_affinity_groups = v }

abbrev pub set_elastic_ips : List String → ExoscaleNodeClassStatus → ExoscaleNodeClassStatus
set_elastic_ips v st = record st { elastic_ips = v }

abbrev pub set_private_networks : List String → ExoscaleNodeClassStatus → ExoscaleNodeClassStatus
set_private_networks v st = record st { private_networks = v }

abbrev pub set_configuration_hash : String → ExoscaleNodeClassStatus → ExoscaleNodeClassStatus
set_configuration_hash v st = record st { configuration_hash = v }

unfoldable pub reconcile_steps : Outcomes → List Step
reconcile_steps o =
    record {
      outcome = written set_image_id o.template;
      reason = "TemplateResolutionFailed";
      condition = condition_template_resolved;
    }
    ∷ record {
      outcome = written set_security_groups o.security_groups;
      reason = "SecurityGroupResolutionFailed";
      condition = condition_security_groups_resolved;
    }
    ∷ record {
      outcome = written set_anti_affinity_groups o.anti_affinity_groups;
      reason = "AntiAffinityGroupResolutionFailed";
      condition = condition_anti_affinity_groups_resolved;
    }
    ∷ record {
      outcome = written set_elastic_ips o.elastic_ips;
      reason = "ElasticIPResolutionFailed";
      condition = condition_elastic_ips_resolved;
    }
    ∷ record {
      outcome = written set_private_networks o.private_networks;
      reason = "PrivateNetworkResolutionFailed";
      condition = condition_private_networks_resolved;
    }
    ∷ record {
      outcome = written set_configuration_hash o.configuration_hash;
      reason = "ConfigurationHashComputeFailed";
      condition = condition_container_registry_resolved;
    }
    ∷ []

abbrev pub is_status_true : Option Condition → Bool
is_status_true none = false
is_status_true (some c) = elim c.status [ is_true ↦ true | _ ↦ false ]

-- `IsTrue` of one condition
abbrev pub holds : String → Map Condition → Bool
holds k m = is_status_true (lookup k m)

abbrev pub and_then : {A B : Type 0} → Option A → (A → Option B) → Option B
and_then none f = none
and_then (some a) f = f a

abbrev pub is_panic : StepError → Bool
is_panic nil_dereference = true
is_panic _ = false

unfoldable pub all_hold : List Step → Map Condition → Bool
all_hold [] m = true
all_hold (s ∷ ss) m = holds s.condition m && all_hold ss m

-- `text` is the message of an error.
module _ (cs : ConditionSet) (text : StepError → String) where
  abbrev pub set_condition : String → Condition → ExoscaleNodeClassStatus → ExoscaleNodeClassStatus
  set_condition k c st = record st { conditions = cs.set k c st.conditions }

  -- `SetTrue` and `SetFalse`
  abbrev pub set_true : String → ExoscaleNodeClassStatus → ExoscaleNodeClassStatus
  set_true k = set_condition k (record { status = is_true; reason = k; message = "" })

  abbrev pub set_false :
      String → String → String → ExoscaleNodeClassStatus → ExoscaleNodeClassStatus
  set_false k reason message =
      set_condition k (record { status = is_false; reason = reason; message = message })

  -- One round of the loop, by the outcome of its function; a panic ends the reconciliation.
  unfoldable pub run_step :
      Result StepError (ExoscaleNodeClassStatus → ExoscaleNodeClassStatus)
      → String
      → String
      → ExoscaleNodeClassStatus
      → Option ExoscaleNodeClassStatus
  run_step (ok f) reason k st = some (set_true k (f st))
  run_step (err e) reason k st =
      if is_panic e
      then none
      else some (
          set_false condition_ready "ReconcilingFailed" "Reconciling node class resources failed"
            (set_false k reason (text e) st))

  unfoldable pub run_steps : List Step → ExoscaleNodeClassStatus → Option ExoscaleNodeClassStatus
  unfolding run_step
  run_steps [] st = some st
  run_steps (s ∷ ss) st = and_then (run_step s.outcome s.reason s.condition st) (run_steps ss)

  abbrev pub finish : List Step → ExoscaleNodeClassStatus → ExoscaleNodeClassStatus
  finish ss st = if all_hold ss st.conditions then set_true condition_ready st else st

  -- The status from the first change of `Ready` to the last; `none` is a panic.
  unfoldable pub reconcile_resources :
      Outcomes → ExoscaleNodeClassStatus → Option ExoscaleNodeClassStatus
  unfolding run_steps all_hold reconcile_steps
  reconcile_resources o st =
      and_then
        (run_steps (reconcile_steps o)
          (set_false condition_ready "Reconciling" "Reconciling node class resources" st))
        (λ after. some (finish (reconcile_steps o) after))
