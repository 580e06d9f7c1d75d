-- ===== src/Tests/NodeClass.antt =====
-- The controller of NodeClasses at concrete inputs.
use mathlib.Core.List.Perm
use karpenter_provider_exosc.Kube.{NodeClaim, ApiError, not_found}
use karpenter_provider_exosc.NodeClass.{
  ExoscaleNodeClass, ExoscaleNodeClassStatus, Condition, SelectorTerms, SecretKeySelector,
  ContainerRegistryCredential,
}
use karpenter_provider_exosc.NodeClassController.Deletion.{
  Reconciled, finalizer, Action, DeletionAnswers, update_finalizers, handle_deletion, requeue,
}
use karpenter_provider_exosc.NodeClassController.Fingerprint.{
  with_options, Unconfigured, reconcile_configuration_hash-Perm,
  reconcile_configuration_hash-Unconfigured,
}
use karpenter_provider_exosc.NodeClassController.Ends.{Named, SelectsNamed, reconcile_ends}
use karpenter_provider_exosc.NodeClassController.Guards.{Alive, Dying, reconcile_guards}
use karpenter_provider_exosc.NodeClassController.Hash.{
  reconcile_configuration_hash, registry_entries,
}
use karpenter_provider_exosc.NodeClassController.Masking.{
  succeeded, Recomputes, reconcile_resources-Recomputes,
}
use karpenter_provider_exosc.NodeClassController.Panics.{Calm}
use karpenter_provider_exosc.NodeClassController.Reconcile.{Answers, Lookups, outcomes, reconcile}
use karpenter_provider_exosc.NodeClassController.Release.{
  without_finalizer, Idle, Explained, handle_deletion_lem,
}
use karpenter_provider_exosc.NodeClassController.Resolution.{ById, ByTerm, resolve_all_iff}
use karpenter_provider_exosc.NodeClassController.Selectors.{StepError, name_not_found, resolve_all}
use karpenter_provider_exosc.NodeClassController.Steps.{
  ConditionSet, Outcomes, reconcile_steps, reconcile_resources, holds, is_status_true,
  condition_container_registry_resolved,
}
use karpenter_provider_exosc.NodeClassController.Events.{
  SecretEvent, created, deleted, updated, secret_requests, IsGenerationChanged, KeepsGeneration,
  resolve-secret_requests,
}
use karpenter_provider_exosc.Prelude.{
  ◌≡◌, ◌≢◌, ◌↔◌, ◌⊎◌, refl, sym, ap, ◌∙◌, inl, inr, Bool, true, false, Option, none, some, String,
  List, [], ◌∷◌, ◌++◌, Map, lookup, insert, lookup-insert, In, Each, Result, ok, err, arith, eq_iff,
  eq_cases, if◌then◌else◌, ◌==◌, ◌^^◌, not, eqb,
}
use karpenter_provider_exosc.Samples.{node_claim, node_class, exo_instance}
use karpenter_provider_exosc.UserData.Registry.{resolve}

-- A library of conditions that sets `Ready` to true with each other condition.
abbrev conditions_set : String → Condition → Map Condition → Map Condition
conditions_set k c m =
    if k == "Ready" then insert k c m else insert "Ready" (succeeded "Ready") (insert k c m)

conditions_set_here :
    (k : String) (c : Condition) (m : Map Condition) → lookup k (conditions_set k c m) ≡ some c
conditions_set_here k c m = elim (eq_cases k "Ready") [
  | inl (e, same) ↦ rw e (lookup-insert k k c m ∙ self k c m)
  | inr (e, other) ↦ rw e (
      lookup-insert "Ready" k (succeeded "Ready") (insert k c m)
      ∙ ground (arith, eq_iff "Ready" k, lookup-insert k k c m, eq_iff k k))
]
  where
    self :
        (k : String) (c : Condition) (m : Map Condition)
        → (if k == k then some c else lookup k m) ≡ some c
    self k c m = ground (arith, eq_iff k k)

conditions_set_elsewhere :
    (j k : String) (c : Condition) (m : Map Condition)
    → j ≢ k
    → j ≢ "Ready"
    → lookup j (conditions_set k c m) ≡ lookup j m
conditions_set_elsewhere j k c m n r = elim (eq_cases k "Ready") [
  | inl (e, same) ↦ rw e (ground (arith, lookup-insert k j c m, eq_iff k j))
  | inr (e, other) ↦ rw e (
      ground (
        arith,
        lookup-insert "Ready" j (succeeded "Ready") (insert k c m),
        lookup-insert k j c m,
        eq_iff "Ready" j,
        eq_iff k j,
      ))
]

abbrev simple_conditions : ConditionSet
simple_conditions = record {
  set = conditions_set;
  set_here = conditions_set_here;
  set_elsewhere = conditions_set_elsewhere;
}

abbrev message : StepError → String
message e = "failed"

-- The security groups cannot be resolved, all else can.
abbrev half : Outcomes
half = record {
  template = ok "tpl";
  security_groups = err (name_not_found "web");
  anti_affinity_groups = ok [];
  elastic_ips = ok [];
  private_networks = ok [];
  configuration_hash = ok "h1";
}

half-Calm : Calm (reconcile_steps half)
unfolding reconcile_steps
half-Calm = (
  λ e. ground arith,
  (
    λ e. ground arith,
    (λ e. ground arith, (λ e. ground arith, (λ e. ground arith, (λ e. ground arith, tt)))),
  ),
)

simple_conditions-Recomputes : Recomputes simple_conditions message
simple_conditions-Recomputes k c m n fresh = elim (eq_cases k "Ready") [
  | inl (e, same) ↦ absurd (n same)
  | inr (e, other) ↦
      rw e (ap is_status_true (lookup-insert "Ready" "Ready" (succeeded "Ready") (insert k c m)))
]

hash_unset :
    lookup condition_container_registry_resolved node_class.status.conditions
    ≢ some (succeeded condition_container_registry_resolved)
hash_unset e = ground arith

reconcile_resources-Recomputes_example :
    (st : ExoscaleNodeClassStatus) × (reconcile_resources simple_conditions message half
        node_class.status
      ≡ some st)
    × (holds "Ready" st.conditions ≡ true)
reconcile_resources-Recomputes_example =
    reconcile_resources-Recomputes simple_conditions message half node_class.status
      simple_conditions-Recomputes half-Calm refl hash_unset

-- A NodeClass with a credential in the Secret `pull`.
abbrev pull_ref : SecretKeySelector
pull_ref = record { name = "pull"; key = "token" }

abbrev credential : ContainerRegistryCredential
credential = record {
  registry = "docker.io";
  basic = none;
  auth = some pull_ref;
  identity_token = none;
}

abbrev with_credential : ExoscaleNodeClass
with_credential = record node_class {
  spec = record node_class.spec {
    container_registry = some (record { mirrors = []; credentials = credential ∷ [] });
  };
}

abbrev pem : String → Option String
pem s = some s

abbrev no_secrets : String → Result ApiError (Map String)
no_secrets name = err not_found

abbrev pull_secret : String → Result ApiError (Map String)
pull_secret name = if name == "pull" then ok (("token", "t1") ∷ []) else err not_found

only_pull : (name : String) → name ≢ "pull" → no_secrets name ≡ pull_secret name
only_pull name n = ground (arith, eq_iff name "pull")

abbrev generation_changed : SecretEvent → Bool
generation_changed created = true
generation_changed deleted = true
generation_changed (updated old new) = not (eqb old new)

generation_changed_lem : IsGenerationChanged generation_changed
generation_changed_lem = record {
  on_created = refl;
  on_deleted = refl;
  on_updated = λ old new. ground arith;
}

abbrev enqueued : SecretEvent → String → String → List String
enqueued event namespace name =
    secret_requests generation_changed (ok (with_credential ∷ [])) event namespace name

resolve-secret_requests_example :
    (In "default" (enqueued created "kube-system" "pull")
      ⊎ (resolve pem no_secrets with_credential.spec.container_registry
          ≡ resolve pem pull_secret with_credential.spec.container_registry)
      ⊎ KeepsGeneration generation_changed generation_changed_lem created)
    × ((namespace name : String)
        → (namespace ≢ "kube-system")
          ⊎ KeepsGeneration generation_changed generation_changed_lem created
        → enqueued created namespace name ≡ [])
resolve-secret_requests_example =
    resolve-secret_requests generation_changed generation_changed_lem pem no_secrets pull_secret
      created "pull" (with_credential ∷ []) with_credential only_pull (inl refl)

-- A hash that is never empty.
abbrev sha : String → String
sha b = "h" ^^ b

abbrev starts : String → Bool
starts String.[] = false
starts (String.◌∷◌ c s) = true

sha_not_empty : (b : String) → sha b ≢ ""
sha_not_empty b e = let f = ap starts e in ground arith

abbrev two_options : List String
two_options = "full-pcpus-only=true" ∷ "distribute-cpus-across-numa=true" ∷ []

abbrev pinned : ExoscaleNodeClass
pinned = with_options two_options node_class

abbrev swapped : List String
swapped = "distribute-cpus-across-numa=true" ∷ "full-pcpus-only=true" ∷ []

reconcile_configuration_hash-Perm_example :
    reconcile_configuration_hash pem no_secrets sha pinned
    ≡ reconcile_configuration_hash pem no_secrets sha (with_options swapped pinned)
reconcile_configuration_hash-Perm_example =
    reconcile_configuration_hash-Perm pem no_secrets sha pinned swapped
      (Perm.swap "distribute-cpus-across-numa=true" "full-pcpus-only=true" [])

reconcile_configuration_hash-Unconfigured_example :
    (reconcile_configuration_hash pem no_secrets sha node_class ≡ ok "") ↔ (
      (registry_entries pem no_secrets node_class.spec.container_registry ≡ ok [])
      × Unconfigured node_class.spec.kubelet)
reconcile_configuration_hash-Unconfigured_example =
    reconcile_configuration_hash-Unconfigured pem no_secrets sha node_class sha_not_empty

-- Resources that are their IDs: each ID exists, and one name.
abbrev the_id : String → String
the_id id = id

abbrev by_id : String → Result ApiError String
by_id id = ok id

abbrev by_name : String → Result ApiError (Option String)
by_name name = if name == "web" then ok (some "sg-2") else ok none

abbrev web : SelectorTerms
web = record { id = ""; name = "web" }

resolve_all_iff_example :
    (resolve_all the_id by_id by_name ("sg-1" ∷ []) (web ∷ []) ≡ ok ("sg-1" ∷ "sg-2" ∷ [])) ↔ (
      (a : List String) × (b : List String) × ("sg-1" ∷ "sg-2" ∷ [] ≡ a ++ b)
      × (Each (ById the_id by_id by_name) ("sg-1" ∷ []) a
          × Each (ByTerm the_id by_id by_name) (web ∷ []) b))
resolve_all_iff_example =
    resolve_all_iff the_id by_id by_name ("sg-1" ∷ []) (web ∷ []) ("sg-1" ∷ "sg-2" ∷ [])

-- A NodeClass with the finalizer that is being deleted, while a NodeClaim of another is there.
abbrev dying_class : ExoscaleNodeClass
dying_class = record node_class { finalizers = finalizer ∷ []; deletion_timestamp = some 7 }

abbrev other_claim : NodeClaim
other_claim = record node_claim { node_class_ref = none }

abbrev answers : DeletionAnswers
answers = record {
  counted = ok (other_claim ∷ []);
  instances = λ filter. ok (exo_instance ∷ []);
  listed = ok (other_claim ∷ []);
  updated = ok tt;
}

abbrev cluster_id : String
cluster_id = "11111111-1111-1111-1111-111111111111"

handle_deletion_lem_example :
    let actions = (handle_deletion cluster_id dying_class answers).0 in
    (In (update_finalizers (without_finalizer dying_class)) actions
      ↔ Idle dying_class.name answers.counted)
    × ((b : Action)
        → In b actions
        → Idle dying_class.name answers.counted × Explained cluster_id dying_class answers b)
    × ((s : String)
        → In s (without_finalizer dying_class) ↔ (In s dying_class.finalizers × (s ≢ finalizer)))
handle_deletion_lem_example = handle_deletion_lem cluster_id dying_class answers (inl refl)

abbrev never_same : ExoscaleNodeClassStatus → ExoscaleNodeClassStatus → Bool
never_same a b = false

abbrev parses : String → Bool
parses q = true

abbrev no_reason : ExoscaleNodeClass → String
no_reason nc = ""

abbrev half_of : ExoscaleNodeClass → Outcomes
half_of nc = half

abbrev added : Action
added = update_finalizers (finalizer ∷ [])

new_class_gets_finalizer :
    reconcile simple_conditions message never_same parses no_reason cluster_id
      (ok node_class)
      half_of
      answers
      (ok tt)
    ≡ some (added ∷ [], requeue 60000000000)
unfolding reconcile
new_class_gets_finalizer = refl

reconcile_guards_example :
    ((node_class.deletion_timestamp ≡ none)
      × Alive simple_conditions message never_same parses no_reason cluster_id half node_class
          added)
    ⊎ ((node_class.deletion_timestamp ≢ none)
        × Dying simple_conditions message never_same parses no_reason cluster_id node_class answers
            added)
reconcile_guards_example =
    reconcile_guards simple_conditions message never_same parses no_reason cluster_id node_class
      half_of answers (ok tt) (added ∷ []) (requeue 60000000000) added new_class_gets_finalizer
      (inl refl)

-- Every resource is there, under its ID or its name.
abbrev lookups : Lookups
lookups = record { by_id = by_id; by_name = by_name }

abbrev api : Answers
api = record {
  active_template = λ version variant. ok "tpl";
  server_version = ok "v1.30.1";
  get_template = λ id. ok tt;
  security_groups = lookups;
  anti_affinity_groups = lookups;
  elastic_ips = lookups;
  private_networks = lookups;
  secrets = no_secrets;
}

abbrev selecting : ExoscaleNodeClass
selecting = record node_class {
  finalizers = finalizer ∷ [];
  spec = record node_class.spec { security_group_selector_terms = web ∷ [] };
}

web-Named : Named (web ∷ [])
web-Named t (inl same) (id, name) =
    let blank = ap (λ x. x.name) (sym same) ∙ name in ground (arith, eq_iff "web" "")
web-Named t (inr never) blank = never

selecting-SelectsNamed : SelectsNamed selecting
selecting-SelectsNamed = (web-Named, λ t at blank. at, λ t at blank. at)

reconcile_ends_example :
    (actions : List Action) × (r : Reconciled) × (reconcile simple_conditions message never_same
        parses no_reason cluster_id
        (ok selecting)
        (outcomes pem sha api)
        answers
        (ok tt)
      ≡ some (actions, r))
reconcile_ends_example =
    reconcile_ends pem sha api simple_conditions message never_same parses no_reason cluster_id
      selecting answers (ok tt) selecting-SelectsNamed
