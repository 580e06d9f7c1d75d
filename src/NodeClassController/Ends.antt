-- ===== src/NodeClassController/Ends.antt =====
-- A reconciliation does not panic, pkg/controllers/nodeclass.
use karpenter_provider_exosc.Kube.{ApiError}
use karpenter_provider_exosc.NodeClass.{ExoscaleNodeClass, ExoscaleNodeClassStatus, SelectorTerms}
use karpenter_provider_exosc.NodeClassController.Deletion.{
  finalizer, Action, Reconciled, DeletionAnswers,
}
use karpenter_provider_exosc.NodeClassController.Hash.{reconcile_configuration_hash}
use karpenter_provider_exosc.NodeClassController.Panics.{Calm, reconcile_resources-Calm}
use karpenter_provider_exosc.NodeClassController.Reconcile.{
  Answers, Lookups, outcomes, reconcile_template, reconcile_security_groups,
  reconcile_anti_affinity_groups, reconcile_private_networks, reconcile_elastic_ips, reconcile,
  is_deleted, validate_spec,
}
use karpenter_provider_exosc.NodeClassController.Resolution.{resolve_all_panics}
use karpenter_provider_exosc.NodeClassController.Selectors.{
  StepError, nil_dereference, secrets_failed, resolve_all,
}
use karpenter_provider_exosc.NodeClassController.Steps.{
  ConditionSet, Outcomes, reconcile_steps, written,
}
use karpenter_provider_exosc.Template.{resolve_template}
use karpenter_provider_exosc.UserData.Registry.{ResolveError}
use karpenter_provider_exosc.Prelude.{
  ◌≡◌, ◌≢◌, refl, inl, inr, Bool, Option, some, String, List, In, contains, Result, ok, err, wrap,
  arith, Bool-cases, Result-cases,
}

-- Each term has an ID or a name.
abbrev pub Named : List SelectorTerms → Type 0
Named terms = (t : SelectorTerms) → In t terms → ¬ ((t.id ≡ "") × (t.name ≡ ""))

-- The same for the terms of a NodeClass, except those of elastic IPs.
abbrev pub SelectsNamed : ExoscaleNodeClass → Type 0
SelectsNamed nc =
    Named nc.spec.security_group_selector_terms
    × Named nc.spec.anti_affinity_group_selector_terms
    × Named nc.spec.private_network_selector_terms

written_no_panic :
    {A : Type 0} (f : A → ExoscaleNodeClassStatus → ExoscaleNodeClassStatus)
    (r : Result StepError A)
    → r ≢ err nil_dereference
    → written f r ≢ err nil_dereference
written_no_panic f (ok a) h e = ground arith
written_no_panic f (err x) h e = h (ground arith)

reconcile_steps-Calm :
    (o : Outcomes)
    → o.template ≢ err nil_dereference
    → o.security_groups ≢ err nil_dereference
    → o.anti_affinity_groups ≢ err nil_dereference
    → o.elastic_ips ≢ err nil_dereference
    → o.private_networks ≢ err nil_dereference
    → o.configuration_hash ≢ err nil_dereference
    → Calm (reconcile_steps o)
unfolding reconcile_steps
reconcile_steps-Calm o t s a e p h = (
  written_no_panic (λ id st. record st { image_id = id }) o.template t,
  (
    written_no_panic (λ ids st. record st { security_groups = ids }) o.security_groups s,
    (
      written_no_panic (λ ids st. record st { anti_affinity_groups = ids }) o.anti_affinity_groups
          a,
      (
        written_no_panic (λ ids st. record st { elastic_ips = ids }) o.elastic_ips e,
        (
          written_no_panic (λ ids st. record st { private_networks = ids }) o.private_networks p,
          (
            written_no_panic (λ x st. record st { configuration_hash = x }) o.configuration_hash h,
            tt,
          ),
        ),
      ),
    ),
  ),
)

template_no_panic :
    (a : Answers) (nc : ExoscaleNodeClass) → reconcile_template a nc ≢ err nil_dereference
unfolding reconcile_template
template_no_panic a nc h =
    elim (Result-cases (resolve_template a.active_template a.server_version nc)) [
      | inr (e, p) ↦ let h' = rw p at h in ground arith
      | inl (t, p) ↦ elim (Result-cases (a.get_template t.id)) [
        | inr (e, q) ↦ let h' = rw (p, q) at h in ground arith
        | inl (u, q) ↦ let h' = rw (p, q) at h in ground arith
      ]
    ]

resources_no_panic :
    (l : Lookups) (ids : List String) (terms : List SelectorTerms)
    → Named terms
    → resolve_all (λ (id : String). id) l.by_id l.by_name ids terms ≢ err nil_dereference
resources_no_panic l ids terms named h =
    let (panics, _) = resolve_all_panics (λ (id : String). id) l.by_id l.by_name in
    let (t, at, id, name) = panics ids terms h in named t at (id, name)

hash_no_panic : (r : Result ResolveError String) → wrap secrets_failed r ≢ err nil_dereference
hash_no_panic (ok h) e = ground arith
hash_no_panic (err x) e = ground arith

module _ (pem : String → Option String) (sha : String → String) (a : Answers) where
  outcomes-Calm :
      (nc : ExoscaleNodeClass) → SelectsNamed nc → Calm (reconcile_steps (outcomes pem sha a nc))
  unfolding outcomes reconcile_security_groups reconcile_anti_affinity_groups
      reconcile_private_networks reconcile_elastic_ips
  outcomes-Calm nc (sg, aag, pn) =
      let spec = nc.spec in
      let (_, no_eip) =
        resolve_all_panics (λ (id : String). id) a.elastic_ips.by_id a.elastic_ips.by_name in
      reconcile_steps-Calm (outcomes pem sha a nc) (template_no_panic a nc)
        (resources_no_panic a.security_groups spec.security_groups
          spec.security_group_selector_terms sg)
        (resources_no_panic a.anti_affinity_groups spec.anti_affinity_groups
          spec.anti_affinity_group_selector_terms aag)
        (no_eip spec.elastic_ip_selector_terms)
        (resources_no_panic a.private_networks spec.private_networks
          spec.private_network_selector_terms pn)
        (hash_no_panic (reconcile_configuration_hash pem a.secrets sha nc))

  module _ (cs : ConditionSet) (text : StepError → String)
      (same_status : ExoscaleNodeClassStatus → ExoscaleNodeClassStatus → Bool)
      (parses : String → Bool) (why : ExoscaleNodeClass → String) (cluster_id : String) where
    -- Whatever the answers of the API servers, a reconciliation of a NodeClass ends without a panic
    -- with a result, if each selector term for security groups, anti-affinity groups and private
    -- networks has an ID or a name.
    pub reconcile_ends :
        (nc : ExoscaleNodeClass) (d : DeletionAnswers) (patch : Result ApiError (Unit {0}))
        → SelectsNamed nc
        → (actions : List Action) × (r : Reconciled) × (reconcile cs text same_status parses why
              cluster_id
              (ok nc)
              (outcomes pem sha a)
              d
              patch
            ≡ some (actions, r))
    unfolding reconcile
    reconcile_ends nc d patch named =
        let o = outcomes pem sha a nc in
        let (st, e) = reconcile_resources-Calm cs text o nc.status (outcomes-Calm nc named) in
        elim (Bool-cases (is_deleted nc)) [
          | inl p ↦ rw p (_, _, refl)
          | inr p ↦ elim (Bool-cases (contains nc.finalizers finalizer)) [
            | inr f ↦ rw (p, f) (_, _, refl)
            | inl f ↦ elim (Bool-cases (validate_spec parses nc)) [
              | inr v ↦ rw (p, f, v) (_, _, refl)
              | inl v ↦ elim (Bool-cases (same_status nc.status st)) [
                | inl same ↦ rw (p, f, v, e, same) (_, _, refl)
                | inr differ ↦ rw (p, f, v, e, differ) (_, _, refl)
              ]
            ]
          ]
        ]
