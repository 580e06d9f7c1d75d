-- ===== src/NodeClassController/Guards.antt =====
-- When a reconciliation changes what, pkg/controllers/nodeclass/controller.go.
use karpenter_provider_exosc.Kube.{ApiError}
use karpenter_provider_exosc.NodeClass.{ExoscaleNodeClass, ExoscaleNodeClassStatus}
use karpenter_provider_exosc.NodeClassController.Deletion.{
  finalizer, Action, update_finalizers, patch_status, DeletionAnswers, handle_deletion, Reconciled,
  is_none,
}
use karpenter_provider_exosc.NodeClassController.Reconcile.{
  patched, live, is_deleted, reconcile, validate_spec,
}
use karpenter_provider_exosc.NodeClassController.Release.{Idle, Explained, handle_deletion_lem}
use karpenter_provider_exosc.NodeClassController.Selectors.{StepError}
use karpenter_provider_exosc.NodeClassController.Steps.{
  ConditionSet, Outcomes, holds, reconcile_resources, is_status_true,
}
use karpenter_provider_exosc.Prelude.{
  ◌≡◌, ◌≢◌, ◌⊎◌, refl, sym, ap, subst, inl, inr, Bool, true, false, not, Option, none, some, String,
  List, [], ◌∷◌, ◌++◌, In, contains, contains_iff, Result, ok, arith, Bool-cases, Option-cases,
  some_inj,
}

module _ (cs : ConditionSet) (text : StepError → String)
    (same_status : ExoscaleNodeClassStatus → ExoscaleNodeClassStatus → Bool)
    (parses : String → Bool) (why : ExoscaleNodeClass → String) (cluster_id : String) where
  -- What a reconciliation may ask for while the NodeClass is not being deleted.
  abbrev pub Alive : Outcomes → ExoscaleNodeClass → Action → Type 0
  Alive o nc b =
      ((¬ In finalizer nc.finalizers) × (b ≡ update_finalizers (nc.finalizers ++ finalizer ∷ [])))
      ⊎ (In finalizer nc.finalizers
          × ((st : ExoscaleNodeClassStatus) × (b ≡ patch_status st)
              × (((validate_spec parses nc ≡ false) × (holds "Ready" st.conditions ≡ false))
                  ⊎ ((validate_spec parses nc ≡ true)
                      × (reconcile_resources cs text o nc.status ≡ some st)))))

  -- And while it is.
  abbrev pub Dying : ExoscaleNodeClass → DeletionAnswers → Action → Type 0
  Dying nc a b = In finalizer nc.finalizers × Idle nc.name a.counted × Explained cluster_id nc a b

  patched_lem :
      (stored : ExoscaleNodeClassStatus) (after : Option ExoscaleNodeClassStatus)
      (answer : Result ApiError (Unit {0})) (actions : List Action) (r : Reconciled) (b : Action)
      → patched cs text same_status parses why cluster_id stored after answer ≡ some (actions, r)
      → In b actions
      → (st : ExoscaleNodeClassStatus) × (b ≡ patch_status st) × (after ≡ some st)
  patched_lem stored none answer actions r b h at = absurd (ground arith)
  patched_lem stored (some st) answer actions r b h at = elim (Bool-cases (same_status stored st)) [
    | inl e ↦
        let same : [] ≡ actions = ap (λ p. p.0) (some_inj (rw e at h)) in
        let never : In b [] = subst (In b) (sym same) at in absurd never
    | inr e ↦
        let same : patch_status st ∷ [] ≡ actions = ap (λ p. p.0) (some_inj (rw e at h)) in
        let at' : In b (patch_status st ∷ []) = subst (In b) (sym same) at in
        elim at' [ inl is ↦ (st, is, refl) | inr never ↦ absurd never ]
  ]

  one_of :
      {c b : Action} {r r' : Reconciled} {actions : List Action}
      → ◌≡◌ {A = Option (List Action × Reconciled)} (some (c ∷ [], r)) (some (actions, r'))
      → In b actions
      → b ≡ c
  one_of {c} {b} {r} {r'} {actions} h at =
      let same : c ∷ [] ≡ actions = ap (λ p. p.0) (some_inj h) in
      let at' : In b (c ∷ []) = subst (In b) (sym same) at in
      elim at' [ inl is ↦ is | inr never ↦ absurd never ]

  live_lem :
      (o : Outcomes) (nc : ExoscaleNodeClass) (update patch : Result ApiError (Unit {0}))
      (actions : List Action) (r : Reconciled) (b : Action)
      → live cs text same_status parses why cluster_id o nc update patch ≡ some (actions, r)
      → In b actions
      → Alive o nc b
  live_lem o nc update patch actions r b h at =
      elim (Bool-cases (contains nc.finalizers finalizer)) [
        | inr e ↦ inl (
          λ there. let t = (contains_iff nc.finalizers finalizer).1 there in ground arith,
          one_of (rw e at h) at,
        )
        | inl e ↦
            let there = (contains_iff nc.finalizers finalizer).0 e in
            elim (Bool-cases (validate_spec parses nc)) [
              | inr v ↦ inr (
                there,
                (
                  _,
                  one_of (rw (e, v) at h) at,
                  inl (v, ap is_status_true (cs.set_here "Ready" _ _)),
                ),
              )
              | inl v ↦
                  let (st, is, result) =
                    patched_lem nc.status (reconcile_resources cs text o nc.status) patch actions r
                      b (rw (e, v) at h) at in
                  inr (there, (st, is, inr (v, result)))
            ]
      ]

  no_actions :
      (nc : ExoscaleNodeClass) (a : DeletionAnswers) (b : Action)
      → contains nc.finalizers finalizer ≡ false
      → ¬ In b (handle_deletion cluster_id nc a).0
  unfolding handle_deletion
  no_actions nc a b e at = let never = rw e at at in never

  dying_lem :
      (nc : ExoscaleNodeClass) (a : DeletionAnswers) (b : Action)
      → In b (handle_deletion cluster_id nc a).0
      → Dying nc a b
  dying_lem nc a b at = elim (Bool-cases (contains nc.finalizers finalizer)) [
    | inr e ↦ absurd (no_actions nc a b e at)
    | inl e ↦
        let there = (contains_iff nc.finalizers finalizer).0 e in
        let (_, explains, _) = handle_deletion_lem cluster_id nc a there in
        let (idle, why_so) = explains b at in (there, idle, why_so)
  ]

  -- Whatever a reconciliation of a NodeClass asks for: if the NodeClass is not being deleted, it is
  -- the finalizer, where that is missing, and else the patch of a status, which is not `Ready` where
  -- the validation fails and else is the outcome of the steps. If it is being deleted, it has the
  -- finalizer and no active NodeClaim uses it, and what is asked for is the removal of the finalizer or
  -- the deletion of an orphaned instance.
  pub reconcile_guards :
      (nc : ExoscaleNodeClass) (o : ExoscaleNodeClass → Outcomes) (a : DeletionAnswers)
      (patch : Result ApiError (Unit {0})) (actions : List Action) (r : Reconciled) (b : Action)
      → reconcile cs text same_status parses why cluster_id (ok nc) o a patch ≡ some (actions, r)
      → In b actions
      → ((nc.deletion_timestamp ≡ none) × Alive (o nc) nc b)
        ⊎ ((nc.deletion_timestamp ≢ none) × Dying nc a b)
  unfolding reconcile
  reconcile_guards nc o a patch actions r b h at = elim (Option-cases nc.deletion_timestamp) [
    | inl e ↦
        let deleted : is_deleted nc ≡ false = ap (λ d. not (is_none d)) e in
        inl (e, live_lem (o nc) nc a.updated patch actions r b (rw deleted at h) at)
    | inr (t, e) ↦
        let deleted : is_deleted nc ≡ true = ap (λ d. not (is_none d)) e in
        let same : (handle_deletion cluster_id nc a).0 ≡ actions =
          ap (λ p. p.0) (some_inj (rw deleted at h)) in
        inr (λ f. ground arith, dying_lem nc a b (subst (In b) (sym same) at))
  ]
