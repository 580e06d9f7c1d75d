-- ===== src/NodeClassController/Release.antt =====
-- When the finalizer of a NodeClass is removed, pkg/controllers/nodeclass/controller.go.
use karpenter_provider_exosc.Instance.{ExoInstance}
use karpenter_provider_exosc.Kube.{ApiError, NodeClaim}
use karpenter_provider_exosc.LabelFilter.{karpenter_filter}
use karpenter_provider_exosc.NodeClass.{ExoscaleNodeClass}
use karpenter_provider_exosc.NodeClassController.Deletion.{
  finalizer, count_active_node_claims, Action, delete_instance, update_finalizers, DeletionAnswers,
  cleanup_orphaned_instances, handle_deletion, counted_deletion,
}
use karpenter_provider_exosc.Prelude.{
  ◌≡◌, ◌≢◌, ◌↔◌, ◌⊎◌, refl, inl, inr, not, String, List, [], ◌∷◌, In, In-append, In-append_right,
  keep, In-keep, contains_iff, eqb, Result, ok, err, arith, ◌==◌, eq_iff, Bool-cases, ok_inj,
  Result-cases,
}
use karpenter_provider_exosc.NodeClassController.Orphaned.{
  Active, Orphan, count_zero, delete_orphans-Reaps,
}

-- Why an action of the cleanup is asked for.
abbrev pub Reaped : String → DeletionAnswers → Action → Type 0
Reaped cluster_id a b =
    (filter : String) × (xs : List ExoInstance) × (claims : List NodeClaim) × (karpenter_filter
        cluster_id
      ≡ ok filter)
    × (a.instances filter ≡ ok xs)
    × (a.listed ≡ ok claims)
    × ((x : ExoInstance) × In x xs × Orphan cluster_id claims x × (b ≡ delete_instance x.id))

cleanup_sound :
    (cluster_id : String) (a : DeletionAnswers) (b : Action)
    → In b (cleanup_orphaned_instances cluster_id a).0
    → Reaped cluster_id a b
unfolding cleanup_orphaned_instances
cleanup_sound cluster_id a b at = elim (Bool-cases (cluster_id == "")) [
  | inl e ↦ absurd (let never = rw e at at in never)
  | inr e ↦ elim (Result-cases (karpenter_filter cluster_id)) [
    | inr (f, p) ↦ absurd (let never = rw (e, p) at at in never)
    | inl (filter, p) ↦ elim (Result-cases (a.instances filter)) [
      | inr (f, q) ↦ absurd (let never = rw (e, p, q) at at in never)
      | inl (xs, q) ↦ elim (Result-cases a.listed) [
        | inr (f, r) ↦ absurd (let never = rw (e, p, q, r) at at in never)
        | inl (claims, r) ↦ (
          filter,
          xs,
          claims,
          p,
          q,
          r,
          delete_orphans-Reaps cluster_id claims xs b (rw (e, p, q, r) at at),
        )
      ]
    ]
  ]
]

-- What the call asks for, where the NodeClass has the finalizer.
abbrev pub without_finalizer : ExoscaleNodeClass → List String
without_finalizer nc = keep (λ s. not (s == finalizer)) nc.finalizers

abbrev pub Idle : String → Result ApiError (List NodeClaim) → Type 0
Idle name counted =
    (claims : List NodeClaim) × (counted ≡ ok claims)
    × ((c : NodeClaim) → In c claims → ¬ Active name c)

abbrev pub Explained : String → ExoscaleNodeClass → DeletionAnswers → Action → Type 0
Explained cluster_id nc a b = (b ≡ update_finalizers (without_finalizer nc)) ⊎ Reaped cluster_id a b

counted_lem :
    (cluster_id : String) (nc : ExoscaleNodeClass) (a : DeletionAnswers)
    (counted : Result ApiError (List NodeClaim))
    → let actions = (counted_deletion cluster_id nc a counted).0 in
      (In (update_finalizers (without_finalizer nc)) actions ↔ Idle nc.name counted)
      × ((b : Action) → In b actions → Idle nc.name counted × Explained cluster_id nc a b)
counted_lem cluster_id nc a (err e) =
    ((λ never. absurd never, λ (claims, p, idle). absurd (ground arith)), λ b never. absurd never)
counted_lem cluster_id nc a (ok claims) =
    let n = count_active_node_claims claims nc.name in
    let zero_iff = count_zero claims nc.name in
    elim (Bool-cases (eqb n 0)) [
      | inr e ↦ rw e (
        (
          λ never. absurd never,
          λ (claims', p, idle).
              let same : claims ≡ claims' = ok_inj p in
              let none_active = zero_iff.1 (rw same idle) in ground arith,
        ),
        λ b never. absurd never,
      )
      | inl e ↦
          let idle : Idle nc.name (ok claims) = (claims, refl, zero_iff.0 (ground arith)) in
          let before = (cleanup_orphaned_instances cluster_id a).0 in
          let last = update_finalizers (without_finalizer nc) in
          rw e (
            (λ _. idle, λ _. In-append_right last before (last ∷ []) (inl refl)),
            λ b at. (
              idle,
              elim (In-append b before (last ∷ []) at) [
                | inl l ↦ inr (cleanup_sound cluster_id a b l)
                | inr (inl same) ↦ inl same
                | inr (inr never) ↦ absurd never
              ],
            ),
          )
    ]

-- For a NodeClass with the finalizer: the call asks for the removal of the finalizer exactly if the
-- NodeClaims could be listed and none that uses the NodeClass is active. Whatever it asks for, this
-- holds, and it is either that removal, which leaves the other finalizers, or the deletion of an
-- instance of this cluster's Karpenter whose NodeClaim label names none of the NodeClaims.
pub handle_deletion_lem :
    (cluster_id : String) (nc : ExoscaleNodeClass) (a : DeletionAnswers)
    → In finalizer nc.finalizers
    → let actions = (handle_deletion cluster_id nc a).0 in
      (In (update_finalizers (without_finalizer nc)) actions ↔ Idle nc.name a.counted)
      × ((b : Action) → In b actions → Idle nc.name a.counted × Explained cluster_id nc a b)
      × ((s : String) → In s (without_finalizer nc) ↔ (In s nc.finalizers × (s ≢ finalizer)))
unfolding handle_deletion
handle_deletion_lem cluster_id nc a has =
    let e = (contains_iff nc.finalizers finalizer).1 has in
    let (asks, explains) = counted_lem cluster_id nc a a.counted in
    rw e (
      asks,
      explains,
      λ s. ground (
        arith,
        In-keep (λ (x : String). not (x == finalizer)) s nc.finalizers,
        eq_iff s finalizer,
      ),
    )
