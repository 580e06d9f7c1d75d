-- ===== src/GarbageCollection/Orphans.antt =====
-- Which instances a pass deletes: the orphans that are past the grace period, and all of them.
use karpenter_provider_exosc.Constants.{instance_label_node_claim}
use karpenter_provider_exosc.Kube.{NodeClaim}
use karpenter_provider_exosc.Instance.{Instance}
use karpenter_provider_exosc.ProviderId.{ParseError, parse_provider_id}
use karpenter_provider_exosc.Prelude.{
  ℕ, suc, ◌+◌, ◌≤◌, ◌≡◌, ◌≢◌, ◌↔◌, inl, inr, refl, subst, ap, ◌∙◌, ◌⊎◌, true, false, Option, none,
  some, String, List, [], ◌∷◌, lookup, In, length, In-map, In-append, In-append_left, contains_iff,
  Time, Result, ok, err, arith, eq_iff, time_sub-ge, Option-cases,
}
use karpenter_provider_exosc.GarbageCollection.Defs.{
  id_of, World, Action, delete_instance, orphan_instance_grace_period, node_claim_provider_ids,
  node_claim_names, has_matching_node_claim, is_orphan_instance_reapable, sweep_instances,
  sweep_stuck, reconcile, reconcile_with, finish, instance_ids, GcError,
}

-- No NodeClaim corresponds to the instance, by provider ID or by name.
pub record IsOrphan (ncs : List NodeClaim) (inst : Instance) : Type 0 where
  pub no_provider_id : (nc : NodeClaim) → In nc ncs → parse_provider_id nc.provider_id ≢ ok inst.id
  pub no_name :
      (nc : NodeClaim)
      → In nc ncs
      → nc.name ≢ ""
      → lookup instance_label_node_claim inst.labels ≢ some nc.name

-- The creation time is known and the grace period is over.
abbrev pub IsPastGrace : Instance → Time → Type 0
IsPastGrace inst now =
    (inst.created_at ≢ 0) × (inst.created_at + orphan_instance_grace_period ≤ now)

In-id_of :
    (id : String) (r : Result ParseError String) (ids : List String)
    → In id (id_of r ids) ↔ ((r ≡ ok id) ⊎ In id ids)
unfolding id_of
In-id_of id (ok a) ids = ground arith
In-id_of id (err e) ids = ground arith

In-node_claim_provider_ids :
    (id : String) (ncs : List NodeClaim)
    → In id (node_claim_provider_ids ncs)
      ↔ ((nc : NodeClaim) × In nc ncs × (parse_provider_id nc.provider_id ≡ ok id))
unfolding node_claim_provider_ids
In-node_claim_provider_ids id [] = (λ h. absurd h, λ (nc, h, e). h)
In-node_claim_provider_ids id (nc ∷ ncs) = (
  λ h. elim ((In-id_of id _ _).0 h) [
    | inl e ↦ (nc, inl refl, e)
    | inr h ↦ let (x, at, e) = (In-node_claim_provider_ids id ncs).0 h in (x, inr at, e)
  ],
  λ (x, h, e). (In-id_of id _ _).1 (elim h [
    | inl p ↦ inl (subst (λ (y : NodeClaim). parse_provider_id y.provider_id ≡ ok id) p e)
    | inr h ↦ inr ((In-node_claim_provider_ids id ncs).1 (x, h, e))
  ]),
)

-- The test in terms of its two sets.
matching-eq-false :
    (inst : Instance) (ids names : List String)
    → (has_matching_node_claim inst ids names ≡ false) ↔ (
        (¬ In inst.id ids)
        × ((name : String)
            → name ≢ ""
            → lookup instance_label_node_claim inst.labels ≡ some name
            → ¬ In name names))
unfolding has_matching_node_claim
matching-eq-false inst ids names =
    elim (Option-cases (lookup instance_label_node_claim inst.labels)) [
      | inl e ↦
          rw (e, has_matching_node_claim)
            (
              λ h. (
                ground (arith, contains_iff ids inst.id),
                λ name ne found. absurd (ground arith),
              ),
              λ (no_id, _). ground (arith, contains_iff ids inst.id),
            )
      | inr (name, e) ↦
          rw (e, has_matching_node_claim)
            (
              λ h. (
                ground (arith, contains_iff ids inst.id),
                λ other ne found. ground (
                  arith,
                  contains_iff ids inst.id,
                  contains_iff names other,
                  contains_iff names name,
                  eq_iff name "",
                ),
              ),
              λ (no_id, no_name). ground (
                arith,
                contains_iff ids inst.id,
                contains_iff names name,
                eq_iff name "",
                no_name name,
              ),
            )
    ]

has_matching-eq-false :
    (inst : Instance) (ncs : List NodeClaim)
    → (has_matching_node_claim inst (node_claim_provider_ids ncs) (node_claim_names ncs) ≡ false)
      ↔ IsOrphan ncs inst
has_matching-eq-false inst ncs = (
  λ h.
      let (no_id, no_name) = (matching-eq-false inst _ _).0 h in
      record {
        no_provider_id = λ nc at e. no_id ((In-node_claim_provider_ids inst.id ncs).1 (nc, at, e));
        no_name = λ nc at ne e.
            no_name nc.name ne e
              ((In-map (λ (x : NodeClaim). x.name) nc.name ncs).1 (nc, at, refl));
      },
  λ orphan. (matching-eq-false inst _ _).1 (
    λ h.
        let (nc, at, e) = (In-node_claim_provider_ids inst.id ncs).0 h in
        orphan.no_provider_id nc at e,
    λ name ne found h.
        let (nc, at, e) = (In-map (λ (x : NodeClaim). x.name) name ncs).0 h in
        orphan.no_name nc at (subst (λ (t : String). t ≢ "") e ne) (found ∙ ap some e),
  ),
)

reapable_iff :
    (inst : Instance) (now : Time)
    → (is_orphan_instance_reapable inst.created_at now orphan_instance_grace_period ≡ true)
      ↔ IsPastGrace inst now
unfolding is_orphan_instance_reapable
reapable_iff inst now = ground (arith, time_sub-ge now inst.created_at orphan_instance_grace_period)

module _ (w : World) (ids names : List String) where
  sweep-cons :
      (n : ℕ) (inst : Instance) (insts : List Instance) (act : Action)
      → In act (sweep_instances w ids names n (inst ∷ insts)).0
      → In act (sweep_instances w ids names (suc n) insts).0
        ⊎ ((act ≡ delete_instance inst.id)
            × (has_matching_node_claim inst ids names ≡ false)
            × (is_orphan_instance_reapable inst.created_at (w.clock n) orphan_instance_grace_period
                ≡ true))
  unfolding sweep_instances
  sweep-cons n inst insts act h = ground arith

  pub sweep_sound :
      (n : ℕ) (insts : List Instance) (act : Action)
      → In act (sweep_instances w ids names n insts).0
      → (inst : Instance) × (m : ℕ) × In inst insts
        × (act ≡ delete_instance inst.id)
        × (has_matching_node_claim inst ids names ≡ false)
        × (is_orphan_instance_reapable inst.created_at (w.clock m) orphan_instance_grace_period
            ≡ true)
  unfolding sweep_instances
  sweep_sound n [] act h = absurd h
  sweep_sound n (inst ∷ insts) act h = elim (sweep-cons n inst insts act h) [
    | inl later ↦ let r = sweep_sound (suc n) insts act later in (r.0, r.1, inr r.2, r.3, r.4, r.5)
    | inr now ↦ (inst, n, inl refl, now.0, now.1, now.2)
  ]

  sweep_complete :
      (n : ℕ) (insts : List Instance) (inst : Instance)
      → (sweep_instances w ids names n insts).1 ≡ none
      → In inst insts
      → has_matching_node_claim inst ids names ≡ false
      → ((m : ℕ)
          → is_orphan_instance_reapable inst.created_at (w.clock m) orphan_instance_grace_period
            ≡ true)
      → In (delete_instance inst.id) (sweep_instances w ids names n insts).0
  unfolding sweep_instances
  sweep_complete n [] inst ended h orphan ripe = absurd h
  sweep_complete n (i ∷ insts) inst ended (inl here) orphan ripe =
      let orphan' = rw here at orphan in let ripe' = rw here at (ripe n) in rw here (ground arith)
  sweep_complete n (i ∷ insts) inst ended (inr later) orphan ripe = ground (
    arith,
    λ (e : (sweep_instances w ids names (suc n) insts).1 ≡ none).
        sweep_complete (suc n) insts inst e later orphan ripe,
  )

pub In-finish :
    (w : World) (insts : List Instance) (ncs : List NodeClaim) (r : List Action × Option GcError)
    (act : Action)
    → In act (finish w insts ncs r).0
    → In act r.0 ⊎ In act (sweep_stuck w (instance_ids insts) (length insts) ncs)
unfolding finish
In-finish w insts ncs (actions, none) act h =
    In-append act actions (sweep_stuck w (instance_ids insts) (length insts) ncs) h
In-finish w insts ncs (actions, some e) act h = inl h

finish-ok :
    (w : World) (insts : List Instance) (ncs : List NodeClaim) (r : List Action × Option GcError)
    → (finish w insts ncs r).1 ≡ ok tt
    → (r.1 ≡ none) × ((act : Action) → In act r.0 → In act (finish w insts ncs r).0)
unfolding finish
finish-ok w insts ncs (actions, none) h = (
  refl,
  λ act at. In-append_left act actions (sweep_stuck w (instance_ids insts) (length insts) ncs) at,
)
finish-ok w insts ncs (actions, some e) h = absurd (ground arith)

-- The second loop deletes nothing.
sweep_stuck_deletes_nothing :
    (w : World) (ids : List String) (n : ℕ) (ncs : List NodeClaim) (id : String)
    → ¬ In (delete_instance id) (sweep_stuck w ids n ncs)
unfolding sweep_stuck
sweep_stuck_deletes_nothing w ids n [] id h = absurd h
sweep_stuck_deletes_nothing w ids n (nc ∷ ncs) id h =
    ground (arith, sweep_stuck_deletes_nothing w ids (suc n) ncs id)

module _ (w : World) (insts : List Instance) (ncs : List NodeClaim)
    (listed : w.cloud_instances ≡ some insts) (claimed : w.node_claims ≡ some ncs) where
  pub reconcile-eq :
      reconcile w
      ≡ finish w insts ncs
          (sweep_instances w (node_claim_provider_ids ncs) (node_claim_names ncs) 0 insts)
  unfolding reconcile reconcile_with
  reconcile-eq = rw (listed, claimed, reconcile)

  -- Safety: whatever instance a pass deletes is in the list of cloud instances, no NodeClaim
  -- corresponds to it, neither by provider ID nor by its node-claim label, and when the clock was
  -- read its creation time was known and at least the grace period ago.
  pub reconcile_deletes_only_orphans :
      (id : String)
      → In (delete_instance id) (reconcile w).0
      → (inst : Instance) × (m : ℕ) × In inst insts
        × (inst.id ≡ id)
        × IsOrphan ncs inst
        × IsPastGrace inst (w.clock m)
  reconcile_deletes_only_orphans id h = elim (In-finish w insts ncs _ _ (rw reconcile-eq at h)) [
    | inl swept ↦
        let r = sweep_sound w _ _ 0 insts (delete_instance id) swept in
        (
          r.0,
          r.1,
          r.2,
          ground (arith, r.3),
          (has_matching-eq-false r.0 ncs).0 r.4,
          (reapable_iff r.0 (w.clock r.1)).0 r.5,
        )
    | inr stuck ↦ absurd (sweep_stuck_deletes_nothing w _ _ ncs id stuck)
  ]

  -- Completeness: a pass that ends with no error has asked for the deletion of each listed instance
  -- that no NodeClaim corresponds to and that is past the grace period at every reading.
  pub reconcile_deletes_all_orphans :
      (reconcile w).1 ≡ ok tt
      → (inst : Instance) → In inst insts
      → IsOrphan ncs inst
      → ((m : ℕ) → IsPastGrace inst (w.clock m))
      → In (delete_instance inst.id) (reconcile w).0
  reconcile_deletes_all_orphans ended inst at orphan past =
      let (swept, kept) = finish-ok w insts ncs _ (rw reconcile-eq at ended) in
      rw reconcile-eq (
        kept _ (
          sweep_complete w _ _ 0 insts inst swept at ((has_matching-eq-false inst ncs).1 orphan)
            (λ m. (reapable_iff inst (w.clock m)).1 (past m))))
