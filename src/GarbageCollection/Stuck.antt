-- ===== src/GarbageCollection/Stuck.antt =====
-- Which NodeClaims lose their termination finalizer, and that they lose no other.
use karpenter_provider_exosc.Kube.{NodeClaim}
use karpenter_provider_exosc.Instance.{Instance}
use karpenter_provider_exosc.ProviderId.{ParseError, parse_provider_id}
use karpenter_provider_exosc.Prelude.{
  ℕ, suc, ◌+◌, ◌≤◌, ◌≡◌, ◌≢◌, ◌↔◌, ◌⊎◌, inl, inr, refl, sym, true, not, Option, none, some, String,
  List, [], ◌∷◌, In, length, In-map, In-append_right, In-keep, contains_iff, Time, Result, ok, err,
  arith, eq_iff, time_sub-lt, Bool-cases, Option-cases, ◌==◌,
}
use karpenter_provider_exosc.GarbageCollection.Defs.{
  World, Action, patch_finalizers, stuck_node_claim_timeout, termination_finalizer_name,
  without_termination, stuck_id, is_stuck, deletion_time, instance_ids, finish, reconcile,
  sweep_stuck, GcError,
}
use karpenter_provider_exosc.GarbageCollection.Orphans.{reconcile-eq, sweep_sound, In-finish}

-- The NodeClaim waits for its termination finalizer although its instance is gone, since long.
pub record IsStuck (insts : List Instance) (now : Time) (nc : NodeClaim) : Type 0 where
  pub deleted_at : Time
  pub id : String
  pub deleting : nc.deletion_timestamp ≡ some deleted_at
  pub known : deleted_at ≢ 0
  pub finalizer : In termination_finalizer_name nc.finalizers
  pub parsed : parse_provider_id nc.provider_id ≡ ok id
  pub no_instance : (inst : Instance) → In inst insts → inst.id ≢ id
  pub overdue : deleted_at + stuck_node_claim_timeout ≤ now

stuck_id-eq-true :
    (ids : List String) (now deleted : Time) (r : Result ParseError String)
    → stuck_id ids now deleted r ≡ true
    → (id : String) × (r ≡ ok id) × (¬ In id ids) × (deleted + stuck_node_claim_timeout ≤ now)
unfolding stuck_id
stuck_id-eq-true ids now deleted (ok id) h = (
  id,
  refl,
  ground (arith, contains_iff ids id, time_sub-lt now deleted stuck_node_claim_timeout),
  ground (arith, contains_iff ids id, time_sub-lt now deleted stuck_node_claim_timeout),
)
stuck_id-eq-true ids now deleted (err e) h = absurd (ground arith)

is_stuck_sound :
    (insts : List Instance) (now : Time) (nc : NodeClaim)
    → is_stuck (instance_ids insts) now nc ≡ true
    → IsStuck insts now nc
unfolding is_stuck
is_stuck_sound insts now nc h = elim (Option-cases nc.deletion_timestamp) [
  | inl e ↦ absurd (ground arith)
  | inr (t, e) ↦
      let s : stuck_id (instance_ids insts) now t (parse_provider_id nc.provider_id) ≡ true =
        ground arith in
      let (id, parsed, absent, overdue) = stuck_id-eq-true _ now t _ s in
      record {
        deleted_at = t;
        id = id;
        deleting = e;
        known = ground arith;
        finalizer = ground (arith, contains_iff nc.finalizers termination_finalizer_name);
        parsed = parsed;
        no_instance =
            λ inst at p. absent ((In-map (λ (i : Instance). i.id) id insts).1 (inst, at, sym p));
        overdue = overdue;
      }
]

stuck_id-eq-true_of :
    (insts : List Instance) (now deleted : Time) (id : String)
    → ((inst : Instance) → In inst insts → inst.id ≢ id)
    → deleted + stuck_node_claim_timeout ≤ now
    → stuck_id (instance_ids insts) now deleted (ok id) ≡ true
unfolding stuck_id
stuck_id-eq-true_of insts now deleted id absent overdue = ground (
  arith,
  contains_iff (instance_ids insts) id,
  not_in,
  time_sub-lt now deleted stuck_node_claim_timeout,
)
  where
    not_in : ¬ In id (instance_ids insts)
    not_in h =
        let (inst, at, e) = (In-map (λ (i : Instance). i.id) id insts).0 h in absent inst at (sym e)

is_stuck_complete :
    (insts : List Instance) (now : Time) (nc : NodeClaim)
    → IsStuck insts now nc
    → is_stuck (instance_ids insts) now nc ≡ true
unfolding is_stuck
is_stuck_complete insts now nc v =
    let s : stuck_id (instance_ids insts) now v.deleted_at (parse_provider_id nc.provider_id)
        ≡ true =
      rw v.parsed (stuck_id-eq-true_of insts now v.deleted_at v.id v.no_instance v.overdue) in
    let e : deletion_time nc.deletion_timestamp ≡ v.deleted_at = rw v.deleting in
    rw e (ground (arith, contains_iff nc.finalizers termination_finalizer_name))

module _ (w : World) where
  sweep_stuck-cons :
      (ids : List String) (n : ℕ) (c : NodeClaim) (ncs : List NodeClaim) (nc : NodeClaim)
      (fs : List String)
      → In (patch_finalizers nc fs) (sweep_stuck w ids n (c ∷ ncs))
      → In (patch_finalizers nc fs) (sweep_stuck w ids (suc n) ncs)
        ⊎ ((nc ≡ c) × (is_stuck ids (w.clock n) c ≡ true) × (fs ≡ without_termination c.finalizers))
  unfolding sweep_stuck
  sweep_stuck-cons ids n c ncs nc fs h = ground arith

  sweep_stuck_sound :
      (ids : List String) (n : ℕ) (ncs : List NodeClaim) (nc : NodeClaim) (fs : List String)
      → In (patch_finalizers nc fs) (sweep_stuck w ids n ncs)
      → In nc ncs
        × ((m : ℕ) × (is_stuck ids (w.clock m) nc ≡ true))
        × (fs ≡ without_termination nc.finalizers)
  unfolding sweep_stuck
  sweep_stuck_sound ids n [] nc fs h = absurd h
  sweep_stuck_sound ids n (c ∷ ncs) nc fs h = elim (sweep_stuck-cons ids n c ncs nc fs h) [
    | inl later ↦ let r = sweep_stuck_sound ids (suc n) ncs nc fs later in (inr r.0, r.1, r.2)
    | inr (same, stuck, set) ↦ (inl same, (n, rw same stuck), rw same set)
  ]

  sweep_stuck_complete :
      (ids : List String) (n : ℕ) (ncs : List NodeClaim) (nc : NodeClaim)
      → In nc ncs
      → ((m : ℕ) → is_stuck ids (w.clock m) nc ≡ true)
      → In (patch_finalizers nc (without_termination nc.finalizers)) (sweep_stuck w ids n ncs)
  unfolding sweep_stuck
  sweep_stuck_complete ids n [] nc h stuck = absurd h
  sweep_stuck_complete ids n (c ∷ ncs) nc (inl here) stuck =
      let now = rw here at (stuck n) in rw here (rw now (inl refl))
  sweep_stuck_complete ids n (c ∷ ncs) nc (inr later) stuck =
      let rest = sweep_stuck_complete ids (suc n) ncs nc later stuck in
      elim (Bool-cases (is_stuck ids (w.clock n) c)) [ inl e ↦ rw e (inr rest) | inr e ↦ rw e rest ]

In-without_termination :
    (f : String) (fs : List String)
    → In f (without_termination fs) ↔ (In f fs × (f ≢ termination_finalizer_name))
In-without_termination f fs = ground (
  arith,
  In-keep (λ (x : String). not (x == termination_finalizer_name)) f fs,
  eq_iff f termination_finalizer_name,
)

finish-patches :
    (w : World) (insts : List Instance) (ncs : List NodeClaim) (r : List Action × Option GcError)
    → (finish w insts ncs r).1 ≡ ok tt
    → (act : Action) → In act (sweep_stuck w (instance_ids insts) (length insts) ncs)
    → In act (finish w insts ncs r).0
unfolding finish
finish-patches w insts ncs (actions, none) h act at = In-append_right act actions _ at
finish-patches w insts ncs (actions, some e) h act at = absurd (ground arith)

module _ (w : World) (insts : List Instance) (ncs : List NodeClaim)
    (listed : w.cloud_instances ≡ some insts) (claimed : w.node_claims ≡ some ncs) where
  -- A pass patches the finalizers of a NodeClaim only if it is stuck: it is being deleted since the
  -- timeout or longer, has the termination finalizer, and its provider ID names an instance that is
  -- not in the list of cloud instances. The patch takes off that finalizer and no other.
  pub reconcile_patches_only-IsStuck :
      (nc : NodeClaim) (fs : List String)
      → In (patch_finalizers nc fs) (reconcile w).0
      → In nc ncs
        × ((m : ℕ) × IsStuck insts (w.clock m) nc)
        × ((f : String) → In f fs ↔ (In f nc.finalizers × (f ≢ termination_finalizer_name)))
  reconcile_patches_only-IsStuck nc fs h =
      elim (In-finish w insts ncs _ _ (rw (reconcile-eq w insts ncs listed claimed) at h)) [
        | inl swept ↦
            let r = sweep_sound w _ _ 0 insts (patch_finalizers nc fs) swept in
            absurd (ground (arith, r.3))
        | inr swept ↦
            let r = sweep_stuck_sound w (instance_ids insts) (length insts) ncs nc fs swept in
            (
              r.0,
              (r.1.0, is_stuck_sound insts _ nc r.1.1),
              λ f. rw r.2 (In-without_termination f nc.finalizers),
            )
      ]

  -- A pass that ends with no error patches every NodeClaim that is stuck at every reading of the
  -- clock.
  pub reconcile_patches_all-IsStuck :
      (reconcile w).1 ≡ ok tt
      → (nc : NodeClaim) → In nc ncs
      → ((m : ℕ) → IsStuck insts (w.clock m) nc)
      → In (patch_finalizers nc (without_termination nc.finalizers)) (reconcile w).0
  reconcile_patches_all-IsStuck ended nc at stuck =
      let e = reconcile-eq w insts ncs listed claimed in
      rw e (
        finish-patches w insts ncs _ (rw e at ended) _ (
          sweep_stuck_complete w (instance_ids insts) (length insts) ncs nc at
            (λ m. is_stuck_complete insts (w.clock m) nc (stuck m))))
