-- ===== src/NodeClassController/Orphaned.antt =====
-- The active NodeClaims and the orphaned instances of a deletion, pkg/controllers/nodeclass/controller.go.
use karpenter_provider_exosc.Constants.{
  instance_label_managed_by, instance_label_cluster_id, instance_label_node_claim,
  managed_by_karpenter,
}
use karpenter_provider_exosc.Instance.{ExoInstance}
use karpenter_provider_exosc.Kube.{NodeClaim, NodeClassRef}
use karpenter_provider_exosc.NodeClassController.Deletion.{
  ref_names, is_node_claim_using_node_class, is_none, count_active_node_claims, is_label,
  orphaned_node_claim_name, Action, delete_instance, is_some_name, delete_orphans, orphaned,
}
use karpenter_provider_exosc.Prelude.{
  ◌≡◌, ◌≢◌, ◌↔◌, refl, sym, subst, Time, inl, inr, true, ◌&&◌, Option, none, some, String, List, [],
  ◌∷◌, map, lookup, In, In-map, contains_iff, arith, eq_iff, Bool-cases,
}

-- A NodeClaim that uses the NodeClass and is not being deleted.
abbrev pub Uses : Option NodeClassRef → String → Type 0
Uses none name = ⊥
Uses (some ref) name =
    (ref.group ≡ "karpenter.exoscale.com") × (ref.kind ≡ "ExoscaleNodeClass") × (ref.name ≡ name)

abbrev pub Active : String → NodeClaim → Type 0
Active name nc = Uses nc.node_class_ref name × (nc.deletion_timestamp ≡ none)

-- An instance of this cluster's Karpenter whose NodeClaim label names none of the NodeClaims.
abbrev pub Orphan : String → List NodeClaim → ExoInstance → Type 0
Orphan cluster_id claims x =
    (lookup instance_label_managed_by x.labels ≡ some managed_by_karpenter)
    × (lookup instance_label_cluster_id x.labels ≡ some cluster_id)
    × ((name : String) × (lookup instance_label_node_claim x.labels ≡ some name)
        × ((nc : NodeClaim) → In nc claims → nc.name ≢ name))

ref_names-Uses : (r : Option NodeClassRef) (name : String) → (ref_names r name ≡ true) ↔ Uses r name
ref_names-Uses none name = (λ h. absurd (ground arith), λ never. absurd never)
ref_names-Uses (some ref) name = ground (
  arith,
  eq_iff ref.group "karpenter.exoscale.com",
  eq_iff ref.kind "ExoscaleNodeClass",
  eq_iff ref.name name,
)

is_none_iff : (t : Option Time) → (is_none t ≡ true) ↔ (t ≡ none)
is_none_iff none = (λ _. refl, λ _. refl)
is_none_iff (some t) = ground arith

using-Active :
    (nc : NodeClaim) (name : String)
    → ((is_node_claim_using_node_class nc name && is_none nc.deletion_timestamp) ≡ true)
      ↔ Active name nc
unfolding is_node_claim_using_node_class
using-Active nc name =
    let u = ref_names-Uses nc.node_class_ref name in
    let d = is_none_iff nc.deletion_timestamp in
    (
      λ h. (u.0 (ground arith), d.0 (ground arith)),
      λ (a, b). let x = u.1 a in let y = d.1 b in ground arith,
    )

pub count_zero :
    (ncs : List NodeClaim) (name : String)
    → (count_active_node_claims ncs name ≡ 0) ↔ ((nc : NodeClaim) → In nc ncs → ¬ Active name nc)
unfolding count_active_node_claims
count_zero [] name = (λ _ nc at. absurd at, λ _. refl)
count_zero (nc ∷ ncs) name =
    let here = using-Active nc name in
    let rest = count_zero ncs name in
    elim (Bool-cases (is_node_claim_using_node_class nc name && is_none nc.deletion_timestamp)) [
      | inl e ↦ rw e (λ h. absurd (ground arith), λ h. absurd (h nc (inl refl) (here.0 e)))
      | inr e ↦ rw e (
        λ h x at active. elim at [
          | inl same ↦ let t = here.1 (subst (Active name) same active) in ground arith
          | inr later ↦ rest.0 h x later active
        ],
        λ h. rest.1 (λ x at. h x (inr at)),
      )
    ]

is_label_iff : (w : Option String) (v : String) → (is_label w v ≡ true) ↔ (w ≡ some v)
is_label_iff none v = ground arith
is_label_iff (some w) v = ground (arith, eq_iff w v)

orphaned_sound :
    (label : Option String) (claims : List NodeClaim)
    → is_some_name (orphaned label (map (λ nc. nc.name) claims)) ≡ true
    → (name : String) × (label ≡ some name) × ((nc : NodeClaim) → In nc claims → nc.name ≢ name)
orphaned_sound none claims h = absurd (ground arith)
orphaned_sound (some name) claims h = (
  name,
  refl,
  λ nc at same.
      let names = map (λ (c : NodeClaim). c.name) claims in
      let there =
        (contains_iff names name).1
          ((In-map (λ (c : NodeClaim). c.name) name claims).1 (nc, at, sym same)) in
      let h' = rw there at h in ground arith,
)

orphaned_node_claim_name-Orphan :
    (cluster_id : String) (claims : List NodeClaim) (x : ExoInstance)
    → is_some_name (orphaned_node_claim_name cluster_id x.labels (map (λ nc. nc.name) claims))
      ≡ true
    → Orphan cluster_id claims x
unfolding orphaned_node_claim_name
orphaned_node_claim_name-Orphan cluster_id claims x h =
    elim (Bool-cases (is_label (lookup instance_label_managed_by x.labels) managed_by_karpenter)) [
      | inr e ↦ absurd (let h' = rw e at h in ground arith)
      | inl e ↦
          elim (Bool-cases (is_label (lookup instance_label_cluster_id x.labels) cluster_id)) [
            | inr f ↦ absurd (let h' = rw (e, f) at h in ground arith)
            | inl f ↦ (
              (is_label_iff (lookup instance_label_managed_by x.labels) managed_by_karpenter).0 e,
              (is_label_iff (lookup instance_label_cluster_id x.labels) cluster_id).0 f,
              orphaned_sound (lookup instance_label_node_claim x.labels) claims (rw (e, f) at h),
            )
          ]
    ]

-- The actions are deletions of orphans among the instances.
abbrev Reaps : String → List NodeClaim → List ExoInstance → List Action → Type 0
Reaps cluster_id claims xs actions =
    (b : Action)
    → In b actions
    → (x : ExoInstance) × In x xs × Orphan cluster_id claims x × (b ≡ delete_instance x.id)

pub delete_orphans-Reaps :
    (cluster_id : String) (claims : List NodeClaim) (xs : List ExoInstance)
    → Reaps cluster_id claims xs (delete_orphans cluster_id (map (λ nc. nc.name) claims) xs)
unfolding delete_orphans
delete_orphans-Reaps cluster_id claims [] b at = absurd at
delete_orphans-Reaps cluster_id claims (x ∷ xs) b at =
    let names = map (λ (c : NodeClaim). c.name) claims in
    let ih = delete_orphans-Reaps cluster_id claims xs b in
    elim (Bool-cases (is_some_name (orphaned_node_claim_name cluster_id x.labels names))) [
      | inr e ↦ let (y, there, o, is) = ih (rw e at at) in (y, inr there, o, is)
      | inl e ↦ elim (rw e at at) [
        | inl same ↦ (x, inl refl, orphaned_node_claim_name-Orphan cluster_id claims x e, same)
        | inr later ↦ let (y, there, o, is) = ih later in (y, inr there, o, is)
      ]
    ]
