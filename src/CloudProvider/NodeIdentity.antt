-- ===== src/CloudProvider/NodeIdentity.antt =====
-- `createNode`, `ensureNodeIdentity` and `Registered`: the Node that stands for a new instance before
-- its kubelet registers.
use karpenter_provider_exosc.Kube.{
  ApiError, NodeClaim, ResourceList, already_exists, not_found, conflict, bad_request, other,
}
use karpenter_provider_exosc.Instance.{Instance}
use karpenter_provider_exosc.InstanceProvider.{Options}
use karpenter_provider_exosc.ProviderId.{NodeAddress}
use karpenter_provider_exosc.Prelude.{
  ℕ, ◌*◌, ◌≡◌, ◌≢◌, refl, inl, inr, Bool, true, false, Option, none, some, String, List, [], ◌∷◌,
  Map, Result, ok, err, second, arith, ◌^^◌, if◌then◌else◌, ◌==◌, eq_iff, Bool-cases, not,
}

pub record KubeNode : Type 0 where
  pub name : String
  pub annotations : Map String
  pub provider_id : String
  pub taints : List String
  pub capacity : ResourceList
  pub allocatable : ResourceList
  pub phase : String
  pub conditions : List String
  pub system_uuid : String
  pub addresses : List NodeAddress
  pub kubelet_version : String

-- karpenterv1.UnregisteredNoExecuteTaint, by its key
abbrev pub unregistered_taint : String
unregistered_taint = "karpenter.sh/unregistered"

pub data NodeError : Type 0 where
  create_failed get_failed patch_failed patch_status_failed : NodeError

-- What the API server answers; `get` is the Node of that name, `patch` and `patch_status` answer the
-- two patches with whether they are applied.
pub record Server : Type 0 where
  pub create : Result ApiError (Unit {0})
  pub get : Result ApiError KubeNode
  pub patch : Bool
  pub patch_status : Bool

abbrev has_no_addresses : List NodeAddress → Bool
has_no_addresses [] = true
has_no_addresses (a ∷ rest) = false

abbrev pub with_status : KubeNode → KubeNode → KubeNode
with_status existing desired = record existing {
  system_uuid = desired.system_uuid;
  addresses = if has_no_addresses existing.addresses then desired.addresses else existing.addresses;
}

-- The second patch. The Node is the one that the server holds after the call.
unfoldable pub ensure_status : Server → KubeNode → KubeNode → KubeNode × Result NodeError (Unit {0})
ensure_status s existing desired =
    if existing.system_uuid == ""
    then (if s.patch_status
        then (with_status existing desired, ok tt)
        else (existing, err patch_status_failed))
    else (existing, ok tt)

unfoldable pub ensure_identity :
    Server → KubeNode → KubeNode → KubeNode × Result NodeError (Unit {0})
unfolding ensure_status
ensure_identity s existing desired =
    if existing.provider_id == ""
    then (if s.patch
        then ensure_status s (record existing { provider_id = desired.provider_id }) desired
        else (existing, err patch_failed))
    else ensure_status s existing desired

abbrev pub ensured :
    Server → KubeNode → Result ApiError KubeNode → Option KubeNode × Result NodeError (Unit {0})
ensured s desired (err e) = (none, err get_failed)
ensured s desired (ok existing) = let r = ensure_identity s existing desired in (some r.0, r.1)

-- `ensureNodeIdentity`: the Node after the call, where it is known.
unfoldable pub ensure_node_identity :
    Server → KubeNode → Option KubeNode × Result NodeError (Unit {0})
ensure_node_identity s desired = ensured s desired s.get

-- The Node that `createNode` asks for.
unfoldable pub placeholder : Options → NodeClaim → Instance → KubeNode
placeholder o claim i = record {
  name = if not (o.instance_prefix == "") then o.instance_prefix ^^ claim.name else claim.name;
  annotations = claim.annotations;
  provider_id = claim.provider_id;
  taints = unregistered_taint ∷ [];
  capacity = i.capacity;
  allocatable = i.capacity;
  phase = "Pending";
  conditions = "Ready" ∷ [];
  system_uuid = i.id;
  addresses = i.addresses;
  kubelet_version = "";
}

abbrev pub created :
    Server → KubeNode → Result ApiError (Unit {0}) → Option KubeNode × Result NodeError (Unit {0})
created s desired (ok _) = (some desired, ok tt)
created s desired (err already_exists) = ensure_node_identity s desired
created s desired (err _) = (none, err create_failed)

-- `createNode`
unfoldable pub create_node :
    Server → Options → NodeClaim → Instance → Option KubeNode × Result NodeError (Unit {0})
create_node s o claim i = created s (placeholder o claim i) s.create

abbrev pub kubelet_registration_requeue : ℕ
kubelet_registration_requeue = 5 * second

-- `Registered`, by what is found for the claim: `none` is no Node. The result is the delay after
-- which to ask again, or none where the kubelet has registered.
unfoldable pub registered : Result ApiError (Option KubeNode) → Result ApiError (Option ℕ)
registered (err e) = err e
registered (ok none) = ok (some kubelet_registration_requeue)
registered (ok (some node)) =
    if node.kubelet_version == "" then ok (some kubelet_registration_requeue) else ok none

-- The Node can be resolved: it has a provider ID and a system UUID.
abbrev pub IsResolvable : KubeNode → Type 0
IsResolvable node = (node.provider_id ≢ "") × (node.system_uuid ≢ "")

ensure_status_lem :
    (s : Server) (existing desired : KubeNode)
    → existing.provider_id ≢ ""
    → desired.system_uuid ≢ ""
    → (ensure_status s existing desired).1 ≡ ok tt
    → IsResolvable (ensure_status s existing desired).0
unfolding ensure_status
ensure_status_lem s existing desired named good h = elim (Bool-cases (existing.system_uuid == "")) [
  | inr u ↦ rw u (named, λ e. ground (arith, eq_iff existing.system_uuid ""))
  | inl u ↦ elim (Bool-cases s.patch_status) [
    | inl t ↦ rw (u, t) (named, good)
    | inr t ↦ absurd (let h' = rw (u, t) at h in ground arith)
  ]
]

ensure_identity_lem :
    (s : Server) (existing desired : KubeNode)
    → IsResolvable desired
    → (ensure_identity s existing desired).1 ≡ ok tt
    → IsResolvable (ensure_identity s existing desired).0
unfolding ensure_identity
ensure_identity_lem s existing desired (named, good) h =
    elim (Bool-cases (existing.provider_id == "")) [
      | inr p ↦
          let present : existing.provider_id ≢ "" =
            λ e. ground (arith, eq_iff existing.provider_id "") in
          rw p (ensure_status_lem s existing desired present good (rw p at h))
      | inl p ↦ elim (Bool-cases s.patch) [
        | inl t ↦
            rw (p, t)
              (ensure_status_lem s (record existing { provider_id = desired.provider_id }) desired
                named good (rw (p, t) at h))
        | inr t ↦ absurd (let h' = rw (p, t) at h in ground arith)
      ]
    ]

ensured_lem :
    (s : Server) (desired : KubeNode) (found : Result ApiError KubeNode)
    → IsResolvable desired
    → (ensured s desired found).1 ≡ ok tt
    → (node : KubeNode) × ((ensured s desired found).0 ≡ some node) × IsResolvable node
ensured_lem s desired (err e) good h = absurd (ground arith)
ensured_lem s desired (ok existing) good h =
    ((ensure_identity s existing desired).0, refl, ensure_identity_lem s existing desired good h)

created_lem :
    (s : Server) (desired : KubeNode) (answer : Result ApiError (Unit {0}))
    → IsResolvable desired
    → (created s desired answer).1 ≡ ok tt
    → (node : KubeNode) × ((created s desired answer).0 ≡ some node) × IsResolvable node
unfolding ensure_node_identity
created_lem s desired (ok u) good h = (desired, refl, good)
created_lem s desired (err already_exists) good h = ensured_lem s desired s.get good h
created_lem s desired (err not_found) good h = absurd (ground arith)
created_lem s desired (err conflict) good h = absurd (ground arith)
created_lem s desired (err bad_request) good h = absurd (ground arith)
created_lem s desired (err other) good h = absurd (ground arith)

-- If the call succeeds for an instance with an ID and a claim with a provider ID, the Node that the
-- server then holds has a provider ID and a system UUID, whether it was created or was there before; and no Node that
-- the call creates counts as registered.
pub create_node_lem :
    (s : Server) (o : Options) (claim : NodeClaim) (i : Instance)
    → claim.provider_id ≢ ""
    → i.id ≢ ""
    → (create_node s o claim i).1 ≡ ok tt
    → (node : KubeNode) × ((create_node s o claim i).0 ≡ some node)
      × IsResolvable node
      × (registered (ok (some (placeholder o claim i))) ≡ ok (some kubelet_registration_requeue))
unfolding create_node registered placeholder
create_node_lem s o claim i claimed identified h =
    let (node, is, good) = created_lem s (placeholder o claim i) s.create (claimed, identified) h in
    (node, is, good, refl)
