-- ===== src/CloudProvider/Launch.antt =====
-- `Create`, `GetInstanceTypes` and `RepairPolicies`, pkg/cloudprovider/cloudprovider.go.
use karpenter_provider_exosc.Instance.{Instance, to_node_claim}
use karpenter_provider_exosc.InstanceProvider.{Options}
use karpenter_provider_exosc.Kube.{ApiError, NodeClaim, NodeClassRef, not_found}
use karpenter_provider_exosc.Lo.{Lo}
use karpenter_provider_exosc.NodeClass.{
  ExoscaleNodeClass, Condition, ConditionStatus, is_true, is_false, is_unknown,
}
use karpenter_provider_exosc.CloudProvider.NodeIdentity.{NodeError, Server, create_node}
use karpenter_provider_exosc.Prelude.{
  ℕ, ◌*◌, ◌≡◌, ◌≢◌, refl, sym, ap, ◌∙◌, inl, inr, Option, none, some, String, List, [], ◌∷◌, In,
  minute, Result, ok, err, wrap, ◌>>=◌, arith, ok_inj, Result-cases,
}

-- How `Create` fails; the first two make Karpenter try another capacity or wait for the NodeClass.
pub data LaunchError : Type 0 where
  insufficient_capacity resolve_failed token_failed : LaunchError
  node_class_not_ready : String → LaunchError
  instance_failed node_failed list_failed : LaunchError

-- The calls that change something, in their order.
pub data LaunchStep : Type 0 where
  make_token : LaunchStep
  make_instance : ExoscaleNodeClass → String → LaunchStep
  make_node : NodeClaim → LaunchStep

abbrev class_error : ApiError → LaunchError
class_error not_found = insufficient_capacity
class_error _ = resolve_failed

abbrev pub class_of :
    (String → Result ApiError ExoscaleNodeClass)
    → Option NodeClassRef
    → Result LaunchError ExoscaleNodeClass
class_of get none = err resolve_failed
class_of get (some ref) = wrap class_error (get ref.name)

-- The condition `Ready` of the NodeClass, as the library of conditions gives it.
abbrev ready_status : ConditionStatus → String → Result LaunchError (Unit {0})
ready_status is_true message = ok tt
ready_status is_false message = err (node_class_not_ready message)
ready_status is_unknown message = ok tt

abbrev pub check_ready : Option Condition → Result LaunchError (Unit {0})
check_ready none = err insufficient_capacity
check_ready (some c) = ready_status c.status c.message

-- `resolveNodeClassFromNodePool` by the NodeClass reference of the pool's template, and
-- `GetInstanceTypes` with the list of the instance type provider
unfoldable pub resolve_node_class_from_node_pool :
    (String → Result ApiError ExoscaleNodeClass)
    → Option NodeClassRef
    → Result LaunchError ExoscaleNodeClass
resolve_node_class_from_node_pool get none = err resolve_failed
resolve_node_class_from_node_pool get (some ref) = wrap (λ _. resolve_failed) (get ref.name)

unfoldable pub get_instance_types :
    {T E : Type 0}
    → (String → Result ApiError ExoscaleNodeClass)
    → (ExoscaleNodeClass → Result E (List T))
    → Option NodeClassRef
    → Result LaunchError (List T)
get_instance_types get list ref =
    resolve_node_class_from_node_pool get ref >>= λ nc. wrap (λ _. list_failed) (list nc)

pub record RepairPolicy : Type 0 where
  pub condition_type : String
  pub condition_status : ConditionStatus
  pub toleration_duration : ℕ

abbrev policy : String → ConditionStatus → ℕ → RepairPolicy
policy t s d = record { condition_type = t; condition_status = s; toleration_duration = d }

abbrev pub repair_policies : List RepairPolicy
repair_policies =
    policy "Ready" is_false (15 * minute)
    ∷ policy "DiskPressure" is_true (10 * minute)
    ∷ policy "MemoryPressure" is_true (10 * minute)
    ∷ policy "PIDPressure" is_true (10 * minute)
    ∷ policy "NetworkUnavailable" is_true (5 * minute)
    ∷ []

-- What the call meets: the NodeClasses by name, the condition `Ready`, the bootstrap token, the
-- instance by NodeClass and token, and the Nodes of the server.
pub record Launcher : Type 0 where
  pub node_class : String → Result ApiError ExoscaleNodeClass
  pub ready : ExoscaleNodeClass → Option Condition
  pub token : Result ApiError String
  pub instance_for : ExoscaleNodeClass → String → Result (Unit {0}) Instance
  pub nodes : Server

module _ (lo : Lo) (o : Options) (w : Launcher) where
  abbrev with_node : NodeClaim → Result NodeError (Unit {0}) → Result LaunchError NodeClaim
  with_node claim (err e) = err node_failed
  with_node claim (ok u) = ok (record claim { node_name = claim.name })

  abbrev with_instance :
      ExoscaleNodeClass
      → String
      → Result (Unit {0}) Instance
      → List LaunchStep × Result LaunchError NodeClaim
  with_instance nc token (err e) = (make_token ∷ make_instance nc token ∷ [], err instance_failed)
  with_instance nc token (ok i) =
      let claim = to_node_claim lo i in
      (
        make_token ∷ make_instance nc token ∷ make_node claim ∷ [],
        with_node claim (create_node w.nodes o claim i).1,
      )

  abbrev with_token :
      ExoscaleNodeClass → Result ApiError String → List LaunchStep × Result LaunchError NodeClaim
  with_token nc (err e) = (make_token ∷ [], err token_failed)
  with_token nc (ok token) = with_instance nc token (w.instance_for nc token)

  abbrev with_ready :
      ExoscaleNodeClass
      → Result LaunchError (Unit {0})
      → List LaunchStep × Result LaunchError NodeClaim
  with_ready nc (err e) = ([], err e)
  with_ready nc (ok u) = with_token nc w.token

  abbrev with_class :
      Result LaunchError ExoscaleNodeClass → List LaunchStep × Result LaunchError NodeClaim
  with_class (err e) = ([], err e)
  with_class (ok nc) = with_ready nc (check_ready (w.ready nc))

  -- `Create`
  unfoldable pub create_claim : NodeClaim → List LaunchStep × Result LaunchError NodeClaim
  create_claim claim = with_class (class_of w.node_class claim.node_class_ref)

  -- An instance may be launched for the NodeClass.
  abbrev pub Launchable : NodeClaim → ExoscaleNodeClass → Type 0
  Launchable claim nc =
      (ref : NodeClassRef) × (claim.node_class_ref ≡ some ref)
      × (w.node_class ref.name ≡ ok nc)
      × ((c : Condition) × (w.ready nc ≡ some c) × (c.status ≢ is_false))

  not_false :
      (st : ConditionStatus) (message : String) (u : Unit {0})
      → ready_status st message ≡ ok u
      → st ≢ is_false
  not_false is_true message u h e = ground arith
  not_false is_false message u h e = ground arith
  not_false is_unknown message u h e = ground arith

  check_ready_lem :
      (c : Option Condition) (u : Unit {0})
      → check_ready c ≡ ok u
      → (d : Condition) × (c ≡ some d) × (d.status ≢ is_false)
  check_ready_lem none u h = absurd (ground arith)
  check_ready_lem (some c) u h = (c, refl, not_false c.status c.message u h)

  class_of_lem :
      (r : Option NodeClassRef) (nc : ExoscaleNodeClass)
      → class_of w.node_class r ≡ ok nc
      → (ref : NodeClassRef) × (r ≡ some ref) × (w.node_class ref.name ≡ ok nc)
  class_of_lem none nc h = absurd (ground arith)
  class_of_lem (some ref) nc h = elim (Result-cases (w.node_class ref.name)) [
    | inr (e, p) ↦ absurd (let h' = rw p at h in ground arith)
    | inl (found, p) ↦ let same : found ≡ nc = ok_inj (rw p at h) in (ref, refl, p ∙ ap ok same)
  ]

  -- What a launch has come to.
  abbrev pub Launched : NodeClaim → ExoscaleNodeClass → String → Instance → NodeClaim → Type 0
  Launched claim nc token i c =
      Launchable claim nc
      × (w.token ≡ ok token)
      × (w.instance_for nc token ≡ ok i)
      × ((create_node w.nodes o (to_node_claim lo i) i).1 ≡ ok tt)
      × (c ≡ (let made = to_node_claim lo i in record made { node_name = made.name }))

  asked :
      (claim : NodeClaim) (nc nc' : ExoscaleNodeClass) (token t : String) (rest : List LaunchStep)
      → w.token ≡ ok token
      → Launchable claim nc
      → (¬ In (make_instance nc' t) rest)
      → In (make_instance nc' t) (make_token ∷ make_instance nc token ∷ rest)
      → Launchable claim nc' × (w.token ≡ ok t)
  asked claim nc nc' token t rest is able others (inl e) = absurd (ground arith)
  asked claim nc nc' token t rest is able others (inr (inl e)) =
      let same : nc' ≡ nc = cc in
      let same_token : t ≡ token = cc in (rw same able, rw same_token is)
  asked claim nc nc' token t rest is able others (inr (inr never)) = absurd (others never)

  token_lem :
      (claim : NodeClaim) (nc : ExoscaleNodeClass) (answer : Result ApiError String)
      → w.token ≡ answer
      → Launchable claim nc
      → ((nc' : ExoscaleNodeClass) (token : String)
          → In (make_instance nc' token) (with_token nc answer).0
          → Launchable claim nc' × (w.token ≡ ok token))
        × ((c : NodeClaim)
            → (with_token nc answer).1 ≡ ok c
            → (token : String) × (i : Instance) × Launched claim nc token i c)
  token_lem claim nc (err e) is able = (
    λ nc' token at. elim at [ inl e ↦ absurd (ground arith) | inr never ↦ absurd never ],
    λ c h. absurd (ground arith),
  )
  token_lem claim nc (ok token) is able = elim (Result-cases (w.instance_for nc token)) [
    | inr (e, p) ↦ rw p (
      λ nc' t at. asked claim nc nc' token t [] is able (λ never. never) at,
      λ c h. absurd (ground arith),
    )
    | inl (i, p) ↦ rw p (
      λ nc' t at.
          asked claim nc nc' token t (make_node (to_node_claim lo i) ∷ []) is able
            (λ in_last. elim in_last [ inl e ↦ ground arith | inr never ↦ never ]) at,
      λ c h. elim (Result-cases (create_node w.nodes o (to_node_claim lo i) i).1) [
        | inr (e, q) ↦ absurd (let h' = rw q at h in ground arith)
        | inl (u, q) ↦ (token, i, (able, is, p, q, sym (ok_inj (rw q at h))))
      ],
    )
  ]

  -- Whatever happens, an instance is asked for only if the NodeClass that the claim refers to was
  -- found, its condition `Ready` is there and not false, and the bootstrap token is that of the
  -- request. If the call succeeds, all of this holds, the instance was launched, its Node made, and
  -- the result is the NodeClaim of the instance, with its own name as the name of the Node.
  pub create_claim_lem :
      (claim : NodeClaim)
      → ((nc : ExoscaleNodeClass) (token : String)
          → In (make_instance nc token) (create_claim claim).0
          → Launchable claim nc × (w.token ≡ ok token))
        × ((c : NodeClaim)
            → (create_claim claim).1 ≡ ok c
            → (nc : ExoscaleNodeClass) × (token : String) × (i : Instance) × Launched claim nc token
                i c)
  unfolding create_claim
  create_claim_lem claim = elim (Result-cases (class_of w.node_class claim.node_class_ref)) [
    | inr (e, p) ↦ rw p (λ nc t never. absurd never, λ c h. absurd (ground arith))
    | inl (nc, p) ↦ elim (Result-cases (check_ready (w.ready nc))) [
      | inr (e, q) ↦ rw (p, q) (λ nc' t never. absurd never, λ c h. absurd (ground arith))
      | inl (u, q) ↦
          let (ref, refers, found) = class_of_lem claim.node_class_ref nc p in
          let (made, made_ok) =
            token_lem claim nc w.token refl
              (ref, refers, found, check_ready_lem (w.ready nc) u q) in
          rw (p, q) (made, λ c h. let (t, i, l) = made_ok c h in (nc, t, i, l))
    ]
  ]
