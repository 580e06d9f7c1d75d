-- ===== src/InstanceProvider/Attached.antt =====
-- What a creation leaves attached, and when it takes the instance back.
use karpenter_provider_exosc.Kube.{ApiError, NodeClaim}
use karpenter_provider_exosc.NodeClass.{ExoscaleNodeClass}
use karpenter_provider_exosc.Instance.{ExoInstance, Instance, from_exoscale_instance}
use karpenter_provider_exosc.InstanceProvider.Labels.{Options}
use karpenter_provider_exosc.InstanceProvider.Attach.{AttachError}
use karpenter_provider_exosc.InstanceProvider.Creation.{
  CreateRequest, CreateError, networks_failed, addresses_failed, Request, create_instance,
  attach_network, attach_address, delete_instance, converted, Surroundings, attach_each, settle,
  create, build_request, built, sent, got, chosen_type, no_instance,
}
use karpenter_provider_exosc.Prelude.{
  ◌≡◌, ◌⊎◌, refl, ap, ◌∙◌, inl, inr, Bool, true, false, Option-cases, none, some, String, List, [],
  ◌∷◌, ◌++◌, In, In-append, In-append_left, In-append_right, Result, ok, err, arith, Bool-cases,
  Result-cases,
}

module _ (Price : Type 0) (lt : Price → Price → Bool) (zero_price : Price) where
  attach_each_all :
      (request : String → Request) (attach : String → Result AttachError (Unit {0}))
      (xs : List String)
      → (attach_each Price lt zero_price request attach xs).1 ≡ true
      → (x : String) → In x xs
      → In (request x) (attach_each Price lt zero_price request attach xs).0
  unfolding attach_each
  attach_each_all request attach [] all x at = absurd at
  attach_each_all request attach (y ∷ ys) all x at = elim (Result-cases (attach y)) [
    | inr (e, f) ↦ absurd (let a = rw f at all in ground arith)
    | inl (u, f) ↦ rw f (elim at [
      | inl same ↦ inl (ap request same)
      | inr later ↦ inr (attach_each_all request attach ys (rw f at all) x later)
    ])
  ]

  attach_each_only :
      (request : String → Request) (attach : String → Result AttachError (Unit {0}))
      (xs : List String) (r : Request)
      → In r (attach_each Price lt zero_price request attach xs).0
      → (x : String) × (r ≡ request x)
  unfolding attach_each
  attach_each_only request attach [] r at = absurd at
  attach_each_only request attach (y ∷ ys) r at = elim (Result-cases (attach y)) [
    | inr (e, f) ↦ elim (rw f at at) [ inl same ↦ (y, same) | inr never ↦ absurd never ]
    | inl (u, f) ↦ elim (rw f at at) [
      | inl same ↦ (y, same)
      | inr later ↦ attach_each_only request attach ys r later
    ]
  ]

  attach_each_answers :
      (request : String → Request) (attach : String → Result AttachError (Unit {0}))
      (xs : List String)
      → ((attach_each Price lt zero_price request attach xs).1 ≡ true
          → (x : String) → In x xs
          → attach x ≡ ok tt)
        × ((attach_each Price lt zero_price request attach xs).1 ≡ false
            → (x : String) × (e : AttachError) × In x xs × (attach x ≡ err e))
  unfolding attach_each
  attach_each_answers request attach [] = (λ all x at. absurd at, λ h. absurd (ground arith))
  attach_each_answers request attach (y ∷ ys) =
      let (all_later, fails_later) = attach_each_answers request attach ys in
      elim (Result-cases (attach y)) [
        | inr (e, f) ↦ rw f (λ h. absurd (ground arith), λ h. (y, e, inl refl, f))
        | inl (u, f) ↦ rw f (
          λ all x at. elim at [ inl same ↦ rw same f | inr later ↦ all_later all x later ],
          λ h. let (x, e, at, g) = fails_later h in (x, e, inr at, g),
        )
      ]

  module _ (s : Surroundings Price lt zero_price) where
    -- Every network and every elastic IP of the NodeClass was attached to the instance, as requests
    -- that succeeded, and no instance was deleted.
    abbrev pub IsComplete : ExoscaleNodeClass → String → List Request → Type 0
    IsComplete nc id log =
        ((n : String)
          → In n nc.status.private_networks
          → In (attach_network id n) log × (s.attach_network n ≡ ok tt))
        × ((a : String)
            → In a nc.status.elastic_ips
            → In (attach_address id a) log × (s.attach_address a ≡ ok tt))
        × ((other_id : String) → ¬ In (delete_instance other_id) log)

    -- Some request of a list failed.
    abbrev pub Fails : (String → Result AttachError (Unit {0})) → List String → Type 0
    Fails attach xs = (x : String) × (e : AttachError) × In x xs × (attach x ≡ err e)

    -- The result where everything was attached.
    abbrev pub IsResult : String → Result CreateError Instance → Type 0
    IsResult id r =
        ((i : Instance) × (r ≡ ok i) × (i.id ≡ id))
        ⊎ ((s.capacity_of (chosen_type Price lt zero_price s) ≡ none) × (r ≡ err no_instance))

    abbrev pub Settles :
        ExoscaleNodeClass → String → List Request × Result CreateError Instance → Type 0
    Settles nc id r =
        (IsComplete nc id r.0 × IsResult id r.1)
        ⊎ (Fails s.attach_network nc.status.private_networks
            × (r.1 ≡ err networks_failed)
            × In (delete_instance id) r.0)
        ⊎ (((n : String) → In n nc.status.private_networks → s.attach_network n ≡ ok tt)
            × Fails s.attach_address nc.status.elastic_ips
            × (r.1 ≡ err addresses_failed)
            × In (delete_instance id) r.0)

    converted-IsResult :
        (x : ExoInstance) (zone : String)
        → IsResult x.id (
            converted Price lt zero_price (
              from_exoscale_instance
                (some x)
                (s.capacity_of (chosen_type Price lt zero_price s))
                zone))
    unfolding from_exoscale_instance
    converted-IsResult x zone =
        elim (Option-cases (s.capacity_of (chosen_type Price lt zero_price s))) [
          | inl e ↦ rw e (inr (refl, refl))
          | inr (capacity, e) ↦ rw e (inl (_, refl, refl))
        ]

  module _ (s : Surroundings Price lt zero_price) (o : Options) (nc : ExoscaleNodeClass)
      (x : ExoInstance) where
    attached_all :
        let nets =
          attach_each Price lt zero_price
            (attach_network x.id)
            s.attach_network
            nc.status.private_networks in
        let ips =
          attach_each Price lt zero_price
            (attach_address x.id)
            s.attach_address
            nc.status.elastic_ips in
        nets.1 ≡ true → ips.1 ≡ true → IsComplete s nc x.id (nets.0 ++ ips.0)
    attached_all n a =
        let request_n = attach_network x.id in
        let request_a = attach_address x.id in
        let nets =
          attach_each Price lt zero_price request_n s.attach_network nc.status.private_networks in
        let ips =
          attach_each Price lt zero_price request_a s.attach_address nc.status.elastic_ips in
        (
          λ m at. (
            In-append_left _ nets.0 ips.0 (attach_each_all request_n s.attach_network _ n m at),
            (attach_each_answers request_n s.attach_network _).0 n m at,
          ),
          λ m at. (
            In-append_right _ nets.0 ips.0 (attach_each_all request_a s.attach_address _ a m at),
            (attach_each_answers request_a s.attach_address _).0 a m at,
          ),
          λ id at. elim (In-append (delete_instance id) nets.0 ips.0 at) [
            | inl early ↦
                let (m, e) = attach_each_only request_n s.attach_network _ _ early in
                absurd (ground arith)
            | inr late ↦
                let (m, e) = attach_each_only request_a s.attach_address _ _ late in
                absurd (ground arith)
          ],
        )

    settle_lem : Settles s nc x.id (settle Price lt zero_price s o nc x)
    unfolding settle
    settle_lem =
        let request_n = attach_network x.id in
        let request_a = attach_address x.id in
        let nets =
          attach_each Price lt zero_price request_n s.attach_network nc.status.private_networks in
        let ips =
          attach_each Price lt zero_price request_a s.attach_address nc.status.elastic_ips in
        let (all_n, fails_n) = attach_each_answers request_n s.attach_network _ in
        let (all_a, fails_a) = attach_each_answers request_a s.attach_address _ in
        elim (Bool-cases nets.1) [
          | inr f ↦ rw f (inr (inl (fails_n f, refl, In-append_right _ nets.0 _ (inl refl))))
          | inl n ↦ elim (Bool-cases ips.1) [
            | inr f ↦
                rw (n, f)
                  (inr (
                    inr
                      (all_n n, fails_a f, refl, In-append_right _ (nets.0 ++ ips.0) _ (inl refl))))
            | inl a ↦ rw (n, a) (inl (attached_all n a, converted-IsResult s _ o.zone))
          ]
        ]

    -- Where the request could be built and sent and the new instance was found, the call asks to
    -- create the instance first, and then one of three holds. Every request to attach a network or an
    -- elastic IP of the NodeClass was sent and succeeded, no deletion was asked for, and the result is
    -- the new instance, or an error if the capacity of its type is unknown. Or attaching some network
    -- failed, the call fails with this and asks to delete the new instance. Or all networks were
    -- attached, attaching some elastic IP failed, the call fails with this and asks to delete the new
    -- instance.
    pub create-Settles :
        (claim : NodeClaim) (request : CreateRequest) (id : String)
        → build_request Price lt zero_price s o nc claim ≡ ok request
        → s.create request ≡ ok id
        → s.get_instance id ≡ ok x
        → let r = create Price lt zero_price s o nc claim in
          (later : List Request) × (r.0 ≡ create_instance request ∷ later)
          × Settles s nc x.id (later, r.1)
    unfolding create
    create-Settles claim request id b c g =
        let e : create Price lt zero_price s o nc claim ≡ (
          create_instance request ∷ (settle Price lt zero_price s o nc x).0,
          (settle Price lt zero_price s o nc x).1,
        ) =
          ap (built Price lt zero_price s o nc) b
          ∙ ap
              (λ (y : Result ApiError String). (
                create_instance request ∷ (sent Price lt zero_price s o nc y).0,
                (sent Price lt zero_price s o nc y).1,
              ))
              c
          ∙ ap
              (λ (y : Result ApiError ExoInstance). (
                create_instance request ∷ (got Price lt zero_price s o nc y).0,
                (got Price lt zero_price s o nc y).1,
              ))
              g in
        ((settle Price lt zero_price s o nc x).0, ap (λ z. z.0) e, rw e settle_lem)
