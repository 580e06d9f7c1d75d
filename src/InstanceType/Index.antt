-- ===== src/InstanceType/Index.antt =====
-- What the index holds after a refresh.
use karpenter_provider_exosc.InstanceType.Defs.{
  ListedType, is_authorized, in_zone, type_name, InstanceType, Provider, create_instance_type,
  build_loop, build_instance_types, refresh, get_by_id, find_id, get_id_for_name,
}
use karpenter_provider_exosc.Prelude.{
  ◌≡◌, ◌≢◌, ◌⊎◌, refl, sym, ap, ◌∙◌, inl, inr, true, none, some, String, List, [], ◌∷◌, In, Map,
  lookup, insert, lookup-insert, ok, arith, ◌==◌, eq_iff, eq_cases, Bool-cases,
}

module _ (Price : Type 0) (max_price : Price) where
  -- The provider offers the type in its zone.
  abbrev pub IsOffered : String → ListedType → Type 0
  IsOffered zone t = (is_authorized t.authorized ≡ true) × (in_zone t.zones zone ≡ true)

  module _ (zone : String) (prices : Map Price) where
    abbrev made : ListedType → InstanceType Price max_price
    made t = create_instance_type Price max_price zone prices (type_name t) t

    -- An entry of the index by ID comes from an offered type of the list.
    abbrev pub ComesFrom : List ListedType → String × InstanceType Price max_price → Type 0
    ComesFrom ts e = (t : ListedType) × In t ts × (e ≡ (t.id, made t)) × IsOffered zone t

    In-insert :
        (k : String) (v : InstanceType Price max_price) (m : Map (InstanceType Price max_price))
        (e : String × InstanceType Price max_price)
        → In e (insert k v m)
        → (e ≡ (k, v)) ⊎ In e m
    In-insert k v [] e (inl same) = inl same
    In-insert k v [] e (inr h) = absurd h
    In-insert k v ((j, w) ∷ m) e h = elim (Bool-cases (j == k)) [
      | inl f ↦ elim (rw f at h) [ inl same ↦ inl same | inr rest ↦ inr (inr rest) ]
      | inr f ↦ elim (rw f at h) [
        | inl same ↦ inr (inl same)
        | inr rest ↦ elim (In-insert k v m e rest) [ inl same ↦ inl same | inr old ↦ inr (inr old) ]
      ]
    ]

    ComesFrom-later :
        (t : ListedType) (ts : List ListedType) (e : String × InstanceType Price max_price)
        → ComesFrom ts e
        → ComesFrom (t ∷ ts) e
    ComesFrom-later t ts e (x, at, same, offered) = (x, inr at, same, offered)

    build_loop_sound :
        (ts : List ListedType) (by_name by_id : Map (InstanceType Price max_price))
        (e : String × InstanceType Price max_price)
        → In e (build_loop Price max_price zone prices ts by_name by_id).1
        → In e by_id ⊎ ComesFrom ts e
    unfolding build_loop
    build_loop_sound [] by_name by_id e h = inl h
    build_loop_sound (t ∷ ts) by_name by_id e h = elim (Bool-cases (is_authorized t.authorized)) [
      | inr a ↦ later (build_loop_sound ts by_name by_id e (rw a at h))
      | inl a ↦ elim (Bool-cases (in_zone t.zones zone)) [
        | inr z ↦ later (build_loop_sound ts by_name by_id e (rw (a, z) at h))
        | inl z ↦ elim (build_loop_sound ts _ _ e (rw (a, z) at h)) [
          | inr found ↦ inr (ComesFrom-later t ts e found)
          | inl old ↦ elim (In-insert t.id (made t) by_id e old) [
            | inl new ↦ inr (t, inl refl, new, (a, z))
            | inr older ↦ inl older
          ]
        ]
      ]
    ]
      where
        later : In e by_id ⊎ ComesFrom ts e → In e by_id ⊎ ComesFrom (t ∷ ts) e
        later (inl old) = inl old
        later (inr found) = inr (ComesFrom-later t ts e found)

    insert_keeps :
        (k id : String) (v : InstanceType Price max_price) (m : Map (InstanceType Price max_price))
        → lookup id m ≢ none
        → lookup id (insert k v m) ≢ none
    insert_keeps k id v m h = ground (arith, lookup-insert k id v m)

    build_loop_keeps :
        (ts : List ListedType) (by_name by_id : Map (InstanceType Price max_price)) (id : String)
        → lookup id by_id ≢ none
        → lookup id (build_loop Price max_price zone prices ts by_name by_id).1 ≢ none
    unfolding build_loop
    build_loop_keeps [] by_name by_id id h = h
    build_loop_keeps (t ∷ ts) by_name by_id id h = elim (Bool-cases (is_authorized t.authorized)) [
      | inr a ↦ rw a (build_loop_keeps ts by_name by_id id h)
      | inl a ↦ elim (Bool-cases (in_zone t.zones zone)) [
        | inr z ↦ rw (a, z) (build_loop_keeps ts by_name by_id id h)
        | inl z ↦ rw (a, z) (build_loop_keeps ts _ _ id (insert_keeps t.id id (made t) by_id h))
      ]
    ]

    build_loop_complete :
        (ts : List ListedType) (by_name by_id : Map (InstanceType Price max_price)) (x : ListedType)
        → In x ts
        → IsOffered zone x
        → lookup x.id (build_loop Price max_price zone prices ts by_name by_id).1 ≢ none
    unfolding build_loop
    build_loop_complete [] by_name by_id x at offered = absurd at
    build_loop_complete (t ∷ ts) by_name by_id x (inl same) offered =
        let (a, z) = rw same at offered in
        rw (same, a, z)
          (build_loop_keeps ts _ _ t.id
            (λ h. ground (arith, lookup-insert t.id t.id (made t) by_id, eq_iff t.id t.id)))
    build_loop_complete (t ∷ ts) by_name by_id x (inr at) offered =
        elim (Bool-cases (is_authorized t.authorized)) [
          | inr a ↦ rw a (build_loop_complete ts by_name by_id x at offered)
          | inl a ↦ elim (Bool-cases (in_zone t.zones zone)) [
            | inr z ↦ rw (a, z) (build_loop_complete ts by_name by_id x at offered)
            | inl z ↦ rw (a, z) (build_loop_complete ts _ _ x at offered)
          ]
        ]

  In-lookup :
      (m : Map (InstanceType Price max_price)) (id : String) (it : InstanceType Price max_price)
      → lookup id m ≡ some it
      → In (id, it) m
  In-lookup [] id it h = absurd (ground arith)
  In-lookup ((j, v) ∷ m) id it h = elim (eq_cases j id) [
    | inl (e, same) ↦ inl (ground arith)
    | inr (e, unlike) ↦ inr (In-lookup m id it (rw e at h))
  ]

  In-find_id :
      (m : Map (InstanceType Price max_price)) (name id : String)
      → find_id Price max_price name m ≡ some id
      → (it : InstanceType Price max_price) × In (id, it) m × (it.name ≡ name)
  unfolding find_id
  In-find_id [] name id h = absurd (ground arith)
  In-find_id ((j, v) ∷ m) name id h = elim (eq_cases v.name name) [
    | inl (e, same) ↦ (v, inl (ground arith), same)
    | inr (e, unlike) ↦
        let (it, at, named) = In-find_id m name id (rw e at h) in (it, inr at, named)
  ]

  -- After a refresh that succeeds with the API's list of types: what is found by an ID is what the
  -- provider tells of a listed, authorized type of that ID in its zone; for each such type something
  -- is found by its ID; and the ID that is found for a name is that of such a type of this name.
  pub refresh_lem :
      (p : Provider Price max_price) (types : List ListedType)
      → let after = (refresh Price max_price p (ok types)).0 in
        ((id : String) (it : InstanceType Price max_price)
          → get_by_id Price max_price after id ≡ some it
          → ComesFrom p.zone p.prices types (id, it))
        × ((t : ListedType)
            → In t types
            → IsOffered p.zone t
            → get_by_id Price max_price after t.id ≢ none)
        × ((name id : String)
            → get_id_for_name Price max_price after name ≡ some id
            → (t : ListedType) × In t types
              × (t.id ≡ id)
              × (type_name t ≡ name)
              × IsOffered p.zone t)
  unfolding refresh build_instance_types get_by_id get_id_for_name create_instance_type
  refresh_lem p types = (
    λ id it h. from_list (id, it) (In-lookup _ id it h),
    λ t at offered. build_loop_complete p.zone p.prices types [] [] t at offered,
    λ name id h.
        let (it, at, named) = In-find_id _ name id h in
        let (t, there, same, offered) = from_list (id, it) at in
        (t, there, ap (λ x. x.0) (sym same), ap (λ x. x.1.name) (sym same) ∙ named, offered),
  )
    where
      from_list :
          (e : String × InstanceType Price max_price)
          → In e (build_loop Price max_price p.zone p.prices types [] []).1
          → ComesFrom p.zone p.prices types e
      from_list e h = elim (build_loop_sound p.zone p.prices types [] [] e h) [
        | inl none_yet ↦ absurd none_yet
        | inr found ↦ found
      ]
