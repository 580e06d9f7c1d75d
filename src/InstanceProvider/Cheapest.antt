-- ===== src/InstanceProvider/Cheapest.antt =====
-- `findCheapestInstanceType`. Prices are float64 in the source; here they are any type with a test
-- `<`, and the map may lack a price.

use karpenter_provider_exosc.Prelude.{
  ◌≡◌, refl, some_inj, sym, ap, ◌∙◌, subst, ◌⊎◌, inl, inr, Bool, true, false, not, ◌||◌, Option,
  none, some, String, List, [], ◌∷◌, Map, lookup, In, arith, if◌then◌else◌, Bool-cases,
  Option-cases,
}

module _ {Price : Type 0} (lt : Price → Price → Bool) (zero_price : Price) where
  -- The loop's variables.
  pub record Best : Type 0 where
    pub cheapest : String
    pub cheapest_price : Price
    pub found_valid_price : Bool

  unfoldable pub visit : Best → String → Option Price → Best
  visit b name none = b
  visit b name (some price) =
      if not b.found_valid_price || lt price b.cheapest_price
      then record { cheapest = name; cheapest_price = price; found_valid_price = true }
      else b

  unfoldable pub cheapest_loop : Map Price → List String → Best → Best
  cheapest_loop prices [] b = b
  cheapest_loop prices (name ∷ names) b =
      cheapest_loop prices names (visit b name (lookup name prices))

  abbrev price_or_zero : Option Price → Price
  price_or_zero none = zero_price
  price_or_zero (some p) = p

  -- `findCheapestInstanceType`
  unfoldable pub find_cheapest_instance_type : List String → Map Price → String
  find_cheapest_instance_type [] prices = ""
  find_cheapest_instance_type (name ∷ []) prices = name
  find_cheapest_instance_type (name ∷ other ∷ names) prices =
      (cheapest_loop prices (name ∷ other ∷ names) (record {
        cheapest = name;
        cheapest_price = price_or_zero (lookup name prices);
        found_valid_price = false;
      })).cheapest

  -- What the test does on numbers: it is asymmetric, and "not less" is transitive.
  module _ (lt_irrefl : (a : Price) → lt a a ≡ false)
      (lt_asym : (a b : Price) → lt a b ≡ true → lt b a ≡ false)
      (not_lt_trans : (a b c : Price) → lt b a ≡ false → lt c b ≡ false → lt c a ≡ false) where
    -- The name has a price that no priced name of the list undercuts.
    abbrev pub IsCheapest : Map Price → List String → String → Type 0
    IsCheapest prices names r =
        In r names
        × ((p : Price) × (lookup r prices ≡ some p)
            × ((name : String) (q : Price)
                → In name names
                → lookup name prices ≡ some q
                → lt q p ≡ false))

    visit-take :
        (b : Best) (name : String) (p : Price)
        → (b.found_valid_price ≡ false) ⊎ (lt p b.cheapest_price ≡ true)
        → visit b name (some p)
          ≡ record { cheapest = name; cheapest_price = p; found_valid_price = true }
    unfolding visit
    visit-take b name p h = ground arith

    visit-keep :
        (b : Best) (name : String) (p : Price)
        → b.found_valid_price ≡ true
        → lt p b.cheapest_price ≡ false
        → visit b name (some p) ≡ b
    unfolding visit
    visit-keep b name p found h = ground arith

    visit-found :
        (b : Best) (name : String) (o : Option Price)
        → b.found_valid_price ≡ true
        → let b' = visit b name o in
          (b'.found_valid_price ≡ true)
          × (lt b.cheapest_price b'.cheapest_price ≡ false)
          × (((b'.cheapest ≡ b.cheapest) × (b'.cheapest_price ≡ b.cheapest_price))
              ⊎ ((b'.cheapest ≡ name) × (o ≡ some b'.cheapest_price)))
          × ((q : Price) → o ≡ some q → lt q b'.cheapest_price ≡ false)
    unfolding visit
    visit-found b name none found =
        (found, lt_irrefl b.cheapest_price, inl (refl, refl), λ q e. absurd (ground arith))
    visit-found b name (some p) found = elim (Bool-cases (lt p b.cheapest_price)) [
      | inl less ↦ rw (visit-take b name p (inr less)) (
        refl,
        lt_asym p b.cheapest_price less,
        inr (refl, refl),
        λ q e. subst (λ x. lt x p ≡ false) (some_inj e) (lt_irrefl p),
      )
      | inr not_less ↦ rw (visit-keep b name p found not_less) (
        found,
        lt_irrefl b.cheapest_price,
        inl (refl, refl),
        λ q e. subst (λ x. lt x b.cheapest_price ≡ false) (some_inj e) not_less,
      )
    ]

    -- What is true of the variables after the loop, from a found price on.
    cheapest_loop-found :
        (prices : Map Price) (names : List String) (b : Best)
        → b.found_valid_price ≡ true
        → lookup b.cheapest prices ≡ some b.cheapest_price
        → let r = cheapest_loop prices names b in
          (lookup r.cheapest prices ≡ some r.cheapest_price)
          × (lt b.cheapest_price r.cheapest_price ≡ false)
          × ((r.cheapest ≡ b.cheapest) ⊎ In r.cheapest names)
          × ((name : String) (q : Price)
              → In name names
              → lookup name prices ≡ some q
              → lt q r.cheapest_price ≡ false)
    unfolding cheapest_loop
    cheapest_loop-found prices [] b found priced =
        (priced, lt_irrefl b.cheapest_price, inl refl, λ name q h e. absurd h)
    cheapest_loop-found prices (n ∷ names) b found priced =
        let b' = visit b n (lookup n prices) in
        let (found', le', from, bound) = visit-found b n (lookup n prices) found in
        let priced' : lookup b'.cheapest prices ≡ some b'.cheapest_price = elim from [
          | inl (s, t) ↦ ap (λ x. lookup x prices) s ∙ priced ∙ ap some (sym t)
          | inr (s, t) ↦ ap (λ x. lookup x prices) s ∙ t
        ] in
        let (priced_r, le_r, from_r, bound_r) =
          cheapest_loop-found prices names b' found' priced' in
        (
          priced_r,
          not_lt_trans _ b'.cheapest_price b.cheapest_price le_r le',
          elim from_r [
            | inr later ↦ inr (inr later)
            | inl same ↦ elim from [
              | inl (s, t) ↦ inl (same ∙ s)
              | inr (s, t) ↦ inr (inl (same ∙ s))
            ]
          ],
          λ name q at e. elim at [
            | inl same ↦ not_lt_trans _ b'.cheapest_price q le_r (bound q (rw same at e))
            | inr later ↦ bound_r name q later e
          ],
        )

    -- The same from the start, if some name has a price.
    cheapest_loop-start :
        (prices : Map Price) (names : List String) (b : Best) (name : String) (q : Price)
        → b.found_valid_price ≡ false
        → In name names
        → lookup name prices ≡ some q
        → IsCheapest prices names (cheapest_loop prices names b).cheapest
    unfolding cheapest_loop visit
    cheapest_loop-start prices [] b name q fresh at priced = absurd at
    cheapest_loop-start prices (n ∷ names) b name q fresh at priced =
        elim (Option-cases (lookup n prices)) [
          | inl e ↦
              let skip : visit b n (lookup n prices) ≡ b = rw (e, visit) in
              let there : In name names = elim at [
                | inl same ↦ absurd (let e' = rw same at priced in ground arith)
                | inr later ↦ later
              ] in
              let (in_r, (p, priced_r, bound)) =
                cheapest_loop-start prices names b name q fresh there priced in
              subst (λ (r : Best). IsCheapest prices (n ∷ names) r.cheapest)
                (sym (ap (cheapest_loop prices names) skip))
                (
                  inr in_r,
                  (
                    p,
                    priced_r,
                    λ name' q' at' e'. elim at' [
                      | inl same ↦ absurd (let f = rw same at e' in ground arith)
                      | inr later ↦ bound name' q' later e'
                    ],
                  ),
                )
          | inr (p, e) ↦
              let b₁ : Best = record {
                cheapest = n;
                cheapest_price = p;
                found_valid_price = true;
              } in
              let take : visit b n (lookup n prices) ≡ b₁ = rw e (visit-take b n p (inl fresh)) in
              let (priced_r, le_r, from_r, bound_r) = cheapest_loop-found prices names b₁ refl e in
              subst (λ (r : Best). IsCheapest prices (n ∷ names) r.cheapest)
                (sym (ap (cheapest_loop prices names) take))
                (
                  from_r,
                  (
                    (cheapest_loop prices names b₁).cheapest_price,
                    priced_r,
                    λ name' q' at' e'. elim at' [
                      | inl same ↦
                          let f : p ≡ q' = some_inj (sym e ∙ rw same at e') in
                          subst (λ x. lt x (cheapest_loop prices names b₁).cheapest_price ≡ false) f
                            le_r
                      | inr later ↦ bound_r name' q' later e'
                    ],
                  ),
                )
        ]

    -- If a name of the list has a price, the result is a name of the list with the least price.
    pub find_cheapest_instance_type-IsCheapest :
        (prices : Map Price) (names : List String) (name : String) (q : Price)
        → In name names
        → lookup name prices ≡ some q
        → IsCheapest prices names (find_cheapest_instance_type names prices)
    unfolding find_cheapest_instance_type
    find_cheapest_instance_type-IsCheapest prices [] name q at priced = absurd at
    find_cheapest_instance_type-IsCheapest prices (n ∷ []) name q (inr later) priced = absurd later
    find_cheapest_instance_type-IsCheapest prices (n ∷ []) name q (inl same) priced =
        let here : lookup n prices ≡ some q = rw same at priced in
        (
          inl refl,
          (
            q,
            here,
            λ name' q' at' e'. elim at' [
              | inl same' ↦
                  let f : q ≡ q' = some_inj (sym here ∙ rw same' at e') in
                  subst (λ x. lt x q ≡ false) f (lt_irrefl q)
              | inr later ↦ absurd later
            ],
          ),
        )
    find_cheapest_instance_type-IsCheapest prices (n ∷ o ∷ names) name q at priced =
        cheapest_loop-start prices (n ∷ o ∷ names) _ name q refl at priced
