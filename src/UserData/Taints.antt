-- ===== src/UserData/Taints.antt =====
-- The taints of a node's configuration, pkg/providers/userdata/bootstrap/sks.go.
use karpenter_provider_exosc.Kube.{Taint}
use karpenter_provider_exosc.Prelude.{
  ◌≡◌, ◌↔◌, ◌⊎◌, refl, sym, subst, inl, inr, String, List, [], ◌∷◌, ◌++◌, Map, lookup-insert, In,
  In-append, In-append_left, In-append_right, contains, contains_iff, arith, eq_cases, Bool-cases,
  iff_trans,
}
use karpenter_provider_exosc.UserData.Bootstrap.{taint_string, taints_at, add_taint, add_taints}

-- No value occurs twice.
abbrev pub Unique : List String → Type 0
Unique [] = Unit
Unique (x ∷ xs) = (¬ In x xs) × Unique xs

-- Some taint of the list has this key and this text.
abbrev pub Tainted : List Taint → String → String → Type 0
Tainted ts k s = (t : Taint) × In t ts × (t.key ≡ k) × (taint_string t ≡ s)

Unique-snoc : (xs : List String) (s : String) → Unique xs → ¬ In s xs → Unique (xs ++ s ∷ [])
Unique-snoc [] s u n = (λ h. h, tt)
Unique-snoc (x ∷ xs) s (fresh, u) n = (
  λ h. elim (In-append x xs (s ∷ []) h) [
    | inl l ↦ fresh l
    | inr (inl e) ↦ n (inl (sym e))
    | inr (inr never) ↦ never
  ],
  Unique-snoc xs s u (λ h. n (inr h)),
)

-- The values of a key after one taint: they are as before, or the text of the taint, which is new,
-- stands behind them.
module _ (m : Map (List String)) (t : Taint) (k : String) where
  abbrev Kept : Type 0
  Kept =
      (taints_at k (add_taint m t) ≡ taints_at k m)
      × (t.key ≡ k → In (taint_string t) (taints_at k m))

  abbrev Added : Type 0
  Added =
      (taints_at k (add_taint m t) ≡ taints_at k m ++ taint_string t ∷ [])
      × (t.key ≡ k)
      × (¬ In (taint_string t) (taints_at k m))

  add_taint-cases : Kept ⊎ Added
  unfolding add_taint
  add_taint-cases = elim (Bool-cases (contains (taints_at t.key m) (taint_string t))) [
    | inl e ↦ rw e (
        inl (
          refl,
          λ same.
              subst (λ j. In (taint_string t) (taints_at j m)) same
                ((contains_iff (taints_at t.key m) (taint_string t)).0 e),
        ))
    | inr e ↦
        let fresh : ¬ In (taint_string t) (taints_at t.key m) =
          λ at. let c = (contains_iff (taints_at t.key m) (taint_string t)).1 at in ground arith in
        let found = lookup-insert t.key k (taints_at t.key m ++ taint_string t ∷ []) m in
        elim (eq_cases t.key k) [
          | inl (q, same) ↦
              rw (e, found, q)
                (inr (
                  subst
                      (λ j.
                        taints_at t.key m ++ taint_string t ∷ []
                        ≡ taints_at j m ++ taint_string t ∷ [])
                      same refl,
                  same,
                  subst (λ j. ¬ In (taint_string t) (taints_at j m)) same fresh,
                ))
          | inr (q, differ) ↦ rw (e, found, q) (inl (refl, λ same. absurd (differ same)))
        ]
  ]

  add_taint-In :
      (s : String)
      → In s (taints_at k (add_taint m t))
        ↔ (In s (taints_at k m) ⊎ ((t.key ≡ k) × (taint_string t ≡ s)))
  add_taint-In s = elim add_taint-cases [
    | inl (e, there) ↦ rw e (
      λ h. inl h,
      λ h. elim h [ inl l ↦ l | inr (key, is) ↦ subst (λ x. In x (taints_at k m)) is (there key) ],
    )
    | inr (e, key, fresh) ↦ rw e (
      λ h. elim (In-append s (taints_at k m) (taint_string t ∷ []) h) [
        | inl l ↦ inl l
        | inr (inl is) ↦ inr (key, sym is)
        | inr (inr never) ↦ absurd never
      ],
      λ h. elim h [
        | inl l ↦ In-append_left s (taints_at k m) (taint_string t ∷ []) l
        | inr (same, is) ↦ In-append_right s (taints_at k m) (taint_string t ∷ []) (inl (sym is))
      ],
    )
  ]

  add_taint-Unique : Unique (taints_at k m) → Unique (taints_at k (add_taint m t))
  add_taint-Unique u = elim add_taint-cases [
    | inl (e, there) ↦ rw e u
    | inr (e, key, fresh) ↦ rw e (Unique-snoc (taints_at k m) (taint_string t) u fresh)
  ]

add_taints-In :
    (ts : List Taint) (m : Map (List String)) (k s : String)
    → In s (taints_at k (add_taints m ts)) ↔ (In s (taints_at k m) ⊎ Tainted ts k s)
unfolding add_taints
add_taints-In [] m k s =
    (λ h. inl h, λ h. elim h [ inl l ↦ l | inr (t, never, key, is) ↦ absurd never ])
add_taints-In (t ∷ ts) m k s =
    let step = add_taint-In m t k s in
    let rest = add_taints-In ts (add_taint m t) k s in
    (
      λ h. elim (rest.0 h) [
        | inr (u, at, key, is) ↦ inr (u, inr at, key, is)
        | inl l ↦ elim (step.0 l) [ inl old ↦ inl old | inr (key, is) ↦ inr (t, inl refl, key, is) ]
      ],
      λ h. rest.1 (elim h [
        | inl old ↦ inl (step.1 (inl old))
        | inr (u, inl same, key, is) ↦ inl (step.1 (inr (rw (← same) key, rw (← same) is)))
        | inr (u, inr at, key, is) ↦ inr (u, at, key, is)
      ]),
    )

add_taints-Unique :
    (ts : List Taint) (m : Map (List String)) (k : String)
    → Unique (taints_at k m)
    → Unique (taints_at k (add_taints m ts))
unfolding add_taints
add_taints-Unique [] m k u = u
add_taints-Unique (t ∷ ts) m k u = add_taints-Unique ts (add_taint m t) k (add_taint-Unique m t k u)

-- Under each key the configuration has exactly the texts of the taints with this key, each once.
pub add_taints_lem :
    (ts : List Taint) (k : String)
    → Unique (taints_at k (add_taints [] ts))
      × ((s : String) → In s (taints_at k (add_taints [] ts)) ↔ Tainted ts k s)
add_taints_lem ts k = (
  add_taints-Unique ts [] k tt,
  λ s.
      iff_trans (add_taints-In ts [] k s)
        (λ h. elim h [ inl never ↦ absurd never | inr r ↦ r ], λ r. inr r),
)
