-- ===== src/NodeClassController/Resolution.antt =====
-- What the resolution of IDs and selector terms returns,
-- pkg/controllers/nodeclass/controller_reconcilers.go.
use karpenter_provider_exosc.Kube.{ApiError}
use karpenter_provider_exosc.NodeClass.{SelectorTerms}
use karpenter_provider_exosc.Prelude.{
  ◌≡◌, ◌≢◌, ◌↔◌, ◌⊎◌, refl, sym, ap, ◌∙◌, inl, inr, Option, none, some, String, List, ◌++◌, In,
  Result, ok, err, collect, collect-Each, In-collect_err, Each, ok_inj, arith, eq_cases,
  Result-cases,
}
use karpenter_provider_exosc.NodeClassController.Selectors.{
  StepError, nil_dereference, elastic_ip_selector_empty, resolve_id, resolve_name, resolve_term,
  resolve_all, resolve_elastic_ips,
}

module _ {R : Type 0} (id_of : R → String) (lookup_id : String → Result ApiError R)
    (lookup_name : String → Result ApiError (Option R)) where
  -- The ID of the resource that the API returns for an ID, or that the lookup of a name finds.
  abbrev pub ById : String → String → Type 0
  ById id out = (r : R) × (lookup_id id ≡ ok r) × (out ≡ id_of r)

  abbrev pub ByName : String → String → Type 0
  ByName name out = (r : R) × (lookup_name name ≡ ok (some r)) × (out ≡ id_of r)

  abbrev pub ByTerm : SelectorTerms → String → Type 0
  ByTerm t out = ((t.id ≢ "") × ById t.id out) ⊎ ((t.id ≡ "") × ((t.name ≢ "") × ByName t.name out))

  resolve_id_lem :
      (id out : String) → (resolve_id id_of lookup_id lookup_name id ≡ ok out) ↔ ById id out
  unfolding resolve_id
  resolve_id_lem id out = elim (Result-cases (lookup_id id)) [
    | inr (e, p) ↦ rw p (λ q. absurd (ground arith), λ (r, q, is). absurd (ground arith))
    | inl (r, p) ↦ rw p (
      λ q. (r, refl, sym (ok_inj q)),
      λ (r', q, is). let same : r ≡ r' = ok_inj q in ap ok (ap id_of same ∙ sym is),
    )
  ]

  resolve_name_lem :
      (name out : String)
      → (resolve_name id_of lookup_id lookup_name name ≡ ok out) ↔ ByName name out
  unfolding resolve_name
  resolve_name_lem name out = elim (Result-cases (lookup_name name)) [
    | inr (e, p) ↦ rw p (λ q. absurd (ground arith), λ (r, q, is). absurd (ground arith))
    | inl (none, p) ↦ rw p (λ q. absurd (ground arith), λ (r, q, is). absurd (ground arith))
    | inl (some r, p) ↦ rw p (
      λ q. (r, refl, sym (ok_inj q)),
      λ (r', q, is). let same : r ≡ r' = ground arith in ap ok (ap id_of same ∙ sym is),
    )
  ]

  resolve_term_lem :
      (otherwise : StepError) (t : SelectorTerms) (out : String)
      → (resolve_term id_of lookup_id lookup_name otherwise t ≡ ok out) ↔ ByTerm t out
  unfolding resolve_term
  resolve_term_lem otherwise t out = elim (eq_cases t.id "") [
    | inr (e, n) ↦
        let by_id = resolve_id_lem t.id out in
        rw e (
          λ q. inl (n, by_id.0 q),
          λ h. elim h [ inl (m, b) ↦ by_id.1 b | inr (same, r) ↦ absurd (n same) ],
        )
    | inl (e, same) ↦ elim (eq_cases t.name "") [
      | inr (f, n) ↦
          let by_name = resolve_name_lem t.name out in
          rw (e, f)
            (
              λ q. inr (same, (n, by_name.0 q)),
              λ h. elim h [ inl (m, b) ↦ absurd (m same) | inr (s, (m, b)) ↦ by_name.1 b ],
            )
      | inl (f, blank) ↦
          rw (e, f)
            (
              λ q. absurd (ground arith),
              λ h. elim h [ inl (m, b) ↦ absurd (m same) | inr (s, (m, b)) ↦ absurd (m blank) ],
            )
    ]
  ]

  -- The step for security groups, anti-affinity groups or private networks succeeds with a list
  -- exactly if the list has, in order, for each ID of the deprecated field the ID of the resource that
  -- the API returns, and for each selector term the ID of the resource of its ID, or, where the term
  -- has no ID but a name, of the resource that the lookup finds.
  pub resolve_all_iff :
      (ids : List String) (terms : List SelectorTerms) (out : List String)
      → (resolve_all id_of lookup_id lookup_name ids terms ≡ ok out) ↔ (
          (a : List String) × (b : List String) × (out ≡ a ++ b)
          × (Each ById ids a × Each ByTerm terms b))
  unfolding resolve_all
  resolve_all_iff ids terms out =
      let look = resolve_id id_of lookup_id lookup_name in
      let select = resolve_term id_of lookup_id lookup_name nil_dereference in
      let first = collect-Each look ById resolve_id_lem ids in
      let second = collect-Each select ByTerm (resolve_term_lem nil_dereference) terms in
      elim (Result-cases (collect look ids)) [
        | inr (e, p) ↦ rw p (
          λ q. absurd (ground arith),
          λ (a, b, is, (ea, eb)). absurd (let f = (first a).1 ea in ground arith),
        )
        | inl (a, p) ↦ elim (Result-cases (collect select terms)) [
          | inr (e, q) ↦
              rw (p, q)
                (
                  λ r. absurd (ground arith),
                  λ (a', b, is, (ea, eb)). absurd (let f = (second b).1 eb in ground arith),
                )
          | inl (b, q) ↦
              rw (p, q)
                (
                  λ r. (a, b, sym (ok_inj r), ((first a).0 p, (second b).0 q)),
                  λ (a', b', is, (ea, eb)).
                      let same_a : a ≡ a' = ok_inj (sym p ∙ (first a').1 ea) in
                      let same_b : b ≡ b' = ok_inj (sym q ∙ (second b').1 eb) in
                      rw (is, same_a, same_b) refl,
                )
        ]
      ]

  no_panic_id : (id : String) → resolve_id id_of lookup_id lookup_name id ≢ err nil_dereference
  unfolding resolve_id
  no_panic_id id h = elim (Result-cases (lookup_id id)) [
    | inl (r, p) ↦ let h' = rw p at h in ground arith
    | inr (e, p) ↦ let h' = rw p at h in ground arith
  ]

  no_panic_name :
      (name : String) → resolve_name id_of lookup_id lookup_name name ≢ err nil_dereference
  unfolding resolve_name
  no_panic_name name h = elim (Result-cases (lookup_name name)) [
    | inl (some r, p) ↦ let h' = rw p at h in ground arith
    | inl (none, p) ↦ let h' = rw p at h in ground arith
    | inr (e, p) ↦ let h' = rw p at h in ground arith
  ]

  panic_term :
      (otherwise : StepError) (t : SelectorTerms)
      → resolve_term id_of lookup_id lookup_name otherwise t ≡ err nil_dereference
      → (t.id ≡ "") × (t.name ≡ "") × (otherwise ≡ nil_dereference)
  unfolding resolve_term
  panic_term otherwise t h = elim (eq_cases t.id "") [
    | inr (e, n) ↦ absurd (no_panic_id t.id (rw e at h))
    | inl (e, same) ↦ elim (eq_cases t.name "") [
      | inr (f, n) ↦ absurd (no_panic_name t.name (rw (e, f) at h))
      | inl (f, blank) ↦ (same, blank, let h' = rw (e, f) at h in ground arith)
    ]
  ]

  -- The step for security groups, anti-affinity groups or private networks panics only at a selector
  -- term without ID and name; the step for elastic IPs never does.
  pub resolve_all_panics :
      ((ids : List String) (terms : List SelectorTerms)
        → resolve_all id_of lookup_id lookup_name ids terms ≡ err nil_dereference
        → (t : SelectorTerms) × In t terms × (t.id ≡ "") × (t.name ≡ ""))
      × ((terms : List SelectorTerms)
          → resolve_elastic_ips id_of lookup_id lookup_name terms ≢ err nil_dereference)
  unfolding resolve_all resolve_elastic_ips
  resolve_all_panics = (
    λ ids terms h. elim (Result-cases (collect (resolve_id id_of lookup_id lookup_name) ids)) [
      | inr (e, p) ↦
          let same : e ≡ nil_dereference = let h' = rw p at h in ground arith in
          let (id, at, q) =
            In-collect_err (resolve_id id_of lookup_id lookup_name) ids nil_dereference
              (p ∙ ap err same) in
          absurd (no_panic_id id q)
      | inl (a, p) ↦
          elim (Result-cases
            (collect (resolve_term id_of lookup_id lookup_name nil_dereference) terms)) [
              | inl (b, q) ↦ absurd (let h' = rw (p, q) at h in ground arith)
              | inr (e, q) ↦
                  let same : e ≡ nil_dereference = let h' = rw (p, q) at h in ground arith in
                  let (t, at, r) =
                    In-collect_err (resolve_term id_of lookup_id lookup_name nil_dereference) terms
                      nil_dereference (q ∙ ap err same) in
                  let (blank_id, blank_name, _) = panic_term nil_dereference t r in
                  (t, at, blank_id, blank_name)
            ]
    ],
    λ terms h.
        let (t, at, r) =
          In-collect_err (resolve_term id_of lookup_id lookup_name elastic_ip_selector_empty) terms
            nil_dereference h in
        let (_, _, never) = panic_term elastic_ip_selector_empty t r in ground arith,
  )
