-- ===== src/NodeClassController/Fingerprint.antt =====
-- What the configuration hash depends on,
-- pkg/controllers/nodeclass/controller_reconcilers.go.
use mathlib.Core.List.{Perm}
use karpenter_provider_exosc.Kube.{ApiError}
use karpenter_provider_exosc.NodeClass.{ExoscaleNodeClass, KubeletConfiguration}
use karpenter_provider_exosc.Prelude.{
  ℕ, ◌≡◌, ◌≢◌, ◌↔◌, ◌⊎◌, refl, sym, ap, ◌∙◌, inl, inr, false, Option, none, some, String, List, [],
  ◌∷◌, ◌++◌, Map, Result, ok, arith, eq_iff, sort_strings, insert_by, sort_strings-Perm,
  Result-cases, ok_inj,
}
use karpenter_provider_exosc.UserData.Bootstrap.{is_empty}
use karpenter_provider_exosc.NodeClassController.Hash.{
  HashEntry, hash_entries, kubelet_entries, option_entries, policy_entries, period_entries,
  max_pods_entries, registry_entries, reconcile_configuration_hash,
}

insert_not_empty : (x : String) (l : List String) → is_empty (insert_by (λ s. s) x l) ≡ false
insert_not_empty x [] = refl
insert_not_empty x (y ∷ l) = ground arith

sorted_is_empty : (l : List String) → is_empty (sort_strings l) ≡ is_empty l
sorted_is_empty [] = refl
sorted_is_empty (x ∷ l) = insert_not_empty x (sort_strings l)

option_entries-Perm :
    (policy : String) (xs ys : List String)
    → Perm xs ys
    → option_entries policy xs ≡ option_entries policy ys
option_entries-Perm policy xs ys p =
    let same = sort_strings-Perm p in
    let empties : is_empty xs ≡ is_empty ys =
      sym (sorted_is_empty xs) ∙ ap is_empty same ∙ sorted_is_empty ys in
    rw (same, empties) refl

-- The NodeClass with other CPU manager policy options.
abbrev pub with_options : List String → ExoscaleNodeClass → ExoscaleNodeClass
with_options os nc = record nc {
  spec = record nc.spec { kubelet = record nc.spec.kubelet { cpu_manager_policy_options = os } };
}

-- Nothing of the kubelet that the hash covers is configured.
abbrev pub Unconfigured : KubeletConfiguration → Type 0
Unconfigured k =
    ((k.cpu_manager_policy ≡ "") ⊎ (k.cpu_manager_policy ≡ "none"))
    × ((k.cpu_manager_reconcile_period ≡ "") ⊎ (k.cpu_manager_reconcile_period ≡ "10s"))
    × (k.max_pods ≡ none)

module _ (pem : String → Option String) (get : String → Result ApiError (Map String))
    (sha : String → String) where
  -- The order of the CPU manager policy options makes no difference to the hash.
  pub reconcile_configuration_hash-Perm :
      (nc : ExoscaleNodeClass) (os : List String)
      → Perm nc.spec.kubelet.cpu_manager_policy_options os
      → reconcile_configuration_hash pem get sha nc
        ≡ reconcile_configuration_hash pem get sha (with_options os nc)
  unfolding reconcile_configuration_hash kubelet_entries
  reconcile_configuration_hash-Perm nc os p =
      let k = nc.spec.kubelet in
      rw (option_entries-Perm k.cpu_manager_policy k.cpu_manager_policy_options os p) refl

  policy_none : (p : String) → (policy_entries p ≡ []) ↔ ((p ≡ "") ⊎ (p ≡ "none"))
  policy_none p = ground (arith, eq_iff p "", eq_iff p "none")

  period_none : (p : String) → (period_entries p ≡ []) ↔ ((p ≡ "") ⊎ (p ≡ "10s"))
  period_none p = ground (arith, eq_iff p "", eq_iff p "10s")

  max_pods_none : (m : Option ℕ) → (max_pods_entries m ≡ []) ↔ (m ≡ none)
  max_pods_none none = (λ _. refl, λ _. refl)
  max_pods_none (some n) = ground arith

  append_empty : (xs ys : List HashEntry) → (xs ++ ys ≡ []) ↔ ((xs ≡ []) × (ys ≡ []))
  append_empty [] ys = (λ h. (refl, h), λ h. h.1)
  append_empty (x ∷ xs) ys = ground arith

  no_options : (p : String) (os : List String) → (p ≡ "") ⊎ (p ≡ "none") → option_entries p os ≡ []
  no_options p os h = elim h [ inl e ↦ rw e (ground arith) | inr e ↦ rw e (ground arith) ]

  all_empty :
      (a b c d : List HashEntry)
      → (a ++ b ++ c ++ d ≡ []) ↔ ((a ≡ []) × (b ≡ []) × (c ≡ []) × (d ≡ []))
  all_empty a b c d =
      let f = append_empty (a ++ b ++ c) d in
      let g = append_empty (a ++ b) c in
      let h = append_empty a b in
      (
        λ e.
            let (abc, ed) = f.0 e in
            let (ab, ec) = g.0 abc in let (ea, eb) = h.0 ab in (ea, eb, ec, ed),
        λ (ea, eb, ec, ed). f.1 (g.1 (h.1 (ea, eb), ec), ed),
      )

  kubelet_entries-Unconfigured :
      (k : KubeletConfiguration) → (kubelet_entries k ≡ []) ↔ Unconfigured k
  unfolding kubelet_entries
  kubelet_entries-Unconfigured k =
      let p = policy_none k.cpu_manager_policy in
      let r = period_none k.cpu_manager_reconcile_period in
      let m = max_pods_none k.max_pods in
      let all =
        all_empty (policy_entries k.cpu_manager_policy)
          (option_entries k.cpu_manager_policy k.cpu_manager_policy_options)
          (period_entries k.cpu_manager_reconcile_period) (max_pods_entries k.max_pods) in
      (
        λ e. let (ep, eo, er, em) = all.0 e in (p.0 ep, r.0 er, m.0 em),
        λ (ep, er, em). all.1 (
          p.1 ep,
          no_options k.cpu_manager_policy k.cpu_manager_policy_options ep,
          r.1 er,
          m.1 em,
        ),
      )

  hash_empty :
      (es : List HashEntry) → ((b : String) → sha b ≢ "") → (hash_entries sha es ≡ "") ↔ (es ≡ [])
  unfolding hash_entries
  hash_empty [] h = (λ _. refl, λ _. refl)
  hash_empty (e ∷ es) h = (λ q. absurd (h _ q), λ q. absurd (ground arith))

  -- If the hash of any bytes is not empty: the configuration hash is computed and empty exactly if
  -- the container registry is absent or resolves to nothing that is hashed, the CPU manager policy is
  -- empty or `none`, its reconcile period is empty or the default, and `maxPods` is not set.
  pub reconcile_configuration_hash-Unconfigured :
      (nc : ExoscaleNodeClass)
      → ((b : String) → sha b ≢ "")
      → (reconcile_configuration_hash pem get sha nc ≡ ok "") ↔ (
          (registry_entries pem get nc.spec.container_registry ≡ ok [])
          × Unconfigured nc.spec.kubelet)
  unfolding reconcile_configuration_hash
  reconcile_configuration_hash-Unconfigured nc h =
      let k = nc.spec.kubelet in
      elim (Result-cases (registry_entries pem get nc.spec.container_registry)) [
        | inr (e, p) ↦ rw p (λ q. absurd (ground arith), λ q. absurd (let q0 = q.0 in ground arith))
        | inl (es, p) ↦
            let split = append_empty es (kubelet_entries k) in
            let empty = hash_empty (es ++ kubelet_entries k) h in
            let kubelet = kubelet_entries-Unconfigured k in
            rw p (
              λ q. let (e, rest) = split.0 (empty.0 (ok_inj q)) in (ap ok e, kubelet.0 rest),
              λ (e, u). ap ok (empty.1 (split.1 (ok_inj e, kubelet.1 u))),
            )
      ]
