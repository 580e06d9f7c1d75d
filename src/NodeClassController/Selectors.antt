-- ===== src/NodeClassController/Selectors.antt =====
-- pkg/controllers/nodeclass/controller_reconcilers.go and controller_caches.go: how security groups,
-- anti-affinity groups, private networks and elastic IPs are resolved. The code has one copy for
-- each kind of resource; here the kind is a parameter, with the ID and the name of a resource.
use karpenter_provider_exosc.Cache.{ResourceCache, get, get_filtered, filtered}
use karpenter_provider_exosc.Kube.{ApiError}
use karpenter_provider_exosc.NodeClass.{SelectorTerms}
use karpenter_provider_exosc.Prelude.{
  ◌≡◌, ◌≢◌, ◌⊎◌, refl, inl, inr, ℕ, not, Option, none, some, String, List, [], ◌∷◌, ◌++◌, In, keep,
  Time, minute, Result, ok, err, wrap, ◌>>=◌, collect, arith, if◌then◌else◌, ◌==◌, eq_cases,
}
use karpenter_provider_exosc.UserData.Registry.{ResolveError}

-- How a step of the reconciliation can fail; a nil dereference is a panic.
pub data StepError : Type 0 where
  template_unresolved template_not_found elastic_ip_selector_empty nil_dereference : StepError
  get_failed lookup_failed name_not_found : String → StepError
  secrets_failed : ResolveError → StepError

abbrev pub resource_cache_ttl : ℕ
resource_cache_ttl = minute

module _ {R : Type 0} (name_of : R → String) where
  abbrev first : Result ApiError (List R) → Result ApiError (Option R)
  first (err e) = err e
  first (ok []) = ok none
  first (ok (r ∷ rs)) = ok (some r)

  -- `getCachedSecurityGroupByName` and its like: a cached list, looked up by name.
  unfoldable pub get_cached_by_name :
      String
      → ResourceCache R ApiError resource_cache_ttl
      → Time
      → Time
      → Result ApiError (Option (List R))
      → Time
      → ResourceCache R ApiError resource_cache_ttl × Result ApiError (Option R)
  get_cached_by_name name c now again answer stamp =
      let r =
        get_filtered R ApiError resource_cache_ttl (λ x. name_of x == name) c now again answer
          stamp in
      (r.0, first r.1)

  abbrev found_in : String → Result ApiError (Option (List R)) → Result ApiError (Option R)
  found_in name answer =
      first (filtered R ApiError resource_cache_ttl (λ x. name_of x == name) answer)

  first_kept :
      (name : String) (xs : List R)
      → ((r : R)
          → first (ok (keep (λ x. name_of x == name) xs)) ≡ ok (some r)
          → In r xs × (name_of r ≡ name))
        × (first (ok (keep (λ x. name_of x == name) xs)) ≡ ok none
            → (r : R) → In r xs
            → name_of r ≢ name)
  first_kept name [] = (λ r h. absurd (ground arith), λ _ r at. absurd at)
  first_kept name (x ∷ xs) = elim (eq_cases (name_of x) name) [
    | inl (e, same) ↦ rw e (
      λ r h. let is : x ≡ r = ground arith in rw (← is) (inl refl, same),
      λ h. absurd (ground arith),
    )
    | inr (e, differ) ↦
        let (some_case, none_case) = first_kept name xs in
        rw e (
          λ r h. let (at, is) = some_case r h in (inr at, is),
          λ h r at. elim at [ inl same ↦ rw same differ | inr later ↦ none_case h r later ],
        )
  ]

  by_answer :
      (name : String) (served : Result ApiError (Option (List R)))
      → ((r : R)
          → found_in name served ≡ ok (some r)
          → (xs : List R) × (served ≡ ok (some xs)) × In r xs × (name_of r ≡ name))
        × (found_in name served ≡ ok none
            → (served ≡ ok none)
              ⊎ ((xs : List R) × (served ≡ ok (some xs)) × ((r : R) → In r xs → name_of r ≢ name)))
  by_answer name (err e) = (λ r h. absurd (ground arith), λ h. absurd (ground arith))
  by_answer name (ok none) = (λ r h. absurd (ground arith), λ h. inl refl)
  by_answer name (ok (some xs)) = (
    λ r h. let (at, is) = (first_kept name xs).0 r h in (xs, refl, at, is),
    λ h. inr (xs, refl, (first_kept name xs).1 h),
  )

  -- A lookup that finds a resource returns one of the cached list, with the name; one that finds
  -- none has read a list without the name, or no list at all.
  pub get_cached_by_name_lem :
      (name : String) (c : ResourceCache R ApiError resource_cache_ttl) (now again stamp : Time)
      (answer : Result ApiError (Option (List R)))
      → let served = (get R ApiError resource_cache_ttl c now again answer stamp).1 in
        let found = (get_cached_by_name name c now again answer stamp).1 in
        ((r : R)
          → found ≡ ok (some r)
          → (xs : List R) × (served ≡ ok (some xs)) × In r xs × (name_of r ≡ name))
        × (found ≡ ok none
            → (served ≡ ok none)
              ⊎ ((xs : List R) × (served ≡ ok (some xs)) × ((r : R) → In r xs → name_of r ≢ name)))
  unfolding get_cached_by_name get_filtered
  get_cached_by_name_lem name c now again stamp answer =
      by_answer name (get R ApiError resource_cache_ttl c now again answer stamp).1

-- The resolution of IDs and selector terms, by the answers of the API about an ID and of the cached
-- lookup about a name.
module _ {R : Type 0} (id_of : R → String) (lookup_id : String → Result ApiError R)
    (lookup_name : String → Result ApiError (Option R)) where
  unfoldable pub resolve_id : String → Result StepError String
  resolve_id id = wrap (λ _. get_failed id) (lookup_id id) >>= λ r. ok (id_of r)

  abbrev named : String → Option R → Result StepError String
  named name none = err (name_not_found name)
  named name (some r) = ok (id_of r)

  unfoldable pub resolve_name : String → Result StepError String
  resolve_name name = wrap (λ _. lookup_failed name) (lookup_name name) >>= named name

  -- One selector term; the last argument is what happens without ID and name.
  unfoldable pub resolve_term : StepError → SelectorTerms → Result StepError String
  unfolding resolve_id resolve_name
  resolve_term otherwise t =
      if not (t.id == "")
      then resolve_id t.id
      else if not (t.name == "")
      then resolve_name t.name
      else err otherwise

  -- `reconcileSecurityGroups`, `reconcileAntiAffinityGroups` and `reconcilePrivateNetworks`: the
  -- deprecated IDs, then the terms. A term without ID and name leaves the resource nil.
  unfoldable pub resolve_all : List String → List SelectorTerms → Result StepError (List String)
  unfolding resolve_id resolve_term
  resolve_all ids terms = collect resolve_id ids >>= λ a.
      collect (resolve_term nil_dereference) terms >>= λ b. ok (a ++ b)

  -- `reconcileElasticIPs`, where the name of a term is an address
  unfoldable pub resolve_elastic_ips : List SelectorTerms → Result StepError (List String)
  unfolding resolve_term
  resolve_elastic_ips terms = collect (resolve_term elastic_ip_selector_empty) terms
