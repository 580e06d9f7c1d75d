-- ===== src/InstanceProvider/Listing.antt =====
-- `Get`, `List`, `Delete` and `Reboot`.
use karpenter_provider_exosc.Constants.{
  instance_label_managed_by, instance_label_cluster_id, managed_by_karpenter,
}
use karpenter_provider_exosc.Kube.{ApiError, not_found, ResourceList}
use karpenter_provider_exosc.Instance.{ExoInstance, Instance, from_exoscale_instance}
use karpenter_provider_exosc.InstanceProvider.Labels.{Options}
use karpenter_provider_exosc.LabelFilter.{EncodeError, karpenter_filter}
use karpenter_provider_exosc.Prelude.{
  ◌≡◌, ◌↔◌, ◌⊎◌, refl, sym, ap, ◌∙◌, inl, inr, Bool, true, false, not, Option, none, some, String,
  List, [], ◌∷◌, Map, lookup, In, Result, ok, err, wrap, ◌>>=◌, arith, if◌then◌else◌, ◌==◌, eq_iff,
  Bool-cases, Result-cases, ok_inj,
}

pub data ProviderError : Type 0 where
  api_not_found filter_failed list_failed get_failed instance_type_failed delete_failed
        wait_failed :
      ProviderError

-- What the Exoscale API and the instance type provider answer.
pub record Api : Type 0 where
  pub list_instances : String → Result ApiError (List ExoInstance)
  pub get_instance : String → Result ApiError ExoInstance
  pub type_capacity : String → Result ApiError ResourceList

abbrev get_error : ApiError → ProviderError
get_error not_found = api_not_found
get_error _ = get_failed

abbrev pub converted : Option Instance → Result ProviderError Instance
converted none = err get_failed
converted (some i) = ok i

module _ (o : Options) (api : Api) where
  -- `Get`
  unfoldable pub get : String → Result ProviderError Instance
  get id = do
    x ← wrap get_error (api.get_instance id)
    capacity ← wrap (λ _. instance_type_failed) (api.type_capacity x.instance_type.id)
    converted (from_exoscale_instance (some x) (some capacity) o.zone)

  abbrev has_value : Option String → String → Bool
  has_value none v = false
  has_value (some w) v = w == v

  -- The filter of the loop: both labels are there and name Karpenter and this cluster.
  unfoldable pub is_managed : Map String → Bool
  is_managed labels =
      if not (has_value (lookup instance_label_managed_by labels) managed_by_karpenter)
      then false
      else if not (has_value (lookup instance_label_cluster_id labels) o.cluster_id)
      then false
      else true

  -- One instance of the loop: its full details, and the type of the listed instance.
  unfoldable pub fetch : ExoInstance → Result ProviderError Instance
  fetch listed = do
    full ← wrap (λ _. get_failed) (api.get_instance listed.id)
    capacity ← wrap (λ _. instance_type_failed) (api.type_capacity listed.instance_type.id)
    converted (from_exoscale_instance (some full) (some capacity) o.zone)

  unfoldable pub list_loop : List ExoInstance → Result ProviderError (List Instance)
  list_loop [] = ok []
  list_loop (x ∷ xs) =
      let rest = list_loop xs in
      if not (is_managed x.labels) then rest else do i ← fetch x; is ← rest; ok (i ∷ is)

  unfoldable pub list_answer :
      Result ApiError (List ExoInstance) → Result ProviderError (List Instance)
  list_answer (ok xs) = list_loop xs
  list_answer (err e) = err list_failed

  -- `List`. The filter is what the API has applied to its answer.
  unfoldable pub list_filtered : Result EncodeError String → Result ProviderError (List Instance)
  unfolding list_answer
  list_filtered (err e) = err filter_failed
  list_filtered (ok filter) = list_answer (api.list_instances filter)

  unfoldable pub list : Result ProviderError (List Instance)
  unfolding list_filtered
  list = list_filtered (karpenter_filter o.cluster_id)

  -- The instance belongs to this cluster's Karpenter.
  abbrev pub IsManaged : ExoInstance → Type 0
  IsManaged x =
      (lookup instance_label_managed_by x.labels ≡ some managed_by_karpenter)
      × (lookup instance_label_cluster_id x.labels ≡ some o.cluster_id)

  has_value_iff : (v : Option String) (w : String) → (has_value v w ≡ true) ↔ (v ≡ some w)
  has_value_iff none w = ground arith
  has_value_iff (some v) w = ground (arith, eq_iff v w)

  is_managed_iff : (x : ExoInstance) → (is_managed x.labels ≡ true) ↔ IsManaged x
  unfolding is_managed
  is_managed_iff x = ground (
    arith,
    has_value_iff (lookup instance_label_managed_by x.labels) managed_by_karpenter,
    has_value_iff (lookup instance_label_cluster_id x.labels) o.cluster_id,
  )

  list_loop-cons :
      (x : ExoInstance) (xs : List ExoInstance) (is : List Instance)
      → list_loop (x ∷ xs) ≡ ok is
      → ((is_managed x.labels ≡ false) × (list_loop xs ≡ ok is))
        ⊎ ((is_managed x.labels ≡ true)
            × ((i : Instance) × (rest : List Instance) × (fetch x ≡ ok i)
                × (list_loop xs ≡ ok rest)
                × (is ≡ i ∷ rest)))
  unfolding list_loop
  list_loop-cons x xs is h = elim (Bool-cases (is_managed x.labels)) [
    | inr unmanaged ↦ inl (unmanaged, ground arith)
    | inl managed ↦ elim (Result-cases (fetch x)) [
      | inr (e, f) ↦ absurd (ground arith)
      | inl (i, f) ↦ elim (Result-cases (list_loop xs)) [
        | inr (e, g) ↦ absurd (ground arith)
        | inl (rest, g) ↦ inr (managed, (i, rest, f, g, ground arith))
      ]
    ]
  ]

  list_loop_sound :
      (xs : List ExoInstance) (is : List Instance)
      → list_loop xs ≡ ok is
      → (i : Instance) → In i is
      → (x : ExoInstance) × In x xs × IsManaged x × (fetch x ≡ ok i)
  unfolding list_loop
  list_loop_sound [] is h i at = let e : is ≡ [] = ground arith in absurd (rw e at at)
  list_loop_sound (x ∷ xs) is h i at = elim (list_loop-cons x xs is h) [
    | inl (_, g) ↦ let (y, there, m, f) = list_loop_sound xs is g i at in (y, inr there, m, f)
    | inr (managed, (j, rest, f, g, e)) ↦ elim (rw e at at) [
      | inl same ↦ (x, inl refl, (is_managed_iff x).0 managed, f ∙ ap ok (sym same))
      | inr later ↦
          let (y, there, m, f') = list_loop_sound xs rest g i later in (y, inr there, m, f')
    ]
  ]

  list_loop_complete :
      (xs : List ExoInstance) (is : List Instance)
      → list_loop xs ≡ ok is
      → (x : ExoInstance) → In x xs
      → IsManaged x
      → (i : Instance) × In i is × (fetch x ≡ ok i)
  unfolding list_loop
  list_loop_complete [] is h x at m = absurd at
  list_loop_complete (y ∷ xs) is h x at m = elim (list_loop-cons y xs is h) [
    | inl (unmanaged, g) ↦ elim at [
      | inl same ↦
          absurd
            (let k = (is_managed_iff x).1 m in let u = rw (← same) at unmanaged in ground arith)
      | inr later ↦ list_loop_complete xs is g x later m
    ]
    | inr (managed, (j, rest, f, g, e)) ↦ elim at [
      | inl same ↦ (j, rw e (inl refl), rw same f)
      | inr later ↦
          let (i, there, f') = list_loop_complete xs rest g x later m in (i, rw e (inr there), f')
    ]
  ]

  -- An instance in full: what the API answers about the ID of a listed one, with the capacity of the
  -- type that was listed.
  abbrev pub IsFullForm : ExoInstance → Instance → Type 0
  IsFullForm x i =
      (full : ExoInstance) × (capacity : ResourceList) × (api.get_instance x.id ≡ ok full)
      × (api.type_capacity x.instance_type.id ≡ ok capacity)
      × (from_exoscale_instance (some full) (some capacity) o.zone ≡ some i)
      × (i.id ≡ full.id)
      × (i.state ≡ full.state)
      × (i.labels ≡ full.labels)

  fetch-IsFullForm : (x : ExoInstance) (i : Instance) → fetch x ≡ ok i → IsFullForm x i
  unfolding fetch from_exoscale_instance
  fetch-IsFullForm x i h = elim (Result-cases (api.get_instance x.id)) [
    | inr (e, f) ↦ absurd (let h' = rw f at h in ground arith)
    | inl (full, f) ↦ elim (Result-cases (api.type_capacity x.instance_type.id)) [
      | inr (e, g) ↦ absurd (let h' = rw (f, g) at h in ground arith)
      | inl (capacity, g) ↦
          let is = ok_inj (rw (f, g) at h) in
          (
            full,
            capacity,
            f,
            g,
            ap some is,
            ap (λ (j : Instance). j.id) (sym is),
            ap (λ (j : Instance). j.state) (sym is),
            ap (λ (j : Instance). j.labels) (sym is),
          )
    ]
  ]

  -- If the listing succeeds with the API's list `xs`, each instance that it returns comes from one of
  -- `xs` whose labels name Karpenter and this cluster, and each such one of `xs` is returned; it is
  -- returned as the API answers about its ID, with the ID, the state and the labels of that answer.
  pub list_iff :
      (filter : String) (xs : List ExoInstance) (is : List Instance)
      → karpenter_filter o.cluster_id ≡ ok filter
      → api.list_instances filter ≡ ok xs
      → list ≡ ok is
      → ((i : Instance) → In i is → (x : ExoInstance) × In x xs × IsManaged x × IsFullForm x i)
        × ((x : ExoInstance) → In x xs → IsManaged x → (i : Instance) × In i is × IsFullForm x i)
  unfolding list list_filtered list_answer
  list_iff filter xs is encoded listed h =
      let h' : list_loop xs ≡ ok is = sym (ap list_filtered encoded ∙ ap list_answer listed) ∙ h in
      (
        λ i at.
            let (x, a, b, c) = list_loop_sound xs is h' i at in (x, a, b, fetch-IsFullForm x i c),
        λ x at m.
            let (i, a, c) = list_loop_complete xs is h' x at m in (i, a, fetch-IsFullForm x i c),
      )

-- The answer to `DeleteInstance` or `RebootInstance`: an error, no operation, or an operation whose
-- wait ends well or not.
pub data CallAnswer : Type 0 where
  refused : ApiError → CallAnswer
  no_operation : CallAnswer
  operation : Bool → CallAnswer

abbrev delete_error : ApiError → ProviderError
delete_error not_found = api_not_found
delete_error _ = delete_failed

-- `Delete` waits for its operation.
unfoldable pub delete : CallAnswer → Result ProviderError (Unit {0})
delete (refused e) = err (delete_error e)
delete no_operation = ok tt
delete (operation true) = ok tt
delete (operation false) = err wait_failed

-- `Reboot` does not.
unfoldable pub reboot : CallAnswer → Result ProviderError (Unit {0})
reboot (refused e) = err (delete_error e)
reboot no_operation = ok tt
reboot (operation _) = ok tt
