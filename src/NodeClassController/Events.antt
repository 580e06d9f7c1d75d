-- ===== src/NodeClassController/Events.antt =====
-- pkg/controllers/nodeclass/controller.go, `SetupWithManager`: which events of a Secret reach
-- `secretToNodeClasses`. The filter of events is controller-runtime's `GenerationChangedPredicate`,
-- a parameter; it is set for every watch of the controller, the one of Secrets too.
use karpenter_provider_exosc.Kube.{ApiError}
use karpenter_provider_exosc.NodeClass.{ExoscaleNodeClass}
use karpenter_provider_exosc.NodeClassController.Watch.{
  secret_to_node_classes, resolve-secret_to_node_classes,
}
use karpenter_provider_exosc.Prelude.{
  ◌≡◌, ◌≢◌, ◌↔◌, ◌⊎◌, refl, sym, ap, inl, inr, ℕ, Option, Bool, true, false, ◌&&◌, String, List, [],
  Map, In, Result, ok, arith, if◌then◌else◌, ◌==◌, eq_cases, eqb, Bool-cases,
}
use karpenter_provider_exosc.UserData.Registry.{resolve}

-- An event of the watch of Secrets; an update has the generations of the old and the new object.
pub data SecretEvent : Type 0 where
  created deleted : SecretEvent
  updated : ℕ → ℕ → SecretEvent

abbrev in_kube_system : String → Bool
in_kube_system namespace = namespace == "kube-system"

-- The requests that an event of a Secret leads to: the filter of the controller and the predicate of
-- the watch stand before the mapping.
unfoldable pub secret_requests :
    (SecretEvent → Bool)
    → Result ApiError (List ExoscaleNodeClass)
    → SecretEvent
    → String
    → String
    → List String
secret_requests passes classes event namespace name =
    if passes event && in_kube_system namespace
    then secret_to_node_classes classes namespace name
    else []

-- What `GenerationChangedPredicate` documents: it skips an update that leaves the generation, and
-- nothing else.
pub record IsGenerationChanged (passes : SecretEvent → Bool) : Type 0 where
  pub on_created : passes created ≡ true
  pub on_deleted : passes deleted ≡ true
  pub on_updated : (old new : ℕ) → (passes (updated old new) ≡ true) ↔ (old ≢ new)

module _ (passes : SecretEvent → Bool) (law : IsGenerationChanged passes) where
  open law use {on_created, on_deleted, on_updated}

  -- An update that leaves the generation of the Secret.
  abbrev pub KeepsGeneration : SecretEvent → Type 0
  KeepsGeneration event = (g : ℕ) × (event ≡ updated g g)

  blocked : (g : ℕ) → passes (updated g g) ≡ false
  blocked g = elim (Bool-cases (passes (updated g g))) [
    | inl p ↦ absurd ((on_updated g g).0 p refl)
    | inr p ↦ p
  ]

  passes-KeepsGeneration : (event : SecretEvent) → passes event ≡ false → KeepsGeneration event
  passes-KeepsGeneration created h = absurd (let p = on_created in ground arith)
  passes-KeepsGeneration deleted h = absurd (let p = on_deleted in ground arith)
  passes-KeepsGeneration (updated old new) h = elim (Bool-cases (eqb old new)) [
    | inl e ↦ let same : old ≡ new = ground arith in (old, ap (updated old) (sym same))
    | inr n ↦
        let differ : old ≢ new = ground arith in
        absurd (let p = (on_updated old new).1 differ in ground arith)
  ]

  unheard :
      (classes : Result ApiError (List ExoscaleNodeClass)) (event : SecretEvent)
      (namespace name : String)
      → (namespace ≢ "kube-system") ⊎ KeepsGeneration event
      → secret_requests passes classes event namespace name ≡ []
  unfolding secret_requests
  unheard classes event namespace name (inl other) = elim (eq_cases namespace "kube-system") [
    | inl (e, same) ↦ absurd (other same)
    | inr (e, n) ↦ ground arith
  ]
  unheard classes event namespace name (inr (g, same)) = rw (same, blocked g) refl

  heard :
      (classes : Result ApiError (List ExoscaleNodeClass)) (event : SecretEvent) (name : String)
      → passes event ≡ true
      → secret_requests passes classes event "kube-system" name
        ≡ secret_to_node_classes classes "kube-system" name
  unfolding secret_requests
  heard classes event name p = rw p refl

  module _ (pem : String → Option String)
      (before after : String → Result ApiError (Map String)) where
    -- If an event changes one Secret of kube-system and the NodeClasses can be listed, each NodeClass
    -- is enqueued, or its container registry resolves to the same result as before, or the event is
    -- an update that leaves the generation of the Secret. Such an update, and any event of a Secret
    -- of another namespace, enqueues nothing.
    pub resolve-secret_requests :
        (event : SecretEvent) (changed : String) (ncs : List ExoscaleNodeClass)
        (nc : ExoscaleNodeClass)
        → ((name : String) → name ≢ changed → before name ≡ after name)
        → In nc ncs
        → (In nc.name (secret_requests passes (ok ncs) event "kube-system" changed)
            ⊎ (resolve pem before nc.spec.container_registry
                ≡ resolve pem after nc.spec.container_registry)
            ⊎ KeepsGeneration event)
          × ((namespace name : String)
              → (namespace ≢ "kube-system") ⊎ KeepsGeneration event
              → secret_requests passes (ok ncs) event namespace name ≡ [])
    resolve-secret_requests event changed ncs nc h at = (
      elim (Bool-cases (passes event)) [
        | inr p ↦ inr (inr (passes-KeepsGeneration event p))
        | inl p ↦ elim (resolve-secret_to_node_classes pem before after changed ncs nc h at) [
          | inl found ↦ inl (rw (heard (ok ncs) event changed p) found)
          | inr same ↦ inr (inl same)
        ]
      ],
      λ namespace name q. unheard (ok ncs) event namespace name q,
    )
