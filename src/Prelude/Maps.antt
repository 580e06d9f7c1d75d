-- ===== src/Prelude/Maps.antt =====
-- Go maps with string keys, as association lists: the first entry of a key counts.
use Prim.Native.String.{String}
use mathlib.Core.Path.{◌≡◌, refl, sym, ◌∙◌}
use mathlib.Core.Logic.{◌↔◌, ◌≢◌, inl, inr}
use mathlib.Core.Bool.{Bool, true, false, ◌&&◌}
use mathlib.Core.Option.{Option, none, some}
use mathlib.Core.List.{List, [], ◌∷◌}
use native.Mathlib.Omega.{arith}
use karpenter_provider_exosc.Prelude.Tests.{◌==◌, eq_iff, if◌then◌else◌, eq_cases, Option-cases}

abbrev pub Map {ℓ} : Type ℓ → Type ℓ
Map V = List (String × V)

module _ {ℓ} {V : Type ℓ} where
  -- `v, ok := m[k]`
  abbrev pub lookup : String → Map V → Option V
  lookup k [] = none
  lookup k ((j, v) ∷ m) = if j == k then some v else lookup k m

  -- `m[k] = v`
  abbrev pub insert : String → V → Map V → Map V
  insert k v [] = (k, v) ∷ []
  insert k v ((j, w) ∷ m) = if j == k then (k, v) ∷ m else (j, w) ∷ insert k v m

  -- `for k, v := range src { dst[k] = v }`
  abbrev pub insert_all : Map V → Map V → Map V
  insert_all [] dst = dst
  insert_all ((k, v) ∷ src) dst = insert_all src (insert k v dst)

  pub lookup-insert :
      (k j : String) (v : V) (m : Map V)
      → lookup j (insert k v m) ≡ (if k == j then some v else lookup j m)
  lookup-insert k j v [] = refl
  lookup-insert k j v ((i, w) ∷ m) =
      ground (arith, eq_iff k j, eq_iff i k, eq_iff i j, lookup-insert k j v m)

  pub lookup-insert_all-none :
      (k : String) (src dst : Map V)
      → lookup k src ≡ none
      → lookup k (insert_all src dst) ≡ lookup k dst
  lookup-insert_all-none k [] dst h = refl
  lookup-insert_all-none k ((j, v) ∷ src) dst h =
      ground (arith, lookup-insert_all-none k src (insert j v dst), lookup-insert j k v dst)

  -- In a Go map each key occurs once.
  abbrev pub DistinctKeys : Map V → Type ℓ
  DistinctKeys [] = Unit
  DistinctKeys ((k, v) ∷ m) = (lookup k m ≡ none) × DistinctKeys m

  pub lookup-insert_all-some :
      (k : String) (v : V) (src dst : Map V)
      → DistinctKeys src
      → lookup k src ≡ some v
      → lookup k (insert_all src dst) ≡ some v
  lookup-insert_all-some k v [] dst d h = absurd (ground arith)
  lookup-insert_all-some k v ((j, w) ∷ src) dst d h = elim (eq_cases j k) [
    | inl (e, same) ↦
        let found : w ≡ v = ground arith in
        let absent : lookup k src ≡ none = rw same at d.0 in
        lookup-insert_all-none k src (insert j w dst) absent
        ∙ ground (arith, lookup-insert j k w dst)
    | inr (e, other) ↦ lookup-insert_all-some k v src (insert j w dst) d.1 (ground arith)
  ]

abbrev same_value : Option String → Option String → Bool
same_value none none = true
same_value none (some w) = false
same_value (some v) none = false
same_value (some v) (some w) = v == w

abbrev agrees : Map String → Map String → Map String → Bool
agrees [] a b = true
agrees ((k, v) ∷ ks) a b = same_value (lookup k a) (lookup k b) && agrees ks a b

-- `reflect.DeepEqual` of two maps: the same value, or none, at each key of either.
unfoldable pub maps_equal : Map String → Map String → Bool
maps_equal a b = agrees a a b && agrees b a b

same_value_iff : (v w : Option String) → (same_value v w ≡ true) ↔ (v ≡ w)
same_value_iff none none = ground arith
same_value_iff none (some w) = ground arith
same_value_iff (some v) none = ground arith
same_value_iff (some v) (some w) = ground (arith, eq_iff v w)

agrees_sound :
    (ks a b : Map String) (k : String)
    → agrees ks a b ≡ true
    → lookup k ks ≢ none
    → lookup k a ≡ lookup k b
agrees_sound [] a b k h at = absurd (at refl)
agrees_sound ((j, v) ∷ ks) a b k h at = elim (eq_cases j k) [
  | inl (e, same) ↦ rw (← same) ((same_value_iff (lookup j a) (lookup j b)).0 (ground arith))
  | inr (e, other) ↦ agrees_sound ks a b k (ground arith) (λ n. at (ground arith))
]

agrees_complete :
    (ks a b : Map String) → ((k : String) → lookup k a ≡ lookup k b) → agrees ks a b ≡ true
agrees_complete [] a b h = refl
agrees_complete ((j, v) ∷ ks) a b h =
    ground (arith, (same_value_iff (lookup j a) (lookup j b)).1 (h j), agrees_complete ks a b h)

pub maps_equal_iff :
    (a b : Map String) → (maps_equal a b ≡ true) ↔ ((k : String) → lookup k a ≡ lookup k b)
unfolding maps_equal
maps_equal_iff a b = (
  λ h k. elim (Option-cases (lookup k a)) [
    | inr (v, e) ↦ agrees_sound a a b k (ground arith) (λ n. ground arith)
    | inl e ↦ elim (Option-cases (lookup k b)) [
      | inl f ↦ e ∙ sym f
      | inr (v, f) ↦ agrees_sound b a b k (ground arith) (λ n. ground arith)
    ]
  ],
  λ h. ground (arith, agrees_complete a a b h, agrees_complete b a b h),
)
