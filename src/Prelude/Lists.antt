-- ===== src/Prelude/Lists.antt =====
-- Lists: length over the native numbers, Go's loops with `append`, and membership by recursion.
use Prim.Native.Nat.{ℕ, suc, ◌+◌}
use Prim.Native.String.{String}
use mathlib.Core.Path.{◌≡◌, refl, ap, ◌∙◌}
use mathlib.Core.Logic.{◌↔◌, ◌⊎◌, inl, inr}
use mathlib.Core.Bool.{Bool, true, false, ◌||◌}
use mathlib.Core.List.{List, [], ◌∷◌, ◌++◌, map}
use native.Mathlib.Omega.{arith}
use karpenter_provider_exosc.Prelude.Tests.{◌==◌, eq_iff, if◌then◌else◌}

module _ {ℓ} {A : Type ℓ} where
  abbrev pub length : List A → ℕ
  length [] = 0
  length (x ∷ xs) = suc (length xs)

  pub length-append : (xs ys : List A) → length (xs ++ ys) ≡ length xs + length ys
  length-append [] ys = omega arith
  length-append (x ∷ xs) ys = omega (arith, length-append xs ys)

  -- A loop that keeps the elements which pass a test, in order.
  abbrev pub keep : (A → Bool) → List A → List A
  keep p [] = []
  keep p (x ∷ xs) = let rest = keep p xs in if p x then x ∷ rest else rest

module _ {A : Type 0} where
  -- `a` occurs in the list.
  abbrev pub In : A → List A → Type 0
  In a [] = ⊥
  In a (x ∷ xs) = (a ≡ x) ⊎ In a xs

  pub In-append_left : (a : A) (xs ys : List A) → In a xs → In a (xs ++ ys)
  In-append_left a [] ys h = elim h [ ]
  In-append_left a (x ∷ xs) ys (inl e) = inl e
  In-append_left a (x ∷ xs) ys (inr h) = inr (In-append_left a xs ys h)

  pub In-append_right : (a : A) (xs ys : List A) → In a ys → In a (xs ++ ys)
  In-append_right a [] ys h = h
  In-append_right a (x ∷ xs) ys h = inr (In-append_right a xs ys h)

  pub In-append : (a : A) (xs ys : List A) → In a (xs ++ ys) → In a xs ⊎ In a ys
  In-append a [] ys h = inr h
  In-append a (x ∷ xs) ys (inl e) = inl (inl e)
  In-append a (x ∷ xs) ys (inr h) = elim (In-append a xs ys h) [
    | inl l ↦ inl (inr l)
    | inr r ↦ inr r
  ]

  pub In-keep : (p : A → Bool) (a : A) (xs : List A) → In a (keep p xs) ↔ (In a xs × (p a ≡ true))
  In-keep p a [] = (λ h. absurd h, λ h. h.0)
  In-keep p a (x ∷ xs) = ground (arith, In-keep p a xs)

-- `slices.Contains` over strings.
abbrev pub contains : List String → String → Bool
contains [] s = false
contains (x ∷ xs) s = x == s || contains xs s

pub contains_iff : (xs : List String) (s : String) → (contains xs s ≡ true) ↔ In s xs
contains_iff [] s = (λ h. cc, λ h. absurd h)
contains_iff (x ∷ xs) s = ground (arith, eq_iff x s, contains_iff xs s)

pub In-map :
    {A B : Type 0} (f : A → B) (b : B) (xs : List A)
    → In b (map f xs) ↔ ((a : A) × In a xs × (b ≡ f a))
In-map f b [] = (λ h. absurd h, λ (a, h, e). h)
In-map f b (x ∷ xs) = (
  λ h. elim h [
    | inl e ↦ (x, inl refl, e)
    | inr h ↦ let (a, at, e) = (In-map f b xs).0 h in (a, inr at, e)
  ],
  λ (a, h, e). elim h [ inl p ↦ inl (e ∙ ap f p) | inr h ↦ inr ((In-map f b xs).1 (a, h, e)) ],
)
