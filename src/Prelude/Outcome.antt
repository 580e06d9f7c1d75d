-- ===== src/Prelude/Outcome.antt =====
-- A Go call `(value, error)`, with the errors of one component as a type of its own.

use mathlib.Core.Path.{◌≡◌, refl, sym, ap, ◌∙◌, subst}
use mathlib.Core.Logic.{◌↔◌, ◌⊎◌, inl, inr}
use mathlib.Core.List.{List, [], ◌∷◌}
use native.Mathlib.Omega.{arith}
use karpenter_provider_exosc.Prelude.Lists.{In}

pub data Result {ℓ κ} (E : Type κ) (A : Type ℓ) : Type (ℓ ⊔ κ) where
  ok : A → Result E A
  err : E → Result E A

infixl 5 ◌>>=◌
abbrev pub ◌>>=◌ {ℓ κ ι} :
    {E : Type κ} {A : Type ℓ} {B : Type ι} → Result E A → (A → Result E B) → Result E B
ok a >>= f = f a
err e >>= f = err e

-- An error of a call, wrapped into an error of the caller.
abbrev pub wrap {ℓ κ ι} : {E : Type κ} {F : Type ι} {A : Type ℓ} → (E → F) → Result E A → Result F A
wrap f (ok a) = ok a
wrap f (err e) = err (f e)

pub Result-cases {ℓ κ} :
    {E : Type κ} {A : Type ℓ} (r : Result E A) → ((a : A) × (r ≡ ok a)) ⊎ ((e : E) × (r ≡ err e))
Result-cases (ok a) = inl (a, refl)
Result-cases (err e) = inr (e, refl)

-- A Go loop that calls a fallible function on each element and appends the results, up to the first
-- failure.
module _ {E A B : Type 0} where
  abbrev pub collect : (A → Result E B) → List A → Result E (List B)
  collect f [] = ok []
  collect f (x ∷ xs) = let rest = collect f xs in f x >>= λ y. rest >>= λ ys. ok (y ∷ ys)

  pub collect-congr :
      (f g : A → Result E B) (xs : List A)
      → ((x : A) → In x xs → f x ≡ g x)
      → collect f xs ≡ collect g xs
  collect-congr f g [] h = refl
  collect-congr f g (x ∷ xs) h =
      rw (h x (inl refl), collect-congr f g xs (λ y at. h y (inr at))) refl

  -- The loop succeeds exactly if the function does on each element.
  pub collect_iff :
      (f : A → Result E B) (xs : List A)
      → ((ys : List B) × (collect f xs ≡ ok ys)) ↔ ((x : A) → In x xs → (y : B) × (f x ≡ ok y))
  collect_iff f [] = (λ _ x at. absurd at, λ _. ([], refl))
  collect_iff f (x ∷ xs) = elim (Result-cases (f x)) [
    | inr (e, p) ↦ (
      λ (ys, h). absurd (let h' = rw p at h in ground arith),
      λ h. let (y, q) = h x (inl refl) in absurd (ground arith),
    )
    | inl (y, p) ↦ elim (Result-cases (collect f xs)) [
      | inr (e, q) ↦ (
        λ (ys, h). absurd (let h' = rw (p, q) at h in ground arith),
        λ h. let (ys, r) = (collect_iff f xs).1 (λ z at. h z (inr at)) in absurd (ground arith),
      )
      | inl (ys, q) ↦ (
        λ _ z at. elim at [
          | inl same ↦ rw same (y, p)
          | inr later ↦ (collect_iff f xs).0 (ys, q) z later
        ],
        λ _. (y ∷ ys, rw (p, q) refl),
      )
    ]
  ]

  -- Each result is the function's at some element.
  pub In-collect :
      (f : A → Result E B) (y : B) (xs : List A) (ys : List B)
      → collect f xs ≡ ok ys
      → In y ys
      → (x : A) × In x xs × (f x ≡ ok y)
  In-collect f y [] ys h at =
      let same : ys ≡ [] = cc in let never : In y [] = subst (In y) same at in absurd never
  In-collect f y (x ∷ xs) ys h at = elim (Result-cases (f x)) [
    | inr (e, p) ↦ absurd (let h' = rw p at h in ground arith)
    | inl (z, p) ↦ elim (Result-cases (collect f xs)) [
      | inr (e, q) ↦ absurd (let h' = rw (p, q) at h in ground arith)
      | inl (zs, q) ↦
          let same : ys ≡ z ∷ zs = let h' = rw (p, q) at h in cc in
          let at' : In y (z ∷ zs) = subst (In y) same at in
          elim at' [
            | inl e ↦ (x, inl refl, rw e p)
            | inr later ↦ let (w, here, g) = In-collect f y xs zs q later in (w, inr here, g)
          ]
    ]
  ]

module _ {E A B : Type 0} where
  -- The loop fails as the function does on some element.
  pub In-collect_err :
      (f : A → Result E B) (xs : List A) (e : E)
      → collect f xs ≡ err e
      → (x : A) × In x xs × (f x ≡ err e)
  In-collect_err f [] e h = absurd (ground arith)
  In-collect_err f (x ∷ xs) e h = elim (Result-cases (f x)) [
    | inr (e', p) ↦ (x, inl refl, p ∙ let h' = rw p at h in ap err (ground arith))
    | inl (y, p) ↦ elim (Result-cases (collect f xs)) [
      | inl (ys, q) ↦ absurd (let h' = rw (p, q) at h in ground arith)
      | inr (e', q) ↦
          let same : e' ≡ e = let h' = rw (p, q) at h in ground arith in
          let (z, at, r) = In-collect_err f xs e (q ∙ ap err same) in (z, inr at, r)
    ]
  ]

-- A relation of two lists, element by element.
abbrev pub Each : {A B : Type 0} → (A → B → Type 0) → List A → List B → Type 0
Each P [] [] = Unit
Each P [] (y ∷ ys) = ⊥
Each P (x ∷ xs) [] = ⊥
Each P (x ∷ xs) (y ∷ ys) = P x y × Each P xs ys

pub ok_inj : {E A : Type 0} {a b : A} → ◌≡◌ {A = Result E A} (ok a) (ok b) → a ≡ b
ok_inj h = cc

module _ {E A B : Type 0} where
  -- What the loop returns, by a description of the function's results.
  pub collect-Each :
      (f : A → Result E B) (P : A → B → Type 0)
      → ((x : A) (y : B) → (f x ≡ ok y) ↔ P x y)
      → (xs : List A) (ys : List B) → (collect f xs ≡ ok ys) ↔ Each P xs ys
  collect-Each f P h [] [] = (λ _. tt, λ _. refl)
  collect-Each f P h [] (y ∷ ys) = (λ e. ground arith, λ never. absurd never)
  collect-Each f P h (x ∷ xs) [] = elim (Result-cases (f x)) [
    | inr (e, p) ↦ rw p (λ q. absurd (ground arith), λ never. absurd never)
    | inl (z, p) ↦ elim (Result-cases (collect f xs)) [
      | inr (e, q) ↦ rw (p, q) (λ r. absurd (ground arith), λ never. absurd never)
      | inl (zs, q) ↦ rw (p, q) (λ r. absurd (ground arith), λ never. absurd never)
    ]
  ]
  collect-Each f P h (x ∷ xs) (y ∷ ys) = elim (Result-cases (f x)) [
    | inr (e, p) ↦
        rw p (λ q. absurd (ground arith), λ r. absurd (let g = (h x y).1 r.0 in ground arith))
    | inl (z, p) ↦ elim (Result-cases (collect f xs)) [
      | inr (e, q) ↦
          rw (p, q)
            (
              λ r. absurd (ground arith),
              λ r. absurd (let g = (collect-Each f P h xs ys).1 r.1 in ground arith),
            )
      | inl (zs, q) ↦
          rw (p, q)
            (
              λ r.
                  let z_is : z ≡ y = ground arith in
                  let zs_are : zs ≡ ys = ground arith in
                  (
                    (h x y).0 (rw p (ap ok z_is)),
                    (collect-Each f P h xs ys).0 (rw q (ap ok zs_are)),
                  ),
              λ r.
                  let z_is : z ≡ y = let g = (h x y).1 r.0 in ok_inj (sym p ∙ g) in
                  let zs_are : zs ≡ ys =
                    let g = (collect-Each f P h xs ys).1 r.1 in ok_inj (sym q ∙ g) in
                  rw (z_is, zs_are) refl,
            )
    ]
  ]
