-- ===== src/Prelude/Sorting.antt =====
-- Go's order of strings, and `sort.Strings` and `sort.Slice` by a string key, as insertion sorts.
-- Strings are compared by their characters, which is the order of their UTF-8 bytes.
use Prim.Native.Char.{code}
use Prim.Native.String.{String}
use mathlib.Core.Path.{◌≡◌, refl, ◌∙◌}
use mathlib.Core.Logic.{◌⊎◌, inl, inr, ∥∥₁_elim}
use mathlib.Core.HLevel.{hedberg}
use mathlib.Core.Bool.{Bool, true, false}
use mathlib.Core.List.{List, [], ◌∷◌, Perm, Permᴰ}
use native.Mathlib.Omega.{arith}
use text.Mathlib.TextEquality.{Char-path}
use karpenter_provider_exosc.Prelude.Tests.{eq_cases, ltb, eqb, if◌then◌else◌}

-- `s <= t`
abbrev pub str_leb : String → String → Bool
str_leb String.[] t = true
str_leb (String.◌∷◌ c s) String.[] = false
str_leb (String.◌∷◌ c s) (String.◌∷◌ d t) =
    let rest = str_leb s t in
    if ltb (code c) (code d) then true else if eqb (code c) (code d) then rest else false

pub str_leb_total : (s t : String) → (str_leb s t ≡ true) ⊎ (str_leb t s ≡ true)
str_leb_total String.[] t = inl refl
str_leb_total (String.◌∷◌ c s) String.[] = inr refl
str_leb_total (String.◌∷◌ c s) (String.◌∷◌ d t) = ground (arith, str_leb_total s t)

pub str_leb_antisym : (s t : String) → str_leb s t ≡ true → str_leb t s ≡ true → s ≡ t
str_leb_antisym String.[] String.[] h k = refl
str_leb_antisym String.[] (String.◌∷◌ d t) h k = absurd (ground arith)
str_leb_antisym (String.◌∷◌ c s) String.[] h k = absurd (ground arith)
str_leb_antisym (String.◌∷◌ c s) (String.◌∷◌ d t) h k =
    ground (arith, Char-path c d, str_leb_antisym s t)

pub str_leb_trans : (s t u : String) → str_leb s t ≡ true → str_leb t u ≡ true → str_leb s u ≡ true
str_leb_trans String.[] t u h k = refl
str_leb_trans (String.◌∷◌ c s) String.[] u h k = absurd (ground arith)
str_leb_trans (String.◌∷◌ c s) (String.◌∷◌ d t) String.[] h k = absurd (ground arith)
str_leb_trans (String.◌∷◌ c s) (String.◌∷◌ d t) (String.◌∷◌ e u) h k =
    ground (arith, str_leb_trans s t u)

module _ {A : Type 0} (key : A → String) where
  abbrev pub insert_by : A → List A → List A
  insert_by x [] = x ∷ []
  insert_by x (y ∷ ys) =
      let rest = insert_by x ys in if str_leb (key x) (key y) then x ∷ y ∷ ys else y ∷ rest

  abbrev pub sort_by : List A → List A
  sort_by [] = []
  sort_by (x ∷ xs) = insert_by x (sort_by xs)

abbrev pub sort_strings : List String → List String
sort_strings xs = sort_by (λ s. s) xs

insert_comm :
    (x y : String) (l : List String)
    → insert_by (λ s. s) x (insert_by (λ s. s) y l) ≡ insert_by (λ s. s) y (insert_by (λ s. s) x l)
insert_comm x y [] = ground (arith, str_leb_total x y, str_leb_antisym x y)
insert_comm x y (z ∷ l) = ground (
  arith,
  str_leb_total x y,
  str_leb_antisym x y,
  insert_comm x y l,
  str_leb_trans x y z,
  str_leb_trans y x z,
)

permuted_sorts : {xs ys : List String} → Permᴰ xs ys → sort_strings xs ≡ sort_strings ys
permuted_sorts Permᴰ.nil = refl
permuted_sorts (Permᴰ.cons {b = b} e d) = rw (e, permuted_sorts d) refl
permuted_sorts (Permᴰ.swap {a' = a'} {b' = b'} {l = l} e f) =
    rw (e, f) (insert_comm b' a' (sort_strings l))
permuted_sorts (Permᴰ.trans d₁ d₂) = permuted_sorts d₁ ∙ permuted_sorts d₂

String_discrete : (s t : String) → Dec (s ≡ t)
String_discrete s t = elim (eq_cases s t) [ inl (b, e) ↦ yes e | inr (b, n) ↦ no n ]

pub String_set : IsSet String
String_set = hedberg String_discrete

pub sort_strings-Perm : {xs ys : List String} → Perm xs ys → sort_strings xs ≡ sort_strings ys
sort_strings-Perm p = ∥∥₁_elim p (hlevel String_set) permuted_sorts
