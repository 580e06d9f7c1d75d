-- ===== src/Prelude/Text.antt =====
-- Go strings: concatenation and `strings.CutPrefix`. A string is its sequence of characters.
use Prim.Native.Char.{code}
use Prim.Native.String.{String}
use mathlib.Core.Path.{◌≡◌, refl, ap}
use mathlib.Core.Option.{Option, none, some}
use mathlib.Core.Logic.{◌≢◌, ◌↔◌, inl, inr}
use native.Mathlib.Omega.{arith}
use text.Mathlib.TextEquality.{Char-path}
use karpenter_provider_exosc.Prelude.Tests.{eqb, if◌then◌else◌, Option-cases}

-- `s + t`, by recursion on `s`.
infixr 65 ◌^^◌
abbrev pub ◌^^◌ : String → String → String
String.[] ^^ t = t
(String.◌∷◌ c s) ^^ t = String.◌∷◌ c (s ^^ t)

-- `strings.CutPrefix(s, prefix)`; `none` where the prefix is not found.
abbrev pub cut_prefix : String → String → Option String
cut_prefix s String.[] = some s
cut_prefix String.[] (String.◌∷◌ p ps) = none
cut_prefix (String.◌∷◌ c s) (String.◌∷◌ p ps) =
    let rest = cut_prefix s ps in if eqb (code c) (code p) then rest else none

pub cut_prefix-append : (p s : String) → cut_prefix (p ^^ s) p ≡ some s
cut_prefix-append String.[] s = refl
cut_prefix-append (String.◌∷◌ c p) s = ground (arith, cut_prefix-append p s)

pub cut_prefix-inv : (s p r : String) → cut_prefix s p ≡ some r → s ≡ p ^^ r
cut_prefix-inv s String.[] r h = ground arith
cut_prefix-inv String.[] (String.◌∷◌ p ps) r h = absurd (ground arith)
cut_prefix-inv (String.◌∷◌ c s) (String.◌∷◌ p ps) r h =
    ground (arith, Char-path c p, cut_prefix-inv s ps r)

pub append-nil : (s : String) → s ^^ "" ≡ s
append-nil String.[] = refl
append-nil (String.◌∷◌ c s) = ap (String.◌∷◌ c) (append-nil s)

pub cut_prefix_iff : (s p r : String) → (cut_prefix s p ≡ some r) ↔ (s ≡ p ^^ r)
cut_prefix_iff s p r = (cut_prefix-inv s p r, λ e. rw e (cut_prefix-append p r))

pub cut_prefix-none : (s p : String) → (cut_prefix s p ≡ none) ↔ ((r : String) → s ≢ p ^^ r)
cut_prefix-none s p = elim (Option-cases (cut_prefix s p)) [
  | inl e ↦ (λ _ r h. absurd (ground (arith, cut_prefix_iff s p r)), λ _. e)
  | inr (r, e) ↦ (λ h. absurd (ground arith), λ h. absurd (h r (cut_prefix-inv s p r e)))
]

pub iff_trans {ℓ κ ι} : {A : Type ℓ} {B : Type κ} {C : Type ι} → A ↔ B → B ↔ C → A ↔ C
iff_trans f g = (λ a. g.0 (f.0 a), λ c. f.1 (g.1 c))
