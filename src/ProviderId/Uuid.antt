-- ===== src/ProviderId/Uuid.antt =====
-- The regular expression `uuidRegex` of pkg/utils/provider.go, as a matcher and as a predicate.
use Prim.Native.Char.{Char, code}
use karpenter_provider_exosc.Prelude.{
  ℕ, zero, suc, ◌≡◌, refl, ap, ◌∙◌, ◌↔◌, inl, inr, Bool, true, false, ◌&&◌, ◌||◌, Option, none,
  some, String, arith, leb, ◌^^◌, if◌then◌else◌, ◌==◌, eq_iff, cut_prefix, cut_prefix-append,
  cut_prefix-inv, Option-cases, append-nil,
}

-- `[0-9a-f]`
abbrev pub is_hex : Char → Bool
is_hex c = (leb b'0' (code c) && leb (code c) b'9') || (leb b'a' (code c) && leb (code c) b'f')

-- `[0-9a-f]{n}`: the rest of the text behind `n` digits.
unfoldable pub take_hex : ℕ → String → Option String
take_hex zero s = some s
take_hex (suc n) String.[] = none
take_hex (suc n) (String.◌∷◌ c s) = let rest = take_hex n s in if is_hex c then rest else none

infixl 5 ◌>>=◌
abbrev ◌>>=◌ : Option String → (String → Option String) → Option String
none >>= f = none
some s >>= f = f s

-- `[0-9a-f]{n}-`
unfoldable pub take_group : ℕ → String → Option String
take_group n s = do rest ← take_hex n s; cut_prefix rest "-"

unfoldable pub match_all : String → Option String
match_all s = do
  s₁ ← take_group 8 s
  s₂ ← take_group 4 s₁
  s₃ ← take_group 4 s₂
  s₄ ← take_group 4 s₃
  take_hex 12 s₄

abbrev ends : Option String → Bool
ends none = false
ends (some s) = s == ""

-- `uuidRegex.MatchString(s)`
unfoldable pub match_uuid : String → Bool
match_uuid s = ends (match_all s)

-- A text of `n` lower-case hexadecimal digits.
abbrev pub IsHex : ℕ → String → Type 0
IsHex zero String.[] = Unit {0}
IsHex zero (String.◌∷◌ c s) = ⊥
IsHex (suc n) String.[] = ⊥
IsHex (suc n) (String.◌∷◌ c s) = (is_hex c ≡ true) × IsHex n s

-- A UUID: digits in groups of 8, 4, 4, 4 and 12 with dashes between.
pub record IsUuid (s : String) : Type 0 where
  pub a : String
  pub b : String
  pub c : String
  pub d : String
  pub e : String
  pub hex_a : IsHex 8 a
  pub hex_b : IsHex 4 b
  pub hex_c : IsHex 4 c
  pub hex_d : IsHex 4 d
  pub hex_e : IsHex 12 e
  pub is : s ≡ a ^^ "-" ^^ b ^^ "-" ^^ c ^^ "-" ^^ d ^^ "-" ^^ e

take_hex-append : (n : ℕ) (a r : String) → IsHex n a → take_hex n (a ^^ r) ≡ some r
unfolding take_hex
take_hex-append zero String.[] r h = refl
take_hex-append zero (String.◌∷◌ c a) r h = absurd h
take_hex-append (suc n) String.[] r h = absurd h
take_hex-append (suc n) (String.◌∷◌ c a) r h = ground (arith, take_hex-append n a r h.1)

take_hex-inv :
    (n : ℕ) (s r : String) → take_hex n s ≡ some r → (a : String) × IsHex n a × (s ≡ a ^^ r)
unfolding take_hex
take_hex-inv zero s r h = ("", tt, ground arith)
take_hex-inv (suc n) String.[] r h = absurd (ground arith)
take_hex-inv (suc n) (String.◌∷◌ c s) r h =
    let (a, hex, e) = take_hex-inv n s r (ground arith) in
    (String.◌∷◌ c a, (ground arith, hex), ap (String.◌∷◌ c) e)

take_group-append : (n : ℕ) (a r : String) → IsHex n a → take_group n (a ^^ "-" ^^ r) ≡ some r
unfolding take_group
take_group-append n a r h = rw (take_hex-append n a ("-" ^^ r) h) (cut_prefix-append "-" r)

take_group-inv :
    (n : ℕ) (s r : String)
    → take_group n s ≡ some r
    → (a : String) × IsHex n a × (s ≡ a ^^ "-" ^^ r)
unfolding take_group
take_group-inv n s r h = elim (Option-cases (take_hex n s)) [
  | inl e ↦ absurd (ground arith)
  | inr (t, e) ↦
      let (a, hex, p) = take_hex-inv n s t e in
      (a, hex, p ∙ ap (◌^^◌ a) (cut_prefix-inv t "-" r (ground arith)))
]

>>=-eq-some :
    (m : Option String) (f : String → Option String) (r : String)
    → (m >>= f) ≡ some r
    → (a : String) × (m ≡ some a) × (f a ≡ some r)
>>=-eq-some none f r h = absurd (ground arith)
>>=-eq-some (some a) f r h = (a, refl, h)

take_hex_all : (n : ℕ) (a : String) → IsHex n a → take_hex n a ≡ some ""
take_hex_all n a h = rw (append-nil a) at (take_hex-append n a "" h)

match_uuid_of : (s : String) → IsUuid s → match_uuid s ≡ true
unfolding match_uuid match_all
match_uuid_of s u = rw (
  u.is,
  take_group-append 8 u.a _ u.hex_a,
  take_group-append 4 u.b _ u.hex_b,
  take_group-append 4 u.c _ u.hex_c,
  take_group-append 4 u.d _ u.hex_d,
  take_hex_all 12 u.e u.hex_e,
)

ends-inv : (m : Option String) → ends m ≡ true → m ≡ some ""
ends-inv none h = absurd (ground arith)
ends-inv (some s) h = ground (arith, eq_iff s "")

uuid_of_match : (s : String) → match_uuid s ≡ true → IsUuid s
unfolding match_uuid match_all
uuid_of_match s h =
    let (s₁, e₁, k₁) = >>=-eq-some (take_group 8 s) _ "" (ends-inv _ h) in
    let (s₂, e₂, k₂) = >>=-eq-some (take_group 4 s₁) _ "" k₁ in
    let (s₃, e₃, k₃) = >>=-eq-some (take_group 4 s₂) _ "" k₂ in
    let (s₄, e₄, k₄) = >>=-eq-some (take_group 4 s₃) _ "" k₃ in
    let (a, ha, pa) = take_group-inv 8 s s₁ e₁ in
    let (b, hb, pb) = take_group-inv 4 s₁ s₂ e₂ in
    let (c, hc, pc) = take_group-inv 4 s₂ s₃ e₃ in
    let (d, hd, pd) = take_group-inv 4 s₃ s₄ e₄ in
    let (e, he, pe) = take_hex-inv 12 s₄ "" k₄ in
    record {
      a = a;
      b = b;
      c = c;
      d = d;
      e = e;
      hex_a = ha;
      hex_b = hb;
      hex_c = hc;
      hex_d = hd;
      hex_e = he;
      is =
          pa
          ∙ ap (λ t. a ^^ "-" ^^ t)
              (pb
                ∙ ap (λ t. b ^^ "-" ^^ t)
                    (pc
                      ∙ ap (λ t. c ^^ "-" ^^ t)
                          (pd ∙ ap (λ t. d ^^ "-" ^^ t) (pe ∙ append-nil e))));
    }

-- The matcher accepts exactly the UUIDs.
pub match_uuid_iff : (s : String) → (match_uuid s ≡ true) ↔ IsUuid s
match_uuid_iff s = (uuid_of_match s, match_uuid_of s)

pub not-IsUuid-empty : ¬ IsUuid ""
unfolding match_uuid match_all take_group take_hex
not-IsUuid-empty u = let h : match_uuid "" ≡ true = match_uuid_of "" u in cc
