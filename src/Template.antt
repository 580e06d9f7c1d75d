-- ===== src/Template.antt =====
-- pkg/providers/template/provider.go: the template of a NodeClass. `detect` is the server's version
-- by the discovery client, `active` the template that the Exoscale API has for a version and a
-- variant.
use Prim.Native.Char.{Char, code}
use karpenter_provider_exosc.NodeClass.{ExoscaleNodeClass, ImageTemplateSelector}
use karpenter_provider_exosc.Prelude.{
  ◌≡◌, ◌≢◌, refl, Bool, true, false, not, ◌&&◌, Option, none, some, String, Map, Result, ok, err,
  ◌>>=◌, ◌^^◌, arith, leb, if◌then◌else◌, ◌==◌, eq_iff, eqb, [], ◌∷◌,
}

pub record Template : Type 0 where
  pub id : String
  pub labels : Map String

pub data TemplateError : Type 0 where
  unspecified version_undetected unparsable_version unknown_variant no_active_template :
      TemplateError

-- `\d`, and the longest prefix of digits with what follows it
abbrev pub is_digit : Char → Bool
is_digit c = leb 48 (code c) && leb (code c) 57

abbrev pub push_digit : Char → String × String → String × String
push_digit c p = (String.◌∷◌ c p.0, p.1)

unfoldable pub digits : String → String × String
digits String.[] = ("", "")
digits (String.◌∷◌ c s) =
    let rest = digits s in if is_digit c then push_digit c rest else ("", String.◌∷◌ c s)

abbrev pub non_empty : String × String → Option (String × String)
non_empty p = if p.0 == "" then none else some p

-- `\d+` and `\.`
unfoldable pub number : String → Option (String × String)
unfolding digits
number s = non_empty (digits s)

unfoldable pub dot : String → Option String
dot String.[] = none
dot (String.◌∷◌ c s) = if eqb (code c) 46 then some s else none

abbrev and_then : {A B : Type 0} → Option A → (A → Option B) → Option B
and_then none f = none
and_then (some a) f = f a

-- `\d+\.\d+\.\d+` at the start of a text
unfoldable pub three_numbers : String → Option String
unfolding number dot
three_numbers s = and_then (number s) (λ a. and_then (dot a.1) (λ r. and_then (number r) (λ b.
    and_then (dot b.1) (λ q. and_then (number q) (λ c. some (a.0 ^^ "." ^^ b.0 ^^ "." ^^ c.0))))))

-- `v?`
unfoldable pub skip_v : String → String
skip_v String.[] = ""
skip_v (String.◌∷◌ c s) = if eqb (code c) 118 then s else String.◌∷◌ c s

unfoldable pub extract_sem_ver : String → Option String
unfolding skip_v three_numbers
extract_sem_ver git_version = three_numbers (skip_v git_version)

abbrev or_error : TemplateError → Option String → Result TemplateError String
or_error e none = err e
or_error e (some v) = ok v

-- `lookupTemplate`
unfoldable pub lookup_template :
    (String → String → Result TemplateError String) → String → String → Result TemplateError String
lookup_template active version variant =
    if variant == "standard"
    then active version "standard"
    else if variant == "nvidia"
    then active version "nvidia"
    else err unknown_variant

unfoldable pub get_kubernetes_version : Result TemplateError String → Result TemplateError String
unfolding extract_sem_ver skip_v
get_kubernetes_version detect = detect >>= λ v. or_error unparsable_version (extract_sem_ver v)

abbrev template_of : String → Template
template_of id = record { id = id; labels = ("kubernetes.io/os", "linux") ∷ [] }

abbrev selected_version : Result TemplateError String → String → Result TemplateError String
selected_version detect version =
    if version == "" then get_kubernetes_version detect else ok version

abbrev pub selected :
    (String → String → Result TemplateError String)
    → Result TemplateError String
    → Option ImageTemplateSelector
    → Result TemplateError Template
selected active detect none = err unspecified
selected active detect (some s) = selected_version detect s.version >>= λ version.
    lookup_template active version (if s.variant == "" then "standard" else s.variant) >>= λ id.
    ok (template_of id)

-- `ResolveTemplate`
unfoldable pub resolve_template :
    (String → String → Result TemplateError String)
    → Result TemplateError String
    → ExoscaleNodeClass
    → Result TemplateError Template
unfolding get_kubernetes_version lookup_template
resolve_template active detect nc =
    if not (nc.spec.template_id == "")
    then ok (template_of nc.spec.template_id)
    else selected active detect nc.spec.image_template_selector

-- A text of at least one digit.
abbrev pub AllDigits : String → Type 0
AllDigits String.[] = Unit
AllDigits (String.◌∷◌ c s) = (is_digit c ≡ true) × AllDigits s

abbrev pub StartsWithout : String → Type 0
StartsWithout String.[] = Unit
StartsWithout (String.◌∷◌ c s) = is_digit c ≡ false

digits-append : (a r : String) → AllDigits a → StartsWithout r → digits (a ^^ r) ≡ (a, r)
unfolding digits
digits-append String.[] String.[] h k = refl
digits-append String.[] (String.◌∷◌ c r) h k = rw k refl
digits-append (String.◌∷◌ c a) r (d, h) k = rw (d, digits-append a r h k) refl

number-append :
    (a r : String) → a ≢ "" → AllDigits a → StartsWithout r → number (a ^^ r) ≡ some (a, r)
unfolding number
number-append a r n h k =
    let e : (a == "") ≡ false = ground (arith, eq_iff a "") in rw (digits-append a r h k, e) refl

-- A number of a version: digits, at least one.
abbrev pub IsNumber : String → Type 0
IsNumber a = (a ≢ "") × AllDigits a

three_numbers-append :
    (a b c rest : String)
    → IsNumber a
    → IsNumber b
    → IsNumber c
    → StartsWithout rest
    → three_numbers (a ^^ "." ^^ b ^^ "." ^^ c ^^ rest) ≡ some (a ^^ "." ^^ b ^^ "." ^^ c)
unfolding three_numbers dot
three_numbers-append a b c rest (na, da) (nb, db) (nc, dc) k =
    let last = number-append c rest nc dc k in
    let middle = number-append b ("." ^^ c ^^ rest) nb db refl in
    let first = number-append a ("." ^^ b ^^ "." ^^ c ^^ rest) na da refl in
    rw (first, middle, last) refl

skip_v-number : (a s : String) → IsNumber a → skip_v (a ^^ s) ≡ a ^^ s
unfolding skip_v
skip_v-number String.[] s (n, d) = absurd (n refl)
skip_v-number (String.◌∷◌ c a) s (n, (d, h)) =
    let e : eqb (code c) 118 ≡ false = ground arith in rw e refl

-- From three numbers with points between them, with or without a `v` in front and with anything but a
-- digit behind, the version is these numbers.
pub extract_sem_ver-append :
    (a b c rest : String)
    → IsNumber a
    → IsNumber b
    → IsNumber c
    → StartsWithout rest
    → (extract_sem_ver (a ^^ "." ^^ b ^^ "." ^^ c ^^ rest) ≡ some (a ^^ "." ^^ b ^^ "." ^^ c))
      × (extract_sem_ver ("v" ^^ a ^^ "." ^^ b ^^ "." ^^ c ^^ rest)
          ≡ some (a ^^ "." ^^ b ^^ "." ^^ c))
unfolding extract_sem_ver skip_v
extract_sem_ver-append a b c rest ia ib ic k =
    let three = three_numbers-append a b c rest ia ib ic k in
    (rw (skip_v-number a ("." ^^ b ^^ "." ^^ c ^^ rest) ia) three, three)
