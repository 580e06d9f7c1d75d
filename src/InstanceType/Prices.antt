-- ===== src/InstanceType/Prices.antt =====
-- `loadPrices` and `extractPrice`. A Go map is iterated in any order: the maps are lists here, in
-- the order of an iteration. `parse` is `strconv.ParseFloat`.
use Prim.Native.Char.{Char}
use karpenter_provider_exosc.Prelude.{
  ◌≡◌, ◌≢◌, refl, sym, ap, ◌∙◌, inl, inr, Option, none, some, String, [], ◌∷◌, In, Map, lookup,
  insert, cut_prefix, arith, ◌^^◌, if◌then◌else◌, ◌==◌, Option-cases, some_inj,
}

abbrev prepend : Char → Option String → Option String
prepend c none = none
prepend c (some s) = some (String.◌∷◌ c s)

-- What is left before a suffix; `none` where the text does not end with it.
unfoldable pub cut_suffix : String → String → Option String
cut_suffix String.[] suffix = if "" == suffix then some "" else none
cut_suffix (String.◌∷◌ c s) suffix =
    let rest = cut_suffix s suffix in if String.◌∷◌ c s == suffix then some "" else prepend c rest

abbrev or_else : Option String → String → String
or_else none s = s
or_else (some r) s = r

-- `strings.TrimSuffix` and `strings.TrimPrefix`
unfoldable pub trim_suffix : String → String → String
unfolding cut_suffix
trim_suffix s suffix = or_else (cut_suffix s suffix) s

unfoldable pub trim_prefix : String → String → String
trim_prefix s prefix = or_else (cut_prefix s prefix) s

abbrev pub raw_instance_sizes : Map String
raw_instance_sizes =
    ("extra_large", "extra-large")
    ∷ ("colossus", "colossus")
    ∷ ("jumbo", "jumbo")
    ∷ ("titan", "titan")
    ∷ ("micro", "micro")
    ∷ ("tiny", "tiny")
    ∷ ("small", "small")
    ∷ ("medium", "medium")
    ∷ ("large", "large")
    ∷ ("huge", "huge")
    ∷ ("mega", "mega")
    ∷ []

abbrev pub raw_instance_families : Map String
raw_instance_families =
    ("", "standard")
    ∷ ("cpu", "cpu")
    ∷ ("storage", "storage")
    ∷ ("memory", "memory")
    ∷ ("gpu", "gpua30")
    ∷ ("gpu2", "gpu2")
    ∷ ("gpu3", "gpu3")
    ∷ ("gpu_a5000", "gpua5000")
    ∷ ("gpu_3080ti", "gpu3080ti")
    ∷ []

abbrev first_found : Option String → String → String × String → String × String
first_found none size rest = rest
first_found (some family) size rest = (trim_suffix family "_", size)

-- The loop over the sizes: the first that ends the key, with the family before it.
unfoldable pub split_key : Map String → String → String × String
unfolding cut_suffix
split_key [] key = ("", "")
split_key ((size, name) ∷ sizes) key =
    let rest = split_key sizes key in first_found (cut_suffix key size) size rest

abbrev pub value_or_empty : Option String → String
value_or_empty none = ""
value_or_empty (some v) = v

module _ (Price : Type 0) (parse : String → Option Price) where
  abbrev priced : String → Option Price → Option (String × Price)
  priced name none = none
  priced name (some p) = some (name, p)

  -- `none` is an error.
  unfoldable pub extract_price : Map String → Map String → String → String → Option (String × Price)
  extract_price families sizes key price =
      let (family, size) = split_key sizes (trim_prefix key "running_") in
      priced (value_or_empty (lookup family families) ^^ "." ^^ value_or_empty (lookup size sizes))
        (parse price)

  abbrev store : Option (String × Price) → Map Price → Map Price
  store none prices = prices
  store (some (name, p)) prices = insert name p prices

  -- The loop of `loadPrices` over the prices in EUR.
  unfoldable pub load_loop : Map String → Map Price → Map Price
  load_loop [] prices = prices
  load_loop ((key, price) ∷ raw) prices =
      let skipped = load_loop raw prices in
      let stored =
        load_loop raw
          (store (extract_price raw_instance_families raw_instance_sizes key price) prices) in
      elim (cut_prefix key "running_") [ none ↦ skipped | some r ↦ stored ]

  unfoldable pub load_prices : Map String → Map Price
  load_prices raw = load_loop raw []

-- Where one size alone of the map ends the key, the order of the iteration does not count: that size
-- is found, with the text before it, less an underscore, as the family.
pub split_key_lem :
    (sizes : Map String) (key size name family : String)
    → In (size, name) sizes
    → cut_suffix key size ≡ some family
    → ((s n : String) → In (s, n) sizes → cut_suffix key s ≢ none → s ≡ size)
    → split_key sizes key ≡ (trim_suffix family "_", size)
unfolding split_key
split_key_lem [] key size name family at ends alone = absurd at
split_key_lem ((s, n) ∷ sizes) key size name family at ends alone =
    elim (Option-cases (cut_suffix key s)) [
      | inr (rest, e) ↦
          let same : s ≡ size = alone s n (inl refl) (λ h. ground arith) in
          rw (e, same, split_key)
            (ap (λ (x : String). (trim_suffix x "_", size))
              (some_inj (sym e ∙ rw (← same) at ends)))
      | inl e ↦ elim at [
        | inl here ↦ absurd (ground arith)
        | inr there ↦
            rw (e, split_key)
              (split_key_lem sizes key size name family there ends (λ t m h. alone t m (inr h)))
      ]
    ]
