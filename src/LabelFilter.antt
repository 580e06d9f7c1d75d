-- ===== src/LabelFilter.antt =====
-- pkg/utils/labels/labels.go: the labels filter of the listing request. The pairs of the Go map are
-- taken in the order of the list.
use Prim.Native.Char.{Char, code}
use karpenter_provider_exosc.Constants.{
  instance_label_managed_by, instance_label_cluster_id, managed_by_karpenter,
}
use karpenter_provider_exosc.Prelude.{
  ◌≡◌, ◌↔◌, refl, inl, inr, Bool, false, ◌||◌, String, List, [], ◌∷◌, Map, In, Result, ok, err,
  arith, eqb, ◌^^◌, if◌then◌else◌, Bool-cases, Result-cases, ap,
}

pub data EncodeError : Type 0 where
  blank_in_value blank_in_key : String → EncodeError

abbrev is_space : Char → Bool
is_space c = eqb (code c) 32

abbrev is_blank : Char → Bool
is_blank c = is_space c || eqb (code c) 10 || eqb (code c) 9

-- `strings.ContainsAny(v, " \n\t")` and `strings.Contains(k, " ")`
unfoldable pub contains_blank : String → Bool
contains_blank String.[] = false
contains_blank (String.◌∷◌ c s) = is_blank c || contains_blank s

unfoldable pub contains_space : String → Bool
contains_space String.[] = false
contains_space (String.◌∷◌ c s) = is_space c || contains_space s

abbrev with_pair : String → Result EncodeError (List String) → Result EncodeError (List String)
with_pair p (ok ps) = ok (p ∷ ps)
with_pair p (err e) = err e

-- The loop, which collects the pairs.
unfoldable pub encode_pairs : Map String → Result EncodeError (List String)
encode_pairs [] = ok []
encode_pairs ((k, v) ∷ labels) =
    let rest = encode_pairs labels in
    if contains_blank v
    then err (blank_in_value k)
    else if contains_space k
    then err (blank_in_key k)
    else with_pair (k ^^ "=" ^^ v) rest

-- `strings.Join(pairs, " ")`
unfoldable pub join : List String → String
join [] = ""
join (p ∷ []) = p
join (p ∷ q ∷ ps) = p ^^ " " ^^ join (q ∷ ps)

abbrev joined : Result EncodeError (List String) → Result EncodeError String
joined (ok ps) = ok (join ps)
joined (err e) = err e

-- An empty map has no pairs, and joins to the empty text that the source returns at once.
unfoldable pub encode : Map String → Result EncodeError String
encode labels = joined (encode_pairs labels)

unfoldable pub karpenter_filter : String → Result EncodeError String
karpenter_filter cluster_id = encode (
    (instance_label_managed_by, managed_by_karpenter)
    ∷ (instance_label_cluster_id, cluster_id)
    ∷ [])

encode_pairs_iff :
    (labels : Map String)
    → ((ps : List String) × (encode_pairs labels ≡ ok ps)) ↔ (
        (k v : String) → In (k, v) labels → (contains_blank v ≡ false) × (contains_space k ≡ false))
unfolding encode_pairs
encode_pairs_iff [] = (λ _ k v h. absurd h, λ _. ([], refl))
encode_pairs_iff ((k, v) ∷ labels) = elim (Bool-cases (contains_blank v)) [
  | inl b ↦ (
    λ (ps, e). absurd (let e' = rw b at e in ground arith),
    λ h. absurd (let f = (h k v (inl refl)).0 in ground arith),
  )
  | inr b ↦ elim (Bool-cases (contains_space k)) [
    | inl s ↦ (
      λ (ps, e). absurd (let e' = rw (b, s) at e in ground arith),
      λ h. absurd (let f = (h k v (inl refl)).1 in ground arith),
    )
    | inr s ↦ elim (Result-cases (encode_pairs labels)) [
      | inr (f, r) ↦ (
        λ (ps, e). absurd (let e' = rw (b, s, r) at e in ground arith),
        λ h.
            let (ps, e) = (encode_pairs_iff labels).1 (λ j w at. h j w (inr at)) in
            absurd (ground arith),
      )
      | inl (ps, r) ↦ (
        λ _ j w at. elim at [
          | inl same ↦ rw (ap (λ x. x.0) same, ap (λ x. x.1) same) (b, s)
          | inr later ↦ (encode_pairs_iff labels).0 (ps, r) j w later
        ],
        λ h. ((k ^^ "=" ^^ v) ∷ ps, rw (b, s, r) refl),
      )
    ]
  ]
]

-- The encoding succeeds exactly if no value holds a space, a line break or a tabulator, and no key a
-- space.
pub encode_iff :
    (labels : Map String)
    → ((text : String) × (encode labels ≡ ok text)) ↔ (
        (k v : String) → In (k, v) labels → (contains_blank v ≡ false) × (contains_space k ≡ false))
unfolding encode
encode_iff labels = elim (Result-cases (encode_pairs labels)) [
  | inl (ps, e) ↦ (λ _. (encode_pairs_iff labels).0 (ps, e), λ _. (join ps, rw e refl))
  | inr (f, e) ↦ (
    λ (text, h). absurd (let h' = rw e at h in ground arith),
    λ h. let (ps, g) = (encode_pairs_iff labels).1 h in absurd (ground arith),
  )
]
