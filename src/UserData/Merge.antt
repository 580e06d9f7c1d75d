-- ===== src/UserData/Merge.antt =====
-- pkg/providers/userdata/bootstrap/sks.go: `deepMerge` over parsed TOML documents. A Go map is the
-- chain of its entries in the order of an iteration; every value that is no map is a leaf.
use karpenter_provider_exosc.Prelude.{
  ◌≡◌, refl, subst, Option, none, some, String, arith, if◌then◌else◌, ◌==◌, eq_iff, eq_cases, inl,
  inr,
}

module _ (Leaf : Type 0) where
  mutual
    pub data Value : Type 0 where
      leaf : Leaf → Value
      table : Fields → Value

    pub data Fields : Type 0 where
      end : Fields
      field : String → Value → Fields → Fields

-- `m[k]` and `m[k] = v`
module _ {Leaf : Type 0} where
  abbrev pub value_at : String → Fields Leaf → Option (Value Leaf)
  value_at k end = none
  value_at k (field j v fs) = if j == k then some v else value_at k fs

  abbrev pub put : String → Value Leaf → Fields Leaf → Fields Leaf
  put k v end = field k v end
  put k v (field j w fs) = if j == k then field k v fs else field j w (put k v fs)

  -- The value of a key after the step for it: a table goes into a table that is there, any other
  -- value takes the place; and the loop over the second map, from the copy of the first.
  unfoldable mutual
    pub merged : Option (Value Leaf) → Value Leaf → Value Leaf
    merged none (leaf l) = leaf l
    merged none (table s) = table s
    merged (some (leaf m)) (leaf l) = leaf l
    merged (some (leaf m)) (table s) = table s
    merged (some (table d)) (leaf l) = leaf l
    merged (some (table d)) (table s) = table (deep_merge d s)

    pub deep_merge : Fields Leaf → Fields Leaf → Fields Leaf
    deep_merge d end = d
    deep_merge d (field k v fs) = deep_merge (put k (merged (value_at k d) v) d) fs

  -- In a Go map each key occurs once, at every depth.
  unfoldable mutual
    pub DistinctWithin : Value Leaf → Type 0
    DistinctWithin (leaf l) = Unit
    DistinctWithin (table fs) = Distinct fs

    pub Distinct : Fields Leaf → Type 0
    Distinct end = Unit
    Distinct (field k v fs) = (value_at k fs ≡ none) × DistinctWithin v × Distinct fs

  value_at-put :
      (k j : String) (v : Value Leaf) (fs : Fields Leaf)
      → value_at j (put k v fs) ≡ (if k == j then some v else value_at j fs)
  value_at-put k j v end = refl
  value_at-put k j v (field i w fs) =
      ground (arith, eq_iff k j, eq_iff i k, eq_iff i j, value_at-put k j v fs)

  pub value_at-Distinct :
      (k : String) (v : Value Leaf) (fs : Fields Leaf)
      → Distinct fs
      → value_at k fs ≡ some v
      → DistinctWithin v
  unfolding Distinct DistinctWithin
  value_at-Distinct k v end d h = absurd (ground arith)
  value_at-Distinct k v (field j w fs) (fresh, dw, dfs) h = elim (eq_cases j k) [
    | inl (e, same) ↦ let is : w ≡ v = ground arith in subst DistinctWithin (is) dw
    | inr (e, differ) ↦ value_at-Distinct k v fs dfs (ground arith)
  ]

  -- What a key of the two maps gives in the merged one.
  abbrev pub merged_at : Option (Value Leaf) → Option (Value Leaf) → Option (Value Leaf)
  merged_at d none = d
  merged_at d (some v) = some (merged d v)

  pub value_at-deep_merge :
      (k : String) (d s : Fields Leaf)
      → Distinct s
      → value_at k (deep_merge d s) ≡ merged_at (value_at k d) (value_at k s)
  unfolding deep_merge Distinct
  value_at-deep_merge k d end h = refl
  value_at-deep_merge k d (field j v fs) (fresh, dv, dfs) =
      let next = put j (merged (value_at j d) v) d in
      let ih = value_at-deep_merge k next fs dfs in
      elim (eq_cases j k) [
        | inl (e, same) ↦
            let absent : value_at k fs ≡ none = rw (← same) fresh in
            let here = value_at-put j k (merged (value_at j d) v) d in
            rw (e, ih, absent, here, e, same) refl
        | inr (e, differ) ↦
            let here = value_at-put j k (merged (value_at j d) v) d in rw (e, ih, here, e) refl
      ]
