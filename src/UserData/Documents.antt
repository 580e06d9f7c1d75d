-- ===== src/UserData/Documents.antt =====
-- A document as the function of its paths, and the merge of two such functions.
use karpenter_provider_exosc.Prelude.{
  ◌≡◌, refl, Option, none, some, String, List, [], ◌∷◌, ◌++◌, arith, Option-cases, inl, inr,
}
use karpenter_provider_exosc.UserData.Merge.{
  Value, Fields, leaf, table, merged, deep_merge, Distinct, DistinctWithin, value_at, merged_at,
  value_at-deep_merge, value_at-Distinct,
}

module _ (Leaf : Type 0) where
  -- What a path of keys leads to: a leaf with its value, or a table.
  pub data Kind : Type 0 where
    is_leaf : Leaf → Kind
    is_table : Kind

abbrev pub Document : Type 0 → Type 0
Document Leaf = List String → Option (Kind Leaf)

module _ {Leaf : Type 0} where
  abbrev kind_of : Option (Value Leaf) → Option (Kind Leaf)
  kind_of none = none
  kind_of (some (leaf l)) = some (is_leaf l)
  kind_of (some (table fs)) = some is_table

  abbrev below : String → Option (Value Leaf) → Option (Value Leaf)
  below k none = none
  below k (some (leaf l)) = none
  below k (some (table fs)) = value_at k fs

  -- A value, or its absence, as a document.
  abbrev pub view : Option (Value Leaf) → Document Leaf
  view v [] = kind_of v
  view v (k ∷ p) = view (below k v) p

  abbrev choose :
      Option (Kind Leaf)
      → Option (Kind Leaf)
      → Option (Kind Leaf)
      → Option (Kind Leaf)
      → Option (Kind Leaf)
      → Option (Kind Leaf)
  choose d none user ours both = user
  choose none (some s) user ours both = ours
  choose (some (is_leaf m)) (some s) user ours both = ours
  choose (some is_table) (some (is_leaf l)) user ours both = ours
  choose (some is_table) (some is_table) user ours both = both

  -- The specification of the merge, by the kinds at the root: where the second document has nothing
  -- the first counts, where both are tables it goes on below, and else the second counts.
  unfoldable pub overlay : Document Leaf → Document Leaf → Document Leaf
  overlay d s [] = choose (d []) (s []) (d []) (s []) (some is_table)
  overlay d s (k ∷ p) =
      let deeper = overlay (λ q. d (k ∷ q)) (λ q. s (k ∷ q)) p in
      choose (d []) (s []) (d (k ∷ p)) (s (k ∷ p)) deeper

  abbrev DistinctAt : Option (Value Leaf) → Type 0
  DistinctAt none = Unit
  DistinctAt (some v) = DistinctWithin v

  value_at-DistinctAt : (k : String) (s : Fields Leaf) → Distinct s → DistinctAt (value_at k s)
  value_at-DistinctAt k s h = elim (Option-cases (value_at k s)) [
    | inl e ↦ rw e tt
    | inr (v, e) ↦ rw e (value_at-Distinct k v s h e)
  ]

  view-merged_at :
      (p : List String) (d s : Option (Value Leaf))
      → DistinctAt s
      → view (merged_at d s) p ≡ overlay (view d) (view s) p
  unfolding overlay merged DistinctWithin
  view-merged_at [] none none h = refl
  view-merged_at [] (some (leaf m)) none h = refl
  view-merged_at [] (some (table d)) none h = refl
  view-merged_at [] none (some (leaf l)) h = refl
  view-merged_at [] none (some (table s)) h = refl
  view-merged_at [] (some (leaf m)) (some (leaf l)) h = refl
  view-merged_at [] (some (leaf m)) (some (table s)) h = refl
  view-merged_at [] (some (table d)) (some (leaf l)) h = refl
  view-merged_at [] (some (table d)) (some (table s)) h = refl
  view-merged_at (k ∷ p) none none h = refl
  view-merged_at (k ∷ p) (some (leaf m)) none h = refl
  view-merged_at (k ∷ p) (some (table d)) none h = refl
  view-merged_at (k ∷ p) none (some (leaf l)) h = refl
  view-merged_at (k ∷ p) none (some (table s)) h = refl
  view-merged_at (k ∷ p) (some (leaf m)) (some (leaf l)) h = refl
  view-merged_at (k ∷ p) (some (leaf m)) (some (table s)) h = refl
  view-merged_at (k ∷ p) (some (table d)) (some (leaf l)) h = refl
  view-merged_at (k ∷ p) (some (table d)) (some (table s)) h =
      rw (value_at-deep_merge k d s h)
        (view-merged_at p (value_at k d) (value_at k s) (value_at-DistinctAt k s h))

  -- If each key occurs once in the generated document, at every depth, the merged document shows at
  -- every path what the overlay of the generated over the user's document shows there.
  pub view-deep_merge :
      (d s : Fields Leaf) (p : List String)
      → Distinct s
      → view (some (table (deep_merge d s))) p
        ≡ overlay (view (some (table d))) (view (some (table s))) p
  unfolding merged DistinctWithin
  view-deep_merge d s p h = view-merged_at p (some (table d)) (some (table s)) h

  view-none : (p : List String) → view none p ≡ none
  view-none [] = refl
  view-none (k ∷ p) = view-none p

  kind_none : (v : Option (Value Leaf)) → kind_of v ≡ none → v ≡ none
  kind_none none h = refl
  kind_none (some (leaf l)) h = absurd (ground arith)
  kind_none (some (table fs)) h = absurd (ground arith)

  generated_wins :
      (p : List String) (d s : Option (Value Leaf)) (l : Leaf)
      → DistinctAt s
      → view s p ≡ some (is_leaf l)
      → view (merged_at d s) p ≡ some (is_leaf l)
  unfolding merged DistinctWithin
  generated_wins p d none l h e = absurd (let f = view-none p in ground arith)
  generated_wins p none (some (leaf m)) l h e = e
  generated_wins p none (some (table s)) l h e = e
  generated_wins p (some (leaf n)) (some (leaf m)) l h e = e
  generated_wins p (some (leaf n)) (some (table s)) l h e = e
  generated_wins p (some (table d)) (some (leaf m)) l h e = e
  generated_wins [] (some (table d)) (some (table s)) l h e = absurd (ground arith)
  generated_wins (k ∷ p) (some (table d)) (some (table s)) l h e =
      rw (value_at-deep_merge k d s h)
        (generated_wins p (value_at k d) (value_at k s) l (value_at-DistinctAt k s h) e)

  user_here :
      (k : String) (r : List String) (d s : Fields Leaf)
      → Distinct s
      → value_at k s ≡ none
      → view (some (table (deep_merge d s))) (k ∷ r) ≡ view (some (table d)) (k ∷ r)
  user_here k r d s h free = rw (value_at-deep_merge k d s h, free) refl

  user_below :
      (j : String) (p : List String) (d s : Fields Leaf)
      → Distinct s
      → view (merged_at (value_at j d) (value_at j s)) p ≡ view (value_at j d) p
      → view (some (table (deep_merge d s))) (j ∷ p) ≡ view (some (table d)) (j ∷ p)
  user_below j p d s h ih = rw (value_at-deep_merge j d s h) ih

  user_stays :
      (q : List String) (k : String) (r : List String) (d s : Option (Value Leaf))
      → DistinctAt s
      → view d q ≡ some is_table
      → view s q ≡ some is_table
      → view s (q ++ k ∷ []) ≡ none
      → view (merged_at d s) (q ++ k ∷ r) ≡ view d (q ++ k ∷ r)
  unfolding merged DistinctWithin
  user_stays q k r d none h a b c = refl
  user_stays [] k r none (some s) h a b c = absurd (ground arith)
  user_stays [] k r (some (leaf m)) (some s) h a b c = absurd (ground arith)
  user_stays [] k r (some (table d)) (some (leaf l)) h a b c = absurd (ground arith)
  user_stays [] k r (some (table d)) (some (table s)) h a b c =
      user_here k r d s h (kind_none (value_at k s) c)
  user_stays (j ∷ q) k r none (some s) h a b c = absurd (let f = view-none q in ground arith)
  user_stays (j ∷ q) k r (some (leaf m)) (some s) h a b c =
      absurd (let f = view-none q in ground arith)
  user_stays (j ∷ q) k r (some (table d)) (some (leaf l)) h a b c =
      absurd (let f = view-none q in ground arith)
  user_stays (j ∷ q) k r (some (table d)) (some (table s)) h a b c =
      user_below j (q ++ k ∷ r) d s h
        (user_stays q k r (value_at j d) (value_at j s) (value_at-DistinctAt j s h) a b c)

  -- If each key occurs once in the generated document, at every depth: a leaf of the generated
  -- document is at its path in the merged one, whatever the user's document has there; and below a
  -- path that is a table in both, what the user has under a key that the generated table lacks is
  -- in the merged document unchanged.
  pub deep_merge_lem :
      (d s : Fields Leaf)
      → Distinct s
      → ((p : List String) (l : Leaf)
          → view (some (table s)) p ≡ some (is_leaf l)
          → view (some (table (deep_merge d s))) p ≡ some (is_leaf l))
        × ((q : List String) (k : String) (r : List String)
            → view (some (table d)) q ≡ some is_table
            → view (some (table s)) q ≡ some is_table
            → view (some (table s)) (q ++ k ∷ []) ≡ none
            → view (some (table (deep_merge d s))) (q ++ k ∷ r)
              ≡ view (some (table d)) (q ++ k ∷ r))
  unfolding merged DistinctWithin
  deep_merge_lem d s h = (
    λ p l. generated_wins p (some (table d)) (some (table s)) l h,
    λ q k r. user_stays q k r (some (table d)) (some (table s)) h,
  )
