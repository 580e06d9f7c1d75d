-- ===== src/Cache.antt =====
-- pkg/utils/cache.go: a cache of a list of resources with a time to live. A nil slice is `none`.
-- The lock makes two kinds of step atomic: a look under the read lock, and under the write lock the
-- second look with the refresh behind it. Steps of several callers interleave in any order.
use karpenter_provider_exosc.Prelude.{
  ◌+◌, ◌<◌, ◌≡◌, ◌⊎◌, refl, ap, ◌∙◌, inl, inr, Bool, true, false, Option, none, some, List, [], ◌∷◌,
  In, keep, Time, ltb, Result, ok, err, arith, if◌then◌else◌, ◌&&◌, Bool-cases, ok_inj, some_inj, ℕ,
}

module _ (T E : Type 0) (ttl : ℕ) where
  pub record ResourceCache : Type 0 where
    pub items : Option (List T)
    pub timestamp : Time

  abbrev pub is_some : Option (List T) → Bool
  is_some none = false
  is_some (some xs) = true

  unfoldable pub is_fresh : ResourceCache → Time → Bool
  is_fresh c now = ltb now (c.timestamp + ttl) && is_some c.items

  -- The steps: a look under the read lock at a time; a look under the write lock at a time, with the
  -- answer of `fetchFunc` and the time after it, should they be needed; and `Invalidate`.
  pub data Step : Type 0 where
    look : Time → Step
    refresh : Time → Result E (Option (List T)) → Time → Step
    invalidate : Step

  unfoldable pub store : ResourceCache → Result E (Option (List T)) → Time → ResourceCache
  store c (err e) stamp = c
  store c (ok xs) stamp = record { items = xs; timestamp = stamp }

  -- The cache after a step.
  unfoldable pub after : ResourceCache → Step → ResourceCache
  unfolding store
  after c (look now) = c
  after c (refresh now answer stamp) = if is_fresh c now then c else store c answer stamp
  after c invalidate = record { items = none; timestamp = 0 }

  -- What a step returns to its caller: `none` where a look misses, and for `Invalidate`.
  unfoldable pub returned : ResourceCache → Step → Option (Result E (Option (List T)))
  returned c (look now) = if is_fresh c now then some (ok c.items) else none
  returned c (refresh now answer stamp) = if is_fresh c now then some (ok c.items) else some answer
  returned c invalidate = none

  unfoldable pub run : ResourceCache → List Step → ResourceCache
  run c [] = c
  run c (s ∷ ss) = run (after c s) ss

  abbrev pub empty : ResourceCache
  empty = record { items = none; timestamp = 0 }

  -- `Get` of a single caller: the look, and where it misses the refresh.
  unfoldable pub get :
      ResourceCache
      → Time
      → Time
      → Result E (Option (List T))
      → Time
      → ResourceCache × Result E (Option (List T))
  get c now again answer stamp =
      if is_fresh c now
      then (c, ok c.items)
      else if is_fresh c again
      then (c, ok c.items)
      else (store c answer stamp, answer)

  abbrev pub filtered : (T → Bool) → Result E (Option (List T)) → Result E (List T)
  filtered p (err e) = err e
  filtered p (ok none) = ok []
  filtered p (ok (some xs)) = ok (keep p xs)

  -- `GetFiltered`
  unfoldable pub get_filtered :
      (T → Bool)
      → ResourceCache
      → Time
      → Time
      → Result E (Option (List T))
      → Time
      → ResourceCache × Result E (List T)
  get_filtered p c now again answer stamp =
      let r = get c now again answer stamp in (r.0, filtered p r.1)

  -- The cache holds items that a step of the history fetched, with the time of that step.
  abbrev pub Fetched : List Step → List T → Time → Type 0
  Fetched history xs stamp = (now : Time) × In (refresh now (ok (some xs)) stamp) history

  stored_items :
      (c : ResourceCache) (now stamp : Time) (answer : Result E (Option (List T))) (xs : List T)
      → (store c answer stamp).items ≡ some xs
      → ((c.items ≡ some xs) × ((store c answer stamp).timestamp ≡ c.timestamp))
        ⊎ ((answer ≡ ok (some xs)) × ((store c answer stamp).timestamp ≡ stamp))
  unfolding store
  stored_items c now stamp (err e) xs h = inl (h, refl)
  stored_items c now stamp (ok ys) xs h = inr (ap ok h, refl)

  after_items :
      (s : Step) (c : ResourceCache) (xs : List T)
      → (after c s).items ≡ some xs
      → ((c.items ≡ some xs) × ((after c s).timestamp ≡ c.timestamp))
        ⊎ Fetched (s ∷ []) xs (after c s).timestamp
  unfolding after
  after_items (look now) c xs h = inl (h, refl)
  after_items invalidate c xs h = absurd (ground arith)
  after_items (refresh now answer stamp) c xs h = elim (Bool-cases (is_fresh c now)) [
    | inl e ↦ rw e (inl (rw e at h, refl))
    | inr e ↦ rw e (elim (stored_items c now stamp answer xs (rw e at h)) [
      | inl old ↦ inl old
      | inr (got, at) ↦ inr (now, inl (rw (at, got) refl))
    ])
  ]

  run_items :
      (ss : List Step) (c : ResourceCache) (xs : List T)
      → (run c ss).items ≡ some xs
      → ((c.items ≡ some xs) × ((run c ss).timestamp ≡ c.timestamp))
        ⊎ Fetched ss xs (run c ss).timestamp
  unfolding run
  run_items [] c xs h = inl (h, refl)
  run_items (s ∷ ss) c xs h = elim (run_items ss (after c s) xs h) [
    | inr (now, at) ↦ inr (now, inr at)
    | inl (kept, stamp) ↦ elim (after_items s c xs kept) [
      | inl (old, before) ↦ inl (old, stamp ∙ before)
      | inr (now, inl same) ↦ inr (now, inl (rw stamp same))
      | inr (now, inr never) ↦ absurd never
    ]
  ]

  served :
      (history : List Step) (now : Time) (xs : List T)
      → is_fresh (run empty history) now ≡ true
      → (run empty history).items ≡ some xs
      → (stamp : Time) × Fetched history xs stamp × (now < stamp + ttl)
  unfolding is_fresh
  served history now xs fresh e = elim (run_items history empty xs e) [
    | inl (never, _) ↦ absurd (ground arith)
    | inr fetched ↦ ((run empty history).timestamp, fetched, ground arith)
  ]

  -- A step that asks for the items at a time.
  abbrev pub AsksAt : Step → Time → Type 0
  AsksAt (look at) now = at ≡ now
  AsksAt (refresh at answer stamp) now = at ≡ now
  AsksAt invalidate now = ⊥

  -- Whatever the order of the steps of all callers so far, from an empty cache: when a step returns
  -- items, either it is a refresh and its own fetch answered them, or it asks at a time at which one
  -- of those earlier steps had fetched these items, and stamped them less than the time to live
  -- before.
  pub run_serves-Fetched :
      (history : List Step) (s : Step) (xs : List T)
      → returned (run empty history) s ≡ some (ok (some xs))
      → ((now : Time) × (stamp : Time) × (s ≡ refresh now (ok (some xs)) stamp))
        ⊎ ((now : Time) × (stamp : Time) × AsksAt s now
            × Fetched history xs stamp
            × (now < stamp + ttl))
  unfolding returned
  run_serves-Fetched history (look now) xs h =
      elim (Bool-cases (is_fresh (run empty history) now)) [
        | inl f ↦
            let (stamp, at, in_time) = served history now xs f (ok_inj (some_inj (rw f at h))) in
            inr (now, stamp, refl, at, in_time)
        | inr f ↦ absurd (let h' = rw f at h in ground arith)
      ]
  run_serves-Fetched history (refresh now answer again) xs h =
      elim (Bool-cases (is_fresh (run empty history) now)) [
        | inl f ↦
            let (stamp, at, in_time) = served history now xs f (ok_inj (some_inj (rw f at h))) in
            inr (now, stamp, refl, at, in_time)
        | inr f ↦ inl (now, again, ap (λ x. refresh now x again) (some_inj (rw f at h)))
      ]
  run_serves-Fetched history invalidate xs h = absurd (ground arith)

  -- When a call has fetched items, a call within the time to live of that fetch returns them and
  -- leaves the cache alone, whatever a fetch would answer; after `Invalidate` a call returns what
  -- its fetch answers.
  pub get_caches :
      (c : ResourceCache) (now again stamp : Time) (xs : List T) (now' again' stamp' : Time)
      (answer' : Result E (Option (List T)))
      → is_fresh c now ≡ false
      → is_fresh c again ≡ false
      → let filled = (get c now again (ok (some xs)) stamp).0 in
        (now' < stamp + ttl → get filled now' again' answer' stamp' ≡ (filled, ok (some xs)))
        × ((get (after filled invalidate) now' again' answer' stamp').1 ≡ answer')
  unfolding get store after is_fresh
  get_caches c now again stamp xs now' again' stamp' answer' stale still_stale =
      rw (stale, still_stale) (λ h. ground arith, ground arith)
