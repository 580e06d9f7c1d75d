-- ===== src/CloudProvider/Eviction.antt =====
-- How `drainNode` ends.
use karpenter_provider_exosc.Kube.{
  ApiError, not_found, already_exists, conflict, bad_request, other,
}
use karpenter_provider_exosc.Prelude.{
  ℕ, zero, suc, ◌+◌, ◌*◌, ◌≤◌, ◌<◌, ◌≡◌, ◌≢◌, ◌⊎◌, refl, sym, ap, ◌∙◌, inl, inr, Bool, true, false,
  ◌||◌, Option, none, some, List, [], ◌∷◌, ◌++◌, In, In-append, ltb, Result, ok, err, arith,
  Bool-cases, Option-cases, some_inj,
}
use karpenter_provider_exosc.CloudProvider.Drain.{
  Pod, EvictAnswer, evicted, gone, failed, Cluster, Flags, eviction_limit, eviction_pause,
  is_daemon_set, is_set, record_answer, evict_pods, is_quiet, is_empty, DrainEnd, drained,
  timed_out, after_round, round, drain_loop, drain_rounds, Action, cordon_node, ended, cordoned,
  with_node, drain_node,
}

-- The pauses between the rounds take their time.
abbrev pub IsPaced : Cluster → Type 0
IsPaced c = (k : ℕ) → k * eviction_pause ≤ c.elapsed k

after_round_ends :
    (asked : List Pod) (rest : Option (List Pod × DrainEnd))
    → rest ≢ none
    → after_round asked rest ≢ none
after_round_ends asked none h e = h refl
after_round_ends asked (some r) h e = ground arith

round_ends :
    (evict : Pod → EvictAnswer) (pods : Option (List Pod)) (rest : Option (List Pod × DrainEnd))
    → rest ≢ none
    → round evict pods rest ≢ none
unfolding round
round_ends evict none rest h = h
round_ends evict (some pods) rest h =
    elim (Bool-cases (is_quiet (evict_pods evict pods).1 || is_empty pods)) [
      | inl q ↦ rw q (λ e. ground arith)
      | inr q ↦ rw q (after_round_ends (evict_pods evict pods).0 rest h)
    ]

drain_loop_ends :
    (c : Cluster)
    → IsPaced c
    → (fuel k : ℕ) → 0 < fuel
    → k + fuel ≡ drain_rounds
    → drain_loop c fuel k ≢ none
unfolding drain_loop
drain_loop_ends c paced zero k some_left total = absurd (omega arith)
drain_loop_ends c paced (suc fuel) k some_left total =
    elim (Bool-cases (ltb eviction_limit (c.elapsed k))) [
      | inl late ↦ rw late (λ e. ground arith)
      | inr early ↦
          let pace = paced k in
          let in_time : c.elapsed k ≤ eviction_limit = ground arith in
          rw early (
            round_ends (c.evict k) (c.pods k) (drain_loop c fuel (suc k))
              (drain_loop_ends c paced fuel (suc k) (omega arith) (omega arith)))
    ]

-- A pod that a round asks to evict belongs to no DaemonSet and is not being deleted.
evict_pods_asks :
    (evict : Pod → EvictAnswer) (pods : List Pod) (pod : Pod)
    → In pod (evict_pods evict pods).0
    → (is_daemon_set pod ≡ false) × (is_set pod.deletion_timestamp ≡ false)
unfolding evict_pods
evict_pods_asks evict [] pod h = absurd h
evict_pods_asks evict (p ∷ ps) pod h = elim (Bool-cases (is_daemon_set p)) [
  | inl d ↦ evict_pods_asks evict ps pod (rw d at h)
  | inr d ↦ elim (Bool-cases (is_set p.deletion_timestamp)) [
    | inl t ↦ evict_pods_asks evict ps pod (rw (d, t) at h)
    | inr t ↦ elim (rw (d, t) at h) [
      | inl same ↦ rw same (d, t)
      | inr rest ↦ evict_pods_asks evict ps pod rest
    ]
  ]
]

record_answer_quiet :
    (a : EvictAnswer) (f : Flags)
    → is_quiet (record_answer a f) ≡ true
    → (a ≡ gone) × (is_quiet f ≡ true)
record_answer_quiet evicted f h = absurd (ground arith)
record_answer_quiet gone f h = (refl, h)
record_answer_quiet failed f h = absurd (ground arith)

-- A quiet round leaves no pod but those of DaemonSets and those that were gone.
evict_pods_quiet :
    (evict : Pod → EvictAnswer) (pods : List Pod)
    → is_quiet (evict_pods evict pods).1 ≡ true
    → (pod : Pod) → In pod pods
    → (is_daemon_set pod ≡ true) ⊎ (evict pod ≡ gone)
unfolding evict_pods
evict_pods_quiet evict [] quiet pod h = absurd h
evict_pods_quiet evict (p ∷ ps) quiet pod h = elim (Bool-cases (is_daemon_set p)) [
  | inl d ↦ elim h [
    | inl same ↦ inl (rw same d)
    | inr rest ↦ evict_pods_quiet evict ps (rw d at quiet) pod rest
  ]
  | inr d ↦ elim (Bool-cases (is_set p.deletion_timestamp)) [
    | inl t ↦ absurd (let q = rw (d, t) at quiet in ground arith)
    | inr t ↦
        let (done, rest_quiet) =
          record_answer_quiet (evict p) (evict_pods evict ps).1 (rw (d, t) at quiet) in
        elim h [
          | inl same ↦ inr (rw same done)
          | inr rest ↦ evict_pods_quiet evict ps rest_quiet pod rest
        ]
  ]
]

-- A round that ends the eviction leaves only pods of DaemonSets and pods that were gone.
abbrev pub IsClear : Cluster → Type 0
IsClear c =
    (j : ℕ) × (ps : List Pod) × (c.pods j ≡ some ps)
    × ((pod : Pod) → In pod ps → (is_daemon_set pod ≡ true) ⊎ (c.evict j pod ≡ gone))

abbrev pub Explains : Cluster → List Pod → DrainEnd → Type 0
Explains c asked end =
    ((pod : Pod)
      → In pod asked
      → (is_daemon_set pod ≡ false) × (is_set pod.deletion_timestamp ≡ false))
    × (end ≡ drained → IsClear c)
    × (end ≡ timed_out → (j : ℕ) × (eviction_limit < c.elapsed j))

quiet-IsClear :
    (c : Cluster) (k : ℕ) (ps : List Pod)
    → c.pods k ≡ some ps
    → (is_quiet (evict_pods (c.evict k) ps).1 || is_empty ps) ≡ true
    → IsClear c
quiet-IsClear c k [] listed h = (k, [], listed, λ pod at. absurd at)
quiet-IsClear c k (p ∷ ps) listed h =
    (k, p ∷ ps, listed, λ pod at. evict_pods_quiet (c.evict k) (p ∷ ps) (ground arith) pod at)

Explains-round :
    (c : Cluster) (evict : Pod → EvictAnswer) (ps asked later : List Pod) (end end' : DrainEnd)
    → asked ≡ (evict_pods evict ps).0 ++ later
    → end ≡ end'
    → Explains c later end'
    → Explains c asked end
Explains-round c evict ps asked later end end' these done (only, clear, over) = (
  λ pod at. elim (In-append pod (evict_pods evict ps).0 later (rw these at at)) [
    | inl now ↦ evict_pods_asks evict ps pod now
    | inr after ↦ only pod after
  ],
  λ d. clear (sym done ∙ d),
  λ t. over (sym done ∙ t),
)

-- However the eviction ends, it has asked to evict only pods that belong to no DaemonSet and are not
-- being deleted. If it ends as drained, in some round the pods were listed and each belonged to a
-- DaemonSet or was already gone; if it ends by the time limit, that limit was over.
pub drain_loop_lem :
    (c : Cluster) (fuel k : ℕ) (asked : List Pod) (end : DrainEnd)
    → drain_loop c fuel k ≡ some (asked, end)
    → Explains c asked end
unfolding drain_loop
drain_loop_lem c zero k asked end h = absurd (ground arith)
drain_loop_lem c (suc fuel) k asked end h = elim (Bool-cases (ltb eviction_limit (c.elapsed k))) [
  | inl late ↦
      let e = some_inj (rw late at h) in
      let empty : asked ≡ [] = ap (λ x. x.0) (sym e) in
      let over : end ≡ timed_out = ap (λ x. x.1) (sym e) in
      (λ pod at. absurd (rw empty at at), λ d. absurd (ground arith), λ _. (k, ground arith))
  | inr early ↦ elim (Option-cases (c.pods k)) [
    | inl e ↦ drain_loop_lem c fuel (suc k) asked end (rw (early, e, round) at h)
    | inr (ps, e) ↦ elim (Bool-cases (is_quiet (evict_pods (c.evict k) ps).1 || is_empty ps)) [
      | inl q ↦
          let g = some_inj (rw (early, e, round, q) at h) in
          let these : asked ≡ (evict_pods (c.evict k) ps).0 = ap (λ x. x.0) (sym g) in
          let done : end ≡ drained = ap (λ x. x.1) (sym g) in
          (
            λ pod at. evict_pods_asks (c.evict k) ps pod (rw these at at),
            λ _. quiet-IsClear c k ps e q,
            λ t. absurd (ground arith),
          )
      | inr q ↦
          let h' = rw (early, e, round, q) at h in
          elim (Option-cases (drain_loop c fuel (suc k))) [
            | inl f ↦ absurd (let h'' = rw f at h' in ground arith)
            | inr ((later, end'), f) ↦
                let g = some_inj (rw f at h') in
                let these : asked ≡ (evict_pods (c.evict k) ps).0 ++ later =
                  ap (λ x. x.0) (sym g) in
                let done : end ≡ end' = ap (λ x. x.1) (sym g) in
                Explains-round c (c.evict k) ps asked later end end' these done
                  (drain_loop_lem c fuel (suc k) later end' f)
          ]
    ]
  ]
]

ended_ends :
    (before : List Action) (r : Option (List Pod × DrainEnd)) → r ≢ none → ended before r ≢ none
ended_ends before none h e = h refl
ended_ends before (some r) h e = ground arith

cordoned_ends : (c : Cluster) (r : Result ApiError (Unit {0})) → IsPaced c → cordoned c r ≢ none
cordoned_ends c (err e) paced = λ h. ground arith
cordoned_ends c (ok u) paced =
    ended_ends (cordon_node ∷ []) (drain_loop c drain_rounds 0)
      (drain_loop_ends c paced drain_rounds 0 (omega arith) refl)

with_node_ends : (c : Cluster) → IsPaced c → (r : Result ApiError Bool) → with_node c r ≢ none
with_node_ends c paced (err not_found) = λ h. ground arith
with_node_ends c paced (err already_exists) = λ h. ground arith
with_node_ends c paced (err conflict) = λ h. ground arith
with_node_ends c paced (err bad_request) = λ h. ground arith
with_node_ends c paced (err other) = λ h. ground arith
with_node_ends c paced (ok true) =
    ended_ends [] (drain_loop c drain_rounds 0)
      (drain_loop_ends c paced drain_rounds 0 (omega arith) refl)
with_node_ends c paced (ok false) = cordoned_ends c c.cordon paced

-- If the pauses between the rounds take their time, the call comes to an end: the rounds that it is
-- given are enough.
pub drain_node_ends : (c : Cluster) → IsPaced c → drain_node c ≢ none
unfolding drain_node
drain_node_ends c paced = with_node_ends c paced c.get_node
