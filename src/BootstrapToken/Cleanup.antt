-- ===== src/BootstrapToken/Cleanup.antt =====
-- Which tokens the controller deletes.
use karpenter_provider_exosc.Kube.{
  ApiError, not_found, already_exists, conflict, bad_request, other,
}
use karpenter_provider_exosc.Constants.{annotation_bootstrap_token}
use karpenter_provider_exosc.BootstrapToken.Defs.{
  Secret, Node, Action, delete_secret, has_value, is_nonempty, is_bootstrap_token,
  is_node_registered, is_token_expired, secret_type_bootstrap_token, registered_node,
  annotation_node_registered, is_node_using_bootstrap_token, is_node_already_marked_registered,
  node_pending,
}
use karpenter_provider_exosc.BootstrapToken.Loop.{
  World, reconcile, reconcile_secret, with_secret, sweep, swept, cleanup_token, cleanup_tokens,
  monitor_token,
}
use karpenter_provider_exosc.Prelude.{
  ℕ, suc, ◌≡◌, ◌≢◌, ◌↔◌, ◌⊎◌, refl, ap, ◌∙◌, inl, inr, true, false, Option, none, some, String,
  List, [], ◌∷◌, ◌++◌, In, In-append, In-append_right, lookup, Time, Result, ok, err, arith, ◌==◌,
  eq_iff, Bool-cases,
}

-- The node has registered with the cluster: its phase is past pending, or it has a condition.
abbrev pub HasRegistered : Node → Type 0
HasRegistered node = ((node.phase ≢ "") × (node.phase ≢ node_pending)) ⊎ (node.conditions ≢ [])

-- The token is marked, or a node that names it has registered.
abbrev pub IsUsedUp : Secret → Option (List Node) → Type 0
IsUsedUp secret nodes =
    (lookup annotation_node_registered secret.annotations ≡ some "true")
    ⊎ ((ns : List Node) × (node : Node) × (nodes ≡ some ns)
        × In node ns
        × (lookup annotation_bootstrap_token node.annotations ≡ some secret.name)
        × HasRegistered node)

has_value_iff : (v : Option String) (w : String) → (has_value v w ≡ true) ↔ (v ≡ some w)
has_value_iff none w = ground arith
has_value_iff (some v) w = ground (arith, eq_iff v w)

is_nonempty_lem : (l : List String) → is_nonempty l ≡ true → l ≢ []
is_nonempty_lem [] h e = ground arith
is_nonempty_lem (x ∷ xs) h e = ground arith

registered_node-HasRegistered :
    (name : String) (ns : List Node)
    → registered_node name ns ≡ true
    → (node : Node) × In node ns
      × (lookup annotation_bootstrap_token node.annotations ≡ some name)
      × HasRegistered node
unfolding registered_node is_node_using_bootstrap_token
registered_node-HasRegistered name [] h = absurd (ground arith)
registered_node-HasRegistered name (n ∷ ns) h =
    elim (Bool-cases (is_node_using_bootstrap_token n name)) [
      | inl uses ↦ (
        n,
        inl refl,
        (has_value_iff (lookup annotation_bootstrap_token n.annotations) name).0 uses,
        ground
            (arith, eq_iff n.phase "", eq_iff n.phase node_pending, is_nonempty_lem n.conditions),
      )
      | inr unused ↦
          let (node, at, names, registered) =
            registered_node-HasRegistered name ns (ground arith) in
          (node, inr at, names, registered)
    ]

is_node_registered-IsUsedUp :
    (secret : Secret) (nodes : Option (List Node))
    → (is_node_registered secret nodes).0 ≡ true
    → IsUsedUp secret nodes
unfolding is_node_registered is_node_already_marked_registered
is_node_registered-IsUsedUp secret none h =
    inl ((has_value_iff (lookup annotation_node_registered secret.annotations) "true").0 h)
is_node_registered-IsUsedUp secret (some ns) h =
    elim (Bool-cases (is_node_already_marked_registered secret)) [
      | inl already ↦
          inl (
            (has_value_iff (lookup annotation_node_registered secret.annotations) "true").0 already)
      | inr fresh ↦
          let (node, at, names, registered) =
            registered_node-HasRegistered secret.name ns (ground arith) in
          inr (ns, node, refl, at, names, registered)
    ]

-- The calls that a registration makes delete nothing, and keep the Secret's name.
is_node_registered_quiet :
    (secret : Secret) (nodes : Option (List Node))
    → ((s : Secret) → ¬ In (delete_secret s) (is_node_registered secret nodes).2)
      × ((is_node_registered secret nodes).1.name ≡ secret.name)
unfolding is_node_registered
is_node_registered_quiet secret none = (λ s h. absurd h, refl)
is_node_registered_quiet secret (some ns) =
    elim (Bool-cases (is_node_already_marked_registered secret)) [
      | inl e ↦ rw e (λ s h. absurd h, refl)
      | inr e ↦ elim (Bool-cases (registered_node secret.name ns)) [
        | inl f ↦
            rw (e, f) (λ s h. elim h [ inl g ↦ absurd (ground arith) | inr g ↦ absurd g ], refl)
        | inr f ↦ rw (e, f) (λ s h. absurd h, refl)
      ]
    ]

cleanup_token_deletes :
    (before : List Action) (secret s : Secret) (answer : Result ApiError (Unit {0}))
    → (¬ In (delete_secret s) before)
    → In (delete_secret s) (cleanup_token before secret answer).actions
    → s ≡ secret
unfolding cleanup_token
cleanup_token_deletes before secret s answer quiet_before h =
    let at : In (delete_secret s) (before ++ delete_secret secret ∷ []) = deleted answer h in
    elim (In-append (delete_secret s) before (delete_secret secret ∷ []) at) [
      | inl earlier ↦ absurd (quiet_before earlier)
      | inr (inl same) ↦ ground arith
      | inr (inr none_left) ↦ absurd none_left
    ]
  where
    deleted :
        (answer : Result ApiError (Unit {0}))
        → In (delete_secret s) (cleanup_token before secret answer).actions
        → In (delete_secret s) (before ++ delete_secret secret ∷ [])
    deleted (ok _) at = at
    deleted (err not_found) at = at
    deleted (err already_exists) at = at
    deleted (err conflict) at = at
    deleted (err bad_request) at = at
    deleted (err other) at = at

module _ (parse : String → Option Time) (w : World) where
  -- The reason for which a token may go.
  abbrev pub IsFinished : Secret → ℕ → Type 0
  IsFinished secret n =
      (is_token_expired parse secret (w.clock n) ≡ true) ⊎ IsUsedUp secret (w.nodes n)

  -- For a request other than the periodic one, only the Secret of that request is deleted, only if
  -- it is a bootstrap token of this provider, and only if it has expired, is marked as registered,
  -- or is named by a node that has registered.
  pub reconcile_deletes_only-IsFinished :
      (name : String) (secret s : Secret)
      → name ≢ "cleanup-tokens"
      → w.get name ≡ ok secret
      → In (delete_secret s) (reconcile parse w name).actions
      → (s.name ≡ secret.name) × (is_bootstrap_token secret ≡ true) × IsFinished secret 0
  unfolding reconcile with_secret reconcile_secret monitor_token
  reconcile_deletes_only-IsFinished name secret s single found h =
      let e : (name == "cleanup-tokens") ≡ false = ground (arith, eq_iff name "cleanup-tokens") in
      reconcile_secret_deletes secret s (rw (e, found) at h)
    where
      reconcile_secret_deletes :
          (secret s : Secret)
          → In (delete_secret s) (reconcile_secret parse w secret).actions
          → (s.name ≡ secret.name) × (is_bootstrap_token secret ≡ true) × IsFinished secret 0
      reconcile_secret_deletes secret s h = elim (Bool-cases (is_bootstrap_token secret)) [
        | inr e ↦ absurd (rw e at h)
        | inl e ↦ elim (Bool-cases (is_token_expired parse secret (w.clock 0))) [
          | inl f ↦
              let same = cleanup_token_deletes [] secret s (w.delete 0) (λ n. n) (rw (e, f) at h) in
              (ap (λ x. x.name) same, e, inl f)
          | inr f ↦ elim (Bool-cases (is_node_registered secret (w.nodes 0)).0) [
            | inl g ↦
                let (quiet_before, named) = is_node_registered_quiet secret (w.nodes 0) in
                let same =
                  cleanup_token_deletes _ _ s (w.delete 0) (quiet_before s) (rw (e, f, g) at h) in
                (
                  ap (λ x. x.name) same ∙ named,
                  e,
                  inr (is_node_registered-IsUsedUp secret (w.nodes 0) g),
                )
            | inr g ↦ absurd (rw (e, f, g) at h)
          ]
        ]
      ]

  sweep_deletes_only :
      (n : ℕ) (secrets : List Secret) (s : Secret)
      → In (delete_secret s) (sweep parse w n secrets)
      → (secret : Secret) × (m : ℕ) × In secret secrets
        × (s.name ≡ secret.name)
        × (secret.type ≡ secret_type_bootstrap_token)
        × IsFinished secret m
  unfolding sweep
  sweep_deletes_only n [] s h = absurd h
  sweep_deletes_only n (x ∷ xs) s h = elim (Bool-cases (x.type == secret_type_bootstrap_token)) [
    | inr e ↦ later (sweep_deletes_only (suc n) xs s) (rw e at h)
    | inl e ↦ elim (Bool-cases (is_token_expired parse x (w.clock n))) [
      | inl f ↦ elim (rw (e, f) at h) [
        | inl same ↦ (x, n, inl refl, ground arith, (eq_iff _ _).0 e, inl f)
        | inr rest ↦ later (sweep_deletes_only (suc n) xs s) rest
      ]
      | inr f ↦ elim (Bool-cases (is_node_registered x (w.nodes n)).0) [
        | inl g ↦
            elim (In-append (delete_secret s) (is_node_registered x (w.nodes n)).2 _
              (rw (e, f, g) at h)) [
                | inl before ↦ absurd ((is_node_registered_quiet x (w.nodes n)).0 s before)
                | inr (inl same) ↦
                    let same' : s ≡ (is_node_registered x (w.nodes n)).1 = ground arith in
                    (
                      x,
                      n,
                      inl refl,
                      ap (λ y. y.name) same' ∙ (is_node_registered_quiet x (w.nodes n)).1,
                      (eq_iff _ _).0 e,
                      inr (is_node_registered-IsUsedUp x (w.nodes n) g),
                    )
                | inr (inr rest) ↦ later (sweep_deletes_only (suc n) xs s) rest
              ]
        | inr g ↦ later (sweep_deletes_only (suc n) xs s) (rw (e, f, g) at h)
      ]
    ]
  ]
    where
      later :
          (In (delete_secret s) (sweep parse w (suc n) xs)
            → (secret : Secret) × (m : ℕ) × In secret xs
              × (s.name ≡ secret.name)
              × (secret.type ≡ secret_type_bootstrap_token)
              × IsFinished secret m)
          → In (delete_secret s) (sweep parse w (suc n) xs)
          → (secret : Secret) × (m : ℕ) × In secret (x ∷ xs)
            × (s.name ≡ secret.name)
            × (secret.type ≡ secret_type_bootstrap_token)
            × IsFinished secret m
      later again rest =
          let (y, m, at, named, kind, finished) = again rest in
          (y, m, inr at, named, kind, finished)

  sweep_deletes_expired :
      (n : ℕ) (secrets : List Secret) (s : Secret)
      → In s secrets
      → s.type ≡ secret_type_bootstrap_token
      → ((m : ℕ) → is_token_expired parse s (w.clock m) ≡ true)
      → In (delete_secret s) (sweep parse w n secrets)
  unfolding sweep
  sweep_deletes_expired n [] s at kind expired = absurd at
  sweep_deletes_expired n (x ∷ xs) s (inl same) kind expired =
      let kind' : (x.type == secret_type_bootstrap_token) ≡ true =
        ground (arith, ap (λ y. y.type) same, eq_iff x.type secret_type_bootstrap_token) in
      let expired' : is_token_expired parse x (w.clock n) ≡ true = rw (← same) (expired n) in
      rw (kind', expired') (inl (ap delete_secret same))
  sweep_deletes_expired n (x ∷ xs) s (inr at) kind expired =
      let rest = sweep_deletes_expired (suc n) xs s at kind expired in
      elim (Bool-cases (x.type == secret_type_bootstrap_token)) [
        | inr e ↦ rw e rest
        | inl e ↦ elim (Bool-cases (is_token_expired parse x (w.clock n))) [
          | inl f ↦ rw (e, f) (inr rest)
          | inr f ↦ elim (Bool-cases (is_node_registered x (w.nodes n)).0) [
            | inl g ↦
                rw (e, f, g) (In-append_right _ (is_node_registered x (w.nodes n)).2 _ (inr rest))
            | inr g ↦ rw (e, f, g) rest
          ]
        ]
      ]

  cleanup_tokens-eq :
      (secrets : List Secret)
      → w.secrets ≡ some secrets
      → (cleanup_tokens parse w).actions ≡ sweep parse w 0 secrets
  unfolding cleanup_tokens
  cleanup_tokens-eq secrets listed = ap (λ x. (swept parse w x).actions) listed

  -- A periodic pass over the listed Secrets deletes a Secret only if one of that name is listed, is
  -- a bootstrap token, and at some reading had expired, was marked as registered or was named by a
  -- node that had registered; it deletes each listed bootstrap token that has expired at every
  -- reading.
  pub cleanup_tokens_lem :
      (secrets : List Secret)
      → w.secrets ≡ some secrets
      → ((s : Secret)
          → In (delete_secret s) (cleanup_tokens parse w).actions
          → (secret : Secret) × (m : ℕ) × In secret secrets
            × (s.name ≡ secret.name)
            × (secret.type ≡ secret_type_bootstrap_token)
            × IsFinished secret m)
        × ((s : Secret)
            → In s secrets
            → s.type ≡ secret_type_bootstrap_token
            → ((m : ℕ) → is_token_expired parse s (w.clock m) ≡ true)
            → In (delete_secret s) (cleanup_tokens parse w).actions)
  cleanup_tokens_lem secrets listed =
      let e = cleanup_tokens-eq secrets listed in
      (
        λ s h. sweep_deletes_only 0 secrets s (rw e at h),
        λ s at kind expired. rw e (sweep_deletes_expired 0 secrets s at kind expired),
      )
