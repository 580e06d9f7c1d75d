-- ===== src/BootstrapToken/Expiry.antt =====
-- When a token expires, and when the controller looks again.
use karpenter_provider_exosc.Constants.{
  annotation_bootstrap_token, annotation_token_created, default_bootstrap_token_ttl,
}
use karpenter_provider_exosc.BootstrapToken.Defs.{
  Secret, Node, is_token_expired, calculate_token_expiry_time, min_requeue, node_to_tokens,
  is_node_using_bootstrap_token,
}
use karpenter_provider_exosc.Prelude.{
  ℕ, ◌+◌, ◌-◌, ltb, gt_dur, lt_dur, if◌then◌else◌, ◌≤◌, ◌<◌, ◌≡◌, ◌↔◌, ◌⊎◌, refl, inl, inr, true,
  Option, none, some, String, In, lookup, Time, pos, time_sub, sub_from, time_sub-gt, arith,
  Option-cases, eq_iff,
}

wait_lem :
    (now t : Time)
    → t ≤ now
    → let left = sub_from default_bootstrap_token_ttl (time_sub now t) in
      (d : ℕ) × ((if lt_dur left min_requeue then pos min_requeue else left) ≡ pos d)
      × (min_requeue ≤ d)
      × (d ≤ default_bootstrap_token_ttl)
      × (t + default_bootstrap_token_ttl ≤ now + d)
unfolding time_sub sub_from
wait_lem now t past =
    let left = t + default_bootstrap_token_ttl - now in
    (
      if ltb left min_requeue then min_requeue else left,
      ground arith,
      ground arith,
      ground arith,
      ground arith,
    )

module _ (parse : String → Option Time) where
  -- The time that counts as the creation of a token: the annotation's, where there is one.
  abbrev pub CreatedAt : Secret → Time → Type 0
  CreatedAt secret t =
      ((lookup annotation_token_created secret.annotations ≡ none)
        × (t ≡ secret.creation_timestamp))
      ⊎ ((text : String) × (lookup annotation_token_created secret.annotations ≡ some text)
          × (parse text ≡ some t))

  -- A token is expired exactly if it was created more than its time to live ago; one whose
  -- annotation is no time has no creation time, and is expired.
  pub is_token_expired_iff :
      (secret : Secret) (now : Time)
      → (is_token_expired parse secret now ≡ true)
        ↔ ((t : Time) → CreatedAt secret t → t + default_bootstrap_token_ttl < now)
  unfolding is_token_expired
  is_token_expired_iff secret now =
      elim (Option-cases (lookup annotation_token_created secret.annotations)) [
        | inl e ↦ (
          λ h t created. elim created [
            | inl (_, same) ↦ rw same (expired_created.0 (rw e at h))
            | inr (text, f, _) ↦ absurd (ground arith)
          ],
          λ h. rw e (expired_created.1 (h secret.creation_timestamp (inl (e, refl)))),
        )
        | inr (text, e) ↦ elim (Option-cases (parse text)) [
          | inl f ↦ (
            λ h t created. elim created [
              | inl (g, _) ↦ absurd (ground arith)
              | inr (text', g, k) ↦
                  let same : text' ≡ text = ground arith in
                  let k' = rw same at k in absurd (ground arith)
            ],
            λ h. rw (e, f) refl,
          )
          | inr (u, f) ↦ (
            λ h t created. elim created [
              | inl (g, _) ↦ absurd (ground arith)
              | inr (text', g, k) ↦
                  let same : text' ≡ text = ground arith in
                  let k' = rw same at k in
                  let now_same : u ≡ t = ground arith in
                  rw (← now_same) (
                    (time_sub-gt now u default_bootstrap_token_ttl (omega arith)).0
                      (rw (e, f) at h))
            ],
            λ h.
                rw (e, f)
                  ((time_sub-gt now u default_bootstrap_token_ttl (omega arith)).1
                    (h u (inr (text, e, f)))),
          )
        ]
      ]
    where
      expired_created :
          (gt_dur (time_sub now secret.creation_timestamp) default_bootstrap_token_ttl ≡ true)
          ↔ (secret.creation_timestamp + default_bootstrap_token_ttl < now)
      expired_created =
          time_sub-gt now secret.creation_timestamp default_bootstrap_token_ttl (omega arith)

  -- While the token's creation is not in the future, the controller waits at least 30 seconds and
  -- at most the time to live, and when it has waited the token has reached its time to live.
  pub calculate_token_expiry_time_lem :
      (secret : Secret) (now t : Time)
      → CreatedAt secret t
      → t ≤ now
      → (d : ℕ) × (calculate_token_expiry_time parse secret now ≡ pos d)
        × (min_requeue ≤ d)
        × (d ≤ default_bootstrap_token_ttl)
        × (t + default_bootstrap_token_ttl ≤ now + d)
  unfolding calculate_token_expiry_time
  calculate_token_expiry_time_lem secret now t created past =
      let (d, is, lo, hi, enough) = wait_lem now t past in
      elim created [
        | inl (e, same) ↦ (d, rw (e, ← same) is, lo, hi, enough)
        | inr (text, e, f) ↦ (d, rw (e, f) is, lo, hi, enough)
      ]

-- The Secrets that an event of a node sends to the controller are those that the node uses.
pub In-node_to_tokens :
    (node : Node) (name : String)
    → In name (node_to_tokens node) ↔ (is_node_using_bootstrap_token node name ≡ true)
unfolding node_to_tokens is_node_using_bootstrap_token
In-node_to_tokens node name =
    elim (Option-cases (lookup annotation_bootstrap_token node.annotations)) [
      | inl e ↦ rw e (ground arith)
      | inr (v, e) ↦ rw e (ground (arith, eq_iff v name))
    ]
