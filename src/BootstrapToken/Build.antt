-- ===== src/BootstrapToken/Build.antt =====
-- pkg/utils/bootstrap.go: the Secret of a new token. The random bytes, in hexadecimal, and the
-- format of times are parameters.
use karpenter_provider_exosc.Constants.{
  annotation_bootstrap_token, annotation_token_created, label_token_provider, provider_name,
  default_bootstrap_token_ttl,
}
use karpenter_provider_exosc.Kube.{ApiError}
use karpenter_provider_exosc.BootstrapToken.Defs.{
  Secret, is_bootstrap_token, secret_predicate, is_token_expired, secret_type_bootstrap_token,
  namespace_system,
}
use karpenter_provider_exosc.BootstrapToken.Expiry.{is_token_expired_iff}
use karpenter_provider_exosc.Prelude.{
  ℕ, zero, suc, ◌+◌, ◌≤◌, ◌<◌, ◌≡◌, refl, sym, subst, ◌∙◌, inl, inr, true, false, Option, none,
  some, String, [], ◌∷◌, lookup, Time, second, Result, ok, err, arith, ◌^^◌, Bool-cases,
  Option-cases, Result-cases, some_inj,
}

-- `time.Format` and `time.Parse` with the layout RFC 3339, which has a resolution of a second.
pub record Rfc3339 : Type 0 where
  pub format : Time → String
  pub parse : String → Option Time
  pub rounded : Time → Time
  pub parse-format : (t : Time) → parse (format t) ≡ some (rounded t)
  pub rounded_le : (t : Time) → rounded t ≤ t
  pub rounded_lt : (t : Time) → t < rounded t + second

pub record BootstrapToken : Type 0 where
  pub token_id : String
  pub token_secret : String
  pub secret_name : String
  pub secret : Secret

unfoldable pub token : BootstrapToken → String
token bt = bt.token_id ^^ "." ^^ bt.token_secret

-- `s[:n]`
abbrev pub take_text : ℕ → String → String
take_text zero s = ""
take_text (suc n) String.[] = ""
take_text (suc n) (String.◌∷◌ c s) = String.◌∷◌ c (take_text n s)

-- The loop of `generateSecureRandomString`, from an attempt on with the rounds that are left;
-- `read` is what an attempt reads, in hexadecimal.
unfoldable pub generate_loop : (ℕ → Option String) → ℕ → ℕ → ℕ → Option String
generate_loop read length zero attempt = none
generate_loop read length (suc left) attempt =
    let rest = generate_loop read length left (suc attempt) in
    elim (read attempt) [ some text ↦ some (take_text length text) | none ↦ rest ]

unfoldable pub generate_secure_random_string : (ℕ → Option String) → ℕ → Option String
generate_secure_random_string read length = generate_loop read length 3 0

pub data BootstrapError : Type 0 where
  no_token_id no_token_secret create_failed : BootstrapError

module _ (time : Rfc3339) where
  -- `created` and `now` are the two readings of the clock.
  unfoldable pub build_bootstrap_token_secret :
      String → String → String → ℕ → String → Time → Time → Secret
  build_bootstrap_token_secret id key node_claim_name ttl extra_groups created now = record {
    name = "bootstrap-token-" ^^ id;
    namespace = namespace_system;
    type = secret_type_bootstrap_token;
    labels = (label_token_provider, provider_name) ∷ [];
    annotations =
        (annotation_bootstrap_token, node_claim_name)
        ∷ (annotation_token_created, time.format created)
        ∷ [];
    creation_timestamp = 0;
    string_data =
        ("token-id", id)
        ∷ ("token-secret", key)
        ∷ ("usage-bootstrap-authentication", "true")
        ∷ ("usage-bootstrap-signing", "true")
        ∷ ("auth-extra-groups", extra_groups)
        ∷ ("expiration", time.format (now + ttl))
        ∷ ("description", "Bootstrap token for " ^^ node_claim_name ^^ " created by Karpenter")
        ∷ [];
  }

  abbrev applied :
      String → String → Secret → Result ApiError (Unit {0}) → Result BootstrapError BootstrapToken
  applied id key secret (err e) = err create_failed
  applied id key secret (ok _) =
      ok (record { token_id = id; token_secret = key; secret_name = secret.name; secret = secret })

  abbrev with_parts :
      (Secret → Result ApiError (Unit {0}))
      → String
      → Time
      → Time
      → Option String
      → Option String
      → Result BootstrapError BootstrapToken
  with_parts create node_claim_name created now none key = err no_token_id
  with_parts create node_claim_name created now (some id) none = err no_token_secret
  with_parts create node_claim_name created now (some id) (some key) =
      let secret =
        build_bootstrap_token_secret id key node_claim_name default_bootstrap_token_ttl
          "system:bootstrappers:worker,system:bootstrappers:ingress" created now in
      applied id key secret (create secret)

  -- `CreateAndApplyBootstrapTokenSecret`: `create` answers the request that makes the Secret.
  unfoldable pub create_and_apply_bootstrap_token_secret :
      (ℕ → Option String)
      → (ℕ → Option String)
      → (Secret → Result ApiError (Unit {0}))
      → String
      → Time
      → Time
      → Result BootstrapError BootstrapToken
  create_and_apply_bootstrap_token_secret read_id read_key create node_claim_name created now =
      with_parts create node_claim_name created now (generate_secure_random_string read_id 6)
        (generate_secure_random_string read_key 16)

  built_secret_lives :
      (id key name groups : String) (ttl : ℕ) (created now later : Time)
      → let s = build_bootstrap_token_secret id key name ttl groups created now in
        (later + second ≤ created + default_bootstrap_token_ttl
          → is_token_expired time.parse s later ≡ false)
        × (created + default_bootstrap_token_ttl < later
            → is_token_expired time.parse s later ≡ true)
  unfolding build_bootstrap_token_secret
  built_secret_lives id key name groups ttl created now later =
      let s = build_bootstrap_token_secret id key name ttl groups created now in
      let lo = time.rounded_le created in
      let hi = time.rounded_lt created in
      (
        λ h. elim (Bool-cases (is_token_expired time.parse s later)) [
          | inr e ↦ e
          | inl e ↦
              let past =
                (is_token_expired_iff time.parse s later).0 e (time.rounded created)
                  (inr (time.format created, refl, time.parse-format created)) in
              absurd (omega arith)
        ],
        λ h. (is_token_expired_iff time.parse s later).1 (λ t at. elim at [
          | inl (e, _) ↦ absurd (ground arith)
          | inr (text, e, p) ↦
              let p' = rw (← some_inj e) at p in
              let same : time.rounded created ≡ t =
                some_inj (sym (time.parse-format created) ∙ p') in
              omega arith
        ]),
      )

  -- The token is the one of a Secret that was created: the Secret is named after the token's ID and
  -- holds both parts of the token, the controller watches it, and it expires in the second before
  -- its time to live ends or when that has passed.
  pub record IsLive (create : Secret → Result ApiError (Unit {0})) (created : Time)
      (bt : BootstrapToken) : Type 0 where
    pub is_created : create bt.secret ≡ ok tt
    pub named : bt.secret.name ≡ "bootstrap-token-" ^^ bt.token_id
    pub holds_id : lookup "token-id" bt.secret.string_data ≡ some bt.token_id
    pub holds_key : lookup "token-secret" bt.secret.string_data ≡ some bt.token_secret
    pub watched : secret_predicate bt.secret ≡ true
    pub alive :
        (later : Time)
        → later + second ≤ created + default_bootstrap_token_ttl
        → is_token_expired time.parse bt.secret later ≡ false
    pub dead :
        (later : Time)
        → created + default_bootstrap_token_ttl < later
        → is_token_expired time.parse bt.secret later ≡ true

  ok_inj :
      {r : Result BootstrapError BootstrapToken} {a b : BootstrapToken}
      → r ≡ ok a
      → r ≡ ok b
      → a ≡ b
  ok_inj e f = cc

  applied_lives :
      (create : Secret → Result ApiError (Unit {0})) (id key name groups : String) (ttl : ℕ)
      (created now : Time)
      → let s = build_bootstrap_token_secret id key name ttl groups created now in
        create s ≡ ok tt
        → IsLive create created
            (record { token_id = id; token_secret = key; secret_name = s.name; secret = s })
  unfolding build_bootstrap_token_secret secret_predicate is_bootstrap_token
  applied_lives create id key name groups ttl created now k = record {
    is_created = k;
    named = refl;
    holds_id = refl;
    holds_key = refl;
    watched = refl;
    alive = λ later h. (built_secret_lives id key name groups ttl created now later).0 h;
    dead = λ later h. (built_secret_lives id key name groups ttl created now later).1 h;
  }

  -- A token that the call returns is the one of a Secret that it has created: that Secret is named
  -- after the token's ID and holds both parts of the token; the controller watches it; it is not
  -- expired until one second before its time to live ends, and is once that has passed.
  pub create_and_apply_bootstrap_token_secret_lem :
      (read_id read_key : ℕ → Option String) (create : Secret → Result ApiError (Unit {0}))
      (name : String) (created now : Time) (bt : BootstrapToken)
      → create_and_apply_bootstrap_token_secret read_id read_key create name created now ≡ ok bt
      → IsLive create created bt
  unfolding create_and_apply_bootstrap_token_secret
  create_and_apply_bootstrap_token_secret_lem read_id read_key create name created now bt h =
      elim (Option-cases (generate_secure_random_string read_id 6)) [
        | inl e ↦ absurd (let h' = rw e at h in ground arith)
        | inr (id, e) ↦ elim (Option-cases (generate_secure_random_string read_key 16)) [
          | inl f ↦ absurd (let h' = rw (e, f) at h in ground arith)
          | inr (key, f) ↦
              let secret =
                build_bootstrap_token_secret id key name default_bootstrap_token_ttl
                  "system:bootstrappers:worker,system:bootstrappers:ingress" created now in
              let h' = rw (e, f) at h in
              elim (Result-cases (create secret)) [
                | inr (g, k) ↦ absurd (let h'' = rw k at h' in ground arith)
                | inl (u, k) ↦
                    subst (IsLive create created) (ok_inj refl (rw k at h'))
                      (applied_lives create id key name _ default_bootstrap_token_ttl created now k)
              ]
        ]
      ]
