-- ===== src/BootstrapToken/Loop.antt =====
-- `Reconcile` and the periodic `cleanupTokens`.
use karpenter_provider_exosc.Constants.{default_operation_timeout}
use karpenter_provider_exosc.Kube.{ApiError, not_found}
use karpenter_provider_exosc.BootstrapToken.Defs.{
  Secret, Node, Action, delete_secret, is_bootstrap_token, is_node_registered, is_token_expired,
  calculate_token_expiry_time, min_requeue, secret_type_bootstrap_token,
}
use karpenter_provider_exosc.Prelude.{
  ℕ, suc, not, Option, none, some, String, List, [], ◌∷◌, ◌++◌, Time, Duration, pos, Result, ok,
  err, if◌then◌else◌, ◌==◌,
}

-- What the world answers in one call: the clock and the API at each reading.
pub record World : Type 0 where
  pub get : String → Result ApiError Secret
  pub secrets : Option (List Secret)
  pub nodes : ℕ → Option (List Node)
  pub clock : ℕ → Time
  pub delete : ℕ → Result ApiError (Unit {0})

pub data TokenError : Type 0 where
  get_failed delete_failed list_failed : TokenError

-- What a call did, and when it asks to be called again: `none` is no request.
pub record Outcome : Type 0 where
  pub actions : List Action
  pub requeue_after : Option Duration
  pub error : Option TokenError

abbrev pub quiet : Outcome
quiet = record { actions = []; requeue_after = none; error = none }

-- `cleanupToken`, after the calls in `before`.
unfoldable pub cleanup_token : List Action → Secret → Result ApiError (Unit {0}) → Outcome
cleanup_token before secret (ok _) = record {
  actions = before ++ delete_secret secret ∷ [];
  requeue_after = none;
  error = none;
}
cleanup_token before secret (err not_found) = record {
  actions = before ++ delete_secret secret ∷ [];
  requeue_after = none;
  error = none;
}
cleanup_token before secret (err _) = record {
  actions = before ++ delete_secret secret ∷ [];
  requeue_after = some (pos min_requeue);
  error = some delete_failed;
}

module _ (parse : String → Option Time) where
  unfoldable pub monitor_token : Secret → Time → Outcome
  monitor_token secret now = record {
    actions = [];
    requeue_after = some (calculate_token_expiry_time parse secret now);
    error = none;
  }

  -- The part of `Reconcile` that has the Secret.
  unfoldable pub reconcile_secret : World → Secret → Outcome
  unfolding monitor_token cleanup_token
  reconcile_secret w secret =
      let (registered, current, before) = is_node_registered secret (w.nodes 0) in
      if not (is_bootstrap_token secret)
      then quiet
      else if is_token_expired parse secret (w.clock 0)
      then cleanup_token [] secret (w.delete 0)
      else if registered
      then cleanup_token before current (w.delete 0)
      else monitor_token secret (w.clock 1)

  unfoldable pub with_secret : World → Result ApiError Secret → Outcome
  unfolding reconcile_secret
  with_secret w (ok secret) = reconcile_secret w secret
  with_secret w (err not_found) = quiet
  with_secret w (err _) = record { actions = []; requeue_after = none; error = some get_failed }

  -- The loop of `cleanupTokens`; the number counts the Secrets seen so far. A deletion that fails is
  -- logged and the loop goes on.
  unfoldable pub sweep : World → ℕ → List Secret → List Action
  sweep w n [] = []
  sweep w n (secret ∷ secrets) =
      let rest = sweep w (suc n) secrets in
      let (registered, current, before) = is_node_registered secret (w.nodes n) in
      if not (secret.type == secret_type_bootstrap_token)
      then rest
      else if is_token_expired parse secret (w.clock n)
      then delete_secret secret ∷ rest
      else if registered
      then before ++ delete_secret current ∷ rest
      else rest

  abbrev pub swept : World → Option (List Secret) → Outcome
  swept w none = record {
    actions = [];
    requeue_after = some (pos default_operation_timeout);
    error = some list_failed;
  }
  swept w (some secrets) = record {
    actions = sweep w 0 secrets;
    requeue_after = some (pos default_operation_timeout);
    error = none;
  }

  -- `cleanupTokens`. The label selector of the request is what the API has applied to its answer.
  unfoldable pub cleanup_tokens : World → Outcome
  cleanup_tokens w = swept w w.secrets

  -- `Reconcile`
  unfoldable pub reconcile : World → String → Outcome
  unfolding cleanup_tokens with_secret
  reconcile w name =
      if name == "cleanup-tokens" then cleanup_tokens w else with_secret w (w.get name)
