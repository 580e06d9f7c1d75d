-- ===== src/Tests/BootstrapToken.antt =====
-- A token of an hour ago, and one that its node has used.
use karpenter_provider_exosc.BootstrapToken.Defs.{
  Secret, Node, delete_secret, is_bootstrap_token, is_token_expired, calculate_token_expiry_time,
  min_requeue, secret_type_bootstrap_token, namespace_system, is_node_using_bootstrap_token,
  is_node_registered, is_node_already_marked_registered, registered_node,
}
use karpenter_provider_exosc.BootstrapToken.Loop.{
  World, reconcile, reconcile_secret, with_secret, cleanup_token, cleanup_tokens, sweep,
  monitor_token,
}
use karpenter_provider_exosc.BootstrapToken.Expiry.{calculate_token_expiry_time_lem}
use karpenter_provider_exosc.BootstrapToken.Cleanup.{
  IsFinished, reconcile_deletes_only-IsFinished, cleanup_tokens_lem,
}
use karpenter_provider_exosc.BootstrapToken.Build.{
  Rfc3339, BootstrapToken, IsLive, create_and_apply_bootstrap_token_secret,
  create_and_apply_bootstrap_token_secret_lem, generate_loop, generate_secure_random_string,
  build_bootstrap_token_secret, BootstrapError,
}
use karpenter_provider_exosc.Constants.{
  default_bootstrap_token_ttl, label_token_provider, provider_name, annotation_bootstrap_token,
}
use karpenter_provider_exosc.Kube.{ApiError, not_found}
use karpenter_provider_exosc.Prelude.{
  ℕ, zero, suc, ◌+◌, ◌*◌, ◌≤◌, ◌≡◌, ◌≢◌, refl, ap, inl, true, Option, none, some, String, [], ◌∷◌,
  In, Time, pos, minute, ok, err, Result, time_sub, sub_from, arith, eq_iff, ◌^^◌,
}

abbrev format : Time → String
format zero = ""
format (suc n) = "x" ^^ format n

abbrev count : String → ℕ
count String.[] = 0
count (String.◌∷◌ c s) = suc (count s)

count-format : (t : Time) → count (format t) ≡ t
count-format zero = refl
count-format (suc n) = ap suc (count-format n)

-- Times written as so many letters, with no rounding.
abbrev unary : Rfc3339
unary = record {
  format = format;
  parse = λ s. some (count s);
  rounded = λ t. t;
  parse-format = λ t. ap some (count-format t);
  rounded_le = λ t. omega arith;
  rounded_lt = λ t. omega arith;
}

abbrev parse : String → Option Time
parse s = none

abbrev old : Secret
old = record {
  name = "bootstrap-token-abcdef";
  namespace = namespace_system;
  type = secret_type_bootstrap_token;
  labels = (label_token_provider, provider_name) ∷ [];
  annotations = [];
  creation_timestamp = 5;
  string_data = [];
}

abbrev node : Node
node = record {
  name = "claim-1";
  annotations = (annotation_bootstrap_token, "bootstrap-token-abcdef") ∷ [];
  phase = "";
  conditions = "Ready" ∷ [];
}

abbrev world : World
world = record {
  get = λ n. ok old;
  secrets = some (old ∷ []);
  nodes = λ n. some (node ∷ []);
  clock = λ n. 60 * minute + n;
  delete = λ n. err not_found;
}

program : Unit {0}
unfolding time_sub sub_from is_bootstrap_token is_token_expired calculate_token_expiry_time
    is_node_registered is_node_already_marked_registered registered_node
    is_node_using_bootstrap_token reconcile reconcile_secret with_secret cleanup_token
    cleanup_tokens sweep monitor_token generate_loop generate_secure_random_string
    build_bootstrap_token_secret create_and_apply_bootstrap_token_secret
program = tt

calculate_token_expiry_time_lem_example :
    (d : ℕ) × (calculate_token_expiry_time parse old (9 * minute) ≡ pos d)
    × (min_requeue ≤ d)
    × (d ≤ default_bootstrap_token_ttl)
    × (5 + default_bootstrap_token_ttl ≤ 9 * minute + d)
calculate_token_expiry_time_lem_example =
    calculate_token_expiry_time_lem parse old (9 * minute) 5 (inl (refl, refl)) (omega arith)

abbrev request : String
request = "bootstrap-token-abcdef"

single : request ≢ "cleanup-tokens"
single e = ground (arith, eq_iff request "cleanup-tokens")

reconcile_deletes_only-IsFinished_example :
    (old.name ≡ old.name) × (is_bootstrap_token old ≡ true) × IsFinished parse world old 0
unfolding program
reconcile_deletes_only-IsFinished_example =
    reconcile_deletes_only-IsFinished parse world request old old single refl (inl refl)

cleanup_tokens_lem_example :
    ((s : Secret)
      → In (delete_secret s) (cleanup_tokens parse world).actions
      → (secret : Secret) × (m : ℕ) × In secret (old ∷ [])
        × (s.name ≡ secret.name)
        × (secret.type ≡ secret_type_bootstrap_token)
        × IsFinished parse world secret m)
    × ((s : Secret)
        → In s (old ∷ [])
        → s.type ≡ secret_type_bootstrap_token
        → ((m : ℕ) → is_token_expired parse s (world.clock m) ≡ true)
        → In (delete_secret s) (cleanup_tokens parse world).actions)
cleanup_tokens_lem_example = cleanup_tokens_lem parse world (old ∷ []) refl

-- The first reading of the random source fails.
abbrev read : ℕ → Option String
read zero = none
read (suc n) = some "0123456789abcdef0123456789abcdef"

abbrev create : Secret → Result ApiError (Unit {0})
create s = ok tt

abbrev made : Result BootstrapError BootstrapToken → BootstrapToken
made (ok bt) = bt
made (err e) = record { token_id = ""; token_secret = ""; secret_name = ""; secret = old }

abbrev new_token : BootstrapToken
unfolding program
new_token = made (create_and_apply_bootstrap_token_secret unary read read create "claim-1" 5 6)

new_token_lem :
    create_and_apply_bootstrap_token_secret unary read read create "claim-1" 5 6 ≡ ok new_token
unfolding program new_token
new_token_lem = refl

create_and_apply_bootstrap_token_secret_lem_example : IsLive unary create 5 new_token
create_and_apply_bootstrap_token_secret_lem_example =
    create_and_apply_bootstrap_token_secret_lem unary read read create "claim-1" 5 6 new_token
      new_token_lem
