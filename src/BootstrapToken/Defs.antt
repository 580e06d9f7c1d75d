-- ===== src/BootstrapToken/Defs.antt =====
-- Tokens, their expiry, and the registration of their nodes.
use karpenter_provider_exosc.Constants.{
  annotation_bootstrap_token, annotation_token_created, label_token_provider, provider_name,
  default_bootstrap_token_ttl,
}
use karpenter_provider_exosc.Prelude.{
  ℕ, ◌*◌, Bool, true, false, not, ◌&&◌, Option, none, some, String, List, [], ◌∷◌, Map, lookup,
  insert, Time, Duration, pos, time_sub, sub_from, gt_dur, lt_dur, second, if◌then◌else◌, ◌==◌,
}

pub record Secret : Type 0 where
  pub name : String
  pub namespace : String
  pub type : String
  pub labels : Map String
  pub annotations : Map String
  pub creation_timestamp : Time
  pub string_data : Map String

pub record Node : Type 0 where
  pub name : String
  pub annotations : Map String
  pub phase : String
  pub conditions : List String

abbrev pub annotation_node_registered : String
annotation_node_registered = "exoscale.com/node-registered"

-- v1.SecretTypeBootstrapToken, v1.NodePending and metav1.NamespaceSystem
abbrev pub secret_type_bootstrap_token : String
secret_type_bootstrap_token = "bootstrap.kubernetes.io/token"

abbrev pub node_pending : String
node_pending = "Pending"

abbrev pub namespace_system : String
namespace_system = "kube-system"

abbrev pub min_requeue : ℕ
min_requeue = 30 * second

abbrev pub has_value : Option String → String → Bool
has_value none v = false
has_value (some w) v = w == v

abbrev pub is_nonempty : List String → Bool
is_nonempty [] = false
is_nonempty (x ∷ xs) = true

unfoldable pub is_bootstrap_token : Secret → Bool
is_bootstrap_token secret =
    if not (secret.type == secret_type_bootstrap_token)
    then false
    else if not (has_value (lookup label_token_provider secret.labels) provider_name)
    then false
    else true

-- The predicate on create and update events.
unfoldable pub secret_predicate : Secret → Bool
unfolding is_bootstrap_token
secret_predicate secret =
    if not (secret.namespace == namespace_system) then false else is_bootstrap_token secret

unfoldable pub is_node_already_marked_registered : Secret → Bool
is_node_already_marked_registered secret =
    has_value (lookup annotation_node_registered secret.annotations) "true"

unfoldable pub is_node_using_bootstrap_token : Node → String → Bool
is_node_using_bootstrap_token node token_secret_name =
    has_value (lookup annotation_bootstrap_token node.annotations) token_secret_name

abbrev requests : Option String → List String
requests none = []
requests (some name) = name ∷ []

-- `nodeToTokens`: the names of the Secrets, in the system namespace, to reconcile for a node.
unfoldable pub node_to_tokens : Node → List String
node_to_tokens node = requests (lookup annotation_bootstrap_token node.annotations)

-- The loop over the nodes: the first node that uses the token decides.
unfoldable pub registered_node : String → List Node → Bool
unfolding is_node_using_bootstrap_token
registered_node name [] = false
registered_node name (node ∷ nodes) =
    let rest = registered_node name nodes in
    if is_node_using_bootstrap_token node name
    then (if not (node.phase == "") && not (node.phase == node_pending)
        then true
        else if is_nonempty node.conditions
        then true
        else false)
    else rest

-- A call that changes something.
pub data Action : Type 0 where
  update_secret delete_secret : Secret → Action

abbrev pub marked : Secret → Secret
marked secret = record secret {
  annotations = insert annotation_node_registered "true" secret.annotations;
}

-- `isNodeRegistered` and `markNodeRegistered`. The nodes are `none` where the list call fails. The
-- Secret is marked in place, so the call returns it.
unfoldable pub is_node_registered : Secret → Option (List Node) → Bool × Secret × List Action
unfolding is_node_already_marked_registered
is_node_registered secret none = (is_node_already_marked_registered secret, secret, [])
is_node_registered secret (some nodes) =
    if is_node_already_marked_registered secret
    then (true, secret, [])
    else if registered_node secret.name nodes
    then (true, marked secret, update_secret (marked secret) ∷ [])
    else (false, secret, [])

-- `parse` is `time.Parse` with the layout RFC 3339.
module _ (parse : String → Option Time) where
  abbrev pub expired_since : Option Time → Time → Bool
  expired_since none now = true
  expired_since (some created) now = gt_dur (time_sub now created) default_bootstrap_token_ttl

  abbrev pub expired_at : Secret → Option String → Time → Bool
  expired_at secret none now =
      gt_dur (time_sub now secret.creation_timestamp) default_bootstrap_token_ttl
  expired_at secret (some text) now = expired_since (parse text) now

  unfoldable pub is_token_expired : Secret → Time → Bool
  is_token_expired secret now =
      expired_at secret (lookup annotation_token_created secret.annotations) now

  abbrev pub left_since : Option Time → Time → Duration
  left_since none now = pos default_bootstrap_token_ttl
  left_since (some created) now = sub_from default_bootstrap_token_ttl (time_sub now created)

  abbrev pub time_left : Secret → Option String → Time → Duration
  time_left secret none now =
      sub_from default_bootstrap_token_ttl (time_sub now secret.creation_timestamp)
  time_left secret (some text) now = left_since (parse text) now

  unfoldable pub calculate_token_expiry_time : Secret → Time → Duration
  calculate_token_expiry_time secret now =
      let time_until_expiry =
        time_left secret (lookup annotation_token_created secret.annotations) now in
      if lt_dur time_until_expiry min_requeue then pos min_requeue else time_until_expiry
