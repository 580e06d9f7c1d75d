-- ===== src/NodeClassController/Hash.antt =====
-- pkg/controllers/nodeclass/controller_reconcilers.go: the configuration hash. Go bytes and the
-- string of these bytes are one. `sort.Slice` leaves the order of entries with one key open; here
-- they keep theirs.
use Prim.Native.Char.{nul}
use Prim.Native.Nat.{◌/◌, ◌%◌}
use karpenter_provider_exosc.Kube.{ApiError}
use karpenter_provider_exosc.NodeClass.{
  ContainerRegistrySpec, ExoscaleNodeClass, KubeletConfiguration,
  default_cpu_manager_reconcile_period,
}
use karpenter_provider_exosc.Prelude.{
  ℕ, zero, suc, Bool, true, false, not, ◌&&◌, Option, none, some, String, List, [], ◌∷◌, ◌++◌, Map,
  Result, ok, ◌>>=◌, ◌^^◌, if◌then◌else◌, ◌==◌, ltb, eqb, sort_by, sort_strings,
}
use karpenter_provider_exosc.UserData.Bootstrap.{is_empty}
use karpenter_provider_exosc.UserData.Registry.{
  Resolved, ResolvedMirror, Secrets, basic, auth, identity_token, TlsSecret, ResolveError,
  resolve_spec,
}

pub record HashEntry : Type 0 where
  pub key : String
  pub value : String

abbrev zero_byte : String
zero_byte = String.◌∷◌ nul ""

-- The bytes that the hash is fed with.
unfoldable pub serialize : List HashEntry → String
serialize [] = ""
serialize (e ∷ es) = e.key ^^ zero_byte ^^ e.value ^^ zero_byte ^^ serialize es

abbrev pub no_entries : List HashEntry → Bool
no_entries [] = true
no_entries (e ∷ es) = false

-- `hashEntries`; `sha` is the hexadecimal SHA-256 of the bytes.
unfoldable pub hash_entries : (String → String) → List HashEntry → String
hash_entries sha es = if no_entries es then "" else sha (serialize (sort_by (λ e. e.key) es))

abbrev pub gather : {A : Type 0} → (A → List HashEntry) → List A → List HashEntry
gather f [] = []
gather f (x ∷ xs) = f x ++ gather f xs

abbrev endpoint_key : String → String → String → String
endpoint_key registry url file =
    "registry/mirror/" ^^ registry ^^ "/endpoint/" ^^ url ^^ "/tls/" ^^ file

abbrev pub tls_entries : String → String → Option TlsSecret → List HashEntry
tls_entries registry url none = []
tls_entries registry url (some t) =
    let cert =
      if t.cert == ""
      then []
      else record { key = endpoint_key registry url "tls.crt"; value = t.cert_dec }
        ∷ record { key = endpoint_key registry url "tls.key"; value = t.key_dec }
        ∷ [] in
    if t.ca == ""
    then cert
    else record { key = endpoint_key registry url "ca.crt"; value = t.ca_dec } ∷ cert

abbrev pub mirror_entries : ResolvedMirror → List HashEntry
mirror_entries m = gather (λ ep. tls_entries m.registry ep.url ep.tls) m.endpoints

abbrev pub secrets_entry : String → Secrets → HashEntry
secrets_entry registry (basic u p) = record {
  key = "registry/credential/" ^^ registry ^^ "/basic";
  value = u ^^ zero_byte ^^ p;
}
secrets_entry registry (auth a) = record {
  key = "registry/credential/" ^^ registry ^^ "/auth";
  value = a;
}
secrets_entry registry (identity_token t) = record {
  key = "registry/credential/" ^^ registry ^^ "/identitytoken";
  value = t;
}

-- `containerRegistryHashEntries`, from the resolved registry
unfoldable pub container_registry_hash_entries : Resolved → List HashEntry
container_registry_hash_entries r =
    gather mirror_entries r.mirrors
    ++ gather (λ c. secrets_entry c.registry c.secrets ∷ []) r.credentials

abbrev digit : ℕ → String
digit d =
    if eqb d 0
    then "0"
    else if eqb d 1
    then "1"
    else if eqb d 2
    then "2"
    else if eqb d 3
    then "3"
    else if eqb d 4
    then "4"
    else if eqb d 5
    then "5"
    else if eqb d 6
    then "6"
    else if eqb d 7
    then "7"
    else if eqb d 8
    then "8"
    else "9"

-- `%d`; the fuel bounds the number of digits.
unfoldable decimal_loop : ℕ → ℕ → String
decimal_loop zero n = ""
decimal_loop (suc fuel) n =
    let front = decimal_loop fuel (n / 10) in if ltb n 10 then digit n else front ^^ digit (n % 10)

unfoldable pub decimal : ℕ → String
unfolding decimal_loop
decimal n = decimal_loop (suc n) n

abbrev pub policy_entries : String → List HashEntry
policy_entries policy =
    if not (policy == "") && not (policy == "none")
    then record { key = "cpumanager/policy"; value = policy } ∷ []
    else []

-- `strings.Join(opts, ",")`
abbrev pub join_comma : List String → String
join_comma [] = ""
join_comma (x ∷ []) = x
join_comma (x ∷ y ∷ xs) = x ^^ "," ^^ join_comma (y ∷ xs)

abbrev pub option_entries : String → List String → List HashEntry
option_entries policy options =
    if not (is_empty options) && policy == "static"
    then record { key = "cpumanager/options"; value = join_comma (sort_strings options) } ∷ []
    else []

abbrev pub period_entries : String → List HashEntry
period_entries p =
    if not (p == "") && not (p == default_cpu_manager_reconcile_period)
    then record { key = "cpumanager/reconcilePeriod"; value = p } ∷ []
    else []

abbrev pub max_pods_entries : Option ℕ → List HashEntry
max_pods_entries none = []
max_pods_entries (some n) = record { key = "maxpods/value"; value = decimal n } ∷ []

unfoldable pub kubelet_entries : KubeletConfiguration → List HashEntry
kubelet_entries k =
    policy_entries k.cpu_manager_policy
    ++ option_entries k.cpu_manager_policy k.cpu_manager_policy_options
    ++ period_entries k.cpu_manager_reconcile_period
    ++ max_pods_entries k.max_pods

module _ (pem : String → Option String) (get : String → Result ApiError (Map String)) where
  unfoldable pub registry_entries :
      Option ContainerRegistrySpec → Result ResolveError (List HashEntry)
  registry_entries none = ok []
  registry_entries (some spec) =
      resolve_spec pem get spec >>= λ r. ok (container_registry_hash_entries r)

  -- `reconcileConfigurationHash`, with the hash that it writes into the status
  unfoldable pub reconcile_configuration_hash :
      (String → String) → ExoscaleNodeClass → Result ResolveError String
  reconcile_configuration_hash sha nc = registry_entries nc.spec.container_registry >>= λ es.
      ok (hash_entries sha (es ++ kubelet_entries nc.spec.kubelet))
