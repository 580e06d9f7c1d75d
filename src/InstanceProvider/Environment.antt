-- ===== src/InstanceProvider/Environment.antt =====
-- pkg/providers/instance/options.go: the options from the environment and the client of the Exoscale
-- API. `env` is `os.Getenv`, empty for a variable that is not set; `is_uuid` is `uuid.Parse`.
use karpenter_provider_exosc.InstanceProvider.Labels.{Options}
use karpenter_provider_exosc.Kube.{ApiError}
use karpenter_provider_exosc.Prelude.{
  ◌≡◌, ◌≢◌, ◌↔◌, ◌⊎◌, refl, sym, ap, inl, inr, Bool, true, not, Option, none, some, String, List,
  contains, Result, ok, err, wrap, ◌>>=◌, arith, if◌then◌else◌, ◌==◌, eq_cases, eq_iff, Bool-cases,
  ok_inj,
}

pub record EnvironmentOptions : Type 0 where
  pub options : Options
  pub api_key : String
  pub api_secret : String
  pub cluster_domain : String
  pub cluster_endpoint : String

pub data EnvironmentError : Type 0 where
  variable_required : String → EnvironmentError
  cluster_id_invalid : EnvironmentError

abbrev pub default_cluster_domain : String
default_cluster_domain = "cluster.local"

module _ (env : String → String) where
  unfoldable pub get_required_env : String → Result EnvironmentError String
  get_required_env key = if env key == "" then err (variable_required key) else ok (env key)

  abbrev or_default : String → String → String
  or_default key default = if env key == "" then default else env key

  module _ (is_uuid : String → Bool) (fallback_cluster_endpoint : String) where
    abbrev pub environment : String → String → String → String → EnvironmentOptions
    environment zone cluster_id key secret = record {
      options = record {
        zone = zone;
        cluster_id = cluster_id;
        instance_prefix = env "EXOSCALE_COMPUTE_INSTANCE_PREFIX";
        use_sks_default_security_group = env "USE_SKS_DEFAULT_SECURITY_GROUP" == "true";
      };
      api_key = key;
      api_secret = secret;
      cluster_domain = or_default "CLUSTER_DOMAIN" default_cluster_domain;
      cluster_endpoint = or_default "CLUSTER_ENDPOINT" fallback_cluster_endpoint;
    }

    abbrev check_uuid : String → Result EnvironmentError (Unit {0})
    check_uuid id = if is_uuid id then ok tt else err cluster_id_invalid

    -- `NewOptionsFromEnvironment`
    unfoldable pub new_options_from_environment : Result EnvironmentError EnvironmentOptions
    unfolding get_required_env
    new_options_from_environment = get_required_env "EXOSCALE_ZONE" >>= λ zone.
        get_required_env "EXOSCALE_SKS_CLUSTER_ID" >>= λ cluster_id. check_uuid cluster_id >>= λ _.
        get_required_env "EXOSCALE_API_KEY" >>= λ key.
        get_required_env "EXOSCALE_API_SECRET" >>= λ secret.
        ok (environment zone cluster_id key secret)

pub data ClientError : Type 0 where
  client_failed zone_endpoint_failed list_zones_failed zone_not_found : ClientError

unfoldable pub get_endpoint : String → String → Option String
get_endpoint api_endpoint api_environment =
    if not (api_endpoint == "")
    then some api_endpoint
    else if api_environment == "ppapi"
    then some "https://ppapi-ch-gva-2.exoscale.com/v2"
    else none

-- `new_client` makes a client for an endpoint, or for the default one; the other two are its calls.
module _ {Client : Type 0} (new_client : Option String → Result ApiError Client)
    (zone_endpoint : Client → String → Result ApiError String)
    (list_zones : Client → Result ApiError (List String)) where
  unfoldable pub validate_zone : String → Client → Result ClientError (Unit {0})
  validate_zone zone c = wrap (λ _. list_zones_failed) (list_zones c) >>= λ zones.
      (if contains zones zone then ok tt else err zone_not_found)

  abbrev pub endpoint_or_zone : String → Option String → Result ClientError String
  endpoint_or_zone zone (some e) = ok e
  endpoint_or_zone zone none = wrap (λ _. client_failed) (new_client none) >>= λ c.
      wrap (λ _. zone_endpoint_failed) (zone_endpoint c zone)

  -- `BuildExoscaleClient`
  unfoldable pub build_exoscale_client : (String → String) → String → Result ClientError Client
  unfolding validate_zone get_endpoint
  build_exoscale_client env zone =
      endpoint_or_zone zone
        (get_endpoint (env "EXOSCALE_API_ENDPOINT") (env "EXOSCALE_API_ENVIRONMENT"))
      >>= λ endpoint. wrap (λ _. client_failed) (new_client (some endpoint)) >>= λ c.
          validate_zone zone c >>= λ _. ok c

module _ (env : String → String) (is_uuid : String → Bool) (fallback : String) where
  -- The variables without which the program does not start.
  abbrev pub Complete : Type 0
  Complete =
      (env "EXOSCALE_ZONE" ≢ "")
      × (env "EXOSCALE_SKS_CLUSTER_ID" ≢ "")
      × (is_uuid (env "EXOSCALE_SKS_CLUSTER_ID") ≡ true)
      × (env "EXOSCALE_API_KEY" ≢ "")
      × (env "EXOSCALE_API_SECRET" ≢ "")

  abbrev Defaulted : String → String → String → Type 0
  Defaulted value key default = (env key ≢ "" → value ≡ env key) × (env key ≡ "" → value ≡ default)

  -- The options have the values of the environment, variable by variable, or the defaults.
  pub record IsRead (o : EnvironmentOptions) : Type 0 where
    pub zone : o.options.zone ≡ env "EXOSCALE_ZONE"
    pub cluster_id : o.options.cluster_id ≡ env "EXOSCALE_SKS_CLUSTER_ID"
    pub prefix : o.options.instance_prefix ≡ env "EXOSCALE_COMPUTE_INSTANCE_PREFIX"
    pub sks_group :
        (o.options.use_sks_default_security_group ≡ true)
        ↔ (env "USE_SKS_DEFAULT_SECURITY_GROUP" ≡ "true")
    pub key : o.api_key ≡ env "EXOSCALE_API_KEY"
    pub secret : o.api_secret ≡ env "EXOSCALE_API_SECRET"
    pub domain : Defaulted o.cluster_domain "CLUSTER_DOMAIN" "cluster.local"
    pub endpoint : Defaulted o.cluster_endpoint "CLUSTER_ENDPOINT" fallback

  required :
      (key : String)
      → ((get_required_env env key ≡ ok (env key)) × (env key ≢ ""))
        ⊎ ((get_required_env env key ≡ err (variable_required key)) × (env key ≡ ""))
  unfolding get_required_env
  required key = elim (eq_cases (env key) "") [
    | inl (e, same) ↦ rw e (inr (refl, same))
    | inr (e, n) ↦ rw e (inl (refl, n))
  ]

  read_iff :
      (o : EnvironmentOptions)
      → (new_options_from_environment env is_uuid fallback ≡ ok o) ↔ (
          Complete
          × (o
              ≡ environment env is_uuid fallback
                  (env "EXOSCALE_ZONE")
                  (env "EXOSCALE_SKS_CLUSTER_ID")
                  (env "EXOSCALE_API_KEY")
                  (env "EXOSCALE_API_SECRET")))
  unfolding new_options_from_environment
  read_iff o = elim (required "EXOSCALE_ZONE") [
    | inr (e, p) ↦ rw e (λ h. absurd (ground arith), λ (c, q). absurd (c.0 p))
    | inl (e, z) ↦ elim (required "EXOSCALE_SKS_CLUSTER_ID") [
      | inr (f, p) ↦ rw (e, f) (λ h. absurd (ground arith), λ (c, q). absurd (c.1 p))
      | inl (f, i) ↦ elim (Bool-cases (is_uuid (env "EXOSCALE_SKS_CLUSTER_ID"))) [
        | inr u ↦
            rw (e, f, u)
              (λ h. absurd (ground arith), λ (c, q). absurd (let v = c.2 in ground arith))
        | inl u ↦ elim (required "EXOSCALE_API_KEY") [
          | inr (g, p) ↦ rw (e, f, u, g) (λ h. absurd (ground arith), λ (c, q). absurd (c.3 p))
          | inl (g, k) ↦ elim (required "EXOSCALE_API_SECRET") [
            | inr (s, p) ↦ rw (e, f, u, g, s) (λ h. absurd (ground arith), λ (c, q). absurd (c.4 p))
            | inl (s, n) ↦
                rw (e, f, u, g, s)
                  (λ h. ((z, i, refl, k, n), sym (ok_inj h)), λ (c, q). ap ok (sym q))
          ]
        ]
      ]
    ]
  ]

  or_default-Defaulted : (key default : String) → Defaulted (or_default env key default) key default
  or_default-Defaulted key default = elim (eq_cases (env key) "") [
    | inl (e, same) ↦ rw e (λ n. absurd (n same), λ _. refl)
    | inr (e, n) ↦ rw e (λ _. refl, λ same. absurd (n same))
  ]

  abbrev read : EnvironmentOptions
  read =
      environment env is_uuid fallback (env "EXOSCALE_ZONE") (env "EXOSCALE_SKS_CLUSTER_ID")
        (env "EXOSCALE_API_KEY") (env "EXOSCALE_API_SECRET")

  read-IsRead : IsRead read
  read-IsRead = record {
    zone = refl;
    cluster_id = refl;
    prefix = refl;
    sks_group = eq_iff (env "USE_SKS_DEFAULT_SECURITY_GROUP") "true";
    key = refl;
    secret = refl;
    domain = or_default-Defaulted "CLUSTER_DOMAIN" "cluster.local";
    endpoint = or_default-Defaulted "CLUSTER_ENDPOINT" fallback;
  }

  -- The options are read exactly if the zone, the cluster ID, the API key and the API secret are set
  -- and the cluster ID is a UUID. Each option that is read has the value of its variable; the domain
  -- and the endpoint of the cluster have the defaults where their variables are not set; and the
  -- default security group is used exactly if its variable is `true`.
  pub new_options_from_environment_lem :
      (((o : EnvironmentOptions) × (new_options_from_environment env is_uuid fallback ≡ ok o))
        ↔ Complete)
      × ((o : EnvironmentOptions)
          → new_options_from_environment env is_uuid fallback ≡ ok o
          → IsRead o)
  new_options_from_environment_lem = (
    (λ (o, h). ((read_iff o).0 h).0, λ c. (read, (read_iff read).1 (c, refl))),
    λ o h. rw ((read_iff o).0 h).1 read-IsRead,
  )
