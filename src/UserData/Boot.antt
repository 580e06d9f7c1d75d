-- ===== src/UserData/Boot.antt =====
-- When the user data of a node is generated, pkg/providers/userdata/provider.go.
use karpenter_provider_exosc.Kube.{NodeClaim}
use karpenter_provider_exosc.NodeClass.{ContainerRegistrySpec}
use karpenter_provider_exosc.Prelude.{
  ◌≡◌, ◌≢◌, refl, inl, inr, false, Option, none, some, String, Result, ok, err, arith, ◌==◌,
  eq_cases, eq_iff, Result-cases,
}
use karpenter_provider_exosc.UserData.Bootstrap.{
  Options as BootOptions, BootstrapError, Config, build_config, text_of, merge_user_data,
  compress_and_encode, bootstrap_generate,
}
use karpenter_provider_exosc.UserData.Generate.{
  Options, CaError, ca_bundle_of, bootstrap_options, without_user_data, retried, generate,
}
use karpenter_provider_exosc.UserData.Merge.{Fields}
use karpenter_provider_exosc.UserData.Registry.{ResolveError, Resolved}

is_set : (s : String) → s ≢ "" → (s == "") ≡ false
is_set s h = ground (arith, eq_iff s "")

module _ {Leaf : Type 0} (encode : Config → Result BootstrapError String)
    (decode : String → Result BootstrapError (Fields Leaf))
    (print : Fields Leaf → Result BootstrapError String) where
  -- The text of a configuration that the bootstrap compresses: the merged document, or the
  -- configuration alone where there is no user data, or the merge fails.
  pub data Chosen (config : Config) (text : String) : Option String → String → Type 0 where
    absent : Chosen config text none text
    blank : (raw : String) → raw ≡ "" → Chosen config text (some raw) text
    broken :
        (raw : String) (e : BootstrapError)
        → merge_user_data encode decode print config raw ≡ err e
        → Chosen config text (some raw) text
    merges :
        (raw t : String)
        → merge_user_data encode decode print config raw ≡ ok t
        → Chosen config text (some raw) t

  module _ (base64 trim_space : String → String) (gzip : String → Result BootstrapError String)
      (gzip_works : (t : String) → (z : String) × (gzip t ≡ ok z)) where
    abbrev boot : BootOptions → Result BootstrapError String
    boot = bootstrap_generate encode decode print base64 trim_space gzip

    -- The bootstrap succeeds with a text that compresses to the result.
    abbrev Zips : Result BootstrapError String → String → Type 0
    Zips r t = (z : String) × (gzip t ≡ ok z) × (r ≡ ok (base64 z))

    boot_text :
        (o : BootOptions) (t : String)
        → o.bootstrap_token ≢ ""
        → o.ca_bundle ≢ ""
        → text_of encode decode print (build_config base64 trim_space o) o.user_data ≡ ok t
        → Zips (boot o) t
    unfolding bootstrap_generate compress_and_encode
    boot_text o t token ca e =
        let (z, gz) = gzip_works t in
        let p : (o.bootstrap_token == "") ≡ false = is_set o.bootstrap_token token in
        let q : (o.ca_bundle == "") ≡ false = is_set o.ca_bundle ca in
        (z, gz, rw (p, q, e, gz) refl)

    boot_fails :
        (o : BootOptions) (e : BootstrapError)
        → o.bootstrap_token ≢ ""
        → o.ca_bundle ≢ ""
        → text_of encode decode print (build_config base64 trim_space o) o.user_data ≡ err e
        → boot o ≡ err e
    unfolding bootstrap_generate
    boot_fails o e token ca f =
        let p : (o.bootstrap_token == "") ≡ false = is_set o.bootstrap_token token in
        let q : (o.ca_bundle == "") ≡ false = is_set o.ca_bundle ca in rw (p, q, f) refl

    abbrev Boots : BootOptions → String → Option String → Type 0
    Boots o text raw =
        (t : String) × Chosen (build_config base64 trim_space o) text raw t
        × Zips (retried raw (boot (record o { user_data = raw })) (boot (without_user_data o))) t

    retried-boot :
        (o : BootOptions) (text : String) (raw : Option String)
        → o.bootstrap_token ≢ ""
        → o.ca_bundle ≢ ""
        → encode (build_config base64 trim_space o) ≡ ok text
        → Boots o text raw
    unfolding build_config
    retried-boot o text none token ca enc =
        let (z, gz, r) = boot_text (record o { user_data = none }) text token ca (rw enc refl) in
        (text, absent, (z, gz, rw r refl))
    retried-boot o text (some raw) token ca enc =
        let config = build_config base64 trim_space o in
        let u = record o { user_data = some raw } in
        elim (eq_cases raw "") [
          | inl (p, e) ↦
              let (z, gz, r) = boot_text u text token ca (rw (p, enc) refl) in
              (text, blank raw e, (z, gz, rw r refl))
          | inr (p, e) ↦ elim (Result-cases (merge_user_data encode decode print config raw)) [
            | inl (t, m) ↦
                let (z, gz, r) = boot_text u t token ca (rw (p, m) refl) in
                (t, merges raw t m, (z, gz, rw r refl))
            | inr (f, m) ↦
                let r0 = boot_fails u BootstrapError.merge_failed token ca (rw (p, m) refl) in
                let (z, gz, r) = boot_text (without_user_data o) text token ca (rw enc refl) in
                (text, broken raw f m, (z, gz, rw (r0, p, r) refl))
          ]
        ]

    -- If the bundle of the cluster's CA and the container registry are found, the bundle and the
    -- bootstrap token are not empty, the configuration can be encoded and gzip does not fail, the
    -- call succeeds, whatever the user data: it returns the base64 text of the compressed merge, or of
    -- the compressed configuration alone where there is no user data or the merge fails.
    pub generate_lem :
        (resolver : Option ContainerRegistrySpec → Result ResolveError (Option Resolved))
        (cluster_ca : Result CaError String) (claim : NodeClaim) (o : Options) (ca text : String)
        (registry : Option Resolved)
        → ca_bundle_of o cluster_ca ≡ ok ca
        → resolver o.container_registry ≡ ok registry
        → o.bootstrap_token ≢ ""
        → ca ≢ ""
        → let config =
            build_config base64 trim_space (bootstrap_options base64 o claim ca registry) in
          encode config ≡ ok text
          → (t : String) × (z : String) × Chosen config text o.user_data t
            × (gzip t ≡ ok z)
            × (generate base64
                  (bootstrap_generate encode decode print base64 trim_space gzip)
                  cluster_ca
                  resolver
                  claim
                  o
                ≡ ok (base64 z))
    unfolding generate bootstrap_options
    generate_lem resolver cluster_ca claim o ca text registry got found token set enc =
        let b = bootstrap_options base64 o claim ca registry in
        let (t, c, (z, gz, r)) = retried-boot b text o.user_data token set enc in
        (t, z, c, gz, rw (got, found, r) refl)
