-- ===== src/Tests/InstanceType.antt =====
-- Two types, of which one is offered, and the two readings of an ambiguous price key.
use karpenter_provider_exosc.InstanceType.Defs.{
  ListedType, Provider, InstanceType, refresh, build_instance_types, build_loop,
  create_instance_type, get_by_id, get_id_for_name, find_id, type_name,
}
use karpenter_provider_exosc.InstanceType.Index.{IsOffered, ComesFrom, refresh_lem}
use karpenter_provider_exosc.InstanceType.Prices.{
  split_key, cut_suffix, trim_suffix, trim_prefix, extract_price, raw_instance_families,
  load_prices, load_loop,
}
use karpenter_provider_exosc.Prelude.{
  ℕ, ◌≡◌, ◌≢◌, refl, inl, inr, true, Option, none, some, String, [], ◌∷◌, In, Map, ok, arith,
}

program : Unit {0}
unfolding cut_suffix trim_suffix trim_prefix split_key extract_price load_prices load_loop refresh
    build_instance_types build_loop create_instance_type get_id_for_name find_id
program = tt

abbrev small : ListedType
small = record {
  id = "t-1";
  family = "standard";
  size = "small";
  cpus = 2;
  memory = 4;
  gpus = 0;
  authorized = some true;
  zones = some ("ch-gva-2" ∷ []);
}

abbrev hidden : ListedType
hidden = record small { id = "t-2"; authorized = none }

abbrev provider : Provider ℕ 1000
provider = record {
  zone = "ch-gva-2";
  by_name = [];
  by_id = [];
  prices = ("standard.small", 3) ∷ [];
}

refresh_run :
    get_id_for_name ℕ 1000 (refresh ℕ 1000 provider (ok (hidden ∷ small ∷ []))).0 "standard.small"
    ≡ some "t-1"
unfolding program
refresh_run = refl

refresh_lem_example :
    let after = (refresh ℕ 1000 provider (ok (hidden ∷ small ∷ []))).0 in
    ((id : String) (it : InstanceType ℕ 1000)
      → get_by_id ℕ 1000 after id ≡ some it
      → ComesFrom ℕ 1000 provider.zone provider.prices (hidden ∷ small ∷ []) (id, it))
    × ((t : ListedType)
        → In t (hidden ∷ small ∷ [])
        → IsOffered ℕ 1000 provider.zone t
        → get_by_id ℕ 1000 after t.id ≢ none)
    × ((name id : String)
        → get_id_for_name ℕ 1000 after name ≡ some id
        → (t : ListedType) × In t (hidden ∷ small ∷ [])
          × (t.id ≡ id)
          × (type_name t ≡ name)
          × IsOffered ℕ 1000 provider.zone t)
refresh_lem_example = refresh_lem ℕ 1000 provider (hidden ∷ small ∷ [])

abbrev sizes : Map String
sizes = ("micro", "micro") ∷ ("small", "small") ∷ []

abbrev key : String
key = "gpu2_small"

ends : cut_suffix key "small" ≡ some "gpu2_"
unfolding program
ends = refl

not_micro : cut_suffix key "micro" ≡ none
unfolding program
not_micro = refl

alone : (s n : String) → In (s, n) sizes → cut_suffix key s ≢ none → s ≡ "small"
alone s n (inl same) h = absurd (ground (arith, not_micro))
alone s n (inr (inl same)) h = ground arith
alone s n (inr (inr never)) h = absurd never

abbrev parse : String → Option ℕ
parse s = some 7

-- Two orders of the same map of sizes give one key two names.
abbrev larger_first : Map String
larger_first = ("extra_large", "extra-large") ∷ ("large", "large") ∷ []

abbrev larger_last : Map String
larger_last = ("large", "large") ∷ ("extra_large", "extra-large") ∷ []

extract_price_first :
    extract_price ℕ parse raw_instance_families larger_first "running_extra_large" "7"
    ≡ some ("standard.extra-large", 7)
unfolding program
extract_price_first = refl

extract_price_last :
    extract_price ℕ parse raw_instance_families larger_last "running_extra_large" "7"
    ≡ some (".large", 7)
unfolding program
extract_price_last = refl
