-- ===== src/Tests/InstanceProvider.antt =====
-- The provider of instances.
use karpenter_provider_exosc.Kube.{bad_request}
use karpenter_provider_exosc.Instance.{ExoInstance, Instance, from_exoscale_instance}
use karpenter_provider_exosc.InstanceProvider.Groups.{
  check_anti_affinity_groups, check_anti_affinity_groups_iff, HasRoom,
}
use karpenter_provider_exosc.InstanceProvider.Cheapest.{
  find_cheapest_instance_type, find_cheapest_instance_type-IsCheapest, cheapest_loop, visit,
  IsCheapest,
}
use karpenter_provider_exosc.InstanceProvider.Attach.{
  AttachAnswer, refused, operation, attach_elastic_ip, attach_elastic_ip-settles, Transient,
}
use karpenter_provider_exosc.InstanceProvider.Listing.{
  Api, list, list_filtered, list_answer, list_loop, fetch, is_managed, IsManaged, IsFullForm,
  list_iff, ProviderError,
}
use karpenter_provider_exosc.Prelude.{
  ℕ, ◌≤◌, ◌<◌, ◌≡◌, ◌↔◌, inl, inr, refl, true, false, String, List, [], ◌∷◌, Map, In, Result, ok,
  err, arith, ltb, if◌then◌else◌,
}
use karpenter_provider_exosc.LabelFilter.{
  karpenter_filter, encode, encode_pairs, contains_blank, contains_space, join,
}
use karpenter_provider_exosc.Samples.{options, exo_instance}

abbrev prices : Map ℕ
prices = ("standard.small", 5) ∷ ("standard.micro", 3) ∷ ("standard.tiny", 4) ∷ []

abbrev types : List String
types = "gpu2.huge" ∷ "standard.small" ∷ "standard.micro" ∷ "standard.tiny" ∷ []

cheapest_run : find_cheapest_instance_type ltb 0 types prices ≡ "standard.micro"
unfolding find_cheapest_instance_type cheapest_loop visit
cheapest_run = refl

ltb_irrefl : (a : ℕ) → ltb a a ≡ false
ltb_irrefl a = ground arith

ltb_asym : (a b : ℕ) → ltb a b ≡ true → ltb b a ≡ false
ltb_asym a b h = ground arith

not_ltb_trans : (a b c : ℕ) → ltb b a ≡ false → ltb c b ≡ false → ltb c a ≡ false
not_ltb_trans a b c h k = ground arith

find_cheapest_instance_type-IsCheapest_example :
    IsCheapest ltb 0 ltb_irrefl ltb_asym not_ltb_trans prices types
      (find_cheapest_instance_type ltb 0 types prices)
find_cheapest_instance_type-IsCheapest_example =
    find_cheapest_instance_type-IsCheapest ltb 0 ltb_irrefl ltb_asym not_ltb_trans prices types
      "standard.tiny" 4 (inr (inr (inr (inl refl)))) refl

check_anti_affinity_groups_iff_example :
    (check_anti_affinity_groups (λ id. ok ("i" ∷ [])) ("aag" ∷ []) ≡ ok tt)
    ↔ ((id : String) → In id ("aag" ∷ []) → HasRoom (λ id. ok ("i" ∷ [])) id)
check_anti_affinity_groups_iff_example =
    check_anti_affinity_groups_iff (λ id. ok ("i" ∷ [])) ("aag" ∷ [])

-- Two answers of 400, then an operation.
abbrev third_time : ℕ → AttachAnswer
third_time k = if ltb k 3 then refused bad_request else operation true

third_time-Transient : (j : ℕ) → 1 ≤ j → j < 3 → Transient (third_time j)
third_time-Transient j lo hi = ground arith

third_time-settled : ¬ Transient (third_time 3)
third_time-settled h = cc

attach_elastic_ip-settles_example : attach_elastic_ip third_time ≡ (3, ok tt)
attach_elastic_ip-settles_example =
    attach_elastic_ip-settles third_time 3 (omega arith) (omega arith) third_time-Transient
      third_time-settled

abbrev labels : Map String
labels = ("owner", "ops") ∷ ("exoscale.com/managed-by", "someone") ∷ []

abbrev tags : Map String
tags = ("exoscale.com/managed-by", "karpenter") ∷ []

abbrev stranger : ExoInstance
stranger = record exo_instance { labels = [] }

abbrev api : Api
api = record {
  list_instances = λ f. ok (exo_instance ∷ stranger ∷ []);
  get_instance = λ id. ok exo_instance;
  type_capacity = λ id. ok (("cpu", 2) ∷ []);
}

abbrev listed : Result ProviderError (List Instance) → List Instance
listed (ok is) = is
listed (err e) = []

program : Unit {0}
unfolding karpenter_filter encode encode_pairs contains_blank contains_space join list list_filtered
    list_answer list_loop fetch is_managed from_exoscale_instance
program = tt

abbrev answer : List Instance
unfolding program
answer = listed (list options api)

answer_lem : list options api ≡ ok answer
unfolding program answer
answer_lem = refl

abbrev filter : String
filter =
    "exoscale.com/managed-by=karpenter exoscale.com/cluster-id=11111111-1111-1111-1111-111111111111"

encoded : karpenter_filter options.cluster_id ≡ ok filter
unfolding program
encoded = refl

list_iff_example :
    ((i : Instance)
      → In i answer
      → (x : ExoInstance) × In x (exo_instance ∷ stranger ∷ [])
        × IsManaged options api x
        × IsFullForm options api x i)
    × ((x : ExoInstance)
        → In x (exo_instance ∷ stranger ∷ [])
        → IsManaged options api x
        → (i : Instance) × In i answer × IsFullForm options api x i)
list_iff_example =
    list_iff options api filter (exo_instance ∷ stranger ∷ []) answer encoded refl answer_lem
