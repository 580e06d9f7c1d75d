-- ===== src/Lo.antt =====
-- What the provider takes from the package github.com/samber/lo: two functions, with the behaviour
-- that the package documents.
use karpenter_provider_exosc.Prelude.{◌≡◌, ◌↔◌, none, some, String, List, Map, lookup, In}

pub record Lo : Type 0 where
  -- `lo.Difference(a, b)`: the elements of `a` that `b` lacks, and those of `b` that `a` lacks.
  pub difference : List String → List String → List String × List String
  pub difference_left :
      (a b : List String) (s : String) → In s (difference a b).0 ↔ (In s a × (¬ In s b))
  pub difference_right :
      (a b : List String) (s : String) → In s (difference a b).1 ↔ (In s b × (¬ In s a))
  -- `lo.Assign(a, b)`: both maps, where `b` wins.
  pub assign : Map String → Map String → Map String
  pub assign_wins :
      (a b : Map String) (k v : String) → lookup k b ≡ some v → lookup k (assign a b) ≡ some v
  pub assign_falls :
      (a b : Map String) (k : String) → lookup k b ≡ none → lookup k (assign a b) ≡ lookup k a
