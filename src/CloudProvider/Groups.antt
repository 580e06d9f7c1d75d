-- ===== src/CloudProvider/Groups.antt =====
-- `computeExpectedSecurityGroups`, against the groups that `Create` asks for.
use karpenter_provider_exosc.InstanceProvider.{requested_security_groups}
use karpenter_provider_exosc.Prelude.{
  ◌≡◌, ◌≢◌, ◌↔◌, ◌⊎◌, refl, inl, inr, Option, none, some, String, List, [], ◌∷◌, ◌++◌, In,
  In-append, In-append_left, In-append_right, contains, contains_iff, arith, if◌then◌else◌, ◌==◌,
  eq_iff, Bool-cases, eq_cases,
}

-- The option stands for the pair `found, id` of the source.
unfoldable pub compute_expected_security_groups : List String → Option String → List String
compute_expected_security_groups groups none = groups
compute_expected_security_groups groups (some id) =
    if id == "" then groups else if contains groups id then groups else groups ++ id ∷ []

In-same : (groups : List String) (a b : String) → In a groups → a ≡ b → In b groups
In-same groups a b h e = rw e at h

-- The expected groups are those of the NodeClass and the default group of the cluster, where there
-- is one with an ID.
pub In-compute_expected_security_groups :
    (groups : List String) (sks : Option String) (s : String)
    → In s (compute_expected_security_groups groups sks)
      ↔ (In s groups ⊎ ((sks ≡ some s) × (s ≢ "")))
unfolding compute_expected_security_groups
In-compute_expected_security_groups groups none s = ground arith
In-compute_expected_security_groups groups (some id) s = elim (eq_cases id "") [
  | inl (e, empty) ↦ rw e (ground arith)
  | inr (e, present) ↦ rw e (elim (Bool-cases (contains groups id)) [
    | inl there ↦ rw there (ground (arith, contains_iff groups id, In-same groups id s))
    | inr absent ↦ rw absent (
      λ h. elim (In-append s groups (id ∷ []) h) [
        | inl l ↦ inl l
        | inr r ↦ inr (ground (arith, present))
      ],
      λ h. elim h [
        | inl l ↦ In-append_left s groups _ l
        | inr (is, _) ↦ In-append_right s groups _ (inl (ground arith))
      ],
    )
  ])
]

-- A new instance asks for exactly the groups that the drift check expects, in the same order, if
-- the ID of the cluster's default group is not empty: a fresh instance has no security group drift.
pub requested-eq-expected :
    (groups : List String) (sks : Option String)
    → sks ≢ some ""
    → requested_security_groups groups sks ≡ compute_expected_security_groups groups sks
unfolding requested_security_groups compute_expected_security_groups
requested-eq-expected groups none h = refl
requested-eq-expected groups (some id) h = ground (arith, eq_iff id "")
