-- ===== src/InstanceProvider/Groups.antt =====
-- `checkAntiAffinityGroups`: no requested group may be at the platform's limit.
use karpenter_provider_exosc.Constants.{max_instances_per_anti_affinity_group}
use karpenter_provider_exosc.Kube.{ApiError}
use karpenter_provider_exosc.Prelude.{
  ◌<◌, ◌≡◌, ◌↔◌, refl, inl, inr, String, List, [], ◌∷◌, In, Result, ok, err, arith, leb, length,
  if◌then◌else◌, Result-cases,
}

pub data GroupError : Type 0 where
  get_group_failed at_capacity : String → GroupError

check_group :
    String
    → Result ApiError (List String)
    → Result GroupError (Unit {0})
    → Result GroupError (Unit {0})
check_group id (err e) rest = err (get_group_failed id)
check_group id (ok instances) rest =
    if leb max_instances_per_anti_affinity_group (length instances)
    then err (at_capacity id)
    else rest

-- The first argument answers `GetAntiAffinityGroup` with the instances of the group.
unfoldable pub check_anti_affinity_groups :
    (String → Result ApiError (List String)) → List String → Result GroupError (Unit {0})
unfolding check_group
check_anti_affinity_groups get [] = ok tt
check_anti_affinity_groups get (id ∷ ids) =
    check_group id (get id) (check_anti_affinity_groups get ids)

abbrev pub HasRoom : (String → Result ApiError (List String)) → String → Type 0
HasRoom get id =
    (instances : List String) × (get id ≡ ok instances)
    × (length instances < max_instances_per_anti_affinity_group)

-- The check passes exactly if the API knows every requested group with fewer instances than the
-- limit; so one more instance leaves each group at the limit or below.
pub check_anti_affinity_groups_iff :
    (get : String → Result ApiError (List String)) (ids : List String)
    → (check_anti_affinity_groups get ids ≡ ok tt) ↔ ((id : String) → In id ids → HasRoom get id)
unfolding check_anti_affinity_groups
check_anti_affinity_groups_iff get [] = (λ h id at. absurd at, λ h. refl)
check_anti_affinity_groups_iff get (id ∷ ids) = elim (Result-cases (get id)) [
  | inr (e, p) ↦
      (λ h. absurd (ground arith), λ h. let (l, q, r) = h id (inl refl) in absurd (ground arith))
  | inl (instances, p) ↦ (
    λ h other at. elim at [
      | inl same ↦ rw same (instances, p, ground arith)
      | inr later ↦ (check_anti_affinity_groups_iff get ids).0 (ground arith) other later
    ],
    λ h.
        let (l, q, r) = h id (inl refl) in
        ground (arith, (check_anti_affinity_groups_iff get ids).1 (λ other at. h other (inr at))),
  )
]
