-- ===== src/InstanceProvider/Labels.antt =====
-- Labels of instances, and the security groups that a new instance asks for.
use karpenter_provider_exosc.Constants.{
  instance_label_managed_by, instance_label_cluster_id, instance_label_node_claim,
  instance_label_nodepool_name, managed_by_karpenter, node_pool_label_key,
}
use karpenter_provider_exosc.Kube.{NodeClaim, ApiError, not_found}
use karpenter_provider_exosc.Prelude.{
  ◌≡◌, Bool, true, false, Option, none, some, String, List, [], ◌∷◌, ◌++◌, Map, lookup, insert,
  insert_all, DistinctKeys, lookup-insert_all-none, lookup-insert_all-some, maps_equal,
  maps_equal_iff, contains, Result, ok, err, arith, if◌then◌else◌, not, Bool-cases, Option-cases,
  inl, inr, sym, ◌∙◌,
}

-- instance.Options, as far as the provider reads them.
pub record Options : Type 0 where
  pub zone : String
  pub cluster_id : String
  pub instance_prefix : String
  pub use_sks_default_security_group : Bool

abbrev with_nodepool : Option String → Map String → Map String
with_nodepool none labels = labels
with_nodepool (some np) labels = insert instance_label_nodepool_name np labels

-- `GenerateInstanceLabels`
unfoldable pub generate_instance_labels : Options → NodeClaim → Map String
generate_instance_labels o nc = with_nodepool (lookup node_pool_label_key nc.labels) (
    (instance_label_managed_by, managed_by_karpenter)
    ∷ (instance_label_cluster_id, o.cluster_id)
    ∷ (instance_label_node_claim, nc.name)
    ∷ [])

-- `updatedLabels` of `UpdateTags`: the labels of the instance, overwritten by the tags.
unfoldable pub merge_tags : Map String → Map String → Map String
merge_tags labels tags = insert_all tags (insert_all labels [])

-- What the API answers to `UpdateInstance`: an error, no operation to wait for, or an operation
-- whose wait succeeds or fails.
pub data UpdateAnswer : Type 0 where
  refused : ApiError → UpdateAnswer
  no_operation : UpdateAnswer
  operation : Bool → UpdateAnswer

pub data TagError : Type 0 where
  instance_not_found get_failed update_failed wait_failed : TagError

get_error : ApiError → TagError
get_error not_found = instance_not_found
get_error _ = get_failed

update_result : UpdateAnswer → Result TagError (Unit {0})
update_result (refused e) = err update_failed
update_result no_operation = ok tt
update_result (operation true) = ok tt
update_result (operation false) = err wait_failed

update_with :
    (Map String → UpdateAnswer)
    → Map String
    → Result ApiError (Map String)
    → Option (Map String) × Result TagError (Unit {0})
unfolding get_error update_result merge_tags
update_with update tags (err e) = (none, err (get_error e))
update_with update tags (ok labels) =
    (some (merge_tags labels tags), update_result (update (merge_tags labels tags)))

-- `UpdateTags`: the labels of the update request that it made, if any, and how it ended. The first
-- argument answers `GetInstance` with the labels of the instance.
unfoldable pub update_tags :
    (String → Result ApiError (Map String))
    → (String → Map String → UpdateAnswer)
    → String
    → Map String
    → Option (Map String) × Result TagError (Unit {0})
unfolding update_with
update_tags get update id tags = update_with (update id) tags (get id)

-- The SKS cluster, by its default security group; `none` is a nil cluster.
unfoldable pub sks_default_sg_id_from_cluster : Option (Option String) → Option String
sks_default_sg_id_from_cluster none = none
sks_default_sg_id_from_cluster (some none) = none
sks_default_sg_id_from_cluster (some (some id)) = some id

sks_from_answer : Result ApiError (Option (Option String)) → Result ApiError (Option String)
unfolding sks_default_sg_id_from_cluster
sks_from_answer (ok cluster) = ok (sks_default_sg_id_from_cluster cluster)
sks_from_answer (err e) = err e

-- `GetSKSDefaultSecurityGroupID`
unfoldable pub get_sks_default_security_group_id :
    Options → (String → Result ApiError (Option (Option String))) → Result ApiError (Option String)
unfolding sks_from_answer
get_sks_default_security_group_id o get_sks_cluster =
    if not o.use_sks_default_security_group
    then ok none
    else sks_from_answer (get_sks_cluster o.cluster_id)

-- The security groups of the create request.
unfoldable pub requested_security_groups : List String → Option String → List String
requested_security_groups groups none = groups
requested_security_groups groups (some sks) =
    if not (contains groups sks) then groups ++ sks ∷ [] else groups

-- The labels after the update carry every tag, and keep the instance's value for each other key.
pub lookup-merge_tags :
    (labels tags : Map String) (k : String)
    → DistinctKeys labels
    → DistinctKeys tags
    → ((v : String) → lookup k tags ≡ some v → lookup k (merge_tags labels tags) ≡ some v)
      × (lookup k tags ≡ none → lookup k (merge_tags labels tags) ≡ lookup k labels)
unfolding merge_tags
lookup-merge_tags labels tags k dl dt =
    (λ v h. lookup-insert_all-some k v tags _ dt h, λ h. lookup-insert_all-none k tags _ h ∙ copied)
  where
    copied : lookup k (insert_all labels []) ≡ lookup k labels
    copied = elim (Option-cases (lookup k labels)) [
      | inl e ↦ lookup-insert_all-none k labels [] e ∙ sym e
      | inr (v, e) ↦ lookup-insert_all-some k v labels [] dl e ∙ sym e
    ]

-- If the instance carries a label that no tag sets, its labels after the update still differ from
-- the tags.
pub merge_tags_keeps_extra :
    (labels tags : Map String) (k v : String)
    → DistinctKeys labels
    → DistinctKeys tags
    → lookup k labels ≡ some v
    → lookup k tags ≡ none
    → maps_equal tags (merge_tags labels tags) ≡ false
merge_tags_keeps_extra labels tags k v dl dt has lacks =
    elim (Bool-cases (maps_equal tags (merge_tags labels tags))) [
      | inl same ↦
          let e = (maps_equal_iff tags (merge_tags labels tags)).0 same k in
          let f = (lookup-merge_tags labels tags k dl dt).1 lacks in absurd (ground arith)
      | inr other ↦ other
    ]
