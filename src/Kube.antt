-- ===== src/Kube.antt =====
-- The Kubernetes and Karpenter objects that the provider reads and writes, with the fields that it
-- uses: NodeClaim, Node, NodeClass references, and the errors of a Kubernetes client.
use karpenter_provider_exosc.Prelude.{ℕ, Option, String, List, Map, Time}

-- `resource.Quantity` by its value; `corev1.ResourceList`.
abbrev pub ResourceList : Type 0
ResourceList = Map ℕ

pub record NodeClassRef : Type 0 where
  pub group : String
  pub kind : String
  pub name : String

pub record Taint : Type 0 where
  pub key : String
  pub value : String
  pub effect : String

pub record NodeClaim : Type 0 where
  pub name : String
  pub labels : Map String
  pub annotations : Map String
  pub finalizers : List String
  pub creation_timestamp : Time
  pub deletion_timestamp : Option Time
  pub node_class_ref : Option NodeClassRef
  pub taints : List Taint
  pub provider_id : String
  pub image_id : String
  pub node_name : String
  pub capacity : ResourceList
  pub allocatable : ResourceList

-- How a call of the Kubernetes or the Exoscale API can fail.
pub data ApiError : Type 0 where
  not_found already_exists conflict bad_request other : ApiError
