-- ===== src/ProviderId/Address.antt =====
-- `ContainsIPv6Address`. `net.ParseIP` and `IP.To4` are parameters.
use karpenter_provider_exosc.Prelude.{
  Bool, true, false, Option, none, some, String, List, [], ◌∷◌, ◌||◌,
}

-- `v1.NodeAddress`
pub data AddressType : Type 0 where
  host_name external_ip internal_ip : AddressType

pub record NodeAddress : Type 0 where
  pub type : AddressType
  pub address : String

-- What `net` makes of a text: `net.ParseIP` gives an address or nil, and `To4` says whether an
-- address has a 4-byte form.
pub record Net : Type 1 where
  pub Ip : Type 0
  pub parse_ip : String → Option Ip
  pub has_to4 : Ip → Bool

module _ (net : Net) where
  open net use {Ip, parse_ip, has_to4}

  unfoldable pub is_ipv6 : String → Bool
  is_ipv6 a = elim (parse_ip a) [
    | none ↦ false
    | some ip ↦ elim (has_to4 ip) [ true ↦ false | false ↦ true ]
  ]

  unfoldable pub contains_ipv6_address : List NodeAddress → Bool
  contains_ipv6_address [] = false
  contains_ipv6_address (addr ∷ addresses) = is_ipv6 addr.address || contains_ipv6_address addresses
