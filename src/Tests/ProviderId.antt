-- ===== src/Tests/ProviderId.antt =====
-- Provider IDs.
use karpenter_provider_exosc.ProviderId.{
  IsUuid, take_hex, take_group, match_all, match_uuid, check_id, parse_provider_id, bad_prefix,
  not_uuid, exoscale_provider_id_prefix, parse_provider_id_iff,
}
use karpenter_provider_exosc.Prelude.{◌≡◌, ◌↔◌, refl, String, ok, err, ◌^^◌}

program : Unit {0}
unfolding take_hex take_group match_all match_uuid check_id parse_provider_id
program = tt

abbrev uuid : String
uuid = "00000000-0000-0000-0000-00000000000a"

upper_case : parse_provider_id "exoscale://00000000-0000-0000-0000-00000000000A" ≡ err not_uuid
unfolding program
upper_case = refl

other_cloud : parse_provider_id "aws://00000000-0000-0000-0000-00000000000a" ≡ err bad_prefix
unfolding program
other_cloud = refl

parse_provider_id_iff_example :
    (parse_provider_id "exoscale://00000000-0000-0000-0000-00000000000a" ≡ ok uuid) ↔ (
      ("exoscale://00000000-0000-0000-0000-00000000000a" ≡ exoscale_provider_id_prefix ^^ uuid)
      × IsUuid uuid)
parse_provider_id_iff_example =
    parse_provider_id_iff "exoscale://00000000-0000-0000-0000-00000000000a" uuid
