-- ===== src/ProviderId/Parse.antt =====
-- `ParseProviderID`.
use karpenter_provider_exosc.Prelude.{
  ◌≡◌, ◌≢◌, refl, ◌↔◌, true, false, Option, none, some, String, arith, Result, ok, err, ◌^^◌,
  if◌then◌else◌, ◌==◌, eq_iff, cut_prefix, cut_prefix-append, cut_prefix-inv, cut_prefix_iff,
  cut_prefix-none, iff_trans, not,
}
use karpenter_provider_exosc.ProviderId.Uuid.{match_uuid, match_uuid_iff, IsUuid, not-IsUuid-empty}

-- The three formatted errors.
pub data ParseError : Type 0 where
  bad_prefix missing_id not_uuid : ParseError

abbrev pub exoscale_provider_id_prefix : String
exoscale_provider_id_prefix = "exoscale://"

unfoldable pub check_id : Option String → Result ParseError String
check_id none = err bad_prefix
check_id (some id) =
    if id == "" then err missing_id else if not (match_uuid id) then err not_uuid else ok id

unfoldable pub parse_provider_id : String → Result ParseError String
unfolding check_id
parse_provider_id s = check_id (cut_prefix s exoscale_provider_id_prefix)

check_id-ok :
    (m : Option String) (id : String)
    → (check_id m ≡ ok id) ↔ ((m ≡ some id) × (id ≢ "") × (match_uuid id ≡ true))
unfolding check_id
check_id-ok none id = ground arith
check_id-ok (some r) id = ground (arith, eq_iff r "")

-- A provider ID parses to `id` exactly when it is the prefix followed by `id` and `id` is a UUID.
pub parse_provider_id_iff :
    (s id : String)
    → (parse_provider_id s ≡ ok id) ↔ ((s ≡ exoscale_provider_id_prefix ^^ id) × IsUuid id)
unfolding parse_provider_id
parse_provider_id_iff s id = (parsed, unparsed)
  where
    parsed :
        check_id (cut_prefix s exoscale_provider_id_prefix) ≡ ok id
        → (s ≡ exoscale_provider_id_prefix ^^ id) × IsUuid id
    parsed h =
        let (cut, _, uuid) = (check_id-ok (cut_prefix s exoscale_provider_id_prefix) id).0 h in
        (cut_prefix-inv s exoscale_provider_id_prefix id cut, (match_uuid_iff id).0 uuid)

    unparsed :
        (s ≡ exoscale_provider_id_prefix ^^ id) × IsUuid id
        → check_id (cut_prefix s exoscale_provider_id_prefix) ≡ ok id
    unparsed (is, uuid) = (check_id-ok (cut_prefix s exoscale_provider_id_prefix) id).1 (
      rw is (cut_prefix-append exoscale_provider_id_prefix id),
      λ empty. not-IsUuid-empty (rw empty at uuid),
      (match_uuid_iff id).1 uuid,
    )

check_id-err :
    (m : Option String)
    → ((check_id m ≡ err bad_prefix) ↔ (m ≡ none))
      × ((check_id m ≡ err missing_id) ↔ (m ≡ some ""))
      × ((check_id m ≡ err not_uuid) → (r : String) × (m ≡ some r) × (match_uuid r ≡ false))
unfolding check_id
check_id-err none = ground arith
check_id-err (some r) =
    (ground (arith, eq_iff r ""), ground (arith, eq_iff r ""), λ h. (r, refl, ground arith))

-- The three errors tell apart the ways to be no provider ID: `bad_prefix` is returned exactly where
-- no text follows the prefix, `missing_id` exactly for the bare prefix, and `not_uuid` only where
-- the prefix is followed by a text that is no UUID.
pub parse_provider_id-err :
    (s : String)
    → ((parse_provider_id s ≡ err bad_prefix)
        ↔ ((r : String) → s ≢ exoscale_provider_id_prefix ^^ r))
      × ((parse_provider_id s ≡ err missing_id) ↔ (s ≡ exoscale_provider_id_prefix))
      × ((parse_provider_id s ≡ err not_uuid)
          → (r : String) × (s ≡ exoscale_provider_id_prefix ^^ r) × (¬ IsUuid r))
unfolding parse_provider_id
parse_provider_id-err s = (
  iff_trans on_cut.0 (cut_prefix-none s exoscale_provider_id_prefix),
  iff_trans on_cut.1 (cut_prefix_iff s exoscale_provider_id_prefix ""),
  λ h.
      let (r, cut, no_match) = on_cut.2 h in
      (
        r,
        cut_prefix-inv s exoscale_provider_id_prefix r cut,
        λ uuid. absurd (ground (arith, (match_uuid_iff r).1 uuid)),
      ),
)
  where
    on_cut :
        ((check_id (cut_prefix s exoscale_provider_id_prefix) ≡ err bad_prefix)
          ↔ (cut_prefix s exoscale_provider_id_prefix ≡ none))
        × ((check_id (cut_prefix s exoscale_provider_id_prefix) ≡ err missing_id)
            ↔ (cut_prefix s exoscale_provider_id_prefix ≡ some ""))
        × ((check_id (cut_prefix s exoscale_provider_id_prefix) ≡ err not_uuid)
            → (r : String) × (cut_prefix s exoscale_provider_id_prefix ≡ some r)
              × (match_uuid r ≡ false))
    on_cut = check_id-err (cut_prefix s exoscale_provider_id_prefix)
