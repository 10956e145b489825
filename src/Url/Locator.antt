-- ===== src/Url/Locator.antt =====
-- components/application_manager/utils.cpp: the locator that an application is created from.
-- `stoul` is std::stoul with base 16, with `none` for its exceptions.
pub mod Current
use orb_private.Prelude.{
  ℕ, ◌+◌, ◌-◌, ◌%◌, ◌^◌, Bool, true, false, not, ◌&&◌, ◌||◌, Option, none, some, List, [], ◌∷◌,
  Text, codes, is_empty, text_eq, find_char, find, starts_with, substr, take, drop, ◌==◌,
  if◌then◌else◌,
}
use orb_private.Ait.{DvbTriplet}

-- Utils::MakeInvalidDvbTriplet and IsInvalidDvbTriplet
abbrev pub invalid_id : ℕ
invalid_id = 0xFFFF

abbrev pub invalid_dvb_triplet : DvbTriplet
invalid_dvb_triplet = record {
  original_network_id = invalid_id;
  transport_stream_id = invalid_id;
  service_id = invalid_id;
}

unfoldable pub is_invalid_dvb_triplet : DvbTriplet → Bool
is_invalid_dvb_triplet t =
    t.original_network_id == invalid_id
    || t.transport_stream_id == invalid_id
    || t.service_id == invalid_id

pub data CreateLocatorType : Type 0 where
  ait_application_locator entry_page_or_xml_ait_locator unknown_locator : CreateLocatorType

pub record CreateLocatorInfo : Type 0 where
  pub type : CreateLocatorType
  pub org_id : ℕ  -- uint32
  pub app_id : ℕ  -- uint16
  pub parameters : Text

-- The string's position found, or its end.
abbrev pub behind : ℕ → Text → Option ℕ → Option ℕ
behind pos s none = none
behind pos s (some i) = some (pos + i)

-- s.find(c, pos)
abbrev pub find_char_from : ℕ → ℕ → Text → Option ℕ
find_char_from c pos s = behind pos s (find_char c (drop pos s))

-- A number that is equal to an id; `none` is not.
abbrev pub is_id : Option ℕ → ℕ → Bool
is_id none id = false
is_id (some n) id = n == id

-- Where the query or the fragment starts.
abbrev pub query_or_fragment : Option ℕ → Text → Option ℕ
query_or_fragment none url_parameters = find_char b'#' url_parameters
query_or_fragment (some pos) url_parameters = some pos

abbrev pub params_start : Text → Option ℕ
params_start url_parameters = query_or_fragment (find_char b'?' url_parameters) url_parameters

abbrev pub take_to : Option ℕ → Text → Text
take_to none s = s
take_to (some pos) s = take pos s

abbrev pub drop_to : Option ℕ → Text → Text
drop_to none s = []
drop_to (some pos) s = drop pos s

-- What ParseCreateLocatorInfo returns for two ids, where both can be read.
abbrev pub no_ids : Text → CreateLocatorInfo
no_ids parameters = record {
  type = unknown_locator;
  org_id = 0;
  app_id = 0;
  parameters = parameters;
}

abbrev pub with_ids : Option ℕ → Option ℕ → Text → CreateLocatorInfo
with_ids none app_id parameters = no_ids parameters
with_ids (some org_id) none parameters = no_ids parameters
with_ids (some org_id) (some app_id) parameters = record {
  type = ait_application_locator;
  org_id = org_id % 2 ^ 32;
  app_id = app_id % 2 ^ 16;
  parameters = parameters;
}

module _ (stoul : Text → Option ℕ) where
  -- original_network_id "." [ transport_stream_id ] "." service_id, against the current service.
  unfoldable pub is_service : Text → DvbTriplet → Bool
  is_service sub current_service = elim (find_char b'.' sub) [
    | none ↦ false
    | some pos ↦ elim (find_char_from b'.' (pos + 1) sub) [
      | none ↦ false
      | some pos2 ↦
          let transport_stream_id = substr (pos + 1) (pos2 - (pos + 1)) sub in
          is_id (stoul (take pos sub)) current_service.original_network_id
          && (is_empty transport_stream_id
              || is_id (stoul transport_stream_id) current_service.transport_stream_id)
          && is_id (stoul (drop (pos2 + 1) sub)) current_service.service_id
    ]
  ]

  -- Is the text between dvb:// and .ait/ the current service?
  unfoldable pub is_ait_filter_current_service : Text → DvbTriplet → Bool
  is_ait_filter_current_service sub current_service =
      if text_eq sub (codes "current")
      then true
      else if not (is_invalid_dvb_triplet current_service)
      then is_service sub current_service
      else false

  -- org_id "." app_id
  abbrev pub ids_at : Option ℕ → Text → Text → CreateLocatorInfo
  ids_at none ids parameters = no_ids parameters
  ids_at (some pos) ids parameters =
      with_ids (stoul (take pos ids)) (stoul (drop (pos + 1) ids)) parameters

  abbrev pub parse_ids : Text → Text → CreateLocatorInfo
  parse_ids ids parameters = ids_at (find_char b'.' ids) ids parameters

  unfoldable pub parse_dvb_locator : Text → DvbTriplet → CreateLocatorInfo
  parse_dvb_locator url current_service = elim (find (codes ".ait/") url) [
    | none ↦ no_ids url
    | some pos ↦
        let url_parameters = drop (pos + 5) url in
        if is_ait_filter_current_service (substr 6 (pos - 6) url) current_service
        then (let start = params_start url_parameters in
            parse_ids (take_to start url_parameters) (drop_to start url_parameters))
        else no_ids url
  ]

  -- Utils::ParseCreateLocatorInfo
  unfoldable pub parse_create_locator_info : Text → DvbTriplet → CreateLocatorInfo
  parse_create_locator_info url current_service =
      if starts_with url (codes "dvb://")
      then parse_dvb_locator url current_service
      else if starts_with url (codes "http://") || starts_with url (codes "https://")
      then record { type = entry_page_or_xml_ait_locator; org_id = 0; app_id = 0; parameters = url }
      else no_ids url
