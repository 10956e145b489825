-- ===== src/ManagerExamples.antt =====
-- The theorems on the application manager at states that concrete requests reach.
use orb_private.Prelude.{
  ℕ, ◌≡◌, ◌↔◌, refl, true, false, none, some, [], ◌∷◌, codes, Text, text_eq, starts_with, ◌==◌,
}
use orb_private.Timeout
use orb_private.Ait.{DvbTriplet, zero_app}
use orb_private.Ait.Section.{apply_ait_table}
use orb_private.Ait.Select
use orb_private.Ait.Transport.{scan_slots, extract_base_url, extract_protocol_id, dvb_url, hex}
use orb_private.XmlAit.{
  each, walk, parse_int_from, parse_int, hex_value, parse_hex_from, parse_hex, first_content,
  get_content_int, get_content_hex, get_property,
}
use orb_private.XmlAit.Descriptor.{
  control_of, get_content_control, profile_child, parse_app_desc_profile, app_desc_child,
  parse_app_desc,
}
use orb_private.XmlAit.Application.{
  alloc_child, alloc_application, app_id_child, parse_app_id, protocol_of, fill_transport, oc_child,
  parse_app_transport, application_part, application_child, parse_application,
}
use orb_private.XmlAit.Table.{
  count_application, count_list, count_discovery, count_applications, visit_application, visit_list,
  visit_discovery, parse_applications, new_table, parse_root, children_of, parse_ait,
}
use orb_private.XmlAitExamples.{read_memory, indeterminate}
use orb_private.Url.{merge_url_params}
use orb_private.Url.Locator.{is_invalid_dvb_triplet}
use orb_private.HbbtvApp
use orb_private.HbbtvApp.{
  HbbtvApp, create_from_desc, update, read_names, with_scheme, least_version,
}
use orb_private.ApplicationManager.{
  App, hbbtv_app, base, lookup, Session, ApplicationManager, new_manager, calls_of, erase,
}
use orb_private.ApplicationManager.Running.{
  run_app, run_updated, create_and_run_desc, on_perform_broadcast_autostart,
}
use orb_private.ApplicationManager.Signalling.{
  on_table, on_selected_service_ait_received, refresh_or_autostart, set_schemes, apply_xml_table,
  process_table, process_xml_ait, on_channel_changed, on_broadcast_stopped,
  on_selected_service_ait_timeout,
}
use orb_private.ApplicationManager.Invariant.{IsValid}
use orb_private.ApplicationManager.Reachable.{
  Request, xml_ait, channel_changed, run, Reachable, initial, step, Reachable-IsValid,
  Reachable-one_of_class, Reachable-is_broadcast,
}
use orb_private.ApplicationManager.Outcome.{
  Returns, OffAir, on_broadcast_stopped-OffAir, NoHbbtvApp, ait_timeout-NoHbbtvApp,
}
use orb_private.ApplicationManager.Requests.{for_broadcast_app_only, is_request_allowed}
use orb_private.ApplicationManager.Allowed.{Caller, is_request_allowed_iff}

abbrev session : Session
session = record {
  version = Select.version_204;
  control = record { age = 16; region = codes "GB"; region3 = codes "GBR" };
  is_instance_in_current_service = λ _. true;
  get_xml_ait_contents = λ _. [];
  read_memory = read_memory;
  indeterminate = indeterminate;
  stoul = λ _. none;
  now = 3;
}

abbrev service : DvbTriplet
service = record { original_network_id = 1; transport_stream_id = 2; service_id = 3 }

-- A service is selected, and its AIT comes as a document.
abbrev after : Request → ApplicationManager → ApplicationManager
after r m = elim (run session r m) [ none ↦ m | some (u, m') ↦ m' ]

abbrev selected : ApplicationManager
selected = after (channel_changed service) new_manager

abbrev signalled : ApplicationManager
signalled = after (xml_ait (codes "<xml>") true []) selected

reached : Reachable signalled
unfolding run on_channel_changed Timeout.start Timeout.stop process_xml_ait process_table parse_ait
    children_of new_table parse_root count_applications count_discovery count_list count_application
    parse_applications visit_discovery visit_list visit_application parse_application
    application_child application_part alloc_application alloc_child parse_app_id app_id_child
    parse_app_desc app_desc_child parse_app_desc_profile profile_child get_content_control
    control_of parse_app_transport protocol_of fill_transport oc_child each walk get_content_int
    get_content_hex parse_int parse_int_from parse_hex parse_hex_from hex_value first_content
    get_property scan_slots starts_with set_schemes apply_xml_table on_table
    on_selected_service_ait_received apply_ait_table lookup refresh_or_autostart
    on_perform_broadcast_autostart Select.auto_start_app Select.auto_start_loop Select.is_candidate
    Select.is_supported Select.version_supported Select.is_age_restricted
    Select.has_viable_transport create_and_run_desc create_from_desc extract_base_url update
    read_names extract_protocol_id with_scheme least_version run_updated run_app calls_of erase
    is_invalid_dvb_triplet merge_url_params dvb_url hex text_eq
reached =
    step session (xml_ait (codes "<xml>") true [])
      (step session (channel_changed service) initial refl) refl

-- The application that the document starts, in the slot of its class.
abbrev started : App
started = elim (signalled.apps) [
  | [] ↦ hbbtv_app (record {
    id = 0;
    loaded_url = [];
    entry_url = [];
    base_url = [];
    key_set_mask = 0;
    other_keys = [];
    service = service;
    protocol_id = 0;
    is_activated = false;
    is_trusted = false;
    is_broadcast = false;
    ait_desc = zero_app;
    names = [];
    scheme = [];
    version_minor = 0;
    state = HbbtvApp.foreground;
  })
  | (k, a) ∷ apps ↦ a
]

abbrev one : ℕ
one = 1

abbrev document : Text
document = codes "<xml>"

-- What the two requests compute.
runs :
    (lookup signalled.hbbtv_app_id signalled.apps ≡ some started)
    × (lookup one signalled.apps ≡ some started)
    × (signalled.current_service_received_first_ait ≡ true)
    × (is_invalid_dvb_triplet signalled.current_service ≡ false)
    × (process_xml_ait session document true [] selected ≡ some (one, signalled))
    × (((base started).ait_desc.app_id == 0) ≡ false)
    × (((base started).ait_desc.org_id == 0) ≡ false)
unfolding run on_channel_changed Timeout.start Timeout.stop process_xml_ait process_table parse_ait
    children_of new_table parse_root count_applications count_discovery count_list count_application
    parse_applications visit_discovery visit_list visit_application parse_application
    application_child application_part alloc_application alloc_child parse_app_id app_id_child
    parse_app_desc app_desc_child parse_app_desc_profile profile_child get_content_control
    control_of parse_app_transport protocol_of fill_transport oc_child each walk get_content_int
    get_content_hex parse_int parse_int_from parse_hex parse_hex_from hex_value first_content
    get_property scan_slots starts_with set_schemes apply_xml_table on_table
    on_selected_service_ait_received apply_ait_table lookup refresh_or_autostart
    on_perform_broadcast_autostart Select.auto_start_app Select.auto_start_loop Select.is_candidate
    Select.is_supported Select.version_supported Select.is_age_restricted
    Select.has_viable_transport create_and_run_desc create_from_desc extract_base_url update
    read_names extract_protocol_id with_scheme least_version run_updated run_app calls_of erase
    is_invalid_dvb_triplet merge_url_params dvb_url hex text_eq
runs = (refl, refl, refl, refl, refl, refl, refl)

Reachable-IsValid_example : IsValid signalled
Reachable-IsValid_example = Reachable-IsValid signalled reached

Reachable-one_of_class_example : one ≡ signalled.hbbtv_app_id
Reachable-one_of_class_example =
    Reachable-one_of_class signalled one signalled.hbbtv_app_id started started reached runs.1
      runs.0 refl

Reachable-is_broadcast_example : (base started).is_broadcast ≡ true
Reachable-is_broadcast_example =
    Reachable-is_broadcast signalled started reached runs.2 runs.3 runs.0

on_broadcast_stopped-OffAir_example : Returns OffAir on_broadcast_stopped signalled
on_broadcast_stopped-OffAir_example =
    on_broadcast_stopped-OffAir signalled (Reachable-IsValid signalled reached)

ait_timeout-NoHbbtvApp_example :
    (m1 : ApplicationManager) × (m2 : ApplicationManager) × (on_channel_changed session service
        signalled
      ≡ some (tt, m1))
    × (m1.ait_timeout
        ≡ record { joinable = true; stopped = false; timeout = 5000; start_timestamp = 3 })
    × (on_selected_service_ait_timeout m1 ≡ some (tt, m2))
    × NoHbbtvApp m2
ait_timeout-NoHbbtvApp_example =
    ait_timeout-NoHbbtvApp session service signalled (Reachable-IsValid signalled reached)

is_request_allowed_iff_example :
    (is_request_allowed one document for_broadcast_app_only signalled ≡ true)
    ↔ ((app : App) × Caller one document for_broadcast_app_only signalled app)
is_request_allowed_iff_example =
    is_request_allowed_iff one document for_broadcast_app_only signalled
