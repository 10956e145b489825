-- ===== src/HbbtvApp.antt =====
-- components/application_manager/hbbtv_app.h and hbbtv_app.cpp: an application. What it calls on the
-- session callback is a list of events, and the callback's answers are arguments.
pub mod Keys
pub mod KeySet
pub mod Broadcast
pub mod Description
pub mod Update
use orb_private.Prelude.{
  ℕ, zero, suc, ◌+◌, Bool, true, false, not, ◌&&◌, ◌||◌, Option, none, some, List, [], ◌∷◌, ◌++◌,
  Text, codes, is_empty, text_eq, find_char, find, ltb, leb, ◌==◌, if◌then◌else◌, ◌>>=◌, take, drop,
  length,
}
use orb_private.Ait.{
  AitAppDesc, AppProfile, LangString, DvbTriplet, zero_app, ctl_autostart, ctl_present,
  protocol_http,
}
use orb_private.Ait.Select.{ParentalControl, is_age_restricted}
use orb_private.Ait.Transport.{extract_base_url, extract_protocol_id}
use orb_private.Url.{merge_url_params}
use orb_private.Url.Locator.{invalid_dvb_triplet}
use orb_private.Url.Origin.{check_boundaries}

pub data AppState : Type 0 where
  foreground background transient overlaid_foreground overlaid_transient : AppState

pub State-discrete : Discrete AppState
State-discrete = hlevel

abbrev pub same_state : AppState → AppState → Bool
same_state foreground foreground = true
same_state background background = true
same_state transient transient = true
same_state overlaid_foreground overlaid_foreground = true
same_state overlaid_transient overlaid_transient = true
same_state _ _ = false

-- The calls of ApplicationSessionCallback.
pub data Event : Type 0 where
  show_application hide_application : ℕ → Event
  scheme_updated : ℕ → Text → Event
  transitioned_to_broadcast_related : ℕ → Event
  operator_state_change : ℕ → AppState → AppState → Event

abbrev pub linked_app_scheme_1_1 : Text
linked_app_scheme_1_1 = codes "urn:dvb:metadata:cs:LinkedApplicationCS:2019:1.1"

abbrev pub linked_app_scheme_1_2 : Text
linked_app_scheme_1_2 = codes "urn:dvb:metadata:cs:LinkedApplicationCS:2019:1.2"

abbrev pub linked_app_scheme_2 : Text
linked_app_scheme_2 = codes "urn:dvb:metadata:cs:LinkedApplicationCS:2019:2"

pub record HbbtvApp : Type 0 where
  pub id : ℕ
  pub loaded_url : Text
  pub entry_url : Text
  pub base_url : Text
  pub key_set_mask : ℕ  -- uint16
  pub other_keys : List ℕ
  pub service : DvbTriplet
  pub protocol_id : ℕ  -- uint16
  pub is_activated : Bool
  pub is_trusted : Bool
  pub is_broadcast : Bool
  pub ait_desc : AitAppDesc
  pub names : List LangString
  pub scheme : Text
  pub version_minor : ℕ  -- uint8
  pub state : AppState

abbrev pub contains : Text → Text → Bool
contains s t = elim (find t s) [ none ↦ false | some i ↦ true ]

unfoldable pub app_scheme_from_url_params : Text → Text
app_scheme_from_url_params url_params =
    if contains url_params (codes "lloc=service")
    then linked_app_scheme_1_2
    else if contains url_params (codes "lloc=availability")
    then linked_app_scheme_2
    else linked_app_scheme_1_1

unfoldable pub url_params_from_app_scheme : Text → Text
url_params_from_app_scheme scheme =
    if text_eq scheme linked_app_scheme_1_2
    then codes "?lloc=service"
    else if text_eq scheme linked_app_scheme_2
    then codes "?lloc=availability"
    else []

-- HbbTVApp::GetScheme
unfoldable pub get_scheme : HbbtvApp → Text
get_scheme a = if is_empty a.scheme then linked_app_scheme_1_1 else a.scheme

-- HbbTVApp(url, callback); `none` is the exception. The id is the next of `g_id`.
unfoldable pub create_from_url : ℕ → Text → Option HbbtvApp
create_from_url id url =
    if is_empty url
    then none
    else some (record {
      id = id;
      loaded_url = url;
      entry_url = url;
      base_url = url;
      key_set_mask = 0;
      other_keys = [];
      service = invalid_dvb_triplet;
      protocol_id = 0;
      is_activated = true;
      is_trusted = false;
      is_broadcast = false;
      ait_desc = zero_app;
      names = [];
      scheme = app_scheme_from_url_params url;
      version_minor = 0;
      state = foreground;
    })

-- The least minor version of the profiles and of `m_versionMinor`.
unfoldable pub least_of : ℕ → List AppProfile → ℕ
least_of v [] = v
least_of v (p ∷ ps) = least_of (if leb p.version_minor v then p.version_minor else v) ps

-- The loop over the profiles: its counter is a uint8, so with 256 profiles or more it never ends.
unfoldable pub least_version : ℕ → List AppProfile → Option ℕ
least_version v ps = if ltb (length ps) 256 then some (least_of v ps) else none

-- m_names[langCode] = name
unfoldable pub put_name : LangString → List LangString → List LangString
put_name n [] = n ∷ []
put_name n (m ∷ ms) = if m.lang_code == n.lang_code then n ∷ ms else m ∷ put_name n ms

-- The loop over the names; a fault (`none`) past their end.
unfoldable pub read_names : ℕ → List LangString → List LangString → Option (List LangString)
read_names zero ns read = some read
read_names (suc n) [] read = none
read_names (suc n) (m ∷ ms) read = read_names n ms (put_name m read)

-- What Update does with the scheme, for a scheme that is not empty.
unfoldable pub update_scheme : AitAppDesc → HbbtvApp → HbbtvApp
update_scheme desc a = elim (find_char b'?' desc.scheme) [
  | none ↦
      let a' = record a { scheme = desc.scheme } in
      record a' {
        loaded_url = merge_url_params [] a.loaded_url (url_params_from_app_scheme (get_scheme a'));
      }
  | some index ↦ record a {
    scheme = take index desc.scheme;
    loaded_url = merge_url_params [] a.entry_url (drop index desc.scheme);
  }
]

-- The result of Update: the exception, or the application with the events.
pub data Updated : Type 0 where
  not_allowed : Updated
  updated : HbbtvApp → List Event → Updated

unfoldable pub with_scheme : AitAppDesc → HbbtvApp → HbbtvApp
with_scheme desc a = if is_empty desc.scheme then record a { scheme = [] } else update_scheme desc a

-- HbbTVApp::Update, the parental control test first; `none` is a fault.
unfoldable pub update : ParentalControl → AitAppDesc → Bool → HbbtvApp → Option Updated
update control desc is_network_available a =
    if is_age_restricted desc.parental_ratings control then some not_allowed else (do
      protocol_id ← extract_protocol_id desc is_network_available
      version_minor ← least_version a.version_minor desc.app_desc.app_profiles
      names ← read_names desc.app_name.num_langs desc.app_name.names []
      let a' = with_scheme desc (record a {
        protocol_id = protocol_id;
        ait_desc = desc;
        version_minor = version_minor;
        names = names;
        is_activated = not (desc.control_code == ctl_autostart);
      })
      some (updated a' (scheme_updated a'.id a'.scheme ∷ [])))

-- HbbTVApp(desc, ...); the minor version starts at INT8_MAX.
unfoldable pub create_from_desc :
    ℕ → ParentalControl → AitAppDesc → DvbTriplet → Bool → Text → Bool → Bool → Option Updated
create_from_desc id control desc current_service is_network_available url_params is_broadcast
      is_trusted =
    do
      base_url ← extract_base_url desc current_service is_network_available
      let entry_url = merge_url_params base_url desc.location url_params
      update control desc is_network_available (record {
        id = id;
        loaded_url = entry_url;
        entry_url = entry_url;
        base_url = base_url;
        key_set_mask = 0;
        other_keys = [];
        service = current_service;
        protocol_id = 0;
        is_activated = true;
        is_trusted = is_trusted;
        is_broadcast = is_broadcast;
        ait_desc = zero_app;
        names = [];
        scheme = [];
        version_minor = 127;
        state = if is_broadcast then background else foreground;
      })

-- HbbTVApp::TransitionToBroadcastRelated
unfoldable pub transition_to_broadcast_related : HbbtvApp → HbbtvApp × List Event × Bool
transition_to_broadcast_related a =
    if (a.ait_desc.control_code == ctl_autostart || a.ait_desc.control_code == ctl_present)
      && a.protocol_id == protocol_http
      && check_boundaries a.entry_url a.base_url a.ait_desc.boundaries
      && check_boundaries a.loaded_url a.base_url a.ait_desc.boundaries
    then (record a { is_broadcast = true }, transitioned_to_broadcast_related a.id ∷ [], true)
    else (a, [], false)

-- HbbTVApp::TransitionToBroadcastIndependent
unfoldable pub transition_to_broadcast_independent : HbbtvApp → HbbtvApp × Bool
transition_to_broadcast_independent a = (record a { is_broadcast = false }, true)

-- HbbTVApp::SetState
unfoldable pub set_state : AppState → HbbtvApp → HbbtvApp × List Event × Bool
set_state background a =
    if same_state background a.state
    then (a, [], true)
    else (record a { state = background }, hide_application a.id ∷ [], true)
set_state foreground a =
    if same_state foreground a.state
    then (a, [], true)
    else (record a { state = foreground }, show_application a.id ∷ [], true)
set_state s a = (a, [], false)
