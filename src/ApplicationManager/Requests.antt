-- ===== src/ApplicationManager/Requests.antt =====
-- components/application_manager/application_manager.cpp: what applications and the platform request.
use orb_private.Prelude.{
  ℕ, ◌/◌, ◌%◌, Bool, true, false, not, ◌&&◌, ◌||◌, Option, none, some, List, [], ◌∷◌, Text, codes,
  is_empty, ◌==◌, if◌then◌else◌,
}
use orb_private.Ait.{DvbTriplet, LangString}
use orb_private.Ait.Section.{get}
use orb_private.Ait.Select.{teletext_app}
use orb_private.Url.{compare_urls}
use orb_private.Url.Locator.{
  CreateLocatorInfo, ait_application_locator, entry_page_or_xml_ait_locator, unknown_locator,
  parse_create_locator_info, is_invalid_dvb_triplet,
}
use orb_private.Url.Origin.{check_boundaries}
use orb_private.HbbtvApp
use orb_private.HbbtvApp.{
  HbbtvApp, AppState, foreground, background, Event, get_scheme, linked_app_scheme_1_1,
}
use orb_private.HbbtvApp.Keys.{set_key_set_mask, in_key_set}
use orb_private.OpApp
use orb_private.OpApp.{OpApp}
use orb_private.ApplicationManager.{
  App, hbbtv_app, op_app, base, with_base, is_op_app, Apps, lookup, application_load_error, Session,
  ApplicationManager, invalid_app_id, Action, pure, lift, gets, ◌>>=◌, ◌>>◌, when, or_else, call,
  call_events, put_app,
}
use orb_private.ApplicationManager.Running.{
  kill_running_app, find_in, on_running_app_exited, create_and_run_desc, create_and_run_url,
}
use orb_private.ApplicationManager.Signalling.{process_xml_ait}

-- CreateApplication for a locator of each type.
unfoldable pub create_from_ait : Session → CreateLocatorInfo → Bool → Action ℕ
create_from_ait s info run_as_op_app = do
  ait ← gets (λ m. get m.ait)
  or_else ait (pure invalid_app_id) (λ table. do
    app_description ← find_in table info.org_id info.app_id
    or_else app_description (pure invalid_app_id)
        (λ desc. create_and_run_desc s desc info.parameters true false run_as_op_app))

unfoldable pub create_from_page : Session → Text → Bool → Action ℕ
create_from_page s url run_as_op_app =
    if not (is_empty (s.get_xml_ait_contents url))
    then process_xml_ait s (s.get_xml_ait_contents url) false linked_app_scheme_1_1
    else create_and_run_url url run_as_op_app

unfoldable pub create_from_locator : Session → Text → Bool → CreateLocatorInfo → Action ℕ
create_from_locator s url run_as_op_app info = elim (info.type) [
  | ait_application_locator ↦ create_from_ait s info run_as_op_app
  | entry_page_or_xml_ait_locator ↦ create_from_page s url run_as_op_app
  | unknown_locator ↦ pure invalid_app_id
]

-- ApplicationManager::CreateApplication
unfoldable pub create_application : Session → ℕ → Text → Bool → Action ℕ
create_application s calling_app_id url run_as_op_app = do
  calling ← gets (λ m. lookup calling_app_id m.apps)
  service ← gets (λ m. m.current_service)
  or_else calling (pure invalid_app_id) (λ app.
      if is_empty url
      then (do call application_load_error; pure invalid_app_id)
      else if run_as_op_app && not (is_op_app app)
      then pure invalid_app_id
      else (do
        result ←
            create_from_locator s url run_as_op_app (parse_create_locator_info s.stoul url service)
        when (result == invalid_app_id) (call application_load_error)
        pure result))

-- ApplicationManager::DestroyApplication
unfoldable pub destroy_application : Session → ℕ → Action (Unit {0})
destroy_application s calling_app_id = do
  when (calling_app_id == invalid_app_id)
      (do kill_running_app calling_app_id; on_running_app_exited s)
  app ← gets (λ m. lookup calling_app_id m.apps)
  or_else app (pure tt) (λ _. do kill_running_app calling_app_id; on_running_app_exited s)

-- SetState, which OpApp overrides; the countdown's thread is not the one that calls.
unfoldable pub app_set_state : Session → AppState → ℕ → App → Action (Unit {0})
app_set_state s state id (hbbtv_app a) = do
  let r = HbbtvApp.set_state state a
  put_app id (hbbtv_app r.0)
  call_events r.1
app_set_state s state id (op_app o) = do
  r ← lift (OpApp.set_state false s.now state o)
  put_app id (op_app r.0)
  call_events r.1

-- ApplicationManager::ShowApplication and HideApplication
abbrev pub request_state : Session → AppState → ℕ → Action (Unit {0})
request_state s state calling_app_id = do
  app ← gets (λ m. lookup calling_app_id m.apps)
  or_else app (pure tt) (app_set_state s state calling_app_id)

unfoldable pub show_application : Session → ℕ → Action (Unit {0})
show_application s calling_app_id = request_state s foreground calling_app_id

unfoldable pub hide_application : Session → ℕ → Action (Unit {0})
hide_application s calling_app_id = request_state s background calling_app_id

-- ApplicationManager::SetKeySetMask
unfoldable pub app_set_key_set_mask : ℕ → ℕ → List ℕ → Action ℕ
app_set_key_set_mask id mask other_keys = do
  app ← gets (λ m. lookup id m.apps)
  or_else app (pure 0) (λ a. do
    let r = set_key_set_mask mask other_keys (base a)
    put_app id (with_base r.0 a)
    pure r.1)

-- ApplicationManager::InKeySet
unfoldable pub app_in_key_set : ℕ → ℕ → Action Bool
app_in_key_set id code = do
  app ← gets (λ m. lookup id m.apps)
  or_else app (pure false)
      (λ a. do let r = in_key_set code (base a); put_app id (with_base r.0 a); pure r.1)

-- The queries: ApplicationManager::GetKeySetMask, GetOtherKeyValues, GetApplicationScheme,
-- GetApplicationUrl, GetRunningAppIds and GetOrganizationId. The ids come in some order.
abbrev pub query : {A : Type 0} → A → (HbbtvApp → A) → ℕ → ApplicationManager → A
query otherwise f id m = elim (lookup id m.apps) [ none ↦ otherwise | some a ↦ f (base a) ]

unfoldable pub get_key_set_mask : ℕ → ApplicationManager → ℕ
get_key_set_mask = query 0 (λ a. a.key_set_mask)

unfoldable pub get_other_key_values : ℕ → ApplicationManager → List ℕ
get_other_key_values = query [] (λ a. a.other_keys)

unfoldable pub get_application_scheme : ℕ → ApplicationManager → Text
get_application_scheme = query linked_app_scheme_1_1 get_scheme

unfoldable pub get_application_url : ℕ → ApplicationManager → Text
get_application_url = query [] (λ a. a.loaded_url)

unfoldable pub ids_of : Apps → List ℕ
ids_of [] = []
ids_of ((k, a) ∷ apps) = k ∷ ids_of apps

unfoldable pub get_running_app_ids : ApplicationManager → List ℕ
get_running_app_ids m = ids_of m.apps

-- `-1` as a uint32.
unfoldable pub get_organization_id : ApplicationManager → ℕ
get_organization_id m = query 0xFFFFFFFF (λ a. a.ait_desc.org_id) m.hbbtv_app_id m

-- The three bytes of a language code.
abbrev pub lang_code_text : ℕ → Text
lang_code_text code = (code / 65536 % 256) ∷ (code / 256 % 256) ∷ (code % 256) ∷ []

unfoldable pub names_of : List LangString → List (Text × Text)
names_of [] = []
names_of (n ∷ names) = (lang_code_text n.lang_code, n.name) ∷ names_of names

-- ApplicationManager::GetCurrentAppNames, the entries in the order of their codes' insertion.
unfoldable pub get_current_app_names : ApplicationManager → List (Text × Text)
get_current_app_names m = query [] (λ a. names_of a.names) m.hbbtv_app_id m

-- ApplicationManager::IsTeletextApplicationSignalled; `none` is a fault.
unfoldable pub is_teletext_application_signalled : ApplicationManager → Option Bool
is_teletext_application_signalled m = elim (get m.ait) [
  | none ↦ some false
  | some table ↦ elim (teletext_app (some table)) [
    | none ↦ none
    | some none ↦ some false
    | some (some i) ↦ some true
  ]
]

-- ApplicationManager::RunTeletextApplication; the id becomes a bool.
unfoldable pub run_teletext_application : Session → Action Bool
run_teletext_application s = do
  ait ← gets (λ m. get m.ait)
  or_else ait (pure false) (λ table. do
    app_description ← lift (teletext_app (some table))
    or_else app_description (pure false) (λ desc. do
      id ← create_and_run_desc s desc [] true false false
      pure (not (id == invalid_app_id))))

pub data MethodRequirement : Type 0 where
  for_running_app_only for_broadcast_app_only : MethodRequirement
  for_broadcast_or_transitioning_app_only for_trusted_app_only : MethodRequirement

-- The requirement of a method, of the running application.
unfoldable pub meets : MethodRequirement → Text → DvbTriplet → HbbtvApp → Bool
meets for_running_app_only url service a = true
meets for_broadcast_app_only url service a = a.is_broadcast
meets for_broadcast_or_transitioning_app_only url service a = not (is_invalid_dvb_triplet service)
meets for_trusted_app_only url service a =
    if not (check_boundaries url a.entry_url a.ait_desc.boundaries) then false else a.is_trusted

-- ApplicationManager::IsRequestAllowed
unfoldable pub is_request_allowed : ℕ → Text → MethodRequirement → ApplicationManager → Bool
is_request_allowed calling_app_id url requirement m = elim (lookup m.hbbtv_app_id m.apps) [
  | none ↦ false
  | some app ↦
      if not (m.hbbtv_app_id == calling_app_id)
      then false
      else if is_empty url || compare_urls url (codes "about:blank")
      then false
      else meets requirement url m.current_service (base app)
]
