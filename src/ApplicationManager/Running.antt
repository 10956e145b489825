-- ===== src/ApplicationManager/Running.antt =====
-- components/application_manager/application_manager.cpp: starting, updating and killing applications.
use orb_private.Prelude.{
  ℕ, ◌+◌, Bool, true, false, not, ◌&&◌, ◌||◌, Option, none, some, [], Text, codes, text_eq, ◌==◌,
  if◌then◌else◌, get_elem?,
}
use orb_private.Ait.{AitTable, AitAppDesc}
use orb_private.Ait.Section.{get}
use orb_private.Ait.Select.{auto_start_app, find_app}
use orb_private.Url.Locator.{invalid_dvb_triplet, is_invalid_dvb_triplet}
use orb_private.HbbtvApp
use orb_private.HbbtvApp.{
  HbbtvApp, AppState, background, same_state, create_from_url, create_from_desc, Updated,
  not_allowed, updated, update,
}
use orb_private.OpApp
use orb_private.OpApp.{OpApp, Created, refused, created, create_opapp, create_opapp_from_desc}
use orb_private.ApplicationManager.{
  App, hbbtv_app, op_app, base, with_base, is_op_app, erase, lookup, load_application,
  show_application, hide_application, stop_broadcast, Session, ApplicationManager, invalid_app_id,
  Action, pure, lift, gets, modify, ◌>>=◌, ◌>>◌, when, or_else, call, call_events, has_app, app_at,
  put_app, hbbtv_id,
}

-- The slot of the manager that an application is started in.
abbrev pub slot : Bool → ApplicationManager → ℕ
slot true m = m.op_app_id
slot false m = m.hbbtv_app_id

abbrev pub set_slot : Bool → ℕ → ApplicationManager → ApplicationManager
set_slot true id m = record m { op_app_id = id }
set_slot false id m = record m { hbbtv_app_id = id }

-- ApplicationManager::RunApp
unfoldable pub run_app : App → Action ℕ
run_app app = do
  let a = base app
  modify (λ m. record m { apps = erase (slot (is_op_app app) m) m.apps })
  service ← gets (λ m. m.current_service)
  when (not a.is_broadcast && not (is_invalid_dvb_triplet service)) (do
    call stop_broadcast
    modify (λ m. record m {
      previous_service = invalid_dvb_triplet;
      current_service = invalid_dvb_triplet;
    }))
  call (load_application a.id a.entry_url a.ait_desc.graphics_constraints)
  modify (set_slot (is_op_app app) a.id)
  put_app a.id app
  call
      (if not (same_state a.state background) then show_application a.id else hide_application a.id)
  pure a.id

-- The next id, `++g_id`.
abbrev pub next_id : Action ℕ
next_id = do modify (λ m. record m { last_id = m.last_id + 1 }); gets (λ m. m.last_id)

-- ApplicationManager::CreateAndRunApp(url, runAsOpApp); the exception of a constructor is caught.
unfoldable pub create_and_run_url : Text → Bool → Action ℕ
create_and_run_url url run_as_op_app = do
  id ← next_id
  if run_as_op_app
      then or_else (create_opapp id url) (pure invalid_app_id) (λ o. run_app (op_app o))
      else or_else (create_from_url id url) (pure invalid_app_id) (λ a. run_app (hbbtv_app a))

abbrev pub opapp_privileged : Text
opapp_privileged = codes "urn:hbbtv:opapp:privileged:2017"

abbrev pub opapp_opspecific : Text
opapp_opspecific = codes "urn:hbbtv:opapp:opspecific:2017"

-- An application that a constructor has made, or its exception.
unfoldable pub run_created : Created → Action ℕ
run_created refused = pure invalid_app_id
run_created (created o es) = do call_events es; run_app (op_app o)

unfoldable pub run_updated : Updated → Action ℕ
run_updated not_allowed = pure invalid_app_id
run_updated (updated a es) = do call_events es; run_app (hbbtv_app a)

-- ApplicationManager::CreateAndRunApp(desc, urlParams, isBroadcast, isTrusted, runAsOpApp)
unfoldable pub create_and_run_desc : Session → AitAppDesc → Text → Bool → Bool → Bool → Action ℕ
create_and_run_desc s desc url_params is_broadcast is_trusted run_as_op_app = do
  id ← next_id
  network ← gets (λ m. m.is_network_available)
  service ← gets (λ m. m.current_service)
  if run_as_op_app
        || text_eq desc.app_usage opapp_privileged
        || text_eq desc.app_usage opapp_opspecific
      then (do made ← lift (create_opapp_from_desc id s.control desc network); run_created made)
      else (do
        made ←
            lift (
              create_from_desc id s.control desc service network url_params is_broadcast is_trusted)
        run_updated made)

-- ApplicationManager::GetAutoStartApp
abbrev pub get_auto_start_app : Session → AitTable → Action (Option AitAppDesc)
get_auto_start_app s table = lift (auto_start_app s.version (some table) s.control)

-- ApplicationManager::OnPerformBroadcastAutostart
unfoldable pub on_perform_broadcast_autostart : Session → Action (Unit {0})
on_perform_broadcast_autostart s = do
  ait ← gets (λ m. get m.ait)
  received ← gets (λ m. m.current_service_received_first_ait)
  or_else ait (pure tt) (λ table. when received (do
    app_desc ← get_auto_start_app s table
    or_else app_desc (pure tt)
        (λ desc. do id ← create_and_run_desc s desc [] true false false; pure tt)))

-- ApplicationManager::OnRunningAppExited
unfoldable pub on_running_app_exited : Session → Action (Unit {0})
on_running_app_exited s = do
  service ← gets (λ m. m.current_service)
  when (not (is_invalid_dvb_triplet service)) (on_perform_broadcast_autostart s)

-- ApplicationManager::KillRunningApp
unfoldable pub kill_running_app : ℕ → Action (Unit {0})
kill_running_app id = do
  hbbtv ← hbbtv_id
  op ← gets (λ m. m.op_app_id)
  running ← has_app id
  when ((hbbtv == id || op == id) && running) (do
    modify (λ m. record m { apps = erase id m.apps })
    call (hide_application id)
    call (load_application invalid_app_id (codes "about:blank") [])
    modify (set_slot (not (id == hbbtv)) invalid_app_id))

-- The outcome of an update, for the application with an id.
unfoldable pub put_updated : ℕ → App → Updated → Action Bool
put_updated id app not_allowed = pure false
put_updated id app (updated a es) = do put_app id (with_base a app); call_events es; pure true

-- ApplicationManager::UpdateRunningApp
unfoldable pub update_running_app : Session → AitAppDesc → Action Bool
update_running_app s desc = do
  id ← hbbtv_id
  app ← app_at id
  network ← gets (λ m. m.is_network_available)
  result ← lift (update s.control desc network (base app))
  put_updated id app result

-- Ait::FindApp in a table: the application that it finds.
abbrev pub element : AitTable → Option ℕ → Option AitAppDesc
element table none = none
element table (some i) = get_elem? table.app_array i

abbrev pub find_in : AitTable → ℕ → ℕ → Action (Option AitAppDesc)
find_in table org_id app_id = do
  at ← lift (find_app (some table) org_id app_id)
  pure (element table at)

-- HbbTVApp::TransitionToBroadcastRelated, which OpApp overrides.
unfoldable pub app_to_broadcast_related : ℕ → App → Action Bool
app_to_broadcast_related id (hbbtv_app a) = do
  let r = HbbtvApp.transition_to_broadcast_related a
  put_app id (hbbtv_app r.0)
  call_events r.1
  pure r.2
app_to_broadcast_related id (op_app o) = do
  let r = OpApp.transition_to_broadcast_related o
  put_app id (op_app r.0)
  call_events r.1
  pure r.2

-- ApplicationManager::TransitionRunningAppToBroadcastRelated
unfoldable pub transition_running_app_to_broadcast_related : Session → Action Bool
transition_running_app_to_broadcast_related s = do
  ait ← gets (λ m. get m.ait)
  id ← hbbtv_id
  app ← gets (λ m. lookup id m.apps)
  or_else ait (pure false) (λ table. or_else app (pure false) (λ a. do
    let desc = (base a).ait_desc
    if desc.app_id == 0 || desc.org_id == 0 then pure false else (do
      signalled ← find_in table desc.org_id desc.app_id
      or_else signalled (pure false) (λ new_desc. do
        is_updated ← update_running_app s new_desc
        if is_updated
            then (do current ← app_at id; app_to_broadcast_related id current)
            else pure false))))

-- ApplicationManager::TransitionRunningAppToBroadcastIndependent
unfoldable pub transition_running_app_to_broadcast_independent : Action Bool
transition_running_app_to_broadcast_independent = do
  id ← hbbtv_id
  app ← gets (λ m. lookup id m.apps)
  or_else app (pure true) (λ a. do
    let r = HbbtvApp.transition_to_broadcast_independent (base a)
    put_app id (with_base r.0 a)
    pure r.1)
