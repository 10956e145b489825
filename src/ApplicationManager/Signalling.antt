-- ===== src/ApplicationManager/Signalling.antt =====
-- components/application_manager/application_manager.cpp: what the manager does when an AIT, a channel
-- or the network changes, and when a page has changed or failed to load.
use orb_private.XmlAit.Table.{parse_ait}
use orb_private.Prelude.{
  ℕ, Bool, true, false, not, ◌&&◌, Option, none, some, List, [], ◌∷◌, Text, codes, find, is_empty,
  ◌==◌, if◌then◌else◌, get_elem?, set, Pointer,
}
use orb_private.Timeout
use orb_private.Ait.{Ait, AitTable, AitAppDesc, DvbTriplet}
use orb_private.Ait.Section.{get, clear, apply_ait_table, process_section}
use orb_private.Ait.Select.{find_app}
use orb_private.Ait.Transport.{app_has_transport, app_set_transport_failed_to_load}
use orb_private.Url.Locator.{invalid_dvb_triplet, is_invalid_dvb_triplet}
use orb_private.HbbtvApp.{HbbtvApp}
use orb_private.ApplicationManager.{
  App, base, with_base, lookup, reset_broadcast_presentation, Session, invalid_app_id, Action, pure,
  fault, lift, gets, modify, ◌>>=◌, ◌>>◌, when, or_else, call, put_app, hbbtv_id,
}
use orb_private.ApplicationManager.Running.{
  kill_running_app, update_running_app, find_in, on_perform_broadcast_autostart, get_auto_start_app,
  create_and_run_desc, transition_running_app_to_broadcast_related,
  transition_running_app_to_broadcast_independent,
}

-- APP_CTL_KILL
abbrev pub ctl_kill : ℕ
ctl_kill = 4

abbrev pub running_app : Action (Option App)
running_app = gets (λ m. lookup m.hbbtv_app_id m.apps)

abbrev pub kill_hbbtv_app : Action (Unit {0})
kill_hbbtv_app = do id ← hbbtv_id; kill_running_app id

-- if (!UpdateRunningApp(*signalled)) KillRunningApp(m_hbbtvAppId)
unfoldable pub update_or_kill : Session → AitAppDesc → Action (Unit {0})
update_or_kill s signalled = do
  is_updated ← update_running_app s signalled
  when (not is_updated) kill_hbbtv_app

-- A broadcast-related application when the first AIT of a service is received.
unfoldable pub continue_received : Session → AitTable → HbbtvApp → Action (Unit {0})
continue_received s table a = do
  previous ← gets (λ m. m.previous_service)
  if a.ait_desc.app_desc.service_bound && not (s.is_instance_in_current_service previous)
      then kill_hbbtv_app
      else (do
        signalled ← find_in table a.ait_desc.org_id a.ait_desc.app_id
        or_else signalled kill_hbbtv_app (λ desc.
            if desc.control_code == ctl_kill then kill_hbbtv_app else (do
              has_transport ← lift (app_has_transport desc a.protocol_id)
              if has_transport then update_or_kill s desc else kill_hbbtv_app)))

-- A broadcast-independent one.
unfoldable pub enter_broadcast : Session → Action (Unit {0})
enter_broadcast s = do
  is_related ← transition_running_app_to_broadcast_related s
  when (not is_related) kill_hbbtv_app

-- The running application that is left is updated; without one, the autostart application is started.
unfoldable pub refresh_or_autostart : Session → AitTable → Action (Unit {0})
refresh_or_autostart s table = do
  app ← running_app
  or_else app (on_perform_broadcast_autostart s) (λ a. do
    signalled ← find_in table (base a).ait_desc.org_id (base a).ait_desc.app_id
    or_else signalled (pure tt) (update_or_kill s))

unfoldable pub receive_for : Session → AitTable → App → Action (Unit {0})
receive_for s table a =
    if (base a).is_broadcast then continue_received s table (base a) else enter_broadcast s

-- ApplicationManager::OnSelectedServiceAitReceived
unfoldable pub on_selected_service_ait_received : Session → Action (Unit {0})
on_selected_service_ait_received s = do
  ait ← gets (λ m. get m.ait)
  or_else ait (pure tt) (λ table. do
    app ← running_app
    or_else app (pure tt) (receive_for s table)
    refresh_or_autostart s table)

-- ApplicationManager::OnSelectedServiceAitTimeout
unfoldable pub on_selected_service_ait_timeout : Action (Unit {0})
on_selected_service_ait_timeout = kill_hbbtv_app

-- A broadcast-related application when the AIT is updated.
unfoldable pub continue_updated : Session → AitTable → HbbtvApp → Action (Unit {0})
continue_updated s table a = do
  signalled ← find_in table a.ait_desc.org_id a.ait_desc.app_id
  or_else signalled kill_hbbtv_app (λ desc. do
    has_transport ← lift (app_has_transport desc a.protocol_id)
    if not has_transport
        then kill_hbbtv_app
        else if desc.control_code == ctl_kill
        then kill_hbbtv_app
        else update_or_kill s desc)

-- if (m_apps.count(m_hbbtvAppId) == 0) OnPerformBroadcastAutostart()
unfoldable pub autostart_if_none : Session → Action (Unit {0})
autostart_if_none s = do
  app ← running_app
  or_else app (on_perform_broadcast_autostart s) (λ _. pure tt)

-- ApplicationManager::OnSelectedServiceAitUpdated
unfoldable pub on_selected_service_ait_updated : Session → Action (Unit {0})
on_selected_service_ait_updated s = do
  ait ← gets (λ m. get m.ait)
  or_else ait (pure tt) (λ table. do
    app ← running_app
    or_else app (autostart_if_none s) (λ a.
        if (base a).is_broadcast
        then (do continue_updated s table (base a); autostart_if_none s)
        else pure tt))

abbrev pub set_ait : Ait → Action (Unit {0})
set_ait ait = modify (λ m. record m { ait = ait })

-- A completed table is the first one of its service, or an update.
unfoldable pub on_table : Session → Action (Unit {0})
on_table s = do
  received ← gets (λ m. m.current_service_received_first_ait)
  if not received
      then (do
        timeout ← gets (λ m. m.ait_timeout)
        stopped ← lift (Timeout.stop false timeout)
        modify (λ m. record m { ait_timeout = stopped; current_service_received_first_ait = true })
        on_selected_service_ait_received s)
      else on_selected_service_ait_updated s

unfoldable pub set_ait_pid : ℕ → Action (Unit {0})
set_ait_pid ait_pid = do
  old ← gets (λ m. m.current_service_ait_pid)
  when (not (ait_pid == old)) (do
    when (not (old == 0)) (modify (λ m. record m { ait = clear m.ait }))
    modify (λ m. record m { current_service_ait_pid = ait_pid }))

-- ApplicationManager::ProcessAitSection
unfoldable pub process_ait_section : Session → ℕ → ℕ → Pointer → Action (Unit {0})
process_ait_section s ait_pid service_id section = do
  service ← gets (λ m. m.current_service)
  when (service_id == service.service_id) (do
    set_ait_pid ait_pid
    old ← gets (λ m. m.ait)
    result ← lift (process_section old section)
    set_ait result.0
    when result.1 (or_else (get result.0) (pure tt) (λ _. on_table s)))

-- The loop that gives every application of a table the scheme.
unfoldable pub set_schemes : ℕ → Text → List AitAppDesc → Option (List AitAppDesc)
set_schemes ℕ.zero scheme apps = some apps
set_schemes (ℕ.suc n) scheme [] = none
set_schemes (ℕ.suc n) scheme (app ∷ apps) = elim (set_schemes n scheme apps) [
  | none ↦ none
  | some rest ↦ some (record app { scheme = scheme } ∷ rest)
]

-- An id stored in a bool, and read as an int.
abbrev pub as_bool : ℕ → ℕ
as_bool id = if id == 0 then 0 else 1

unfoldable pub apply_xml_table : Session → AitTable → Bool → Action ℕ
apply_xml_table s table is_dvbi =
    if is_dvbi
    then (do
      modify (λ m. record m {
        ait = apply_ait_table table (clear m.ait);
        current_service_ait_pid = 0xFFFF;
      })
      on_table s
      id ← hbbtv_id
      pure (as_bool id))
    else (do
      app_desc ← get_auto_start_app s table
      or_else app_desc (pure 0)
          (λ desc. do id ← create_and_run_desc s desc [] is_dvbi false false; pure (as_bool id)))

-- ApplicationManager::ProcessXmlAit, from the table that has been parsed.
unfoldable pub process_table : Session → Bool → Text → AitTable → Action ℕ
process_table s is_dvbi scheme table = if table.num_apps == 0 then pure invalid_app_id else (do
  apps ← lift (set_schemes table.num_apps scheme table.app_array)
  apply_xml_table s (record table { app_array = apps }) is_dvbi)

-- ApplicationManager::ProcessXmlAit
unfoldable pub process_xml_ait : Session → Text → Bool → Text → Action ℕ
process_xml_ait s xml_ait is_dvbi scheme = if is_empty xml_ait then pure invalid_app_id else (do
  parsed ← lift (parse_ait s.indeterminate s.read_memory xml_ait)
  or_else parsed (pure invalid_app_id) (process_table s is_dvbi scheme))

-- ApplicationManager::OnBroadcastStopped
unfoldable pub on_broadcast_stopped : Action (Unit {0})
on_broadcast_stopped = do
  modify (λ m. record m {
    current_service_received_first_ait = false;
    current_service_ait_pid = 0;
    ait = clear m.ait;
    previous_service = invalid_dvb_triplet;
    current_service = invalid_dvb_triplet;
  })
  is_independent ← transition_running_app_to_broadcast_independent
  when (not is_independent) kill_hbbtv_app

-- Utils::AIT_TIMEOUT
abbrev pub ait_timeout_ms : ℕ
ait_timeout_ms = 5000

-- ApplicationManager::OnChannelChanged
unfoldable pub on_channel_changed : Session → DvbTriplet → Action (Unit {0})
on_channel_changed s service = do
  timeout ← gets (λ m. m.ait_timeout)
  started ← lift (Timeout.start false s.now ait_timeout_ms timeout)
  modify (λ m. record m {
    current_service_received_first_ait = false;
    current_service_ait_pid = 0;
    ait = clear m.ait;
    ait_timeout = started;
    previous_service = m.current_service;
    current_service = service;
  })

-- ApplicationManager::OnNetworkAvailabilityChanged
unfoldable pub on_network_availability_changed : Bool → Action (Unit {0})
on_network_availability_changed available =
    modify (λ m. record m { is_network_available = available })

-- What a write into an application of the completed table does to the two tables.
unfoldable pub put_table : AitTable → Ait → Ait
put_table table ait = record ait {
  ait_completed = some table;
  ait = if ait.is_shared then some table else ait.ait;
}

-- AppSetTransportFailedToLoad(FindApp(...), ...): it faults on a null pointer.
unfoldable pub set_failed_in : AitTable → HbbtvApp → Action (Unit {0})
set_failed_in table a = do
  at ← lift (find_app (some table) a.ait_desc.org_id a.ait_desc.app_id)
  or_else at fault (λ i. do
    app ← lift (get_elem? table.app_array i)
    failed ← lift (app_set_transport_failed_to_load app a.protocol_id)
    modify (λ m. record m {
      ait = put_table (record table { app_array = set table.app_array i failed }) m.ait;
    }))

-- ApplicationManager::OnLoadApplicationFailed
unfoldable pub on_load_application_failed : Session → ℕ → Action (Unit {0})
on_load_application_failed s id = do
  service ← gets (λ m. m.current_service)
  app ← gets (λ m. lookup id m.apps)
  ait ← gets (λ m. get m.ait)
  when (not (is_invalid_dvb_triplet service)) (
      or_else app (pure tt) (λ a. do
        or_else ait (pure tt) (λ table.
            when (not ((base a).ait_desc.app_id == 0) && not ((base a).ait_desc.org_id == 0))
              (set_failed_in table (base a)))
        kill_running_app id
        on_perform_broadcast_autostart s))

abbrev pub iplayer : Text
iplayer = codes "https://www.live.bbctvapps.co.uk/tap/iplayer"

abbrev pub is_found : Option ℕ → Bool
is_found none = false
is_found (some i) = true

-- ApplicationManager::OnApplicationPageChanged
unfoldable pub on_application_page_changed : ℕ → Text → Action (Unit {0})
on_application_page_changed id url = do
  app ← gets (λ m. lookup id m.apps)
  service ← gets (λ m. m.current_service)
  or_else app (pure tt) (λ a. do
    put_app id (with_base (record (base a) { loaded_url = url }) a)
    when (not (is_invalid_dvb_triplet service) && not (is_found (find iplayer url)))
        (call reset_broadcast_presentation))
