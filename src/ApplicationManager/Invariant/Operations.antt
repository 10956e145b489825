-- ===== src/ApplicationManager/Invariant/Operations.antt =====
-- The events of the platform, and the tables of an XML AIT, keep the invariant.
use orb_private.XmlAit.Table.{parse_ait}
use orb_private.Prelude.{
  ℕ, ◌≡◌, refl, Bool, true, false, not, ◌&&◌, some, [], Text, ◌==◌, is_empty, sym, subst, find,
  get_elem?,
}
use orb_private.Timeout
use orb_private.Ait.{Ait, AitTable, DvbTriplet}
use orb_private.Ait.Section.{get, clear, apply_ait_table}
use orb_private.Ait.Select.{auto_start_app, find_app}
use orb_private.Ait.Transport.{app_set_transport_failed_to_load}
use orb_private.Url.Locator.{invalid_dvb_triplet, is_invalid_dvb_triplet}
use orb_private.HbbtvApp.{HbbtvApp}
use orb_private.ApplicationManager.{
  invalid_app_id, base, with_base, lookup, reset_broadcast_presentation, Session,
  ApplicationManager, pure, or_else, when, call, ◌>>=◌,
}
use orb_private.ApplicationManager.Running.{
  kill_running_app, create_and_run_desc, transition_running_app_to_broadcast_independent,
}
use orb_private.ApplicationManager.Signalling.{
  kill_hbbtv_app, on_selected_service_ait_timeout, on_table, set_schemes, apply_xml_table,
  process_table, process_xml_ait, as_bool, on_broadcast_stopped, on_channel_changed, ait_timeout_ms,
  on_network_availability_changed, set_failed_in, on_load_application_failed,
  on_application_page_changed, iplayer, is_found,
}
use orb_private.ApplicationManager.Invariant.{
  IsValid, After, Keeps, After-if, After-or_else, After-lift, After-bind,
}
use orb_private.ApplicationManager.Invariant.Steps.{Inv, IsRelated, put-Inv, kill_running_app-Inv}
use orb_private.ApplicationManager.Invariant.Starting.{
  create_and_run_desc-Inv, on_perform_broadcast_autostart-Inv,
}
use orb_private.ApplicationManager.Invariant.Updating.{
  with_base-Adapts, Independent, IsIndependent, transition_to_independent-Independent,
}
use orb_private.ApplicationManager.Invariant.Tables.{on_table-Inv, IsRelated-off}

get-apply_ait_table : (table : AitTable) (ait : Ait) → get (apply_ait_table table ait) ≡ some table
unfolding apply_ait_table
get-apply_ait_table table ait = refl

apply_xml_table-Inv :
    (session : Session) (table : AitTable) (is_dvbi : Bool)
    → Keeps (Inv true) (apply_xml_table session table is_dvbi)
unfolding apply_xml_table
apply_xml_table-Inv session table true m i =
    let m1 = record m {
      ait = apply_ait_table table (clear m.ait);
      current_service_ait_pid = 0xFFFF;
    } in
    After-bind (λ _. Inv true) (λ _. Inv true) (on_table session)
      (λ _ m'. some (as_bool m'.hbbtv_app_id, m')) m1
      (on_table-Inv session m1 table (get-apply_ait_table table (clear m.ait)) i) (λ _ m' i'. i')
apply_xml_table-Inv session table false m i =
    After-lift (λ _. Inv true) (auto_start_app session.version (some table) session.control) _ m
      (λ chosen _.
        After-or_else (λ _. Inv true) chosen (pure 0)
          (λ desc.
            create_and_run_desc session desc [] false false false >>= λ id. pure (as_bool id))
          m (λ _. i)
          (λ desc _.
            After-bind (λ _. Inv true) (λ _. Inv true)
              (create_and_run_desc session desc [] false false false) (λ id. pure (as_bool id)) m
              (create_and_run_desc-Inv true session desc [] false false false m i)
              (λ id m' i'. i')))

process_table-Inv :
    (session : Session) (is_dvbi : Bool) (scheme : Text) (table : AitTable)
    → Keeps (Inv true) (process_table session is_dvbi scheme table)
unfolding process_table
process_table-Inv session is_dvbi scheme table m i =
    After-if (λ _. Inv true) (table.num_apps == 0) _ _ m (λ _. i)
      (λ _.
        After-lift (λ _. Inv true) (set_schemes table.num_apps scheme table.app_array) _ m
          (λ apps _. apply_xml_table-Inv session (record table { app_array = apps }) is_dvbi m i))

pub process_xml_ait-Inv :
    (session : Session) (xml_ait : Text) (is_dvbi : Bool) (scheme : Text)
    → Keeps (Inv true) (process_xml_ait session xml_ait is_dvbi scheme)
unfolding process_xml_ait
process_xml_ait-Inv session xml_ait is_dvbi scheme m i =
    After-if (λ _. Inv true) (is_empty xml_ait) _ _ m (λ _. i)
      (λ _.
        After-lift (λ _. Inv true) (parse_ait session.indeterminate session.read_memory xml_ait) _ m
          (λ parsed _.
            After-or_else (λ _. Inv true) parsed (pure invalid_app_id)
              (process_table session is_dvbi scheme) m (λ _. i)
              (λ table _. process_table-Inv session is_dvbi scheme table m i)))

-- What holds after the broadcast has been stopped.
abbrev pub Stopped : Unit {0} → ApplicationManager → Type 0
Stopped _ m =
    Inv true m
    × (is_invalid_dvb_triplet m.current_service ≡ true)
    × IsIndependent (lookup m.hbbtv_app_id m.apps)

no_service : is_invalid_dvb_triplet invalid_dvb_triplet ≡ true
unfolding is_invalid_dvb_triplet
no_service = refl

pub on_broadcast_stopped-Stopped :
    (m : ApplicationManager) → IsValid m → After Stopped on_broadcast_stopped m
unfolding on_broadcast_stopped
on_broadcast_stopped-Stopped m v =
    let m1 = record m {
      current_service_received_first_ait = false;
      current_service_ait_pid = 0;
      ait = clear m.ait;
      previous_service = invalid_dvb_triplet;
      current_service = invalid_dvb_triplet;
    } in
    After-bind (Independent m1) Stopped transition_running_app_to_broadcast_independent
      (λ ok. when (not ok) kill_hbbtv_app) m1 (transition_to_independent-Independent m1 v)
      (λ ok m' (v', off, service, independent, done). rw done (
        (v', subst (λ b. IsRelated b (lookup m'.hbbtv_app_id m'.apps)) (sym off) tt),
        rw service no_service,
        independent,
      ))

pub on_channel_changed-Inv :
    (session : Session) (service : DvbTriplet)
    → Keeps (Inv true) (on_channel_changed session service)
unfolding on_channel_changed
on_channel_changed-Inv session service m i =
    After-lift (λ _. Inv true) (Timeout.start false session.now ait_timeout_ms m.ait_timeout) _ m
      (λ started _.
        (i.0, IsRelated-off true (is_invalid_dvb_triplet service) (lookup m.hbbtv_app_id m.apps)))

pub on_network_availability_changed-Inv :
    (available : Bool) → Keeps (Inv true) (on_network_availability_changed available)
unfolding on_network_availability_changed
on_network_availability_changed-Inv available m i = i

pub on_selected_service_ait_timeout-Inv : Keeps (Inv true) on_selected_service_ait_timeout
unfolding on_selected_service_ait_timeout
on_selected_service_ait_timeout-Inv m i = kill_running_app-Inv true m.hbbtv_app_id m i

set_failed_in-Inv : (table : AitTable) (a : HbbtvApp) → Keeps (Inv true) (set_failed_in table a)
unfolding set_failed_in
set_failed_in-Inv table a m i =
    After-lift (λ _. Inv true) (find_app (some table) a.ait_desc.org_id a.ait_desc.app_id) _ m
      (λ at _.
        After-or_else (λ _. Inv true) at _ _ m (λ _. tt)
          (λ k _.
            After-lift (λ _. Inv true) (get_elem? table.app_array k) _ m
              (λ app _.
                After-lift (λ _. Inv true) (app_set_transport_failed_to_load app a.protocol_id) _ m
                  (λ failed _. i))))

pub on_application_page_changed-Inv :
    (id : ℕ) (url : Text) → Keeps (Inv true) (on_application_page_changed id url)
unfolding on_application_page_changed
on_application_page_changed-Inv id url m i =
    After-or_else (λ _. Inv true) (lookup id m.apps) _ _ m (λ _. i)
      (λ a found.
        let new = with_base (record (base a) { loaded_url = url }) a in
        let i' =
          put-Inv true id a new m found
            (with_base-Adapts (record (base a) { loaded_url = url }) a refl refl) i in
        let c =
          not (is_invalid_dvb_triplet m.current_service) && not (is_found (find iplayer url)) in
        After-if (λ _. Inv true) c (call reset_broadcast_presentation) (pure (tt {0})) _ (λ _. i')
          (λ _. i'))

pub on_load_application_failed-Inv :
    (session : Session) (id : ℕ) → Keeps (Inv true) (on_load_application_failed session id)
unfolding on_load_application_failed
on_load_application_failed-Inv session id m i =
    After-if (λ _. Inv true) (not (is_invalid_dvb_triplet m.current_service)) _ _ m
      (λ _.
        After-or_else (λ _. Inv true) (lookup id m.apps) _ _ m (λ _. i)
          (λ a _.
            let marked = or_else (get m.ait) (pure (tt {0})) (λ table.
              when (not ((base a).ait_desc.app_id == 0) && not ((base a).ait_desc.org_id == 0))
                (set_failed_in table (base a))) in
            After-bind (λ _. Inv true) (λ _. Inv true) marked _ m
              (After-or_else (λ _. Inv true) (get m.ait) _ _ m (λ _. i)
                (λ table _.
                  After-if (λ _. Inv true)
                    (not ((base a).ait_desc.app_id == 0) && not ((base a).ait_desc.org_id == 0)) _ _
                    m (λ _. set_failed_in-Inv table (base a) m i) (λ _. i)))
              (λ _ m' i'.
                After-bind (λ _. Inv true) (λ _. Inv true) (kill_running_app id) _ m'
                  (kill_running_app-Inv true id m' i')
                  (λ _ m'' i''. on_perform_broadcast_autostart-Inv true session m'' i''))))
      (λ _. i)
