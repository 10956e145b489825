-- ===== src/ApplicationManager/Outcome.antt =====
-- components/application_manager/application_manager.cpp: what some requests lead to.
use orb_private.XmlAit.Table.{parse_ait}
use orb_private.Prelude.{
  ℕ, ◌≡◌, ◌≢◌, ◌≤◌, refl, sym, subst, ap, ◌∙◌, inl, inr, Bool, true, false, ◌&&◌, ◌||◌, Option,
  none, some, Text, ◌==◌, Bool-cases, Option-cases, ==_refl, [], is_empty, arith,
}
use orb_private.Timeout
use orb_private.Timeout.{Timeout}
use orb_private.Ait.{AitTable, DvbTriplet}
use orb_private.Ait.Section.{clear, apply_ait_table}
use orb_private.Ait.Select.{auto_start_app}
use orb_private.Url.Locator.{is_invalid_dvb_triplet}
use orb_private.HbbtvApp
use orb_private.ApplicationManager.{
  invalid_app_id, App, is_op_app, is_some, lookup, erase, Session, ApplicationManager, Action, pure,
  ◌>>=◌,
}
use orb_private.ApplicationManager.Running.{
  kill_running_app, create_and_run_desc, transition_running_app_to_broadcast_independent,
}
use orb_private.ApplicationManager.Signalling.{
  on_broadcast_stopped, on_channel_changed, on_selected_service_ait_timeout, process_table,
  process_xml_ait, apply_xml_table, set_schemes, on_table, as_bool, ait_timeout_ms,
}
use orb_private.ApplicationManager.Invariant.{
  Entry, IsValid, Holds, After, After-if, After-or_else, After-lift, After-bind,
}
use orb_private.ApplicationManager.Invariant.Steps.{Inv, lookup_zero, vacated_hbbtv, not_running}
use orb_private.ApplicationManager.Invariant.Updating.{IsIndependent}
use orb_private.ApplicationManager.Invariant.Operations.{Stopped, on_broadcast_stopped-Stopped}

-- An action that returns, with what holds then.
abbrev pub Returns : (ApplicationManager → Type 0) → Action (Unit {0}) → ApplicationManager → Type 0
Returns P act m = (m' : ApplicationManager) × (act m ≡ some (tt, m')) × P m'

abbrev has_result : Option (Unit {0} × ApplicationManager) → Bool
has_result none = false
has_result (some (u, m)) = true

opposite : false ≡ true → ⊥
opposite h = cc

result_of :
    (P : ApplicationManager → Type 0) (o : Option (Unit {0} × ApplicationManager))
    → has_result o ≡ true
    → Holds (λ _. P) o
    → (m' : ApplicationManager) × (o ≡ some (tt, m')) × P m'
result_of P none r h = absurd (opposite r)
result_of P (some (u, m)) r h = (m, refl, h)

on_broadcast_stopped-has_result :
    (m : ApplicationManager) → has_result (on_broadcast_stopped m) ≡ true
unfolding on_broadcast_stopped transition_running_app_to_broadcast_independent
    HbbtvApp.transition_to_broadcast_independent
on_broadcast_stopped-has_result m = elim (Option-cases (lookup m.hbbtv_app_id m.apps)) [
  | inl h ↦ rw (has_result, h) refl
  | inr (a, h) ↦ rw (has_result, h) refl
]

abbrev pub OffAir : ApplicationManager → Type 0
OffAir m =
    Inv true m
    × (is_invalid_dvb_triplet m.current_service ≡ true)
    × IsIndependent (lookup m.hbbtv_app_id m.apps)

Stopped-OffAir :
    (o : Option (Unit {0} × ApplicationManager)) → Holds Stopped o → Holds (λ _. OffAir) o
Stopped-OffAir none h = tt
Stopped-OffAir (some (u, m)) h = h

-- From a valid state, the end of the broadcast is handled without a fault, and leads to a valid state
-- with no service, in which an HbbTV application that runs is broadcast-independent.
pub on_broadcast_stopped-OffAir :
    (m : ApplicationManager) → IsValid m → Returns OffAir on_broadcast_stopped m
on_broadcast_stopped-OffAir m v =
    result_of OffAir (on_broadcast_stopped m) (on_broadcast_stopped-has_result m)
      (Stopped-OffAir _ (on_broadcast_stopped-Stopped m v))

kill_running_app-has_result :
    (id : ℕ) (m : ApplicationManager) → has_result (kill_running_app id m) ≡ true
unfolding kill_running_app
kill_running_app-has_result id m =
    elim (Bool-cases ((m.hbbtv_app_id == id || m.op_app_id == id) && is_some (lookup id m.apps))) [
      | inl h ↦ rw h refl
      | inr h ↦ rw h refl
    ]

-- Only operator applications run.
abbrev pub NoHbbtvApp : ApplicationManager → Type 0
NoHbbtvApp m = (k : ℕ) (a : App) → lookup k m.apps ≡ some a → is_op_app a ≡ true

clash : {A : Type 0} {a : A} → some a ≡ none → ⊥
clash h = cc

vacant :
    (hbbtv op last k : ℕ) (a : App)
    → Entry hbbtv op last k (some a)
    → (k ≢ hbbtv)
    → is_op_app a ≡ true
vacant hbbtv op last k a (_, _, _, at) far = elim (Bool-cases (is_op_app a)) [
  | inl op_app ↦ op_app
  | inr hbbtv_app ↦ absurd (far (sym (rw hbbtv_app at at)))
]

-- The slot of the HbbTV applications is empty, and the state is valid.
abbrev Vacated : ApplicationManager → Type 0
Vacated m = IsValid m × (lookup m.hbbtv_app_id m.apps ≡ none)

Vacated-NoHbbtvApp : (m : ApplicationManager) → Vacated m → NoHbbtvApp m
Vacated-NoHbbtvApp m (v, free) k a running =
    vacant m.hbbtv_app_id m.op_app_id m.last_id k a
      (subst (Entry m.hbbtv_app_id m.op_app_id m.last_id k) running (v.entries k))
      (λ same. clash (sym running ∙ ap (λ i. lookup i m.apps) same ∙ free))

-- Killing the HbbTV application empties the slot.
kill_hbbtv_app-Vacated :
    (m : ApplicationManager) → IsValid m → After (λ _. Vacated) (kill_running_app m.hbbtv_app_id) m
unfolding kill_running_app
kill_hbbtv_app-Vacated m v =
    After-if (λ _. Vacated)
      ((m.hbbtv_app_id == m.hbbtv_app_id || m.op_app_id == m.hbbtv_app_id)
        && is_some (lookup m.hbbtv_app_id m.apps))
      _ _ m
      (λ _.
        let (valid, _) = vacated_hbbtv false m.hbbtv_app_id m refl v in
        rw (==_refl m.hbbtv_app_id) (
          valid,
          lookup_zero (record m { apps = erase m.hbbtv_app_id m.apps; hbbtv_app_id = 0 }) valid,
        ))
      (λ h. (v, not_running m.hbbtv_app_id _ _ h))

start-again :
    (now timeout : ℕ) (t : Timeout)
    → Timeout.start false now timeout t
      ≡ some (record { joinable = true; stopped = false; timeout = timeout; start_timestamp = now })
unfolding Timeout.start Timeout.stop
start-again now timeout t = elim (Bool-cases (t.joinable)) [ inl h ↦ rw h refl | inr h ↦ rw h refl ]

-- The selection of a service starts the timer of its AIT, for 5 s. Where the timer runs out, the HbbTV
-- application is killed: from a valid state both steps return, and no HbbTV application runs any more.
pub ait_timeout-NoHbbtvApp :
    (s : Session) (service : DvbTriplet) (m : ApplicationManager)
    → IsValid m
    → (m1 : ApplicationManager) × (m2 : ApplicationManager) × (on_channel_changed s service m
        ≡ some (tt, m1))
      × (m1.ait_timeout
          ≡ record { joinable = true; stopped = false; timeout = 5000; start_timestamp = s.now })
      × (on_selected_service_ait_timeout m1 ≡ some (tt, m2))
      × NoHbbtvApp m2
unfolding on_channel_changed on_selected_service_ait_timeout
ait_timeout-NoHbbtvApp s service m v =
    let m1 = record m {
      current_service_received_first_ait = false;
      current_service_ait_pid = 0;
      ait = clear m.ait;
      ait_timeout = record {
        joinable = true;
        stopped = false;
        timeout = 5000;
        start_timestamp = s.now;
      };
      previous_service = m.current_service;
      current_service = service;
    } in
    let (m2, e, w) =
      result_of Vacated (kill_running_app m.hbbtv_app_id m1)
        (kill_running_app-has_result m.hbbtv_app_id m1) (kill_hbbtv_app-Vacated m1 v) in
    (
      m1,
      m2,
      rw (start-again s.now ait_timeout_ms m.ait_timeout) refl,
      refl,
      e,
      Vacated-NoHbbtvApp m2 w,
    )

as_bool-le : (id : ℕ) → as_bool id ≤ 1
as_bool-le id = ground arith

anything : {A : Type 0} (o : Option (A × ApplicationManager)) → Holds (λ _ _. Unit {0}) o
anything none = tt
anything (some (a, m)) = tt

apply_xml_table-Bit :
    (s : Session) (table : AitTable) (is_dvbi : Bool) (m : ApplicationManager)
    → After (λ i _. i ≤ 1) (apply_xml_table s table is_dvbi) m
unfolding apply_xml_table
apply_xml_table-Bit s table true m =
    let m1 = record m {
      ait = apply_ait_table table (clear m.ait);
      current_service_ait_pid = 0xFFFF;
    } in
    After-bind (λ _ _. Unit {0}) (λ i _. i ≤ 1) (on_table s)
      (λ _ m'. some (as_bool m'.hbbtv_app_id, m')) m1 (anything (on_table s m1))
      (λ _ m' _. as_bool-le m'.hbbtv_app_id)
apply_xml_table-Bit s table false m =
    After-lift (λ i _. i ≤ 1) (auto_start_app s.version (some table) s.control) _ m
      (λ chosen _.
        After-or_else (λ i _. i ≤ 1) chosen (pure 0)
          (λ desc. create_and_run_desc s desc [] false false false >>= λ id. pure (as_bool id)) m
          (λ _. omega arith)
          (λ desc _.
            After-bind (λ _ _. Unit {0}) (λ i _. i ≤ 1)
              (create_and_run_desc s desc [] false false false) (λ id. pure (as_bool id)) m
              (anything (create_and_run_desc s desc [] false false false m))
              (λ id m' _. as_bool-le id)))

process_table-Bit :
    (s : Session) (is_dvbi : Bool) (scheme : Text) (table : AitTable) (m : ApplicationManager)
    → After (λ i _. i ≤ 1) (process_table s is_dvbi scheme table) m
unfolding process_table
process_table-Bit s is_dvbi scheme table m =
    After-if (λ i _. i ≤ 1) (table.num_apps == 0) _ _ m (λ _. omega arith)
      (λ _.
        After-lift (λ i _. i ≤ 1) (set_schemes table.num_apps scheme table.app_array) _ m
          (λ apps _. apply_xml_table-Bit s (record table { app_array = apps }) is_dvbi m))

process_xml_ait-Bit :
    (s : Session) (xml_ait : Text) (is_dvbi : Bool) (scheme : Text) (m : ApplicationManager)
    → After (λ i _. i ≤ 1) (process_xml_ait s xml_ait is_dvbi scheme) m
unfolding process_xml_ait
process_xml_ait-Bit s xml_ait is_dvbi scheme m =
    let B : ℕ → ApplicationManager → Type 0 = λ i _. i ≤ 1 in
    After-if B (is_empty xml_ait) _ _ m (λ _. omega arith)
      (λ _. After-lift B (parse_ait s.indeterminate s.read_memory xml_ait) _ m (λ parsed _.
        After-or_else B parsed (pure invalid_app_id) (process_table s is_dvbi scheme) m
          (λ _. omega arith) (λ table _. process_table-Bit s is_dvbi scheme table m)))

-- The result of ProcessXmlAit is 0 or 1, also where the id of the application is another.
pub process_xml_ait-le :
    (s : Session) (xml_ait : Text) (is_dvbi : Bool) (scheme : Text) (m m' : ApplicationManager)
    (id : ℕ)
    → process_xml_ait s xml_ait is_dvbi scheme m ≡ some (id, m')
    → id ≤ 1
process_xml_ait-le s xml_ait is_dvbi scheme m m' id h =
    subst (Holds (λ i _. i ≤ 1)) h (process_xml_ait-Bit s xml_ait is_dvbi scheme m)
