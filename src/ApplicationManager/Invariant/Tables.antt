-- ===== src/ApplicationManager/Invariant/Tables.antt =====
-- What the manager does on a table keeps the invariant, and establishes it on a service's first one.
use orb_private.Prelude.{
  ℕ, ◌≡◌, sym, ◌∙◌, subst, inl, inr, Bool, true, false, not, ◌&&◌, Option, none, some, ◌==◌,
  Bool-cases, Pointer,
}
use orb_private.Timeout
use orb_private.Ait.{AitAppDesc, AitTable}
use orb_private.Ait.Section.{get, process_section}
use orb_private.Ait.Transport.{app_has_transport}
use orb_private.HbbtvApp.{HbbtvApp}
use orb_private.ApplicationManager.{App, base, lookup, Session, ApplicationManager, pure, or_else}
use orb_private.ApplicationManager.Running.{
  update_running_app, transition_running_app_to_broadcast_related,
}
use orb_private.ApplicationManager.Signalling.{
  ctl_kill, kill_hbbtv_app, update_or_kill, continue_received, enter_broadcast,
  refresh_or_autostart, receive_for, on_selected_service_ait_received, continue_updated,
  autostart_if_none, on_selected_service_ait_updated, on_table, set_ait_pid, process_ait_section,
}
use orb_private.ApplicationManager.Invariant.{
  After, Keeps, After-if, After-or_else, After-lift, After-bind,
}
use orb_private.ApplicationManager.Invariant.Steps.{
  Inv, IsRelated, IsRelated-none, IsRelated-some, on_service, kill_running_app-Inv,
  kill_hbbtv_app-Inv,
}
use orb_private.ApplicationManager.Invariant.Starting.{on_perform_broadcast_autostart-Inv}
use orb_private.ApplicationManager.Invariant.Updating.{
  Stays, Tells, update_running_app-Stays, transition_to_related-Tells, After-find,
}

clash : {A : Type 0} {a : A} → some a ≡ none → ⊥
clash h = cc

IsRelated-when : (ok b : Bool) (o : Option App) → not ok ≡ false → IsRelated ok o → IsRelated b o
IsRelated-when true true o h r = r
IsRelated-when true false o h r = tt
IsRelated-when false b o h r = cc

kill-Inv : (s : Bool) → Keeps (Inv s) kill_hbbtv_app
kill-Inv s m i = kill_running_app-Inv s m.hbbtv_app_id m i

update_or_kill-Inv :
    (s : Bool) (session : Session) (desc : AitAppDesc) → Keeps (Inv s) (update_or_kill session desc)
unfolding update_or_kill
update_or_kill-Inv s session desc m i =
    After-bind (λ _. Stays s m.hbbtv_app_id) (λ _. Inv s) (update_running_app session desc) _ m
      (update_running_app-Stays s session desc m i)
      (λ ok m' (i', _). After-if (λ _. Inv s) (not ok) _ _ m' (λ _. kill-Inv s m' i') (λ _. i'))

continue_received-Inv :
    (s : Bool) (session : Session) (table : AitTable) (a : HbbtvApp)
    → Keeps (Inv s) (continue_received session table a)
unfolding continue_received
continue_received-Inv s session table a m i =
    let kill = kill-Inv s m i in
    After-if (λ _. Inv s)
      (a.ait_desc.app_desc.service_bound
        && not (session.is_instance_in_current_service m.previous_service))
      _ _ m (λ _. kill)
      (λ _.
        After-find (λ _. Inv s) table a.ait_desc.org_id a.ait_desc.app_id _ m
          (λ signalled.
            After-or_else (λ _. Inv s) signalled _ _ m (λ _. kill)
              (λ desc _.
                After-if (λ _. Inv s) (desc.control_code == ctl_kill) _ _ m (λ _. kill)
                  (λ _.
                    After-lift (λ _. Inv s) (app_has_transport desc a.protocol_id) _ m
                      (λ has _.
                        After-if (λ _. Inv s) has _ _ m (λ _. update_or_kill-Inv s session desc m i)
                          (λ _. kill))))))

continue_updated-Inv :
    (s : Bool) (session : Session) (table : AitTable) (a : HbbtvApp)
    → Keeps (Inv s) (continue_updated session table a)
unfolding continue_updated
continue_updated-Inv s session table a m i =
    let kill = kill-Inv s m i in
    After-find (λ _. Inv s) table a.ait_desc.org_id a.ait_desc.app_id _ m
      (λ signalled.
        After-or_else (λ _. Inv s) signalled _ _ m (λ _. kill)
          (λ desc _.
            After-lift (λ _. Inv s) (app_has_transport desc a.protocol_id) _ m
              (λ has _.
                After-if (λ _. Inv s) (not has) _ _ m (λ _. kill)
                  (λ _.
                    After-if (λ _. Inv s) (desc.control_code == ctl_kill) _ _ m (λ _. kill)
                      (λ _. update_or_kill-Inv s session desc m i)))))

-- An application that has become broadcast-related, or has been killed.
enter_broadcast-Inv :
    (session : Session) (m : ApplicationManager)
    → Inv false m
    → After (λ _. Inv true) (enter_broadcast session) m
unfolding enter_broadcast
enter_broadcast-Inv session m i =
    After-bind (Tells false m.hbbtv_app_id m.hbbtv_app_id) (λ _. Inv true)
      (transition_running_app_to_broadcast_related session) _ m
      (transition_to_related-Tells false session m i)
      (λ ok m' ((i', same), told).
        After-if (λ _. Inv true) (not ok) _ _ m' (λ _. kill_hbbtv_app-Inv m' i')
          (λ is. (
            i'.0,
            IsRelated-when ok (on_service m') (lookup m'.hbbtv_app_id m'.apps) is
                (subst (λ k. IsRelated ok (lookup k m'.apps)) (sym same) told),
          )))

refresh_or_autostart-Inv :
    (s : Bool) (session : Session) (table : AitTable)
    → Keeps (Inv s) (refresh_or_autostart session table)
unfolding refresh_or_autostart
refresh_or_autostart-Inv s session table m i =
    After-or_else (λ _. Inv s) (lookup m.hbbtv_app_id m.apps) _ _ m
      (λ _. on_perform_broadcast_autostart-Inv s session m i)
      (λ a _.
        After-find (λ _. Inv s) table (base a).ait_desc.org_id (base a).ait_desc.app_id _ m
          (λ signalled.
            After-or_else (λ _. Inv s) signalled _ _ m (λ _. i)
              (λ desc _. update_or_kill-Inv s session desc m i)))

-- The first AIT of a service makes the running application broadcast-related, or ends it.
pub on_received-Inv :
    (session : Session) (m : ApplicationManager) (table : AitTable)
    → get m.ait ≡ some table
    → Inv false m
    → After (λ _. Inv true) (on_selected_service_ait_received session) m
unfolding on_selected_service_ait_received receive_for
on_received-Inv session m table found i =
    After-or_else (λ _. Inv true) (get m.ait) _ _ m
      (λ missing. absurd (clash (sym found ∙ missing)))
      (λ table' _.
        After-bind (λ _. Inv true) (λ _. Inv true)
          (or_else (lookup m.hbbtv_app_id m.apps) (pure (tt {0})) (receive_for session table')) _ m
          (After-or_else (λ _. Inv true) (lookup m.hbbtv_app_id m.apps) (pure (tt {0}))
            (receive_for session table') m
            (λ missing. (i.0, IsRelated-none (on_service m) (lookup m.hbbtv_app_id m.apps) missing))
            (λ a running.
              After-if (λ _. Inv true) (base a).is_broadcast
                (continue_received session table' (base a)) (enter_broadcast session) m
                (λ is. continue_received-Inv true session table' (base a) m (
                  i.0,
                  subst (IsRelated (on_service m)) (sym running)
                      (IsRelated-some (on_service m) a is),
                ))
                (λ _. enter_broadcast-Inv session m i)))
          (λ _ m' i'. refresh_or_autostart-Inv true session table' m' i'))

autostart_if_none-Inv : (s : Bool) (session : Session) → Keeps (Inv s) (autostart_if_none session)
unfolding autostart_if_none
autostart_if_none-Inv s session m i =
    After-or_else (λ _. Inv s) (lookup m.hbbtv_app_id m.apps) _ _ m
      (λ _. on_perform_broadcast_autostart-Inv s session m i) (λ _ _. i)

pub on_updated-Inv :
    (s : Bool) (session : Session) → Keeps (Inv s) (on_selected_service_ait_updated session)
unfolding on_selected_service_ait_updated
on_updated-Inv s session m i =
    After-or_else (λ _. Inv s) (get m.ait) _ _ m (λ _. i)
      (λ table _.
        After-or_else (λ _. Inv s) (lookup m.hbbtv_app_id m.apps) _ _ m
          (λ _. autostart_if_none-Inv s session m i)
          (λ a _.
            After-if (λ _. Inv s) (base a).is_broadcast _ _ m
              (λ _.
                After-bind (λ _. Inv s) (λ _. Inv s) (continue_updated session table (base a)) _ m
                  (continue_updated-Inv s session table (base a) m i)
                  (λ _ m' i'. autostart_if_none-Inv s session m' i'))
              (λ _. i)))

pub IsRelated-off : (s invalid : Bool) (o : Option App) → IsRelated (s && (false && not invalid)) o
IsRelated-off false invalid o = tt
IsRelated-off true invalid o = tt

-- A completed table, whether it is the service's first one or not.
pub on_table-Inv :
    (session : Session) (m : ApplicationManager) (table : AitTable)
    → get m.ait ≡ some table
    → Inv true m
    → After (λ _. Inv true) (on_table session) m
unfolding on_table
on_table-Inv session m table found i =
    After-if (λ _. Inv true) (not m.current_service_received_first_ait) _ _ m
      (λ _.
        After-lift (λ _. Inv true) (Timeout.stop false m.ait_timeout) _ m
          (λ stopped _.
            on_received-Inv session
              (record m { ait_timeout = stopped; current_service_received_first_ait = true }) table
              found (i.0, tt)))
      (λ _. on_updated-Inv true session m i)

set_ait_pid-Inv : (ait_pid : ℕ) → Keeps (Inv true) (set_ait_pid ait_pid)
unfolding set_ait_pid
set_ait_pid-Inv ait_pid m i = elim (Bool-cases (not (ait_pid == m.current_service_ait_pid))) [
  | inr same ↦ rw same i
  | inl new ↦ rw new (elim (Bool-cases (not (m.current_service_ait_pid == 0))) [
    | inr first ↦ rw first i
    | inl other ↦ rw other i
  ])
]

pub process_ait_section-Inv :
    (session : Session) (ait_pid service_id : ℕ) (section : Pointer)
    → Keeps (Inv true) (process_ait_section session ait_pid service_id section)
unfolding process_ait_section
process_ait_section-Inv session ait_pid service_id section m i =
    After-if (λ _. Inv true) (service_id == m.current_service.service_id) _ _ m
      (λ _.
        After-bind (λ _. Inv true) (λ _. Inv true) (set_ait_pid ait_pid) _ m
          (set_ait_pid-Inv ait_pid m i)
          (λ _ m' i'.
            After-lift (λ _. Inv true) (process_section m'.ait section) _ m'
              (λ result _.
                let m1 = record m' { ait = result.0 } in
                After-if (λ _. Inv true) result.1
                  (or_else (get result.0) (pure (tt {0})) (λ _. on_table session)) (pure (tt {0}))
                  m1
                  (λ _.
                    After-or_else (λ _. Inv true) (get result.0) (pure (tt {0}))
                      (λ _. on_table session) m1 (λ _. i')
                      (λ table found. on_table-Inv session m1 table found i'))
                  (λ _. i'))))
      (λ _. i)
