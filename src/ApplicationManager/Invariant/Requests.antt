-- ===== src/ApplicationManager/Invariant/Requests.antt =====
-- What applications request of the manager keeps the invariant.
use orb_private.Prelude.{
  ℕ, ◌≡◌, refl, ap, Bool, true, false, not, ◌&&◌, some, List, [], Text, ◌==◌, is_empty, inl,
}
use orb_private.Ait.Section.{get}
use orb_private.Ait.Select.{teletext_app}
use orb_private.Url.Locator.{
  CreateLocatorInfo, ait_application_locator, entry_page_or_xml_ait_locator, unknown_locator,
  parse_create_locator_info,
}
use orb_private.HbbtvApp
use orb_private.HbbtvApp.{
  HbbtvApp, AppState, foreground, background, transient, overlaid_foreground, overlaid_transient,
  same_state, Event, linked_app_scheme_1_1,
}
use orb_private.HbbtvApp.Keys.{set_key_set_mask, in_key_set}
use orb_private.HbbtvApp.KeySet.{in_key_set_iff}
use orb_private.OpApp
use orb_private.OpApp.{OpApp}
use orb_private.OpApp.Identity.{Same, set_state-Same, op_set_state-Same}
use orb_private.ApplicationManager.{
  App, hbbtv_app, op_app, base, with_base, is_op_app, lookup, application_load_error, Session,
  ApplicationManager, pure, when, call, invalid_app_id, ◌>>=◌, ◌>>◌,
}
use orb_private.ApplicationManager.Running.{
  kill_running_app, on_running_app_exited, create_and_run_desc,
}
use orb_private.ApplicationManager.Requests.{
  create_from_ait, create_from_page, create_from_locator, create_application, destroy_application,
  app_set_state, show_application, hide_application, request_state, app_set_key_set_mask,
  app_in_key_set, run_teletext_application,
}
use orb_private.ApplicationManager.Invariant.{
  After, Keeps, After-if, After-or_else, After-lift, After-bind,
}
use orb_private.ApplicationManager.Invariant.Steps.{Inv, put-Inv, kill_running_app-Inv}
use orb_private.ApplicationManager.Invariant.Starting.{
  create_and_run_desc-Inv, create_and_run_url-Inv, on_running_app_exited-Inv,
}
use orb_private.ApplicationManager.Invariant.Updating.{with_base-Adapts, After-find}
use orb_private.ApplicationManager.Invariant.Operations.{process_xml_ait-Inv}

create_from_ait-Inv :
    (session : Session) (info : CreateLocatorInfo) (op : Bool)
    → Keeps (Inv true) (create_from_ait session info op)
unfolding create_from_ait
create_from_ait-Inv session info op m i =
    After-or_else (λ _. Inv true) (get m.ait) _ _ m (λ _. i)
      (λ table _.
        After-find (λ _. Inv true) table info.org_id info.app_id _ m
          (λ o.
            After-or_else (λ _. Inv true) o _ _ m (λ _. i)
              (λ desc _.
                create_and_run_desc-Inv true session desc info.parameters true false op m i)))

create_from_page-Inv :
    (session : Session) (url : Text) (op : Bool)
    → Keeps (Inv true) (create_from_page session url op)
unfolding create_from_page
create_from_page-Inv session url op m i =
    After-if (λ _. Inv true) (not (is_empty (session.get_xml_ait_contents url))) _ _ m
      (λ _.
        process_xml_ait-Inv session (session.get_xml_ait_contents url) false linked_app_scheme_1_1 m
          i)
      (λ _. create_and_run_url-Inv true url op m i)

create_from_locator-Inv :
    (session : Session) (url : Text) (op : Bool) (info : CreateLocatorInfo)
    → Keeps (Inv true) (create_from_locator session url op info)
unfolding create_from_locator
create_from_locator-Inv session url op info m i =
    elim (info.type)
      as (λ t.
        After (λ _. Inv true)
          (elim t [
            | ait_application_locator ↦ create_from_ait session info op
            | entry_page_or_xml_ait_locator ↦ create_from_page session url op
            | unknown_locator ↦ pure invalid_app_id
          ])
          m) [
            | ait_application_locator ↦ create_from_ait-Inv session info op m i
            | entry_page_or_xml_ait_locator ↦ create_from_page-Inv session url op m i
            | unknown_locator ↦ i
          ]

pub create_application-Inv :
    (session : Session) (calling_app_id : ℕ) (url : Text) (op : Bool)
    → Keeps (Inv true) (create_application session calling_app_id url op)
unfolding create_application
create_application-Inv session calling_app_id url op m i =
    After-or_else (λ _. Inv true) (lookup calling_app_id m.apps) _ _ m (λ _. i)
      (λ app _.
        After-if (λ _. Inv true) (is_empty url) _ _ m (λ _. i)
          (λ _.
            After-if (λ _. Inv true) (op && not (is_op_app app)) _ _ m (λ _. i)
              (λ _.
                let info = parse_create_locator_info session.stoul url m.current_service in
                After-bind (λ _. Inv true) (λ _. Inv true) (create_from_locator session url op info)
                  _ m (create_from_locator-Inv session url op info m i)
                  (λ result m' i'.
                    After-bind (λ _. Inv true) (λ _. Inv true)
                      (when (result == invalid_app_id) (call application_load_error)) _ m'
                      (After-if (λ _. Inv true) (result == invalid_app_id)
                        (call application_load_error) (pure (tt {0})) m' (λ _. i') (λ _. i'))
                      (λ _ m'' i''. i'')))))

exit-Inv :
    (session : Session) (id : ℕ)
    → Keeps (Inv true) (kill_running_app id >> on_running_app_exited session)
exit-Inv session id m i =
    After-bind (λ _. Inv true) (λ _. Inv true) (kill_running_app id) _ m
      (kill_running_app-Inv true id m i) (λ _ m' i'. on_running_app_exited-Inv true session m' i')

pub destroy_application-Inv :
    (session : Session) (id : ℕ) → Keeps (Inv true) (destroy_application session id)
unfolding destroy_application
destroy_application-Inv session id m i =
    After-bind (λ _. Inv true) (λ _. Inv true)
      (when (id == invalid_app_id) (kill_running_app id >> on_running_app_exited session)) _ m
      (After-if (λ _. Inv true) (id == invalid_app_id) _ _ m (λ _. exit-Inv session id m i)
        (λ _. i))
      (λ _ m' i'.
        After-or_else (λ _. Inv true) (lookup id m'.apps) _ _ m' (λ _. i')
          (λ _ _. exit-Inv session id m' i'))

in_key_set-Same : (code : ℕ) (a : HbbtvApp) → Same a (in_key_set code a).0
in_key_set-Same code a =
    let same = (in_key_set_iff code a).1 in (ap (λ b. b.id) same, ap (λ b. b.is_broadcast) same)

app_set_state-Inv :
    (session : Session) (state : AppState) (id : ℕ) (app : App) (m : ApplicationManager)
    → lookup id m.apps ≡ some app
    → Inv true m
    → After (λ _. Inv true) (app_set_state session state id app) m
unfolding app_set_state
app_set_state-Inv session state id (hbbtv_app a) m found i =
    let same = set_state-Same state a in
    put-Inv true id (hbbtv_app a) (hbbtv_app (HbbtvApp.set_state state a).0) m found
      (record { id = same.0; class = refl; related = inl same.1 }) i
app_set_state-Inv session state id (op_app o) m found i =
    After-lift (λ _. Inv true) (OpApp.set_state false session.now state o) _ m
      (λ (o', es, ok) e.
        let same = op_set_state-Same session.now state o o' es ok e in
        put-Inv true id (op_app o) (op_app o') m found
          (record { id = same.0; class = refl; related = inl same.1 }) i)

request_state-Inv :
    (session : Session) (state : AppState) (id : ℕ)
    → Keeps (Inv true) (request_state session state id)
request_state-Inv session state id m i =
    After-or_else (λ _. Inv true) (lookup id m.apps) _ _ m (λ _. i)
      (λ app found. app_set_state-Inv session state id app m found i)

pub show_application-Inv :
    (session : Session) (id : ℕ) → Keeps (Inv true) (show_application session id)
unfolding show_application
show_application-Inv session id m i = request_state-Inv session foreground id m i

pub hide_application-Inv :
    (session : Session) (id : ℕ) → Keeps (Inv true) (hide_application session id)
unfolding hide_application
hide_application-Inv session id m i = request_state-Inv session background id m i

pub app_set_key_set_mask-Inv :
    (id mask : ℕ) (other_keys : List ℕ) → Keeps (Inv true) (app_set_key_set_mask id mask other_keys)
unfolding app_set_key_set_mask set_key_set_mask
app_set_key_set_mask-Inv id mask other_keys m i =
    After-or_else (λ _. Inv true) (lookup id m.apps) _ _ m (λ _. i)
      (λ app found.
        let new = (set_key_set_mask mask other_keys (base app)).0 in
        put-Inv true id app (with_base new app) m found (with_base-Adapts new app refl refl) i)

pub app_in_key_set-Inv : (id code : ℕ) → Keeps (Inv true) (app_in_key_set id code)
unfolding app_in_key_set
app_in_key_set-Inv id code m i =
    After-or_else (λ _. Inv true) (lookup id m.apps) _ _ m (λ _. i)
      (λ app found.
        let same = in_key_set-Same code (base app) in
        let new = (in_key_set code (base app)).0 in
        put-Inv true id app (with_base new app) m found (with_base-Adapts new app same.0 same.1) i)

pub run_teletext_application-Inv :
    (session : Session) → Keeps (Inv true) (run_teletext_application session)
unfolding run_teletext_application
run_teletext_application-Inv session m i =
    After-or_else (λ _. Inv true) (get m.ait) _ _ m (λ _. i)
      (λ table _.
        After-lift (λ _. Inv true) (teletext_app (some table)) _ m
          (λ chosen _.
            After-or_else (λ _. Inv true) chosen (pure false)
              (λ desc. create_and_run_desc session desc [] true false false >>= λ id.
                pure (not (id == invalid_app_id)))
              m (λ _. i)
              (λ desc _.
                After-bind (λ _. Inv true) (λ _. Inv true)
                  (create_and_run_desc session desc [] true false false)
                  (λ id. pure (not (id == invalid_app_id))) m
                  (create_and_run_desc-Inv true session desc [] true false false m i)
                  (λ id m' i'. i'))))
