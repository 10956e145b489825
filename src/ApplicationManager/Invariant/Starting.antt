-- ===== src/ApplicationManager/Invariant/Starting.antt =====
-- Starting an application keeps the invariant.
use orb_private.Prelude.{
  ℕ, ◌+◌, ◌≡◌, refl, sym, ap, ◌∙◌, Bool, true, false, not, ◌||◌, some, List, [], ◌++◌, Text,
  text_eq, >>=-eq-some, Option-cases, inl, inr, arith,
}
use orb_private.Ait.{AitAppDesc, DvbTriplet}
use orb_private.Ait.Section.{get}
use orb_private.Ait.Select.{ParentalControl, auto_start_app}
use orb_private.Ait.Transport.{extract_base_url}
use orb_private.Url.Locator.{is_invalid_dvb_triplet, invalid_dvb_triplet}
use orb_private.HbbtvApp.{
  HbbtvApp, Event, create_from_url, create_from_desc, Updated, not_allowed, updated,
}
use orb_private.HbbtvApp.Update.{update-Follows}
use orb_private.OpApp.{
  OpApp, create_opapp, create_opapp_from_desc, Created, refused, created, as_created,
}
use orb_private.ApplicationManager.{
  App, hbbtv_app, op_app, base, Session, ApplicationManager, calls_of,
}
use orb_private.ApplicationManager.Running.{
  create_and_run_url, create_and_run_desc, run_created, run_updated, on_perform_broadcast_autostart,
  on_running_app_exited, opapp_privileged, opapp_opspecific,
}
use orb_private.ApplicationManager.Invariant.{
  After, Keeps, After-if, After-or_else, After-lift, After-bind,
}
use orb_private.ApplicationManager.Invariant.Ownership.{Owned-skip}
use orb_private.ApplicationManager.Invariant.Steps.{Inv, Ready, run_app-Inv}

-- Every constructor gives the application the id that it is told.
create_from_url-id :
    (id : ℕ) (url : Text) (a : HbbtvApp) → create_from_url id url ≡ some a → a.id ≡ id
unfolding create_from_url
create_from_url-id id url a h = ground arith

create_opapp-id : (id : ℕ) (url : Text) (o : OpApp) → create_opapp id url ≡ some o → o.app.id ≡ id
unfolding create_opapp
create_opapp-id id url o h = elim (Option-cases (create_from_url id url)) [
  | inl e ↦ ground arith
  | inr (a, e) ↦ ground (arith, create_from_url-id id url a e)
]

create_from_desc-id :
    (id : ℕ) (control : ParentalControl) (desc : AitAppDesc) (service : DvbTriplet) (net : Bool)
    (params : Text) (is_broadcast is_trusted : Bool) (a : HbbtvApp) (es : List Event)
    → create_from_desc id control desc service net params is_broadcast is_trusted
      ≡ some (updated a es)
    → a.id ≡ id
unfolding create_from_desc
create_from_desc-id id control desc service net params is_broadcast is_trusted a es h =
    let (base_url, _, h1) =
      >>=-eq-some (extract_base_url desc service net) _ {b = updated a es} h in
    (update-Follows control desc net _ a es h1).0.id

-- The manager after an id has been given out.
abbrev pub counted : ApplicationManager → ApplicationManager
counted m = record m { last_id = m.last_id + 1 }

counted-Inv : (s : Bool) (m : ApplicationManager) → Inv s m → Inv s (counted m)
counted-Inv s m (v, r) = (Owned-skip m.apps m.hbbtv_app_id m.op_app_id m.last_id v, r)

counted-Ready :
    (s : Bool) (app : App) (m : ApplicationManager)
    → Inv s m
    → (base app).id ≡ m.last_id + 1
    → Ready s app (counted m)
counted-Ready s app m (v, r) id = (m.last_id, refl, id, v, r)

pub create_and_run_url-Inv :
    (s : Bool) (url : Text) (op : Bool) → Keeps (Inv s) (create_and_run_url url op)
unfolding create_and_run_url
create_and_run_url-Inv s url op m i =
    After-if (λ _. Inv s) op _ _ (counted m)
      (λ _.
        After-or_else (λ _. Inv s) (create_opapp (m.last_id + 1) url) _ _ (counted m)
          (λ _. counted-Inv s m i)
          (λ o e.
            run_app-Inv s (op_app o) (counted m)
              (counted-Ready s (op_app o) m i (create_opapp-id (m.last_id + 1) url o e))))
      (λ _.
        After-or_else (λ _. Inv s) (create_from_url (m.last_id + 1) url) _ _ (counted m)
          (λ _. counted-Inv s m i)
          (λ a e.
            run_app-Inv s (hbbtv_app a) (counted m)
              (counted-Ready s (hbbtv_app a) m i (create_from_url-id (m.last_id + 1) url a e))))

module _ (id : ℕ) (control : ParentalControl) (desc : AitAppDesc) (net : Bool) where
  made_id :
      (made : Updated) (o : OpApp) (es : List Event)
      → create_from_desc id control desc invalid_dvb_triplet net [] true false ≡ some made
      → as_created made ≡ created o es
      → o.app.id ≡ id
  made_id not_allowed o es e h = cc
  made_id (updated a fs) o es e h =
      let same : a.id ≡ o.app.id = cc in
      sym same ∙ create_from_desc-id id control desc invalid_dvb_triplet net [] true false a fs e

  create_opapp_from_desc-id :
      (o : OpApp) (es : List Event)
      → create_opapp_from_desc id control desc net ≡ some (created o es)
      → o.app.id ≡ id
  unfolding create_opapp_from_desc
  create_opapp_from_desc-id o es h =
      let (made, e, h1) =
        >>=-eq-some (create_from_desc id control desc invalid_dvb_triplet net [] true false)
          (λ made. some (as_created made)) {b = created o es} h in
      made_id made o es e (cc h1)

run_created-Inv :
    (s : Bool) (made : Created) (m : ApplicationManager)
    → Inv s m
    → ((o : OpApp) (es : List Event) → made ≡ created o es → o.app.id ≡ m.last_id + 1)
    → After (λ _. Inv s) (run_created made) (counted m)
unfolding run_created
run_created-Inv s refused m i own = counted-Inv s m i
run_created-Inv s (created o es) m i own =
    let sent = record m { calls = m.calls ++ calls_of es } in
    run_app-Inv s (op_app o) (counted sent) (counted-Ready s (op_app o) sent i (own o es refl))

run_updated-Inv :
    (s : Bool) (made : Updated) (m : ApplicationManager)
    → Inv s m
    → ((a : HbbtvApp) (es : List Event) → made ≡ updated a es → a.id ≡ m.last_id + 1)
    → After (λ _. Inv s) (run_updated made) (counted m)
unfolding run_updated
run_updated-Inv s not_allowed m i own = counted-Inv s m i
run_updated-Inv s (updated a es) m i own =
    let sent = record m { calls = m.calls ++ calls_of es } in
    run_app-Inv s (hbbtv_app a) (counted sent)
      (counted-Ready s (hbbtv_app a) sent i (own a es refl))

pub create_and_run_desc-Inv :
    (s : Bool) (session : Session) (desc : AitAppDesc) (params : Text) (broadcast trusted op : Bool)
    → Keeps (Inv s) (create_and_run_desc session desc params broadcast trusted op)
unfolding create_and_run_desc
create_and_run_desc-Inv s session desc params broadcast trusted op m i =
    let id = m.last_id + 1 in
    let net = m.is_network_available in
    After-if (λ _. Inv s)
      (op || text_eq desc.app_usage opapp_privileged || text_eq desc.app_usage opapp_opspecific) _ _
      (counted m)
      (λ _.
        After-lift (λ _. Inv s) (create_opapp_from_desc id session.control desc net) run_created
          (counted m)
          (λ made e. run_created-Inv s made m i (λ o es same.
            create_opapp_from_desc-id id session.control desc net o es (e ∙ ap some same))))
      (λ _.
        After-lift (λ _. Inv s)
          (create_from_desc id session.control desc m.current_service net params broadcast trusted)
          run_updated (counted m)
          (λ made e. run_updated-Inv s made m i (λ a es same.
            create_from_desc-id id session.control desc m.current_service net params broadcast
              trusted a es (e ∙ ap some same))))

pub on_perform_broadcast_autostart-Inv :
    (s : Bool) (session : Session) → Keeps (Inv s) (on_perform_broadcast_autostart session)
unfolding on_perform_broadcast_autostart
on_perform_broadcast_autostart-Inv s session m i =
    After-or_else (λ _. Inv s) (get m.ait) _ _ m (λ _. i)
      (λ table _.
        After-if (λ _. Inv s) m.current_service_received_first_ait _ _ m
          (λ _.
            After-lift (λ _. Inv s) (auto_start_app session.version (some table) session.control) _
              m
              (λ chosen _.
                After-or_else (λ _. Inv s) chosen _ _ m (λ _. i)
                  (λ desc _.
                    After-bind (λ _. Inv s) (λ _. Inv s)
                      (create_and_run_desc session desc [] true false false) _ m
                      (create_and_run_desc-Inv s session desc [] true false false m i)
                      (λ id m' i'. i'))))
          (λ _. i))

pub on_running_app_exited-Inv :
    (s : Bool) (session : Session) → Keeps (Inv s) (on_running_app_exited session)
unfolding on_running_app_exited
on_running_app_exited-Inv s session m i =
    After-if (λ _. Inv s) (not (is_invalid_dvb_triplet m.current_service)) _ _ m
      (λ _. on_perform_broadcast_autostart-Inv s session m i) (λ _. i)
