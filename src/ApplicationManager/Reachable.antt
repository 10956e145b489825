-- ===== src/ApplicationManager/Reachable.antt =====
-- components/application_manager/application_manager.cpp: the manager's requests, and the states that
-- they reach in any order.
use orb_private.Prelude.{
  ℕ, ap, ◌≡◌, Bool, true, false, Option, none, some, List, Text, sym, refl, ◌∙◌, if◌then◌else◌, inl,
  Pointer, subst,
}
use orb_private.Ait.{DvbTriplet}
use orb_private.Url.Locator.{is_invalid_dvb_triplet}
use orb_private.ApplicationManager.{
  App, base, is_op_app, lookup, Session, ApplicationManager, new_manager, Action, pure, ◌>>=◌,
}
use orb_private.ApplicationManager.Signalling.{
  process_ait_section, process_xml_ait, on_broadcast_stopped, on_channel_changed,
  on_network_availability_changed, on_load_application_failed, on_application_page_changed,
  on_selected_service_ait_timeout,
}
use orb_private.ApplicationManager.Requests.{
  create_application, destroy_application, show_application, hide_application, app_set_key_set_mask,
  app_in_key_set, run_teletext_application,
}
use orb_private.ApplicationManager.Invariant.{Entry, IsValid, Holds, Keeps, After-bind}
use orb_private.ApplicationManager.Invariant.Steps.{Inv, IsRelated}
use orb_private.ApplicationManager.Invariant.Tables.{process_ait_section-Inv}
use orb_private.ApplicationManager.Invariant.Operations.{
  process_xml_ait-Inv, on_broadcast_stopped-Stopped, Stopped, on_channel_changed-Inv,
  on_network_availability_changed-Inv, on_load_application_failed-Inv,
  on_application_page_changed-Inv, on_selected_service_ait_timeout-Inv,
}
use orb_private.ApplicationManager.Invariant.Requests.{
  create_application-Inv, destroy_application-Inv, show_application-Inv, hide_application-Inv,
  app_set_key_set_mask-Inv, app_in_key_set-Inv, run_teletext_application-Inv,
}

-- The methods of the manager that change its state, and the timer of the AIT.
pub data Request : Type 0 where
  create : ℕ → Text → Bool → Request
  destroy show hide : ℕ → Request
  set_key_set_mask : ℕ → ℕ → List ℕ → Request
  in_key_set : ℕ → ℕ → Request
  ait_section : ℕ → ℕ → Pointer → Request
  xml_ait : Text → Bool → Text → Request
  teletext broadcast_stopped ait_timeout : Request
  channel_changed : DvbTriplet → Request
  network_availability : Bool → Request
  load_failed : ℕ → Request
  page_changed : ℕ → Text → Request

-- An action whose result is not used.
abbrev pub quietly : {A : Type 0} → Action A → Action (Unit {0})
quietly act = act >>= λ _. pure tt

unfoldable pub run : Session → Request → Action (Unit {0})
run s (create calling url op) = quietly (create_application s calling url op)
run s (destroy calling) = destroy_application s calling
run s (show calling) = show_application s calling
run s (hide calling) = hide_application s calling
run s (set_key_set_mask id mask others) = quietly (app_set_key_set_mask id mask others)
run s (in_key_set id code) = quietly (app_in_key_set id code)
run s (ait_section pid service section) = process_ait_section s pid service section
run s (xml_ait text is_dvbi scheme) = quietly (process_xml_ait s text is_dvbi scheme)
run s teletext = quietly (run_teletext_application s)
run s broadcast_stopped = on_broadcast_stopped
run s ait_timeout = on_selected_service_ait_timeout
run s (channel_changed service) = on_channel_changed s service
run s (network_availability available) = on_network_availability_changed available
run s (load_failed id) = on_load_application_failed s id
run s (page_changed id url) = on_application_page_changed id url

-- The states of a manager: a new one, and what a request makes of a state.
pub data Reachable : ApplicationManager → Type 0 where
  initial : Reachable new_manager
  step :
      (s : Session) (r : Request) {m m' : ApplicationManager}
      → Reachable m
      → run s r m ≡ some (tt, m')
      → Reachable m'

quietly-Inv : {A : Type 0} (act : Action A) → Keeps (Inv true) act → Keeps (Inv true) (quietly act)
quietly-Inv act keeps m i =
    After-bind (λ _. Inv true) (λ _. Inv true) act (λ _. pure (tt {0})) m (keeps m i)
      (λ _ m' i'. i')

Stopped-Inv :
    (o : Option (Unit {0} × ApplicationManager)) → Holds Stopped o → Holds (λ _. Inv true) o
Stopped-Inv none h = tt
Stopped-Inv (some (u, m)) h = h.0

run-Inv : (s : Session) (r : Request) → Keeps (Inv true) (run s r)
unfolding run
run-Inv s (create calling url op) = quietly-Inv _ (create_application-Inv s calling url op)
run-Inv s (destroy calling) = destroy_application-Inv s calling
run-Inv s (show calling) = show_application-Inv s calling
run-Inv s (hide calling) = hide_application-Inv s calling
run-Inv s (set_key_set_mask id mask others) =
    quietly-Inv _ (app_set_key_set_mask-Inv id mask others)
run-Inv s (in_key_set id code) = quietly-Inv _ (app_in_key_set-Inv id code)
run-Inv s (ait_section pid service section) = process_ait_section-Inv s pid service section
run-Inv s (xml_ait text is_dvbi scheme) = quietly-Inv _ (process_xml_ait-Inv s text is_dvbi scheme)
run-Inv s teletext = quietly-Inv _ (run_teletext_application-Inv s)
run-Inv s broadcast_stopped =
    λ m i. Stopped-Inv (on_broadcast_stopped m) (on_broadcast_stopped-Stopped m i.0)
run-Inv s ait_timeout = on_selected_service_ait_timeout-Inv
run-Inv s (channel_changed service) = on_channel_changed-Inv s service
run-Inv s (network_availability available) = on_network_availability_changed-Inv available
run-Inv s (load_failed id) = on_load_application_failed-Inv s id
run-Inv s (page_changed id url) = on_application_page_changed-Inv id url

Reachable-Inv : (m : ApplicationManager) → Reachable m → Inv true m
unfolding lookup
Reachable-Inv m initial =
    (record { entries = λ k. tt; hbbtv_slot = inl refl; op_slot = inl refl }, tt)
Reachable-Inv m (step s r {m = before} reached e) =
    subst (Holds (λ _. Inv true)) e (run-Inv s r before (Reachable-Inv before reached))

-- In a state that a new manager reaches by requests that return, in any order and whatever the session
-- answers, each running application has its own id, which is not 0 and not above the last one given
-- out, and stands in the slot of its class; and a slot has no id, or that of a running application of
-- its class.
pub Reachable-IsValid : (m : ApplicationManager) → Reachable m → IsValid m
Reachable-IsValid m reached = (Reachable-Inv m reached).0

same_slot :
    (hbbtv op last j k : ℕ) (a b : App)
    → Entry hbbtv op last j (some a)
    → Entry hbbtv op last k (some b)
    → is_op_app a ≡ is_op_app b
    → j ≡ k
same_slot hbbtv op last j k a b (_, _, _, at) (_, _, _, at') same =
    sym at ∙ ap (λ c. if c then op else hbbtv) same ∙ at'

-- In a state that a new manager reaches by requests that return, two running applications of one class
-- are one and the same: at most one HbbTV application runs, and at most one operator application.
pub Reachable-one_of_class :
    (m : ApplicationManager) (j k : ℕ) (a b : App)
    → Reachable m
    → lookup j m.apps ≡ some a
    → lookup k m.apps ≡ some b
    → is_op_app a ≡ is_op_app b
    → j ≡ k
Reachable-one_of_class m j k a b reached at_j at_k same =
    let owned = Reachable-IsValid m reached in
    let E = Entry m.hbbtv_app_id m.op_app_id m.last_id in
    same_slot m.hbbtv_app_id m.op_app_id m.last_id j k a b (subst (E j) at_j (owned.entries j))
      (subst (E k) at_k (owned.entries k)) same

-- In a state that a new manager reaches by requests that return, where a service is selected and its
-- first AIT has been received, the HbbTV application that runs is broadcast-related.
pub Reachable-is_broadcast :
    (m : ApplicationManager) (a : App)
    → Reachable m
    → m.current_service_received_first_ait ≡ true
    → is_invalid_dvb_triplet m.current_service ≡ false
    → lookup m.hbbtv_app_id m.apps ≡ some a
    → (base a).is_broadcast ≡ true
Reachable-is_broadcast m a reached received service running =
    let related = (Reachable-Inv m reached).1 in
    subst (λ o. IsRelated true o) running (rw (received, service) at related)
