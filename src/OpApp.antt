-- ===== src/OpApp.antt =====
-- components/application_manager/opapp.h and opapp.cpp: an operator application, which is an
-- application with a countdown. Where a step uses the countdown, `in_callback` says that the
-- countdown's own thread takes it, and `now` is the clock; `none` is a fault in the countdown.
pub mod Identity
pub mod Transitions
pub mod Countdown
use orb_private.Prelude.{
  ℕ, Bool, true, false, not, ◌||◌, Option, none, some, List, [], ◌∷◌, ◌++◌, Text, if◌then◌else◌,
  ◌>>=◌,
}
use orb_private.Timeout.{Timeout, new_timeout, is_stopped, remaining}
use orb_private.Timeout
use orb_private.Ait.{AitAppDesc}
use orb_private.Ait.Select.{ParentalControl}
use orb_private.Url.Locator.{invalid_dvb_triplet}
use orb_private.HbbtvApp
use orb_private.HbbtvApp.{
  AppState, foreground, background, transient, overlaid_foreground, overlaid_transient, same_state,
  Event, show_application, hide_application, operator_state_change, HbbtvApp, create_from_url,
  create_from_desc, Updated, not_allowed, updated,
}

abbrev pub countdown_timeout : ℕ
countdown_timeout = 60000

pub record OpApp : Type 0 where
  pub app : HbbtvApp
  pub countdown : Timeout

-- OpApp(url, callback); `none` is the exception.
unfoldable pub create_opapp : ℕ → Text → Option OpApp
create_opapp id url = do
  app ← create_from_url id url
  some (record { app = record app { state = background }; countdown = new_timeout })

-- OpApp(desc, ...): the exception, or the application with the events.
pub data Created : Type 0 where
  refused : Created
  created : OpApp → List Event → Created

abbrev pub as_created : Updated → Created
as_created not_allowed = refused
as_created (updated app es) =
    created (record { app = record app { state = background }; countdown = new_timeout }) es

unfoldable pub create_opapp_from_desc : ℕ → ParentalControl → AitAppDesc → Bool → Option Created
create_opapp_from_desc id control desc is_network_available = do
  made ← create_from_desc id control desc invalid_dvb_triplet is_network_available [] true false
  some (as_created made)

-- OpApp(other, url): the other's state, and what remains of its countdown. The first `none` is the
-- exception, the second the fault of a countdown that runs.
unfoldable pub create_opapp_from : ℕ → ℕ → OpApp → Text → Option OpApp
create_opapp_from id now other url = do
  app ← create_from_url id url
  let o : OpApp = record { app = record app { state = other.app.state }; countdown = new_timeout }
  if is_stopped other.countdown then some o else (do
    left ← remaining now other.countdown
    c ← Timeout.start false now left o.countdown
    some (record o { countdown = c }))

-- OpApp::CanTransitionToState
unfoldable pub can_transition_to_state : AppState → AppState → Bool
can_transition_to_state current state =
    if not (same_state state current)
    then elim current [
      | foreground ↦
          if same_state state background || same_state state transient then true else false
      | transient ↦
          if same_state state foreground || same_state state background then true else false
      | overlaid_transient ↦
          if same_state state foreground || same_state state background then true else false
      | overlaid_foreground ↦
          if same_state state foreground || same_state state background then true else false
      | _ ↦ false
    ]
    else true

-- The change of the state in OpApp::SetState, with what is sent.
unfoldable pub change_state : AppState → HbbtvApp → HbbtvApp × List Event
change_state state a =
    if not (same_state state a.state)
    then (
      record a { state = state },
      operator_state_change a.id a.state state
          ∷ ((if same_state state background then hide_application a.id else show_application a.id)
              ∷ []),
    )
    else (a, [])

-- What OpApp::SetState does with the countdown.
unfoldable pub count_down : Bool → ℕ → AppState → Timeout → Option Timeout
count_down in_callback now state c =
    if same_state state transient || same_state state overlaid_transient
    then Timeout.start in_callback now countdown_timeout c
    else Timeout.stop in_callback c

-- OpApp::SetState
unfoldable pub set_state : Bool → ℕ → AppState → OpApp → Option (OpApp × List Event × Bool)
set_state in_callback now state o =
    if can_transition_to_state o.app.state state
    then (do
      let changed = change_state state o.app
      c ← count_down in_callback now state o.countdown
      some (record { app = changed.0; countdown = c }, changed.1, true))
    else some (o, [], false)

-- The countdown's callback.
unfoldable pub expire : ℕ → OpApp → Option (OpApp × List Event × Bool)
expire now o = set_state true now background o

-- OpApp::TransitionToBroadcastRelated
unfoldable pub transition_to_broadcast_related : OpApp → OpApp × List Event × Bool
transition_to_broadcast_related o =
    if same_state o.app.state foreground
    then (let r = HbbtvApp.transition_to_broadcast_related o.app in
        (record o { app = r.0 }, r.1, r.2))
    else (o, [], false)
