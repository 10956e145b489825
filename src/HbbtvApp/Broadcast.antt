-- ===== src/HbbtvApp/Broadcast.antt =====
-- The requests that an application's session makes of it: an application becomes broadcast related
-- or not, and is shown or hidden.
use orb_private.Prelude.{
  ◌≡◌, refl, ap, ◌∙◌, Bool, true, false, not, ◌&&◌, ◌||◌, List, [], ◌∷◌, ◌++◌, Text, any, ◌==◌,
  if◌then◌else◌, Bool-cases, inl, inr, arith,
}
use orb_private.Ait.{ctl_autostart, ctl_present, protocol_http}
use orb_private.Url.{compare_urls}
use orb_private.Url.Origin.{str_get_url_origin}
use orb_private.Url.Origin.Layout.{check_boundaries-any}
use orb_private.HbbtvApp.{
  AppState, foreground, background, transient, overlaid_foreground, overlaid_transient, Event,
  show_application, hide_application, scheme_updated, transitioned_to_broadcast_related,
  operator_state_change, HbbtvApp, transition_to_broadcast_related,
  transition_to_broadcast_independent, set_state, same_state,
}

-- A URL is of the origin of one of the pages.
abbrev pub is_within : Text → List Text → Bool
is_within url pages = any (λ p. compare_urls (str_get_url_origin url) (str_get_url_origin p)) pages

abbrev pub may_be_broadcast_related : HbbtvApp → Bool
may_be_broadcast_related a =
    (a.ait_desc.control_code == ctl_autostart || a.ait_desc.control_code == ctl_present)
    && a.protocol_id == protocol_http
    && is_within a.entry_url (a.base_url ∷ a.ait_desc.boundaries)
    && is_within a.loaded_url (a.base_url ∷ a.ait_desc.boundaries)

-- An application becomes broadcast related exactly if its last AIT signals it as AUTOSTART or
-- PRESENT and over HTTP, and the origins of both its URLs are that of its base URL or of one of its
-- boundaries. Where it does not, nothing changes and nothing is sent.
pub transition_to_broadcast_related-branches :
    (a : HbbtvApp)
    → transition_to_broadcast_related a ≡ (
        if may_be_broadcast_related a
        then (record a { is_broadcast = true }, transitioned_to_broadcast_related a.id ∷ [], true)
        else (a, [], false))
unfolding transition_to_broadcast_related
transition_to_broadcast_related-branches a =
    rw (← check_boundaries-any a.entry_url a.base_url a.ait_desc.boundaries)
      (rw (← check_boundaries-any a.loaded_url a.base_url a.ait_desc.boundaries) refl)

-- What the user sees: the last event that shows or hides the application.
unfoldable pub visible_after : Bool → List Event → Bool
visible_after v [] = v
visible_after v (show_application id ∷ es) = visible_after true es
visible_after v (hide_application id ∷ es) = visible_after false es
visible_after v (_ ∷ es) = visible_after v es

abbrev pub is_visible : AppState → Bool
is_visible s = not (same_state s background)

-- A sequence of requests.
pub data Request : Type 0 where
  to_state : AppState → Request
  to_broadcast_related to_broadcast_independent : Request

unfoldable pub request : Request → HbbtvApp → HbbtvApp × List Event
request (to_state s) a = let r = set_state s a in (r.0, r.1)
request to_broadcast_related a = let r = transition_to_broadcast_related a in (r.0, r.1)
request to_broadcast_independent a = ((transition_to_broadcast_independent a).0, [])

unfoldable pub requests : List Request → HbbtvApp → HbbtvApp × List Event
requests [] a = (a, [])
requests (r ∷ rs) a =
    let first = request r a in let rest = requests rs first.0 in (rest.0, first.1 ++ rest.1)

pub visible_after-append :
    (v : Bool) (es fs : List Event)
    → visible_after v (es ++ fs) ≡ visible_after (visible_after v es) fs
unfolding visible_after
visible_after-append v [] fs = refl
visible_after-append v (show_application id ∷ es) fs = visible_after-append true es fs
visible_after-append v (hide_application id ∷ es) fs = visible_after-append false es fs
visible_after-append v (scheme_updated id s ∷ es) fs = visible_after-append v es fs
visible_after-append v (transitioned_to_broadcast_related id ∷ es) fs = visible_after-append v es fs
visible_after-append v (operator_state_change id s t ∷ es) fs = visible_after-append v es fs

pub set_state-visible :
    (s : AppState) (a : HbbtvApp)
    → visible_after (is_visible a.state) (set_state s a).1 ≡ is_visible (set_state s a).0.state
unfolding set_state visible_after
set_state-visible foreground a = elim (Bool-cases (same_state foreground a.state)) [
  | inl h ↦ rw h refl
  | inr h ↦ rw h refl
]
set_state-visible background a = ground arith
set_state-visible transient a = refl
set_state-visible overlaid_foreground a = refl
set_state-visible overlaid_transient a = refl

request-visible :
    (r : Request) (a : HbbtvApp)
    → visible_after (is_visible a.state) (request r a).1 ≡ is_visible (request r a).0.state
unfolding request visible_after transition_to_broadcast_related transition_to_broadcast_independent
request-visible (to_state s) a = set_state-visible s a
request-visible to_broadcast_related a = ground arith
request-visible to_broadcast_independent a = refl

-- Whatever is requested of an application, in whatever order, the events sent on the way leave it
-- shown exactly if its state is not the background.
pub requests-visible :
    (rs : List Request) (a : HbbtvApp)
    → visible_after (is_visible a.state) (requests rs a).1 ≡ is_visible (requests rs a).0.state
unfolding requests visible_after
requests-visible [] a = refl
requests-visible (r ∷ rs) a =
    visible_after-append (is_visible a.state) (request r a).1 (requests rs (request r a).0).1
    ∙ ap (λ v. visible_after v (requests rs (request r a).0).1) (request-visible r a)
    ∙ requests-visible rs (request r a).0
