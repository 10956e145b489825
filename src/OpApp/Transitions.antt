-- ===== src/OpApp/Transitions.antt =====
-- The state machine of an operator application, and what its user sees.
use orb_private.Prelude.{◌≡◌, ◌↔◌, refl, true}
use orb_private.HbbtvApp.{
  AppState, foreground, background, transient, overlaid_foreground, overlaid_transient,
}
use orb_private.OpApp.{can_transition_to_state}

-- The transitions an operator application can make.
pub data Step : AppState → AppState → Type 0 where
  stay : {s : AppState} → Step s s
  hide : {s : AppState} → Step s background
  to_transient : Step foreground transient
  from_transient : Step transient foreground
  from_overlaid_transient : Step overlaid_transient foreground
  from_overlaid_foreground : Step overlaid_foreground foreground

can_transition_to_state_complete : {s t : AppState} → Step s t → can_transition_to_state s t ≡ true
unfolding can_transition_to_state
can_transition_to_state_complete {s = foreground} stay = refl
can_transition_to_state_complete {s = background} stay = refl
can_transition_to_state_complete {s = transient} stay = refl
can_transition_to_state_complete {s = overlaid_foreground} stay = refl
can_transition_to_state_complete {s = overlaid_transient} stay = refl
can_transition_to_state_complete {s = foreground} hide = refl
can_transition_to_state_complete {s = background} hide = refl
can_transition_to_state_complete {s = transient} hide = refl
can_transition_to_state_complete {s = overlaid_foreground} hide = refl
can_transition_to_state_complete {s = overlaid_transient} hide = refl
can_transition_to_state_complete to_transient = refl
can_transition_to_state_complete from_transient = refl
can_transition_to_state_complete from_overlaid_transient = refl
can_transition_to_state_complete from_overlaid_foreground = refl

can_transition_to_state_sound : (s t : AppState) → can_transition_to_state s t ≡ true → Step s t
unfolding can_transition_to_state
can_transition_to_state_sound foreground foreground h = stay
can_transition_to_state_sound foreground background h = hide
can_transition_to_state_sound foreground transient h = to_transient
can_transition_to_state_sound background background h = stay
can_transition_to_state_sound transient foreground h = from_transient
can_transition_to_state_sound transient background h = hide
can_transition_to_state_sound transient transient h = stay
can_transition_to_state_sound overlaid_foreground foreground h = from_overlaid_foreground
can_transition_to_state_sound overlaid_foreground background h = hide
can_transition_to_state_sound overlaid_foreground overlaid_foreground h = stay
can_transition_to_state_sound overlaid_transient foreground h = from_overlaid_transient
can_transition_to_state_sound overlaid_transient background h = hide
can_transition_to_state_sound overlaid_transient overlaid_transient h = stay
can_transition_to_state_sound _ _ h = cc

-- The application can go from one state to another exactly by a step of the state machine.
pub can_transition_to_state_iff : (s t : AppState) → (can_transition_to_state s t ≡ true) ↔ Step s t
unfolding can_transition_to_state
can_transition_to_state_iff s t =
    (can_transition_to_state_sound s t, can_transition_to_state_complete)

-- The states that steps lead to.
pub data Reach : AppState → AppState → Type 0 where
  here : {s : AppState} → Reach s s
  next : {s t u : AppState} → Step s t → Reach t u → Reach s u

Reach-background_gen : {s u : AppState} → s ≡ background → Reach s u → u ≡ background
Reach-background_gen e here = e
Reach-background_gen e (next stay r) = Reach-background_gen e r
Reach-background_gen e (next hide r) = Reach-background_gen refl r
Reach-background_gen e (next to_transient r) = cc
Reach-background_gen e (next from_transient r) = cc
Reach-background_gen e (next from_overlaid_transient r) = cc
Reach-background_gen e (next from_overlaid_foreground r) = cc

-- No steps lead out of the background.
pub Reach-background : {u : AppState} → Reach background u → u ≡ background
Reach-background r = Reach-background_gen refl r
