-- ===== src/OpApp/Identity.antt =====
-- A request for a state keeps the application's id and whether it is broadcast-related.
use orb_private.Prelude.{
  ℕ, ◌≡◌, refl, subst, Bool, true, false, not, Option, none, some, List, [], ◌>>=◌, Bool-cases, inl,
  inr,
}
use orb_private.Timeout.{Timeout}
use orb_private.HbbtvApp
use orb_private.HbbtvApp.{
  HbbtvApp, AppState, foreground, background, transient, overlaid_foreground, overlaid_transient,
  same_state, Event,
}
use orb_private.OpApp
use orb_private.OpApp.{OpApp, can_transition_to_state, change_state, count_down}

-- A change of an HbbTVApp that keeps its id and its kind.
abbrev pub Same : HbbtvApp → HbbtvApp → Type 0
Same a b = (b.id ≡ a.id) × (b.is_broadcast ≡ a.is_broadcast)

pub set_state-Same : (state : AppState) (a : HbbtvApp) → Same a (HbbtvApp.set_state state a).0
unfolding HbbtvApp.set_state
set_state-Same foreground a = elim (Bool-cases (same_state foreground a.state)) [
  | inl h ↦ rw h (refl, refl)
  | inr h ↦ rw h (refl, refl)
]
set_state-Same background a = elim (Bool-cases (same_state background a.state)) [
  | inl h ↦ rw h (refl, refl)
  | inr h ↦ rw h (refl, refl)
]
set_state-Same transient a = (refl, refl)
set_state-Same overlaid_foreground a = (refl, refl)
set_state-Same overlaid_transient a = (refl, refl)

change_state-Same : (state : AppState) (a : HbbtvApp) → Same a (change_state state a).0
unfolding change_state
change_state-Same state a = elim (Bool-cases (not (same_state state a.state))) [
  | inl h ↦ rw h (refl, refl)
  | inr h ↦ rw h (refl, refl)
]

counted_down :
    (c : Option Timeout) (a : HbbtvApp) (es : List Event) (o' : OpApp) (es' : List Event)
    (ok : Bool)
    → ◌>>=◌ {B = OpApp × List Event × Bool} c
        (λ c'. some (record { app = a; countdown = c' }, es, true))
      ≡ some (o', es', ok)
    → a ≡ o'.app
counted_down none a es o' es' ok h = cc
counted_down (some c) a es o' es' ok h = cc

not_changed :
    (o o' : OpApp) (es : List Event) (ok : Bool)
    → ◌≡◌ {A = Option (OpApp × List Event × Bool)} (some (o, [], false)) (some (o', es, ok))
    → o ≡ o'
not_changed o o' es ok h = cc

pub op_set_state-Same :
    (now : ℕ) (state : AppState) (o o' : OpApp) (es : List Event) (ok : Bool)
    → OpApp.set_state false now state o ≡ some (o', es, ok)
    → Same o.app o'.app
unfolding OpApp.set_state
op_set_state-Same now state o o' es ok h =
    elim (Bool-cases (can_transition_to_state o.app.state state)) [
      | inl can ↦
          let changed = change_state state o.app in
          let same =
            counted_down (count_down false now state o.countdown) changed.0 changed.1 o' es ok
              (rw can at h) in
          subst (Same o.app) same (change_state-Same state o.app)
      | inr cannot ↦
          let same = not_changed o o' es ok (rw cannot at h) in
          subst (λ x. Same o.app x.app) same (refl, refl)
    ]
