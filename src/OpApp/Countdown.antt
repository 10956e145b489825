-- ===== src/OpApp/Countdown.antt =====
-- Sequences of requests to an operator application, made outside of the countdown's thread, and the
-- countdown's expiry.
use orb_private.Prelude.{
  ℕ, ◌≡◌, refl, sym, ap, subst, ◌∙◌, Bool, true, false, not, ◌||◌, Option, some, List, [], ◌∷◌,
  ◌++◌, inl, inr, Bool-cases, if◌then◌else◌, ◌>>=◌,
}
use orb_private.Timeout.{Timeout}
use orb_private.Timeout
use orb_private.HbbtvApp.{
  AppState, foreground, background, transient, overlaid_foreground, overlaid_transient, same_state,
  Event, HbbtvApp,
}
use orb_private.HbbtvApp.Broadcast.{visible_after, visible_after-append, is_visible}
use orb_private.OpApp.{OpApp, can_transition_to_state, change_state, count_down, set_state}
use orb_private.OpApp.Transitions.{
  Step, stay, Reach, here, next, Reach-background, can_transition_to_state_iff,
}

abbrev pub is_transient : AppState → Bool
is_transient s = same_state s transient || same_state s overlaid_transient

-- The countdown has a thread exactly while the state is a transient one.
abbrev pub Counts : OpApp → Type 0
Counts o =
    (o.countdown.joinable ≡ is_transient o.app.state)
    × (o.countdown.stopped ≡ not (is_transient o.app.state))

-- What a request must do: it moves the application by a step or leaves it, and the events tell what
-- is shown.
pub record IsRequest (o o' : OpApp) (es : List Event) : Type 0 where
  pub step : Step o.app.state o'.app.state
  pub counts : Counts o'
  pub visible : visible_after (is_visible o.app.state) es ≡ is_visible o'.app.state

same_state_sound : (s t : AppState) → same_state s t ≡ true → s ≡ t
same_state_sound foreground foreground h = refl
same_state_sound background background h = refl
same_state_sound transient transient h = refl
same_state_sound overlaid_foreground overlaid_foreground h = refl
same_state_sound overlaid_transient overlaid_transient h = refl
same_state_sound _ _ h = cc

change_state-state : (s : AppState) (a : HbbtvApp) → (change_state s a).0.state ≡ s
unfolding change_state
change_state-state s a = elim (Bool-cases (same_state s a.state)) [
  | inl h ↦ rw h (sym (same_state_sound s a.state h))
  | inr h ↦ rw h refl
]

change_state-visible :
    (s : AppState) (a : HbbtvApp)
    → visible_after (is_visible a.state) (change_state s a).1 ≡ is_visible s
unfolding change_state visible_after
change_state-visible s a = elim (Bool-cases (same_state s a.state)) [
  | inl h ↦ rw h (ap is_visible (sym (same_state_sound s a.state h)))
  | inr h ↦
      rw h (elim (Bool-cases (same_state s background)) [ inl k ↦ rw k refl | inr k ↦ rw k refl ])
]

not-true : (b : Bool) → false ≡ not b → b ≡ true
not-true true h = refl
not-true false h = cc

stop-Stopped :
    (c : Timeout)
    → (c.joinable ≡ not c.stopped)
    → (c' : Timeout) × (Timeout.stop false c ≡ some c')
      × (c'.joinable ≡ false)
      × (c'.stopped ≡ true)
unfolding Timeout.stop
stop-Stopped c h = elim (Bool-cases c.joinable) [
  | inl j ↦ (record c { stopped = true; joinable = false }, rw j refl, refl, refl)
  | inr j ↦ (c, rw j refl, j, not-true c.stopped (sym j ∙ h))
]

not-not : (b : Bool) → not (not b) ≡ b
not-not true = refl
not-not false = refl

count_down-Counts :
    (now : ℕ) (s : AppState) (c : Timeout)
    → (c.joinable ≡ not c.stopped)
    → (c' : Timeout) × (count_down false now s c ≡ some c')
      × (c'.joinable ≡ is_transient s)
      × (c'.stopped ≡ not (is_transient s))
unfolding count_down Timeout.start
count_down-Counts now s c h =
    let (c1, stopped, joinable1, stopped1) = stop-Stopped c h in
    elim (Bool-cases (is_transient s)) [
      | inl t ↦ (
        record { joinable = true; stopped = false; timeout = 60000; start_timestamp = now },
        rw t (rw stopped refl),
        sym t,
        rw t refl,
      )
      | inr t ↦ (c1, rw t stopped, rw t joinable1, rw t stopped1)
    ]

-- Whatever state is requested of an application whose countdown runs exactly in a transient
-- state, outside of the countdown's thread: there is no fault, the request succeeds exactly if
-- the transition is allowed, the state then is the one requested and otherwise the old one, it
-- has changed by a step of the state machine, the countdown runs exactly in a transient state,
-- and the events tell what is shown.
pub set_state-IsRequest :
    (now : ℕ) (s : AppState) (o : OpApp)
    → Counts o
    → (o' : OpApp) × (es : List Event) × (ok : Bool) × (set_state false now s o ≡ some (o', es, ok))
      × (ok ≡ can_transition_to_state o.app.state s)
      × (o'.app.state ≡ (if ok then s else o.app.state))
      × IsRequest o o' es
unfolding set_state visible_after
set_state-IsRequest now s o c = elim (Bool-cases (can_transition_to_state o.app.state s)) [
  | inl h ↦
      let (c', counted, joinable, stopped) =
        count_down-Counts now s o.countdown
          (c.0 ∙ sym (ap not c.1 ∙ not-not (is_transient o.app.state))) in
      let changed = change_state s o.app in
      let same = change_state-state s o.app in
      (
        record { app = changed.0; countdown = c' },
        changed.1,
        true,
        rw h (rw counted refl),
        sym h,
        same,
        record {
          step =
              subst (λ t. Step o.app.state t) (sym same)
                ((can_transition_to_state_iff o.app.state s).0 h);
          counts = (
            joinable ∙ ap is_transient (sym same),
            stopped ∙ ap (λ t. not (is_transient t)) (sym same),
          );
          visible = change_state-visible s o.app ∙ ap is_visible (sym same);
        },
      )
  | inr h ↦
      (o, [], false, rw h refl, sym h, refl, record { step = stay; counts = c; visible = refl })
]

-- Requests one after the other, each with its time.
unfoldable pub set_states : List (ℕ × AppState) → OpApp → Option (OpApp × List Event)
set_states [] o = some (o, [])
set_states ((now, s) ∷ rs) o = do
  first ← set_state false now s o
  rest ← set_states rs first.0
  some (rest.0, first.1 ++ rest.1)

-- From an application whose countdown runs exactly in a transient state, any sequence of requests
-- is served without a fault. It leads along the steps of the state machine, leaves the countdown
-- running exactly in a transient state, and its events tell what is shown.
pub set_states-Reach :
    (rs : List (ℕ × AppState)) (o : OpApp)
    → Counts o
    → (o' : OpApp) × (es : List Event) × (set_states rs o ≡ some (o', es))
      × Reach o.app.state o'.app.state
      × Counts o'
      × (visible_after (is_visible o.app.state) es ≡ is_visible o'.app.state)
unfolding set_states visible_after
set_states-Reach [] o c = (o, [], refl, here, c, refl)
set_states-Reach ((now, s) ∷ rs) o c =
    let (o1, es1, ok, first, _, _, r1) = set_state-IsRequest now s o c in
    let (o2, es2, rest, reach, c2, visible) = set_states-Reach rs o1 r1.counts in
    (
      o2,
      es1 ++ es2,
      rw first (rw rest refl),
      next r1.step reach,
      c2,
      visible_after-append (is_visible o.app.state) es1 es2
          ∙ ap (λ v. visible_after v es2) r1.visible
          ∙ visible,
    )

-- An operator application in the background, with its countdown stopped, stays there: any
-- sequence of requests is served without a fault, and it ends in the background with its
-- countdown stopped.
pub set_states-background :
    (rs : List (ℕ × AppState)) (o : OpApp)
    → Counts o
    → o.app.state ≡ background
    → (o' : OpApp) × (es : List Event) × (set_states rs o ≡ some (o', es))
      × (o'.app.state ≡ background)
      × (o'.countdown.stopped ≡ true)
set_states-background rs o c h =
    let (o', es, served, reach, counts, _) = set_states-Reach rs o c in
    let end = Reach-background (subst (λ s. Reach s o'.app.state) h reach) in
    (o', es, served, end, counts.1 ∙ ap (λ s. not (is_transient s)) end)
