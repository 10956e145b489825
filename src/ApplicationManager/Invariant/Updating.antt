-- ===== src/ApplicationManager/Invariant/Updating.antt =====
-- Updating the running application, and its transitions, keep the invariant.
use orb_private.Prelude.{
  ℕ, ◌≡◌, refl, sym, ap, ◌∙◌, ◌⊎◌, inl, inr, subst, Bool, true, false, ◌||◌, Option, none, some,
  List, ◌==◌, Bool-cases,
}
use orb_private.Ait.{AitAppDesc, AitTable}
use orb_private.Ait.Section.{get}
use orb_private.Ait.Select.{find_app}
use orb_private.HbbtvApp
use orb_private.HbbtvApp.{
  HbbtvApp, AppState, foreground, same_state, Event, Updated, not_allowed, updated, update,
}
use orb_private.HbbtvApp.Update.{SameIdentity, update-Follows}
use orb_private.HbbtvApp.Broadcast.{
  may_be_broadcast_related, transition_to_broadcast_related-branches,
}
use orb_private.OpApp
use orb_private.OpApp.{OpApp}
use orb_private.ApplicationManager.{
  App, hbbtv_app, op_app, base, with_base, is_op_app, lookup, insert, Session, ApplicationManager,
  Action, pure, lift, ◌>>=◌,
}
use orb_private.ApplicationManager.Running.{
  update_running_app, put_updated, app_to_broadcast_related, find_in, element,
  transition_running_app_to_broadcast_related, transition_running_app_to_broadcast_independent,
}
use orb_private.ApplicationManager.Invariant.{
  IsValid, After, After-if, After-or_else, After-lift, After-bind,
}
use orb_private.ApplicationManager.Invariant.Ownership.{Owned-put, lookup-insert_self}
use orb_private.ApplicationManager.Invariant.Steps.{
  Inv, IsRelated, IsRelated-some, on_service, Adapts, put-Inv,
}

pub base-with_base : (a : HbbtvApp) (app : App) → base (with_base a app) ≡ a
base-with_base a (hbbtv_app b) = refl
base-with_base a (op_app o) = refl

is_op_app-with_base : (a : HbbtvApp) (app : App) → is_op_app (with_base a app) ≡ is_op_app app
is_op_app-with_base a (hbbtv_app b) = refl
is_op_app-with_base a (op_app o) = refl

-- A change of the part that is an HbbTVApp, which keeps the id and the kind.
pub with_base-Adapts :
    (a : HbbtvApp) (app : App)
    → a.id ≡ (base app).id
    → a.is_broadcast ≡ (base app).is_broadcast
    → Adapts app (with_base a app)
with_base-Adapts a app id kind = record {
  id = ap (λ b. b.id) (base-with_base a app) ∙ id;
  class = is_op_app-with_base a app;
  related = inl (ap (λ b. b.is_broadcast) (base-with_base a app) ∙ kind);
}

-- The invariant, and the slot of the HbbTV application as it was.
abbrev pub Stays : Bool → ℕ → ApplicationManager → Type 0
Stays s id m = Inv s m × (m.hbbtv_app_id ≡ id)

put_updated-Stays :
    (s : Bool) (id : ℕ) (app : App) (result : Updated) (m : ApplicationManager)
    → lookup id m.apps ≡ some app
    → Inv s m
    → ((a : HbbtvApp) (es : List Event) → result ≡ updated a es → SameIdentity (base app) a)
    → After (λ _. Stays s m.hbbtv_app_id) (put_updated id app result) m
unfolding put_updated
put_updated-Stays s id app not_allowed m found i same = (i, refl)
put_updated-Stays s id app (updated a es) m found i same =
    let kept = same a es refl in
    (
      put-Inv s id app (with_base a app) m found (with_base-Adapts a app kept.id kept.is_broadcast)
          i,
      refl,
    )

pub update_running_app-Stays :
    (s : Bool) (session : Session) (desc : AitAppDesc) (m : ApplicationManager)
    → Inv s m
    → After (λ _. Stays s m.hbbtv_app_id) (update_running_app session desc) m
unfolding update_running_app
update_running_app-Stays s session desc m i =
    After-lift (λ _. Stays s m.hbbtv_app_id) (lookup m.hbbtv_app_id m.apps) _ m
      (λ app found.
        After-lift (λ _. Stays s m.hbbtv_app_id)
          (update session.control desc m.is_network_available (base app))
          (put_updated m.hbbtv_app_id app) m
          (λ result e. put_updated-Stays s m.hbbtv_app_id app result m found i (λ a es is.
            (update-Follows session.control desc m.is_network_available (base app) a es
              (e ∙ ap some is)).0)))

-- What a transition of an application to broadcast-related makes of it.
abbrev pub Transitions : HbbtvApp → HbbtvApp → Bool → Type 0
Transitions a b ok =
    (b.id ≡ a.id) × ((b.is_broadcast ≡ true) ⊎ ((b.is_broadcast ≡ a.is_broadcast) × (ok ≡ false)))

transition-Transitions :
    (a : HbbtvApp) → let r = HbbtvApp.transition_to_broadcast_related a in Transitions a r.0 r.2
transition-Transitions a =
    subst (λ (r : HbbtvApp × List Event × Bool). Transitions a r.0 r.2)
      (sym (transition_to_broadcast_related-branches a))
      (elim (Bool-cases (may_be_broadcast_related a)) [
        | inl may ↦ rw may (refl, inl refl)
        | inr not_yet ↦ rw not_yet (refl, inr (refl, refl))
      ])

op_transition-Transitions :
    (o : OpApp) → let r = OpApp.transition_to_broadcast_related o in Transitions o.app r.0.app r.2
unfolding OpApp.transition_to_broadcast_related
op_transition-Transitions o = elim (Bool-cases (same_state o.app.state foreground)) [
  | inl front ↦ rw front (transition-Transitions o.app)
  | inr back ↦ rw back (refl, inr (refl, refl))
]

told :
    (ok : Bool) (a : HbbtvApp) (new : App) → Transitions a (base new) ok → IsRelated ok (some new)
told ok a new (id, inl is) = IsRelated-some ok new is
told ok a new (id, inr (same, failed)) = rw failed tt

Transitions-Adapts :
    (app new : App) (ok : Bool)
    → is_op_app new ≡ is_op_app app
    → Transitions (base app) (base new) ok
    → Adapts app new
Transitions-Adapts app new ok class (id, inl is) = record {
  id = id;
  class = class;
  related = inr is;
}
Transitions-Adapts app new ok class (id, inr (same, failed)) = record {
  id = id;
  class = class;
  related = inl same;
}

-- After a transition: the result tells that the application is broadcast-related.
abbrev pub Tells : Bool → ℕ → ℕ → Bool → ApplicationManager → Type 0
Tells s id hbbtv ok m = Stays s hbbtv m × IsRelated ok (lookup id m.apps)

Tells-put :
    (s : Bool) (id : ℕ) (app new : App) (ok : Bool) (m : ApplicationManager)
    → lookup id m.apps ≡ some app
    → is_op_app new ≡ is_op_app app
    → Transitions (base app) (base new) ok
    → Inv s m
    → Tells s id m.hbbtv_app_id ok (record m { apps = insert id new m.apps })
Tells-put s id app new ok m found class t i = (
  (put-Inv s id app new m found (Transitions-Adapts app new ok class t) i, refl),
  subst (IsRelated ok) (sym (lookup-insert_self id new m.apps)) (told ok (base app) new t),
)

app_to_broadcast_related-Tells :
    (s : Bool) (id : ℕ) (app : App) (m : ApplicationManager)
    → lookup id m.apps ≡ some app
    → Inv s m
    → After (Tells s id m.hbbtv_app_id) (app_to_broadcast_related id app) m
unfolding app_to_broadcast_related
app_to_broadcast_related-Tells s id (hbbtv_app a) m found i =
    let r = HbbtvApp.transition_to_broadcast_related a in
    Tells-put s id (hbbtv_app a) (hbbtv_app r.0) r.2 m found refl (transition-Transitions a) i
app_to_broadcast_related-Tells s id (op_app o) m found i =
    let r = OpApp.transition_to_broadcast_related o in
    Tells-put s id (op_app o) (op_app r.0) r.2 m found refl (op_transition-Transitions o) i

-- Looking for an application changes nothing.
module _ {B : Type 0} (R : B → ApplicationManager → Type 0) (table : AitTable) where
  found_at :
      (at : Option (Option ℕ)) (f : Option AitAppDesc → Action B) (m : ApplicationManager)
      → ((o : Option AitAppDesc) → After R (f o) m)
      → After R ((lift at >>= (λ i. pure (element table i))) >>= f) m
  found_at none f m k = tt
  found_at (some i) f m k = k (element table i)

  pub After-find :
      (org_id app_id : ℕ) (f : Option AitAppDesc → Action B) (m : ApplicationManager)
      → ((o : Option AitAppDesc) → After R (f o) m)
      → After R (find_in table org_id app_id >>= f) m
  After-find org_id app_id f m k = found_at (find_app (some table) org_id app_id) f m k

pub transition_to_related-Tells :
    (s : Bool) (session : Session) (m : ApplicationManager)
    → Inv s m
    → After
        (Tells s m.hbbtv_app_id m.hbbtv_app_id)
        (transition_running_app_to_broadcast_related session)
        m
unfolding transition_running_app_to_broadcast_related
transition_to_related-Tells s session m i =
    let id = m.hbbtv_app_id in
    let T = Tells s id id in
    After-or_else T (get m.ait) _ _ m (λ _. ((i, refl), tt))
      (λ table _.
        After-or_else T (lookup id m.apps) _ _ m (λ _. ((i, refl), tt))
          (λ a _.
            let desc = (base a).ait_desc in
            After-if T (desc.app_id == 0 || desc.org_id == 0) _ _ m (λ _. ((i, refl), tt))
              (λ _. After-find T table desc.org_id desc.app_id _ m (λ signalled.
                After-or_else T signalled _ _ m (λ _. ((i, refl), tt))
                  (λ new_desc _.
                    After-bind (λ _. Stays s id) T (update_running_app session new_desc) _ m
                      (update_running_app-Stays s session new_desc m i)
                      (λ is_updated m' (i', e).
                        After-if T is_updated _ _ m'
                          (λ _.
                            After-lift T (lookup id m'.apps) (app_to_broadcast_related id) m'
                              (λ current found.
                                subst
                                  (λ h.
                                    After (Tells s id h) (app_to_broadcast_related id current) m')
                                  e (app_to_broadcast_related-Tells s id current m' found i')))
                          (λ _. ((i', e), tt))))))))

-- An application that is not broadcast-related, if there is one.
abbrev pub IsIndependent : Option App → Type 0
IsIndependent none = Unit
IsIndependent (some a) = (base a).is_broadcast ≡ false

-- The invariant after the transition to broadcast-independent, which does not fail.
abbrev pub Independent : ApplicationManager → Bool → ApplicationManager → Type 0
Independent m ok m' =
    IsValid m'
    × (on_service m' ≡ on_service m)
    × (m'.current_service ≡ m.current_service)
    × IsIndependent (lookup m'.hbbtv_app_id m'.apps)
    × (ok ≡ true)

IsIndependent-none : (o : Option App) → o ≡ none → IsIndependent o
IsIndependent-none none h = tt
IsIndependent-none (some a) h = cc

pub transition_to_independent-Independent :
    (m : ApplicationManager)
    → IsValid m
    → After (Independent m) transition_running_app_to_broadcast_independent m
unfolding transition_running_app_to_broadcast_independent
    HbbtvApp.transition_to_broadcast_independent
transition_to_independent-Independent m v =
    After-or_else (Independent m) (lookup m.hbbtv_app_id m.apps) _ _ m
      (λ missing. (v, refl, refl, IsIndependent-none (lookup m.hbbtv_app_id m.apps) missing, refl))
      (λ a found.
        let new = record (base a) { is_broadcast = false } in
        (
          Owned-put m.apps m.hbbtv_app_id m.op_app_id m.last_id m.hbbtv_app_id a (with_base new a) v
              found (ap (λ b. b.id) (base-with_base new a)) (is_op_app-with_base new a),
          refl,
          refl,
          subst IsIndependent (sym (lookup-insert_self m.hbbtv_app_id (with_base new a) m.apps))
              (ap (λ b. b.is_broadcast) (base-with_base new a)),
          refl,
        ))
