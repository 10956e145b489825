-- ===== src/ApplicationManager/Invariant/Steps.antt =====
-- The actions that change the running applications keep the invariant.
use orb_private.Prelude.{
  ℕ, ◌+◌, ◌≤◌, ◌≡◌, refl, sym, ap, subst, ◌∙◌, ◌⊎◌, inl, inr, Bool, true, false, not, ◌&&◌, ◌||◌,
  Option, none, some, ◌==◌, ==_refl, if◌then◌else◌, Bool-cases, arith,
}
use orb_private.Url.Locator.{is_invalid_dvb_triplet}
use orb_private.OpApp.{OpApp}
use orb_private.HbbtvApp.{HbbtvApp}
use orb_private.ApplicationManager.{
  App, hbbtv_app, op_app, Apps, base, is_some, is_op_app, lookup, erase, insert, ApplicationManager,
}
use orb_private.ApplicationManager.Running.{kill_running_app, run_app}
use orb_private.ApplicationManager.Invariant.{Entry, Owned, IsValid, After, Keeps, After-if}
use orb_private.ApplicationManager.Invariant.Ownership.{
  lookup-erase, lookup-insert, Owned-put, Owned-vacate, Owned-start_op, Owned-start_hbbtv, same_id,
  lookup-insert_self, slot_given,
}

-- A service is selected and its first AIT has been received.
abbrev pub on_service : ApplicationManager → Bool
on_service m =
    m.current_service_received_first_ait && not (is_invalid_dvb_triplet m.current_service)

abbrev pub IsRelated : Bool → Option App → Type 0
IsRelated false app = Unit
IsRelated true none = Unit
IsRelated true (some a) = (base a).is_broadcast ≡ true

-- The HbbTV application that runs on a service whose AIT has been received is broadcast-related.
-- With `s` false nothing is said of it.
abbrev pub Related : Bool → ApplicationManager → Type 0
Related s m = IsRelated (s && on_service m) (lookup m.hbbtv_app_id m.apps)

abbrev pub Inv : Bool → ApplicationManager → Type 0
Inv s m = IsValid m × Related s m

pub IsRelated-none : (b : Bool) (o : Option App) → o ≡ none → IsRelated b o
IsRelated-none true none e = tt
IsRelated-none false none e = tt
IsRelated-none true (some a) e = cc
IsRelated-none false (some a) e = tt

pub IsRelated-some : (b : Bool) (a : App) → (base a).is_broadcast ≡ true → IsRelated b (some a)
IsRelated-some true a h = h
IsRelated-some false a h = tt

no_entry : (hbbtv op last : ℕ) (o : Option App) → Entry hbbtv op last 0 o → o ≡ none
no_entry hbbtv op last none e = refl
no_entry hbbtv op last (some a) e = absurd (e.1 refl)

-- No application has the id 0.
pub lookup_zero : (m : ApplicationManager) → IsValid m → lookup 0 m.apps ≡ none
lookup_zero m v = no_entry m.hbbtv_app_id m.op_app_id m.last_id (lookup 0 m.apps) (v.entries 0)

-- An application is changed; it keeps its id and its class, and stays broadcast-related if it was.
pub record Adapts (a b : App) : Type 0 where
  pub id : (base b).id ≡ (base a).id
  pub class : is_op_app b ≡ is_op_app a
  pub related : ((base b).is_broadcast ≡ (base a).is_broadcast) ⊎ ((base b).is_broadcast ≡ true)

IsRelated-Adapts : (s : Bool) (a b : App) → Adapts a b → IsRelated s (some a) → IsRelated s (some b)
IsRelated-Adapts false a b d r = tt
IsRelated-Adapts true a b d r = elim (d.related) [ inl e ↦ e ∙ r | inr e ↦ e ]

pub put-Inv :
    (s : Bool) (k : ℕ) (a b : App) (m : ApplicationManager)
    → lookup k m.apps ≡ some a
    → Adapts a b
    → Inv s m
    → Inv s (record m { apps = insert k b m.apps })
put-Inv s k a b m e d (v, r) = (
  Owned-put m.apps m.hbbtv_app_id m.op_app_id m.last_id k a b v e d.id d.class,
  subst (IsRelated (s && on_service m)) (sym (lookup-insert m.hbbtv_app_id k b m.apps))
      (elim (Bool-cases (k == m.hbbtv_app_id)) [
        | inr far ↦ rw far r
        | inl here ↦ rw here (
            IsRelated-Adapts (s && on_service m) a b d (
              subst (IsRelated (s && on_service m))
                (ap (λ i. lookup i m.apps) (sym (same_id here)) ∙ e) r))
      ]),
)

pub vacated_hbbtv :
    (s : Bool) (id : ℕ) (m : ApplicationManager)
    → m.hbbtv_app_id ≡ id
    → IsValid m
    → Inv s (record m { apps = erase id m.apps; hbbtv_app_id = 0 })
vacated_hbbtv s id m e v =
    let w : Owned (erase id m.apps) 0 m.op_app_id m.last_id =
      subst (λ i. Owned (erase i m.apps) 0 m.op_app_id m.last_id) e
        (Owned-vacate false m.apps m.hbbtv_app_id m.op_app_id m.last_id v) in
    (
      w,
      IsRelated-none (s && on_service m) (lookup 0 (erase id m.apps))
          (lookup_zero (record m { apps = erase id m.apps; hbbtv_app_id = 0 }) w),
    )

vacated_op :
    (s : Bool) (id : ℕ) (m : ApplicationManager)
    → m.op_app_id ≡ id
    → (id == m.hbbtv_app_id) ≡ false
    → Inv s m
    → Inv s (record m { apps = erase id m.apps; op_app_id = 0 })
vacated_op s id m e ne (v, r) = (
  subst (λ i. Owned (erase i m.apps) m.hbbtv_app_id 0 m.last_id) e
      (Owned-vacate true m.apps m.hbbtv_app_id m.op_app_id m.last_id v),
  subst (IsRelated (s && on_service m)) (sym (lookup-erase m.hbbtv_app_id id m.apps)) (rw ne r),
)

same_flip : (a b : ℕ) → (a == b) ≡ true → b ≡ a
same_flip a b h = sym (same_id h)

op_slot_of :
    (hbbtv op id : ℕ) (running : Bool)
    → ((hbbtv == id || op == id) && running) ≡ true
    → (id == hbbtv) ≡ false
    → op ≡ id
op_slot_of hbbtv op id running h far = ground arith

pub kill_running_app-Inv : (s : Bool) (id : ℕ) → Keeps (Inv s) (kill_running_app id)
unfolding kill_running_app
kill_running_app-Inv s id m i =
    After-if (λ _. Inv s)
      ((m.hbbtv_app_id == id || m.op_app_id == id) && is_some (lookup id m.apps)) _ _ m
      (λ h. elim (Bool-cases (id == m.hbbtv_app_id)) [
        | inl here ↦ rw here (vacated_hbbtv s id m (same_flip id m.hbbtv_app_id here) i.0)
        | inr far ↦ rw far (
            vacated_op s id m
              (op_slot_of m.hbbtv_app_id m.op_app_id id (is_some (lookup id m.apps)) h far) far i)
      ])
      (λ _. i)

-- The state when an application with the next id is run.
abbrev pub Ready : Bool → App → ApplicationManager → Type 0
Ready s app m =
    (last : ℕ) × (m.last_id ≡ last + 1)
    × ((base app).id ≡ last + 1)
    × Owned m.apps m.hbbtv_app_id m.op_app_id last
    × Related s m

IsRelated-stopped : (s received : Bool) (o : Option App) → IsRelated (s && (received && false)) o
IsRelated-stopped false received o = tt
IsRelated-stopped true true o = tt
IsRelated-stopped true false o = tt

IsRelated-run :
    (s received invalid : Bool) (a : App)
    → (not (base a).is_broadcast && not invalid) ≡ false
    → IsRelated (s && (received && not invalid)) (some a)
IsRelated-run false received invalid a h = tt
IsRelated-run true false invalid a h = tt
IsRelated-run true true true a h = tt
IsRelated-run true true false a h = ground arith

ran_hbbtv :
    (a : HbbtvApp) (apps : Apps) (hbbtv op last given : ℕ)
    → given ≡ last + 1
    → a.id ≡ last + 1
    → Owned apps hbbtv op last
    → Owned (insert a.id (hbbtv_app a) (erase hbbtv apps)) a.id op given
ran_hbbtv a apps hbbtv op last given e id v =
    subst (λ k. Owned (insert k (hbbtv_app a) (erase hbbtv apps)) k op given) (sym id)
      (subst (λ n. Owned (insert (last + 1) (hbbtv_app a) (erase hbbtv apps)) (last + 1) op n)
        (sym e)
        (Owned-start_hbbtv (erase hbbtv apps) op last (hbbtv_app a)
          (Owned-vacate false apps hbbtv op last v) refl id))

ran_op :
    (o : OpApp) (apps : Apps) (hbbtv op last given : ℕ)
    → given ≡ last + 1
    → o.app.id ≡ last + 1
    → Owned apps hbbtv op last
    → Owned (insert o.app.id (op_app o) (erase op apps)) hbbtv o.app.id given
ran_op o apps hbbtv op last given e id v =
    subst (λ k. Owned (insert k (op_app o) (erase op apps)) hbbtv k given) (sym id)
      (subst (λ n. Owned (insert (last + 1) (op_app o) (erase op apps)) hbbtv (last + 1) n) (sym e)
        (Owned-start_op (erase op apps) hbbtv last (op_app o)
          (Owned-vacate true apps hbbtv op last v) refl id))

-- An operator application that is started leaves what is known of the other.
IsRelated-other :
    (s : Bool) (apps : Apps) (hbbtv op k : ℕ) (b : App)
    → (k == hbbtv) ≡ false
    → IsRelated s (lookup hbbtv apps)
    → IsRelated s (lookup hbbtv (insert k b (erase op apps)))
IsRelated-other s apps hbbtv op k b far r =
    let at_other : lookup hbbtv (insert k b (erase op apps))
        ≡ (if op == hbbtv then none else lookup hbbtv apps) =
      lookup-insert hbbtv k b (erase op apps) ∙ rw far (lookup-erase hbbtv op apps) in
    subst (IsRelated s) (sym at_other) (elim (Bool-cases (op == hbbtv)) [
      | inl here ↦ rw here (IsRelated-none s none refl)
      | inr other ↦ rw other r
    ])

pub run_app-Inv :
    (s : Bool) (app : App) (m : ApplicationManager)
    → Ready s app m
    → After (λ _. Inv s) (run_app app) m
unfolding run_app is_invalid_dvb_triplet
run_app-Inv s (hbbtv_app a) m (last, given, id, v, r) =
    let owned = ran_hbbtv a m.apps m.hbbtv_app_id m.op_app_id last m.last_id given id v in
    let here = lookup-insert_self a.id (hbbtv_app a) (erase m.hbbtv_app_id m.apps) in
    elim (Bool-cases (not a.is_broadcast && not (is_invalid_dvb_triplet m.current_service))) [
      | inl stops ↦ rw stops (owned, IsRelated-stopped s m.current_service_received_first_ait _)
      | inr stays ↦ rw stays (
        owned,
        subst (IsRelated (s && on_service m)) (sym here) (
            IsRelated-run s m.current_service_received_first_ait
              (is_invalid_dvb_triplet m.current_service) (hbbtv_app a) stays),
      )
    ]
run_app-Inv s (op_app o) m (last, given, id, v, r) =
    let owned = ran_op o m.apps m.hbbtv_app_id m.op_app_id last m.last_id given id v in
    let old : m.hbbtv_app_id ≤ last = slot_given m.apps m.hbbtv_app_id m.op_app_id last v in
    let far : (o.app.id == m.hbbtv_app_id) ≡ false = ground arith in
    elim (Bool-cases (not o.app.is_broadcast && not (is_invalid_dvb_triplet m.current_service))) [
      | inl stops ↦ rw stops (owned, IsRelated-stopped s m.current_service_received_first_ait _)
      | inr stays ↦ rw stays (
        owned,
        IsRelated-other (s && on_service m) m.apps m.hbbtv_app_id m.op_app_id o.app.id (op_app o)
            far r,
      )
    ]

pub not_running :
    (id : ℕ) (other : Bool) (o : Option App) → ((id == id || other) && is_some o) ≡ false → o ≡ none
not_running id other none h = refl
not_running id other (some a) h = ground (arith, ==_refl id)

-- Killing the HbbTV application makes what is known of it hold.
pub kill_hbbtv_app-Inv :
    (m : ApplicationManager)
    → Inv false m
    → After (λ _. Inv true) (kill_running_app m.hbbtv_app_id) m
unfolding kill_running_app
kill_hbbtv_app-Inv m i =
    After-if (λ _. Inv true)
      ((m.hbbtv_app_id == m.hbbtv_app_id || m.op_app_id == m.hbbtv_app_id)
        && is_some (lookup m.hbbtv_app_id m.apps))
      _ _ m (λ _. rw (==_refl m.hbbtv_app_id) (vacated_hbbtv true m.hbbtv_app_id m refl i.0))
      (λ h. (i.0, IsRelated-none (on_service m) _ (not_running m.hbbtv_app_id _ _ h)))
