-- ===== src/App2App/Equations.antt =====
-- What the operations on connections compute, case by case.
use orb_private.Prelude.{
  ℕ, ◌≡◌, ◌⊎◌, inl, inr, refl, sym, ap, subst, ◌∙◌, true, false, not, none, some, List, [], ◌∷◌,
  Text, text_eq, text_eq_sound, Bool-cases, Option-cases,
}
use orb_private.WebSocket.{Fragment}
use orb_private.App2App.{
  Side, other, key, App2App, set_waiting, without, pair, unpair, leave, pair_next, pair_or_wait,
  add_waiting_connection, remove_waiting_connection, get_next_waiting_connection,
  on_fragment_received, stop, on_service_stopped, on_remote_service_stopped, is_stopped,
}
use orb_private.App2App.Pairing.{is_in}

pub queue_cases : (queue : List ℕ) → (queue ≡ []) ⊎ ((d : ℕ) × (rest : List ℕ) × (queue ≡ d ∷ rest))
queue_cases [] = inl refl
queue_cases (d ∷ rest) = inr (d, rest, refl)

pub next-none :
    (t : Side) (e : Text) (st : App2App)
    → st.waiting (key t e) ≡ []
    → get_next_waiting_connection t e st ≡ (none, st)
unfolding get_next_waiting_connection
next-none t e st h = rw (get_next_waiting_connection, h) refl

pub next-some :
    (t : Side) (e : Text) (d : ℕ) (rest : List ℕ) (st : App2App)
    → st.waiting (key t e) ≡ d ∷ rest
    → get_next_waiting_connection t e st
      ≡ (some d, record st { waiting = set_waiting (key t e) rest st.waiting })
unfolding get_next_waiting_connection
next-some t e d rest st h = rw (get_next_waiting_connection, h) refl

pub pair_or_wait-none :
    (t : Side) (e : Text) (c : ℕ) (st : App2App)
    → st.waiting (key (other t) e) ≡ []
    → pair_or_wait t e c st ≡ add_waiting_connection t e c st
unfolding pair_or_wait pair_next
pair_or_wait-none t e c st h = ap (pair_next t e c) (next-none (other t) e st h)

pub pair_or_wait-some :
    (t : Side) (e : Text) (c d : ℕ) (rest : List ℕ) (st : App2App)
    → st.waiting (key (other t) e) ≡ d ∷ rest
    → pair_or_wait t e c st
      ≡ pair c d (record st { waiting = set_waiting (key (other t) e) rest st.waiting })
unfolding pair_or_wait pair_next
pair_or_wait-some t e c d rest st h = ap (pair_next t e c) (next-some (other t) e d rest st h)

pub filled : (d : ℕ) (rest : List ℕ) → [] ≡ d ∷ rest → ⊥
filled d rest h = cc

pub shrinks :
    (j : Text) (d : ℕ) (rest : List ℕ) (waiting : Text → List ℕ)
    → waiting j ≡ d ∷ rest
    → (k : Text) → waiting k ≡ []
    → set_waiting j rest waiting k ≡ []
shrinks j d rest waiting q k h = elim (Bool-cases (text_eq k j)) [
  | inr elsewhere ↦ rw elsewhere h
  | inl here ↦
      absurd (filled d rest (sym (subst (λ i. waiting i ≡ []) (text_eq_sound k j here) h) ∙ q))
]

pub without_shrinks :
    (j : Text) (c : ℕ) (waiting : Text → List ℕ) (k : Text)
    → waiting k ≡ []
    → set_waiting j (without c (waiting j)) waiting k ≡ []
unfolding without
without_shrinks j c waiting k h = elim (Bool-cases (text_eq k j)) [
  | inr elsewhere ↦ rw elsewhere h
  | inl here ↦ rw here (ap (without c) (ap waiting (sym (text_eq_sound k j here)) ∙ h))
]

pub absent :
    (t : Side) (e : Text) (c : ℕ) (waiting : Text → List ℕ)
    → (is_in c (waiting (key t e)) ≡ true → ⊥)
    → is_in c (waiting (key t e)) ≡ false
absent t e c waiting out = elim (Bool-cases (is_in c (waiting (key t e)))) [
  | inl is ↦ absurd (out is)
  | inr not_in ↦ not_in
]

pub leave-none :
    (t : Side) (e : Text) (c : ℕ) (st : App2App)
    → st.paired c ≡ none
    → leave t e c st ≡ remove_waiting_connection t e c st
unfolding leave
leave-none t e c st h = rw (leave, h) refl

pub leave-some :
    (t : Side) (e : Text) (c d : ℕ) (st : App2App)
    → st.paired c ≡ some d
    → leave t e c st ≡ unpair c d st
unfolding leave
leave-some t e c d st h = rw (leave, h) refl

-- An event that changes neither the pairs nor the queues.
abbrev pub Frames : (App2App → App2App) → Type 0
Frames f = (st : App2App) → ((f st).paired ≡ st.paired) × ((f st).waiting ≡ st.waiting)

pub on_fragment_received-Frames :
    (c : ℕ) (fragment : Fragment) → Frames (on_fragment_received c fragment)
unfolding on_fragment_received
on_fragment_received-Frames c fragment st = elim (Bool-cases (is_stopped st)) [
  | inl off ↦ rw off (refl, refl)
  | inr on ↦ elim (Option-cases (st.paired c)) [
    | inl h ↦ rw (on_fragment_received, on, h) (refl, refl)
    | inr (d, h) ↦ rw (on_fragment_received, on, h) (refl, refl)
  ]
]

pub stop-Frames : Frames stop
unfolding stop
stop-Frames st = elim (Bool-cases (is_stopped st)) [
  | inl off ↦ rw off (refl, refl)
  | inr on ↦ elim (Bool-cases (not st.is_remote_service_stopped)) [
    | inl h ↦ rw (on, h) (refl, refl)
    | inr h ↦ rw (on, h) (refl, refl)
  ]
]

pub on_service_stopped-Frames : Frames on_service_stopped
unfolding on_service_stopped
on_service_stopped-Frames st = elim (Bool-cases (not st.is_remote_service_stopped)) [
  | inl h ↦ rw h (refl, refl)
  | inr h ↦ rw h (refl, refl)
]

pub on_remote_service_stopped-Frames : Frames on_remote_service_stopped
unfolding on_remote_service_stopped
on_remote_service_stopped-Frames st = elim (Bool-cases (not st.is_service_stopped)) [
  | inl h ↦ rw h (refl, refl)
  | inr h ↦ rw h (refl, refl)
]

-- The connections have a service and a URI each.
