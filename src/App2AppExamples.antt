-- ===== src/App2AppExamples.antt =====
-- The theorems on paired connections at two that are paired.
use orb_private.Prelude.{
  ℕ, ◌≡◌, ◌⊎◌, inl, inr, refl, sym, subst, true, false, none, some, [], ◌∷◌, ◌++◌, Text, codes,
  text_eq, find, starts_with, is_empty, ◌==◌, if◌then◌else◌, Bool-cases,
}
use orb_private.WebSocket.{Fragment}
use orb_private.App2App.{
  Side, local, remote, other, key, App2App, send_fragment, new_service, set_waiting, connect,
  disconnect, pair_or_wait, pair_next, pair, get_next_waiting_connection, add_waiting_connection,
  get_app_end_point, is_stopped, on_fragment_received,
}
use orb_private.App2App.Invariant.{IsValid, Unknown, endpoint}
use orb_private.App2App.Pairing.{clash, is_in}
use orb_private.App2App.Events.{
  Visited, initial, connected, Visited-IsValid, disconnect-Unknown, on_fragment_received-partner,
}

-- The first connection is local, the others are remote.
abbrev side : ℕ → Side
side c = if c == 1 then local else remote

abbrev uri : ℕ → Text
uri c = codes "/hbbtv/a"

abbrev waiting_one : App2App
waiting_one = record new_service {
  waiting = set_waiting (key local (codes "a")) (1 ∷ []) (λ k. []);
}

abbrev paired_two : App2App
paired_two = (connect remote (uri 2) 2 waiting_one).1

-- The first connection waits, and the second one is paired with it.
first : (connect local (uri 1) 1 new_service).1 ≡ waiting_one
unfolding connect pair_or_wait pair_next get_next_waiting_connection add_waiting_connection
    get_app_end_point find starts_with
first = refl

reached_one : Visited side uri waiting_one
unfolding is_in
reached_one = subst (Visited side uri) first (
    connected 1 initial
      (record { alone = refl; no_partner = λ d h. clash (sym h); not_waiting = λ t e. refl }))

reached : Visited side uri paired_two
unfolding is_in
reached = connected 2 reached_one (record {
  alone = refl;
  no_partner = λ d h. clash (sym h);
  not_waiting = λ t e. elim (Bool-cases (text_eq (key t e) (key local (codes "a")))) [
    | inl h ↦ rw h refl
    | inr h ↦ rw h refl
  ];
})

runs : (is_stopped paired_two ≡ false) × (is_empty (endpoint uri 1) ≡ false)
unfolding connect pair_or_wait pair_next get_next_waiting_connection pair get_app_end_point find
    starts_with text_eq
runs = (refl, refl)

Visited-IsValid_example : IsValid side (endpoint uri) paired_two
Visited-IsValid_example = Visited-IsValid side uri paired_two reached

disconnect-Unknown_example : Unknown side (endpoint uri) 1 (disconnect local (uri 1) 1 paired_two)
disconnect-Unknown_example = disconnect-Unknown side uri 1 paired_two reached runs.0 runs.1

abbrev fragment : Fragment
fragment = record { data_bytes = 104 ∷ []; is_first = true; is_final = true; is_binary = false }

on_fragment_received-partner_example :
    ((paired_two.paired 1 ≡ none)
      × ((on_fragment_received 1 fragment paired_two).sent ≡ paired_two.sent))
    ⊎ ((d : ℕ) × (paired_two.paired 1 ≡ some d)
        × (side d ≡ other local)
        × (endpoint uri d ≡ endpoint uri 1)
        × ((on_fragment_received 1 fragment paired_two).sent
            ≡ paired_two.sent ++ send_fragment d fragment ∷ []))
on_fragment_received-partner_example =
    on_fragment_received-partner side uri 1 fragment paired_two reached runs.0
