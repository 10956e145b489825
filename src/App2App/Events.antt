-- ===== src/App2App/Events.antt =====
-- components/network_services/app2app: the events of the two services, in any order.
use orb_private.Prelude.{
  ℕ, ◌≡◌, ◌⊎◌, inl, inr, refl, sym, false, none, some, [], ◌∷◌, ◌++◌, Text, Option-cases, is_empty,
}
use orb_private.WebSocket.{Fragment}
use orb_private.App2App.{
  Side, other, App2App, send_fragment, new_service, connect, disconnect, on_fragment_received, stop,
  on_service_stopped, on_remote_service_stopped, is_stopped,
}
use orb_private.App2App.Pairing.{clash, opposite, is_in, distinct}
use orb_private.App2App.Equations.{
  on_fragment_received-Frames, stop-Frames, on_service_stopped-Frames,
  on_remote_service_stopped-Frames,
}
use orb_private.App2App.Invariant.{endpoint, IsValid, Unknown}
use orb_private.App2App.Invariant.Steps.{
  leave-IsValid, connect-IsValid, disconnect-IsValid, Frames-IsValid,
}

-- The connections have a service and a URI each.
module _ (side : ℕ → Side) (uri : ℕ → Text) where
  -- The states of the service, where a connection that comes is not known yet.
  pub data Visited : App2App → Type 0 where
    initial : Visited new_service
    connected :
        (c : ℕ) {st : App2App}
        → Visited st
        → Unknown side (endpoint uri) c st
        → Visited (connect (side c) (uri c) c st).1
    received :
        (c : ℕ) (fragment : Fragment) {st : App2App}
        → Visited st
        → Visited (on_fragment_received c fragment st)
    disconnected : (c : ℕ) {st : App2App} → Visited st → Visited (disconnect (side c) (uri c) c st)
    stopping : {st : App2App} → Visited st → Visited (stop st)
    stopped : {st : App2App} → Visited st → Visited (on_service_stopped st)
    remote_stopped : {st : App2App} → Visited st → Visited (on_remote_service_stopped st)

  -- In every state that the services reach, however connections come, send, and go, and where one that
  -- comes is not known yet: partners are partners of each other, one local and one remote, with one
  -- endpoint; a connection that waits has no partner and waits once, under its own type and endpoint;
  -- and connections of only one type wait for an endpoint.
  pub Visited-IsValid : (st : App2App) → Visited st → IsValid side (endpoint uri) st
  unfolding is_in distinct
  Visited-IsValid st initial = record {
    partners = record {
      symmetric = λ c d h. absurd (clash (sym h));
      opposite = λ c d h. absurd (clash (sym h));
      together = λ c d h. absurd (clash (sym h));
    };
    queues = record {
      free = λ t e c h. refl;
      typed = λ t e c h. absurd (opposite h);
      placed = λ t e c h. absurd (opposite h);
      once = λ t e. refl;
    };
    one_sided = λ e. inl refl;
  }
  Visited-IsValid st (connected c {st = before} r u) =
      connect-IsValid side uri c before u (Visited-IsValid before r)
  Visited-IsValid st (disconnected c {st = before} r) =
      disconnect-IsValid side uri c before (Visited-IsValid before r)
  Visited-IsValid st (received c fragment {st = before} r) =
      Frames-IsValid side uri (on_fragment_received c fragment) before
        (on_fragment_received-Frames c fragment) (Visited-IsValid before r)
  Visited-IsValid st (stopping {st = before} r) =
      Frames-IsValid side uri stop before stop-Frames (Visited-IsValid before r)
  Visited-IsValid st (stopped {st = before} r) =
      Frames-IsValid side uri on_service_stopped before on_service_stopped-Frames
        (Visited-IsValid before r)
  Visited-IsValid st (remote_stopped {st = before} r) =
      Frames-IsValid side uri on_remote_service_stopped before on_remote_service_stopped-Frames
        (Visited-IsValid before r)

  -- While the services run, a connection with an endpoint that has gone leaves no trace: it has no
  -- partner, is no connection's partner, and waits nowhere, so no pointer to it is left.
  pub disconnect-Unknown :
      (c : ℕ) (st : App2App)
      → Visited st
      → is_stopped st ≡ false
      → is_empty (endpoint uri c) ≡ false
      → Unknown side (endpoint uri) c (disconnect (side c) (uri c) c st)
  unfolding disconnect
  disconnect-Unknown c st r on given =
      rw (given, on) (leave-IsValid side uri c st (Visited-IsValid st r)).1

  -- While the services run, a fragment that a connection sends goes to its partner alone, which is of the
  -- other type and has the same endpoint; without a partner it goes nowhere.
  pub on_fragment_received-partner :
      (c : ℕ) (fragment : Fragment) (st : App2App)
      → Visited st
      → is_stopped st ≡ false
      → ((st.paired c ≡ none) × ((on_fragment_received c fragment st).sent ≡ st.sent))
        ⊎ ((d : ℕ) × (st.paired c ≡ some d)
            × (side d ≡ other (side c))
            × (endpoint uri d ≡ endpoint uri c)
            × ((on_fragment_received c fragment st).sent
                ≡ st.sent ++ send_fragment d fragment ∷ []))
  unfolding on_fragment_received
  on_fragment_received-partner c fragment st r on =
      let v = Visited-IsValid st r in
      elim (Option-cases (st.paired c)) [
        | inl h ↦ inl (h, rw (on_fragment_received, on, h) refl)
        | inr (d, h) ↦ inr (
          d,
          h,
          v.partners.opposite c d h,
          v.partners.together c d h,
          rw (on_fragment_received, on, h) refl,
        )
      ]
