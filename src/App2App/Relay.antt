-- ===== src/App2App/Relay.antt =====
-- components/network_services/app2app and websocket_service.cpp: the fragments of a paired connection, from one
-- service to the connection's queue in the other and on to lws_write.
use orb_private.Prelude.{
  ℕ, ◌≡◌, refl, sym, ◌∙◌, ap, Bool, true, false, some, List, [], ◌∷◌, ◌++◌, map, append-nil,
  append_assoc, ◌==◌,
}
use mathlib.Core.List.{map-append}
use orb_private.WebSocket.{
  Fragment, FragmentWriteInfo, WebSocketConnection, LwsCall, lws_write, WebSocketService,
  find_connection, change_connection, emplace, enqueue, write_of, message_fragment, close_info,
}
use orb_private.WebSocket.Callback.{
  Handlers, server_writeable, write_loop, write_out, with_queue, lws_callback,
}
use orb_private.WebSocket.Store.{mapped, find-change_same, find-change_other}
use orb_private.WebSocket.Closing.{emplace-find}
use orb_private.WebSocket.Writing.{wrote, writeable-eq}
use orb_private.App2App.{
  Side, local, remote, App2App, Sent, send_message, send_fragment, close, stop_remote_service,
  stop_service, service_stopped, manager_service_stopped, is_stopped, on_fragment_received,
}

-- The WebSocket services of the two sides.
abbrev pub Services : Type 0
Services = Side → WebSocketService

abbrev pub on_side : Side → (WebSocketService → WebSocketService) → Services → Services
on_side local f services local = f (services local)
on_side local f services remote = services remote
on_side remote f services local = services local
on_side remote f services remote = f (services remote)

on_side-same :
    (t : Side) (f : WebSocketService → WebSocketService) (services : Services)
    → on_side t f services t ≡ f (services t)
on_side-same local f services = refl
on_side-same remote f services = refl

-- A fragment that is queued for one connection leaves every other one.
on_side-other :
    (t u : Side) (d e : ℕ) (w : FragmentWriteInfo) (services : Services)
    → (d == e) ≡ false
    → find_connection e (on_side t (emplace d w) services u).connections
      ≡ find_connection e (services u).connections
unfolding emplace
on_side-other local local d e w services differ =
    find-change_other d e differ (enqueue w) (services local).connections
on_side-other local remote d e w services differ = refl
on_side-other remote local d e w services differ = refl
on_side-other remote remote d e w services differ =
    find-change_other d e differ (enqueue w) (services remote).connections

-- Fragments, and nothing that closes, are written in order where lws_write writes all of each.
write_loop-all :
    (accepts : List LwsCall → FragmentWriteInfo → Bool)
    → ((calls : List LwsCall) (w : FragmentWriteInfo) → accepts calls w ≡ true)
    → (user : ℕ) (fs : List Fragment) (calls : List LwsCall)
    → write_loop accepts user (map write_of fs) calls
      ≡ (true, [], calls ++ map (λ f. lws_write user (write_of f)) fs)
unfolding write_loop write_of
write_loop-all accepts all user [] calls = ap (λ cs. (true, [], cs)) (sym (append-nil calls))
write_loop-all accepts all user (f ∷ fs) calls = rw (all calls (write_of f)) (
    write_loop-all accepts all user fs (calls ++ lws_write user (write_of f) ∷ [])
    ∙ ap (λ cs. (true, [], cs))
        (append_assoc calls (lws_write user (write_of f) ∷ [])
          (map (λ f. lws_write user (write_of f)) fs)))

-- Each connection has a side.
module _ (side : ℕ → Side) where
  -- What a call does on the connections. To stop the services is not carried out here.
  unfoldable pub carry_out : Sent → Services → Services
  carry_out (send_message d text) services =
      on_side (side d) (emplace d (write_of (message_fragment text))) services
  carry_out (send_fragment d f) services = on_side (side d) (emplace d (write_of f)) services
  carry_out (close d) services = on_side (side d) (emplace d close_info) services
  carry_out stop_remote_service services = services
  carry_out stop_service services = services
  carry_out service_stopped services = services
  carry_out manager_service_stopped services = services

  unfoldable pub carry_out_all : List Sent → Services → Services
  carry_out_all [] services = services
  carry_out_all (c ∷ cs) services = carry_out_all cs (carry_out c services)

  -- OnFragmentReceived of either service, where its calls are carried out at once.
  unfoldable pub relay : ℕ → Fragment → App2App × Services → App2App × Services
  relay c f (st, services) =
      let st' = on_fragment_received c f (record st { sent = [] }) in
      (record st' { sent = st.sent }, carry_out_all st'.sent services)

  unfoldable pub relay_all : ℕ → List Fragment → App2App × Services → App2App × Services
  relay_all c [] s = s
  relay_all c (f ∷ fs) s = relay_all c fs (relay c f s)

  module _ (c d : ℕ) (st : App2App) (on : is_stopped st ≡ false)
      (paired : st.paired c ≡ some d) where
    relay-paired :
        (f : Fragment) (services : Services)
        → relay c f (st, services) ≡ (st, on_side (side d) (emplace d (write_of f)) services)
    unfolding relay on_fragment_received carry_out_all carry_out
    relay-paired f services = rw (relay, on_fragment_received, on, paired) refl

    -- The partner's connection, with more fragments in its queue.
    abbrev pub queued : List Fragment → WebSocketConnection → WebSocketConnection
    queued fs conn = record conn { write_queue = conn.write_queue ++ map write_of fs }

    relay_all-queue :
        (fs : List Fragment) (services : Services) (conn : WebSocketConnection)
        → find_connection d (services (side d)).connections ≡ some conn
        → find_connection d ((relay_all c fs (st, services)).1 (side d)).connections
          ≡ some (queued fs conn)
    unfolding relay_all
    relay_all-queue [] services conn h =
        h ∙ ap (λ q. some (record conn { write_queue = q })) (sym (append-nil conn.write_queue))
    relay_all-queue (f ∷ fs) services conn h =
        let next = on_side (side d) (emplace d (write_of f)) services in
        ap (λ s. find_connection d ((relay_all c fs s).1 (side d)).connections)
          (relay-paired f services)
        ∙ relay_all-queue fs next (enqueue (write_of f) conn) (
            ap (λ s. find_connection d s.connections)
              (on_side-same (side d) (emplace d (write_of f)) services)
            ∙ emplace-find d (write_of f) (services (side d)) conn h)
        ∙ ap (λ q. some (record conn { write_queue = q }))
            (append_assoc conn.write_queue (write_of f ∷ []) (map write_of fs))

    relay_all-others :
        (fs : List Fragment) (services : Services) (e : ℕ)
        → (d == e) ≡ false
        → find_connection e ((relay_all c fs (st, services)).1 (side e)).connections
          ≡ find_connection e (services (side e)).connections
    unfolding relay_all
    relay_all-others [] services e differ = refl
    relay_all-others (f ∷ fs) services e differ =
        let next = on_side (side d) (emplace d (write_of f)) services in
        ap (λ s. find_connection e ((relay_all c fs s).1 (side e)).connections)
          (relay-paired f services)
        ∙ relay_all-others fs next e differ
        ∙ on_side-other (side d) (side e) d e (write_of f) services differ

    pub relay_all-written :
        (handlers : Handlers) (accepts : List LwsCall → FragmentWriteInfo → Bool)
        → ((calls : List LwsCall) (w : FragmentWriteInfo) → accepts calls w ≡ true)
        → (earlier fs : List Fragment) (services : Services) (conn : WebSocketConnection)
        → find_connection d (services (side d)).connections ≡ some conn
        → conn.write_queue ≡ map write_of earlier
        → let reached = (relay_all c fs (st, services)).1 in
          ((after : WebSocketService) × (lws_callback handlers accepts
                (server_writeable d)
                (reached (side d))
              ≡ some (true, after))
            × (after.calls
                ≡ (reached (side d)).calls ++ map (λ f. lws_write d (write_of f)) (earlier ++ fs))
            × (find_connection d after.connections ≡ some (with_queue [] conn)))
          × ((e : ℕ)
              → (d == e) ≡ false
              → find_connection e (reached (side e)).connections
                ≡ find_connection e (services (side e)).connections)
    unfolding mapped write_out
    relay_all-written handlers accepts all earlier fs services conn h q =
        let reached = (relay_all c fs (st, services)).1 (side d) in
        let there = relay_all-queue fs services conn h in
        let loop =
          ap (λ ws. write_loop accepts d (ws ++ map write_of fs) reached.calls) q
          ∙ ap (λ ws. write_loop accepts d ws reached.calls) (sym (map-append write_of earlier fs))
          ∙ write_loop-all accepts all d (earlier ++ fs) reached.calls in
        (
          (
            wrote handlers accepts d (queued fs conn) reached,
            writeable-eq handlers accepts d (queued fs conn) reached there
                ∙ ap (λ r. some (r, wrote handlers accepts d (queued fs conn) reached))
                    (ap (λ r. r.0) loop),
            ap (λ r. r.2) loop,
            ap (λ r. find_connection d (change_connection d (with_queue r.1) reached.connections))
                  loop
                ∙ find-change_same d (with_queue []) reached.connections
                ∙ ap (mapped (with_queue [])) there,
          ),
          relay_all-others fs services,
        )
