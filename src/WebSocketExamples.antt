-- ===== src/WebSocketExamples.antt =====
-- The theorems on WebSocket services at a service with two connections.
use orb_private.Prelude.{
  ℕ, ◌≡◌, refl, Bool, true, false, none, some, List, [], ◌∷◌, ◌++◌, map, Text, codes, ◌==◌,
  if◌then◌else◌,
}
use orb_private.WebSocket.{
  Fragment, FragmentWriteInfo, WebSocketConnection, LwsCall, lws_write, WebSocketService,
  new_web_socket_service, find_connection, write_of, message_fragment,
}
use orb_private.WebSocket.Callback.{
  Handlers, new_connection, server_writeable, with_queue, lws_callback,
}
use orb_private.WebSocket.Looper.{main_looper, stop_service}
use orb_private.WebSocket.Messages.{all_fragments, receive_all, on_messages, receive_all-messages}
use orb_private.WebSocket.Closing.{send_all}
use orb_private.WebSocket.Writing.{stop_service-closes}
use orb_private.WebSocket.Returning.{last_round, main_looper-ends}
use orb_private.WebSocket.Starting.{Outcome, start-unlocks}
use orb_private.App2App.{Side, local, remote, App2App, new_service, set_paired}
use orb_private.App2App.Relay.{Services, relay_all, relay_all-written}

-- A service that answers nothing.
abbrev silent : Handlers
silent = record {
  on_connection = λ user c s. (true, c, s);
  on_disconnected = λ user s. s;
  on_fragment_received = λ user f s. s;
  on_service_stopped = λ s. s;
}

-- lws_write takes all of what it is given, or nothing.
abbrev takes_all : List LwsCall → FragmentWriteInfo → Bool
takes_all calls w = true

abbrev refuses : List LwsCall → FragmentWriteInfo → Bool
refuses calls w = false

abbrev connection : WebSocketConnection
connection = new_connection 0 (codes "/hbbtv/a")

abbrev running : WebSocketService
running = record {
  stop = false;
  has_context = true;
  connections = (8, connection) ∷ (9, new_connection 1 (codes "/hbbtv/b")) ∷ [];
  lock_depth = 0;
  calls = [];
}

abbrev stopping : WebSocketService
stopping = record running { stop = true }

abbrev new : WebSocketService
new = new_web_socket_service

known : find_connection 8 running.connections ≡ some connection
unfolding find_connection
known = refl

-- A message in three fragments, and one in one.
abbrev messages : List (Text × List Text)
messages = (codes "he", codes "ll" ∷ codes "o" ∷ []) ∷ (codes "bye", []) ∷ []

-- The service closes nothing as it handles a message.
abbrev ignores : ℕ → Text → WebSocketService → WebSocketService
ignores user text s = s

receive_all-messages_example :
    receive_all ignores 8 (all_fragments messages) running ≡ on_messages ignores 8 messages running
receive_all-messages_example =
    receive_all-messages ignores 8 (λ text s k. k) messages running (connection, known)

abbrev sends : List (ℕ × Fragment)
sends = (9, message_fragment (codes "x")) ∷ (8, message_fragment (codes "y")) ∷ []

stop_service-closes_example :
    (stopped after : WebSocketService) × (stop_service running ≡ some stopped)
    × (stopped.lock_depth ≡ 0)
    × (lws_callback silent refuses (server_writeable 8) (send_all sends stopped)
        ≡ some (false, after))
stop_service-closes_example = stop_service-closes silent refuses 8 connection sends running known

main_looper-ends_example :
    (t : WebSocketService) × (main_looper silent takes_all (last_round false stopping ∷ []) stopping
      ≡ some (true, t))
    × (t.stop ≡ true)
    × (t.connections ≡ [])
    × (t.has_context ≡ false)
    × (t.lock_depth ≡ 0)
main_looper-ends_example =
    main_looper-ends silent takes_all
      (λ user s. record { stop = refl; depth = refl; adds_none = λ v h. h }) [] false stopping refl

start-unlocks_example : Outcome true new
start-unlocks_example = start-unlocks true new refl

-- The connection 7 of the remote side is the partner of 8 on the local side.
abbrev side : ℕ → Side
side c = if c == 7 then remote else local

abbrev services : Services
services local = running
services remote = running

abbrev paired_service : App2App
paired_service = record new_service {
  paired = set_paired 8 (some 7) (set_paired 7 (some 8) (λ c. none));
}

abbrev sent_fragments : List Fragment
sent_fragments =
    record { data_bytes = 1 ∷ []; is_first = true; is_final = false; is_binary = true }
    ∷ record { data_bytes = 2 ∷ []; is_first = false; is_final = true; is_binary = true }
    ∷ []

relay_all-written_example :
    ((after : WebSocketService) × (lws_callback silent takes_all
          (server_writeable 8)
          ((relay_all side 7 sent_fragments (paired_service, services)).1 local)
        ≡ some (true, after))
      × (after.calls
          ≡ ((relay_all side 7 sent_fragments (paired_service, services)).1 local).calls
            ++ map (λ f. lws_write 8 (write_of f)) sent_fragments)
      × (find_connection 8 after.connections ≡ some (with_queue [] connection)))
    × ((e : ℕ)
        → (8 == e) ≡ false
        → find_connection e
            ((relay_all side 7 sent_fragments (paired_service, services)).1 (side e)).connections
          ≡ find_connection e (services (side e)).connections)
relay_all-written_example =
    relay_all-written side 7 8 paired_service refl refl silent takes_all (λ calls w. refl) []
      sent_fragments services connection known refl
