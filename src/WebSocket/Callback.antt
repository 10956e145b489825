-- ===== src/WebSocket/Callback.antt =====
-- components/network_services/websocket_service.cpp: LwsCallback, and the default of OnFragmentReceived.
use orb_private.Prelude.{
  ℕ, suc, ◌^◌, Bool, true, false, ◌&&◌, Option, none, some, List, [], ◌∷◌, ◌++◌, Text, codes,
  is_empty, ltb, if◌then◌else◌, ◌>>=◌,
}
use orb_private.WebSocket.{
  Fragment, FragmentWriteInfo, WebSocketConnection, LwsCall, lws_write, close_reason,
  cancel_service, WebSocketService, call, find_connection, change_connection, erase_connection,
  lock, unlock,
}

-- The virtual functions of a service. The connection that OnConnection is called with is none of the map yet.
pub record Handlers : Type 0 where
  pub on_connection :
      ℕ → WebSocketConnection → WebSocketService → Bool × WebSocketConnection × WebSocketService
  pub on_disconnected : ℕ → WebSocketService → WebSocketService
  pub on_fragment_received : ℕ → Fragment → WebSocketService → WebSocketService
  pub on_service_stopped : WebSocketService → WebSocketService

-- The reasons of a callback, with the user pointer: the value that is read of `next_connection_id_`, the URI
-- and the arguments that the handshake had, or the fragment that has come. The counter is a static of all
-- services, each with a mutex of its own, so what another thread does with it meanwhile is not known.
pub data Reason : Type 0 where
  established : ℕ → ℕ → Text → Text → Reason
  closed : ℕ → Reason
  server_writeable : ℕ → Reason
  receive : ℕ → Fragment → Reason
  other_reason : Reason

unfoldable pub full_uri : Text → Text → Text
full_uri uri args = if is_empty args then uri else uri ++ (codes "?" ++ args)

abbrev pub new_connection : ℕ → Text → WebSocketConnection
new_connection id uri = record { id = id; uri = uri; text_buffer = []; write_queue = [] }

abbrev pub has_none : List (ℕ × WebSocketConnection) → Bool
has_none [] = true
has_none (c ∷ cs) = false

-- The loop over the queue of a connection: whether it ends with 0, the queue that it leaves, and its calls.
-- `accepts` is whether lws_write writes all, after some calls.
unfoldable pub write_loop :
    (List LwsCall → FragmentWriteInfo → Bool)
    → ℕ
    → List FragmentWriteInfo
    → List LwsCall
    → Bool × List FragmentWriteInfo × List LwsCall
write_loop accepts user [] calls = (true, [], calls)
write_loop accepts user (w ∷ ws) calls =
    let rest = write_loop accepts user ws (calls ++ lws_write user w ∷ []) in
    if w.close
    then (false, ws, calls ++ close_reason user ∷ [])
    else if accepts calls w
    then rest
    else (false, ws, calls ++ lws_write user w ∷ [])

abbrev pub with_queue : List FragmentWriteInfo → WebSocketConnection → WebSocketConnection
with_queue ws c = record c { write_queue = ws }

-- The case LWS_CALLBACK_SERVER_WRITEABLE for a connection that is there.
unfoldable pub write_out :
    (List LwsCall → FragmentWriteInfo → Bool)
    → ℕ
    → WebSocketConnection
    → WebSocketService
    → Bool × WebSocketService
write_out accepts user c s =
    let written = write_loop accepts user c.write_queue s.calls in
    (
      written.0,
      record s {
        connections = change_connection user (with_queue written.1) s.connections;
        calls = written.2;
      },
    )

-- A case for a connection that must be in the map.
unfoldable pub for_known :
    Option WebSocketConnection
    → WebSocketService
    → (WebSocketConnection → Bool × WebSocketService)
    → Bool × WebSocketService
for_known none s f = (false, s)
for_known (some c) s f = f c

module _ (handlers : Handlers) (accepts : List LwsCall → FragmentWriteInfo → Bool) where
  -- The case LWS_CALLBACK_ESTABLISHED, after the connection has been offered.
  unfoldable pub keep_connection :
      ℕ → Bool × WebSocketConnection × WebSocketService → Bool × WebSocketService
  keep_connection user (false, c, s) = (false, s)
  keep_connection user (true, c, s) =
      (true, record s { connections = (user, c) ∷ erase_connection user s.connections })

  -- The case LWS_CALLBACK_CLOSED for a connection that is there.
  unfoldable pub forget_connection : ℕ → WebSocketService → WebSocketService
  forget_connection user s =
      let s' = handlers.on_disconnected user s in
      let cs = erase_connection user s'.connections in
      let s'' = record s' { connections = cs } in
      if s''.stop && has_none cs && s''.has_context then call cancel_service s'' else s''

  -- The switch: whether the result is 0, and not -1. An int that overflows is undefined.
  unfoldable pub dispatch : Reason → WebSocketService → Option (Bool × WebSocketService)
  dispatch (established user id uri args) s =
      if ltb (suc id) (2 ^ 31)
      then some (
          keep_connection user
            (handlers.on_connection user (new_connection id (full_uri uri args)) s))
      else none
  dispatch (closed user) s =
      some
        (for_known (find_connection user s.connections) s (λ c. (true, forget_connection user s)))
  dispatch (server_writeable user) s =
      some (for_known (find_connection user s.connections) s (λ c. write_out accepts user c s))
  dispatch (receive user fragment) s = some (
      for_known (find_connection user s.connections) s
        (λ c. (true, handlers.on_fragment_received user fragment s)))
  dispatch other_reason s = some (true, s)

  -- WebSocketService::LwsCallback
  unfoldable pub lws_callback : Reason → WebSocketService → Option (Bool × WebSocketService)
  lws_callback reason s = do
    (result, s') ← dispatch reason (lock s)
    s'' ← unlock s'
    some (result, s'')

-- The text of the message so far.
abbrev pub buffered : Fragment → Text → Text
buffered f buffer = if f.is_first then f.data_bytes else buffer ++ f.data_bytes

abbrev pub buffer_of : Option WebSocketConnection → Text
buffer_of none = []
buffer_of (some c) = c.text_buffer

abbrev pub with_buffer : Text → WebSocketConnection → WebSocketConnection
with_buffer text c = record c { text_buffer = text }

-- WebSocketService::OnFragmentReceived, with the service's OnMessageReceived.
unfoldable pub default_on_fragment_received :
    (ℕ → Text → WebSocketService → WebSocketService)
    → ℕ
    → Fragment
    → WebSocketService
    → WebSocketService
default_on_fragment_received on_message_received user f s =
    let text = buffered f (buffer_of (find_connection user s.connections)) in
    let s' = record s { connections = change_connection user (with_buffer text) s.connections } in
    if f.is_binary then s else if f.is_final then on_message_received user text s' else s'
