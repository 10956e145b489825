-- ===== src/WebSocket.antt =====
-- components/network_services/websocket_service.h and websocket_service.cpp: the connections of a service, and
-- what is sent on them. A connection stands for its user pointer and its lws handle, as one number.
pub mod Store
pub mod Callback
pub mod Looper
pub mod Starting
pub mod Messages
pub mod Closing
pub mod Writing
pub mod Draining
pub mod Returning
use orb_private.Prelude.{
  ℕ, zero, suc, ◌+◌, Bool, true, false, not, Option, none, some, List, [], ◌∷◌, ◌++◌, Text, ◌==◌,
  if◌then◌else◌,
}

-- A fragment: its data, and whether it is the first, the final one, and binary.
pub record Fragment : Type 0 where
  pub data_bytes : List ℕ
  pub is_first : Bool
  pub is_final : Bool
  pub is_binary : Bool

-- LWS_WRITE_TEXT, LWS_WRITE_BINARY, LWS_WRITE_CONTINUATION
pub data WriteKind : Type 0 where
  write_text write_binary write_continuation : WriteKind

-- FragmentWriteInfo, with the flag LWS_WRITE_NO_FIN by itself.
pub record FragmentWriteInfo : Type 0 where
  pub write_kind : WriteKind
  pub no_fin : Bool
  pub data_bytes : List ℕ
  pub close : Bool

pub record WebSocketConnection : Type 0 where
  pub id : ℕ  -- int
  pub uri : Text
  pub text_buffer : Text
  pub write_queue : List FragmentWriteInfo

-- The calls of libwebsockets, and of pthread_create.
pub data LwsCall : Type 0 where
  callback_on_writable : ℕ → LwsCall
  lws_write : ℕ → FragmentWriteInfo → LwsCall
  close_reason : ℕ → LwsCall
  create_context create_thread cancel_service context_destroy : LwsCall

-- The members that change, how often the recursive mutex is locked by the
-- thread that runs, and the calls made so far.
pub record WebSocketService : Type 0 where
  pub stop : Bool
  pub has_context : Bool
  pub connections : List (ℕ × WebSocketConnection)
  pub lock_depth : ℕ
  pub calls : List LwsCall

-- The service that is constructed.
abbrev pub new_web_socket_service : WebSocketService
new_web_socket_service = record {
  stop = true;
  has_context = false;
  connections = [];
  lock_depth = 0;
  calls = [];
}

abbrev pub call : LwsCall → WebSocketService → WebSocketService
call c s = record s { calls = s.calls ++ c ∷ [] }

-- connections_.find(user)
unfoldable pub find_connection : ℕ → List (ℕ × WebSocketConnection) → Option WebSocketConnection
find_connection user [] = none
find_connection user ((u, c) ∷ cs) =
    let rest = find_connection user cs in if u == user then some c else rest

-- A change through the pointer of a connection.
unfoldable pub change_connection :
    ℕ
    → (WebSocketConnection → WebSocketConnection)
    → List (ℕ × WebSocketConnection)
    → List (ℕ × WebSocketConnection)
change_connection user f [] = []
change_connection user f ((u, c) ∷ cs) =
    let rest = change_connection user f cs in (u, (if u == user then f c else c)) ∷ rest

unfoldable pub erase_connection :
    ℕ → List (ℕ × WebSocketConnection) → List (ℕ × WebSocketConnection)
erase_connection user [] = []
erase_connection user ((u, c) ∷ cs) =
    let rest = erase_connection user cs in if u == user then rest else (u, c) ∷ rest

-- WebSocketService::GetConnection, by the user of the connection that it finds.
unfoldable pub get_connection : ℕ → List (ℕ × WebSocketConnection) → Option ℕ
get_connection id [] = none
get_connection id ((u, c) ∷ cs) =
    let rest = get_connection id cs in if c.id == id then some u else rest

-- The fragment that SendFragment puts in the queue, and that of Close.
unfoldable pub write_of : Fragment → FragmentWriteInfo
write_of f = record {
  write_kind =
      (if f.is_first
        then (if f.is_binary then write_binary else write_text)
        else write_continuation);
  no_fin = not f.is_final;
  data_bytes = f.data_bytes;
  close = false;
}

abbrev pub close_info : FragmentWriteInfo
close_info = record { write_kind = write_text; no_fin = false; data_bytes = []; close = true }

abbrev pub enqueue : FragmentWriteInfo → WebSocketConnection → WebSocketConnection
enqueue w c = record c { write_queue = c.write_queue ++ w ∷ [] }

-- A fragment is queued on a connection of the service.
unfoldable pub emplace : ℕ → FragmentWriteInfo → WebSocketService → WebSocketService
emplace user w s =
    call (callback_on_writable user)
      (record s { connections = change_connection user (enqueue w) s.connections })

-- WebSocketConnection::SendFragment, SendMessage and Close
abbrev pub send_fragment : ℕ → Fragment → WebSocketService → WebSocketService
send_fragment user f = emplace user (write_of f)

abbrev pub message_fragment : Text → Fragment
message_fragment text = record {
  data_bytes = text;
  is_first = true;
  is_final = true;
  is_binary = false;
}

abbrev pub send_message : ℕ → Text → WebSocketService → WebSocketService
send_message user text = send_fragment user (message_fragment text)

abbrev pub close_connection : ℕ → WebSocketService → WebSocketService
close_connection user = emplace user close_info

-- connections_mutex_.lock(); to unlock a mutex that is not locked is undefined.
abbrev pub lock : WebSocketService → WebSocketService
lock s = record s { lock_depth = suc s.lock_depth }

unfoldable pub unlock_from : ℕ → WebSocketService → Option WebSocketService
unlock_from zero s = none
unlock_from (suc n) s = some (record s { lock_depth = n })

abbrev pub unlock : WebSocketService → Option WebSocketService
unlock s = unlock_from s.lock_depth s
