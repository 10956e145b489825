-- ===== src/WebSocket/Looper.antt =====
-- components/network_services/websocket_service.cpp: Start, Stop and MainLooper. That lws_create_context makes
-- a context, and that lws_service fails, are parameters.
use orb_private.Prelude.{
  ℕ, Bool, true, false, not, ◌||◌, Option, some, List, [], ◌∷◌, if◌then◌else◌, ◌>>=◌,
}
use orb_private.WebSocket.{
  Fragment, FragmentWriteInfo, WebSocketConnection, LwsCall, create_context, create_thread,
  cancel_service, context_destroy, WebSocketService, call, send_fragment, close_connection, lock,
  unlock,
}
use orb_private.WebSocket.Callback.{Handlers, Reason, has_none, lws_callback}

-- The context is there: the thread is made, and the mutex unlocked.
unfoldable pub start_thread : WebSocketService → Option WebSocketService
start_thread s = unlock (call create_thread (record s { has_context = true; stop = false }))

unfoldable pub return_unlocked : Bool → WebSocketService → Option (Bool × WebSocketService)
return_unlocked ret s = do s' ← unlock s; some (ret, s')

-- WebSocketService::Start, where `creates` is whether lws_create_context makes a context.
unfoldable pub start : Bool → WebSocketService → Option (Bool × WebSocketService)
start creates s =
    let locked = lock s in
    if s.has_context
    then return_unlocked false locked
    else if creates
    then (do s' ← start_thread (call create_context locked); return_unlocked true s')
    else return_unlocked false (call create_context locked)

unfoldable pub users : List (ℕ × WebSocketConnection) → List ℕ
users [] = []
users ((u, c) ∷ cs) = u ∷ users cs

-- The loop of Stop, over the users of the connections.
unfoldable pub close_all : List ℕ → WebSocketService → WebSocketService
close_all [] s = s
close_all (user ∷ us) s = close_all us (close_connection user s)

-- The body of Stop, with the mutex locked.
unfoldable pub stop_locked : WebSocketService → WebSocketService
stop_locked s =
    let s' = record s { stop = true } in
    if not (has_none s.connections)
    then close_all (users s.connections) s'
    else if s.has_context
    then call cancel_service s'
    else s'

-- WebSocketService::Stop
unfoldable pub stop_service : WebSocketService → Option WebSocketService
stop_service s = unlock (stop_locked (lock s))

-- What happens while lws_service runs: callbacks, Stop, and sending on a connection.
pub data Event : Type 0 where
  callback : Reason → Event
  stopping : Event
  sending : ℕ → Fragment → Event

-- A call of lws_service: what happens, and whether it fails.
pub record Round : Type 0 where
  pub events : List Event
  pub fails : Bool

unfoldable pub destroy_context : WebSocketService → WebSocketService
destroy_context s =
    if s.has_context then call context_destroy (record s { has_context = false }) else s

module _ (handlers : Handlers) (accepts : List LwsCall → FragmentWriteInfo → Bool) where
  unfoldable pub happen : Event → WebSocketService → Option WebSocketService
  happen (callback reason) s = do (result, s') ← lws_callback handlers accepts reason s; some s'
  happen stopping s = stop_service s
  happen (sending user fragment) s = some (send_fragment user fragment s)

  unfoldable pub happen_all : List Event → WebSocketService → Option WebSocketService
  happen_all [] s = some s
  happen_all (e ∷ es) s = do s' ← happen e s; happen_all es s'

  -- The condition of the loop.
  abbrev pub continues : WebSocketService → Bool
  continues s = not s.stop || not (has_none s.connections)

  -- The loop ends as lws_service fails.
  abbrev pub fail : WebSocketService → Option (Bool × WebSocketService)
  fail s = some (true, call cancel_service (record s { stop = true; connections = [] }))

  -- The loop of MainLooper, over the calls of lws_service: whether it has ended, with the mutex locked.
  unfoldable pub main_loop : List Round → WebSocketService → Option (Bool × WebSocketService)
  main_loop [] s = some (not (continues s), s)
  main_loop (r ∷ rs) s =
      if continues s
      then (do
        unlocked ← unlock s
        served ← happen_all r.events unlocked
        next ← (if r.fails then fail (lock served) else main_loop rs (lock served))
        some next)
      else some (true, s)

  -- What MainLooper does after its loop.
  unfoldable pub end_loop : Bool × WebSocketService → Option (Bool × WebSocketService)
  end_loop (false, s) = some (false, s)
  end_loop (true, s) = do
    s' ← unlock (destroy_context s)
    some (true, handlers.on_service_stopped s')

  -- WebSocketService::MainLooper: whether it has returned.
  unfoldable pub main_looper : List Round → WebSocketService → Option (Bool × WebSocketService)
  main_looper rs s = do ended ← main_loop rs (lock s); end_loop ended
