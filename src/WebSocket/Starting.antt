-- ===== src/WebSocket/Starting.antt =====
-- components/network_services/websocket_service.cpp: how Start leaves the mutex.
use orb_private.Prelude.{
  ◌≡◌, ◌⊎◌, inl, inr, refl, ap, Bool, true, false, not, ◌&&◌, none, some, Bool-cases,
}
use orb_private.WebSocket.{create_context, WebSocketService, call, unlock_from}
use orb_private.WebSocket.Looper.{start, start_thread, return_unlocked}

-- How Start ends: the mutex is unlocked twice, or the service stays as it was, and the mutex is unlocked.
abbrev pub Outcome : Bool → WebSocketService → Type 0
Outcome creates s =
    (((not s.has_context && creates) ≡ true) × (start creates s ≡ none))
    ⊎ ((s' : WebSocketService) × ((not s.has_context && creates) ≡ false)
        × (start creates s ≡ some (false, s'))
        × (s'.lock_depth ≡ 0)
        × (s'.stop ≡ s.stop)
        × (s'.has_context ≡ s.has_context))

-- Start, called by a thread that does not hold the mutex, never succeeds with the mutex used rightly:
-- where there is no context and libwebsockets makes one, it unlocks the mutex a second time, which is
-- undefined; otherwise it gives false, with the mutex unlocked, and neither the flag that stops the
-- service nor the context changed.
pub start-unlocks : (creates : Bool) (s : WebSocketService) → s.lock_depth ≡ 0 → Outcome creates s
unfolding start start_thread return_unlocked unlock_from
start-unlocks creates s h = elim (Bool-cases s.has_context) [
  | inl there ↦ inr (
    record s { lock_depth = 0 },
    ap (λ b. not b && creates) there,
    rw (there, h) refl,
    refl,
    refl,
    refl,
  )
  | inr gone ↦ elim creates as (λ c. Outcome c s) [
    | true ↦ inl (ap (λ b. not b && true) gone, rw (gone, h) refl)
    | false ↦ inr (
      record (call create_context s) { lock_depth = 0 },
      ap (λ b. not b && false) gone,
      rw (gone, h) refl,
      refl,
      refl,
      refl,
    )
  ]
]
