-- ===== src/WebSocket/Writing.antt =====
-- components/network_services/websocket_service.cpp: what a connection's next writable callback makes of its
-- queue, after Stop.
use orb_private.Prelude.{
  ℕ, suc, ◌≡◌, refl, sym, ◌∙◌, ap, inl, inr, Bool, true, false, none, some, List, [], ◌∷◌,
  Bool-cases,
}
use orb_private.WebSocket.{
  Fragment, FragmentWriteInfo, WebSocketConnection, LwsCall, WebSocketService, find_connection,
  close_connection, emplace, lock, unlock, unlock_from,
}
use orb_private.WebSocket.Callback.{
  Handlers, Reason, server_writeable, write_loop, write_out, lws_callback, dispatch, for_known,
  has_none,
}
use orb_private.WebSocket.Looper.{users, close_all, stop_locked, stop_service}
use orb_private.WebSocket.Closing.{
  Closing, write_loop-closing, close_all-users, send_all, send_all-Closing,
}

none_is : {A : Type 0} {a : A} → none ≡ some a → ⊥
none_is h = cc

has_none-find :
    (user : ℕ) (cs : List (ℕ × WebSocketConnection))
    → has_none cs ≡ true
    → find_connection user cs ≡ none
unfolding find_connection
has_none-find user [] h = refl
has_none-find user (c ∷ cs) h = absurd cc

-- The body of Stop leaves a closing fragment for each connection.
stop_locked-Closing :
    (user : ℕ) (c : WebSocketConnection) (s : WebSocketService)
    → find_connection user s.connections ≡ some c
    → Closing user (stop_locked s)
unfolding stop_locked
stop_locked-Closing user c s h = elim (Bool-cases (has_none s.connections)) [
  | inl is ↦ absurd (none_is (sym (has_none-find user s.connections is) ∙ h))
  | inr isnt ↦ rw isnt (close_all-users user c s.connections (record s { stop = true }) h (c, h))
]

close_all-depth : (us : List ℕ) (s : WebSocketService) → (close_all us s).lock_depth ≡ s.lock_depth
unfolding close_all emplace
close_all-depth [] s = refl
close_all-depth (u ∷ us) s = close_all-depth us (close_connection u s)

stop_locked-depth : (s : WebSocketService) → (stop_locked s).lock_depth ≡ s.lock_depth
unfolding stop_locked
stop_locked-depth s = elim (Bool-cases (has_none s.connections)) [
  | inl is ↦ elim (Bool-cases s.has_context) [
    | inl there ↦ rw (is, there) refl
    | inr gone ↦ rw (is, gone) refl
  ]
  | inr isnt ↦ rw isnt (close_all-depth (users s.connections) (record s { stop = true }))
]

-- A mutex that is locked is unlocked.
pub unlock-locked :
    (n : ℕ) (s : WebSocketService)
    → s.lock_depth ≡ suc n
    → unlock s ≡ some (record s { lock_depth = n })
unfolding unlock_from
unlock-locked n s h = rw h refl

stop_service-eq :
    (s : WebSocketService)
    → stop_service s ≡ some (record (stop_locked (lock s)) { lock_depth = s.lock_depth })
unfolding stop_service
stop_service-eq s = unlock-locked s.lock_depth (stop_locked (lock s)) (stop_locked-depth (lock s))

module _ (handlers : Handlers) (accepts : List LwsCall → FragmentWriteInfo → Bool) where
  -- A callback whose switch leaves the mutex locked once more.
  pub lws_callback-eq :
      (reason : Reason) (s s' : WebSocketService) (result : Bool)
      → dispatch handlers accepts reason (lock s) ≡ some (result, s')
      → s'.lock_depth ≡ suc s.lock_depth
      → lws_callback handlers accepts reason s
        ≡ some (result, record s' { lock_depth = s.lock_depth })
  unfolding lws_callback
  lws_callback-eq reason s s' result h depth =
      rw (lws_callback, h, unlock-locked s.lock_depth s' depth) refl

  pub dispatch-writeable :
      (user : ℕ) (c : WebSocketConnection) (s : WebSocketService)
      → find_connection user s.connections ≡ some c
      → dispatch handlers accepts (server_writeable user) s ≡ some (write_out accepts user c s)
  unfolding dispatch for_known
  dispatch-writeable user c s h = ap (λ o. some (for_known o s (λ c. write_out accepts user c s))) h

  -- What a writable callback leaves of a connection that is there.
  abbrev pub wrote : ℕ → WebSocketConnection → WebSocketService → WebSocketService
  wrote user c s = record (write_out accepts user c (lock s)).1 { lock_depth = s.lock_depth }

  pub writeable-eq :
      (user : ℕ) (c : WebSocketConnection) (s : WebSocketService)
      → find_connection user s.connections ≡ some c
      → lws_callback handlers accepts (server_writeable user) s
        ≡ some ((write_loop accepts user c.write_queue s.calls).0, wrote user c s)
  unfolding write_out
  writeable-eq user c s h =
      lws_callback-eq (server_writeable user) s (write_out accepts user c (lock s)).1
        (write_loop accepts user c.write_queue s.calls).0 (dispatch-writeable user c (lock s) h)
        refl

  writeable-Closing :
      (user : ℕ) (s : WebSocketService)
      → (k : Closing user s)
      → lws_callback handlers accepts (server_writeable user) s
        ≡ some (false, wrote user k.connection s)
  writeable-Closing user s k =
      writeable-eq user k.connection s k.is_there
      ∙ ap (λ r. some (r, wrote user k.connection s))
          (ap (λ q. (write_loop accepts user q s.calls).0) k.queued
            ∙ write_loop-closing accepts user k.before k.after s.calls)

  -- Stop returns with the mutex locked as often as before. Whatever is sent on the connections after
  -- it, and whatever lws_write answers, the next writable callback of a connection that was there
  -- gives -1.
  pub stop_service-closes :
      (user : ℕ) (c : WebSocketConnection) (sends : List (ℕ × Fragment)) (s : WebSocketService)
      → find_connection user s.connections ≡ some c
      → (stopped after : WebSocketService) × (stop_service s ≡ some stopped)
        × (stopped.lock_depth ≡ s.lock_depth)
        × (lws_callback handlers accepts (server_writeable user) (send_all sends stopped)
            ≡ some (false, after))
  stop_service-closes user c sends s h =
      let stopped = record (stop_locked (lock s)) { lock_depth = s.lock_depth } in
      let k = stop_locked-Closing user c (lock s) h in
      let closing : Closing user stopped = record {
        connection = k.connection;
        before = k.before;
        after = k.after;
        is_there = k.is_there;
        queued = k.queued;
      } in
      let sent = send_all-Closing user sends stopped closing in
      (
        stopped,
        wrote user sent.connection (send_all sends stopped),
        stop_service-eq s,
        refl,
        writeable-Closing user (send_all sends stopped) sent,
      )
