-- ===== src/WebSocket/Returning.antt =====
-- components/network_services/websocket_service.cpp: MainLooper returns after Stop.
use orb_private.Prelude.{
  ℕ, suc, ◌≡◌, refl, sym, ◌∙◌, ap, inl, inr, Bool, true, false, not, ◌||◌, some, List, [], ◌∷◌,
  Bool-cases,
}
use orb_private.WebSocket.{
  FragmentWriteInfo, WebSocketConnection, LwsCall, cancel_service, WebSocketService, call,
  unlock_from, lock,
}
use orb_private.WebSocket.Callback.{Handlers, has_none}
use orb_private.WebSocket.Looper.{
  Event, Round, users, happen_all, main_loop, destroy_context, end_loop, main_looper, continues,
}
use orb_private.WebSocket.Store.{find-empty}
use orb_private.WebSocket.Writing.{unlock-locked}
use orb_private.WebSocket.Draining.{
  Keeps, Leaving, leaving, happen_all-leaving, users-outside, differs,
}

destroy_context-fields :
    (s : WebSocketService)
    → let after = destroy_context s in
      (after.lock_depth ≡ s.lock_depth)
      × (after.stop ≡ s.stop)
      × (after.connections ≡ s.connections)
      × (after.has_context ≡ false)
unfolding destroy_context
destroy_context-fields s = elim (Bool-cases s.has_context) [
  | inl there ↦ rw there (refl, refl, refl, refl)
  | inr gone ↦ rw gone (refl, refl, refl, refl)
]

-- A call of lws_service in which the connections end, and which may fail.
abbrev pub last_round : Bool → WebSocketService → Round
last_round fails s = record { events = leaving (users s.connections); fails = fails }

module _ (handlers : Handlers) (accepts : List LwsCall → FragmentWriteInfo → Bool)
    (keeps : (user : ℕ) (s : WebSocketService) → Keeps s (handlers.on_disconnected user s)) where
  -- The loop has ended, with the mutex locked.
  record Over (n : ℕ) (s : WebSocketService) : Type 0 where
    stop : s.stop ≡ true
    none_left : s.connections ≡ []
    depth : s.lock_depth ≡ suc n

  main_loop_over :
      (rs : List Round) (s : WebSocketService)
      → continues handlers accepts s ≡ false
      → main_loop handlers accepts rs s ≡ some (true, s)
  unfolding main_loop
  main_loop_over [] s h = rw h refl
  main_loop_over (r ∷ rs) s h = rw h refl

  empty_over :
      (s : WebSocketService)
      → s.stop ≡ true
      → s.connections ≡ []
      → continues handlers accepts s ≡ false
  empty_over s h e = rw (h, e) refl

  has_none-eq : (cs : List (ℕ × WebSocketConnection)) → has_none cs ≡ true → cs ≡ []
  has_none-eq [] h = refl
  has_none-eq (c ∷ cs) h = absurd (differs (sym h))

  main_loop-Over :
      (fails : Bool) (events : List Event) (rs : List Round) (s served : WebSocketService)
      → continues handlers accepts s ≡ true
      → happen_all handlers accepts events s ≡ some served
      → Leaving s.lock_depth [] served
      → (s' : WebSocketService) × (main_loop handlers accepts
            (record { events = events; fails = fails } ∷ rs)
            (lock s)
          ≡ some (true, s'))
        × Over s.lock_depth s'
  unfolding main_loop unlock_from
  main_loop-Over true events rs s served c e k = (
    call cancel_service (record (lock served) { stop = true; connections = [] }),
    rw (c, e) refl,
    record { stop = refl; none_left = refl; depth = ap suc k.depth },
  )
  main_loop-Over false events rs s served c e k =
      let none_left = find-empty served.connections (λ v. k.outside v refl) in
      (
        lock served,
        rw (c, e, main_loop_over rs (lock served) (empty_over (lock served) k.stop none_left)) refl,
        record { stop = k.stop; none_left = none_left; depth = ap suc k.depth },
      )

  main_loop-ends :
      (rs : List Round) (fails : Bool) (s : WebSocketService)
      → s.stop ≡ true
      → (s' : WebSocketService) × (main_loop handlers accepts (last_round fails s ∷ rs) (lock s)
          ≡ some (true, s'))
        × Over s.lock_depth s'
  main_loop-ends rs fails s h = elim (Bool-cases (has_none s.connections)) [
    | inl is ↦
        let none_left = has_none-eq s.connections is in
        (
          lock s,
          main_loop_over (last_round fails s ∷ rs) (lock s) (empty_over (lock s) h none_left),
          record { stop = h; none_left = none_left; depth = refl },
        )
    | inr isnt ↦
        let served =
          happen_all-leaving handlers accepts keeps s.lock_depth (users s.connections) s
            (record { stop = h; depth = refl; outside = users-outside s.connections }) in
        main_loop-Over fails (leaving (users s.connections)) rs s served.0
          (ap (λ b. not s.stop || not b) isnt ∙ ap (λ b. not b || true) h) served.1 served.2
  ]

  end_loop_over :
      (n : ℕ) (s : WebSocketService)
      → s.lock_depth ≡ suc n
      → end_loop handlers accepts (true, s)
        ≡ some (true, handlers.on_service_stopped (record (destroy_context s) { lock_depth = n }))
  unfolding end_loop
  end_loop_over n s h =
      rw (unlock-locked n (destroy_context s) ((destroy_context-fields s).0 ∙ h)) refl

  -- While the service stops, one call of lws_service in which every open connection is written to and
  -- then closed ends the loop, whether the call fails or not, where the handler of a connection that
  -- ends keeps the stop flag and the mutex, and gives no user a connection: MainLooper returns, and
  -- calls the service's OnServiceStopped with no connection and no context left, and the mutex locked
  -- as often as before.
  pub main_looper-ends :
      (rs : List Round) (fails : Bool) (s : WebSocketService)
      → s.stop ≡ true
      → (t : WebSocketService) × (main_looper handlers accepts (last_round fails s ∷ rs) s
          ≡ some (true, handlers.on_service_stopped t))
        × (t.stop ≡ true)
        × (t.connections ≡ [])
        × (t.has_context ≡ false)
        × (t.lock_depth ≡ s.lock_depth)
  unfolding main_looper
  main_looper-ends rs fails s h =
      let looped = main_loop-ends rs fails s h in
      let fields = destroy_context-fields looped.0 in
      let over = looped.2 in
      (
        record (destroy_context looped.0) { lock_depth = s.lock_depth },
        rw (looped.1, end_loop_over s.lock_depth looped.0 over.depth) refl,
        fields.1 ∙ over.stop,
        fields.2 ∙ over.none_left,
        fields.3,
        refl,
      )
