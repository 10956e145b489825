-- ===== src/WebSocket/Draining.antt =====
-- components/network_services/websocket_service.cpp: after Stop, the connections end.
use orb_private.Prelude.{
  ℕ, suc, ◌≡◌, refl, sym, ◌∙◌, ap, inl, inr, Bool, true, false, ◌&&◌, none, some, List, [], ◌∷◌,
  ◌==◌, ==_iff, Bool-cases, Option-cases, if◌then◌else◌,
}
use orb_private.WebSocket.{
  FragmentWriteInfo, WebSocketConnection, LwsCall, WebSocketService, find_connection,
  erase_connection, lock,
}
use orb_private.WebSocket.Callback.{
  Handlers, Reason, server_writeable, closed, for_known, has_none, forget_connection, write_out,
  write_loop, with_queue, dispatch,
}
use orb_private.WebSocket.Looper.{Event, callback, users, happen, happen_all}
use orb_private.WebSocket.Store.{find-change_none, find-erase_same, find-erase_other}
use orb_private.WebSocket.Writing.{lws_callback-eq, dispatch-writeable}

pub differs : true ≡ false → ⊥
differs h = cc

-- What a handler keeps: whether the service stops, how often the mutex is locked, and who has no connection.
pub record Keeps (before after : WebSocketService) : Type 0 where
  pub stop : after.stop ≡ before.stop
  pub depth : after.lock_depth ≡ before.lock_depth
  pub adds_none :
      (user : ℕ)
      → find_connection user before.connections ≡ none
      → find_connection user after.connections ≡ none

abbrev pub among : ℕ → List ℕ → Bool
among v [] = false
among v (u ∷ us) = let rest = among v us in if u == v then true else rest

-- A service that stops, and has connections of some users at most.
pub record Leaving (n : ℕ) (us : List ℕ) (s : WebSocketService) : Type 0 where
  pub stop : s.stop ≡ true
  pub depth : s.lock_depth ≡ n
  pub outside : (v : ℕ) → among v us ≡ false → find_connection v s.connections ≡ none

-- What the case LWS_CALLBACK_CLOSED leaves, but for the calls.
forget-fields :
    (handlers : Handlers) (accepts : List LwsCall → FragmentWriteInfo → Bool) (user : ℕ)
    → (s : WebSocketService)
    → let after = forget_connection handlers accepts user s in
      let told = handlers.on_disconnected user s in
      (after.stop ≡ told.stop)
      × (after.lock_depth ≡ told.lock_depth)
      × (after.connections ≡ erase_connection user told.connections)
unfolding forget_connection
forget-fields handlers accepts user s =
    let told = handlers.on_disconnected user s in
    elim (Bool-cases
      (told.stop && has_none (erase_connection user told.connections) && told.has_context)) [
        | inl is ↦ rw is (refl, refl, refl)
        | inr isnt ↦ rw isnt (refl, refl, refl)
      ]

-- The connections end, each after it is written to.
abbrev pub leaving : List ℕ → List Event
leaving [] = []
leaving (u ∷ us) = callback (server_writeable u) ∷ callback (closed u) ∷ leaving us

pub users-outside :
    (cs : List (ℕ × WebSocketConnection)) (v : ℕ)
    → among v (users cs) ≡ false
    → find_connection v cs ≡ none
unfolding users find_connection
users-outside [] v h = refl
users-outside ((u, c) ∷ cs) v h = elim (Bool-cases (u == v)) [
  | inl is ↦ absurd (differs (ap (λ b. if b then true else among v (users cs)) (sym is) ∙ h))
  | inr isnt ↦
      rw isnt (users-outside cs v (ap (λ b. if b then true else among v (users cs)) (sym isnt) ∙ h))
]

module _ (handlers : Handlers) (accepts : List LwsCall → FragmentWriteInfo → Bool)
    (keeps : (user : ℕ) (s : WebSocketService) → Keeps s (handlers.on_disconnected user s)) where
  closed-Leaving :
      (n user : ℕ) (us : List ℕ) (s : WebSocketService)
      → Leaving n (user ∷ us) s
      → Leaving n us (forget_connection handlers accepts user s)
  closed-Leaving n user us s k =
      let told = handlers.on_disconnected user s in
      let kept = keeps user s in
      let fields = forget-fields handlers accepts user s in
      record {
        stop = fields.0 ∙ kept.stop ∙ k.stop;
        depth = fields.1 ∙ kept.depth ∙ k.depth;
        outside = λ v out. ap (find_connection v) fields.2 ∙ elim (Bool-cases (user == v)) [
          | inl same ↦
              ap (λ u. find_connection v (erase_connection u told.connections))
                ((==_iff user v).0 same)
              ∙ find-erase_same v told.connections
          | inr differ ↦
              find-erase_other v user differ told.connections
              ∙ kept.adds_none v
                  (k.outside v (ap (λ b. if b then true else among v us) differ ∙ out))
        ];
      }

  -- An event after which the service has connections of those users at most.
  Ends : ℕ → List ℕ → Reason → WebSocketService → Type 0
  Ends n us reason s =
      (s' : WebSocketService) × (happen handlers accepts (callback reason) s ≡ some s')
      × Leaving n us s'

  happens :
      (reason : Reason) (s s' : WebSocketService) (result : Bool)
      → dispatch handlers accepts reason (lock s) ≡ some (result, s')
      → s'.lock_depth ≡ suc s.lock_depth
      → happen handlers accepts (callback reason) s ≡ some (record s' { lock_depth = s.lock_depth })
  unfolding happen
  happens reason s s' result h depth =
      rw (lws_callback-eq handlers accepts reason s s' result h depth) refl

  missing :
      (n user : ℕ) (us : List ℕ) (s : WebSocketService)
      → find_connection user s.connections ≡ none
      → Leaving n (user ∷ us) s
      → Leaving n us s
  missing n user us s h k = record {
    stop = k.stop;
    depth = k.depth;
    outside = λ v out. elim (Bool-cases (user == v)) [
      | inl same ↦ ap (λ u. find_connection u s.connections) (sym ((==_iff user v).0 same)) ∙ h
      | inr differ ↦ k.outside v (ap (λ b. if b then true else among v us) differ ∙ out)
    ];
  }

  closed-Ends :
      (n user : ℕ) (us : List ℕ) (s : WebSocketService)
      → Leaving n (user ∷ us) s
      → Ends n us (closed user) s
  unfolding dispatch for_known Ends
  closed-Ends n user us s k = elim (Option-cases (find_connection user s.connections)) [
    | inl h ↦ (
      s,
      happens (closed user) s (lock s) false
          (ap
            (λ o. some (
              for_known o (lock s) (λ c. (true, forget_connection handlers accepts user (lock s)))))
            h)
          refl,
      missing n user us s h k,
    )
    | inr (c, h) ↦
        let locked : Leaving (suc n) (user ∷ us) (lock s) = record {
          stop = k.stop;
          depth = ap suc k.depth;
          outside = k.outside;
        } in
        let left = closed-Leaving (suc n) user us (lock s) locked in
        let after = forget_connection handlers accepts user (lock s) in
        (
          record after { lock_depth = s.lock_depth },
          happens (closed user) s after true
              (ap (λ o. some (for_known o (lock s) (λ c. (true, after)))) h)
              (left.depth ∙ ap suc (sym k.depth)),
          record { stop = left.stop; depth = k.depth; outside = left.outside },
        )
  ]

  writeable-Ends :
      (n user : ℕ) (us : List ℕ) (s : WebSocketService)
      → Leaving n us s
      → Ends n us (server_writeable user) s
  unfolding dispatch for_known Ends write_out
  writeable-Ends n user us s k = elim (Option-cases (find_connection user s.connections)) [
    | inl h ↦ (
      s,
      happens (server_writeable user) s (lock s) false
          (ap (λ o. some (for_known o (lock s) (λ c. write_out accepts user c (lock s)))) h) refl,
      k,
    )
    | inr (c, h) ↦
        let written = write_loop accepts user c.write_queue s.calls in
        let after = (write_out accepts user c (lock s)).1 in
        (
          record after { lock_depth = s.lock_depth },
          happens (server_writeable user) s after written.0
              (dispatch-writeable handlers accepts user c (lock s) h) refl,
          record {
            stop = k.stop;
            depth = k.depth;
            outside = λ v out.
                find-change_none v user (with_queue written.1) s.connections (k.outside v out);
          },
        )
  ]

  pub happen_all-leaving :
      (n : ℕ) (us : List ℕ) (s : WebSocketService)
      → Leaving n us s
      → (s' : WebSocketService) × (happen_all handlers accepts (leaving us) s ≡ some s')
        × Leaving n [] s'
  unfolding happen_all Ends
  happen_all-leaving n [] s k = (s, refl, k)
  happen_all-leaving n (u ∷ us) s k =
      let first = writeable-Ends n u (u ∷ us) s k in
      let second = closed-Ends n u us first.0 first.2 in
      let others = happen_all-leaving n us second.0 second.2 in
      (others.0, rw (happen_all, first.1, second.1) others.1, others.2)
