-- ===== src/WebSocket/Closing.antt =====
-- components/network_services/websocket_service.cpp: the closing fragments of the connections.
use orb_private.Prelude.{
  ℕ, ◌≡◌, refl, sym, ◌∙◌, ap, inl, inr, Bool, true, false, some, List, [], ◌∷◌, ◌++◌, append_assoc,
  ◌==◌, ==_iff, Bool-cases, if◌then◌else◌,
}
use orb_private.WebSocket.{
  Fragment, FragmentWriteInfo, WebSocketConnection, LwsCall, lws_write, close_reason,
  WebSocketService, close_info, enqueue, find_connection, write_of, send_fragment, close_connection,
  emplace,
}
use orb_private.WebSocket.Callback.{write_loop}
use orb_private.WebSocket.Looper.{users, close_all}
use orb_private.WebSocket.Store.{mapped, find-change_same, find-change_other}

abbrev Written : Type 0
Written = Bool × List FragmentWriteInfo × List LwsCall

ends :
    (closes all : Bool) (x y rest : Written)
    → x.0 ≡ false
    → y.0 ≡ false
    → rest.0 ≡ false
    → (if closes then x else if all then rest else y).0 ≡ false
ends true all x y rest hx hy h = hx
ends false true x y rest hx hy h = h
ends false false x y rest hx hy h = hy

-- A queue that has a closing fragment ends the connection.
pub write_loop-closing :
    (accepts : List LwsCall → FragmentWriteInfo → Bool)
    → (user : ℕ) (before after : List FragmentWriteInfo) (calls : List LwsCall)
    → (write_loop accepts user (before ++ close_info ∷ after) calls).0 ≡ false
unfolding write_loop
write_loop-closing accepts user [] after calls = refl
write_loop-closing accepts user (w ∷ before) after calls =
    ends w.close (accepts calls w)
      (false, before ++ close_info ∷ after, calls ++ close_reason user ∷ [])
      (false, before ++ close_info ∷ after, calls ++ lws_write user w ∷ [])
      (write_loop accepts user (before ++ close_info ∷ after) (calls ++ lws_write user w ∷ [])) refl
      refl (write_loop-closing accepts user before after (calls ++ lws_write user w ∷ []))

-- The connection of a user is there, and a closing fragment in its queue.
pub record Closing (user : ℕ) (s : WebSocketService) : Type 0 where
  pub connection : WebSocketConnection
  pub before : List FragmentWriteInfo
  pub after : List FragmentWriteInfo
  pub is_there : find_connection user s.connections ≡ some connection
  pub queued : connection.write_queue ≡ before ++ close_info ∷ after

-- The connections of a service, after a fragment is queued.
pub emplace-find :
    (user : ℕ) (w : FragmentWriteInfo) (s : WebSocketService) (c : WebSocketConnection)
    → find_connection user s.connections ≡ some c
    → find_connection user (emplace user w s).connections ≡ some (enqueue w c)
unfolding emplace mapped
emplace-find user w s c h =
    find-change_same user (enqueue w) s.connections ∙ ap (mapped (enqueue w)) h

pub emplace-Closing :
    (user other : ℕ) (w : FragmentWriteInfo) (s : WebSocketService)
    → Closing user s
    → Closing user (emplace other w s)
unfolding emplace
emplace-Closing user other w s k = elim (Bool-cases (other == user)) [
  | inl same ↦ record {
    connection = enqueue w k.connection;
    before = k.before;
    after = k.after ++ w ∷ [];
    is_there =
        ap (λ u. find_connection user (emplace u w s).connections) ((==_iff other user).0 same)
        ∙ emplace-find user w s k.connection k.is_there;
    queued = ap (λ q. q ++ w ∷ []) k.queued ∙ append_assoc k.before (close_info ∷ k.after) (w ∷ []);
  }
  | inr differ ↦ record {
    connection = k.connection;
    before = k.before;
    after = k.after;
    is_there = find-change_other other user differ (enqueue w) s.connections ∙ k.is_there;
    queued = k.queued;
  }
]

close_all-Closing :
    (user : ℕ) (us : List ℕ) (s : WebSocketService) → Closing user s → Closing user (close_all us s)
unfolding close_all
close_all-Closing user [] s k = k
close_all-Closing user (u ∷ us) s k =
    close_all-Closing user us (close_connection u s) (emplace-Closing user u close_info s k)

-- Each connection that Stop's loop comes to gets its closing fragment.
pub close_all-users :
    (user : ℕ) (c : WebSocketConnection) (cs : List (ℕ × WebSocketConnection))
    (s : WebSocketService)
    → find_connection user cs ≡ some c
    → (d : WebSocketConnection) × (find_connection user s.connections ≡ some d)
    → Closing user (close_all (users cs) s)
unfolding close_all users find_connection emplace
close_all-users user c [] s h k = absurd cc
close_all-users user c ((u, e) ∷ cs) s h (d, k) = elim (Bool-cases (u == user)) [
  | inl is ↦ close_all-Closing user (users cs) (close_connection u s) (record {
    connection = enqueue close_info d;
    before = d.write_queue;
    after = [];
    is_there =
        ap (λ v. find_connection user (emplace v close_info s).connections) ((==_iff u user).0 is)
        ∙ emplace-find user close_info s d k;
    queued = refl;
  })
  | inr isnt ↦
      close_all-users user c cs (close_connection u s)
        (sym (ap (λ b. if b then some e else find_connection user cs) isnt) ∙ h)
        (d, find-change_other u user isnt (enqueue close_info) s.connections ∙ k)
]

-- Fragments that are sent on connections, in any order.
abbrev pub send_all : List (ℕ × Fragment) → WebSocketService → WebSocketService
send_all [] s = s
send_all ((user, f) ∷ sends) s = send_all sends (send_fragment user f s)

pub send_all-Closing :
    (user : ℕ) (sends : List (ℕ × Fragment)) (s : WebSocketService)
    → Closing user s
    → Closing user (send_all sends s)
send_all-Closing user [] s k = k
send_all-Closing user ((u, f) ∷ sends) s k =
    send_all-Closing user sends (send_fragment u f s) (emplace-Closing user u (write_of f) s k)
