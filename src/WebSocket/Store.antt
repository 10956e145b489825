-- ===== src/WebSocket/Store.antt =====
-- components/network_services/websocket_service.cpp: `connections_` as a map from user pointers.
use orb_private.Prelude.{
  ℕ, ◌≡◌, refl, sym, ◌∙◌, ap, inl, inr, false, Option, none, some, List, [], ◌∷◌, ◌==◌, ==_iff,
  ==_refl, Bool-cases, if◌then◌else◌,
}
use orb_private.WebSocket.{
  WebSocketConnection, find_connection, change_connection, erase_connection,
}

unfoldable pub mapped :
    (WebSocketConnection → WebSocketConnection)
    → Option WebSocketConnection
    → Option WebSocketConnection
mapped f none = none
mapped f (some c) = some (f c)

found : {A : Type 0} {a : A} → some a ≡ none → ⊥
found h = cc

-- A change is found at its user.
pub find-change_same :
    (user : ℕ)
    → (f : WebSocketConnection → WebSocketConnection) → (cs : List (ℕ × WebSocketConnection))
    → find_connection user (change_connection user f cs) ≡ mapped f (find_connection user cs)
unfolding find_connection change_connection mapped
find-change_same user f [] = refl
find-change_same user f ((u, d) ∷ cs) = elim (Bool-cases (u == user)) [
  | inl is ↦ rw is refl
  | inr isnt ↦ rw isnt (find-change_same user f cs)
]

-- Another user's connection stays.
pub find-change_other :
    (user other : ℕ)
    → (user == other) ≡ false
    → (f : WebSocketConnection → WebSocketConnection) → (cs : List (ℕ × WebSocketConnection))
    → find_connection other (change_connection user f cs) ≡ find_connection other cs
unfolding find_connection change_connection
find-change_other user other differ f [] = refl
find-change_other user other differ f ((u, d) ∷ cs) = elim (Bool-cases (u == user)) [
  | inl is ↦
      let here = ap (λ v. v == other) ((==_iff u user).0 is) ∙ differ in
      rw here (find-change_other user other differ f cs)
  | inr isnt ↦
      rw isnt (
        ap (λ rest. if u == other then some d else rest) (find-change_other user other differ f cs))
]

-- Two changes of one user are one.
pub change-change :
    (user : ℕ)
    → (g f : WebSocketConnection → WebSocketConnection) → (cs : List (ℕ × WebSocketConnection))
    → change_connection user g (change_connection user f cs)
      ≡ change_connection user (λ c. g (f c)) cs
unfolding change_connection
change-change user g f [] = refl
change-change user g f ((u, d) ∷ cs) = elim (Bool-cases (u == user)) [
  | inl is ↦ rw is (ap (λ rest. (u, g (f d)) ∷ rest) (change-change user g f cs))
  | inr isnt ↦ rw isnt (ap (λ rest. (u, d) ∷ rest) (change-change user g f cs))
]

-- A user that has no connection has none after a change, or as one is erased.
pub find-change_none :
    (other user : ℕ)
    → (f : WebSocketConnection → WebSocketConnection) → (cs : List (ℕ × WebSocketConnection))
    → find_connection other cs ≡ none
    → find_connection other (change_connection user f cs) ≡ none
unfolding mapped
find-change_none other user f cs h = elim (Bool-cases (user == other)) [
  | inl same ↦
      ap (λ u. find_connection other (change_connection u f cs)) ((==_iff user other).0 same)
      ∙ find-change_same other f cs
      ∙ ap (mapped f) h
  | inr differ ↦ find-change_other user other differ f cs ∙ h
]

pub find-erase_same :
    (user : ℕ) (cs : List (ℕ × WebSocketConnection))
    → find_connection user (erase_connection user cs) ≡ none
unfolding find_connection erase_connection
find-erase_same user [] = refl
find-erase_same user ((u, d) ∷ cs) = elim (Bool-cases (u == user)) [
  | inl is ↦ rw is (find-erase_same user cs)
  | inr isnt ↦ rw (isnt, isnt) (find-erase_same user cs)
]

pub find-erase_other :
    (other user : ℕ)
    → (user == other) ≡ false
    → (cs : List (ℕ × WebSocketConnection))
    → find_connection other (erase_connection user cs) ≡ find_connection other cs
unfolding find_connection erase_connection
find-erase_other other user differ [] = refl
find-erase_other other user differ ((u, d) ∷ cs) = elim (Bool-cases (u == user)) [
  | inl is ↦
      let here = ap (λ v. v == other) ((==_iff u user).0 is) ∙ differ in
      rw (is, here) (find-erase_other other user differ cs)
  | inr isnt ↦
      rw isnt
        (ap (λ rest. if u == other then some d else rest) (find-erase_other other user differ cs))
]

-- A map in which no user has a connection is empty.
pub find-empty :
    (cs : List (ℕ × WebSocketConnection)) → ((user : ℕ) → find_connection user cs ≡ none) → cs ≡ []
unfolding find_connection
find-empty [] h = refl
find-empty ((u, d) ∷ cs) h =
    absurd (found (ap (λ b. if b then some d else find_connection u cs) (sym (==_refl u)) ∙ h u))
