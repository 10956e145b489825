-- ===== src/XmlAit/Application/Transports.antt =====
-- The transports of an application in an XML AIT.
use orb_private.Prelude.{
  ℕ, ◌≤◌, ◌≡◌, ◌≢◌, ◌↔◌, ◌⊎◌, refl, Bool, true, false, ◌||◌, Option, none, some, List, [], ◌∷◌,
  ◌++◌, codes, text_eq, ◌==◌, if◌then◌else◌, length, Bool-cases, inl, inr, arith,
}
use orb_private.Ait.{TransportProtocolDesc}
use orb_private.Ait.Transport.{scan_slots}
use orb_private.XmlAit.{Attribute, element, leaf, Nodes, nil, cons, property_or}
use orb_private.XmlAit.Application.{protocol_of, fill_transport, parse_app_transport}

-- The protocol that a transport element names, 0 if it is unknown.
unfoldable pub protocol : List Attribute → ℕ
protocol attributes = property_or 0 protocol_of (codes "type") attributes

-- The protocol of a slot.
abbrev pub id_of : TransportProtocolDesc → ℕ
id_of t = t.protocol_id

-- XmlParseAppTransport writes behind the two slots exactly where the element's protocol is that of
-- the first slot, or the first slot is taken, and so is the second or it has the protocol. A
-- protocol that is not known, which is 0, is that of a free slot.
pub parse_app_transport-overrun :
    (attributes : List Attribute) (children : Nodes) (t u : TransportProtocolDesc)
    → (parse_app_transport attributes children (t ∷ u ∷ []) ≡ none) ↔ (
        (protocol attributes ≡ t.protocol_id)
        ⊎ ((t.protocol_id ≢ 0) × ((protocol attributes ≡ u.protocol_id) ⊎ (u.protocol_id ≢ 0))))
unfolding parse_app_transport scan_slots protocol
parse_app_transport-overrun attributes children t u = ground arith

-- The protocols of the transport elements of an application, in its order.
unfoldable pub protocols : Nodes → List ℕ
protocols nil = []
protocols (cons (leaf c) nodes) = protocols nodes
protocols (cons (element name attributes children) nodes) =
    let rest = protocols nodes in
    if text_eq name (codes "applicationTransport") then protocol attributes ∷ rest else rest

-- The two slots after transports with given protocols: each must be known and new.
unfoldable pub slots : List ℕ → Option (List ℕ)
slots [] = some (0 ∷ 0 ∷ [])
slots (p ∷ []) = if p == 0 then none else some (p ∷ 0 ∷ [])
slots (p ∷ q ∷ []) = if p == 0 || q == 0 || p == q then none else some (p ∷ q ∷ [])
slots (p ∷ q ∷ r ∷ ps) = none

pub slots-none : (ps qs : List ℕ) → slots ps ≡ none → slots (ps ++ qs) ≡ none
unfolding slots
slots-none [] qs h = cc
slots-none (p ∷ []) [] h = h
slots-none (p ∷ []) (q ∷ []) h = ground arith
slots-none (p ∷ []) (q ∷ r ∷ qs) h = refl
slots-none (p ∷ q ∷ []) [] h = h
slots-none (p ∷ q ∷ []) (r ∷ qs) h = refl
slots-none (p ∷ q ∷ r ∷ ps) qs h = refl

-- There are never more than two.
pub slots-length : (ps : List ℕ) {ids : List ℕ} → slots ps ≡ some ids → length ps ≤ 2
unfolding slots
slots-length [] h = omega arith
slots-length (p ∷ []) h = omega arith
slots-length (p ∷ q ∷ []) h = omega arith
slots-length (p ∷ q ∷ r ∷ ps) h = cc

fill_transport-id :
    (p : ℕ) (children : Nodes) (t : TransportProtocolDesc)
    → (fill_transport p children t).protocol_id ≡ p
unfolding fill_transport
fill_transport-id p children t = ground arith

-- The slots after another transport element.
unfoldable pub Stepped : List ℕ → Option (List TransportProtocolDesc) → Type 0
Stepped ps none = slots ps ≡ none
Stepped ps (some trns) =
    (t : TransportProtocolDesc) × (u : TransportProtocolDesc) × (trns ≡ t ∷ u ∷ [])
    × (slots ps ≡ some (t.protocol_id ∷ u.protocol_id ∷ []))

module _ (attributes : List Attribute) (children : Nodes) (t u : TransportProtocolDesc) where
  first-transport :
      t.protocol_id ≡ 0
      → u.protocol_id ≡ 0
      → parse_app_transport attributes children (t ∷ u ∷ []) ≡ (
          if protocol attributes == 0
          then none
          else some (fill_transport (protocol attributes) children t ∷ u ∷ []))
  unfolding parse_app_transport scan_slots protocol
  first-transport ht hu = ground arith

  second-transport :
      t.protocol_id ≢ 0
      → u.protocol_id ≡ 0
      → parse_app_transport attributes children (t ∷ u ∷ []) ≡ (
          if t.protocol_id == 0 || protocol attributes == 0 || t.protocol_id == protocol attributes
          then none
          else some (t ∷ fill_transport (protocol attributes) children u ∷ []))
  unfolding parse_app_transport scan_slots protocol
  second-transport ht hu = ground arith

  third-transport :
      t.protocol_id ≢ 0
      → u.protocol_id ≢ 0
      → parse_app_transport attributes children (t ∷ u ∷ []) ≡ none
  unfolding parse_app_transport scan_slots protocol
  third-transport ht hu = ground arith

  heads : {a b c d : ℕ} → some (a ∷ b ∷ []) ≡ some (c ∷ d ∷ []) → (c ≡ a) × (d ≡ b)
  heads h = (cc, cc)

  known : (b : Bool) {x y : List ℕ} → (if b then none else some x) ≡ some y → (b ≡ false) × (x ≡ y)
  known true h = cc
  known false h = (refl, cc)

  refused : (b : Bool) (x : Option (List ℕ)) → b ≡ true → (if b then none else x) ≡ none
  refused b x h = rw h refl

  granted : (b : Bool) (x : Option (List ℕ)) → b ≡ false → (if b then none else x) ≡ x
  granted b x h = rw h refl

  pub parse_app_transport-Stepped :
      (seen : List ℕ)
      → slots seen ≡ some (t.protocol_id ∷ u.protocol_id ∷ [])
      → Stepped
          (seen ++ protocol attributes ∷ [])
          (parse_app_transport attributes children (t ∷ u ∷ []))
  unfolding slots Stepped
  parse_app_transport-Stepped [] h =
      let (ht, hu) = heads h in
      let first = first-transport ht hu in
      elim (Bool-cases (protocol attributes == 0)) [
        | inl e ↦ rw (first, e) (refused (protocol attributes == 0) _ e)
        | inr e ↦
            rw (first, e)
              (
                fill_transport (protocol attributes) children t,
                u,
                refl,
                rw (fill_transport-id (protocol attributes) children t, hu)
                    (granted (protocol attributes == 0) _ e),
              )
      ]
  parse_app_transport-Stepped (q ∷ []) h =
      let (hq, same) = known (q == 0) h in
      let ht : t.protocol_id ≡ q = cc in
      let hu : u.protocol_id ≡ 0 = cc in
      let second = second-transport (ground (arith, ht, hq)) hu in
      elim (Bool-cases
        (t.protocol_id == 0 || protocol attributes == 0 || t.protocol_id == protocol attributes)) [
          | inl e ↦
              rw (second, e)
                (refused (q == 0 || protocol attributes == 0 || q == protocol attributes) _
                  (cc (e, ht)))
          | inr e ↦
              rw (second, e)
                (
                  t,
                  fill_transport (protocol attributes) children u,
                  refl,
                  rw (fill_transport-id (protocol attributes) children u, ht)
                      (granted (q == 0 || protocol attributes == 0 || q == protocol attributes) _
                        (cc (e, ht))),
                )
        ]
  parse_app_transport-Stepped (q ∷ r ∷ []) h =
      let (hq, same) = known (q == 0 || r == 0 || q == r) h in
      let ht : t.protocol_id ≡ q = cc in
      let hu : u.protocol_id ≡ r = cc in
      rw (third-transport (ground (arith, ht, hq)) (ground (arith, hu, hq))) refl
  parse_app_transport-Stepped (q ∷ r ∷ s ∷ seen) h = cc
