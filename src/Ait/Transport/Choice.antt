-- ===== src/Ait/Transport/Choice.antt =====
-- Which transport of an application is used.
use orb_private.Prelude.{
  ℕ, zero, suc, ◌≤◌, ◌≡◌, ◌≢◌, refl, Bool, true, ◌||◌, Option, none, some, List, [], ◌∷◌, Text,
  ◌==◌, Option-cases, inl, inr, if◌then◌else◌, length, arith,
}
use orb_private.Ait.{DvbTriplet, TransportProtocolDesc, AitAppDesc, protocol_http}
use orb_private.Ait.Transport.{
  viable_http, viable_carousel, dvb_url, extract_base_url_loop, extract_base_url,
  extract_protocol_id_loop, extract_protocol_id, set_failed_loop, app_set_transport_failed_to_load,
}

-- The first transport that can be used: a carousel, or HTTP with a network.
abbrev pub first_viable : Bool → ℕ → List TransportProtocolDesc → Option TransportProtocolDesc
first_viable net zero ts = none
first_viable net (suc n) [] = none
first_viable net (suc n) (t ∷ ts) =
    if viable_http net t || viable_carousel t then some t else first_viable net n ts

abbrev pub url_of : DvbTriplet → Option TransportProtocolDesc → Text
url_of service none = []
url_of service (some t) =
    if t.protocol_id == protocol_http
    then t.url.base_url
    else dvb_url (if t.oc.remote_connection then t.oc.dvb else service) t.oc.component_tag

abbrev pub protocol_of : Option TransportProtocolDesc → ℕ
protocol_of none = 0
protocol_of (some t) = t.protocol_id

module _ (service : DvbTriplet) (net : Bool) where
  extract_loops :
      (n : ℕ) (ts : List TransportProtocolDesc)
      → n ≤ length ts
      → (extract_base_url_loop service net n ts ≡ some (url_of service (first_viable net n ts)))
        × (extract_protocol_id_loop net n ts ≡ some (protocol_of (first_viable net n ts)))
  unfolding extract_base_url_loop extract_protocol_id_loop
  extract_loops zero ts h = (refl, refl)
  extract_loops (suc n) [] h = elim h [ ]
  extract_loops (suc n) (t ∷ ts) h = ground (arith, extract_loops n ts)

  pub extract_base_url-protocol_id :
      (app : AitAppDesc)
      → app.num_transports ≤ length app.transport_array
      → (extract_base_url app service net
          ≡ some (url_of service (first_viable net app.num_transports app.transport_array)))
        × (extract_protocol_id app net
            ≡ some (protocol_of (first_viable net app.num_transports app.transport_array)))
  unfolding extract_base_url extract_protocol_id
  extract_base_url-protocol_id app h = extract_loops app.num_transports app.transport_array h

set_failed_cons :
    (protocol_id n : ℕ) (t : TransportProtocolDesc) (ts us : List TransportProtocolDesc)
    → set_failed_loop protocol_id (suc n) (t ∷ ts) ≡ some us
    → (rest : List TransportProtocolDesc) × (set_failed_loop protocol_id n ts ≡ some rest)
      × (us
          ≡ (if t.protocol_id == protocol_id then record t { failed_to_load = true } else t) ∷ rest)
unfolding set_failed_loop
set_failed_cons protocol_id n t ts us h = elim (Option-cases (set_failed_loop protocol_id n ts)) [
  | inl e ↦ ground arith
  | inr (rest, e) ↦ (rest, e, ground arith)
]

set_failed_unused :
    (net : Bool) (protocol_id n : ℕ) (ts us : List TransportProtocolDesc)
    → protocol_id ≢ 0
    → set_failed_loop protocol_id n ts ≡ some us
    → extract_protocol_id_loop net n us ≢ some protocol_id
unfolding extract_protocol_id_loop
set_failed_unused net protocol_id zero ts us nz h e = ground arith
set_failed_unused net protocol_id (suc n) [] us nz h e = unfold set_failed_loop in cc
set_failed_unused net protocol_id (suc n) (t ∷ ts) us nz h e =
    let (rest, hr, shape) = set_failed_cons protocol_id n t ts us h in
    ground (arith, shape, set_failed_unused net protocol_id n ts rest nz hr)

-- After a protocol other than 0 has been marked as failed, without a fault, it is not the
-- protocol of the application.
pub extract_protocol_id-set_failed :
    (net : Bool) (protocol_id : ℕ) (app : AitAppDesc) {app' : AitAppDesc}
    → protocol_id ≢ 0
    → app_set_transport_failed_to_load app protocol_id ≡ some app'
    → extract_protocol_id app' net ≢ some protocol_id
unfolding app_set_transport_failed_to_load extract_protocol_id
extract_protocol_id-set_failed net protocol_id app nz h =
    elim (Option-cases (set_failed_loop protocol_id app.num_transports app.transport_array)) [
      | inl e ↦ ground arith
      | inr (us, e) ↦ λ chosen.
          set_failed_unused net protocol_id app.num_transports app.transport_array us nz e
            (ground arith)
    ]
