-- ===== src/Ait/Transport.antt =====
-- components/application_manager/ait.cpp: the transport protocol descriptor, and what is asked of an
-- application's transports.
pub mod Parsing
pub mod Choice
use orb_private.Prelude.{
  ℕ, zero, suc, ◌+◌, ◌-◌, ◌*◌, ◌/◌, ◌%◌, Bool, true, false, not, ◌&&◌, ◌||◌, Option, none, some,
  List, [], ◌∷◌, ◌++◌, Text, Pointer, codes, is_empty, ltb, leb, ◌==◌, if◌then◌else◌, ◌>>=◌, length,
  get_elem?, set, drop, byte, word, text_at,
}
use orb_private.Ait.{
  DvbTriplet, OcSelectorBytes, UrlSelectorBytes, TransportProtocolDesc, AitAppDesc,
  max_num_protocols, protocol_object_carousel, protocol_http,
}
use orb_private.Ait.Descriptors.{read_texts}

-- The search loop of ParseTransportProtocolDesc: where it stops, and the first free slot that it
-- has passed (`max_num_protocols` if none).
unfoldable pub scan_slots : ℕ → ℕ → ℕ → List TransportProtocolDesc → ℕ × ℕ
scan_slots protocol_id i free_index [] = (i, free_index)
scan_slots protocol_id i free_index (t ∷ ts) =
    if t.protocol_id == protocol_id
    then (i, free_index)
    else scan_slots protocol_id (i + 1)
        (if t.protocol_id == 0 && free_index == max_num_protocols then i else free_index) ts

-- The selector bytes of an object carousel.
unfoldable pub parse_oc : Pointer → Option OcSelectorBytes
parse_oc p = do
  flags ← byte p 0
  if leb 1 (flags / 128 % 2)
      then (do
        original_network_id ← word p 1
        transport_stream_id ← word p 3
        service_id ← word p 5
        component_tag ← byte p 7
        some (record {
          dvb = record {
            original_network_id = original_network_id;
            transport_stream_id = transport_stream_id;
            service_id = service_id;
          };
          component_tag = component_tag;
          remote_connection = true;
        }))
      else (do
        component_tag ← byte p 1
        some (record {
          dvb = record { original_network_id = 0; transport_stream_id = 0; service_id = 0 };
          component_tag = component_tag;
          remote_connection = false;
        }))

-- The selector bytes of a URL base and its extensions.
unfoldable pub parse_url : UrlSelectorBytes → Pointer → Option UrlSelectorBytes
parse_url url p = do
  url_len ← byte p 0
  base_url ← text_at url_len (drop 1 p)
  let extensions = drop url_len (drop 1 p)
  count ← byte extensions 0
  (extension_urls, rest) ← read_texts count url.extension_urls (drop 1 extensions)
  some (record { base_url = base_url; extension_urls = extension_urls })

-- The switch on the protocol.
unfoldable pub parse_selector : ℕ → Pointer → TransportProtocolDesc → Option TransportProtocolDesc
parse_selector protocol_id p t =
    if protocol_id == protocol_object_carousel
    then (do oc ← parse_oc p; some (record t { oc = oc }))
    else if protocol_id == protocol_http
    then (do url ← parse_url t.url p; some (record t { url = url }))
    else some t

-- The slot for a new protocol is filled in.
unfoldable pub fill_slot : ℕ → ℕ → Pointer → TransportProtocolDesc → Option TransportProtocolDesc
fill_slot desc_len protocol_id p t = do
  label ← byte p 3
  let labelled = record t { protocol_id = protocol_id; transport_protocol_label = label }
  selected ←
      (if ltb 0 (desc_len - 3)
        then parse_selector protocol_id (drop 4 p) labelled
        else some labelled)
  some (record selected { failed_to_load = false })

-- Ait::ParseTransportProtocolDesc: the array, and whether the descriptor is a new valid one. With no
-- free slot found the source sets `i` to `max_num_protocols` and writes to the slot behind the array:
-- a fault.
unfoldable pub parse_transport_protocol_desc :
    Pointer → List TransportProtocolDesc → Option (Bool × List TransportProtocolDesc)
parse_transport_protocol_desc p trns = do
  desc_len ← byte p 0
  if leb 3 desc_len
      then (do
        protocol_id ← word p 1
        let (found, free_index) = scan_slots protocol_id 0 max_num_protocols trns
        let i = (if free_index == max_num_protocols then max_num_protocols else found)
        if leb max_num_protocols i
            then (do
              slot ← get_elem? trns free_index
              filled ← fill_slot desc_len protocol_id p slot
              some (true, set trns free_index filled))
            else some (false, trns))
      else some (false, trns)

-- The bytes of `printf("%x")`: no leading zero. `fuel` bounds the digits: eight hold a uint32.
abbrev hex_digit : ℕ → ℕ
hex_digit d = if ltb d 10 then b'0' + d else b'a' + (d - 10)

unfoldable pub hex_digits : ℕ → ℕ → Text → Text
hex_digits zero n text = text
hex_digits (suc fuel) n text =
    let text' = hex_digit (n % 16) ∷ text in
    let rest = hex_digits fuel (n / 16) text' in if ltb n 16 then text' else rest

unfoldable pub hex : ℕ → Text
unfolding hex_digits
hex n = hex_digits 8 n []

-- "dvb://%x.%x.%x.%x/"
unfoldable pub dvb_url : DvbTriplet → ℕ → Text
dvb_url dvb component_tag =
    codes "dvb://"
    ++ (hex dvb.original_network_id
        ++ b'.'
          ∷ (hex dvb.transport_stream_id
              ++ b'.' ∷ (hex dvb.service_id ++ b'.' ∷ (hex component_tag ++ codes "/"))))

abbrev pub viable_http : Bool → TransportProtocolDesc → Bool
viable_http is_network_available t =
    t.protocol_id == protocol_http && not t.failed_to_load && is_network_available

abbrev pub viable_carousel : TransportProtocolDesc → Bool
viable_carousel t = t.protocol_id == protocol_object_carousel && not t.failed_to_load

-- The loops below run over the first `n` entries of the array, and fault if they pass its end.
-- Ait::ExtractBaseURL
unfoldable pub extract_base_url_loop :
    DvbTriplet → Bool → ℕ → List TransportProtocolDesc → Option Text
extract_base_url_loop current_service is_network_available zero ts = some []
extract_base_url_loop current_service is_network_available (suc n) [] = none
extract_base_url_loop current_service is_network_available (suc n) (t ∷ ts) =
    if viable_http is_network_available t
    then some t.url.base_url
    else if viable_carousel t
    then some
        (dvb_url (if t.oc.remote_connection then t.oc.dvb else current_service) t.oc.component_tag)
    else extract_base_url_loop current_service is_network_available n ts

unfoldable pub extract_base_url : AitAppDesc → DvbTriplet → Bool → Option Text
unfolding extract_base_url_loop
extract_base_url app current_service is_network_available =
    extract_base_url_loop current_service is_network_available app.num_transports
      app.transport_array

-- Ait::ExtractProtocolId
unfoldable pub extract_protocol_id_loop : Bool → ℕ → List TransportProtocolDesc → Option ℕ
extract_protocol_id_loop is_network_available zero ts = some 0
extract_protocol_id_loop is_network_available (suc n) [] = none
extract_protocol_id_loop is_network_available (suc n) (t ∷ ts) =
    if viable_http is_network_available t
    then some protocol_http
    else if viable_carousel t
    then some protocol_object_carousel
    else extract_protocol_id_loop is_network_available n ts

unfoldable pub extract_protocol_id : AitAppDesc → Bool → Option ℕ
unfolding extract_protocol_id_loop
extract_protocol_id app is_network_available =
    extract_protocol_id_loop is_network_available app.num_transports app.transport_array

-- Ait::AppHasTransport
unfoldable pub has_transport_loop : ℕ → ℕ → List TransportProtocolDesc → Option Bool
has_transport_loop protocol_id zero ts = some false
has_transport_loop protocol_id (suc n) [] = none
has_transport_loop protocol_id (suc n) (t ∷ ts) =
    if t.protocol_id == protocol_id then some true else has_transport_loop protocol_id n ts

unfoldable pub app_has_transport : AitAppDesc → ℕ → Option Bool
unfolding has_transport_loop
app_has_transport app protocol_id =
    has_transport_loop protocol_id app.num_transports app.transport_array

-- Ait::AppSetTransportFailedToLoad
unfoldable pub set_failed_loop :
    ℕ → ℕ → List TransportProtocolDesc → Option (List TransportProtocolDesc)
set_failed_loop protocol_id zero ts = some ts
set_failed_loop protocol_id (suc n) [] = none
set_failed_loop protocol_id (suc n) (t ∷ ts) = do
  rest ← set_failed_loop protocol_id n ts
  some ((if t.protocol_id == protocol_id then record t { failed_to_load = true } else t) ∷ rest)

unfoldable pub app_set_transport_failed_to_load : AitAppDesc → ℕ → Option AitAppDesc
unfolding set_failed_loop
app_set_transport_failed_to_load app protocol_id = do
  transport_array ← set_failed_loop protocol_id app.num_transports app.transport_array
  some (record app { transport_array = transport_array })
