-- ===== src/Ait/Application.antt =====
-- components/application_manager/ait.cpp: the descriptor loop of an application.
pub mod Loop
use orb_private.Prelude.{
  ℕ, zero, suc, ◌+◌, ◌%◌, Bool, true, false, not, ◌&&◌, Option, none, some, List, [], ◌∷◌, Pointer,
  ltb, leb, ◌==◌, if◌then◌else◌, ◌>>=◌, length, drop, byte,
}
use orb_private.Ait.{AitAppDesc, AppDesc, AppNameDesc, TransportProtocolDesc}
use orb_private.Ait.Descriptors.{
  parse_app_desc, parse_app_name_desc, parse_simple_app_location_desc,
  parse_simple_app_boundary_desc, parse_parental_rating_desc, parse_graphics_constraints,
}
use orb_private.Ait.Transport.{parse_transport_protocol_desc}

abbrev pub dtag_app_desc : ℕ
dtag_app_desc = 0x00

abbrev pub dtag_app_name : ℕ
dtag_app_name = 0x01

abbrev pub dtag_transport_protocol : ℕ
dtag_transport_protocol = 0x02

abbrev pub dtag_graphics_constraints : ℕ
dtag_graphics_constraints = 0x14

abbrev pub dtag_simple_app_location : ℕ
dtag_simple_app_location = 0x15

abbrev pub dtag_app_usage : ℕ
dtag_app_usage = 0x16

abbrev pub dtag_simple_app_boundary : ℕ
dtag_simple_app_boundary = 0x17

abbrev pub dtag_parental_rating : ℕ
dtag_parental_rating = 0x55

-- `if (ParseTransportProtocolDesc(...)) numTransports++`
unfoldable pub add_transport : Pointer → AitAppDesc → Option AitAppDesc
add_transport p app = do
  (new_desc, transport_array) ← parse_transport_protocol_desc p app.transport_array
  some (record app {
    transport_array = transport_array;
    num_transports = if new_desc then (app.num_transports + 1) % 256 else app.num_transports;
  })

-- The DTAG_APP_USAGE case.
unfoldable pub parse_app_usage : Pointer → AitAppDesc → Option AitAppDesc
parse_app_usage p app = do
  len ← byte p 0
  if len == 1 && not (app.usage_type == 1)
      then (do usage ← byte p 1; some (record app { usage_type = usage }))
      else some app

-- The switch on the tag.
unfoldable pub parse_descriptor : ℕ → Pointer → AitAppDesc → Option AitAppDesc
parse_descriptor tag p app =
    if tag == dtag_app_desc
    then (do d ← parse_app_desc p app.app_desc; some (record app { app_desc = d }))
    else if tag == dtag_app_name
    then (do n ← parse_app_name_desc p app.app_name; some (record app { app_name = n }))
    else if tag == dtag_transport_protocol
    then add_transport p app
    else if tag == dtag_simple_app_location
    then (do l ← parse_simple_app_location_desc p app.location; some (record app { location = l }))
    else if tag == dtag_app_usage
    then parse_app_usage p app
    else if tag == dtag_simple_app_boundary
    then parse_simple_app_boundary_desc p app
    else if tag == dtag_parental_rating
    then parse_parental_rating_desc p app
    else if tag == dtag_graphics_constraints
    then parse_graphics_constraints p app
    else some app

-- `for (done = 0; done < len;)`. A round reads two bytes at least, so the buffer's length is fuel
-- enough: at 0 nothing is left to read. `done` is a uint16.
unfoldable pub parse_application_loop : ℕ → ℕ → ℕ → Pointer → AitAppDesc → Option AitAppDesc
parse_application_loop zero done len p app = if ltb done len then none else some app
parse_application_loop (suc fuel) done len p app =
    let round = (do
      tag ← byte p 0
      app' ← parse_descriptor tag (drop 1 p) app
      size ← byte p 1
      parse_application_loop fuel ((done + (size + 2)) % 65536) len (drop (size + 2) p) app') in
    if ltb done len then round else some app

-- Ait::ParseApplication
unfoldable pub parse_application : Pointer → ℕ → AitAppDesc → Option AitAppDesc
parse_application p len app = parse_application_loop (length p) 0 len p app
