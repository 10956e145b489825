-- ===== src/XmlAit/Application.antt =====
-- components/application_manager/xml_parser.cpp: an application of an XML AIT.
pub mod Frame
pub mod Transports
pub mod Names
pub mod Kept
pub mod Counter
pub mod Slots
use orb_private.Prelude.{
  ℕ, zero, suc, ◌+◌, ◌-◌, ◌*◌, ◌%◌, ◌^◌, Bool, true, false, ◌&&◌, Option, none, some, List, [], ◌∷◌,
  ◌++◌, Text, codes, text_eq, starts_with, ltb, leb, ◌==◌, if◌then◌else◌, ◌>>=◌, length, get_elem?,
  set, take, drop, replicate,
}
use orb_private.Ait.{
  LangString, AppNameDesc, AppProfile, AitAppDesc, DvbTriplet, OcSelectorBytes, UrlSelectorBytes,
  TransportProtocolDesc, max_num_protocols, protocol_object_carousel, protocol_http,
}
use orb_private.Ait.Transport.{scan_slots}
use orb_private.XmlAit.{
  Attribute, Node, element, leaf, Nodes, nil, cons, each, walk, first_content, content_or,
  get_property, property_or, char_at, parse_int, parse_hex, get_content_int, get_content_string,
}
use orb_private.XmlAit.Descriptor.{parse_app_desc, parse_app_desc_graphics}

abbrev pub zero_name : LangString
zero_name = record { lang_code = 0; name = [] }

-- std::vector::resize
abbrev pub resize {ℓ} : {A : Type ℓ} → ℕ → A → List A → List A
resize n a xs = take n xs ++ replicate (n - length xs) a

abbrev pub has_content : Nodes → Bool
has_content = content_or false (λ s. true)

-- The counters of XmlAllocApplication: the names with a content, and the transports.
unfoldable pub alloc_child : Node → ℕ × ℕ → ℕ × ℕ
alloc_child (leaf c) n = n
alloc_child (element name attributes children) (num_langs, num_transports) =
    if text_eq name (codes "appName")
    then (if has_content children
        then ((num_langs + 1) % 2 ^ 8, num_transports)
        else (num_langs, num_transports))
    else if starts_with name (codes "application") && text_eq (drop 11 name) (codes "Transport")
    then (num_langs, (num_transports + 1) % 2 ^ 8)
    else (num_langs, num_transports)

-- XmlAllocApplication
unfoldable pub alloc_application : Nodes → AitAppDesc → AitAppDesc
alloc_application nodes app =
    let counted = walk alloc_child nodes (0, 0) in
    record app {
      app_name = record {
        num_langs = counted.0;
        names = resize counted.0 zero_name app.app_name.names;
      };
      num_transports = counted.1;
    }

-- *dptr << 16 + *(dptr + 1) << 8 + *(dptr + 2)
unfoldable pub language_code : Text → Option ℕ
language_code s = do
  a ← char_at s 0
  b ← char_at s 1
  c ← char_at s 2
  some (a * 2 ^ 16 + b * 2 ^ 8 + c)

-- What XmlParseAppName writes to the name it has found.
unfoldable pub fill_name : List Attribute → Nodes → LangString → Option LangString
fill_name attributes children l = do
  lang_code ← property_or (some l.lang_code) language_code (codes "Language") attributes
  some (record { lang_code = lang_code; name = content_or l.name (λ s. s) children })

-- XmlParseAppName: the first of the names whose language code is zero is written.
unfoldable pub fill_first_name :
    (LangString → Option LangString) → ℕ → List LangString → Option (List LangString)
fill_first_name fill zero names = some names
fill_first_name fill (suc n) [] = none
fill_first_name fill (suc n) (l ∷ names) =
    if l.lang_code == 0
    then (do l' ← fill l; some (l' ∷ names))
    else (do names' ← fill_first_name fill n names; some (l ∷ names'))

unfoldable pub parse_app_name : List Attribute → Nodes → AppNameDesc → Option AppNameDesc
parse_app_name attributes children app_name = do
  names ← fill_first_name (fill_name attributes children) app_name.num_langs app_name.names
  some (record app_name { names = names })

-- The body of the loop of XmlParseAppId.
unfoldable pub app_id_child : Node → AitAppDesc → AitAppDesc
app_id_child (leaf c) app = app
app_id_child (element name attributes children) app =
    if text_eq name (codes "orgId")
    then record app { org_id = get_content_int children }
    else if text_eq name (codes "appId")
    then record app { app_id = get_content_int children % 2 ^ 16 }
    else app

-- XmlParseAppId
unfoldable pub parse_app_id : Nodes → AitAppDesc → AitAppDesc
parse_app_id children app = walk app_id_child children app

-- XmlParseAppUsage
unfoldable pub app_usage_child : Node → AitAppDesc → AitAppDesc
app_usage_child (leaf c) app = app
app_usage_child (element name attributes children) app =
    if text_eq name (codes "ApplicationUsage")
    then record app { app_usage = get_content_string children }
    else app

unfoldable pub parse_app_usage : Nodes → AitAppDesc → AitAppDesc
parse_app_usage children app = walk app_usage_child children app

-- XmlParseAppBoundary. No caller uses its result.
unfoldable pub app_boundary_child : Node → AitAppDesc → AitAppDesc
app_boundary_child (leaf c) app = app
app_boundary_child (element name attributes children) app =
    if text_eq name (codes "BoundaryExtension")
    then content_or app (λ s. record app { boundaries = app.boundaries ++ s ∷ [] }) children
    else app

unfoldable pub parse_app_boundary : Nodes → AitAppDesc → AitAppDesc
parse_app_boundary children app = walk app_boundary_child children app

-- XmlParseDvbTriplet
unfoldable pub parse_dvb_triplet : List Attribute → DvbTriplet → DvbTriplet
parse_dvb_triplet attributes dvb = record {
  original_network_id =
      property_or dvb.original_network_id (λ s. parse_int s % 2 ^ 16) (codes "OrigNetId")
        attributes;
  transport_stream_id =
      property_or dvb.transport_stream_id (λ s. parse_int s % 2 ^ 16) (codes "TSId") attributes;
  service_id =
      property_or dvb.service_id (λ s. parse_int s % 2 ^ 16) (codes "ServiceId") attributes;
}

-- The first switch of XmlParseAppTransport.
unfoldable pub protocol_of : Text → ℕ
protocol_of s =
    if text_eq s (codes "mhp:HTTPTransportType")
    then protocol_http
    else if text_eq s (codes "mhp:OCTransportType")
    then protocol_object_carousel
    else 0

unfoldable pub url_child : Node → UrlSelectorBytes → UrlSelectorBytes
url_child (leaf c) url = url
url_child (element name attributes children) url =
    if text_eq name (codes "URLBase")
    then content_or url (λ s. record url { base_url = s }) children
    else if text_eq name (codes "URLExtension")
    then content_or url (λ s. record url { extension_urls = url.extension_urls ++ s ∷ [] }) children
    else url

unfoldable pub oc_child : Node → OcSelectorBytes → OcSelectorBytes
oc_child (leaf c) oc = oc
oc_child (element name attributes children) oc =
    if text_eq name (codes "DvbTriplet")
    then record oc { dvb = parse_dvb_triplet attributes oc.dvb; remote_connection = true }
    else if text_eq name (codes "TextualId")
    then oc
    else if text_eq name (codes "ComponentTag")
    then property_or oc (λ s. record oc { component_tag = parse_hex s 2 % 2 ^ 8 })
        (codes "ComponentTag") attributes
    else oc

-- The second switch, and the flag after it.
unfoldable pub fill_transport : ℕ → Nodes → TransportProtocolDesc → TransportProtocolDesc
fill_transport protocol_id children t =
    let named = record t { protocol_id = protocol_id; failed_to_load = false } in
    if protocol_id == protocol_http
    then record named { url = walk url_child children t.url }
    else if protocol_id == protocol_object_carousel
    then record named { oc = walk oc_child children t.oc }
    else named

-- XmlParseAppTransport: with no free slot found, it writes behind the array, which is a fault.
unfoldable pub parse_app_transport :
    List Attribute → Nodes → List TransportProtocolDesc → Option (List TransportProtocolDesc)
parse_app_transport attributes children trns =
    let protocol_id = property_or 0 protocol_of (codes "type") attributes in
    let (found, free_index) = scan_slots protocol_id 0 max_num_protocols trns in
    let i = (if free_index == max_num_protocols then max_num_protocols else found) in
    if leb max_num_protocols i
    then (do
      slot ← get_elem? trns free_index
      some (set trns free_index (fill_transport protocol_id children slot)))
    else some trns

-- XmlParseAppLocation
unfoldable pub parse_app_location : Nodes → AitAppDesc → AitAppDesc
parse_app_location children app = content_or app (λ s. record app { location = s }) children

module _ (indeterminate : AppProfile) where
  -- What follows "application" in an element's name.
  unfoldable pub application_part : Text → List Attribute → Nodes → AitAppDesc → Option AitAppDesc
  application_part part attributes children app =
      if text_eq part (codes "Identifier")
      then some (parse_app_id children app)
      else if text_eq part (codes "Descriptor")
      then some (parse_app_desc indeterminate children app)
      else if text_eq part (codes "UsageDescriptor")
      then some (parse_app_usage children app)
      else if text_eq part (codes "Boundary")
      then some (parse_app_boundary children app)
      else if text_eq part (codes "Transport")
      then (do
        transport_array ← parse_app_transport attributes children app.transport_array
        some (record app { transport_array = transport_array }))
      else if text_eq part (codes "Location")
      then some (parse_app_location children app)
      else some app

  -- The body of the loop of XmlParseApplication.
  unfoldable pub application_child : Node → AitAppDesc → Option AitAppDesc
  application_child (leaf c) app = some app
  application_child (element name attributes children) app =
      if text_eq name (codes "appName")
      then (do
        app_name ← parse_app_name attributes children app.app_name
        some (record app { app_name = app_name }))
      else if starts_with name (codes "application")
      then application_part (drop 11 name) attributes children app
      else if text_eq name (codes "GraphicsConstraints")
      then some (parse_app_desc_graphics children app)
      else some app

  -- XmlParseApplication
  unfoldable pub parse_application : Nodes → AitAppDesc → Option AitAppDesc
  parse_application nodes app = each application_child nodes app
