-- ===== src/XmlAit/RoundTrip.antt =====
-- components/application_manager/xml_parser.cpp: an application, written as the elements of an XML AIT and
-- parsed.
use orb_private.Prelude.{
  ◌^◌, ◌<◌, ◌≡◌, ◌∙◌, refl, ap, true, Option, some, List, [], ◌∷◌, Text, codes, text_eq,
  starts_with, ◌>>=◌, All,
}
use orb_private.Ait.{
  AppProfile, TransportProtocolDesc, AitAppDesc, protocol_http, zero_app, zero_app_desc,
  zero_transport,
}
use orb_private.Ait.Transport.{scan_slots}
use orb_private.XmlAit.{
  Attribute, Node, element, Nodes, nil, cons, each, walk, first_content, get_property,
  get_content_string,
}
use orb_private.XmlAit.Application.{
  alloc_child, alloc_application, app_usage_child, parse_app_usage, app_boundary_child,
  parse_app_boundary, protocol_of, url_child, fill_transport, parse_app_transport,
  parse_app_location, application_part, application_child, parse_application,
}
use orb_private.XmlAit.Writing.{
  Source, Fits, ProfileFits, text, plain, elements, walk-elements, control_name, identifier,
  profile, descriptor, with_profiles, described, parse_app_id-identifier, parse_app_desc-descriptor,
}

boundary : Text → Node
boundary s = plain "BoundaryExtension" (text s)

extension : Text → Node
extension s = plain "URLExtension" (text s)

always : {A : Type 0} (xs : List A) → All (λ _. Unit {0}) xs
always [] = tt
always (x ∷ xs) = (tt, always xs)

parse_app_boundary-boundaries :
    (boundaries : List Text) (app : AitAppDesc)
    → parse_app_boundary (elements boundary boundaries nil) (record app { boundaries = [] })
      ≡ record app { boundaries = boundaries }
unfolding parse_app_boundary app_boundary_child boundary walk first_content text_eq
parse_app_boundary-boundaries boundaries app =
    walk-elements app_boundary_child boundary (λ _. Unit {0}) (λ bs. record app { boundaries = bs })
      (λ s bs u. refl) [] boundaries nil (always boundaries)

http_type : List Attribute
http_type =
    record {
      name = codes "type";
      has_children = true;
      content = some (codes "mhp:HTTPTransportType");
    }
    ∷ []

urls : Source → Nodes
urls a = cons (plain "URLBase" (text a.base_url)) (elements extension a.extension_urls nil)

-- The slot of the transport.
abbrev pub http_slot : Source → TransportProtocolDesc
http_slot a = record zero_transport {
  protocol_id = protocol_http;
  url = record { base_url = a.base_url; extension_urls = a.extension_urls };
}

parse_app_transport-urls :
    (a : Source)
    → parse_app_transport http_type (urls a) (zero_transport ∷ zero_transport ∷ [])
      ≡ some (http_slot a ∷ zero_transport ∷ [])
unfolding parse_app_transport fill_transport protocol_of scan_slots http_type urls url_child
    extension get_property walk first_content text_eq
parse_app_transport-urls a =
    ap
      (λ url.
        some
          (record zero_transport { protocol_id = protocol_http; url = url } ∷ zero_transport ∷ []))
      (walk-elements url_child extension (λ _. Unit {0})
        (λ es. record { base_url = a.base_url; extension_urls = es }) (λ s es u. refl) []
        a.extension_urls nil (always a.extension_urls))

-- The elements of an application, from one on.
abbrev from_location : Source → Nodes
from_location a = cons (plain "applicationLocation" (text a.location)) nil

abbrev from_transport : Source → Nodes
from_transport a =
    cons (element (codes "applicationTransport") http_type (urls a)) (from_location a)

abbrev from_boundary : Source → Nodes
from_boundary a =
    cons (plain "applicationBoundary" (elements boundary a.boundaries nil)) (from_transport a)

abbrev from_usage : Source → Nodes
from_usage a =
    cons (plain "applicationUsageDescriptor" (cons (plain "ApplicationUsage" (text a.usage)) nil))
      (from_boundary a)

abbrev from_descriptor : Source → Nodes
from_descriptor a = cons (plain "applicationDescriptor" (descriptor a)) (from_usage a)

-- The elements of an application.
unfoldable pub write_application : Source → Nodes
unfolding identifier descriptor urls http_type boundary extension elements profile control_name
write_application a = cons (plain "applicationIdentifier" (identifier a)) (from_descriptor a)

-- The application that they are of.
abbrev pub application_of : Source → AitAppDesc
application_of a = record zero_app {
  org_id = a.org_id;
  app_id = a.app_id;
  control_code = a.control_code;
  num_transports = 1;
  transport_array = http_slot a ∷ zero_transport ∷ [];
  location = a.location;
  app_desc = record zero_app_desc { app_profiles = a.profiles; service_bound = a.service_bound };
  xml_version = a.version;
  boundaries = a.boundaries;
  app_usage = a.usage;
}

each-step :
    {A : Type 0} (visit : Node → A → Option A) (node : Node) (nodes : Nodes) (a a' : A)
    → visit node a ≡ some a'
    → each visit (cons node nodes) a ≡ each visit nodes a'
unfolding each
each-step visit node nodes a a' h = rw h refl

module _ (indeterminate : AppProfile) (a : Source) where
  -- The application after one element, and the next.
  abbrev allocated : AitAppDesc
  allocated = record zero_app { num_transports = 1 }

  abbrev identified : AitAppDesc
  identified = record allocated { org_id = a.org_id; app_id = a.app_id }

  abbrev detailed : AitAppDesc
  detailed = with_profiles (described indeterminate a identified) a.profiles

  abbrev used : AitAppDesc
  used = record detailed { app_usage = a.usage }

  abbrev bounded : AitAppDesc
  bounded = record used { boundaries = a.boundaries }

  abbrev loaded : AitAppDesc
  loaded = record bounded { transport_array = http_slot a ∷ zero_transport ∷ [] }

  alloc_application-write : alloc_application (write_application a) zero_app ≡ allocated
  unfolding alloc_application alloc_child write_application walk text_eq starts_with
  alloc_application-write = refl

  at_identified :
      a.org_id < 2 ^ 32
      → a.app_id < 2 ^ 16
      → application_child indeterminate (plain "applicationIdentifier" (identifier a)) allocated
        ≡ some identified
  unfolding application_child application_part text_eq starts_with
  at_identified org id = ap some (parse_app_id-identifier a allocated org id)

  at_detailed :
      a.control_code < 9
      → a.version < 256
      → All ProfileFits a.profiles
      → application_child indeterminate (plain "applicationDescriptor" (descriptor a)) identified
        ≡ some detailed
  unfolding application_child application_part text_eq starts_with
  at_detailed control version profiles =
      ap some (parse_app_desc-descriptor indeterminate a identified control version profiles)

  at_used :
      application_child indeterminate
        (plain "applicationUsageDescriptor" (cons (plain "ApplicationUsage" (text a.usage)) nil))
        detailed
      ≡ some used
  unfolding application_child application_part text_eq starts_with parse_app_usage app_usage_child
      walk get_content_string first_content
  at_used = refl

  at_bounded :
      application_child indeterminate
        (plain "applicationBoundary" (elements boundary a.boundaries nil))
        used
      ≡ some bounded
  unfolding application_child application_part text_eq starts_with
  at_bounded = ap some (parse_app_boundary-boundaries a.boundaries used)

  at_loaded :
      application_child indeterminate
        (element (codes "applicationTransport") http_type (urls a))
        bounded
      ≡ some loaded
  unfolding application_child application_part text_eq starts_with
  at_loaded =
      ap (λ r. r >>= λ trns. some (record bounded { transport_array = trns }))
        (parse_app_transport-urls a)

  at_located :
      application_child indeterminate (plain "applicationLocation" (text a.location)) loaded
      ≡ some (application_of a)
  unfolding application_child application_part text_eq starts_with parse_app_location first_content
  at_located = refl

  -- An application whose numbers fit in their fields (those of its profiles in a byte) and whose control
  -- code is below nine, written as the elements of an XML AIT with its numbers in decimal or as
  -- two hexadecimal digits, is parsed to what was written: its ids, control code, version, service
  -- binding, profiles, usage, boundaries, HTTP transport and location, each in its field.
  pub parse_application-write :
      Fits a
      → parse_application indeterminate
          (write_application a)
          (alloc_application (write_application a) zero_app)
        ≡ some (application_of a)
  unfolding parse_application Fits write_application each
  parse_application-write (org, id, control, version, profiles) =
      ap (each (application_child indeterminate) (write_application a)) alloc_application-write
      ∙ each-step (application_child indeterminate) _ (from_descriptor a) _ _ (at_identified org id)
      ∙ each-step (application_child indeterminate) _ (from_usage a) _ _
          (at_detailed control version profiles)
      ∙ each-step (application_child indeterminate) _ (from_boundary a) _ _ at_used
      ∙ each-step (application_child indeterminate) _ (from_transport a) _ _ at_bounded
      ∙ each-step (application_child indeterminate) _ (from_location a) _ _ at_loaded
      ∙ each-step (application_child indeterminate) _ nil _ _ at_located
