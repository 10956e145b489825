-- ===== src/XmlAitExamples.antt =====
-- An XML AIT with one application, and the theorems on its parser at it.
use orb_private.Prelude.{
  ◌%◌, ◌<◌, ℕ, zero, suc, ◌≡◌, ◌≢◌, ◌↔◌, ◌⊎◌, All, length, ◌>>=◌, arith, refl, true, false, Option,
  none, some, [], ◌∷◌, codes, Text, text_eq, starts_with,
}
use Prim.Native.String.{String}
use orb_private.Ait.{
  AppProfile, AitAppDesc, AitTable, zero_app, zero_app_desc, zero_transport, zero_table,
}
use orb_private.Ait.Select.{ParentalControl, version_204, auto_start_app}
use orb_private.Ait.Select.AutoStart.{Chosen}
use orb_private.XmlAit.Application.Transports.{
  protocol, protocols, slots, parse_app_transport-overrun,
}
use orb_private.XmlAit.Application.Names.{LanguagesFit}
use orb_private.XmlAit.Application.Slots.{held, expected, parse_application-slots}
use orb_private.XmlAit.Table.Applications.{named, applications, traverse}
use orb_private.XmlAit.Table.Contents.{
  parse_new, table_of, parse_root-applications, parse_root-overrun,
}
use orb_private.XmlAit.Table.Selection.{Decodable, parse_ait-auto_start_app}
use orb_private.XmlAit.Writing.{Source, Fits}
use orb_private.XmlAit.RoundTrip.{write_application, application_of, parse_application-write}
use orb_private.Ait.Transport.{scan_slots}
use orb_private.XmlAit.{
  Attribute, Node, element, leaf, Nodes, nil, cons, each, walk, parse_int_from, parse_int,
  hex_value, parse_hex_from, parse_hex, first_content, get_content_int, get_content_hex,
  get_property,
}
use orb_private.XmlAit.Descriptor.{
  control_of, get_content_control, profile_child, parse_app_desc_profile, app_desc_child,
  parse_app_desc,
}
use orb_private.XmlAit.Application.{
  alloc_child, alloc_application, app_id_child, parse_app_id, protocol_of, fill_transport, oc_child,
  parse_app_transport, application_part, application_child, parse_application,
}
use orb_private.XmlAit.Table.{
  count_application, count_list, count_discovery, count_applications, visit_application, visit_list,
  visit_discovery, parse_applications, new_table, parse_root, children_of, parse_ait,
}

abbrev pub text_node : String → Nodes
text_node s = cons (leaf (some (codes s))) nil

abbrev pub inner : String → Nodes → Node
inner name children = element (codes name) [] children

abbrev attribute : String → String → Attribute
attribute name value = record {
  name = codes name;
  has_children = true;
  content = some (codes value);
}

abbrev identifier : Node
identifier =
    inner "applicationIdentifier"
      (cons (inner "orgId" (text_node "10")) (cons (inner "appId" (text_node "11")) nil))

abbrev descriptor : Node
descriptor = inner "applicationDescriptor" (
    cons (inner "controlCode" (text_node "AUTOSTART")) (
      cons
        (inner "mhpVersion" (
          cons (inner "profile" (text_node "0")) (
            cons (inner "versionMajor" (text_node "1")) (
              cons (inner "versionMinor" (text_node "1"))
                (cons (inner "versionMicro" (text_node "1")) nil)))))
        nil))

abbrev carousel : Node
carousel = element (codes "applicationTransport") (attribute "type" "mhp:OCTransportType" ∷ []) nil

abbrev application : Nodes
application = cons identifier (cons descriptor (cons carousel nil))

abbrev pub with_applications : Nodes → Node
with_applications applications =
    inner "ServiceDiscovery"
      (cons (inner "ApplicationDiscovery" (cons (inner "ApplicationList" applications) nil)) nil)

abbrev pub root : Node
root = with_applications (cons (inner "Application" application) nil)

abbrev pub indeterminate : AppProfile
indeterminate = record { app_profile = 7; version_major = 7; version_minor = 7; version_micro = 7 }

abbrev desc : AitAppDesc
desc = record zero_app {
  org_id = 10;
  app_id = 11;
  control_code = 1;
  num_transports = 1;
  transport_array = record zero_transport { protocol_id = 1 } ∷ zero_transport ∷ [];
  app_desc = record zero_app_desc {
    app_profiles =
        record { app_profile = 0; version_major = 1; version_minor = 1; version_micro = 1 } ∷ [];
    service_bound = true;
  };
}

abbrev pub table : AitTable
table = record zero_table { app_type = 0x8000; num_apps = 1; app_array = desc ∷ [] }

abbrev pub read_memory : Text → Option Node
read_memory content = some root

pub parsed : (content : Text) → parse_ait indeterminate read_memory content ≡ some (some table)
unfolding parse_ait children_of new_table parse_root count_applications count_discovery count_list
    count_application parse_applications visit_discovery visit_list visit_application
    parse_application application_child application_part alloc_application alloc_child parse_app_id
    app_id_child parse_app_desc app_desc_child parse_app_desc_profile profile_child
    get_content_control control_of parse_app_transport protocol_of fill_transport oc_child each walk
    get_content_int get_content_hex parse_int parse_int_from parse_hex parse_hex_from hex_value
    first_content get_property scan_slots text_eq starts_with
parsed content = refl

-- Nothing of the sample's transports, names and numbers faults.
parse_root-applications_example : parse_root indeterminate (children_of root) ≡ (
    traverse (parse_new indeterminate) (applications (children_of root)) >>= λ apps.
    some (table_of (length (applications (children_of root))) apps))
unfolding children_of applications named text_eq
parse_root-applications_example =
    parse_root-applications indeterminate (children_of root) (omega arith)

-- 256 applications.
many : ℕ → Nodes
many zero = nil
many (suc n) = cons (inner "Application" nil) (many n)

abbrev crowded : Nodes
crowded = cons (inner "ApplicationDiscovery" (cons (inner "ApplicationList" (many 256)) nil)) nil

parse_root-overrun_example :
    ((new_table crowded).num_apps ≡ length (applications crowded) % 256)
    × (length (new_table crowded).app_array ≡ length (applications crowded) % 256)
    × (length (applications crowded) % 256 < length (applications crowded))
    × (parse_applications indeterminate crowded (new_table crowded).app_array ≡ none)
    × (parse_root indeterminate crowded ≡ none)
unfolding applications named many text_eq
parse_root-overrun_example = parse_root-overrun indeterminate crowded (omega arith)

-- A transport of no known type.
parse_app_transport-overrun_example :
    (parse_app_transport [] nil (zero_transport ∷ zero_transport ∷ []) ≡ none) ↔ (
      (protocol [] ≡ 0)
      ⊎ ((zero_transport.protocol_id ≢ 0) × ((protocol [] ≡ 0) ⊎ (zero_transport.protocol_id ≢ 0))))
parse_app_transport-overrun_example =
    parse_app_transport-overrun [] nil zero_transport zero_transport

sample_languages : LanguagesFit application
unfolding LanguagesFit text_eq
sample_languages = ((λ h. cc), ((λ h. cc), ((λ h. cc), tt)))

parse_application-slots_example :
    held (parse_application indeterminate application (alloc_application application zero_app))
    ≡ expected (length (protocols application)) (slots (protocols application))
parse_application-slots_example = parse_application-slots indeterminate application sample_languages

sample-Decodable : All Decodable (applications (children_of root))
unfolding Decodable children_of applications named protocols protocol protocol_of get_property slots
    text_eq
sample-Decodable = ((sample_languages, λ h. cc), tt)

abbrev parental : ParentalControl
parental = record { age = 16; region = codes "GB"; region3 = codes "GBR" }

parse_ait-auto_start_app_example :
    (t : AitTable) × (chosen : Option AitAppDesc) × (parse_ait indeterminate read_memory
        (codes "<xml>")
      ≡ some (some t))
    × (t.num_apps ≡ length (applications (children_of root)))
    × (length t.app_array ≡ t.num_apps)
    × (auto_start_app version_204 (some t) parental ≡ some chosen)
    × Chosen version_204 parental t.app_array chosen
unfolding children_of applications named text_eq
parse_ait-auto_start_app_example =
    parse_ait-auto_start_app indeterminate read_memory (codes "<xml>") root version_204 parental
      refl (omega arith) sample-Decodable

-- An application/vnd.hbbtv.xhtml+xml application.
abbrev app_type : Nodes
app_type = cons (inner "OtherApp" (text_node "application/vnd.hbbtv.xhtml+xml")) nil

abbrev source : Source
source = record {
  org_id = 10;
  app_id = 11;
  control_code = 1;
  version = 3;
  service_bound = false;
  profiles =
      record { app_profile = 0; version_major = 1; version_minor = 7; version_micro = 1 } ∷ [];
  usage = codes "urn:dvb:mhp:2009:digitalText";
  boundaries = codes "http://b.example/" ∷ [];
  base_url = codes "http://a.example/";
  extension_urls = codes "x/" ∷ [];
  location = codes "index.html";
}

parse_application-write_example :
    parse_application indeterminate
      (write_application source)
      (alloc_application (write_application source) zero_app)
    ≡ some (application_of source)
unfolding Fits
parse_application-write_example = parse_application-write indeterminate source (
  omega arith,
  omega arith,
  omega arith,
  omega arith,
  ((omega arith, omega arith, omega arith, omega arith), tt),
)
