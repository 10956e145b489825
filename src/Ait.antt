-- ===== src/Ait.antt =====
-- components/application_manager/ait.h: the tables that an AIT is parsed into.
-- Machine integers are ℕ; a field's width stands behind it.
use orb_private.Prelude.{ℕ, Bool, false, List, [], Option, none, Text, replicate}
pub mod SectionMask
pub mod Descriptors
pub mod Transport
pub mod Application
pub mod Section
pub mod Select
mod Examples
mod SelectExamples
mod DescriptorExamples

abbrev pub max_num_protocols : ℕ
max_num_protocols = 2

abbrev pub protocol_object_carousel : ℕ
protocol_object_carousel = 1

abbrev pub protocol_http : ℕ
protocol_http = 3

abbrev pub usage_teletext : ℕ
usage_teletext = 1

abbrev pub ctl_autostart : ℕ
ctl_autostart = 1

abbrev pub ctl_present : ℕ
ctl_present = 2

-- utils.h, S_DVB_TRIPLET
pub record DvbTriplet : Type 0 where
  pub original_network_id : ℕ  -- uint16
  pub transport_stream_id : ℕ  -- uint16
  pub service_id : ℕ  -- uint16

pub record LangString : Type 0 where
  pub lang_code : ℕ  -- uint32
  pub name : Text

pub record AppNameDesc : Type 0 where
  pub num_langs : ℕ  -- uint8
  pub names : List LangString

pub record OcSelectorBytes : Type 0 where
  pub dvb : DvbTriplet
  pub component_tag : ℕ  -- uint8
  pub remote_connection : Bool

pub record UrlSelectorBytes : Type 0 where
  pub base_url : Text
  pub extension_urls : List Text

pub record TransportProtocolDesc : Type 0 where
  pub protocol_id : ℕ  -- uint16
  pub transport_protocol_label : ℕ  -- uint8
  pub oc : OcSelectorBytes
  pub url : UrlSelectorBytes
  pub failed_to_load : Bool

pub record AppProfile : Type 0 where
  pub app_profile : ℕ  -- uint16
  pub version_major : ℕ  -- uint8
  pub version_minor : ℕ  -- uint8
  pub version_micro : ℕ  -- uint8

pub record AppDesc : Type 0 where
  pub visibility : ℕ  -- uint8
  pub priority : ℕ  -- uint8
  pub num_labels : ℕ  -- uint8
  pub app_profiles : List AppProfile
  pub transport_protocol_labels : List ℕ
  pub service_bound : Bool

pub record ParentalRating : Type 0 where
  pub scheme : Text
  pub region : Text
  pub value : ℕ  -- uint8

-- S_AIT_APP_DESC. `transport_array` has `max_num_protocols` entries.
pub record AitAppDesc : Type 0 where
  pub org_id : ℕ  -- uint32
  pub app_id : ℕ  -- uint16
  pub control_code : ℕ  -- uint8
  pub num_transports : ℕ  -- uint8
  pub transport_array : List TransportProtocolDesc
  pub location : Text
  pub app_name : AppNameDesc
  pub app_desc : AppDesc
  pub xml_type : ℕ  -- uint8
  pub xml_version : ℕ  -- uint8
  pub usage_type : ℕ  -- uint8
  pub boundaries : List Text
  pub parental_ratings : List ParentalRating
  pub graphics_constraints : List ℕ
  pub scheme : Text
  pub app_usage : Text

-- S_AIT_TABLE. `section_data` has 256 / 8 bytes, a bit for each section received.
pub record AitTable : Type 0 where
  pub section_data : List ℕ
  pub app_type : ℕ  -- uint16
  pub version : ℕ  -- uint8
  pub num_apps : ℕ  -- uint8
  pub app_array : List AitAppDesc
  pub complete : Bool

-- The members of the class: the table in progress and the last completed one, and whether the two
-- pointers are to one table, which only ApplyAitTable makes them.
pub record Ait : Type 0 where
  pub ait : Option AitTable
  pub ait_completed : Option AitTable
  pub is_shared : Bool

-- What `resize` and `make_shared` fill a new element with.
abbrev pub zero_triplet : DvbTriplet
zero_triplet = record { original_network_id = 0; transport_stream_id = 0; service_id = 0 }

abbrev pub zero_transport : TransportProtocolDesc
zero_transport = record {
  protocol_id = 0;
  transport_protocol_label = 0;
  oc = record { dvb = zero_triplet; component_tag = 0; remote_connection = false };
  url = record { base_url = []; extension_urls = [] };
  failed_to_load = false;
}

abbrev pub zero_app_desc : AppDesc
zero_app_desc = record {
  visibility = 0;
  priority = 0;
  num_labels = 0;
  app_profiles = [];
  transport_protocol_labels = [];
  service_bound = false;
}

abbrev pub zero_app : AitAppDesc
zero_app = record {
  org_id = 0;
  app_id = 0;
  control_code = 0;
  num_transports = 0;
  transport_array = replicate max_num_protocols zero_transport;
  location = [];
  app_name = record { num_langs = 0; names = [] };
  app_desc = zero_app_desc;
  xml_type = 0;
  xml_version = 0;
  usage_type = 0;
  boundaries = [];
  parental_ratings = [];
  graphics_constraints = [];
  scheme = [];
  app_usage = [];
}

abbrev pub zero_table : AitTable
zero_table = record {
  section_data = replicate 32 0;
  app_type = 0;
  version = 0;
  num_apps = 0;
  app_array = [];
  complete = false;
}
