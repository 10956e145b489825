-- ===== src/XmlAit/Descriptor.antt =====
-- components/application_manager/xml_parser.cpp: the description of an application, and its parts.
pub mod AppType
use orb_private.Prelude.{
  ℕ, ◌%◌, ◌^◌, Bool, true, false, ◌&&◌, Option, none, some, List, [], ◌∷◌, ◌++◌, Text, codes,
  text_eq, starts_with, drop, if◌then◌else◌,
}
use orb_private.Ait.{AitAppDesc, AppDesc, AppProfile, ParentalRating}
use orb_private.XmlAit.{
  Attribute, Node, element, leaf, Nodes, walk, content_or, property_or, get_content_int,
  get_content_hex, get_content_bool, get_content_string,
}

-- XmlGetContentEnumControl
unfoldable pub control_of : Text → ℕ
control_of s =
    if text_eq s (codes "AUTOSTART")
    then 1
    else if text_eq s (codes "PRESENT")
    then 2
    else if text_eq s (codes "DESTROY")
    then 3
    else if text_eq s (codes "KILL")
    then 4
    else if text_eq s (codes "PREFETCH")
    then 5
    else if text_eq s (codes "REMOTE")
    then 6
    else if text_eq s (codes "DISABLED")
    then 7
    else if text_eq s (codes "PLAYBACK_AUTOSTART")
    then 8
    else 0

unfoldable pub get_content_control : Nodes → ℕ
get_content_control = content_or 0 control_of

-- XmlGetContentVisibility
unfoldable pub visibility_of : Text → ℕ
visibility_of s =
    if text_eq s (codes "VISIBLE_ALL")
    then 3
    else if text_eq s (codes "NOT_VISIBLE_ALL")
    then 0
    else if text_eq s (codes "NOT_VISIBLE_USERS")
    then 1
    else 0

unfoldable pub get_content_visibility : Nodes → ℕ
get_content_visibility = content_or 0 visibility_of

-- The body of the loop of XmlParseAppDescType. It compares the element's name, and not its content,
-- with the names of the types.
unfoldable pub app_desc_type_child : Node → AitAppDesc → AitAppDesc
app_desc_type_child (leaf c) app = app
app_desc_type_child (element name attributes children) app =
    if text_eq name (codes "OtherApp")
    then content_or app
        (λ s.
          if text_eq name (codes "application/vnd.hbbtv.xhtml+xml")
          then record app { xml_type = 0x01 }
          else app)
        children
    else if text_eq name (codes "DvbApp")
    then content_or app
        (λ s.
          if text_eq name (codes "DVB-J")
          then record app { xml_type = 0x11 }
          else if text_eq name (codes "DVB-HTML")
          then record app { xml_type = 0x10 }
          else app)
        children
    else app

-- XmlParseAppDescType
unfoldable pub parse_app_desc_type : Nodes → AitAppDesc → AitAppDesc
parse_app_desc_type children app = walk app_desc_type_child children app

-- The body of the loop of XmlParseAppDescProfile.
unfoldable pub profile_child : Node → AppProfile → AppProfile
profile_child (leaf c) p = p
profile_child (element name attributes children) p =
    if text_eq name (codes "profile")
    then record p { app_profile = get_content_hex children 4 % 2 ^ 16 }
    else if starts_with name (codes "versionM")
    then (let rest = drop 8 name in
        if text_eq rest (codes "ajor")
        then record p { version_major = get_content_hex children 2 % 2 ^ 8 }
        else if text_eq rest (codes "inor")
        then record p { version_minor = get_content_hex children 2 % 2 ^ 8 }
        else if text_eq rest (codes "icro")
        then record p { version_micro = get_content_hex children 2 % 2 ^ 8 }
        else p)
    else p

abbrev pub push_profile : AppProfile → AitAppDesc → AitAppDesc
push_profile p app = record app {
  app_desc = record app.app_desc { app_profiles = app.app_desc.app_profiles ++ p ∷ [] };
}

abbrev pub push_graphics : ℕ → AitAppDesc → AitAppDesc
push_graphics n app = record app { graphics_constraints = app.graphics_constraints ++ n ∷ [] }

unfoldable pub graphics_of : Text → AitAppDesc → AitAppDesc
graphics_of s app =
    if text_eq s (codes "urn:hbbtv:graphics:resolution:1920x1080")
    then push_graphics 1080 app
    else if text_eq s (codes "urn:hbbtv:graphics:resolution:3840x2160")
    then push_graphics 2160 app
    else if text_eq s (codes "urn:hbbtv:graphics:resolution:7680x4320")
    then push_graphics 4320 app
    else app

-- The body of the loop of XmlParseAppDescGraphics.
unfoldable pub graphics_child : Node → AitAppDesc → AitAppDesc
graphics_child (leaf c) app = app
graphics_child (element name attributes children) app =
    if text_eq name (codes "GraphicsConfiguration")
    then content_or app (λ s. graphics_of s app) children
    else app

-- XmlParseAppDescGraphics
unfoldable pub parse_app_desc_graphics : Nodes → AitAppDesc → AitAppDesc
parse_app_desc_graphics children app = walk graphics_child children (push_graphics 720 app)

unfoldable pub parental_rating : List Attribute → Nodes → ParentalRating
parental_rating attributes children = record {
  scheme = property_or [] (λ s. s) (codes "Scheme") attributes;
  region = property_or [] (λ s. s) (codes "Region") attributes;
  value = get_content_int children % 2 ^ 8;
}

abbrev pub set_app_desc : AppDesc → AitAppDesc → AitAppDesc
set_app_desc d app = record app { app_desc = d }

-- The values that the fields of the profile have before they are set are whatever the stack has.
module _ (indeterminate : AppProfile) where
  -- XmlParseAppDescProfile
  unfoldable pub parse_app_desc_profile : Nodes → AitAppDesc → AitAppDesc
  parse_app_desc_profile children app = push_profile (walk profile_child children indeterminate) app

  -- The body of the loop of XmlParseAppDesc.
  unfoldable pub app_desc_child : Node → AitAppDesc → AitAppDesc
  app_desc_child (leaf c) app = app
  app_desc_child (element name attributes children) app =
      if text_eq name (codes "type")
      then parse_app_desc_type children app
      else if text_eq name (codes "controlCode")
      then record app { control_code = get_content_control children % 2 ^ 8 }
      else if text_eq name (codes "visibility")
      then set_app_desc (record app.app_desc { visibility = get_content_visibility children }) app
      else if text_eq name (codes "serviceBound")
      then set_app_desc (record app.app_desc { service_bound = get_content_bool children }) app
      else if text_eq name (codes "priority")
      then set_app_desc (record app.app_desc { priority = get_content_hex children 2 % 2 ^ 8 }) app
      else if text_eq name (codes "version")
      then record app { xml_version = get_content_int children % 2 ^ 8 }
      else if text_eq name (codes "mhpVersion")
      then parse_app_desc_profile children app
      else if text_eq name (codes "icon")
      then app
      else if text_eq name (codes "storageCapabilities")
      then app
      else if text_eq name (codes "ParentalRating")
      then record app {
        parental_ratings = app.parental_ratings ++ parental_rating attributes children ∷ [];
      }
      else if text_eq name (codes "GraphicsConstraints")
      then parse_app_desc_graphics children app
      else app

  -- XmlParseAppDesc
  unfoldable pub parse_app_desc : Nodes → AitAppDesc → AitAppDesc
  parse_app_desc children app =
      walk app_desc_child children (set_app_desc (record app.app_desc { service_bound = true }) app)
