-- ===== src/Ait/Select.antt =====
-- components/application_manager/ait.cpp: looking for applications in a table. A loop to `numApps`
-- faults (`none`) if it passes the end of the array.
pub mod Candidate
pub mod AutoStart
pub mod Restriction
pub mod Lookup
use orb_private.Prelude.{
  ℕ, zero, suc, ◌+◌, Bool, true, false, not, ◌&&◌, ◌||◌, Option, none, some, List, [], ◌∷◌, map,
  Text, codes, is_empty, to_lower, text_eq, ltb, leb, ◌==◌, if◌then◌else◌, ◌>>=◌, length, get_elem?,
}
use orb_private.Ait.{
  TransportProtocolDesc, AppProfile, ParentalRating, AitAppDesc, AitTable, ctl_autostart,
  protocol_http, protocol_object_carousel, usage_teletext,
}

-- The HBBTV_VERSION_ macros, which the build selects.
pub record HbbtvVersion : Type 0 where
  pub major : ℕ
  pub minor : ℕ
  pub micro : ℕ

abbrev pub version_204 : HbbtvVersion
version_204 = record { major = 1; minor = 7; micro = 1 }

abbrev pub version_203 : HbbtvVersion
version_203 = record { major = 1; minor = 6; micro = 1 }

-- The settings that are passed along: the age, and the region as a 2 and a 3 letter code.
pub record ParentalControl : Type 0 where
  pub age : ℕ
  pub region : Text
  pub region3 : Text

-- The text before the first NUL.
unfoldable pub c_str : Text → Text
c_str [] = []
c_str (c ∷ s) = if c == 0 then [] else c ∷ c_str s

-- strcasecmp(s, t) == 0
unfoldable pub strcasecmp_eq : Text → Text → Bool
strcasecmp_eq s t = text_eq (map to_lower (c_str s)) (map to_lower (c_str t))

-- The condition under which a rating lifts the restriction.
unfoldable pub allows : ParentalControl → ParentalRating → Bool
allows control pr =
    text_eq pr.scheme (codes "dvb-si")
    && ((length pr.region == 2 && strcasecmp_eq pr.region control.region)
        || (length pr.region == 3 && strcasecmp_eq pr.region control.region3))
    && leb pr.value control.age

unfoldable pub restricted_loop : ParentalControl → Bool → List ParentalRating → Bool
restricted_loop control restricted [] = restricted
restricted_loop control restricted (pr ∷ prs) =
    restricted_loop control (if allows control pr then false else restricted) prs

-- Ait::IsAgeRestricted
unfoldable pub is_age_restricted : List ParentalRating → ParentalControl → Bool
is_age_restricted [] control = false
is_age_restricted (pr ∷ prs) control = restricted_loop control true (pr ∷ prs)

-- The version test of AutoStartApp.
unfoldable pub version_supported : HbbtvVersion → AppProfile → Bool
version_supported v ad =
    ltb ad.version_major v.major
    || (ad.version_major == v.major && ltb ad.version_minor v.minor)
    || (ad.version_major == v.major && ad.version_minor == v.minor && leb ad.version_micro v.micro)

unfoldable pub is_supported : HbbtvVersion → List AppProfile → Bool
is_supported v [] = false
is_supported v (ad ∷ ads) =
    if version_supported v ad && ad.app_profile == 0 then true else is_supported v ads

unfoldable pub has_viable_transport : ℕ → List TransportProtocolDesc → Option Bool
has_viable_transport zero ts = some false
has_viable_transport (suc n) [] = none
has_viable_transport (suc n) (t ∷ ts) =
    if (t.protocol_id == protocol_http || t.protocol_id == protocol_object_carousel)
      && not t.failed_to_load
    then some true
    else has_viable_transport n ts

-- The tests of AutoStartApp that end in `continue`, and the one on the transports.
unfoldable pub is_candidate : HbbtvVersion → ParentalControl → AitAppDesc → Option Bool
is_candidate v control candidate =
    if candidate.control_code == ctl_autostart
      && is_supported v candidate.app_desc.app_profiles
      && not (is_age_restricted candidate.parental_ratings control)
    then has_viable_transport candidate.num_transports candidate.transport_array
    else some false

-- `app == nullptr || app->appDesc.priority < candidate->appDesc.priority`
abbrev pub is_better : Option AitAppDesc → AitAppDesc → Bool
is_better none candidate = true
is_better (some app) candidate = ltb app.app_desc.priority candidate.app_desc.priority

unfoldable pub auto_start_loop :
    HbbtvVersion
    → ParentalControl
    → Option AitAppDesc
    → ℕ
    → List AitAppDesc
    → Option (Option AitAppDesc)
auto_start_loop v control app zero apps = some app
auto_start_loop v control app (suc n) [] = none
auto_start_loop v control app (suc n) (candidate ∷ apps) = do
  viable ← is_candidate v control candidate
  auto_start_loop v control (if viable && is_better app candidate then some candidate else app) n
      apps

-- Ait::AutoStartApp
unfoldable pub auto_start_app :
    HbbtvVersion → Option AitTable → ParentalControl → Option (Option AitAppDesc)
auto_start_app v none control = some none
auto_start_app v (some table) control =
    auto_start_loop v control none table.num_apps table.app_array

-- Ait::TeletextApp
unfoldable pub teletext_loop : ℕ → List AitAppDesc → Option (Option AitAppDesc)
teletext_loop zero apps = some none
teletext_loop (suc n) [] = none
teletext_loop (suc n) (app ∷ apps) =
    if app.usage_type == usage_teletext then some (some app) else teletext_loop n apps

unfoldable pub teletext_app : Option AitTable → Option (Option AitAppDesc)
teletext_app none = some none
teletext_app (some table) = teletext_loop table.num_apps table.app_array

-- Ait::FindApp, by the index of the entry that is returned.
unfoldable pub find_loop : ℕ → ℕ → ℕ → ℕ → List AitAppDesc → Option (Option ℕ)
find_loop org_id app_id i zero apps = some none
find_loop org_id app_id i (suc n) [] = none
find_loop org_id app_id i (suc n) (app ∷ apps) =
    if app.org_id == org_id && app.app_id == app_id
    then some (some i)
    else find_loop org_id app_id (i + 1) n apps

unfoldable pub find_app : Option AitTable → ℕ → ℕ → Option (Option ℕ)
find_app none org_id app_id = some none
find_app (some table) org_id app_id = find_loop org_id app_id 0 table.num_apps table.app_array
