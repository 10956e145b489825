-- ===== src/Ait/SelectExamples.antt =====
-- The theorems on the choice of an application at a concrete table.
use orb_private.Prelude.{ℕ, ◌≡◌, refl, some, List, [], ◌∷◌, codes}
use orb_private.Ait.{
  AitTable, AitAppDesc, ParentalRating, zero_app, zero_table, zero_transport, zero_app_desc,
}
use orb_private.Ait.Select.{
  ParentalControl, version_204, c_str, strcasecmp_eq, allows, restricted_loop, is_age_restricted,
  version_supported, is_supported, has_viable_transport, is_candidate, is_better, auto_start_loop,
  auto_start_app,
}
use orb_private.Ait.Select.AutoStart.{Chosen, auto_start_app-Chosen}

abbrev control : ParentalControl
control = record { age = 16; region = codes "GB"; region3 = codes "GBR" }

-- An AUTOSTART application with a carousel, of one priority.
abbrev app : ℕ → ℕ → AitAppDesc
app id priority = record zero_app {
  org_id = 10;
  app_id = id;
  control_code = 1;
  num_transports = 1;
  transport_array = record zero_transport { protocol_id = 1 } ∷ zero_transport ∷ [];
  app_desc = record zero_app_desc {
    priority = priority;
    app_profiles =
        record { app_profile = 0; version_major = 1; version_minor = 1; version_micro = 1 } ∷ [];
  };
}

abbrev table : AitTable
table = record zero_table { num_apps = 3; app_array = app 1 5 ∷ app 2 9 ∷ app 3 9 ∷ [] }

auto_start_run : auto_start_app version_204 (some table) control ≡ some (some (app 2 9))
unfolding auto_start_app auto_start_loop is_candidate is_better is_supported version_supported
    has_viable_transport is_age_restricted restricted_loop allows strcasecmp_eq c_str
auto_start_run = refl

auto_start_app-Chosen_example : Chosen version_204 control table.app_array (some (app 2 9))
auto_start_app-Chosen_example = auto_start_app-Chosen version_204 control table refl auto_start_run

abbrev ratings : List ParentalRating
ratings = record { scheme = codes "dvb-si"; region = codes "GBR"; value = 18 } ∷ []
