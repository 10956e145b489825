-- ===== src/AppExamples.antt =====
-- The theorems on applications and their countdown at concrete ones.
use orb_private.Prelude.{
  ℕ, ◌≡◌, ◌<◌, refl, find_char, bit_and, true, false, some, List, [], ◌∷◌, codes, arith,
}
use orb_private.Timeout.{Timeout, new_timeout}
use orb_private.Url.{merge_url_params}
use orb_private.Ait.{AitAppDesc, zero_app, zero_app_desc, zero_transport}
use orb_private.Ait.Select.{ParentalControl, is_age_restricted}
use orb_private.Ait.Transport.{extract_protocol_id, extract_protocol_id_loop}
use orb_private.Url.Locator.{invalid_dvb_triplet}
use orb_private.HbbtvApp
use orb_private.HbbtvApp.{
  AppState, foreground, background, transient, overlaid_foreground, HbbtvApp, Event, scheme_updated,
  show_application, transitioned_to_broadcast_related, Updated, not_allowed, updated, get_scheme,
  least_version, with_scheme, update,
}
use orb_private.HbbtvApp.Keys.{set_key_set_mask}
use orb_private.HbbtvApp.KeySet.{permitted_key_sets, set_key_set_mask-permitted}
use orb_private.HbbtvApp.Broadcast.{visible_after, is_visible}
use orb_private.HbbtvApp.Update.{SameIdentity, Follows, update-Follows}
use orb_private.OpApp.{OpApp}
use orb_private.OpApp.Transitions.{Reach}
use orb_private.OpApp.Countdown.{Counts, set_states, set_states-Reach}

abbrev desc : AitAppDesc
desc = record zero_app {
  control_code = 1;
  num_transports = 1;
  transport_array = record zero_transport { protocol_id = 3 } ∷ zero_transport ∷ [];
}

-- An application that an AUTOSTART signalling has started, not yet activated.
abbrev app : HbbtvApp
app = record {
  id = 1;
  loaded_url = codes "http://a.b/x";
  entry_url = codes "http://a.b/x";
  base_url = codes "http://a.b/";
  key_set_mask = 0x11;
  other_keys = [];
  service = invalid_dvb_triplet;
  protocol_id = 3;
  is_activated = false;
  is_trusted = false;
  is_broadcast = false;
  ait_desc = desc;
  names = [];
  scheme = [];
  version_minor = 6;
  state = foreground;
}

abbrev control : ParentalControl
control = record { age = 16; region = codes "GB"; region3 = codes "GBR" }

set_key_set_mask-permitted_example :
    ((set_key_set_mask 0x131 [] app).1 ≡ bit_and 0x131 (permitted_key_sets app))
    × ((set_key_set_mask 0x131 [] app).0.key_set_mask ≡ bit_and 0x131 (permitted_key_sets app))
set_key_set_mask-permitted_example = set_key_set_mask-permitted app 0x131 [] (omega arith)

-- A description with a scheme, two names of one language, and a profile.
abbrev new_desc : AitAppDesc
new_desc = record desc {
  scheme = codes "s?x=1";
  app_name = record {
    num_langs = 2;
    names =
        record { lang_code = 7; name = codes "old" }
        ∷ record { lang_code = 7; name = codes "new" }
        ∷ [];
  };
  app_desc = record zero_app_desc {
    app_profiles =
        record { app_profile = 0; version_major = 1; version_minor = 4; version_micro = 1 } ∷ [];
  };
}

abbrev updated_app : HbbtvApp
updated_app = record app {
  ait_desc = new_desc;
  names = record { lang_code = 7; name = codes "new" } ∷ [];
  scheme = codes "s";
  loaded_url = merge_url_params [] app.entry_url (codes "?x=1");
  version_minor = 4;
}

update_run :
    update control new_desc true app
    ≡ some (updated updated_app (scheme_updated 1 (codes "s") ∷ []))
unfolding update is_age_restricted extract_protocol_id extract_protocol_id_loop HbbtvApp.read_names
    HbbtvApp.put_name with_scheme HbbtvApp.update_scheme find_char least_version HbbtvApp.least_of
update_run = refl

update-Follows_example :
    SameIdentity app updated_app
    × Follows new_desc true app updated_app
    × (scheme_updated 1 (codes "s") ∷ [] ≡ scheme_updated 1 (codes "s") ∷ [])
    × (1 < 256)
update-Follows_example =
    update-Follows control new_desc true app updated_app (scheme_updated 1 (codes "s") ∷ [])
      update_run

abbrev running : Timeout
running = record { joinable = true; stopped = false; timeout = 60000; start_timestamp = 5 }

abbrev opapp : OpApp
opapp = record { app = app; countdown = new_timeout }

abbrev hidden : OpApp
hidden = record { app = record app { state = background }; countdown = new_timeout }

abbrev times : List (ℕ × AppState)
times = (7, transient) ∷ (9, foreground) ∷ (11, background) ∷ []

set_states-Reach_example :
    (o' : OpApp) × (es : List Event) × (set_states times opapp ≡ some (o', es))
    × Reach foreground o'.app.state
    × Counts o'
    × (visible_after true es ≡ is_visible o'.app.state)
set_states-Reach_example = set_states-Reach times opapp (refl, refl)
