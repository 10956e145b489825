-- ===== src/HbbtvApp/Update.antt =====
-- What an update by a new AIT description changes in an application.
use orb_private.Prelude.{
  ℕ, ◌<◌, ◌≡◌, ◌↔◌, refl, sym, ap, subst, ◌∙◌, Bool, true, not, none, some, List, [], ◌∷◌, ltb,
  ltb→lt, ◌==◌, take, length, >>=-eq-some, Bool-cases, inl, inr, arith,
}
use orb_private.Ait.{AitAppDesc, LangString, AppProfile, ctl_autostart}
use orb_private.Ait.Select.{ParentalControl, is_age_restricted}
use orb_private.Ait.Transport.{extract_protocol_id}
use orb_private.HbbtvApp.{
  HbbtvApp, Event, scheme_updated, not_allowed, updated, least_version, read_names, with_scheme,
  update,
}
use orb_private.HbbtvApp.Description.{
  IsLeast, least_of-IsLeast, name_of, last_name, read_names-last, Schemed, with_scheme-Schemed,
}

-- The fields that an update leaves as they are.
pub record SameIdentity (a b : HbbtvApp) : Type 0 where
  pub id : b.id ≡ a.id
  pub entry_url : b.entry_url ≡ a.entry_url
  pub base_url : b.base_url ≡ a.base_url
  pub service : b.service ≡ a.service
  pub state : b.state ≡ a.state
  pub is_broadcast : b.is_broadcast ≡ a.is_broadcast
  pub is_trusted : b.is_trusted ≡ a.is_trusted
  pub key_set_mask : b.key_set_mask ≡ a.key_set_mask

-- The fields that it takes from the description.
pub record Follows (desc : AitAppDesc) (is_network_available : Bool) (a b : HbbtvApp) : Type 0 where
  pub ait_desc : b.ait_desc ≡ desc
  pub protocol_id : extract_protocol_id desc is_network_available ≡ some b.protocol_id
  pub is_activated : b.is_activated ≡ not (desc.control_code == ctl_autostart)
  pub version_minor : IsLeast a.version_minor desc.app_desc.app_profiles b.version_minor
  pub names :
      (code : ℕ)
      → name_of code b.names ≡ last_name code (take desc.app_name.num_langs desc.app_name.names)
  pub schemed : Schemed desc.scheme a.entry_url a.loaded_url b.scheme b.loaded_url

-- An update throws exactly if the ratings of the description restrict the application.
pub update-not_allowed_iff :
    (control : ParentalControl) (desc : AitAppDesc) (is_network_available : Bool) (a : HbbtvApp)
    → (update control desc is_network_available a ≡ some not_allowed)
      ↔ (is_age_restricted desc.parental_ratings control ≡ true)
unfolding update
update-not_allowed_iff control desc net a = ground arith

same_number : {m n : ℕ} → some m ≡ some n → m ≡ n
same_number h = cc

no_number : {n : ℕ} → none ≡ some n → ⊥
no_number h = cc

updated_inj :
    {a b : HbbtvApp} {es fs : List Event}
    → some (updated a es) ≡ some (updated b fs)
    → (a ≡ b) × (es ≡ fs)
updated_inj h = (cc, cc)

not_updated {ℓ} :
    {A : Type ℓ} {a : HbbtvApp} {es : List Event} → some not_allowed ≡ some (updated a es) → A
not_updated h = cc

least_version-some :
    (v : ℕ) (ps : List AppProfile) (least : ℕ)
    → least_version v ps ≡ some least
    → (length ps < 256) × IsLeast v ps least
unfolding least_version
least_version-some v ps least h = elim (Bool-cases (ltb (length ps) 256)) [
  | inl few ↦ (
    ltb→lt (length ps) 256 few,
    subst (IsLeast v ps) (same_number (rw few at h)) (least_of-IsLeast v ps),
  )
  | inr many ↦ absurd (no_number (rw many at h))
]

module _ (desc : AitAppDesc) (net : Bool) (a : HbbtvApp) (protocol_id version_minor : ℕ)
    (names : List LangString) where
  -- The application before its scheme is set.
  abbrev pub described : HbbtvApp
  described = record a {
    protocol_id = protocol_id;
    ait_desc = desc;
    version_minor = version_minor;
    names = names;
    is_activated = not (desc.control_code == ctl_autostart);
  }

  described-Follows :
      (a' : HbbtvApp)
      → extract_protocol_id desc net ≡ some protocol_id
      → IsLeast a.version_minor desc.app_desc.app_profiles version_minor
      → read_names desc.app_name.num_langs desc.app_name.names [] ≡ some names
      → with_scheme desc described ≡ a'
      → SameIdentity a a' × Follows desc net a a'
  described-Follows a' protocol least read h =
      let (s, u, frame, schemed) = with_scheme-Schemed desc described in
      subst (λ b. SameIdentity a b × Follows desc net a b) (sym frame ∙ h)
        (
          record {
            id = refl;
            entry_url = refl;
            base_url = refl;
            service = refl;
            state = refl;
            is_broadcast = refl;
            is_trusted = refl;
            key_set_mask = refl;
          },
          record {
            ait_desc = refl;
            protocol_id = protocol;
            is_activated = refl;
            version_minor = least;
            names = λ code. read_names-last code desc.app_name.num_langs desc.app_name.names read;
            schemed = schemed;
          },
        )

-- Where an update returns an application, the description has fewer than 256 profiles, and the application
-- has its old identity, the description, its protocol, for each language the last of its names, and the
-- least minor version of the profiles and its own. The scheme is what stands before a question mark in the
-- description's; the loaded URL is the entry URL with the parameters behind it, without one the old URL with
-- the parameter that stands for the scheme, and without a scheme the old URL. Exactly the scheme is sent.
pub update-Follows :
    (control : ParentalControl) (desc : AitAppDesc) (is_network_available : Bool) (a a' : HbbtvApp)
    (es : List Event)
    → update control desc is_network_available a ≡ some (updated a' es)
    → SameIdentity a a'
      × Follows desc is_network_available a a'
      × (es ≡ scheme_updated a.id a'.scheme ∷ [])
      × (length desc.app_desc.app_profiles < 256)
unfolding update
update-Follows control desc net a a' es h =
    elim (Bool-cases (is_age_restricted desc.parental_ratings control)) [
      | inl restricted ↦ not_updated (rw restricted at h)
      | inr allowed ↦
          let (id, protocol, h1) =
            >>=-eq-some (extract_protocol_id desc net) _ {b = updated a' es} (rw allowed at h) in
          let (version, least, h2) =
            >>=-eq-some (least_version a.version_minor desc.app_desc.app_profiles) _
              {b = updated a' es} h1 in
          let (names, read, h3) =
            >>=-eq-some (read_names desc.app_name.num_langs desc.app_name.names []) _
              {b = updated a' es} h2 in
          let (app, sent) = updated_inj h3 in
          let (few, is_least) =
            least_version-some a.version_minor desc.app_desc.app_profiles version least in
          let (same, follows) =
            described-Follows desc net a id version names a' protocol is_least read app in
          (
            same,
            follows,
            sym sent
                ∙ ap (λ b. scheme_updated b.id b.scheme ∷ []) app
                ∙ ap (λ n. scheme_updated n a'.scheme ∷ []) same.id,
            few,
          )
    ]
