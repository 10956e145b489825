-- ===== src/Ait/Descriptors/Profiles.antt =====
-- The application descriptor against its layout in a section.
use orb_private.Prelude.{
  ℕ, ◌+◌, ◌-◌, ◌*◌, ◌/◌, ◌%◌, ◌≤◌, ◌<◌, ◌≡◌, ◌∙◌, some, List, [], ◌∷◌, ◌++◌, append-nil,
  append_assoc, Pointer, if◌then◌else◌, length, text_at-append, arith,
}
use orb_private.Ait.{AppDesc, AppProfile}
use orb_private.Ait.Descriptors.{parse_profile, parse_profiles, parse_app_desc_end, parse_app_desc}

abbrev pub encode_profiles : List AppProfile → List ℕ
encode_profiles [] = []
encode_profiles (p ∷ ps) =
    (p.app_profile / 256)
    ∷ (p.app_profile % 256)
    ∷ p.version_major
    ∷ p.version_minor
    ∷ p.version_micro
    ∷ encode_profiles ps

abbrev pub flags : AppDesc → ℕ
flags d = (if d.service_bound then 128 else 0) + d.visibility * 32

-- The descriptor from its length byte on: 5 bytes for each profile, then the flags, the priority
-- and the labels.
abbrev pub encode_app_desc : AppDesc → List ℕ
encode_app_desc d =
    (5 * length d.app_profiles + length d.transport_protocol_labels + 3)
    ∷ (5 * length d.app_profiles)
    ∷ (encode_profiles d.app_profiles ++ flags d ∷ d.priority ∷ d.transport_protocol_labels)

-- What a section can hold.
pub record FitsDescriptor (d : AppDesc) : Type 0 where
  pub visible : d.visibility < 4
  pub counted : d.num_labels ≡ length d.transport_protocol_labels
  pub short : 5 * length d.app_profiles + length d.transport_protocol_labels + 3 < 256

parse_profiles-encode :
    (ps read : List AppProfile) (desc_len : ℕ) (rest : Pointer)
    → 5 * length ps ≤ desc_len
    → desc_len < 256
    → parse_profiles
        (length ps)
        (record { data_ptr = encode_profiles ps ++ rest; desc_len = desc_len; app_profiles = read })
      ≡ some (record {
        data_ptr = rest;
        desc_len = desc_len - 5 * length ps;
        app_profiles = read ++ ps;
      })
unfolding parse_profiles parse_profile
parse_profiles-encode [] read desc_len rest le lt = ground (arith, append-nil read)
parse_profiles-encode (p ∷ ps) read desc_len rest le lt =
    let wrap : (desc_len + 256 - 5) % 256 ≡ desc_len - 5 = omega arith in
    let halves : p.app_profile / 256 * 256 + p.app_profile % 256 ≡ p.app_profile = omega arith in
    let left : desc_len - 5 - 5 * length ps ≡ desc_len - 5 * length (p ∷ ps) = omega arith in
    rw (wrap, halves)
      (parse_profiles-encode ps (read ++ p ∷ []) (desc_len - 5) rest (omega arith) (omega arith)
        ∙ rw (append_assoc, left))

parse_app_desc_end-encode :
    (d : AppDesc) (rest : Pointer)
    → FitsDescriptor d
    → parse_app_desc_end (record {
      data_ptr = flags d ∷ d.priority ∷ (d.transport_protocol_labels ++ rest);
      desc_len = length d.transport_protocol_labels + 2;
      app_profiles = d.app_profiles;
    })
      ≡ some d
unfolding parse_app_desc_end
parse_app_desc_end-encode d rest f =
    let count : (length d.transport_protocol_labels + 2 + 256 - 2) % 256
        ≡ length d.transport_protocol_labels =
      omega (arith, f.short) in
    rw (count, text_at-append d.transport_protocol_labels rest)
      (ground (arith, f.visible, f.counted))

-- A descriptor that is laid out as the standard says, and that fits its length byte, is parsed to
-- what it was written from, whatever follows it in the section, if the application's visibility
-- is still the invalid 2 and it has no profiles.
pub parse_app_desc-encode :
    (d desc : AppDesc) (rest : Pointer)
    → FitsDescriptor d
    → desc.visibility ≡ 2
    → desc.app_profiles ≡ []
    → parse_app_desc (encode_app_desc d ++ rest) desc ≡ some d
unfolding parse_app_desc
parse_app_desc-encode d desc rest f unparsed fresh =
    let n = length d.app_profiles in
    let labels = length d.transport_protocol_labels in
    let rounds : 5 * n / 5 ≡ n = omega arith in
    let len : (5 * n + labels + 3 + 256 - 1) % 256 ≡ 5 * n + labels + 2 = omega (arith, f.short) in
    let left : 5 * n + labels + 2 - 5 * n ≡ labels + 2 = omega arith in
    rw (unparsed, parse_app_desc)
      (rw (fresh, rounds, len, append_assoc (encode_profiles d.app_profiles))
        (rw
          (
            parse_profiles-encode d.app_profiles [] (5 * n + labels + 2) _ (omega arith)
                (omega (arith, f.short)),
            left,
          )
          (parse_app_desc_end-encode d rest f)))
