-- ===== src/XmlAit/Writing.antt =====
-- components/application_manager/xml_parser.cpp: the ids and the description of an application, written as
-- elements of an XML AIT and parsed.
use orb_private.Prelude.{
  ℕ, ◌%◌, ◌^◌, ◌<◌, ◌≡◌, ◌∙◌, refl, sym, ap, Bool, true, false, none, some, List, [], ◌∷◌, ◌++◌,
  append_assoc, append-nil, Text, String, codes, text_eq, starts_with, ◌==◌, if◌then◌else◌, All,
  get_elem?, all_below, all_below_sound, ==_iff, arith,
}
use orb_private.Ait.{AppProfile, AitAppDesc}
use orb_private.XmlAit.{
  Node, element, leaf, Nodes, nil, cons, walk, first_content, parse_int, get_content_int,
  get_content_hex, get_content_bool,
}
use orb_private.XmlAit.Numbers.{decimal, parse_int-decimal, hex_byte, parse_hex-hex_byte}
use orb_private.XmlAit.Descriptor.{
  control_of, get_content_control, profile_child, parse_app_desc_profile, app_desc_child,
  parse_app_desc,
}
use orb_private.XmlAit.Application.{app_id_child, parse_app_id}

-- What is written of an application.
pub record Source : Type 0 where
  pub org_id : ℕ
  pub app_id : ℕ
  pub control_code : ℕ
  pub version : ℕ
  pub service_bound : Bool
  pub profiles : List AppProfile
  pub usage : Text
  pub boundaries : List Text
  pub base_url : Text
  pub extension_urls : List Text
  pub location : Text

abbrev pub ProfileFits : AppProfile → Type 0
ProfileFits p =
    (p.app_profile < 256)
    × (p.version_major < 256)
    × (p.version_minor < 256)
    × (p.version_micro < 256)

-- The numbers fit in their fields, and the control code is one that has a name.
unfoldable pub Fits : Source → Type 0
Fits a =
    (a.org_id < 2 ^ 32)
    × (a.app_id < 2 ^ 16)
    × (a.control_code < 9)
    × (a.version < 256)
    × All ProfileFits a.profiles

abbrev pub text : Text → Nodes
text s = cons (leaf (some s)) nil

abbrev pub plain : String → Nodes → Node
plain name children = element (codes name) [] children

-- One element for each entry of a list, before others.
unfoldable pub elements {ℓ} : {A : Type ℓ} → (A → Node) → List A → Nodes → Nodes
elements print [] rest = rest
elements print (a ∷ xs) rest = cons (print a) (elements print xs rest)

-- A loop that reads each of these elements into the end of a list.
pub walk-elements {ℓ κ} :
    {A : Type ℓ} {B : Type κ} (visit : Node → B → B) (print : A → Node) (P : A → Type 0)
    (field : List A → B)
    → ((a : A) (xs : List A) → P a → visit (print a) (field xs) ≡ field (xs ++ a ∷ []))
    → (xs ys : List A) (rest : Nodes) → All P ys
    → walk visit (elements print ys rest) (field xs) ≡ walk visit rest (field (xs ++ ys))
unfolding walk elements
walk-elements visit print P field reads xs [] rest all =
    ap (λ zs. walk visit rest (field zs)) (sym (append-nil xs))
walk-elements visit print P field reads xs (b ∷ ys) rest all =
    ap (walk visit (elements print ys rest)) (reads b xs all.0)
    ∙ (walk-elements visit print P field reads (xs ++ b ∷ []) ys rest all.1
        ∙ ap (λ zs. walk visit rest (field zs)) (append_assoc xs (b ∷ []) ys))

abbrev control_names : List Text
control_names =
    []
    ∷ codes "AUTOSTART"
    ∷ codes "PRESENT"
    ∷ codes "DESTROY"
    ∷ codes "KILL"
    ∷ codes "PREFETCH"
    ∷ codes "REMOTE"
    ∷ codes "DISABLED"
    ∷ codes "PLAYBACK_AUTOSTART"
    ∷ []

unfoldable pub control_name : ℕ → Text
control_name n = elim (get_elem? control_names n) [ none ↦ [] | some s ↦ s ]

control_of-name : (n : ℕ) → n < 9 → control_of (control_name n) ≡ n
unfolding control_of control_name text_eq all_below
control_of-name n small =
    (==_iff _ _).0 (all_below_sound 9 (λ k. control_of (control_name k) == k) n refl small)

unfoldable pub identifier : Source → Nodes
identifier a =
    cons (plain "orgId" (text (decimal a.org_id)))
      (cons (plain "appId" (text (decimal a.app_id))) nil)

pub parse_app_id-identifier :
    (a : Source) (app : AitAppDesc)
    → a.org_id < 2 ^ 32
    → a.app_id < 2 ^ 16
    → parse_app_id (identifier a) app ≡ record app { org_id = a.org_id; app_id = a.app_id }
unfolding parse_app_id app_id_child identifier walk get_content_int first_content text_eq
parse_app_id-identifier a app org id =
    ap (λ n. record app { org_id = n; app_id = parse_int (decimal a.app_id) % 2 ^ 16 })
      (parse_int-decimal a.org_id org)
    ∙ ap (λ n. record app { org_id = a.org_id; app_id = n })
        (omega (arith, parse_int-decimal a.app_id (omega (arith, id)), id))

unfoldable pub profile : AppProfile → Node
profile p = plain "mhpVersion" (
    cons (plain "profile" (text (hex_byte p.app_profile))) (
      cons (plain "versionMajor" (text (hex_byte p.version_major))) (
        cons (plain "versionMinor" (text (hex_byte p.version_minor)))
          (cons (plain "versionMicro" (text (hex_byte p.version_micro))) nil))))

same_profile :
    {a b c d a' b' c' d' : ℕ}
    → a ≡ a'
    → b ≡ b'
    → c ≡ c'
    → d ≡ d'
    → ◌≡◌ {A = AppProfile}
        (record { app_profile = a; version_major = b; version_minor = c; version_micro = d })
        (record { app_profile = a'; version_major = b'; version_minor = c'; version_micro = d' })
same_profile ha hb hc hd = cc

-- An application with given profiles.
abbrev pub with_profiles : AitAppDesc → List AppProfile → AitAppDesc
with_profiles app ps = record app { app_desc = record app.app_desc { app_profiles = ps } }

unfoldable pub descriptor : Source → Nodes
descriptor a = cons (plain "controlCode" (text (control_name a.control_code))) (
    cons (plain "serviceBound" (text (if a.service_bound then codes "true" else codes "false")))
      (cons (plain "version" (text (decimal a.version))) (elements profile a.profiles nil)))

module _ (indeterminate : AppProfile) where
  profile-read :
      (p : AppProfile) (app : AitAppDesc) (ps : List AppProfile)
      → ProfileFits p
      → app_desc_child indeterminate (profile p) (with_profiles app ps)
        ≡ with_profiles app (ps ++ p ∷ [])
  unfolding app_desc_child parse_app_desc_profile profile_child profile walk get_content_hex
      first_content text_eq starts_with
  profile-read p app ps (fits, major, minor, micro) =
      ap (λ q. with_profiles app (ps ++ q ∷ []))
        (same_profile (omega (arith, parse_hex-hex_byte 4 p.app_profile (omega arith) fits, fits))
          (omega (arith, parse_hex-hex_byte 2 p.version_major (omega arith) major, major))
          (omega (arith, parse_hex-hex_byte 2 p.version_minor (omega arith) minor, minor))
          (omega (arith, parse_hex-hex_byte 2 p.version_micro (omega arith) micro, micro)))

  -- An application with what the descriptor says, before the profiles.
  abbrev pub described : Source → AitAppDesc → AitAppDesc
  described a app = record app {
    control_code = a.control_code;
    xml_version = a.version;
    app_desc = record app.app_desc { service_bound = a.service_bound };
  }

  bool_read : (b : Bool) → text_eq (if b then codes "true" else codes "false") (codes "true") ≡ b
  unfolding text_eq
  bool_read true = refl
  bool_read false = refl

  -- The three fields that are read first.
  abbrev started : AitAppDesc → ℕ → Bool → ℕ → AitAppDesc
  started app control bound version =
      with_profiles
        (record app {
          control_code = control;
          xml_version = version;
          app_desc = record app.app_desc { service_bound = bound };
        })
        []

  same_start :
      (app : AitAppDesc) {c c' v v' : ℕ} {b b' : Bool}
      → c ≡ c'
      → b ≡ b'
      → v ≡ v'
      → started app c b v ≡ started app c' b' v'
  same_start app hc hb hv = cc

  pub parse_app_desc-descriptor :
      (a : Source) (app : AitAppDesc)
      → a.control_code < 9
      → a.version < 256
      → All ProfileFits a.profiles
      → parse_app_desc indeterminate (descriptor a) (with_profiles app [])
        ≡ with_profiles (described a app) a.profiles
  unfolding parse_app_desc app_desc_child descriptor walk get_content_control get_content_bool
      get_content_int first_content text_eq
  parse_app_desc-descriptor a app control version fits =
      ap (walk (app_desc_child indeterminate) (elements profile a.profiles nil)) (
        same_start app (omega (arith, control_of-name a.control_code control, control))
          (bool_read a.service_bound)
          (omega (arith, parse_int-decimal a.version (omega (arith, version)), version)))
      ∙ walk-elements (app_desc_child indeterminate) profile ProfileFits
          (with_profiles (described a app)) (λ p ps f. profile-read p (described a app) ps f) []
          a.profiles nil fits
