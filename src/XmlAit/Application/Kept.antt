-- ===== src/XmlAit/Application/Kept.antt =====
-- What an element of an application in an XML AIT leaves alone, if it is no transport.
use orb_private.Prelude.{
  ◌≡◌, refl, sym, ap, subst, true, false, ◌&&◌, Option, none, some, List, [], ◌∷◌, ◌++◌, Text,
  codes, text_eq, starts_with, drop, ◌>>=◌, length, Bool-cases, inl, inr, arith,
}
use orb_private.Ait.{AppProfile, AitAppDesc}
use orb_private.XmlAit.{Attribute, element, Nodes}
use orb_private.XmlAit.Descriptor.{parse_app_desc, parse_app_desc_graphics}
use orb_private.XmlAit.Application.{
  parse_app_id, parse_app_usage, parse_app_boundary, parse_app_location, parse_app_transport,
  application_part, application_child,
}
use orb_private.XmlAit.Application.Frame.{
  frame, parse_app_id-frame, parse_app_usage-frame, parse_app_boundary-frame,
  parse_app_location-frame, parse_app_desc-frame, parse_app_desc_graphics-frame,
}
use orb_private.XmlAit.Application.Names.{language_fits, NamesFit, parse_app_name-total}

pub text_eq-append :
    (s a b : Text) → text_eq s (a ++ b) ≡ (starts_with s a && text_eq (drop (length a) s) b)
unfolding text_eq starts_with
text_eq-append s [] b = refl
text_eq-append [] (d ∷ a) b = refl
text_eq-append (c ∷ s) (d ∷ a) b = ground (arith, text_eq-append s a b)

abbrev pub transport_name : Text
transport_name = codes "applicationTransport"

not_transport :
    (name : Text)
    → starts_with name (codes "application") ≡ true
    → text_eq name transport_name ≡ false
    → text_eq (drop 11 name) (codes "Transport") ≡ false
not_transport name starts other =
    cc (text_eq-append name (codes "application") (codes "Transport"), starts, other)

-- An application that still has its transports, and whose names fit.
unfoldable pub Kept : AitAppDesc → Option AitAppDesc → Type 0
Kept app none = ⊥
Kept app (some app') =
    (app'.transport_array ≡ app.transport_array)
    × (app'.num_transports ≡ app.num_transports)
    × NamesFit app'.app_name

pub Kept-some :
    (app : AitAppDesc) (r : Option AitAppDesc)
    → Kept app r
    → (app' : AitAppDesc) × (r ≡ some app')
      × (app'.transport_array ≡ app.transport_array)
      × (app'.num_transports ≡ app.num_transports)
      × NamesFit app'.app_name
unfolding Kept
Kept-some app none k = elim k [ ]
Kept-some app (some app') k = (app', refl, k.0, k.1, k.2)

-- From an equation of frames.
Kept-frame :
    (app app' : AitAppDesc) → frame app' ≡ frame app → NamesFit app.app_name → Kept app (some app')
unfolding Kept
Kept-frame app app' same fit =
    (ap (λ f. f.0) same, ap (λ f. f.2) same, subst NamesFit (sym (ap (λ f. f.1) same)) fit)

module _ (indeterminate : AppProfile) (attributes : List Attribute) (children : Nodes)
    (app : AitAppDesc) where
  application_part-Kept :
      (part : Text)
      → text_eq part (codes "Transport") ≡ false
      → NamesFit app.app_name
      → Kept app (application_part indeterminate part attributes children app)
  unfolding application_part
  application_part-Kept part other fit = elim (Bool-cases (text_eq part (codes "Identifier"))) [
    | inl e ↦
        rw e (Kept-frame app (parse_app_id children app) (parse_app_id-frame children app) fit)
    | inr e ↦ rw e (elim (Bool-cases (text_eq part (codes "Descriptor"))) [
      | inl e ↦ rw e (
          Kept-frame app (parse_app_desc indeterminate children app)
            (parse_app_desc-frame indeterminate children app) fit)
      | inr e ↦ rw e (elim (Bool-cases (text_eq part (codes "UsageDescriptor"))) [
        | inl e ↦
            rw e (
              Kept-frame app (parse_app_usage children app) (parse_app_usage-frame children app)
                fit)
        | inr e ↦ rw e (elim (Bool-cases (text_eq part (codes "Boundary"))) [
          | inl e ↦ rw e (
              Kept-frame app (parse_app_boundary children app)
                (parse_app_boundary-frame children app) fit)
          | inr e ↦
              rw (e, other)
                (elim (Bool-cases (text_eq part (codes "Location"))) [
                  | inl e ↦ rw e (
                      Kept-frame app (parse_app_location children app)
                        (parse_app_location-frame children app) fit)
                  | inr e ↦ rw e (Kept-frame app app refl fit)
                ])
        ])
      ])
    ])
  ]

  pub application_child-Kept :
      (name : Text)
      → text_eq name transport_name ≡ false
      → (text_eq name (codes "appName") ≡ true → language_fits attributes ≡ true)
      → NamesFit app.app_name
      → Kept app (application_child indeterminate (element name attributes children) app)
  unfolding application_child Kept
  application_child-Kept name other language fit =
      elim (Bool-cases (text_eq name (codes "appName"))) [
        | inl e ↦
            (let (app_name, parsed, fit') =
                parse_app_name-total attributes children app.app_name (language e) fit in
              rw (e, parsed) (refl, refl, fit'))
        | inr e ↦ rw e (elim (Bool-cases (starts_with name (codes "application"))) [
          | inl s ↦ rw s (application_part-Kept (drop 11 name) (not_transport name s other) fit)
          | inr s ↦ rw s (elim (Bool-cases (text_eq name (codes "GraphicsConstraints"))) [
            | inl g ↦ rw g (
                Kept-frame app (parse_app_desc_graphics children app)
                  (parse_app_desc_graphics-frame children app) fit)
            | inr g ↦ rw g (Kept-frame app app refl fit)
          ])
        ])
      ]

  pub application_child-transport :
      application_child indeterminate (element transport_name attributes children) app ≡ (
        parse_app_transport attributes children app.transport_array >>= λ transport_array.
        some (record app { transport_array = transport_array }))
  unfolding application_child application_part text_eq starts_with
  application_child-transport = refl
