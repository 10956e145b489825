-- ===== src/XmlAit/Application/Frame.antt =====
-- What the parts of an application in an XML AIT leave alone: its transports and its names.
use orb_private.Prelude.{
  ℕ, ◌≡◌, ◌∙◌, refl, Bool, true, false, Option, none, some, Text, codes, text_eq, if◌then◌else◌,
  List, Bool-cases, inl, inr,
}
use orb_private.Ait.{TransportProtocolDesc, AppNameDesc, AppProfile, AitAppDesc}
use orb_private.XmlAit.{Node, element, leaf, Nodes, nil, cons, walk, first_content, content_or}
use orb_private.XmlAit.Descriptor.{
  app_desc_type_child, parse_app_desc_type, parse_app_desc_profile, graphics_of, graphics_child,
  parse_app_desc_graphics, push_graphics, app_desc_child, parse_app_desc, set_app_desc,
}
use orb_private.XmlAit.Application.{
  app_id_child, parse_app_id, app_usage_child, parse_app_usage, app_boundary_child,
  parse_app_boundary, parse_app_location,
}

abbrev pub frame : AitAppDesc → List TransportProtocolDesc × AppNameDesc × ℕ
frame app = (app.transport_array, app.app_name, app.num_transports)

walk-frame :
    (visit : Node → AitAppDesc → AitAppDesc)
    → ((node : Node) (app : AitAppDesc) → frame (visit node app) ≡ frame app)
    → (nodes : Nodes) (app : AitAppDesc) → frame (walk visit nodes app) ≡ frame app
unfolding walk
walk-frame visit keeps nil app = refl
walk-frame visit keeps (cons node nodes) app =
    walk-frame visit keeps nodes (visit node app) ∙ keeps node app

-- A change that depends on a content.
content-frame :
    (app : AitAppDesc) (f : Text → AitAppDesc) (children : Nodes)
    → ((s : Text) → frame (f s) ≡ frame app)
    → frame (content_or app f children) ≡ frame app
content-frame app f children keeps = chosen (first_content children)
  where
    chosen : (o : Option Text) → frame (elim o [ none ↦ app | some s ↦ f s ]) ≡ frame app
    chosen none = refl
    chosen (some s) = keeps s

-- A change that depends on a test.
if-frame :
    (b : Bool) (x y app : AitAppDesc)
    → frame x ≡ frame app
    → frame y ≡ frame app
    → frame (if b then x else y) ≡ frame app
if-frame true x y app hx hy = hx
if-frame false x y app hx hy = hy

app_id_child-frame : (node : Node) (app : AitAppDesc) → frame (app_id_child node app) ≡ frame app
unfolding app_id_child
app_id_child-frame (leaf c) app = refl
app_id_child-frame (element name attributes children) app =
    if-frame (text_eq name (codes "orgId")) _ _ app refl
      (if-frame (text_eq name (codes "appId")) _ _ app refl refl)

app_usage_child-frame :
    (node : Node) (app : AitAppDesc) → frame (app_usage_child node app) ≡ frame app
unfolding app_usage_child
app_usage_child-frame (leaf c) app = refl
app_usage_child-frame (element name attributes children) app =
    if-frame (text_eq name (codes "ApplicationUsage")) _ _ app refl refl

app_boundary_child-frame :
    (node : Node) (app : AitAppDesc) → frame (app_boundary_child node app) ≡ frame app
unfolding app_boundary_child
app_boundary_child-frame (leaf c) app = refl
app_boundary_child-frame (element name attributes children) app =
    if-frame (text_eq name (codes "BoundaryExtension")) _ _ app
      (content-frame app _ children (λ s. refl)) refl

app_desc_type_child-frame :
    (node : Node) (app : AitAppDesc) → frame (app_desc_type_child node app) ≡ frame app
unfolding app_desc_type_child
app_desc_type_child-frame (leaf c) app = refl
app_desc_type_child-frame (element name attributes children) app =
    if-frame (text_eq name (codes "OtherApp")) _ _ app
      (content-frame app _ children
        (λ s. if-frame (text_eq name (codes "application/vnd.hbbtv.xhtml+xml")) _ _ app refl refl))
      (if-frame (text_eq name (codes "DvbApp")) _ _ app
        (content-frame app _ children (λ s.
          if-frame (text_eq name (codes "DVB-J")) _ _ app refl
            (if-frame (text_eq name (codes "DVB-HTML")) _ _ app refl refl)))
        refl)

graphics_child-frame :
    (node : Node) (app : AitAppDesc) → frame (graphics_child node app) ≡ frame app
unfolding graphics_child graphics_of
graphics_child-frame (leaf c) app = refl
graphics_child-frame (element name attributes children) app =
    if-frame (text_eq name (codes "GraphicsConfiguration")) _ _ app
      (content-frame app _ children (λ s.
        if-frame (text_eq s (codes "urn:hbbtv:graphics:resolution:1920x1080")) _ _ app refl (
          if-frame (text_eq s (codes "urn:hbbtv:graphics:resolution:3840x2160")) _ _ app refl (
            if-frame (text_eq s (codes "urn:hbbtv:graphics:resolution:7680x4320")) _ _ app refl
              refl))))
      refl

pub parse_app_desc_graphics-frame :
    (children : Nodes) (app : AitAppDesc) → frame (parse_app_desc_graphics children app) ≡ frame app
unfolding parse_app_desc_graphics
parse_app_desc_graphics-frame children app =
    walk-frame graphics_child graphics_child-frame children (push_graphics 720 app)

pub parse_app_id-frame :
    (children : Nodes) (app : AitAppDesc) → frame (parse_app_id children app) ≡ frame app
unfolding parse_app_id
parse_app_id-frame = walk-frame app_id_child app_id_child-frame

pub parse_app_usage-frame :
    (children : Nodes) (app : AitAppDesc) → frame (parse_app_usage children app) ≡ frame app
unfolding parse_app_usage
parse_app_usage-frame = walk-frame app_usage_child app_usage_child-frame

pub parse_app_boundary-frame :
    (children : Nodes) (app : AitAppDesc) → frame (parse_app_boundary children app) ≡ frame app
unfolding parse_app_boundary
parse_app_boundary-frame = walk-frame app_boundary_child app_boundary_child-frame

pub parse_app_location-frame :
    (children : Nodes) (app : AitAppDesc) → frame (parse_app_location children app) ≡ frame app
unfolding parse_app_location
parse_app_location-frame children app = content-frame app _ children (λ s. refl)

parse_app_desc_type-frame :
    (children : Nodes) (app : AitAppDesc) → frame (parse_app_desc_type children app) ≡ frame app
unfolding parse_app_desc_type
parse_app_desc_type-frame = walk-frame app_desc_type_child app_desc_type_child-frame

module _ (indeterminate : AppProfile) where
  app_desc_child-frame :
      (node : Node) (app : AitAppDesc) → frame (app_desc_child indeterminate node app) ≡ frame app
  unfolding app_desc_child parse_app_desc_profile
  app_desc_child-frame (leaf c) app = refl
  app_desc_child-frame (element name attributes children) app =
      elim (Bool-cases (text_eq name (codes "type"))) [
        | inl e ↦ rw e (parse_app_desc_type-frame children app)
        | inr e ↦ rw e (elim (Bool-cases (text_eq name (codes "controlCode"))) [
          | inl e ↦ rw e refl
          | inr e ↦ rw e (elim (Bool-cases (text_eq name (codes "visibility"))) [
            | inl e ↦ rw e refl
            | inr e ↦ rw e (elim (Bool-cases (text_eq name (codes "serviceBound"))) [
              | inl e ↦ rw e refl
              | inr e ↦ rw e (elim (Bool-cases (text_eq name (codes "priority"))) [
                | inl e ↦ rw e refl
                | inr e ↦ rw e (elim (Bool-cases (text_eq name (codes "version"))) [
                  | inl e ↦ rw e refl
                  | inr e ↦ rw e (elim (Bool-cases (text_eq name (codes "mhpVersion"))) [
                    | inl e ↦ rw e refl
                    | inr e ↦ rw e (elim (Bool-cases (text_eq name (codes "icon"))) [
                      | inl e ↦ rw e refl
                      | inr e ↦
                          rw e (elim (Bool-cases (text_eq name (codes "storageCapabilities"))) [
                            | inl e ↦ rw e refl
                            | inr e ↦
                                rw e (elim (Bool-cases (text_eq name (codes "ParentalRating"))) [
                                  | inl e ↦ rw e refl
                                  | inr e ↦
                                      rw e
                                        (elim (Bool-cases
                                          (text_eq name (codes "GraphicsConstraints"))) [
                                            | inl e ↦
                                                rw e (parse_app_desc_graphics-frame children app)
                                            | inr e ↦ rw e (refl)
                                          ])
                                ])
                          ])
                    ])
                  ])
                ])
              ])
            ])
          ])
        ])
      ]

  pub parse_app_desc-frame :
      (children : Nodes) (app : AitAppDesc)
      → frame (parse_app_desc indeterminate children app) ≡ frame app
  unfolding parse_app_desc
  parse_app_desc-frame children app =
      walk-frame (app_desc_child indeterminate) app_desc_child-frame children
        (set_app_desc (record app.app_desc { service_bound = true }) app)
