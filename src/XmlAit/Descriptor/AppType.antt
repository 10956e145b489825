-- ===== src/XmlAit/Descriptor/AppType.antt =====
-- The type of an application in an XML AIT.
use orb_private.Prelude.{
  ◌≡◌, ◌∙◌, refl, ap, true, false, Option, none, some, Text, codes, text_eq, text_eq_sound,
  Bool-cases, inl, inr,
}
use orb_private.Ait.{AitAppDesc}
use orb_private.XmlAit.{Node, element, leaf, Nodes, nil, cons, walk, first_content, content_or}
use orb_private.XmlAit.Descriptor.{app_desc_type_child, parse_app_desc_type}

-- A name that is one text is not another.
other_name :
    (name s t : Text) → text_eq name s ≡ true → text_eq s t ≡ false → text_eq name t ≡ false
other_name name s t is other = ap (λ n. text_eq n t) (text_eq_sound name s is) ∙ other

-- A change that is none for any content.
content-same :
    (app : AitAppDesc) (f : Text → AitAppDesc) (children : Nodes)
    → ((s : Text) → f s ≡ app)
    → content_or app f children ≡ app
content-same app f children same = chosen (first_content children)
  where
    chosen : (o : Option Text) → elim o [ none ↦ app | some s ↦ f s ] ≡ app
    chosen none = refl
    chosen (some s) = same s

app_desc_type_child-same : (node : Node) (app : AitAppDesc) → app_desc_type_child node app ≡ app
unfolding app_desc_type_child text_eq
app_desc_type_child-same (leaf c) app = refl
app_desc_type_child-same (element name attributes children) app =
    elim (Bool-cases (text_eq name (codes "OtherApp"))) [
      | inl e ↦
          rw
            (e, other_name name (codes "OtherApp") (codes "application/vnd.hbbtv.xhtml+xml") e refl)
            (content-same app _ children (λ s. refl))
      | inr e ↦ rw e (elim (Bool-cases (text_eq name (codes "DvbApp"))) [
        | inl d ↦
            rw
              (
                d,
                other_name name (codes "DvbApp") (codes "DVB-J") d refl,
                other_name name (codes "DvbApp") (codes "DVB-HTML") d refl,
              )
              (content-same app _ children (λ s. refl))
        | inr d ↦ rw d refl
      ])
    ]

-- XmlParseAppDescType changes nothing, whatever the type element of the application holds: it compares
-- the name of the child with the types, and not its content.
pub parse_app_desc_type-same :
    (children : Nodes) (app : AitAppDesc) → parse_app_desc_type children app ≡ app
unfolding parse_app_desc_type walk
parse_app_desc_type-same nil app = refl
parse_app_desc_type-same (cons node nodes) app =
    rw (app_desc_type_child-same node app) (parse_app_desc_type-same nodes app)
