-- ===== src/XmlAit/Application/Names.antt =====
-- The names of an application in an XML AIT.
use orb_private.Prelude.{
  ℕ, zero, suc, ◌≤◌, ◌≡◌, refl, ap, Bool, true, Option, none, some, List, [], ◌∷◌, Text, codes,
  text_eq, leb, ◌==◌, ◌>>=◌, length, Bool-cases, inl, inr, arith,
}
use orb_private.Ait.{LangString, AppNameDesc}
use orb_private.XmlAit.{
  Attribute, element, leaf, Nodes, nil, cons, get_property, property_or, content_or,
}
use orb_private.XmlAit.Application.{language_code, fill_name, fill_first_name, parse_app_name}

-- A Language attribute, if there is one, has two bytes or more.
unfoldable pub language_fits : List Attribute → Bool
language_fits attributes = property_or true (λ s. leb 2 (length s)) (codes "Language") attributes

-- So do those of the names among some nodes.
unfoldable pub LanguagesFit : Nodes → Type 0
LanguagesFit nil = Unit
LanguagesFit (cons (leaf c) nodes) = LanguagesFit nodes
LanguagesFit (cons (element name attributes children) nodes) =
    (text_eq name (codes "appName") ≡ true → language_fits attributes ≡ true) × LanguagesFit nodes

-- The names are as many as the counter says, or more.
abbrev pub NamesFit : AppNameDesc → Type 0
NamesFit app_name = app_name.num_langs ≤ length app_name.names

language_code-total : (s : Text) → leb 2 (length s) ≡ true → (c : ℕ) × (language_code s ≡ some c)
unfolding language_code
language_code-total [] h = cc
language_code-total (a ∷ []) h = cc
language_code-total (a ∷ b ∷ []) h = (_, refl)
language_code-total (a ∷ b ∷ c ∷ s) h = (_, refl)

fill_name-total :
    (attributes : List Attribute) (children : Nodes) (l : LangString)
    → language_fits attributes ≡ true
    → (l' : LangString) × (fill_name attributes children l ≡ some l')
unfolding fill_name language_fits
fill_name-total attributes children l fits =
    chosen (get_property (codes "Language") attributes) fits
  where
    chosen :
        (o : Option Text)
        → elim o [ none ↦ true | some s ↦ leb 2 (length s) ] ≡ true
        → (l' : LangString) × ((elim o [ none ↦ some l.lang_code | some s ↦ language_code s ]
              >>= λ lang_code.
                  some
                    (record { lang_code = lang_code; name = content_or l.name (λ s. s) children }))
            ≡ some l')
    chosen none h = (_, refl)
    chosen (some s) h =
        let (c, e) = language_code-total s h in
        (record { lang_code = c; name = content_or l.name (λ s. s) children }, rw e refl)

fill_first_name-total :
    (fill : LangString → Option LangString)
    → ((l : LangString) → (l' : LangString) × (fill l ≡ some l'))
    → (n : ℕ) (names : List LangString) → n ≤ length names
    → (names' : List LangString) × (fill_first_name fill n names ≡ some names')
      × (length names' ≡ length names)
unfolding fill_first_name
fill_first_name-total fill total zero names h = (names, refl, refl)
fill_first_name-total fill total (suc n) [] h = elim h [ ]
fill_first_name-total fill total (suc n) (l ∷ names) h =
    let (l', e) = total l in
    let (names', e', same) = fill_first_name-total fill total n names (omega arith) in
    elim (Bool-cases (l.lang_code == 0)) [
      | inl free ↦ (l' ∷ names, rw (free, e) refl, refl)
      | inr taken ↦ (l ∷ names', rw (taken, e') refl, ap suc same)
    ]

-- A name whose language fits is parsed, and the counter still fits.
pub parse_app_name-total :
    (attributes : List Attribute) (children : Nodes) (app_name : AppNameDesc)
    → language_fits attributes ≡ true
    → NamesFit app_name
    → (app_name' : AppNameDesc) × (parse_app_name attributes children app_name ≡ some app_name')
      × NamesFit app_name'
unfolding parse_app_name
parse_app_name-total attributes children app_name fits bound =
    let (names, e, same) =
      fill_first_name-total (fill_name attributes children)
        (λ l. fill_name-total attributes children l fits) app_name.num_langs app_name.names bound in
    (record app_name { names = names }, rw e refl, omega (arith, same, bound))
