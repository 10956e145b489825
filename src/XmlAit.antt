-- ===== src/XmlAit.antt =====
-- components/application_manager/xml_parser.cpp: the document of an XML AIT, as the library that reads
-- it gives it, and what the parser reads from a node.
pub mod Descriptor
pub mod Application
pub mod Table
pub mod Numbers
pub mod Writing
pub mod RoundTrip
use orb_private.Prelude.{
  ℕ, zero, suc, ◌+◌, ◌-◌, ◌*◌, ◌%◌, ◌^◌, Bool, true, false, ◌&&◌, Option, none, some, List, [], ◌∷◌,
  ◌++◌, Text, codes, text_eq, leb, if◌then◌else◌, get_elem?, ◌>>=◌,
}

-- An attribute: its name, and the content of its first child, if it has one with a content.
pub record Attribute : Type 0 where
  pub name : Text
  pub has_children : Bool
  pub content : Option Text

-- The fields of xmlNode that the parser reads. A node that is not an element has a content or none.
mutual
  pub data Node : Type 0 where
    element : Text → List Attribute → Nodes → Node
    leaf : Option Text → Node

  pub data Nodes : Type 0 where
    nil : Nodes
    cons : Node → Nodes → Nodes

-- The loop over a node and those that follow it, which changes a value or faults.
unfoldable pub each {ℓ} : {A : Type ℓ} → (Node → A → Option A) → Nodes → A → Option A
each visit nil a = some a
each visit (cons node nodes) a = do a' ← visit node a; each visit nodes a'

-- The same for a body that does not fault.
unfoldable pub walk {ℓ} : {A : Type ℓ} → (Node → A → A) → Nodes → A → A
walk visit nil a = a
walk visit (cons node nodes) a = walk visit nodes (visit node a)

-- XmlParseInt
unfoldable pub parse_int_from : ℕ → Text → ℕ
parse_int_from num [] = num
parse_int_from num (c ∷ s) =
    let rest = parse_int_from ((num * 10 + (c - b'0')) % 2 ^ 32) s in
    if leb b'0' c && leb c b'9' then rest else num

unfoldable pub parse_int : Text → ℕ
parse_int s = parse_int_from 0 s

unfoldable pub hex_value : ℕ → Option ℕ
hex_value c =
    if leb b'0' c && leb c b'9'
    then some (c - b'0')
    else if leb b'a' c && leb c b'f'
    then some (10 + (c - b'a'))
    else if leb b'A' c && leb c b'F'
    then some (10 + (c - b'A'))
    else none

-- XmlParseHex
unfoldable pub parse_hex_from : ℕ → ℕ → Text → ℕ
parse_hex_from num zero s = num
parse_hex_from num (suc nibbles) [] = num
parse_hex_from num (suc nibbles) (c ∷ s) = elim (hex_value c) [
  | none ↦ num
  | some d ↦ parse_hex_from ((num * 16 + d) % 2 ^ 32) nibbles s
]

unfoldable pub parse_hex : Text → ℕ → ℕ
parse_hex s nibbles = parse_hex_from 0 nibbles s

-- NODE_CONTENT_GET: the content of the first child; that of an element is a null pointer.
unfoldable pub first_content : Nodes → Option Text
first_content nil = none
first_content (cons (leaf content) nodes) = content
first_content (cons (element name attributes children) nodes) = none

abbrev pub content_or {ℓ} : {A : Type ℓ} → A → (Text → A) → Nodes → A
content_or otherwise f children = elim (first_content children) [ none ↦ otherwise | some s ↦ f s ]

-- XmlGetContentInt
unfoldable pub get_content_int : Nodes → ℕ
get_content_int = content_or 0 parse_int

-- XmlGetContentHex
unfoldable pub get_content_hex : Nodes → ℕ → ℕ
get_content_hex children nibbles = content_or 0 (λ s. parse_hex s nibbles) children

-- XmlGetContentBool
unfoldable pub get_content_bool : Nodes → Bool
get_content_bool = content_or false (λ s. text_eq s (codes "true"))

-- XmlGetContentString
unfoldable pub get_content_string : Nodes → Text
get_content_string = content_or [] (λ s. s)

-- XmlGetPropertyContent: the first attribute with the name and a child.
unfoldable pub get_property : Text → List Attribute → Option Text
get_property property [] = none
get_property property (a ∷ attributes) =
    let rest = get_property property attributes in
    if text_eq a.name property && a.has_children then a.content else rest

abbrev pub property_or {ℓ} : {A : Type ℓ} → A → (Text → A) → Text → List Attribute → A
property_or otherwise f property attributes = elim (get_property property attributes) [
  | none ↦ otherwise
  | some s ↦ f s
]

-- The byte at an index of a string, whose end is a NUL.
abbrev pub char_at : Text → ℕ → Option ℕ
char_at s i = get_elem? (s ++ 0 ∷ []) i
