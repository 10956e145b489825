-- ===== src/XmlAit/Table.antt =====
-- components/application_manager/xml_parser.cpp: the table of an XML AIT.
pub mod Applications
pub mod Contents
pub mod Selection
use orb_private.Prelude.{
  ℕ, zero, suc, ◌+◌, ◌%◌, ◌^◌, Bool, true, false, ◌&&◌, Option, none, some, List, [], ◌∷◌, Text,
  codes, text_eq, if◌then◌else◌, ◌>>=◌, get_elem?, set, replicate,
}
use orb_private.Ait.{AppProfile, AitAppDesc, AitTable, zero_app, zero_table}
use orb_private.XmlAit.{Node, element, leaf, Nodes, nil, cons, each, walk}
use orb_private.XmlAit.Application.{alloc_application, parse_application}

-- Ait::APP_TYP_XML
abbrev pub app_typ_xml : ℕ
app_typ_xml = 0x8000

-- The body of XmlCountApplications' innermost loop, and the two loops around it.
unfoldable pub count_application : Node → ℕ → ℕ
count_application (leaf c) count = count
count_application (element name attributes children) count =
    if text_eq name (codes "Application") then (count + 1) % 2 ^ 32 else count

unfoldable pub count_list : Node → ℕ → ℕ
count_list (leaf c) count = count
count_list (element name attributes children) count =
    if text_eq name (codes "ApplicationList") then walk count_application children count else count

unfoldable pub count_discovery : Node → ℕ → ℕ
count_discovery (leaf c) count = count
count_discovery (element name attributes children) count =
    if text_eq name (codes "ApplicationDiscovery") then walk count_list children count else count

-- XmlCountApplications
unfoldable pub count_applications : Nodes → ℕ
count_applications nodes = walk count_discovery nodes 0

-- A root that is not an element has no children.
unfoldable pub children_of : Node → Nodes
children_of (leaf c) = nil
children_of (element name attributes children) = children

-- The table before its applications are parsed: their number is a uint8, and the length of the array.
unfoldable pub new_table : Nodes → AitTable
new_table nodes =
    let num_apps = count_applications nodes % 2 ^ 8 in
    record zero_table {
      app_type = app_typ_xml;
      num_apps = num_apps;
      app_array = replicate num_apps zero_app;
    }

module _ (indeterminate : AppProfile) where
  -- The body of XmlParseApplications' innermost loop, and the two loops around it. The state is the
  -- index and the array; an index behind the array is a fault.
  unfoldable pub visit_application : Node → ℕ × List AitAppDesc → Option (ℕ × List AitAppDesc)
  visit_application (leaf c) s = some s
  visit_application (element name attributes children) (index, app_array) =
      if text_eq name (codes "Application")
      then (do
        app ← get_elem? app_array index
        app' ← parse_application indeterminate children (alloc_application children app)
        some ((index + 1) % 2 ^ 32, set app_array index app'))
      else some (index, app_array)

  unfoldable pub visit_list : Node → ℕ × List AitAppDesc → Option (ℕ × List AitAppDesc)
  visit_list (leaf c) s = some s
  visit_list (element name attributes children) s =
      if text_eq name (codes "ApplicationList") then each visit_application children s else some s

  unfoldable pub visit_discovery : Node → ℕ × List AitAppDesc → Option (ℕ × List AitAppDesc)
  visit_discovery (leaf c) s = some s
  visit_discovery (element name attributes children) s =
      if text_eq name (codes "ApplicationDiscovery") then each visit_list children s else some s

  -- XmlParseApplications
  unfoldable pub parse_applications : Nodes → List AitAppDesc → Option (List AitAppDesc)
  parse_applications nodes app_array = do
    (index, app_array') ← each visit_discovery nodes (0, app_array)
    some app_array'

  -- What XmlParser::ParseAit makes of the children of the root.
  unfoldable pub parse_root : Nodes → Option AitTable
  parse_root nodes = do
    let table = new_table nodes
    app_array ← parse_applications nodes table.app_array
    some (record table { app_array = app_array })

  -- XmlParser::ParseAit: `read_memory` gives the root of the document, `none` where there is no
  -- document or it is empty. The answer is a null pointer then.
  unfoldable pub parse_ait : (Text → Option Node) → Text → Option (Option AitTable)
  parse_ait read_memory content = elim (read_memory content) [
    | none ↦ some none
    | some root ↦ do table ← parse_root (children_of root); some (some table)
  ]
