-- ===== src/XmlAit/Table/Selection.antt =====
-- The table of an XML AIT, and the search for the application to start in it.
use orb_private.Prelude.{
  ℕ, zero, suc, ◌≤◌, ◌<◌, ◌≡◌, ◌≢◌, ◌∙◌, refl, sym, ap, Bool, true, false, not, ◌&&◌, ◌||◌, Option,
  none, some, List, [], ◌∷◌, map, Text, ◌==◌, if◌then◌else◌, ◌>>=◌, length, All, Bool-cases,
  Option-cases, inl, inr, arith,
}
use orb_private.Ait.{
  TransportProtocolDesc, AppProfile, AitAppDesc, AitTable, ctl_autostart, protocol_http,
  protocol_object_carousel,
}
use orb_private.Ait.Select.{
  HbbtvVersion, ParentalControl, is_supported, is_age_restricted, has_viable_transport,
  is_candidate, is_better, auto_start_loop, auto_start_app,
}
use orb_private.Ait.Select.AutoStart.{Chosen, auto_start_app-Chosen}
use orb_private.XmlAit.{Node, Nodes}
use orb_private.XmlAit.Application.Transports.{id_of, protocols, slots, slots-length}
use orb_private.XmlAit.Application.Names.{LanguagesFit}
use orb_private.XmlAit.Application.Slots.{held, expected, parse_application-slots}
use orb_private.XmlAit.Table.{children_of, parse_root, parse_ait}
use orb_private.XmlAit.Table.Applications.{applications, traverse}
use orb_private.XmlAit.Table.Contents.{parse_new, table_of, parse_root-applications}

-- The loops over the transports stay in the array.
abbrev pub InSlots : AitAppDesc → Type 0
InSlots app = app.num_transports ≤ length app.transport_array

has_viable_transport-total :
    (n : ℕ) (ts : List TransportProtocolDesc)
    → n ≤ length ts
    → (b : Bool) × (has_viable_transport n ts ≡ some b)
unfolding has_viable_transport
has_viable_transport-total zero ts h = (false, refl)
has_viable_transport-total (suc n) [] h = elim h [ ]
has_viable_transport-total (suc n) (t ∷ ts) h =
    elim (Bool-cases (
      (t.protocol_id == protocol_http || t.protocol_id == protocol_object_carousel)
      && not t.failed_to_load)) [
        | inl e ↦ (true, rw e refl)
        | inr e ↦
            (let (b, found) = has_viable_transport-total n ts (omega arith) in (b, rw e found))
      ]

module _ (v : HbbtvVersion) (control : ParentalControl) where
  is_candidate-total :
      (app : AitAppDesc) → InSlots app → (b : Bool) × (is_candidate v control app ≡ some b)
  unfolding is_candidate
  is_candidate-total app fits =
      elim (Bool-cases (
        app.control_code == ctl_autostart
        && is_supported v app.app_desc.app_profiles
        && not (is_age_restricted app.parental_ratings control))) [
          | inl e ↦
              (let (b, found) =
                  has_viable_transport-total app.num_transports app.transport_array fits in
                (b, rw e found))
          | inr e ↦ (false, rw e refl)
        ]

  auto_start_loop-total :
      (app : Option AitAppDesc) (n : ℕ) (apps : List AitAppDesc)
      → All InSlots apps
      → n ≤ length apps
      → (chosen : Option AitAppDesc) × (auto_start_loop v control app n apps ≡ some chosen)
  unfolding auto_start_loop
  auto_start_loop-total app zero apps all h = (app, refl)
  auto_start_loop-total app (suc n) [] all h = elim h [ ]
  auto_start_loop-total app (suc n) (candidate ∷ apps) all h =
      let (viable, e) = is_candidate-total candidate all.0 in
      let (chosen, found) =
        auto_start_loop-total (if viable && is_better app candidate then some candidate else app) n
          apps all.1 (omega arith) in
      (chosen, rw e found)

-- An application that is parsed: its Language attributes have two bytes or more, and its transport
-- elements name known protocols, different from one another.
unfoldable pub Decodable : Nodes → Type 0
Decodable nodes = LanguagesFit nodes × (slots (protocols nodes) ≢ none)

two : Option (List ℕ) → ℕ
two none = 2
two (some ids) = length ids

granted-two :
    (b : Bool) (p : ℕ) (ps : List ℕ) {ids : List ℕ}
    → length ps ≡ 1
    → (if b then none else some (p ∷ ps)) ≡ some ids
    → length ids ≡ 2
unfolding two
granted-two true p ps one h = cc
granted-two false p ps one h = ap two (sym h) ∙ ap suc one

slots-two : (ps : List ℕ) {ids : List ℕ} → slots ps ≡ some ids → length ids ≡ 2
unfolding slots two
slots-two [] h = ap two (sym h)
slots-two (p ∷ []) h = granted-two (p == 0) p (0 ∷ []) refl h
slots-two (p ∷ q ∷ []) h = granted-two (p == 0 || q == 0 || p == q) p (q ∷ []) refl h
slots-two (p ∷ q ∷ r ∷ ps) h = cc

inj : {x y : ℕ × List ℕ} → some x ≡ some y → x ≡ y
inj h = cc

length-map : (ts : List TransportProtocolDesc) → length (map id_of ts) ≡ length ts
length-map [] = refl
length-map (t ∷ ts) = ap suc (length-map ts)

module _ (indeterminate : AppProfile) where
  parse_new-InSlots :
      (nodes : Nodes)
      → Decodable nodes
      → (app : AitAppDesc) × (parse_new indeterminate nodes ≡ some app) × InSlots app
  unfolding parse_new Decodable
  parse_new-InSlots nodes (languages, known) = elim (Option-cases (slots (protocols nodes))) [
    | inl e ↦ absurd (known e)
    | inr (ids, e) ↦ parsed ids e (parse_new indeterminate nodes) (
        parse_application-slots indeterminate nodes languages
        ∙ ap (expected (length (protocols nodes))) e)
  ]
    where
      parsed :
          (ids : List ℕ)
          → slots (protocols nodes) ≡ some ids
          → (r : Option AitAppDesc) → held r ≡ some (length (protocols nodes), ids)
          → (app : AitAppDesc) × (r ≡ some app) × InSlots app
      parsed ids e none h = cc
      parsed ids e (some app) h =
          let same : (app.num_transports, map id_of app.transport_array)
              ≡ (length (protocols nodes), ids) =
            inj h in
          (
            app,
            refl,
            omega (
              arith,
              ap (λ p. p.0) same,
              ap (λ p. length p.1) same,
              slots-length (protocols nodes) e,
              slots-two (protocols nodes) e,
              length-map app.transport_array,
            ),
          )

  traverse-InSlots :
      (xs : List Nodes)
      → All Decodable xs
      → (apps : List AitAppDesc) × (traverse (parse_new indeterminate) xs ≡ some apps)
        × (length apps ≡ length xs)
        × All InSlots apps
  unfolding traverse
  traverse-InSlots [] all = ([], refl, refl, tt)
  traverse-InSlots (x ∷ xs) all =
      let (app, e, fits) = parse_new-InSlots x all.0 in
      let (apps, es, same, fit) = traverse-InSlots xs all.1 in
      (app ∷ apps, rw (e, es) refl, ap suc same, (fits, fit))

  parse_ait-document :
      (read_memory : Text → Option Node) (content : Text) (root : Node)
      → read_memory content ≡ some root
      → parse_ait indeterminate read_memory content
        ≡ (do table ← parse_root indeterminate (children_of root); some (some table))
  unfolding parse_ait
  parse_ait-document read_memory content root document =
      ap
        (λ o. elim o [
          | none ↦ some none
          | some r ↦ do table ← parse_root indeterminate (children_of r); some (some table)
        ])
        document

  -- From a document with fewer than 256 applications, of which each can be decoded,
  -- XmlParser::ParseAit makes a table with an entry for each of them, and neither it nor
  -- AutoStartApp on its table reads or writes outside the arrays: both return, and the
  -- application to start is a candidate of the highest priority, the first of those, if there is one.
  pub parse_ait-auto_start_app :
      (read_memory : Text → Option Node) (content : Text) (root : Node) (v : HbbtvVersion)
      (control : ParentalControl)
      → read_memory content ≡ some root
      → length (applications (children_of root)) < 256
      → All Decodable (applications (children_of root))
      → (table : AitTable) × (chosen : Option AitAppDesc) × (parse_ait indeterminate read_memory
            content
          ≡ some (some table))
        × (table.num_apps ≡ length (applications (children_of root)))
        × (length table.app_array ≡ table.num_apps)
        × (auto_start_app v (some table) control ≡ some chosen)
        × Chosen v control table.app_array chosen
  unfolding auto_start_app
  parse_ait-auto_start_app read_memory content root v control document small all =
      let nodes = children_of root in
      let (apps, es, same, fit) = traverse-InSlots (applications nodes) all in
      let (chosen, found) =
        auto_start_loop-total v control none (length (applications nodes)) apps fit
          (omega (arith, same)) in
      (
        table_of (length (applications nodes)) apps,
        chosen,
        parse_ait-document read_memory content root document
            ∙ rw (parse_root-applications indeterminate nodes small, es) refl,
        refl,
        same,
        found,
        auto_start_app-Chosen v control (table_of (length (applications nodes)) apps) same found,
      )
