-- ===== src/Ait/Section/Repeat.antt =====
-- A section that is broadcast again.
use orb_private.Prelude.{
  ℕ, zero, suc, ◌+◌, ◌-◌, ◌%◌, ◌<◌, ◌≡◌, refl, ap, ◌∙◌, inl, inr, Bool, true, false, Option, none,
  some, List, Pointer, ltb, ◌==◌, Bool-cases, >>=-eq-some, length, drop, byte, word, arith, All,
  All-get,
}
use orb_private.Ait.{Ait, AitTable, zero_table}
use orb_private.Ait.SectionMask.{section_received, mark_section_received}
use orb_private.Ait.SectionMask.Laws.{IsMask, marked-Received}
use orb_private.Ait.Section.{
  Header, Entry, read_header, is_wanted, same_version, working_table, count_apps, length_at,
  read_section, parse_section, publish, has_its_size, process_section, add_apps, fill_apps,
  fill_entry, entry, resize,
}

-- The applications of a table are filled in with its mask and its version kept.
abbrev SameHead : AitTable → AitTable → Type 0
SameHead t u =
    (u.section_data ≡ t.section_data) × (u.version ≡ t.version) × (u.complete ≡ t.complete)

fill_entry-SameHead :
    (t u : AitTable) (p : Pointer) (e : Entry) → fill_entry t p e ≡ some u → SameHead t u
unfolding fill_entry
fill_entry-SameHead t u p e h = ground arith

fill_apps-SameHead :
    (fuel : ℕ) (fresh : Bool) (n left : ℕ) (t u : AitTable) (p : Pointer)
    → fill_apps fuel fresh n left t p ≡ some u
    → SameHead t u
unfolding fill_apps
fill_apps-SameHead zero fresh n left t u p h = ground arith
fill_apps-SameHead (suc fuel) fresh n left t u p h = elim (Bool-cases (ltb 0 left)) [
  | inr done ↦ ground (arith, done)
  | inl more ↦
      let (e, _, h1) = >>=-eq-some (entry fresh n t p) _ {b = u} (rw (more, fill_apps) at h) in
      let (t', filled, h2) = >>=-eq-some (fill_entry t p e) _ {b = u} h1 in
      ground (
        arith,
        fill_entry-SameHead t t' p e filled,
        fill_apps-SameHead fuel fresh ((n + 1) % 256) (left - (e.skipped + e.desc_len)) t' u
            (drop (e.skipped + e.desc_len) p) h2,
      )
]

add_apps-SameHead :
    (num_new : ℕ) (fresh : Bool) (left : ℕ) (t u : AitTable) (p : Pointer)
    → add_apps num_new fresh left t p ≡ some u
    → SameHead t u
unfolding add_apps
add_apps-SameHead num_new fresh left t u p h = elim (Bool-cases (ltb 0 num_new)) [
  | inl some' ↦ ground (
    arith,
    fill_apps-SameHead (length p) fresh 0 left
        (record t { app_array = resize (t.num_apps + num_new) t.app_array }) u p,
  )
  | inr none' ↦ ground (arith, none')
]

-- A wanted section leaves a table of its version with its number marked.
pub read_section-marked :
    (current : Option AitTable) (h : Header) (section : Pointer) (u : AitTable)
    → read_section current h section ≡ some u
    → (marked : List ℕ × Bool) × (mark_section_received
          (working_table current h).section_data
          h.section_number
          h.last_section_number
        ≡ some marked)
      × (u.section_data ≡ marked.0)
      × (u.version ≡ (working_table current h).version)
      × (u.complete ≡ marked.1)
unfolding read_section
read_section-marked current h section u e =
    let (common_len, _, h1) = >>=-eq-some (length_at section 8) _ {b = u} e in
    let (left, _, h2) = >>=-eq-some (length_at (drop (common_len + 10) section) 0) _ {b = u} h1 in
    let apps = drop 2 (drop (common_len + 10) section) in
    let (counts, _, h3) =
      >>=-eq-some (count_apps (length apps) current 0 0 left apps) _ {b = u} h2 in
    let (marked, m, h4) =
      >>=-eq-some
        (mark_section_received (working_table current h).section_data h.section_number
          h.last_section_number)
        _ {b = u} h3 in
    let same = add_apps-SameHead _ _ _ _ u _ h4 in (marked, m, same.0, same.1, same.2)

pub working_table-version :
    (current : Option AitTable) (h : Header)
    → (working_table (same_version current h) h).version ≡ h.version
unfolding working_table same_version
working_table-version none h = refl
working_table-version (some t) h = ground arith

-- The masks of the tables in progress are masks.
abbrev pub HasMask : Option AitTable → Type 0
HasMask none = Unit
HasMask (some t) = IsMask t.section_data

pub zero_table-IsMask : IsMask zero_table.section_data
zero_table-IsMask = record { size = refl; bytes = omega arith }

pub working_table-IsMask :
    (current : Option AitTable) (h : Header)
    → HasMask current
    → IsMask (working_table (same_version current h) h).section_data
unfolding working_table same_version
working_table-IsMask none h v = zero_table-IsMask
working_table-IsMask (some t) h v = elim (Bool-cases (t.version == h.version)) [
  | inl same ↦ rw (same, same_version) v
  | inr other ↦ rw (other, same_version) zero_table-IsMask
]

-- Once read, a section is not wanted again.
read_section-is_wanted :
    (current : Option AitTable) (h : Header) (section : Pointer) (u : AitTable)
    → HasMask current
    → h.section_number < 256
    → read_section (same_version current h) h section ≡ some u
    → is_wanted (some u) h ≡ some false
unfolding is_wanted
read_section-is_wanted current h section u v small e =
    let (marked, m, mask, version, _) =
      read_section-marked (same_version current h) h section u e in
    let (_, received) =
      marked-Received _ h.section_number h.last_section_number (working_table-IsMask current h v)
        small m in
    let hit : section_received u.section_data h.section_number ≡ some true =
      rw mask (received h.section_number small ∙ ground (arith)) in
    let same : u.version ≡ h.version = version ∙ working_table-version current h in
    rw hit (ground (arith, same))

pub header_small :
    (section : Pointer) (h : Header)
    → All (λ b. b < 256) section
    → read_header section ≡ some h
    → h.section_number < 256
unfolding read_header
header_small section h bytes e =
    let (app_type, _, h1) = >>=-eq-some (word section 3) _ {b = h} e in
    let (version, _, h2) = >>=-eq-some (byte section 5) _ {b = h} h1 in
    let (n, en, h3) = >>=-eq-some (byte section 6) _ {b = h} h2 in
    let (last, _, h4) = >>=-eq-some (byte section 7) _ {b = h} h3 in
    let small : n < 256 = All-get _ section 6 bytes en in ground (arith, h4)

-- Parsing the same section a second time changes nothing.
pub parse_section-again :
    (current : Option AitTable) (section : Pointer) {x : Option AitTable × Bool}
    → HasMask current
    → All (λ b. b < 256) section
    → parse_section current section ≡ some x
    → parse_section x.0 section ≡ some (x.0, false)
unfolding parse_section
parse_section-again current section {x} v bytes e =
    let (h, header, h1) = >>=-eq-some (read_header section) _ {b = x} e in
    elim (Bool-cases (h.app_type == 0x0010)) [
      | inr other ↦ ground (arith, header, other, h1)
      | inl hbbtv ↦
          let (wanted, asked, h2) = >>=-eq-some (is_wanted current h) _ {b = x} (rw hbbtv at h1) in
          elim (Bool-cases wanted) [
            | inr skip ↦ ground (arith, header, hbbtv, asked, skip, h2)
            | inl take' ↦
                let (u, read, h3) =
                  >>=-eq-some (read_section (same_version current h) h section) _ {b = x}
                    (rw take' at h2) in
                ground (
                  arith,
                  header,
                  hbbtv,
                  h3,
                  read_section-is_wanted current h section u v (header_small section h bytes header)
                      read,
                )
          ]
    ]

pub publish_ait : (a : Ait) (x : Option AitTable × Bool) → (publish a x).0.ait ≡ x.0
unfolding publish
publish_ait a (none, changed) = refl
publish_ait a (some t, changed) = ground arith

publish_again : (a : Ait) (x : Option AitTable) → a.ait ≡ x → publish a (x, false) ≡ (a, false)
unfolding publish
publish_again a none e = ground arith
publish_again a (some t) e = ground arith

-- A section of bytes that has been processed without a fault, from a table in progress whose mask
-- is well formed, changes nothing and reports nothing when it is processed a second time.
pub process_section-again :
    (a : Ait) (section : Pointer) {r : Ait × Bool}
    → HasMask a.ait
    → All (λ b. b < 256) section
    → process_section a section ≡ some r
    → process_section r.0 section ≡ some (r.0, false)
unfolding process_section
process_section-again a section {r} v bytes e =
    let (sized, es, h1) = >>=-eq-some (has_its_size section) _ {b = r} e in
    elim (Bool-cases sized) [
      | inr no' ↦ ground (arith, es, no', h1)
      | inl yes' ↦
          let (x, parsed, h2) =
            >>=-eq-some (parse_section a.ait section) (λ x. some (publish a x)) {b = r}
              (rw yes' at h1) in
          let r_is : r ≡ publish a x = ground (arith, h2) in
          let held : r.0.ait ≡ x.0 = rw r_is (publish_ait a x) in
          let again : parse_section r.0.ait section ≡ some (x.0, false) =
            rw held (parse_section-again a.ait section v bytes parsed) in
          rw (es, process_section) (rw yes' (rw again (ap some (publish_again r.0 x.0 held))))
    ]
