-- ===== src/Ait/Section.antt =====
-- components/application_manager/ait.cpp: the parsing of a section into the table.
pub mod Outcome
pub mod Repeat
pub mod Sequence
use orb_private.Prelude.{
  ℕ, zero, suc, ◌+◌, ◌-◌, ◌*◌, ◌/◌, ◌%◌, Bool, true, false, not, ◌&&◌, ◌||◌, Option, none, some,
  List, [], ◌∷◌, ◌++◌, Pointer, ltb, leb, ◌==◌, if◌then◌else◌, ◌>>=◌, length, get_elem?, set, take,
  drop, replicate, byte, word,
}
use orb_private.Ait.{Ait, AitTable, AitAppDesc, zero_app, zero_table}
use orb_private.Ait.SectionMask.{section_received, mark_section_received}
use orb_private.Ait.Application.{parse_application}

-- ((*p & 0x0F) << 8) + *(p + 1)
abbrev pub length_at : Pointer → ℕ → Option ℕ
length_at p k = do hi ← byte p k; lo ← byte p (k + 1); some (hi % 16 * 256 + lo)

-- Ait::Get and Ait::Clear
abbrev pub get : Ait → Option AitTable
get a = a.ait_completed

unfoldable pub clear : Ait → Ait
clear a = record { ait = none; ait_completed = none; is_shared = false }

-- Ait::ApplyAitTable. The two members share one table from here on.
unfoldable pub apply_ait_table : AitTable → Ait → Ait
apply_ait_table table a = record { ait = some table; ait_completed = some table; is_shared = true }

-- `for (i = 0; i < numApps; i++) if (appArray[i].appId == appId) break;`: where it stops.
unfoldable pub index_of_app : ℕ → ℕ → ℕ → List AitAppDesc → Option ℕ
index_of_app app_id i zero apps = some i
index_of_app app_id i (suc n) [] = none
index_of_app app_id i (suc n) (app ∷ apps) =
    if app.app_id == app_id then some i else index_of_app app_id (i + 1) n apps

-- The numbers that the first pass over the applications counts: all of them, and, with a table, those
-- that it does not have.
unfoldable pub count_new : Option AitTable → ℕ → ℕ → Option ℕ
count_new none app_id num_new = some num_new
count_new (some table) app_id num_new = do
  i ← index_of_app app_id 0 table.num_apps table.app_array
  some (if i == table.num_apps then (num_new + 1) % 256 else num_new)

-- The first pass. `left` is `loopEnd - appData`; a round reads nine bytes, so the buffer's length is
-- fuel enough.
unfoldable pub count_apps : ℕ → Option AitTable → ℕ → ℕ → ℕ → Pointer → Option (ℕ × ℕ)
count_apps zero current num_apps num_new left p =
    if ltb 0 left then none else some (num_apps, num_new)
count_apps (suc fuel) current num_apps num_new left p =
    let round = (do
      app_id ← word p 4
      desc_len ← length_at p 7
      num_new' ← count_new current app_id num_new
      count_apps fuel current ((num_apps + 1) % 256) num_new' (left - (desc_len + 9))
          (drop (desc_len + 9) p)) in
    if ltb 0 left then round else some (num_apps, num_new)

-- The entry for an application of the second pass: its index, the entry to parse into, the number of
-- applications, and where its descriptors begin. For an application that the table has, the source
-- goes on by seven bytes from behind the application's id.
pub record Entry : Type 0 where
  pub index : ℕ
  pub app : AitAppDesc
  pub num_apps : ℕ  -- uint8
  pub skipped : ℕ
  pub desc_len : ℕ

unfoldable pub new_entry : ℕ → AitTable → Pointer → Option Entry
new_entry i table p = do
  org_high ← word p 0
  org_low ← word p 2
  app_id ← word p 4
  slot ← get_elem? table.app_array i
  control_code ← byte p 6
  desc_len ← length_at p 7
  some (record {
    index = i;
    app = record slot {
      org_id = org_high * 65536 + org_low;
      app_id = app_id;
      control_code = control_code;
      app_desc = record slot.app_desc { visibility = 2 };
    };
    num_apps = (table.num_apps + 1) % 256;
    skipped = 9;
    desc_len = desc_len;
  })

unfoldable pub known_entry : ℕ → AitTable → Pointer → Option Entry
known_entry i table p = do
  slot ← get_elem? table.app_array i
  desc_len ← length_at p 13
  some (record {
    index = i;
    app = slot;
    num_apps = table.num_apps;
    skipped = 15;
    desc_len = desc_len;
  })

unfoldable pub entry : Bool → ℕ → AitTable → Pointer → Option Entry
entry true num_apps table p = new_entry num_apps table p
entry false num_apps table p = do
  app_id ← word p 4
  i ← index_of_app app_id 0 table.num_apps table.app_array
  if i == table.num_apps then new_entry i table p else known_entry i table p

-- One application of the second pass is parsed into its entry.
unfoldable pub fill_entry : AitTable → Pointer → Entry → Option AitTable
fill_entry table p e = do
  app ← parse_application (drop e.skipped p) e.desc_len e.app
  some (record table { num_apps = e.num_apps; app_array = set table.app_array e.index app })

-- The second pass; `fresh` is `m_ait == nullptr`.
unfoldable pub fill_apps : ℕ → Bool → ℕ → ℕ → AitTable → Pointer → Option AitTable
fill_apps zero fresh num_apps left table p = if ltb 0 left then none else some table
fill_apps (suc fuel) fresh num_apps left table p =
    let round = (do
      e ← entry fresh num_apps table p
      table' ← fill_entry table p e
      fill_apps fuel fresh ((num_apps + 1) % 256) (left - (e.skipped + e.desc_len)) table'
          (drop (e.skipped + e.desc_len) p)) in
    if ltb 0 left then round else some table

-- vector::resize
abbrev pub resize : ℕ → List AitAppDesc → List AitAppDesc
resize n apps = take n (apps ++ replicate n zero_app)

unfoldable pub add_apps : ℕ → Bool → ℕ → AitTable → Pointer → Option AitTable
add_apps num_new fresh left table p =
    if ltb 0 num_new
    then fill_apps (length p) fresh 0 left
        (record table { app_array = resize (table.num_apps + num_new) table.app_array }) p
    else some table

-- The header of a section.
pub record Header : Type 0 where
  pub app_type : ℕ
  pub version : ℕ
  pub section_number : ℕ
  pub last_section_number : ℕ

unfoldable pub read_header : Pointer → Option Header
read_header p = do
  app_type ← word p 3
  version ← byte p 5
  section_number ← byte p 6
  last_section_number ← byte p 7
  some (record {
    app_type = app_type;
    version = version / 2 % 32;
    section_number = section_number;
    last_section_number = last_section_number;
  })

-- `m_ait == nullptr || !SectionReceived(...) || m_ait->version != version`
unfoldable pub is_wanted : Option AitTable → Header → Option Bool
is_wanted none h = some true
is_wanted (some table) h = do
  received ← section_received table.section_data h.section_number
  some (not received || not (table.version == h.version))

-- A table of another version is discarded.
unfoldable pub same_version : Option AitTable → Header → Option AitTable
same_version none h = none
same_version (some table) h = if table.version == h.version then some table else none

abbrev pub is_fresh : Option AitTable → Bool
is_fresh none = true
is_fresh (some table) = false

-- The copy of the table that is worked on, or a new one.
unfoldable pub working_table : Option AitTable → Header → AitTable
working_table none h = record zero_table { app_type = h.app_type; version = h.version }
working_table (some table) h = table

-- The body of ParseSection for a section that is wanted: the table that `m_ait` becomes.
unfoldable pub read_section : Option AitTable → Header → Pointer → Option AitTable
read_section current h section = do
  common_len ← length_at section 8
  let loop = drop (common_len + 10) section
  left ← length_at loop 0
  let apps = drop 2 loop
  (num_apps, counted) ← count_apps (length apps) current 0 0 left apps
  let num_new = (if is_fresh current then num_apps else counted)
  let table = working_table current h
  (section_data, complete) ←
      mark_section_received table.section_data h.section_number h.last_section_number
  add_apps num_new (is_fresh current) left
      (record table { section_data = section_data; complete = complete }) apps

-- Ait::ParseSection: the new `m_ait`, and whether it has changed.
unfoldable pub parse_section : Option AitTable → Pointer → Option (Option AitTable × Bool)
parse_section current section = do
  h ← read_header section
  if h.app_type == 0x0010
      then (do
        wanted ← is_wanted current h
        if wanted
            then (do
              table ← read_section (same_version current h) h section
              some (some table, true))
            else some (current, false))
      else some (current, false)

-- What ProcessSection does with the result.
unfoldable pub publish : Ait → Option AitTable × Bool → Ait × Bool
publish a (none, changed) = (record a { ait = none }, false)
publish a (some table, changed) =
    if changed && table.complete
    then (record { ait = some table; ait_completed = some table; is_shared = false }, true)
    else (record a { ait = some table; is_shared = if changed then false else a.is_shared }, false)

-- Does the section have the size that its header says?
unfoldable pub has_its_size : Pointer → Option Bool
has_its_size section =
    if ltb 2 (length section)
    then (do
      high ← byte section 1
      low ← byte section 2
      some (length section == (high * 256 + low) % 4096 + 3))
    else some false

-- Ait::ProcessSection; `nbytes` is the length of the data.
unfoldable pub process_section : Ait → Pointer → Option (Ait × Bool)
process_section a section = do
  sized ← has_its_size section
  if sized
      then (do result ← parse_section a.ait section; some (publish a result))
      else some (a, false)
