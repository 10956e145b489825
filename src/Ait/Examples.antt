-- ===== src/Ait/Examples.antt =====
-- The theorems on the AIT at concrete sections and tables.
use orb_private.Prelude.{
  Any, ◌⊎◌, ℕ, ◌≡◌, ◌≤◌, ◌<◌, ◌↔◌, refl, Bool, true, false, Option, none, some, List, [], ◌∷◌,
  replicate, arith, Pointer, text_at, all_below, all_below_sound,
}
use orb_private.Ait.{Ait, AitTable, AppDesc, zero_app, zero_table}
use orb_private.Ait.SectionMask.{section_received, full_slots, all_received, mark_section_received}
use orb_private.Ait.SectionMask.Laws.{IsMask}
use orb_private.Ait.SectionMask.Complete.{mark_section_received_complete}
use orb_private.Ait.Descriptors.{parse_profile, parse_profiles, parse_app_desc_end, parse_app_desc}
use orb_private.Ait.Application.{parse_descriptor, parse_application_loop, parse_application}
use orb_private.Ait.Section.{
  length_at, clear, index_of_app, count_new, count_apps, new_entry, known_entry, entry, fill_entry,
  fill_apps, add_apps, read_header, is_wanted, same_version, working_table, read_section,
  parse_section, publish, has_its_size, process_section,
}
use orb_private.Ait.Section.Sequence.{CompletedBy, process_sections, process_sections-CompletedBy}
use orb_private.Ait.Section.Repeat.{HasMask, process_section-again}

-- A section of one application, signalled as PRESENT, with an application descriptor: section 0 of 1.
abbrev section : Pointer
section =
    0x74 ∷ 0xB0 ∷ 0x20 ∷ 0x00 ∷ 0x10 ∷ 0xC3 ∷ 0x00 ∷ 0x01 ∷ 0xF0 ∷ 0x00 ∷ 0xF0 ∷ 0x13 ∷ 0 ∷ 0 ∷ 0
    ∷ 10 ∷ 0 ∷ 5 ∷ 2 ∷ 0xF0 ∷ 0x0A ∷ 0 ∷ 8 ∷ 5 ∷ 0 ∷ 0 ∷ 1 ∷ 1 ∷ 1 ∷ 0x60 ∷ 7 ∷ 9 ∷ 9 ∷ 9 ∷ 9 ∷ []

abbrev empty_ait : Ait
empty_ait = record { ait = none; ait_completed = none; is_shared = false }

abbrev app_desc : AppDesc
app_desc = record {
  visibility = 3;
  priority = 7;
  num_labels = 0;
  app_profiles =
      record { app_profile = 0; version_major = 1; version_minor = 1; version_micro = 1 } ∷ [];
  transport_protocol_labels = [];
  service_bound = false;
}

abbrev received_table : AitTable
received_table = record zero_table {
  section_data = 1 ∷ replicate 31 0;
  app_type = 16;
  version = 1;
  num_apps = 1;
  app_array =
      record zero_app { org_id = 10; app_id = 5; control_code = 2; app_desc = app_desc } ∷ [];
}

abbrev received : Ait
received = record { ait = some received_table; ait_completed = none; is_shared = false }

process_section_run : process_section empty_ait section ≡ some (received, false)
unfolding process_section has_its_size parse_section read_header is_wanted same_version
    working_table read_section length_at count_apps count_new index_of_app new_entry known_entry
    entry fill_entry fill_apps add_apps publish clear mark_section_received full_slots all_received
    section_received parse_application parse_application_loop parse_descriptor parse_app_desc
    parse_app_desc_end parse_profiles parse_profile text_at
process_section_run = refl

process_section-again_example : process_section received section ≡ some (received, false)
process_section-again_example =
    process_section-again empty_ait section tt (omega arith) process_section_run

-- The same section as the only one of its table.
abbrev only_section : Pointer
only_section =
    0x74 ∷ 0xB0 ∷ 0x20 ∷ 0x00 ∷ 0x10 ∷ 0xC3 ∷ 0x00 ∷ 0x00 ∷ 0xF0 ∷ 0x00 ∷ 0xF0 ∷ 0x13 ∷ 0 ∷ 0 ∷ 0
    ∷ 10 ∷ 0 ∷ 5 ∷ 2 ∷ 0xF0 ∷ 0x0A ∷ 0 ∷ 8 ∷ 5 ∷ 0 ∷ 0 ∷ 1 ∷ 1 ∷ 1 ∷ 0x60 ∷ 7 ∷ 9 ∷ 9 ∷ 9 ∷ 9 ∷ []

abbrev completed : Ait
completed = record {
  ait = some (record received_table { complete = true });
  ait_completed = some (record received_table { complete = true });
  is_shared = false;
}

only_section_run : process_section empty_ait only_section ≡ some (completed, true)
unfolding process_section has_its_size parse_section read_header is_wanted same_version
    working_table read_section length_at count_apps count_new index_of_app new_entry known_entry
    entry fill_entry fill_apps add_apps publish clear mark_section_received full_slots all_received
    section_received parse_application parse_application_loop parse_descriptor parse_app_desc
    parse_app_desc_end parse_profiles parse_profile text_at
only_section_run = refl

two_sections_run : process_sections empty_ait (only_section ∷ only_section ∷ []) ≡ some completed
unfolding process_section has_its_size parse_section read_header is_wanted same_version
    working_table read_section length_at count_apps count_new index_of_app new_entry known_entry
    entry fill_entry fill_apps add_apps publish clear mark_section_received full_slots all_received
    section_received parse_application parse_application_loop parse_descriptor parse_app_desc
    parse_app_desc_end parse_profiles parse_profile text_at process_sections
two_sections_run = refl

process_sections-CompletedBy_example :
    HasMask completed.ait
    × ((completed.ait_completed ≡ none)
        ⊎ ((table : AitTable) × (completed.ait_completed ≡ some table)
            × Any (CompletedBy table) (only_section ∷ only_section ∷ [])))
process_sections-CompletedBy_example =
    process_sections-CompletedBy empty_ait (only_section ∷ only_section ∷ []) tt (omega arith)
      two_sections_run

-- An empty mask.
abbrev no_sections : List ℕ
no_sections = replicate 32 0

no_sections-IsMask : IsMask no_sections
no_sections-IsMask = record { size = refl; bytes = omega arith }

abbrev is_false : Option Bool → Bool
is_false (some false) = true
is_false _ = false

is_false_sound : (b : Option Bool) → is_false b ≡ true → b ≡ some false
is_false_sound (some false) h = refl
is_false_sound (some true) h = cc
is_false_sound none h = cc

no_sections_table : all_below 256 (λ m. is_false (section_received no_sections m)) ≡ true
unfolding all_below section_received
no_sections_table = refl

no_sections-received : (m : ℕ) → m < 256 → section_received no_sections m ≡ some false
no_sections-received m h =
    is_false_sound _
      (all_below_sound 256 (λ k. is_false (section_received no_sections k)) m no_sections_table h)

mark_run : mark_section_received no_sections 0 1 ≡ some (1 ∷ replicate 31 0, false)
unfolding mark_section_received all_received full_slots
mark_run = refl

mark_section_received_complete_example :
    (false ≡ true) ↔ ((m : ℕ) → m ≤ 1 → section_received (1 ∷ replicate 31 0) m ≡ some true)
mark_section_received_complete_example =
    mark_section_received_complete no_sections 0 1 no_sections-IsMask (omega arith) (omega arith)
      (λ m hm _. no_sections-received m hm) mark_run
