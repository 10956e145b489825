-- ===== src/Ait/SectionMask.antt =====
-- components/application_manager/ait.cpp: the mask of the sections received so far.
pub mod Laws
pub mod Complete
use orb_private.Prelude.{
  ℕ, zero, suc, ◌+◌, ◌-◌, ◌*◌, ◌/◌, ◌%◌, ◌^◌, ◌≡◌, bit_and, bit_or, Bool, true, false, not, ◌&&◌,
  Option, none, some, List, [], ◌∷◌, ◌==◌, if◌then◌else◌, ◌>>=◌, get_elem?, set, byte,
}

-- GET_SECTION_MASK_INDEX, and `1 << GET_SECTION_MASK_SHIFT`
abbrev pub mask_index : ℕ → ℕ
mask_index section_number = section_number / 8

abbrev pub mask_bit : ℕ → ℕ
mask_bit section_number = 2 ^ (section_number % 8)

-- Ait::SectionReceived
unfoldable pub section_received : List ℕ → ℕ → Option Bool
section_received section_data section_number = do
  slot ← byte section_data (mask_index section_number)
  some (not (bit_and slot (mask_bit section_number) == 0))

-- The loop over the full slots: are the next `n` slots 0xFF?
unfoldable pub full_slots : ℕ → List ℕ → Option Bool
full_slots zero slots = some true
full_slots (suc n) [] = none
full_slots (suc n) (slot ∷ slots) =
    let rest = full_slots n slots in if slot == 0xFF then rest else some false

-- The mask of the last slot: `mask = 1u << (shift + 1); mask--`, in a uint8.
abbrev pub last_mask : ℕ → ℕ
last_mask last_section_number = ((2 ^ (last_section_number % 8 + 1)) % 256 + 255) % 256

-- The checks of the full slots and of the last one, in Ait::MarkSectionReceived.
unfoldable pub all_received : List ℕ → ℕ → Option Bool
all_received section_data last_section_number = do
  full ← full_slots (mask_index last_section_number) section_data
  if full
      then (do
        last ← byte section_data (mask_index last_section_number)
        some (last == last_mask last_section_number))
      else some false

-- Ait::MarkSectionReceived: the new mask, and whether all the sections have been received.
unfoldable pub mark_section_received : List ℕ → ℕ → ℕ → Option (List ℕ × Bool)
mark_section_received section_data section_number last_section_number = do
  slot ← byte section_data (mask_index section_number)
  let marked = set section_data (mask_index section_number) (bit_or slot (mask_bit section_number))
  if section_number == 0 && last_section_number == 0
      then some (marked, true)
      else (do complete ← all_received marked last_section_number; some (marked, complete))
