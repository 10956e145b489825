-- ===== src/Ait/SectionMask/Complete.antt =====
-- When all the sections of a table count as received.
use orb_private.Prelude.{
  ℕ, zero, suc, ◌+◌, ◌*◌, ◌/◌, ◌%◌, ◌^◌, ◌≤◌, ◌<◌, ◌≡◌, refl, sym, ap, ◌∙◌, ◌↔◌, ◌⊎◌, inl, inr,
  Bool, true, false, not, ◌||◌, some, List, [], ◌∷◌, ◌==◌, ==_refl, leb, get_elem?, all_below,
  all_below_sound, all_below_intro, arith, get_elem?-lt, All-get, Bool-cases,
}
use native.Mathlib.Decide.{ℕ_discrete}
use orb_private.Ait.SectionMask.{
  section_received, full_slots, last_mask, all_received, mark_section_received,
}
use orb_private.Ait.SectionMask.Laws.{
  IsMask, bool_eq, has_bit, section_received-slot, marked-Received,
}

full_slots-all :
    (k : ℕ) (s : List ℕ) (i : ℕ) → full_slots k s ≡ some true → i < k → get_elem? s i ≡ some 0xFF
unfolding full_slots
full_slots-all zero s i h lt = elim lt [ ]
full_slots-all (suc k) [] i h lt = cc
full_slots-all (suc k) (b ∷ s) zero h lt = ground arith
full_slots-all (suc k) (b ∷ s) (suc i) h lt = full_slots-all k s i (ground arith) (omega arith)

all-full_slots :
    (k : ℕ) (s : List ℕ)
    → ((i : ℕ) → i < k → get_elem? s i ≡ some 0xFF)
    → full_slots k s ≡ some true
unfolding full_slots
all-full_slots zero s h = refl
all-full_slots (suc k) [] h = cc (h 0 (omega arith))
all-full_slots (suc k) (b ∷ s) h =
    ground (arith, h 0, all-full_slots k s (λ i lt. h (suc i) (omega arith)))

full_bits : all_below 8 (λ j. has_bit 0xFF j) ≡ true
unfolding all_below
full_bits = refl

-- The last mask, by the bit of the last section.
abbrev mask_upto : ℕ → ℕ
mask_upto k = ((2 ^ (k + 1)) % 256 + 255) % 256

last_bits : all_below 8 (λ k. all_below 8 (λ j. not (leb j k) || has_bit (mask_upto k) j)) ≡ true
unfolding all_below
last_bits = refl

has_bit-last_mask : (k j : ℕ) → k < 8 → j ≤ k → has_bit (mask_upto k) j ≡ true
has_bit-last_mask k j hk hj =
    let t : (not (leb j k) || has_bit (mask_upto k) j) ≡ true =
      all_below_sound 8 _ j (all_below_sound 8 _ k last_bits hk) (omega arith) in
    ground arith

-- A completed mask has every section up to the last.
all_received-all :
    (s : List ℕ) (l m : ℕ) → all_received s l ≡ some true → m ≤ l → section_received s m ≡ some true
unfolding all_received
all_received-all s l m h le = elim (ℕ_discrete (m / 8) (l / 8)) [
  | yes same ↦
      section_received-slot s m {b = last_mask l} (ground (arith, same))
      ∙ ap some (has_bit-last_mask (l % 8) (m % 8) (omega arith) (omega arith))
  | no other ↦
      section_received-slot s m {b = 0xFF}
        (full_slots-all (l / 8) s (m / 8) (ground arith) (omega arith))
      ∙ ap some (all_below_sound 8 _ (m % 8) full_bits (omega arith))
]

-- A byte is known by its bits: here the bytes whose bits are those up to one.
abbrev bits_upto : ℕ → ℕ → Bool
bits_upto k b = all_below 8 (λ j. bool_eq (has_bit b j) (leb j k))

upto_table : all_below 8 (λ k. all_below 256 (λ b. not (bits_upto k b) || b == mask_upto k)) ≡ true
unfolding all_below
upto_table = refl

bool_eq_refl : (a : Bool) → bool_eq a a ≡ true
bool_eq_refl true = refl
bool_eq_refl false = refl

eq-mask_upto :
    (b k : ℕ) → b < 256 → k < 8 → ((j : ℕ) → j < 8 → has_bit b j ≡ leb j k) → b ≡ mask_upto k
eq-mask_upto b k hb hk h =
    let t : (not (bits_upto k b) || b == mask_upto k) ≡ true =
      all_below_sound 256 _ b (all_below_sound 8 _ k upto_table hk) hb in
    let u : bits_upto k b ≡ true =
      all_below_intro 8 _ (λ j hj. rw (h j hj) (bool_eq_refl (leb j k))) in
    ground arith

some_bool : {a b : Bool} → some a ≡ some b → a ≡ b
some_bool h = cc

received_at :
    (s : List ℕ) (i j b : ℕ)
    → j < 8
    → get_elem? s i ≡ some b
    → section_received s (i * 8 + j) ≡ some (has_bit b j)
received_at s i j b hj e =
    let slot : (i * 8 + j) / 8 ≡ i = omega arith in
    let bit : (i * 8 + j) % 8 ≡ j = omega arith in
    section_received-slot s (i * 8 + j) (ap (get_elem? s) slot ∙ e)
    ∙ ap (λ (k : ℕ). some (has_bit b k)) bit

module _ (s : List ℕ) (v : IsMask s) where
  -- Slot `i`, when its sections up to bit `k` are the received ones.
  slot_upto :
      (i k : ℕ)
      → i < 32
      → k < 8
      → ((j : ℕ) → j < 8 → section_received s (i * 8 + j) ≡ some (leb j k))
      → get_elem? s i ≡ some (mask_upto k)
  slot_upto i k hi hk h =
      let (b, e) = get_elem?-lt s i (omega (arith, v.size)) in
      e
      ∙ ap some (
          eq-mask_upto b k (All-get _ s i v.bytes e) hk
            (λ j hj. some_bool (sym (received_at s i j b hj e) ∙ h j hj)))

  module _ (l : ℕ) (hl : l < 256) (upto : (m : ℕ) → m ≤ l → section_received s m ≡ some true)
      (none_after : (m : ℕ) → m < 256 → l < m → section_received s m ≡ some false) where
    last_slot : (j : ℕ) → j < 8 → section_received s (l / 8 * 8 + j) ≡ some (leb j (l % 8))
    last_slot j hj = elim (Bool-cases (leb j (l % 8))) [
      | inl inside ↦ upto _ (ground arith) ∙ ap some (sym inside)
      | inr outside ↦ none_after _ (omega arith) (ground arith) ∙ ap some (sym outside)
    ]

    full_slot : (i j : ℕ) → i < l / 8 → j < 8 → section_received s (i * 8 + j) ≡ some (leb j 7)
    full_slot i j hi hj = upto _ (omega arith) ∙ ap some (ground arith)

    all-all_received : all_received s l ≡ some true
    unfolding all_received
    all-all_received =
        let full : full_slots (l / 8) s ≡ some true =
          all-full_slots (l / 8) s
            (λ i hi. slot_upto i 7 (omega arith) (omega arith) (λ j hj. full_slot i j hi hj)) in
        let last : get_elem? s (l / 8) ≡ some (last_mask l) =
          slot_upto (l / 8) (l % 8) (omega arith) (omega arith) last_slot in
        rw (full, all_received) (rw (last, all_received) (ap some (==_refl (last_mask l))))

mark_cases :
    (s : List ℕ) (n l : ℕ) (r : List ℕ × Bool)
    → mark_section_received s n l ≡ some r
    → ((n ≡ 0) × (l ≡ 0) × (r.1 ≡ true)) ⊎ (all_received r.0 l ≡ some r.1)
unfolding mark_section_received
mark_cases s n l r h = ground arith

-- Where marking a section of a well formed mask reports completion, every section up to the last is
-- received.
pub mark_section_received-all :
    (s : List ℕ) (n l : ℕ) {r : List ℕ × Bool}
    → IsMask s
    → n < 256
    → mark_section_received s n l ≡ some r
    → r.1 ≡ true
    → (m : ℕ) → m ≤ l
    → section_received r.0 m ≡ some true
mark_section_received-all s n l {r} v small h done m hm =
    let (v', received) = marked-Received s n l v small h in
    elim (mark_cases s n l r h) [
      | inl (zn, zl, _) ↦ received m (omega arith) ∙ ground arith
      | inr whole ↦ all_received-all r.0 l m (whole ∙ ap some done) hm
    ]

-- If no section after the last has been received and the marked one is not after it either, then
-- marking a section of a well formed mask, where it returns, reports completion exactly when
-- every section from the first to the last has been received, the new one included.
pub mark_section_received_complete :
    (s : List ℕ) (n l : ℕ) {r : List ℕ × Bool}
    → IsMask s
    → n ≤ l
    → l < 256
    → ((m : ℕ) → m < 256 → l < m → section_received s m ≡ some false)
    → mark_section_received s n l ≡ some r
    → (r.1 ≡ true) ↔ ((m : ℕ) → m ≤ l → section_received r.0 m ≡ some true)
mark_section_received_complete s n l {r} v le hl after h =
    let (v', received) = marked-Received s n l v (omega arith) h in
    elim (mark_cases s n l r h) [
      | inl (zn, zl, done) ↦ (λ _ m hm. received m (omega arith) ∙ ground arith, λ _. done)
      | inr whole ↦ (
        λ done m hm. all_received-all r.0 l m (whole ∙ ap some done) hm,
        λ all. some_bool (
            sym whole
            ∙ all-all_received r.0 v' l hl all
                (λ m hm lt. received m hm ∙ ground (arith, after m hm lt))),
      )
    ]
