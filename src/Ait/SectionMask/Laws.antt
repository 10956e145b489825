-- ===== src/Ait/SectionMask/Laws.antt =====
-- The mask as a set of section numbers: what marking adds, and what completion means.
use orb_private.Prelude.{
  ℕ, zero, suc, ◌/◌, ◌%◌, ◌^◌, ◌≤◌, ◌<◌, ◌≡◌, refl, sym, ap, ◌∙◌, ◌≢◌, inl, inr, bit_and, bit_or,
  Bool, true, false, not, ◌&&◌, ◌||◌, some, List, [], ◌∷◌, ◌==◌, ltb, if◌then◌else◌, Bool-cases,
  length, get_elem?, get_elem?-set, get_elem?-lt, All-get, All-set, length-set, set, All, all_below,
  all_below_sound, arith,
}
use native.Mathlib.Decide.{ℕ_discrete}
use orb_private.Ait.SectionMask.{
  section_received, full_slots, last_mask, all_received, mark_section_received,
}

-- The mask of a table: 32 bytes.
pub record IsMask (s : List ℕ) : Type 0 where
  pub size : length s ≡ 32
  pub bytes : All (λ b. b < 256) s

-- Bit `i` of a byte, as `section_received` reads it.
abbrev pub has_bit : ℕ → ℕ → Bool
has_bit b i = not (bit_and b (2 ^ i) == 0)

abbrev pub bool_eq : Bool → Bool → Bool
bool_eq true true = true
bool_eq false false = true
bool_eq _ _ = false

bool_eq_sound : (a b : Bool) → bool_eq a b ≡ true → a ≡ b
bool_eq_sound true true h = refl
bool_eq_sound true false h = cc
bool_eq_sound false true h = cc
bool_eq_sound false false h = refl

abbrev or_table : ℕ → ℕ → Bool
or_table i j = all_below 256 (λ b. bool_eq (has_bit (bit_or b (2 ^ i)) j) (i == j || has_bit b j))

or_tables : all_below 8 (λ i. all_below 8 (λ j. or_table i j)) ≡ true
unfolding all_below
or_tables = refl

has_bit-bit_or :
    (b i j : ℕ) → b < 256 → i < 8 → j < 8 → has_bit (bit_or b (2 ^ i)) j ≡ (i == j || has_bit b j)
has_bit-bit_or b i j hb hi hj =
    bool_eq_sound _ _
      (all_below_sound 256 _ b (all_below_sound 8 _ j (all_below_sound 8 _ i or_tables hi) hj) hb)

below_table : all_below 256 (λ b. all_below 8 (λ i. ltb (bit_or b (2 ^ i)) 256)) ≡ true
unfolding all_below
below_table = refl

bit_or-lt : (b i : ℕ) → b < 256 → i < 8 → bit_or b (2 ^ i) < 256
bit_or-lt b i hb hi =
    let h : ltb (bit_or b (2 ^ i)) 256 ≡ true =
      all_below_sound 8 _ i (all_below_sound 256 _ b below_table hb) hi in
    ground arith

pub section_received-slot :
    (s : List ℕ) (m : ℕ) {b : ℕ}
    → get_elem? s (m / 8) ≡ some b
    → section_received s m ≡ some (has_bit b (m % 8))
unfolding section_received
section_received-slot s m e = rw (e, section_received)

-- The mask that `mark_section_received` returns, whatever it says of completion.
mark_section_received-mask :
    (s : List ℕ) (n l : ℕ) {r : List ℕ × Bool} {b : ℕ}
    → get_elem? s (n / 8) ≡ some b
    → mark_section_received s n l ≡ some r
    → r.0 ≡ set s (n / 8) (bit_or b (2 ^ (n % 8)))
unfolding mark_section_received
mark_section_received-mask s n l e h = ground arith

pub slot_of :
    (s : List ℕ)
    → IsMask s
    → (n : ℕ) → n < 256
    → (b : ℕ) × (get_elem? s (n / 8) ≡ some b) × (b < 256)
slot_of s v n hn =
    let (b, e) = get_elem?-lt s (n / 8) (omega (arith, v.size)) in
    (b, e, All-get _ s (n / 8) v.bytes e)

received-same :
    (s : List ℕ) (n m : ℕ) {b : ℕ}
    → n / 8 < length s
    → b < 256
    → get_elem? s (n / 8) ≡ some b
    → n / 8 ≡ m / 8
    → section_received (set s (n / 8) (bit_or b (2 ^ (n % 8)))) m
      ≡ (if n == m then some true else section_received s m)
received-same s n m {b} inside hb e same =
    section_received-slot _ m (get_elem?-set s (n / 8) (m / 8) _ inside ∙ ground (arith, same))
    ∙ ap some (has_bit-bit_or b (n % 8) (m % 8) hb (omega arith) (omega arith))
    ∙ ground (arith, section_received-slot s m (ap (get_elem? s) (sym same) ∙ e))

received-other :
    (s : List ℕ) (n m b : ℕ) {c : ℕ}
    → n / 8 < length s
    → get_elem? s (m / 8) ≡ some c
    → n / 8 ≢ m / 8
    → section_received (set s (n / 8) b) m ≡ (if n == m then some true else section_received s m)
received-other s n m b {c} inside e ne =
    let kept : get_elem? (set s (n / 8) b) (m / 8) ≡ some c =
      get_elem?-set s (n / 8) (m / 8) b inside ∙ ground arith in
    section_received-slot _ m kept ∙ ground (arith, section_received-slot s m e)

-- What marking leaves, where it has a result.
pub marked-Received :
    (s : List ℕ) (n l : ℕ) {r : List ℕ × Bool}
    → IsMask s
    → n < 256
    → mark_section_received s n l ≡ some r
    → IsMask r.0
      × ((m : ℕ)
          → m < 256
          → section_received r.0 m ≡ (if n == m then some true else section_received s m))
marked-Received s n l {r} v hn h =
    let (b, e, hb) = slot_of s v n hn in
    let marked : r.0 ≡ set s (n / 8) (bit_or b (2 ^ (n % 8))) =
      mark_section_received-mask s n l e h in
    (
      record {
        size = rw marked (length-set s (n / 8) _ ∙ v.size);
        bytes = rw marked (All-set _ s (n / 8) _ v.bytes (bit_or-lt b (n % 8) hb (omega arith)));
      },
      λ m hm. rw marked (elim (ℕ_discrete (n / 8) (m / 8)) [
        | yes same ↦ received-same s n m (omega (arith, v.size)) hb e same
        | no other ↦ received-other s n m _ (omega (arith, v.size)) (slot_of s v m hm).1 other
      ]),
    )

full_slots-some :
    (n : ℕ) (slots : List ℕ) → n ≤ length slots → (b : Bool) × (full_slots n slots ≡ some b)
unfolding full_slots
full_slots-some zero slots h = (true, refl)
full_slots-some (suc n) [] h = elim h [ ]
full_slots-some (suc n) (slot ∷ slots) h = elim (Bool-cases (slot == 0xFF)) [
  | inl e ↦ let (b, full) = full_slots-some n slots (omega arith) in (b, rw e full)
  | inr e ↦ (false, rw e refl)
]

all_received-some :
    (s : List ℕ) (l : ℕ) → length s ≡ 32 → l < 256 → (b : Bool) × (all_received s l ≡ some b)
unfolding all_received
all_received-some s l size h =
    let (full, counted) = full_slots-some (l / 8) s (omega (arith, size)) in
    let (last, e) = get_elem?-lt s (l / 8) (omega (arith, size)) in
    elim (Bool-cases full) [
      | inl yes' ↦ (last == last_mask l, rw counted (rw yes' (rw e refl)))
      | inr no' ↦ (false, rw counted (rw no' refl))
    ]

mark_section_received-some :
    (s : List ℕ) (n l : ℕ)
    → IsMask s
    → n < 256
    → l < 256
    → (r : List ℕ × Bool) × (mark_section_received s n l ≡ some r)
unfolding mark_section_received
mark_section_received-some s n l v hn hl =
    let (b, e, _) = slot_of s v n hn in
    let (complete, all) =
      all_received-some (set s (n / 8) (bit_or b (2 ^ (n % 8)))) l (length-set s (n / 8) _ ∙ v.size)
        hl in
    let marked = set s (n / 8) (bit_or b (2 ^ (n % 8))) in
    elim (Bool-cases (n == 0 && l == 0)) [
      | inl first ↦ ((marked, true), rw e (rw first refl))
      | inr other ↦ ((marked, complete), rw e (rw other (rw all refl)))
    ]

-- Marking one of 256 sections in a well formed mask does not fault: it keeps the mask well
-- formed, adds the one section, and leaves every other as it was.
pub mark_section_received-Received :
    (s : List ℕ) (n l m : ℕ)
    → IsMask s
    → n < 256
    → l < 256
    → m < 256
    → (r : List ℕ × Bool) × (mark_section_received s n l ≡ some r)
      × IsMask r.0
      × (section_received r.0 m ≡ (if n == m then some true else section_received s m))
mark_section_received-Received s n l m v hn hl hm =
    let (r, e) = mark_section_received-some s n l v hn hl in
    let (v', received) = marked-Received s n l v hn e in (r, e, v', received m hm)
