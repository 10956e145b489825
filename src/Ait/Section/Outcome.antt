-- ===== src/Ait/Section/Outcome.antt =====
-- What a section does to the tables, whatever it holds.
use orb_private.Prelude.{
  ℕ, ◌+◌, ◌*◌, ◌%◌, ◌≡◌, ◌≢◌, refl, ◌⊎◌, inl, inr, Bool, true, false, ◌&&◌, Option, none, some,
  Pointer, Bool-cases, >>=-eq-some, if◌then◌else◌, length, byte, arith,
}
use orb_private.Ait.{Ait, AitTable}
use orb_private.Ait.Section.{parse_section, publish, has_its_size, process_section}

-- The completed table is a complete one.
abbrev pub IsComplete : Option AitTable → Type 0
IsComplete none = Unit
IsComplete (some table) = table.complete ≡ true

abbrev pub IsPublished : Ait → Type 0
IsPublished a = IsComplete a.ait_completed

publish-IsPublished :
    (a : Ait) (r : Option AitTable × Bool) → IsPublished a → IsPublished (publish a r).0
unfolding publish
publish-IsPublished a (none, changed) v = v
publish-IsPublished a (some table, changed) v = elim (Bool-cases (changed && table.complete)) [
  | inl h ↦ rw h (ground arith)
  | inr h ↦ rw h v
]

-- A section is refused for its size, or parsed and published.
pub process_section_cases :
    (a : Ait) (section : Pointer) {r : Ait × Bool}
    → process_section a section ≡ some r
    → (r ≡ (a, false))
      ⊎ ((x : Option AitTable × Bool) × (parse_section a.ait section ≡ some x) × (r ≡ publish a x))
unfolding process_section
process_section_cases a section {r} h =
    let (sized, _, rest) = >>=-eq-some (has_its_size section) _ h in
    elim (Bool-cases sized) [
      | inl yes' ↦
          let (x, parsed, done) =
            >>=-eq-some (parse_section a.ait section) (λ x. some (publish a x)) {b = r}
              (ground (arith, rest)) in
          inr (x, parsed, ground (arith, done))
      | inr no' ↦ inl (ground (arith, rest))
    ]

-- Where the completed table is complete or there is none, no section that is processed without a
-- fault puts an incomplete one in its place.
pub process_section-IsPublished :
    (a : Ait) (section : Pointer) {r : Ait × Bool}
    → IsPublished a
    → process_section a section ≡ some r
    → IsPublished r.0
process_section-IsPublished a section v h = elim (process_section_cases a section h) [
  | inl e ↦ rw e v
  | inr (x, parsed, e) ↦ rw e (publish-IsPublished a x v)
]

publish_result :
    (a : Ait) (x : Option AitTable × Bool)
    → (publish a x).0.ait_completed
      ≡ (if (publish a x).1 then (publish a x).0.ait else a.ait_completed)
unfolding publish
publish_result a (none, changed) = refl
publish_result a (some table, changed) = ground arith

-- Where a section is processed without a fault, the result says whether `Get` has changed: if it
-- is true the completed table is the table in progress, and if it is false it is the old one.
pub process_section-result :
    (a : Ait) (section : Pointer) {r : Ait × Bool}
    → process_section a section ≡ some r
    → r.0.ait_completed ≡ (if r.1 then r.0.ait else a.ait_completed)
process_section-result a section h = elim (process_section_cases a section h) [
  | inl e ↦ rw e refl
  | inr (x, parsed, e) ↦ rw e (publish_result a x)
]

-- Data that has not the size that its header gives changes nothing.
pub process_section-missized :
    (a : Ait) (section : Pointer) (high low : ℕ)
    → byte section 1 ≡ some high
    → byte section 2 ≡ some low
    → length section ≢ (high * 256 + low) % 4096 + 3
    → process_section a section ≡ some (a, false)
unfolding process_section has_its_size
process_section-missized a section high low eh el ne = ground arith
