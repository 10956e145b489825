-- ===== src/Ait/Section/Sequence.antt =====
-- What holds of the tables after any sequence of sections.
use orb_private.Prelude.{
  ℕ, ◌≤◌, ◌<◌, ◌≡◌, ◌⊎◌, refl, ap, ◌∙◌, subst, Bool, true, false, Option, none, some, List, [], ◌∷◌,
  Pointer, ◌==◌, Bool-cases, >>=-eq-some, ◌>>=◌, if◌then◌else◌, All, Any, inl, inr, arith, sym,
}
use orb_private.Ait.{Ait, AitTable}
use orb_private.Ait.SectionMask.{section_received}
use orb_private.Ait.SectionMask.Laws.{IsMask, marked-Received}
use orb_private.Ait.SectionMask.Complete.{mark_section_received-all}
use orb_private.Ait.Section.{
  Header, is_wanted, same_version, read_header, read_section, parse_section, publish,
  process_section,
}
use orb_private.Ait.Section.Outcome.{process_section_cases}
use orb_private.Ait.Section.Repeat.{
  HasMask, read_section-marked, working_table-IsMask, working_table-version, header_small,
  publish_ait,
}

abbrev Parsed : Type 0
Parsed = Option AitTable × Bool

unchanged :
    {c : Option AitTable} {t : AitTable}
    → ◌≡◌ {A = Option Parsed} (some (c, false)) (some (some t, true))
    → ⊥
unchanged h = cc

the_table :
    {t u : AitTable} → ◌≡◌ {A = Option Parsed} (some (some t, true)) (some (some u, true)) → t ≡ u
the_table h = cc

first_of :
    {c : Option AitTable} {b : Bool} {x : Option AitTable × Bool} → some (c, b) ≡ some x → c ≡ x.0
first_of h = cc

read_section-IsMask :
    (current : Option AitTable) (h : Header) (section : Pointer) (u : AitTable)
    → HasMask current
    → h.section_number < 256
    → read_section (same_version current h) h section ≡ some u
    → IsMask u.section_data
read_section-IsMask current h section u v small e =
    let (marked, m, mask, _, _) = read_section-marked (same_version current h) h section u e in
    rw mask
      (marked-Received _ h.section_number h.last_section_number (working_table-IsMask current h v)
        small m).0

parse_section-HasMask :
    (current : Option AitTable) (section : Pointer) {x : Option AitTable × Bool}
    → HasMask current
    → All (λ b. b < 256) section
    → parse_section current section ≡ some x
    → HasMask x.0
unfolding parse_section
parse_section-HasMask current section {x} v bytes e =
    let (h, header, h1) = >>=-eq-some (read_header section) _ {b = x} e in
    elim (Bool-cases (h.app_type == 0x0010)) [
      | inr other ↦ subst HasMask (first_of (rw other at h1)) v
      | inl hbbtv ↦
          let (wanted, asked, h2) = >>=-eq-some (is_wanted current h) _ {b = x} (rw hbbtv at h1) in
          elim (Bool-cases wanted) [
            | inr skip ↦ subst HasMask (first_of (rw skip at h2)) v
            | inl take' ↦
                let (u, read, h3) =
                  >>=-eq-some (read_section (same_version current h) h section) _ {b = x}
                    (rw take' at h2) in
                subst HasMask (first_of h3) (
                  read_section-IsMask current h section u v (header_small section h bytes header)
                    read)
          ]
    ]

process_section-HasMask :
    (a : Ait) (section : Pointer) {r : Ait × Bool}
    → HasMask a.ait
    → All (λ b. b < 256) section
    → process_section a section ≡ some r
    → HasMask r.0.ait
process_section-HasMask a section v bytes h = elim (process_section_cases a section h) [
  | inl e ↦ rw e v
  | inr (x, parsed, e) ↦
      rw e
        (subst HasMask (sym (publish_ait a x)) (parse_section-HasMask a.ait section v bytes parsed))
]

-- The sections that arrive one after the other.
unfoldable pub process_sections : Ait → List Pointer → Option Ait
process_sections a [] = some a
process_sections a (section ∷ sections) = do
  r ← process_section a section
  process_sections r.0 sections

-- A table in which every section up to the last is received, as the header of one of its version says.
abbrev pub CompletedBy : AitTable → Pointer → Type 0
CompletedBy table section =
    (h : Header) × (read_header section ≡ some h)
    × (table.version ≡ h.version)
    × (table.complete ≡ true)
    × ((n : ℕ) → n ≤ h.last_section_number → section_received table.section_data n ≡ some true)

parse_section-CompletedBy :
    (current : Option AitTable) (section : Pointer) (table : AitTable)
    → HasMask current
    → All (λ b. b < 256) section
    → parse_section current section ≡ some (some table, true)
    → table.complete ≡ true
    → CompletedBy table section
unfolding parse_section
parse_section-CompletedBy current section table v bytes e complete =
    let (h, header, h1) = >>=-eq-some (read_header section) _ {b = (some table, true)} e in
    elim (Bool-cases (h.app_type == 0x0010)) [
      | inr other ↦ absurd (unchanged (rw other at h1))
      | inl hbbtv ↦
          let (wanted, asked, h2) =
            >>=-eq-some (is_wanted current h) _ {b = (some table, true)} (rw hbbtv at h1) in
          elim (Bool-cases wanted) [
            | inr skip ↦ absurd (unchanged (rw skip at h2))
            | inl take' ↦
                let (u, read, h3) =
                  >>=-eq-some (read_section (same_version current h) h section) _
                    {b = (some table, true)} (rw take' at h2) in
                let same : u ≡ table = the_table h3 in
                let (marked, m, mask, version, done) =
                  read_section-marked (same_version current h) h section u read in
                let all =
                  mark_section_received-all _ h.section_number h.last_section_number
                    (working_table-IsMask current h v) (header_small section h bytes header) m
                    (sym done ∙ ap (λ t. t.complete) same ∙ complete) in
                (
                  h,
                  header,
                  ap (λ t. t.version) (sym same) ∙ version ∙ working_table-version current h,
                  complete,
                  λ n hn.
                      ap (λ t. section_received t.section_data n) (sym same)
                      ∙ ap (λ d. section_received d n) mask
                      ∙ all n hn,
                )
          ]
    ]

-- The completed table stays, or is a new one that a section completes.
Completed : Ait → Ait → (AitTable → Type 0) → Type 0
Completed a b By =
    (b.ait_completed ≡ a.ait_completed)
    ⊎ ((table : AitTable) × (b.ait_completed ≡ some table) × By table)

completed_if :
    (a : Ait) (By : AitTable → Type 0) (c shared : Bool) (t : AitTable)
    → (c ≡ true → By t)
    → Completed a
        (if c
          then record { ait = some t; ait_completed = some t; is_shared = false }
          else record a { ait = some t; is_shared = shared })
        By
unfolding Completed
completed_if a By true shared t by = inr (t, refl, by refl)
completed_if a By false shared t by = inl refl

publish-Completed :
    (a : Ait) (section : Pointer) (x : Option AitTable × Bool)
    → HasMask a.ait
    → All (λ b. b < 256) section
    → parse_section a.ait section ≡ some x
    → Completed a (publish a x).0 (λ table. CompletedBy table section)
unfolding publish Completed
publish-Completed a section (none, changed) v bytes e = inl refl
publish-Completed a section (some table, true) v bytes e =
    subst (λ b. Completed a b (λ t. CompletedBy t section)) (if_first table.complete)
      (completed_if a (λ t. CompletedBy t section) table.complete false table
        (parse_section-CompletedBy a.ait section table v bytes e))
  where
    if_first :
        (c : Bool)
        → (if c
            then record { ait = some table; ait_completed = some table; is_shared = false }
            else record a { ait = some table; is_shared = false })
          ≡ (if◌then◌else◌ {A = Ait × Bool} c
              (record { ait = some table; ait_completed = some table; is_shared = false }, true)
              (record a { ait = some table; is_shared = false }, false)).0
    if_first true = refl
    if_first false = refl
publish-Completed a section (some table, false) v bytes e = inl refl

process_section-Completed :
    (a : Ait) (section : Pointer) {r : Ait × Bool}
    → HasMask a.ait
    → All (λ b. b < 256) section
    → process_section a section ≡ some r
    → Completed a r.0 (λ table. CompletedBy table section)
unfolding Completed
process_section-Completed a section v bytes h = elim (process_section_cases a section h) [
  | inl e ↦ inl (ap (λ r. r.0.ait_completed) e)
  | inr (x, parsed, e) ↦ rw e (publish-Completed a section x v bytes parsed)
]

-- However many sections are processed, of whatever bytes, from a well formed mask: as long as none of them
-- faults, the mask of the table in progress stays well formed, and the table that `Get` returns is the one
-- from before or a complete one: all the sections are received in it, from the first to the last that the
-- header of one of the processed sections gives, which is of the table's version.
pub process_sections-CompletedBy :
    (a : Ait) (sections : List Pointer) {b : Ait}
    → HasMask a.ait
    → All (All (λ c. c < 256)) sections
    → process_sections a sections ≡ some b
    → HasMask b.ait
      × ((b.ait_completed ≡ a.ait_completed)
          ⊎ ((table : AitTable) × (b.ait_completed ≡ some table)
              × Any (CompletedBy table) sections))
unfolding process_sections Completed
process_sections-CompletedBy a [] {b} m bytes h =
    let same : a ≡ b = ground arith in
    (subst (λ c. HasMask c.ait) same m, inl (ap (λ c. c.ait_completed) (sym same)))
process_sections-CompletedBy a (section ∷ sections) {b} m bytes h =
    let (r, processed, rest) = >>=-eq-some (process_section a section) _ {b = b} h in
    let first = process_section-Completed a section m bytes.0 processed in
    let (mask, later) =
      process_sections-CompletedBy r.0 sections
        (process_section-HasMask a section m bytes.0 processed) bytes.1 rest in
    (
      mask,
      elim later [
        | inr (table, e, by) ↦ inr (table, e, inr by)
        | inl e ↦ elim first [
          | inl k ↦ inl (e ∙ k)
          | inr (table, k, by) ↦ inr (table, e ∙ k, inl by)
        ]
      ],
    )
