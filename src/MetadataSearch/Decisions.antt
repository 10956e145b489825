-- ===== src/MetadataSearch/Decisions.antt =====
-- Results that say whether a proposition holds, and chains of tests on a field's name.
use orb_private.Prelude.{
  ◌≡◌, ◌↔◌, ◌⊎◌, refl, sym, ap, ◌∙◌, inl, inr, Bool, true, false, not, Option, some, List, [], ◌∷◌,
  Text, text_eq, text_eq_refl, text_eq_sound, if◌then◌else◌, ◌>>=◌, Bool-cases, All, Any, Reflects,
}
use orb_private.MetadataSearch.{and_then, or_then}

not_both : {b : Bool} → b ≡ true → b ≡ false → ⊥
not_both h k = cc

named : (s t : Text) → s ≡ t → text_eq s t ≡ true
named s t e = ap (text_eq s) (sym e) ∙ text_eq_refl s

-- A field has one name.
excluded :
    (field name : Text) (cs : List (Text × Type 0))
    → All (λ c. text_eq name c.0 ≡ false) cs
    → field ≡ name
    → Any (λ c. (field ≡ c.0) × c.1) cs
    → ⊥
excluded field name [] others same h = h
excluded field name (c ∷ cs) (other, others) same (inl h) =
    not_both (named name c.0 (sym same ∙ h.0)) other
excluded field name (c ∷ cs) (other, others) same (inr h) = excluded field name cs others same h

-- A result that says whether a proposition holds.
abbrev pub Decides : Option Bool → Type 0 → Type 0
Decides r P = (b : Bool) × (r ≡ some b) × ((b ≡ true) ↔ P)

pub Decides-and :
    (r s : Option Bool) {P Q : Type 0} → Decides r P → Decides s Q → Decides (and_then r s) (P × Q)
Decides-and r s (true, e, p) (c, f, q) =
    (c, rw (e, f) refl, ((λ h. (p.0 refl, q.0 h)), λ h. q.1 h.1))
Decides-and r s (false, e, p) (c, f, q) = (false, rw e refl, ((λ h. cc), λ h. p.1 h.0))

pub Decides-or :
    (r s : Option Bool) {P Q : Type 0} → Decides r P → Decides s Q → Decides (or_then r s) (P ⊎ Q)
Decides-or r s (true, e, p) (c, f, q) = (true, rw e refl, ((λ h. inl (p.0 refl)), λ h. refl))
Decides-or r s (false, e, p) (c, f, q) =
    (c, rw (e, f) refl, ((λ h. inr (q.0 h)), elim [ inl h ↦ absurd (cc (p.1 h)) | inr h ↦ q.1 h ]))

pub Decides-not :
    (r : Option Bool) {P : Type 0} → Decides r P → Decides (r >>= λ a. some (not a)) (P → ⊥)
Decides-not r (true, e, p) = (false, rw e refl, ((λ h. cc), λ h. absurd (h (p.0 refl))))
Decides-not r (false, e, p) = (true, rw e refl, ((λ h k. cc (p.1 k)), λ h. refl))

pub Decides-some :
    (r : Option Bool) (b : Bool) {P : Type 0} → r ≡ some b → Reflects b P → Decides r P
Decides-some r b e p = (b, e, p)

-- The first field of a chain of tests.
pub Decides-field :
    (field name : Text) (r rest : Option Bool) {P : Type 0} (cs : List (Text × Type 0))
    → (field ≡ name → Decides r P)
    → Decides rest (Any (λ c. (field ≡ c.0) × c.1) cs)
    → All (λ c. text_eq name c.0 ≡ false) cs
    → Decides
        (if text_eq field name then r else rest)
        (((field ≡ name) × P) ⊎ Any (λ c. (field ≡ c.0) × c.1) cs)
Decides-field field name r rest cs here later others = elim (Bool-cases (text_eq field name)) [
  | inl is ↦
      let same = text_eq_sound field name is in
      let (b, e, p) = here same in
      (
        b,
        rw is e,
        (
          λ h. inl (same, p.0 h),
          elim [ inl h ↦ p.1 h.1 | inr h ↦ absurd (excluded field name cs others same h) ],
        ),
      )
  | inr isnt ↦
      let (b, e, p) = later in
      (
        b,
        rw isnt e,
        (
          λ h. inr (p.0 h),
          elim [ inl h ↦ absurd (not_both (named field name h.0) isnt) | inr h ↦ p.1 h ],
        ),
      )
]
