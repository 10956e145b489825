-- ===== src/App2App/Invariant/Pairs.antt =====
-- Two connections that are paired, or parted, keep the invariant of partners.
use orb_private.Prelude.{
  ℕ, ◌≡◌, inl, inr, sym, ap, subst, ◌∙◌, true, false, none, some, Text, ◌==◌, ==_refl, Bool-cases,
}
use orb_private.App2App.{Side, other, set_paired}
use orb_private.App2App.Pairing.{Paired, other-other, clash, opposite, some_inj, same}
use orb_private.App2App.Invariant.{Partners}

data PairCase (c d x y : ℕ) (paired : Paired) : Type 0 where
  first : (x ≡ c) × (y ≡ d) → PairCase c d x y paired
  second : (x ≡ d) × (y ≡ c) → PairCase c d x y paired
  kept : paired x ≡ some y → PairCase c d x y paired

pair_cases :
    (c d x y : ℕ) (paired : Paired)
    → set_paired c (some d) (set_paired d (some c) paired) x ≡ some y
    → PairCase c d x y paired
pair_cases c d x y paired h = elim (Bool-cases (x == c)) [
  | inl xc ↦ first (same xc, sym (some_inj (rw xc at h)))
  | inr far ↦ elim (Bool-cases (x == d)) [
    | inl xd ↦ second (same xd, sym (some_inj (rw (far, xd) at h)))
    | inr away ↦ kept (rw (far, away) at h)
  ]
]

-- A connection without a partner is no one's partner.
not_partner : (k x y : ℕ) (paired : Paired) → paired k ≡ none → paired y ≡ some x → (y == k) ≡ false
not_partner k x y paired free at = elim (Bool-cases (y == k)) [
  | inr far ↦ far
  | inl is ↦ absurd (clash (sym (subst (λ i. paired i ≡ some x) (same is) at) ∙ free))
]

-- A connection with a partner is the partner of that one only.
other_partner :
    (k j x y : ℕ) (paired : Paired)
    → paired k ≡ some j
    → (x == j) ≡ false
    → paired y ≡ some x
    → (y == k) ≡ false
other_partner k j x y paired kj away at = elim (Bool-cases (y == k)) [
  | inr far ↦ far
  | inl is ↦
      let xj : x ≡ j = some_inj (sym (subst (λ i. paired i ≡ some x) (same is) at) ∙ kj) in
      absurd (opposite (sym away ∙ subst (λ i. (x == i) ≡ true) xj (==_refl x)))
]

unpair_cases :
    (c d x y : ℕ) (paired : Paired)
    → set_paired c none (set_paired d none paired) x ≡ some y
    → ((x == c) ≡ false) × ((x == d) ≡ false) × (paired x ≡ some y)
unpair_cases c d x y paired h = elim (Bool-cases (x == c)) [
  | inl xc ↦ absurd (clash (sym (rw xc at h)))
  | inr far ↦ elim (Bool-cases (x == d)) [
    | inl xd ↦ absurd (clash (sym (rw (far, xd) at h)))
    | inr away ↦ (far, away, rw (far, away) at h)
  ]
]

module _ (side : ℕ → Side) (endpoint : ℕ → Text) where
  pub pair-Partners :
      (c d : ℕ) (paired : Paired)
      → (d == c) ≡ false
      → paired c ≡ none
      → paired d ≡ none
      → side d ≡ other (side c)
      → endpoint d ≡ endpoint c
      → Partners side endpoint paired
      → Partners side endpoint (set_paired c (some d) (set_paired d (some c) paired))
  pair-Partners c d paired far pc pd opp same p = record {
    symmetric = λ x y h. elim (pair_cases c d x y paired h) [
      | first (xc, yd) ↦ rw yd (rw far (rw (==_refl d) (ap some (sym xc))))
      | second (xd, yc) ↦ rw yc (rw (==_refl c) (ap some (sym xd)))
      | kept at ↦
          let back = p.symmetric x y at in
          rw (not_partner c x y paired pc back) (rw (not_partner d x y paired pd back) back)
    ];
    opposite = λ x y h. elim (pair_cases c d x y paired h) [
      | first (xc, yd) ↦ rw (xc, yd) opp
      | second (xd, yc) ↦ rw (xd, yc) (sym (ap other opp ∙ other-other (side c)))
      | kept at ↦ p.opposite x y at
    ];
    together = λ x y h. elim (pair_cases c d x y paired h) [
      | first (xc, yd) ↦ rw (xc, yd) same
      | second (xd, yc) ↦ rw (xd, yc) (sym same)
      | kept at ↦ p.together x y at
    ];
  }

  pub unpair-Partners :
      (c d : ℕ) (paired : Paired)
      → paired c ≡ some d
      → Partners side endpoint paired
      → Partners side endpoint (set_paired c none (set_paired d none paired))
  unpair-Partners c d paired cd p = record {
    symmetric = λ x y h.
        let (far, away, at) = unpair_cases c d x y paired h in
        let back = p.symmetric x y at in
        let yc : (y == c) ≡ false = other_partner c d x y paired cd away back in
        let yd : (y == d) ≡ false = other_partner d c x y paired (p.symmetric c d cd) far back in
        rw yc (rw yd back);
    opposite = λ x y h. p.opposite x y (unpair_cases c d x y paired h).2;
    together = λ x y h. p.together x y (unpair_cases c d x y paired h).2;
  }
