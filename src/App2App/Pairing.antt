-- ===== src/App2App/Pairing.antt =====
-- The queues of waiting connections as lists, and their keys.
use orb_private.Prelude.{
  ℕ, ◌≡◌, inl, inr, refl, sym, subst, ◌∙◌, Bool, true, false, not, ◌&&◌, ◌||◌, Option, none, some,
  List, [], ◌∷◌, ◌++◌, Text, text_eq, text_eq_sound, ◌==◌, ==_refl, ==_iff, Bool-cases, arith,
}
use orb_private.App2App.{Side, local, remote, other, key, without}

unfoldable pub is_in : ℕ → List ℕ → Bool
is_in c [] = false
is_in c (d ∷ queue) = d == c || is_in c queue

unfoldable pub distinct : List ℕ → Bool
distinct [] = true
distinct (d ∷ queue) = not (is_in d queue) && distinct queue

pub is_in-append :
    (c d : ℕ) (queue : List ℕ) → is_in c (queue ++ d ∷ []) ≡ (is_in c queue || d == c)
unfolding is_in
is_in-append c d [] = ground arith
is_in-append c d (e ∷ queue) = ground (arith, is_in-append c d queue)

pub is_in-without :
    (c d : ℕ) (queue : List ℕ) → is_in c (without d queue) ≡ (is_in c queue && not (c == d))
unfolding is_in without
is_in-without c d [] = refl
is_in-without c d (e ∷ queue) = grind (arith, is_in-without c d queue)

pub distinct-append :
    (d : ℕ) (queue : List ℕ)
    → distinct queue ≡ true
    → is_in d queue ≡ false
    → distinct (queue ++ d ∷ []) ≡ true
unfolding distinct is_in
distinct-append d [] h new = refl
distinct-append d (e ∷ queue) h new = grind (arith, is_in-append e d queue, distinct-append d queue)

pub distinct-without :
    (d : ℕ) (queue : List ℕ) → distinct queue ≡ true → distinct (without d queue) ≡ true
unfolding distinct without
distinct-without d [] h = refl
distinct-without d (e ∷ queue) h = grind (arith, is_in-without e d queue, distinct-without d queue)

-- The two types have no key in common, and a type's keys tell the endpoints apart.
pub keys : (s t : Side) (e f : Text) → text_eq (key s e) (key t f) ≡ true → (s ≡ t) × (e ≡ f)
unfolding text_eq
keys local local e f h = (refl, text_eq_sound e f h)
keys local remote e f h = cc
keys remote local e f h = cc
keys remote remote e f h = (refl, text_eq_sound e f h)

abbrev pub Paired : Type 0
Paired = ℕ → Option ℕ

abbrev pub Waiting : Type 0
Waiting = Text → List ℕ

pub other-other : (s : Side) → other (other s) ≡ s
other-other local = refl
other-other remote = refl

pub clash : {A : Type 0} {a : A} → some a ≡ none → ⊥
clash h = cc

pub opposite : false ≡ true → ⊥
opposite h = cc

pub some_inj : {A : Type 0} {a b : A} → some a ≡ some b → a ≡ b
some_inj h = cc

pub same : {k j : ℕ} → (k == j) ≡ true → k ≡ j
same {k} {j} h = (==_iff k j).0 h

-- Which connections are partners after two have been paired.

pub in_rest :
    (c d : ℕ) (rest : List ℕ)
    → distinct (d ∷ rest) ≡ true
    → is_in c rest ≡ true
    → (is_in c (d ∷ rest) ≡ true) × ((c == d) ≡ false)
unfolding is_in distinct
in_rest c d rest all inside = (
  ground arith,
  elim (Bool-cases (c == d)) [
    | inr far ↦ far
    | inl is ↦
        let dup : is_in d rest ≡ true = subst (λ i. is_in i rest ≡ true) (same is) inside in
        absurd (opposite (rw dup at all))
  ],
)

pub in_front : (d : ℕ) (rest : List ℕ) → is_in d (d ∷ rest) ≡ true
unfolding is_in
in_front d rest = rw (==_refl d) refl

pub distinct_rest : (d : ℕ) (rest : List ℕ) → distinct (d ∷ rest) ≡ true → distinct rest ≡ true
unfolding distinct
distinct_rest d rest h = ground arith

pub outside :
    (c x : ℕ) (queue : List ℕ) → is_in c queue ≡ false → is_in x queue ≡ true → (x == c) ≡ false
outside c x queue out inside = elim (Bool-cases (x == c)) [
  | inr far ↦ far
  | inl is ↦ absurd (opposite (sym out ∙ subst (λ i. is_in i queue ≡ true) (same is) inside))
]

pub only : (b c : Bool) → c ≡ false → (b || c) ≡ true → b ≡ true
only true c f h = refl
only false c f h = absurd (opposite (sym f ∙ h))

pub both : (b c : Bool) → (b && not c) ≡ true → (b ≡ true) × (c ≡ false)
both true false h = (refl, refl)
both true true h = absurd (opposite h)
both false c h = absurd (opposite h)
