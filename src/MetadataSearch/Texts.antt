-- ===== src/MetadataSearch/Texts.antt =====
-- The order of texts, and texts in texts, against the functions of the standard library.
use orb_private.Prelude.{
  ℕ, ◌<◌, ◌≡◌, ◌⊎◌, inl, inr, refl, sym, ap, ◌∙◌, Bool, true, false, ◌||◌, Option, none, some, [],
  ◌∷◌, ◌++◌, append-nil, Text, ltb→lt, lt→ltb, after_head, find, starts_with, is_empty, ltb, ◌==◌,
  ==_iff, if◌then◌else◌, Reflects, Bool-cases, arith,
}
use orb_private.MetadataSearch.{text_lt, is_found}

-- The order of texts: a text is a proper beginning of another, or has the lower byte where they part.
abbrev pub IsBefore : Text → Text → Type 0
IsBefore s t =
    ((d : ℕ) × (rest : Text) × (t ≡ s ++ d ∷ rest))
    ⊎ ((same : Text) × (c : ℕ) × (d : ℕ) × (s' : Text) × (t' : Text) × (c < d)
        × (s ≡ same ++ c ∷ s')
        × (t ≡ same ++ d ∷ t'))

abbrev pub Occurs : Text → Text → Type 0
Occurs q p = (before : Text) × (after : Text) × (p ≡ before ++ (q ++ after))

head_eq : {c d : ℕ} {s t : Text} → c ∷ s ≡ d ∷ t → c ≡ d
head_eq h = cc

tail_eq : {c d : ℕ} {s t : Text} → c ∷ s ≡ d ∷ t → s ≡ t
tail_eq h = cc

not_both : {b : Bool} → b ≡ true → b ≡ false → ⊥
not_both h k = cc

heads : {c d : ℕ} {s t : Text} → (c == d) ≡ false → c ∷ s ≡ d ∷ t → ⊥
heads {c} {d} other k = not_both ((==_iff c d).1 (head_eq k)) other

starts_with-Reflects : (s t : Text) → Reflects (starts_with s t) ((after : Text) × (s ≡ t ++ after))
unfolding starts_with
starts_with-Reflects s [] = (λ h. (s, refl), λ h. refl)
starts_with-Reflects [] (d ∷ t) = (λ h. cc, λ (after, e). cc)
starts_with-Reflects (c ∷ s) (d ∷ t) =
    let rest = starts_with-Reflects s t in
    elim (Bool-cases (c == d)) [
      | inl same ↦
          let e : c ≡ d = (==_iff c d).0 same in
          rw same (
            λ h. let (after, k) = rest.0 h in (after, ap (λ x. x ∷ s) e ∙ ap (λ x. d ∷ x) k),
            λ (after, k). rest.1 (after, cc),
          )
      | inr other ↦ rw other (λ h. cc, λ (after, k). absurd (heads other k))
    ]

no_nil : (s : Text) (d : ℕ) (t : Text) → [] ≡ s ++ d ∷ t → ⊥
no_nil [] d t h = cc
no_nil (c ∷ s) d t h = cc

text_lt-cons :
    (c d : ℕ) (s t : Text)
    → Reflects (text_lt s t) (IsBefore s t)
    → IsBefore (c ∷ s) (d ∷ t)
    → (c < d) ⊎ ((c ≡ d) × (text_lt s t ≡ true))
text_lt-cons c d s t rest (inl (d', r, e)) = inr (sym (head_eq e), rest.1 (inl (d', r, tail_eq e)))
text_lt-cons c d s t rest (inr ([], c', d', s', t', lt, e, f)) =
    inl (omega (arith, lt, head_eq e, head_eq f))
text_lt-cons c d s t rest (inr (x ∷ same, c', d', s', t', lt, e, f)) =
    inr (head_eq e ∙ sym (head_eq f), rest.1 (inr (same, c', d', s', t', lt, tail_eq e, tail_eq f)))

pub text_lt-Reflects : (s t : Text) → Reflects (text_lt s t) (IsBefore s t)
unfolding text_lt
text_lt-Reflects s [] = (
  λ h. cc,
  elim [
    | inl (d, rest, e) ↦ absurd (no_nil s d rest e)
    | inr (same, c, d, s', t', lt, e, f) ↦ absurd (no_nil same d t' f)
  ],
)
text_lt-Reflects [] (d ∷ t) = (λ h. inl (d, t, refl), λ h. refl)
text_lt-Reflects (c ∷ s) (d ∷ t) =
    let rest = text_lt-Reflects s t in
    (
      λ h. elim (Bool-cases (ltb c d)) [
        | inl lower ↦ inr ([], c, d, s, t, ltb→lt c d lower, refl, refl)
        | inr not_lower ↦ elim (Bool-cases (c == d)) [
          | inr other ↦ absurd (not_both (rw (not_lower, other) at h) refl)
          | inl same ↦
              let e : c ≡ d = (==_iff c d).0 same in
              elim (rest.0 (rw (not_lower, same) at h)) [
                | inl (d', r, k) ↦ inl (d', r, ap (λ x. x ∷ t) (sym e) ∙ ap (λ x. c ∷ x) k)
                | inr (x, c', d', s', t', lt, k, l) ↦ inr (
                  c ∷ x,
                  c',
                  d',
                  s',
                  t',
                  lt,
                  ap (λ x. c ∷ x) k,
                  ap (λ x. x ∷ t) (sym e) ∙ ap (λ x. c ∷ x) l,
                )
              ]
        ]
      ],
      λ h. elim (text_lt-cons c d s t rest h) [
        | inl lower ↦ rw (lt→ltb c d lower) refl
        | inr (e, k) ↦ ground (arith, e, k)
      ],
    )

is_found-after : (o : Option ℕ) → is_found (after_head o) ≡ is_found o
is_found-after none = refl
is_found-after (some i) = refl

nil_append : (s t : Text) → [] ≡ s ++ t → is_empty s ≡ true
nil_append [] t h = refl
nil_append (c ∷ s) t h = cc

empty-nil : (s : Text) → is_empty s ≡ true → [] ≡ s
empty-nil [] h = refl
empty-nil (c ∷ s) h = absurd (not_both h refl)

Occurs-nil : (q before after : Text) → [] ≡ before ++ (q ++ after) → is_empty q ≡ true
Occurs-nil q [] after e = nil_append q after e
Occurs-nil q (c ∷ before) after e = cc

Occurs-cons :
    (q : Text) (c : ℕ) (s before after : Text)
    → Reflects (is_found (find q s)) (Occurs q s)
    → c ∷ s ≡ before ++ (q ++ after)
    → (starts_with (c ∷ s) q ≡ true) ⊎ (is_found (find q s) ≡ true)
Occurs-cons q c s [] after rest e = inl ((starts_with-Reflects (c ∷ s) q).1 (after, e))
Occurs-cons q c s (x ∷ before) after rest e = inr (rest.1 (before, after, tail_eq e))

found_if :
    (b : Bool) (o : Option ℕ) → b || is_found o ≡ is_found (if b then some 0 else after_head o)
found_if true o = refl
found_if false o = sym (is_found-after o)

or_cases : (a b : Bool) → a || b ≡ true → (a ≡ true) ⊎ (b ≡ true)
or_cases true b h = inl refl
or_cases false b h = inr h

or_true : (a b : Bool) → (a ≡ true) ⊎ (b ≡ true) → a || b ≡ true
or_true true b h = refl
or_true false b (inl h) = cc
or_true false b (inr h) = h

pub find-Reflects : (q p : Text) → Reflects (is_found (find q p)) (Occurs q p)
unfolding find
find-Reflects q [] = (
  λ h. elim (Bool-cases (is_empty q)) [
    | inl e ↦ ([], [], empty-nil q e ∙ sym (append-nil q))
    | inr e ↦ absurd (not_both (rw e at h) refl)
  ],
  λ (before, after, e). rw (Occurs-nil q before after e) refl,
)
find-Reflects q (c ∷ s) =
    let rest = find-Reflects q s in
    let both = found_if (starts_with (c ∷ s) q) (find q s) in
    (
      λ h. elim (or_cases (starts_with (c ∷ s) q) (is_found (find q s)) (both ∙ h)) [
        | inl here ↦ let (after, e) = (starts_with-Reflects (c ∷ s) q).0 here in ([], after, e)
        | inr later ↦
            let (before, after, e) = rest.0 later in (c ∷ before, after, ap (λ x. c ∷ x) e)
      ],
      λ (before, after, e).
          sym both
          ∙ or_true (starts_with (c ∷ s) q) (is_found (find q s))
              (Occurs-cons q c s before after rest e),
    )
