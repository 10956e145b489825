-- ===== src/App2App/Invariant/Waits.antt =====
-- A connection that starts or stops waiting keeps the invariant of the queues.
use orb_private.Prelude.{
  ℕ, ◌≡◌, ◌⊎◌, inl, inr, refl, sym, ap, subst, ◌∙◌, true, false, not, ◌&&◌, ◌||◌, none, some, List,
  [], ◌∷◌, ◌++◌, Text, text_eq, text_eq_sound, text_eq_refl, ◌==◌, Bool-cases,
}
use orb_private.App2App.{Side, local, remote, other, key, set_paired, set_waiting, without}
use orb_private.App2App.Pairing.{
  Paired, Waiting, opposite, same, in_rest, in_front, distinct_rest, outside, only, both, is_in,
  distinct, is_in-append, is_in-without, distinct-append, distinct-without, keys,
}
use orb_private.App2App.Invariant.{Queues, OneSided}

unpaired :
    (c d x : ℕ) (paired : Paired)
    → paired x ≡ none
    → set_paired c none (set_paired d none paired) x ≡ none
unpaired c d x paired h = elim (Bool-cases (x == c)) [
  | inl is ↦ rw is refl
  | inr far ↦ elim (Bool-cases (x == d)) [
    | inl is ↦ rw (far, is) refl
    | inr away ↦ rw (far, away) h
  ]
]

-- Who waits after a connection has been added: it waits under its own key, and the others as before.
added :
    (t t' : Side) (e e' : Text) (c x : ℕ) (waiting : Waiting)
    → is_in x (set_waiting (key t e) (waiting (key t e) ++ c ∷ []) waiting (key t' e')) ≡ true
    → (is_in x (waiting (key t' e')) ≡ true) ⊎ ((x ≡ c) × (t' ≡ t) × (e' ≡ e))
added t t' e e' c x waiting h = elim (Bool-cases (text_eq (key t' e') (key t e))) [
  | inr elsewhere ↦ inl (rw elsewhere at h)
  | inl here ↦
      let (ts, es) = keys t' t e' e here in
      let inside : (is_in x (waiting (key t e)) || c == x) ≡ true =
        sym (is_in-append x c (waiting (key t e))) ∙ (rw here at h) in
      elim (Bool-cases (c == x)) [
        | inl is ↦ inr (sym (same is), ts, es)
        | inr far ↦ inl (
            subst (λ k. is_in x (waiting k) ≡ true) (sym (text_eq_sound (key t' e') (key t e) here))
              (only (is_in x (waiting (key t e))) (c == x) far inside))
      ]
]

-- And after one has been removed.
pub left :
    (t t' : Side) (e e' : Text) (c x : ℕ) (waiting : Waiting)
    → is_in x (set_waiting (key t e) (without c (waiting (key t e))) waiting (key t' e')) ≡ true
    → (is_in x (waiting (key t' e')) ≡ true)
      × (((x == c) ≡ false) ⊎ (text_eq (key t' e') (key t e) ≡ false))
left t t' e e' c x waiting h = elim (Bool-cases (text_eq (key t' e') (key t e))) [
  | inr elsewhere ↦ (rw elsewhere at h, inr elsewhere)
  | inl here ↦
      let inside : (is_in x (waiting (key t e)) && not (x == c)) ≡ true =
        sym (is_in-without x c (waiting (key t e))) ∙ (rw here at h) in
      let (was, far) = both (is_in x (waiting (key t e))) (x == c) inside in
      (
        subst (λ k. is_in x (waiting k) ≡ true) (sym (text_eq_sound (key t' e') (key t e) here))
            was,
        inl far,
      )
]

module _ (side : ℕ → Side) (endpoint : ℕ → Text) where
  -- The queue whose front is taken: who waits still, waited, and is not the one that was taken.
  taken_cases :
      (t t' : Side) (e e' : Text) (c d : ℕ) (rest : List ℕ) (paired : Paired) (waiting : Waiting)
      → waiting (key t e) ≡ d ∷ rest
      → Queues side endpoint paired waiting
      → is_in c (set_waiting (key t e) rest waiting (key t' e')) ≡ true
      → (is_in c (waiting (key t' e')) ≡ true) × ((c == d) ≡ false)
  unfolding is_in distinct
  taken_cases t t' e e' c d rest paired waiting q w h =
      elim (Bool-cases (text_eq (key t' e') (key t e))) [
        | inl here ↦
            let (ts, es) = keys t' t e' e here in
            let inside : is_in c rest ≡ true = rw here at h in
            let all = subst (λ l. distinct l ≡ true) q (w.once t e) in
            let (was, far) = in_rest c d rest all inside in
            (
              subst (λ k. is_in c (waiting k) ≡ true)
                  (sym (text_eq_sound (key t' e') (key t e) here))
                  (subst (λ l. is_in c l ≡ true) (sym q) was),
              far,
            )
        | inr elsewhere ↦
            let old : is_in c (waiting (key t' e')) ≡ true = rw elsewhere at h in
            (
              old,
              elim (Bool-cases (c == d)) [
                | inr far ↦ far
                | inl is ↦
                    let front : is_in d (waiting (key t e)) ≡ true =
                      subst (λ l. is_in d l ≡ true) (sym q) (in_front d rest) in
                    let side_c = ap side (same is) ∙ w.typed t e d front in
                    let endpoint_c = ap endpoint (same is) ∙ w.placed t e d front in
                    let keys_same : key t' e' ≡ key t e =
                      ap (λ i. key i e') (sym (w.typed t' e' c old) ∙ side_c)
                      ∙ ap (key t) (sym (w.placed t' e' c old) ∙ endpoint_c) in
                    absurd (
                      opposite (
                        sym elsewhere
                        ∙ subst (λ k. text_eq k (key t e) ≡ true) (sym keys_same)
                            (text_eq_refl (key t e))))
              ],
            )
      ]

  pub pair-Queues :
      (t : Side) (e : Text) (c d : ℕ) (rest : List ℕ) (paired : Paired) (waiting : Waiting)
      → waiting (key t e) ≡ d ∷ rest
      → ((t' : Side) (e' : Text) → is_in c (waiting (key t' e')) ≡ false)
      → Queues side endpoint paired waiting
      → Queues side endpoint
          (set_paired c (some d) (set_paired d (some c) paired))
          (set_waiting (key t e) rest waiting)
  pair-Queues t e c d rest paired waiting q new w = record {
    free = λ t' e' x h.
        let (old, away) = taken_cases t t' e e' x d rest paired waiting q w h in
        let far = outside c x (waiting (key t' e')) (new t' e') old in
        rw far (rw away (w.free t' e' x old));
    typed = λ t' e' x h. w.typed t' e' x (taken_cases t t' e e' x d rest paired waiting q w h).0;
    placed = λ t' e' x h. w.placed t' e' x (taken_cases t t' e e' x d rest paired waiting q w h).0;
    once = λ t' e'. elim (Bool-cases (text_eq (key t' e') (key t e))) [
      | inl here ↦ rw here (distinct_rest d rest (subst (λ l. distinct l ≡ true) q (w.once t e)))
      | inr elsewhere ↦ rw elsewhere (w.once t' e')
    ];
  }

  pub unpair-Queues :
      (c d : ℕ) (paired : Paired) (waiting : Waiting)
      → Queues side endpoint paired waiting
      → Queues side endpoint (set_paired c none (set_paired d none paired)) waiting
  unpair-Queues c d paired waiting w = record {
    free = λ t e x h. unpaired c d x paired (w.free t e x h);
    typed = w.typed;
    placed = w.placed;
    once = w.once;
  }

  pub OneSided-shrink :
      (waiting waiting' : Waiting)
      → ((k : Text) → waiting k ≡ [] → waiting' k ≡ [])
      → OneSided side endpoint waiting
      → OneSided side endpoint waiting'
  OneSided-shrink waiting waiting' f one e = elim (one e) [
    | inl h ↦ inl (f (key local e) h)
    | inr h ↦ inr (f (key remote e) h)
  ]

  pub OneSided-add :
      (t : Side) (e : Text) (queue : List ℕ) (waiting : Waiting)
      → waiting (key (other t) e) ≡ []
      → OneSided side endpoint waiting
      → OneSided side endpoint (set_waiting (key t e) queue waiting)
  unfolding text_eq
  OneSided-add local e queue waiting empty one e' = elim (Bool-cases (text_eq e' e)) [
    | inl is ↦ inr (ap (λ x. waiting (key remote x)) (text_eq_sound e' e is) ∙ empty)
    | inr other_one ↦ rw other_one (one e')
  ]
  OneSided-add remote e queue waiting empty one e' = elim (Bool-cases (text_eq e' e)) [
    | inl is ↦ inl (ap (λ x. waiting (key local x)) (text_eq_sound e' e is) ∙ empty)
    | inr other_one ↦ rw other_one (one e')
  ]

  -- A connection that starts to wait.
  pub add-Queues :
      (t : Side) (e : Text) (c : ℕ) (paired : Paired) (waiting : Waiting)
      → paired c ≡ none
      → side c ≡ t
      → endpoint c ≡ e
      → is_in c (waiting (key t e)) ≡ false
      → Queues side endpoint paired waiting
      → Queues side endpoint paired (set_waiting (key t e) (waiting (key t e) ++ c ∷ []) waiting)
  add-Queues t e c paired waiting free own here new w = record {
    free = λ t' e' x h. elim (added t t' e e' c x waiting h) [
      | inl old ↦ w.free t' e' x old
      | inr (is, _, _) ↦ ap paired is ∙ free
    ];
    typed = λ t' e' x h. elim (added t t' e e' c x waiting h) [
      | inl old ↦ w.typed t' e' x old
      | inr (is, ts, _) ↦ ap side is ∙ own ∙ sym ts
    ];
    placed = λ t' e' x h. elim (added t t' e e' c x waiting h) [
      | inl old ↦ w.placed t' e' x old
      | inr (is, _, es) ↦ ap endpoint is ∙ here ∙ sym es
    ];
    once = λ t' e'. elim (Bool-cases (text_eq (key t' e') (key t e))) [
      | inl at ↦ rw at (distinct-append c (waiting (key t e)) (w.once t e) new)
      | inr elsewhere ↦ rw elsewhere (w.once t' e')
    ];
  }

  -- A connection that stops waiting.
  pub remove-Queues :
      (t : Side) (e : Text) (c : ℕ) (paired : Paired) (waiting : Waiting)
      → Queues side endpoint paired waiting
      → Queues side endpoint paired (set_waiting (key t e) (without c (waiting (key t e))) waiting)
  remove-Queues t e c paired waiting w = record {
    free = λ t' e' x h. w.free t' e' x (left t t' e e' c x waiting h).0;
    typed = λ t' e' x h. w.typed t' e' x (left t t' e e' c x waiting h).0;
    placed = λ t' e' x h. w.placed t' e' x (left t t' e e' c x waiting h).0;
    once = λ t' e'. elim (Bool-cases (text_eq (key t' e') (key t e))) [
      | inl at ↦ rw at (distinct-without c (waiting (key t e)) (w.once t e))
      | inr elsewhere ↦ rw elsewhere (w.once t' e')
    ];
  }
