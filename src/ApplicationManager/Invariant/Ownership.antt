-- ===== src/ApplicationManager/Invariant/Ownership.antt =====
-- How the map of applications and its invariant change.
use orb_private.Prelude.{
  ℕ, ◌+◌, ◌≤◌, ◌≡◌, ◌≢◌, refl, sym, ap, subst, ◌∙◌, inl, inr, Bool, true, false, Option, none, some,
  [], ◌∷◌, ◌==◌, ==_iff, ==_refl, if◌then◌else◌, Bool-cases, arith,
}
use orb_private.ApplicationManager.{App, Apps, base, is_op_app, lookup, erase, insert}
use orb_private.ApplicationManager.Invariant.{Entry, IsSlot, Owned}

pub lookup-erase :
    (j k : ℕ) (apps : Apps) → lookup j (erase k apps) ≡ (if k == j then none else lookup j apps)
unfolding lookup erase
lookup-erase j k [] = ground arith
lookup-erase j k ((i, a) ∷ apps) = ground (arith, lookup-erase j k apps)

pub lookup-insert :
    (j k : ℕ) (a : App) (apps : Apps)
    → lookup j (insert k a apps) ≡ (if k == j then some a else lookup j apps)
unfolding lookup
lookup-insert j k a apps = ground (arith, lookup-erase j k apps)

pub same_id : {k j : ℕ} → (k == j) ≡ true → k ≡ j
same_id {k} {j} h = (==_iff k j).0 h

some_app : {a b : App} → some a ≡ some b → a ≡ b
some_app h = cc

IsSlot-put :
    (apps : Apps) (class : Bool) (s k : ℕ) (a b : App)
    → lookup k apps ≡ some a
    → is_op_app b ≡ is_op_app a
    → IsSlot apps class s
    → IsSlot (insert k b apps) class s
IsSlot-put apps class s k a b e same (inl z) = inl z
IsSlot-put apps class s k a b e same (inr (x, found, is)) = elim (Bool-cases (k == s)) [
  | inl here ↦
      let x_is_a : x ≡ a =
        some_app (sym found ∙ ap (λ i. lookup i apps) (sym (same_id here)) ∙ e) in
      inr (b, lookup-insert s k b apps ∙ rw here refl, same ∙ ap is_op_app (sym x_is_a) ∙ is)
  | inr other ↦ inr (x, lookup-insert s k b apps ∙ rw other found, is)
]

Entry-put :
    (hbbtv op last k : ℕ) (a b : App)
    → (base b).id ≡ (base a).id
    → is_op_app b ≡ is_op_app a
    → Entry hbbtv op last k (some a)
    → Entry hbbtv op last k (some b)
Entry-put hbbtv op last k a b id same (own, pos, given, in_slot) =
    (id ∙ own, pos, given, ap (λ c. if c then op else hbbtv) same ∙ in_slot)

-- An application is changed without its id or its class.
pub Owned-put :
    (apps : Apps) (hbbtv op last k : ℕ) (a b : App)
    → Owned apps hbbtv op last
    → lookup k apps ≡ some a
    → (base b).id ≡ (base a).id
    → is_op_app b ≡ is_op_app a
    → Owned (insert k b apps) hbbtv op last
Owned-put apps hbbtv op last k a b v e id same = record {
  entries = λ j.
      subst (Entry hbbtv op last j) (sym (lookup-insert j k b apps)) (elim (Bool-cases (k == j)) [
        | inl here ↦ rw here (
            subst (λ i. Entry hbbtv op last i (some b)) (same_id here)
              (Entry-put hbbtv op last k a b id same
                (subst (Entry hbbtv op last k) e (v.entries k))))
        | inr other ↦ rw other (v.entries j)
      ]);
  hbbtv_slot = IsSlot-put apps false hbbtv k a b e same v.hbbtv_slot;
  op_slot = IsSlot-put apps true op k a b e same v.op_slot;
}

-- The map without the application in a slot, which is left empty.
abbrev pub Vacated : Bool → Apps → ℕ → ℕ → ℕ → Type 0
Vacated true apps hbbtv op last = Owned (erase op apps) hbbtv 0 last
Vacated false apps hbbtv op last = Owned (erase hbbtv apps) 0 op last

IsSlot-erase :
    (apps : Apps) (class : Bool) (s k : ℕ)
    → (k == s) ≡ false
    → IsSlot apps class s
    → IsSlot (erase k apps) class s
IsSlot-erase apps class s k ne (inl z) = inl z
IsSlot-erase apps class s k ne (inr (x, found, is)) =
    inr (x, lookup-erase s k apps ∙ rw ne found, is)

-- Erasing what is in one slot leaves the other slot well formed.
IsSlot-erase_other :
    (apps : Apps) (c d : Bool) (s k : ℕ)
    → c ≢ d
    → IsSlot apps c s
    → IsSlot apps d k
    → IsSlot (erase k apps) c s
IsSlot-erase_other apps c d s k ne (inl z) other = inl z
IsSlot-erase_other apps c d s k ne (inr (x, found, is)) other = elim (Bool-cases (k == s)) [
  | inr far ↦ inr (x, lookup-erase s k apps ∙ rw far found, is)
  | inl near ↦ elim other [
    | inl zero_id ↦ inl (sym (same_id near) ∙ zero_id)
    | inr (y, found', is') ↦
        let y_is_x : y ≡ x =
          some_app (sym found' ∙ ap (λ i. lookup i apps) (same_id near) ∙ found) in
        absurd (ne (sym is ∙ ap is_op_app (sym y_is_x) ∙ is'))
  ]
]

not_same : (a b : ℕ) → (a == b) ≡ false → a ≢ b
not_same a b h e = ground arith

-- The entries once a slot has been emptied, whose id `ne` tells apart.
Entry-vacate_op :
    (hbbtv op last j : ℕ) (o : Option App)
    → op ≢ j
    → Entry hbbtv op last j o
    → Entry hbbtv 0 last j o
Entry-vacate_op hbbtv op last j none ne e = tt
Entry-vacate_op hbbtv op last j (some a) ne (own, pos, given, in_slot) = (
  own,
  pos,
  given,
  elim (Bool-cases (is_op_app a)) [
    | inl is ↦ absurd (ne (rw is at in_slot))
    | inr is ↦ rw is (rw is at in_slot)
  ],
)

Entry-vacate_hbbtv :
    (hbbtv op last j : ℕ) (o : Option App)
    → hbbtv ≢ j
    → Entry hbbtv op last j o
    → Entry 0 op last j o
Entry-vacate_hbbtv hbbtv op last j none ne e = tt
Entry-vacate_hbbtv hbbtv op last j (some a) ne (own, pos, given, in_slot) = (
  own,
  pos,
  given,
  elim (Bool-cases (is_op_app a)) [
    | inl is ↦ rw is (rw is at in_slot)
    | inr is ↦ absurd (ne (rw is at in_slot))
  ],
)

-- The entries of a map without one id, given those at the other ids.
Entry-erase :
    (apps : Apps) (hbbtv op last k j : ℕ)
    → (k ≢ j → Entry hbbtv op last j (lookup j apps))
    → Entry hbbtv op last j (lookup j (erase k apps))
Entry-erase apps hbbtv op last k j others =
    subst (Entry hbbtv op last j) (sym (lookup-erase j k apps)) (elim (Bool-cases (k == j)) [
      | inl here ↦ rw here tt
      | inr far ↦ rw far (others (not_same k j far))
    ])

pub Owned-vacate :
    (class : Bool) (apps : Apps) (hbbtv op last : ℕ)
    → Owned apps hbbtv op last
    → Vacated class apps hbbtv op last
Owned-vacate true apps hbbtv op last v = record {
  entries = λ j.
      Entry-erase apps hbbtv 0 last op j
        (λ far. Entry-vacate_op hbbtv op last j (lookup j apps) far (v.entries j));
  hbbtv_slot = IsSlot-erase_other apps false true hbbtv op (λ e. cc e) v.hbbtv_slot v.op_slot;
  op_slot = inl refl;
}
Owned-vacate false apps hbbtv op last v = record {
  entries = λ j.
      Entry-erase apps 0 op last hbbtv j
        (λ far. Entry-vacate_hbbtv hbbtv op last j (lookup j apps) far (v.entries j));
  hbbtv_slot = inl refl;
  op_slot = IsSlot-erase_other apps true false op hbbtv (λ e. cc e) v.op_slot v.hbbtv_slot;
}

Entry-given :
    (hbbtv op last k : ℕ) (a : App) (o : Option App)
    → o ≡ some a
    → Entry hbbtv op last k o
    → k ≤ last
Entry-given hbbtv op last k a o e h = (subst (Entry hbbtv op last k) e h).2

-- A slot of the map stays well formed when an application gets a new id.
IsSlot-insert_new :
    (apps : Apps) (hbbtv op last s : ℕ) (c : Bool) (b : App)
    → ((k : ℕ) → Entry hbbtv op last k (lookup k apps))
    → IsSlot apps c s
    → IsSlot (insert (last + 1) b apps) c s
IsSlot-insert_new apps hbbtv op last s c b entries (inl z) = inl z
IsSlot-insert_new apps hbbtv op last s c b entries (inr (x, found, is)) =
    let old : s ≤ last = Entry-given hbbtv op last s x (lookup s apps) found (entries s) in
    let far : (last + 1 == s) ≡ false = ground arith in
    inr (x, lookup-insert s (last + 1) b apps ∙ rw far found, is)

pub lookup-insert_self : (k : ℕ) (b : App) (apps : Apps) → lookup k (insert k b apps) ≡ some b
lookup-insert_self k b apps = lookup-insert k k b apps ∙ rw (==_refl k) refl

Entry-insert_new :
    (apps : Apps) (hbbtv op last j : ℕ) (b : App)
    → Entry hbbtv op (last + 1) (last + 1) (some b)
    → Entry hbbtv op (last + 1) j (lookup j apps)
    → Entry hbbtv op (last + 1) j (lookup j (insert (last + 1) b apps))
Entry-insert_new apps hbbtv op last j b new old =
    subst (Entry hbbtv op (last + 1) j) (sym (lookup-insert j (last + 1) b apps))
      (elim (Bool-cases (last + 1 == j)) [
        | inl here ↦ rw here (subst (λ i. Entry hbbtv op (last + 1) i (some b)) (same_id here) new)
        | inr far ↦ rw far old
      ])

-- An entry of a map with an empty slot, once the slot has an id.
Entry-fill_op :
    (hbbtv last j : ℕ) (o : Option App)
    → Entry hbbtv 0 last j o
    → Entry hbbtv (last + 1) (last + 1) j o
Entry-fill_op hbbtv last j none e = tt
Entry-fill_op hbbtv last j (some a) (own, pos, given, in_slot) = (
  own,
  pos,
  omega arith,
  elim (Bool-cases (is_op_app a)) [
    | inl is ↦ absurd (pos (sym (rw is at in_slot)))
    | inr is ↦ rw is (rw is at in_slot)
  ],
)

Entry-fill_hbbtv :
    (op last j : ℕ) (o : Option App) → Entry 0 op last j o → Entry (last + 1) op (last + 1) j o
Entry-fill_hbbtv op last j none e = tt
Entry-fill_hbbtv op last j (some a) (own, pos, given, in_slot) = (
  own,
  pos,
  omega arith,
  elim (Bool-cases (is_op_app a)) [
    | inl is ↦ rw is (rw is at in_slot)
    | inr is ↦ absurd (pos (sym (rw is at in_slot)))
  ],
)

-- An application with the next id is put into the empty slot of its class.
pub Owned-start_op :
    (apps : Apps) (hbbtv last : ℕ) (b : App)
    → Owned apps hbbtv 0 last
    → is_op_app b ≡ true
    → (base b).id ≡ last + 1
    → Owned (insert (last + 1) b apps) hbbtv (last + 1) (last + 1)
Owned-start_op apps hbbtv last b v is id = record {
  entries = λ j.
      Entry-insert_new apps hbbtv (last + 1) last j b (id, omega arith, omega arith, rw is refl)
        (Entry-fill_op hbbtv last j (lookup j apps) (v.entries j));
  hbbtv_slot = IsSlot-insert_new apps hbbtv 0 last hbbtv false b v.entries v.hbbtv_slot;
  op_slot = inr (b, lookup-insert_self (last + 1) b apps, is);
}

pub Owned-start_hbbtv :
    (apps : Apps) (op last : ℕ) (b : App)
    → Owned apps 0 op last
    → is_op_app b ≡ false
    → (base b).id ≡ last + 1
    → Owned (insert (last + 1) b apps) (last + 1) op (last + 1)
Owned-start_hbbtv apps op last b v is id = record {
  entries = λ j.
      Entry-insert_new apps (last + 1) op last j b (id, omega arith, omega arith, rw is refl)
        (Entry-fill_hbbtv op last j (lookup j apps) (v.entries j));
  hbbtv_slot = inr (b, lookup-insert_self (last + 1) b apps, is);
  op_slot = IsSlot-insert_new apps 0 op last op true b v.entries v.op_slot;
}

Entry-later :
    (hbbtv op last j : ℕ) (o : Option App) → Entry hbbtv op last j o → Entry hbbtv op (last + 1) j o
Entry-later hbbtv op last j none e = tt
Entry-later hbbtv op last j (some a) (own, pos, given, in_slot) = (own, pos, omega arith, in_slot)

-- An id that is given out and not used.
pub Owned-skip :
    (apps : Apps) (hbbtv op last : ℕ) → Owned apps hbbtv op last → Owned apps hbbtv op (last + 1)
Owned-skip apps hbbtv op last v = record {
  entries = λ j. Entry-later hbbtv op last j (lookup j apps) (v.entries j);
  hbbtv_slot = v.hbbtv_slot;
  op_slot = v.op_slot;
}

-- The id in the slot of the HbbTV application has been given out.
pub slot_given : (apps : Apps) (hbbtv op last : ℕ) → Owned apps hbbtv op last → hbbtv ≤ last
slot_given apps hbbtv op last v = elim (v.hbbtv_slot) [
  | inl z ↦ omega (arith, z)
  | inr (x, found, is) ↦
      Entry-given hbbtv op last hbbtv x (lookup hbbtv apps) found (v.entries hbbtv)
]
