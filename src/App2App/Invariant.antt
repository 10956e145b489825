-- ===== src/App2App/Invariant.antt =====
-- The invariant of the pairing.
pub mod Pairs
pub mod Waits
pub mod Steps
use orb_private.Prelude.{
  ℕ, ◌≡◌, ◌≢◌, ◌⊎◌, inl, inr, refl, sym, ap, subst, ◌∙◌, Bool, true, false, not, ◌&&◌, ◌||◌, Option,
  none, some, List, [], ◌∷◌, ◌++◌, Text, text_eq, text_eq_sound, text_eq_refl, ◌==◌, ==_refl,
  ==_iff, Bool-cases, Option-cases, arith, is_empty,
}
use orb_private.App2App.{
  Side, local, remote, other, key, App2App, set_paired, set_waiting, without, get_app_end_point,
}
use orb_private.App2App.Pairing.{
  Paired, Waiting, other-other, clash, opposite, some_inj, same, in_rest, in_front, distinct_rest,
  outside, only, both, is_in, distinct, is_in-append, is_in-without, distinct-append,
  distinct-without, keys,
}

abbrev pub endpoint : (ℕ → Text) → ℕ → Text
endpoint uri c = get_app_end_point (uri c)

module _ (side : ℕ → Side) (endpoint : ℕ → Text) where
  -- The partner of a paired connection has it as its partner, is of the other type, and has its endpoint.
  pub record Partners (paired : Paired) : Type 0 where
    pub symmetric : (c d : ℕ) → paired c ≡ some d → paired d ≡ some c
    pub opposite : (c d : ℕ) → paired c ≡ some d → side d ≡ other (side c)
    pub together : (c d : ℕ) → paired c ≡ some d → endpoint d ≡ endpoint c

  -- A waiting connection is not paired, and waits once, under its own type and endpoint.
  pub record Queues (paired : Paired) (waiting : Waiting) : Type 0 where
    pub free : (t : Side) (e : Text) (c : ℕ) → is_in c (waiting (key t e)) ≡ true → paired c ≡ none
    pub typed : (t : Side) (e : Text) (c : ℕ) → is_in c (waiting (key t e)) ≡ true → side c ≡ t
    pub placed : (t : Side) (e : Text) (c : ℕ) → is_in c (waiting (key t e)) ≡ true → endpoint c ≡ e
    pub once : (t : Side) (e : Text) → distinct (waiting (key t e)) ≡ true

  -- Connections of only one type wait for an endpoint.
  abbrev pub OneSided : Waiting → Type 0
  OneSided waiting = (e : Text) → (waiting (key local e) ≡ []) ⊎ (waiting (key remote e) ≡ [])

  pub record IsValid (st : App2App) : Type 0 where
    pub partners : Partners st.paired
    pub queues : Queues st.paired st.waiting
    pub one_sided : OneSided st.waiting

  -- A connection that the service does not know.
  pub record Unknown (c : ℕ) (st : App2App) : Type 0 where
    pub alone : st.paired c ≡ none
    pub no_partner : (d : ℕ) → st.paired d ≢ some c
    pub not_waiting : (t : Side) (e : Text) → is_in c (st.waiting (key t e)) ≡ false
