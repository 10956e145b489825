-- ===== src/HbbtvApp/KeySet.antt =====
-- Which keys an application gets.
use orb_private.Prelude.{
  ℕ, ◌+◌, ◌<◌, ◌≡◌, refl, ap, bit_and, Bool, true, false, not, ◌&&◌, ◌||◌, List, text_eq, any, ltb,
  ◌==◌, ==_iff, if◌then◌else◌, all_below, all_below_sound,
}
use orb_private.HbbtvApp.{HbbtvApp, get_scheme, linked_app_scheme_1_2, linked_app_scheme_2}
use orb_private.HbbtvApp.Keys.{
  key_set_other, key_set_mask_for_key_code, has_key_set, restrict_key_sets, set_key_set_mask,
  in_key_set,
}

-- The key sets that do not depend on the activation.
abbrev pub free_key_sets : ℕ
free_key_sets = 0x2DF

abbrev permitted : Bool → Bool → Bool → ℕ
permitted old linked exception =
    free_key_sets
    + (if not old || exception then 0x20 else 0)
    + (if not old || linked then 0x500 else 0)

restrict_key_sets_table :
    (old linked exception : Bool)
    → all_below 0x800 (λ m.
      restrict_key_sets old linked exception m == bit_and m (permitted old linked exception))
      ≡ true
unfolding all_below restrict_key_sets
restrict_key_sets_table false false false = refl
restrict_key_sets_table false false true = refl
restrict_key_sets_table false true false = refl
restrict_key_sets_table false true true = refl
restrict_key_sets_table true false false = refl
restrict_key_sets_table true false true = refl
restrict_key_sets_table true true false = refl
restrict_key_sets_table true true true = refl

full_mask_table : all_below 0x800 (λ m. m == bit_and m 0x7FF) ≡ true
unfolding all_below
full_mask_table = refl

-- The sets an application may have: those that need an activation only if it is activated, is of
-- scheme 2, is of minor version 0 or 1, or is of scheme 1.2 (VCR then for minor version 7 only).
abbrev pub permitted_key_sets : HbbtvApp → ℕ
permitted_key_sets a =
    if a.is_activated || text_eq (get_scheme a) linked_app_scheme_2
    then 0x7FF
    else permitted (ltb 1 a.version_minor) (text_eq (get_scheme a) linked_app_scheme_1_2)
        (text_eq (get_scheme a) linked_app_scheme_1_2 && a.version_minor == 7)

restrict_key_sets-permitted :
    (old linked exception : Bool) (mask : ℕ)
    → mask < 0x800
    → restrict_key_sets old linked exception mask ≡ bit_and mask (permitted old linked exception)
restrict_key_sets-permitted old linked exception mask h = (==_iff _ _).0 (
    all_below_sound 0x800
      (λ m. restrict_key_sets old linked exception m == bit_and m (permitted old linked exception))
      mask (restrict_key_sets_table old linked exception) h)

full_mask : (mask : ℕ) → mask < 0x800 → mask ≡ bit_and mask 0x7FF
full_mask mask h =
    (==_iff _ _).0 (all_below_sound 0x800 (λ m. m == bit_and m 0x7FF) mask full_mask_table h)

permitted-cases :
    (activated scheme_2 old linked exception : Bool) (mask : ℕ)
    → mask < 0x800
    → (if not activated && not scheme_2 then restrict_key_sets old linked exception mask else mask)
      ≡ bit_and mask (if activated || scheme_2 then 0x7FF else permitted old linked exception)
permitted-cases true scheme_2 old linked exception mask h = full_mask mask h
permitted-cases false true old linked exception mask h = full_mask mask h
permitted-cases false false old linked exception mask h =
    restrict_key_sets-permitted old linked exception mask h

-- Of a mask of the eleven key sets, an application is given exactly the sets it may have.
pub set_key_set_mask-permitted :
    (a : HbbtvApp) (mask : ℕ) (other_keys : List ℕ)
    → mask < 0x800
    → ((set_key_set_mask mask other_keys a).1 ≡ bit_and mask (permitted_key_sets a))
      × ((set_key_set_mask mask other_keys a).0.key_set_mask ≡ bit_and mask (permitted_key_sets a))
unfolding set_key_set_mask
set_key_set_mask-permitted a mask other_keys h =
    let given =
      permitted-cases a.is_activated (text_eq (get_scheme a) linked_app_scheme_2)
        (ltb 1 a.version_minor) (text_eq (get_scheme a) linked_app_scheme_1_2)
        (text_eq (get_scheme a) linked_app_scheme_1_2 && a.version_minor == 7) mask h in
    (given, given)

||-false : (b : Bool) → b ≡ (b || false)
||-false true = refl
||-false false = refl

||-true : (b : Bool) → true ≡ (b || true)
||-true true = refl
||-true false = refl

-- The branches of InKeySet, by the outcomes of its tests.
in_key_set-cases :
    (a : HbbtvApp) (in_mask other listed : Bool)
    → let out : HbbtvApp × Bool =
        if in_mask
        then (if other && not listed then (a, false) else (record a { is_activated = true }, true))
        else (a, false) in
      (out.1 ≡ (in_mask && (not other || listed)))
      × (out.0 ≡ record a { is_activated = a.is_activated || out.1 })
in_key_set-cases a false other listed =
    (refl, ap (λ b. record a { is_activated = b }) (||-false a.is_activated))
in_key_set-cases a true true false =
    (refl, ap (λ b. record a { is_activated = b }) (||-false a.is_activated))
in_key_set-cases a true true true =
    (refl, ap (λ b. record a { is_activated = b }) (||-true a.is_activated))
in_key_set-cases a true false listed =
    (refl, ap (λ b. record a { is_activated = b }) (||-true a.is_activated))

-- A key is accepted exactly if its set is in the mask and, where the mask has the set of the other
-- keys, the key is one of those. An accepted key activates the application and changes nothing
-- else, a key that is not accepted changes nothing.
pub in_key_set_iff :
    (code : ℕ) (a : HbbtvApp)
    → ((in_key_set code a).1 ≡ (
        has_key_set a.key_set_mask (key_set_mask_for_key_code code)
        && (not (has_key_set a.key_set_mask key_set_other) || any (λ k. k == code) a.other_keys)))
      × ((in_key_set code a).0
          ≡ record a { is_activated = a.is_activated || (in_key_set code a).1 })
unfolding in_key_set
in_key_set_iff code a =
    in_key_set-cases a (has_key_set a.key_set_mask (key_set_mask_for_key_code code))
      (has_key_set a.key_set_mask key_set_other) (any (λ k. k == code) a.other_keys)
