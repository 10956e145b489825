-- ===== src/HbbtvApp/Keys.antt =====
-- components/application_manager/hbbtv_app.cpp: the key sets and the key codes.
use orb_private.Prelude.{
  ℕ, ◌-◌, bit_and, Bool, true, false, not, ◌&&◌, ◌||◌, List, [], ◌∷◌, text_eq, any, ltb, leb, ◌==◌,
  if◌then◌else◌,
}
use orb_private.HbbtvApp.{HbbtvApp, get_scheme, linked_app_scheme_1_2, linked_app_scheme_2}

abbrev pub key_set_red : ℕ
key_set_red = 0x1

abbrev pub key_set_green : ℕ
key_set_green = 0x2

abbrev pub key_set_yellow : ℕ
key_set_yellow = 0x4

abbrev pub key_set_blue : ℕ
key_set_blue = 0x8

abbrev pub key_set_navigation : ℕ
key_set_navigation = 0x10

abbrev pub key_set_vcr : ℕ
key_set_vcr = 0x20

abbrev pub key_set_scroll : ℕ
key_set_scroll = 0x40

abbrev pub key_set_info : ℕ
key_set_info = 0x80

abbrev pub key_set_numeric : ℕ
key_set_numeric = 0x100

abbrev pub key_set_alpha : ℕ
key_set_alpha = 0x200

abbrev pub key_set_other : ℕ
key_set_other = 0x400

-- up, down, left, right, enter, back
unfoldable pub is_key_navigation : ℕ → Bool
is_key_navigation code = any (λ k. code == k) (38 ∷ 40 ∷ 37 ∷ 39 ∷ 13 ∷ 461 ∷ [])

unfoldable pub is_key_numeric : ℕ → Bool
is_key_numeric code = leb 48 code && leb code 57

unfoldable pub is_key_alpha : ℕ → Bool
is_key_alpha code = leb 65 code && leb code 90

-- play, stop, pause, fast forward, rewind, next, previous, play/pause
unfoldable pub is_key_vcr : ℕ → Bool
is_key_vcr code = any (λ k. code == k) (415 ∷ 413 ∷ 19 ∷ 417 ∷ 412 ∷ 425 ∷ 424 ∷ 402 ∷ [])

-- page up, page down
unfoldable pub is_key_scroll : ℕ → Bool
is_key_scroll code = code == 33 || code == 34

-- GetKeySetMaskForKeyCode; 0 for a key of no set.
unfoldable pub key_set_mask_for_key_code : ℕ → ℕ
unfolding is_key_navigation is_key_numeric is_key_alpha is_key_vcr is_key_scroll
key_set_mask_for_key_code code =
    if is_key_navigation code
    then key_set_navigation
    else if is_key_numeric code
    then key_set_numeric
    else if is_key_alpha code
    then key_set_alpha
    else if is_key_vcr code
    then key_set_vcr
    else if is_key_scroll code
    then key_set_scroll
    else if code == 403
    then key_set_red
    else if code == 404
    then key_set_green
    else if code == 405
    then key_set_yellow
    else if code == 406
    then key_set_blue
    else if code == 457
    then key_set_info
    else if code == 416
    then key_set_other
    else 0

-- `mask & set != 0`, and `mask & ~set` for a uint16.
abbrev pub has_key_set : ℕ → ℕ → Bool
has_key_set mask keys = not (bit_and mask keys == 0)

abbrev pub without_key_set : ℕ → ℕ → ℕ
without_key_set mask keys = bit_and mask (0xFFFF - keys)

-- What SetKeySetMask takes from the mask of an application that is not activated.
unfoldable pub restrict_key_sets : Bool → Bool → Bool → ℕ → ℕ
restrict_key_sets is_old_version is_linked_app_scheme_1_2 is_exception mask =
    let mask =
      if has_key_set mask key_set_vcr && is_old_version && not is_exception
      then without_key_set mask key_set_vcr
      else mask in
    let mask =
      if has_key_set mask key_set_numeric && not is_linked_app_scheme_1_2 && is_old_version
      then without_key_set mask key_set_numeric
      else mask in
    if has_key_set mask key_set_other && not is_linked_app_scheme_1_2 && is_old_version
    then without_key_set mask key_set_other
    else mask

-- HbbTVApp::SetKeySetMask
unfoldable pub set_key_set_mask : ℕ → List ℕ → HbbtvApp → HbbtvApp × ℕ
set_key_set_mask key_set_mask other_keys a =
    let current_scheme = get_scheme a in
    let is_old_version = ltb 1 a.version_minor in
    let is_linked_app_scheme_1_2 = text_eq current_scheme linked_app_scheme_1_2 in
    let is_exception = is_linked_app_scheme_1_2 && a.version_minor == 7 in
    let mask =
      if not a.is_activated && not (text_eq current_scheme linked_app_scheme_2)
      then restrict_key_sets is_old_version is_linked_app_scheme_1_2 is_exception key_set_mask
      else key_set_mask in
    (
      record a {
        key_set_mask = mask;
        other_keys = if has_key_set mask key_set_other then other_keys else a.other_keys;
      },
      mask,
    )

-- HbbTVApp::InKeySet
unfoldable pub in_key_set : ℕ → HbbtvApp → HbbtvApp × Bool
unfolding key_set_mask_for_key_code
in_key_set code a =
    if has_key_set a.key_set_mask (key_set_mask_for_key_code code)
    then (if has_key_set a.key_set_mask key_set_other && not (any (λ k. k == code) a.other_keys)
        then (a, false)
        else (record a { is_activated = true }, true))
    else (a, false)
