-- ===== src/Url/Locator/Current.antt =====
-- The locator of an application of the current service.
use orb_private.Prelude.{
  ℕ, suc, ◌+◌, ◌%◌, ◌^◌, ◌≡◌, refl, ap, ◌∙◌, ◌⊎◌, inl, inr, Option, none, some, [], ◌∷◌, ◌++◌, Text,
  codes, find_char, find, starts_with, text_eq, length, take, drop, take-append_left,
  drop-append_left, arith, append-nil,
}
use orb_private.Ait.{DvbTriplet}
use orb_private.Url.Locator.{
  ait_application_locator, params_start, take_to, drop_to, with_ids, ids_at, query_or_fragment,
  parse_ids, is_ait_filter_current_service, parse_dvb_locator, parse_create_locator_info,
}
use orb_private.Url.Origin.Layout.{Without}

find_char-Without : (c : ℕ) (s t : Text) → Without c s → find_char c (s ++ c ∷ t) ≡ some (length s)
unfolding find_char
find_char-Without c [] t w = ground arith
find_char-Without c (d ∷ s) t w = rw (w.0, find_char) (rw (find_char-Without c s t w.1) refl)

find_char-none : (c : ℕ) (s : Text) → Without c s → find_char c s ≡ none
unfolding find_char
find_char-none c [] w = refl
find_char-none c (d ∷ s) w = rw (w.0, find_char) (rw (find_char-none c s w.1) refl)

-- What may follow the ids: nothing, a query, or a fragment without a question mark.
abbrev pub IsParams : Text → Type 0
IsParams [] = Unit
IsParams (c ∷ s) = (c ≡ b'?') ⊎ ((c ≡ b'#') × Without b'?' s)

Without-append : (c : ℕ) (s t : Text) → Without c s → Without c t → Without c (s ++ t)
Without-append c [] t v w = w
Without-append c (d ∷ s) t v w = (v.0, Without-append c s t v.1 w)

-- Ids without these two marks are split from what follows them.
params_split :
    (ids params : Text)
    → Without b'?' ids
    → Without b'#' ids
    → IsParams params
    → (take_to (params_start (ids ++ params)) (ids ++ params) ≡ ids)
      × (drop_to (params_start (ids ++ params)) (ids ++ params) ≡ params)
params_split ids [] q h p =
    let start : params_start (ids ++ []) ≡ none =
      ap (λ at. query_or_fragment at (ids ++ []))
        (ap (find_char b'?') (append-nil ids) ∙ find_char-none b'?' ids q)
      ∙ ap (find_char b'#') (append-nil ids)
      ∙ find_char-none b'#' ids h in
    rw start (append-nil ids, refl)
params_split ids (c ∷ s) q h (inl is) =
    let found : find_char b'?' (ids ++ c ∷ s) ≡ some (length ids) =
      rw is (find_char-Without b'?' ids s q) in
    let start : params_start (ids ++ c ∷ s) ≡ some (length ids) =
      ap (λ at. query_or_fragment at (ids ++ c ∷ s)) found in
    rw start (take-append_left ids (c ∷ s), drop-append_left ids (c ∷ s))
params_split ids (c ∷ s) q h (inr (is, none_behind)) =
    let no_query : find_char b'?' (ids ++ c ∷ s) ≡ none =
      find_char-none b'?' (ids ++ c ∷ s)
        (Without-append b'?' ids (c ∷ s) q (rw is refl, none_behind)) in
    let found : find_char b'#' (ids ++ c ∷ s) ≡ some (length ids) =
      rw is (find_char-Without b'#' ids s h) in
    let start : params_start (ids ++ c ∷ s) ≡ some (length ids) =
      ap (λ at. query_or_fragment at (ids ++ c ∷ s)) no_query ∙ found in
    rw start (take-append_left ids (c ∷ s), drop-append_left ids (c ∷ s))

drop_past : (s t : Text) (c : ℕ) → drop (length s + 1) (s ++ c ∷ t) ≡ t
drop_past [] t c = refl
drop_past (d ∷ s) t c =
    let shift : length (d ∷ s) + 1 ≡ suc (length s + 1) = omega arith in rw shift (drop_past s t c)

module _ (stoul : Text → Option ℕ) where
  parse_ids-read :
      (org app params : Text) {o a : ℕ}
      → stoul org ≡ some o
      → stoul app ≡ some a
      → Without b'.' org
      → parse_ids stoul (org ++ b'.' ∷ app) params ≡ record {
        type = ait_application_locator;
        org_id = o % 2 ^ 32;
        app_id = a % 2 ^ 16;
        parameters = params;
      }
  parse_ids-read org app params {o} {a} eo ea dot =
      let first : stoul (take (length org) (org ++ b'.' ∷ app)) ≡ some o =
        ap stoul (take-append_left org (b'.' ∷ app)) ∙ eo in
      let second : stoul (drop (length org + 1) (org ++ b'.' ∷ app)) ≡ some a =
        ap stoul (drop_past org app b'.') ∙ ea in
      ap (λ at. ids_at stoul at (org ++ b'.' ∷ app) params) (find_char-Without b'.' org app dot)
      ∙ ap (λ p. with_ids p (stoul (drop (length org + 1) (org ++ b'.' ∷ app))) params) first
      ∙ ap (λ p. with_ids (some o) p params) second

  -- The application locator of the current service, dvb://current.ait/ with two hexadecimal ids that
  -- std::stoul reads, and parameters behind them, gives these ids, to 32 and 16 bits, and these
  -- parameters, whatever the current service is.
  pub parse_create_locator_info-current :
      (org app params : Text) (current_service : DvbTriplet) {o a : ℕ}
      → stoul org ≡ some o
      → stoul app ≡ some a
      → Without b'.' org
      → Without b'?' (org ++ b'.' ∷ app)
      → Without b'#' (org ++ b'.' ∷ app)
      → IsParams params
      → parse_create_locator_info stoul
          (codes "dvb://current.ait/" ++ ((org ++ b'.' ∷ app) ++ params))
          current_service
        ≡ record {
          type = ait_application_locator;
          org_id = o % 2 ^ 32;
          app_id = a % 2 ^ 16;
          parameters = params;
        }
  unfolding parse_create_locator_info parse_dvb_locator is_ait_filter_current_service starts_with
      find text_eq
  parse_create_locator_info-current org app params cs eo ea dot q h p =
      let (ids, behind) = params_split (org ++ b'.' ∷ app) params q h p in
      rw (ids, behind) (parse_ids-read org app params eo ea dot)
