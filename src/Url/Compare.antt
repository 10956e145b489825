-- ===== src/Url/Compare.antt =====
-- What the comparisons of URLs decide.
use orb_private.Prelude.{
  ℕ, zero, suc, ◌≡◌, ◌↔◌, refl, sym, ap, ◌∙◌, true, false, [], ◌∷◌, ◌++◌, Text, is_empty,
  text_eq_refl, text_eq_sound, length, take, drop, take-append_left, arith,
}
use orb_private.Url.{trim, compare_urls, is_part_of}

abbrev pub NonEmpty : Text → Type 0
NonEmpty s = is_empty s ≡ false

-- Two URLs compare equal exactly if they are one text, and not an empty one, after the slashes and
-- the spaces at their ends are taken off.
pub compare_urls_iff :
    (url1 url2 : Text)
    → (compare_urls url1 url2 ≡ true) ↔ ((trim url1 ≡ trim url2) × NonEmpty (trim url1))
unfolding compare_urls
compare_urls_iff url1 url2 = (
  λ h. (text_eq_sound (trim url1) (trim url2) (ground arith), ground arith),
  λ (same, full). rw (← same) (rw full (ground (arith, text_eq_refl (trim url1)))),
)

take-drop : (n : ℕ) (s : Text) → take n s ++ drop n s ≡ s
take-drop zero s = refl
take-drop (suc n) [] = refl
take-drop (suc n) (c ∷ s) = ap (◌∷◌ c) (take-drop n s)

-- A document is part of a base URL exactly if, with their ends taken off, it starts with it and
-- neither is empty.
pub is_part_of_iff :
    (document_url app_base_url : Text)
    → (is_part_of document_url app_base_url ≡ true) ↔ (
        (rest : Text) × (trim document_url ≡ trim app_base_url ++ rest)
        × NonEmpty (trim document_url)
        × NonEmpty (trim app_base_url))
unfolding is_part_of
is_part_of_iff d b = (
  λ h. (
    drop (length (trim b)) (trim d),
    sym (take-drop (length (trim b)) (trim d))
        ∙ ap (λ s. s ++ drop (length (trim b)) (trim d))
            (text_eq_sound (take (length (trim b)) (trim d)) (trim b) (ground arith)),
    ground arith,
    ground arith,
  ),
  λ (rest, e, fd, fb).
      rw (fd, fb, is_part_of) (rw e (rw (take-append_left (trim b) rest) (text_eq_refl (trim b)))),
)

-- Taking the end off again changes nothing.
trim_idem : (s : Text) → trim (trim s) ≡ trim s
unfolding trim
trim_idem [] = refl
trim_idem (c ∷ s) = ground (arith, trim_idem s)
