-- ===== src/Ait/Select/Restriction.antt =====
-- The parental restriction of an application.
use orb_private.Prelude.{
  ◌≡◌, refl, Bool, true, false, not, ◌&&◌, List, [], ◌∷◌, any, if◌then◌else◌, arith,
}
use orb_private.Ait.{ParentalRating}
use orb_private.Ait.Select.{ParentalControl, allows, restricted_loop, is_age_restricted}

restricted_loop-any :
    (control : ParentalControl) (r : Bool) (prs : List ParentalRating)
    → restricted_loop control r prs ≡ (r && not (any (allows control) prs))
unfolding restricted_loop
restricted_loop-any control true [] = refl
restricted_loop-any control false [] = refl
restricted_loop-any control r (pr ∷ prs) =
    ground (arith, restricted_loop-any control (if allows control pr then false else r) prs)

abbrev pub is_rated : List ParentalRating → Bool
is_rated [] = false
is_rated (pr ∷ prs) = true

-- An application is restricted exactly if it is rated and none of its ratings allows it.
pub is_age_restricted-any :
    (prs : List ParentalRating) (control : ParentalControl)
    → is_age_restricted prs control ≡ (is_rated prs && not (any (allows control) prs))
unfolding is_age_restricted
is_age_restricted-any [] control = refl
is_age_restricted-any (pr ∷ prs) control = restricted_loop-any control true (pr ∷ prs)
