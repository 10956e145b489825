-- ===== src/Ait/Descriptors/Ratings.antt =====
-- The parental rating descriptor: what the loop keeps of it.
use orb_private.Prelude.{
  ℕ, zero, suc, ◌+◌, ◌-◌, ◌*◌, ◌%◌, ◌<◌, ◌≡◌, refl, ◌∙◌, some, List, [], ◌∷◌, ◌++◌, append_assoc,
  true, Pointer, codes, ltb, length, length-append, text_at, arith,
}
use orb_private.Ait.{AitAppDesc, ParentalRating}
use orb_private.Ait.Descriptors.{read_ratings, parse_parental_rating_desc}

-- A rating as a section carries it: a three-letter country code and the age, less three.
pub record SignalledRating : Type 0 where
  pub c0 : ℕ
  pub c1 : ℕ
  pub c2 : ℕ
  pub age : ℕ

abbrev pub encode_ratings : List SignalledRating → List ℕ
encode_ratings [] = []
encode_ratings (r ∷ rs) = r.c0 ∷ r.c1 ∷ r.c2 ∷ r.age ∷ encode_ratings rs

abbrev pub rating : SignalledRating → ParentalRating
rating r = record {
  scheme = codes "dvb-si";
  region = r.c0 ∷ r.c1 ∷ r.c2 ∷ [];
  value = (r.age + 3) % 256;
}

-- The ratings but the last, and the one there is if there is one only.
abbrev pub but_last : SignalledRating → List SignalledRating → List ParentalRating
but_last r [] = rating r ∷ []
but_last r (s ∷ []) = rating r ∷ []
but_last r (s ∷ t ∷ rs) = rating r ∷ but_last s (t ∷ rs)

text_at_three : (a b c : ℕ) (p : Pointer) → text_at 3 (a ∷ b ∷ c ∷ p) ≡ some (a ∷ b ∷ c ∷ [])
unfolding text_at
text_at_three a b c p = ground arith

read_ratings-encode :
    (fuel : ℕ) (r : SignalledRating) (rs : List SignalledRating) (read : List ParentalRating)
    (rest : Pointer)
    → 4 * length rs + 4 < 256
    → length rs < fuel
    → read_ratings fuel (4 * length rs + 4) read (encode_ratings (r ∷ rs) ++ rest)
      ≡ some (read ++ but_last r rs)
unfolding read_ratings
read_ratings-encode zero r rs read rest short enough = elim enough [ ]
read_ratings-encode (suc fuel) r [] read rest short enough =
    rw (text_at_three, read_ratings) (ground arith)
read_ratings-encode (suc fuel) r (s ∷ []) read rest short enough =
    rw (text_at_three, read_ratings) (ground arith)
read_ratings-encode (suc fuel) r (s ∷ t ∷ rs) read rest short enough =
    let wrap : (4 * length (s ∷ t ∷ rs) + 4 + 256 - 4) % 256 ≡ 4 * length (t ∷ rs) + 4 =
      omega arith in
    let on : ltb 4 (4 * length (t ∷ rs) + 4) ≡ true = ground arith in
    rw (text_at_three, read_ratings)
      (rw (wrap, on)
        (read_ratings-encode fuel s (t ∷ rs) (read ++ rating r ∷ []) rest (omega arith)
            (omega arith)
          ∙ rw append_assoc))

length-encode_ratings : (rs : List SignalledRating) → length (encode_ratings rs) ≡ 4 * length rs
length-encode_ratings [] = refl
length-encode_ratings (r ∷ rs) = omega (arith, length-encode_ratings rs)

-- For an application without ratings: of a descriptor that signals two ratings or more, in less
-- than 256 bytes, the last one is dropped; a single rating is kept.
pub parse_parental_rating_desc-encode :
    (r : SignalledRating) (rs : List SignalledRating) (app : AitAppDesc) (rest : Pointer)
    → 4 * length rs + 4 < 256
    → app.parental_ratings ≡ []
    → parse_parental_rating_desc ((4 * length rs + 4) ∷ (encode_ratings (r ∷ rs) ++ rest)) app
      ≡ some (record app { parental_ratings = but_last r rs })
unfolding parse_parental_rating_desc
parse_parental_rating_desc-encode r rs app rest short fresh =
    rw (fresh, parse_parental_rating_desc)
      (rw (
        read_ratings-encode (length ((4 * length rs + 4) ∷ (encode_ratings (r ∷ rs) ++ rest))) r rs
          [] rest short
          (omega (arith, length-append (encode_ratings rs) rest, length-encode_ratings rs))))
