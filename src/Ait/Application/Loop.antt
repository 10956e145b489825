-- ===== src/Ait/Application/Loop.antt =====
-- The descriptor loop: its fuel is enough, and it is a fold of the descriptors that it is given.
use orb_private.Prelude.{
  ℕ, zero, suc, ◌+◌, ◌%◌, ◌≤◌, ◌<◌, ◌≡◌, refl, ap, ◌∙◌, inl, inr, true, Option, some, List, [], ◌∷◌,
  ◌++◌, append_assoc, Pointer, ltb, Option-cases, ◌>>=◌, length, length-append, length-drop, drop,
  drop-append_left, arith,
}
use mathlib.Core.Path.{fun_ext}
use orb_private.Ait.{AitAppDesc}
use orb_private.Ait.Application.{parse_descriptor, parse_application_loop, parse_application}

-- Any two fuels that cover the bytes that are left give one result: the loop never runs out.
pub parse_application_loop_fuel :
    (fuel other done len : ℕ) (p : Pointer) (app : AitAppDesc)
    → length p ≤ fuel
    → length p ≤ other
    → parse_application_loop fuel done len p app ≡ parse_application_loop other done len p app
unfolding parse_application_loop
parse_application_loop_fuel zero zero done len p app h k = refl
parse_application_loop_fuel zero (suc g) done len [] app h k = ground arith
parse_application_loop_fuel zero (suc g) done len (b ∷ p) app h k = elim h [ ]
parse_application_loop_fuel (suc f) zero done len [] app h k = ground arith
parse_application_loop_fuel (suc f) zero done len (b ∷ p) app h k = elim k [ ]
parse_application_loop_fuel (suc f) (suc g) done len [] app h k = refl
parse_application_loop_fuel (suc f) (suc g) done len (b ∷ []) app h k = ground arith
parse_application_loop_fuel (suc f) (suc g) done len (b ∷ size ∷ p) app h k =
    elim (Option-cases (parse_descriptor b (size ∷ p) app)) [
      | inl e ↦ ground arith
      | inr (app', e) ↦ ground (
        arith,
        length-drop (size + 2) (b ∷ size ∷ p),
        parse_application_loop_fuel f g ((done + (size + 2)) % 65536) len
            (drop (size + 2) (b ∷ size ∷ p)) app',
      )
    ]

-- A descriptor: its tag, and its payload behind a length byte.
pub record Descriptor : Type 0 where
  pub tag : ℕ
  pub payload : List ℕ

abbrev pub encode : List Descriptor → List ℕ
encode [] = []
encode (d ∷ ds) = d.tag ∷ length d.payload ∷ (d.payload ++ encode ds)

-- Each descriptor in turn, at the pointer where the loop meets it.
abbrev pub parse_all : List Descriptor → Pointer → AitAppDesc → Option AitAppDesc
parse_all [] rest app = some app
parse_all (d ∷ ds) rest app =
    parse_descriptor d.tag (length d.payload ∷ (d.payload ++ (encode ds ++ rest))) app >>= λ app'.
    parse_all ds rest app'

-- One round of the loop over a laid out descriptor, given the rounds that follow.
module _ (d : Descriptor) (ds : List Descriptor) (fuel done : ℕ) (rest : Pointer)
    (short : done + length (encode (d ∷ ds)) < 65536) where
  abbrev size : ℕ
  size = length d.payload

  sizes : length (encode (d ∷ ds)) ≡ size + 2 + length (encode ds)
  sizes = omega (arith, length-append d.payload (encode ds))

  -- The next round starts behind the payload.
  behind : drop (size + 2) (encode (d ∷ ds) ++ rest) ≡ encode ds ++ rest
  behind =
      let two : size + 2 ≡ suc (suc size) = omega arith in
      rw (two, append_assoc d.payload (encode ds) rest)
        (drop-append_left d.payload (encode ds ++ rest))

  abbrev after : ℕ → ℕ → Pointer → AitAppDesc → Option AitAppDesc
  after done' len p app = parse_application_loop fuel done' len p app

  module _
      (ih : (app : AitAppDesc)
        → after (done + (size + 2)) (done + (size + 2) + length (encode ds)) (encode ds ++ rest) app
          ≡ parse_all ds rest app) where
    next :
        (app : AitAppDesc)
        → after
            ((done + (size + 2)) % 65536)
            (done + length (encode (d ∷ ds)))
            (drop (size + 2) (encode (d ∷ ds) ++ rest))
            app
          ≡ parse_all ds rest app
    next app =
        let wrap : (done + (size + 2)) % 65536 ≡ done + (size + 2) = omega (arith, sizes) in
        let total : done + length (encode (d ∷ ds)) ≡ done + (size + 2) + length (encode ds) =
          omega (arith, sizes) in
        rw (behind, wrap, total) (ih app)

    parse_application_loop_step :
        (app : AitAppDesc)
        → parse_application_loop
            (suc fuel)
            done
            (done + length (encode (d ∷ ds)))
            (encode (d ∷ ds) ++ rest)
            app
          ≡ parse_all (d ∷ ds) rest app
    unfolding parse_application_loop
    parse_application_loop_step app =
        let test : ltb done (done + length (encode (d ∷ ds))) ≡ true = ground arith in
        let assoc : (d.payload ++ encode ds) ++ rest ≡ d.payload ++ (encode ds ++ rest) =
          append_assoc d.payload (encode ds) rest in
        rw (test, parse_application_loop) (rw (fun_ext next) (rw assoc))

-- What `encode` puts in front of `rest` takes the loop to `rest`, through the descriptors in order.
parse_application_loop-encode :
    (ds : List Descriptor) (fuel done : ℕ) (rest : Pointer) (app : AitAppDesc)
    → done + length (encode ds) < 65536
    → length (encode ds ++ rest) ≤ fuel
    → parse_application_loop fuel done (done + length (encode ds)) (encode ds ++ rest) app
      ≡ parse_all ds rest app
parse_application_loop-encode [] zero done rest app short enough =
    unfold parse_application_loop in ground arith
parse_application_loop-encode [] (suc fuel) done rest app short enough =
    unfold parse_application_loop in ground arith
parse_application_loop-encode (d ∷ ds) zero done rest app short enough = elim enough [ ]
parse_application_loop-encode (d ∷ ds) (suc fuel) done rest app short enough =
    let assoc : length ((d.payload ++ encode ds) ++ rest)
        ≡ length d.payload + length (encode ds ++ rest) =
      ap length (append_assoc d.payload (encode ds) rest)
      ∙ length-append d.payload (encode ds ++ rest) in
    parse_application_loop_step d ds fuel done rest short
      (λ app'.
        parse_application_loop-encode ds fuel (done + (length d.payload + 2)) rest app'
          (omega (arith, length-append d.payload (encode ds))) (omega (arith, assoc)))
      app

-- ParseApplication over descriptors that are laid out one behind the other, in less than 4096
-- bytes, runs each one's parser once, in order, at its length byte, on the application that the
-- parsers before it have left, and stops behind the last.
pub parse_application-encode :
    (ds : List Descriptor) (rest : Pointer) (app : AitAppDesc)
    → length (encode ds) < 4096
    → parse_application (encode ds ++ rest) (length (encode ds)) app ≡ parse_all ds rest app
unfolding parse_application
parse_application-encode ds rest app short =
    let start : length (encode ds) ≡ 0 + length (encode ds) = omega arith in
    rw start (
      parse_application_loop-encode ds (length (encode ds ++ rest)) 0 rest app (omega arith)
        (omega arith))
