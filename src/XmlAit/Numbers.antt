-- ===== src/XmlAit/Numbers.antt =====
-- Numbers in an XML AIT, written and read.
use orb_private.Prelude.{
  ℕ, zero, suc, ◌+◌, ◌-◌, ◌*◌, ◌/◌, ◌%◌, ◌^◌, ◌≤◌, ◌<◌, ◌≡◌, ◌∙◌, refl, ap, [], ◌∷◌, Text, ltb,
  ◌==◌, if◌then◌else◌, Bool-cases, inl, inr, all_below, all_below_sound, ==_iff, arith,
}
use orb_private.XmlAit.{parse_int_from, parse_int, hex_value, parse_hex_from, parse_hex}

-- The decimal digits of a number, before a text. `fuel` bounds them.
unfoldable pub decimal_from : ℕ → ℕ → Text → Text
decimal_from zero n text = text
decimal_from (suc fuel) n text =
    let text' = (b'0' + n % 10) ∷ text in
    let rest = decimal_from fuel (n / 10) text' in if ltb n 10 then text' else rest

-- Ten digits hold a uint32.
unfoldable pub decimal : ℕ → Text
decimal n = decimal_from 10 n []

parse_int_from-digit :
    (k d : ℕ) (text : Text)
    → d < 10
    → parse_int_from k ((b'0' + d) ∷ text) ≡ parse_int_from ((k * 10 + d) % 2 ^ 32) text
unfolding parse_int_from
parse_int_from-digit k d text small = ground arith

pow10 : ℕ → ℕ
pow10 zero = 1
pow10 (suc k) = 10 * pow10 k

parse_int_from-decimal :
    (fuel n : ℕ) (text : Text)
    → n < 2 ^ 32
    → n < pow10 fuel
    → parse_int_from 0 (decimal_from fuel n text) ≡ parse_int_from n text
unfolding decimal_from pow10
parse_int_from-decimal zero n text word small =
    ap (λ k. parse_int_from k text) (omega (arith, small))
parse_int_from-decimal (suc fuel) n text word small = elim (Bool-cases (ltb n 10)) [
  | inl e ↦ rw e (
      parse_int_from-digit 0 (n % 10) text (omega arith)
      ∙ ap (λ k. parse_int_from k text) (ground (arith, e)))
  | inr e ↦ rw e (
      parse_int_from-decimal fuel (n / 10) ((b'0' + n % 10) ∷ text) (omega (arith, word))
        (omega (arith, small))
      ∙ parse_int_from-digit (n / 10) (n % 10) text (omega arith)
      ∙ ap (λ k. parse_int_from k text) (omega (arith, word)))
]

-- What XmlParseInt reads from the decimal digits of a uint32.
pub parse_int-decimal : (n : ℕ) → n < 2 ^ 32 → parse_int (decimal n) ≡ n
unfolding parse_int decimal parse_int_from pow10
parse_int-decimal n word = parse_int_from-decimal 10 n [] word (omega (arith, word))

abbrev hex_digit : ℕ → ℕ
hex_digit d = if ltb d 10 then b'0' + d else b'a' + (d - 10)

-- A byte as two hexadecimal digits.
unfoldable pub hex_byte : ℕ → Text
hex_byte n = hex_digit (n / 16) ∷ hex_digit (n % 16) ∷ []

-- What XmlParseHex reads from them, where it may read two digits or more.
pub parse_hex-hex_byte :
    (nibbles n : ℕ) → 2 ≤ nibbles → n < 256 → parse_hex (hex_byte n) nibbles ≡ n
unfolding parse_hex parse_hex_from hex_value hex_byte all_below
parse_hex-hex_byte zero n two small = elim two [ ]
parse_hex-hex_byte (suc zero) n two small = absurd (omega arith)
parse_hex-hex_byte (suc (suc zero)) n two small =
    (==_iff _ _).0 (all_below_sound 256 (λ k. parse_hex (hex_byte k) 2 == k) n refl small)
parse_hex-hex_byte (suc (suc (suc nibbles))) n two small =
    (==_iff _ _).0 (
      all_below_sound 256 (λ k. parse_hex (hex_byte k) (suc (suc (suc nibbles))) == k) n refl small)
