-- ===== src/UrlExamples.antt =====
-- The theorems on URLs at concrete ones.
use orb_private.Prelude.{
  ℕ, ◌+◌, ◌-◌, ◌*◌, ◌%◌, ◌^◌, ◌&&◌, leb, if◌then◌else◌, Option, none, some, inl, ◌≡◌, refl, [], ◌∷◌,
  ◌++◌, Text, codes, arith,
}
use orb_private.Url.Locator.{
  invalid_dvb_triplet, ait_application_locator, parse_create_locator_info,
}
use orb_private.Url.Locator.Current.{parse_create_locator_info-current}

abbrev page : Text
page = codes "http://a.b/index"

-- The value of the hexadecimal digits, where there are only such.
abbrev digit : ℕ → Option ℕ
digit c =
    if leb b'0' c && leb c b'9'
    then some (c - b'0')
    else if leb b'a' c && leb c b'f'
    then some (c - b'a' + 10)
    else none

hex_from : ℕ → Text → Option ℕ
hex_from v [] = some v
hex_from v (c ∷ s) = elim (digit c) [ none ↦ none | some d ↦ hex_from (16 * v + d) s ]

abbrev hex_value : Text → Option ℕ
hex_value = hex_from 0

parse_create_locator_info-current_example :
    parse_create_locator_info hex_value
      (codes "dvb://current.ait/" ++ ((codes "123" ++ b'.' ∷ codes "1f") ++ codes "?x=1"))
      invalid_dvb_triplet
    ≡ record {
      type = ait_application_locator;
      org_id = 0x123 % 2 ^ 32;
      app_id = 0x1F % 2 ^ 16;
      parameters = codes "?x=1";
    }
unfolding hex_from
parse_create_locator_info-current_example =
    parse_create_locator_info-current hex_value (codes "123") (codes "1f") (codes "?x=1")
      invalid_dvb_triplet refl refl (ground arith) (ground arith) (ground arith) (inl refl)
