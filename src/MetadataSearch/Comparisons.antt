-- ===== src/MetadataSearch/Comparisons.antt =====
-- What the comparisons of a query say: orders of numbers and of texts, and texts in texts.
use orb_private.Prelude.{
  ◌<◌, ◌≡◌, ◌≢◌, refl, ap, map, Text, to_lower, text_eq, ==_iff, Reflects, Reflects-not,
  text_eq-Reflects, arith,
}
use orb_private.MetadataSearch.{
  ℤ, pos, negsuc, ltz, eqz, Comparison, cmp_invalid, cmp_equal, cmp_not_eql, cmp_more, cmp_more_eql,
  cmp_less, cmp_less_eql, cmp_contains, cmp_other, text_lt, compare_lowered, compare_string_values,
  compare_long_values,
}
use orb_private.MetadataSearch.Texts.{IsBefore, Occurs, text_lt-Reflects, find-Reflects}

abbrev pub IsLess : ℤ → ℤ → Type 0
IsLess (pos m) (pos n) = m < n
IsLess (pos m) (negsuc n) = ⊥
IsLess (negsuc m) (pos n) = Unit
IsLess (negsuc m) (negsuc n) = n < m

-- A number of a programme against that of a query.
abbrev pub LongMeets : Comparison → ℤ → ℤ → Type 0
LongMeets cmp_invalid p q = ⊥
LongMeets cmp_equal p q = p ≡ q
LongMeets cmp_not_eql p q = p ≢ q
LongMeets cmp_more p q = IsLess q p
LongMeets cmp_more_eql p q = IsLess p q → ⊥
LongMeets cmp_less p q = IsLess p q
LongMeets cmp_less_eql p q = IsLess q p → ⊥
LongMeets cmp_contains p q = p ≡ q
LongMeets (cmp_other n) p q = ⊥

-- A text of a programme against that of a query, in lower case.
abbrev pub LoweredMeets : Comparison → Text → Text → Type 0
LoweredMeets cmp_invalid p q = ⊥
LoweredMeets cmp_equal p q = p ≡ q
LoweredMeets cmp_not_eql p q = p ≢ q
LoweredMeets cmp_more p q = IsBefore q p
LoweredMeets cmp_more_eql p q = IsBefore p q → ⊥
LoweredMeets cmp_less p q = IsBefore p q
LoweredMeets cmp_less_eql p q = IsBefore q p → ⊥
LoweredMeets cmp_contains p q = Occurs q p
LoweredMeets (cmp_other n) p q = ⊥

abbrev pub TextMeets : Comparison → Text → Text → Type 0
TextMeets comparison p q = LoweredMeets comparison (map to_lower p) (map to_lower q)

ltz-Reflects : (p q : ℤ) → Reflects (ltz p q) (IsLess p q)
ltz-Reflects (pos m) (pos n) = ground arith
ltz-Reflects (pos m) (negsuc n) = (λ h. cc, λ h. elim h [ ])
ltz-Reflects (negsuc m) (pos n) = (λ h. tt, λ h. refl)
ltz-Reflects (negsuc m) (negsuc n) = ground arith

eqz-Reflects : (p q : ℤ) → Reflects (eqz p q) (p ≡ q)
eqz-Reflects (pos m) (pos n) = (λ h. ap pos ((==_iff m n).0 h), λ h. (==_iff m n).1 cc)
eqz-Reflects (pos m) (negsuc n) = (λ h. cc, λ h. cc)
eqz-Reflects (negsuc m) (pos n) = (λ h. cc, λ h. cc)
eqz-Reflects (negsuc m) (negsuc n) = (λ h. ap negsuc ((==_iff m n).0 h), λ h. (==_iff m n).1 cc)

pub compare_long_values-Reflects :
    (comparison : Comparison) (p q : ℤ)
    → Reflects (compare_long_values comparison p q) (LongMeets comparison p q)
unfolding compare_long_values
compare_long_values-Reflects cmp_invalid p q = (λ h. cc, λ h. elim h [ ])
compare_long_values-Reflects cmp_equal p q = eqz-Reflects p q
compare_long_values-Reflects cmp_not_eql p q = Reflects-not (eqz p q) (eqz-Reflects p q)
compare_long_values-Reflects cmp_more p q = ltz-Reflects q p
compare_long_values-Reflects cmp_more_eql p q = Reflects-not (ltz p q) (ltz-Reflects p q)
compare_long_values-Reflects cmp_less p q = ltz-Reflects p q
compare_long_values-Reflects cmp_less_eql p q = Reflects-not (ltz q p) (ltz-Reflects q p)
compare_long_values-Reflects cmp_contains p q = eqz-Reflects p q
compare_long_values-Reflects (cmp_other n) p q = (λ h. cc, λ h. elim h [ ])

compare_lowered-Reflects :
    (comparison : Comparison) (p q : Text)
    → Reflects (compare_lowered comparison p q) (LoweredMeets comparison p q)
unfolding compare_lowered
compare_lowered-Reflects cmp_invalid p q = (λ h. cc, λ h. elim h [ ])
compare_lowered-Reflects cmp_equal p q = text_eq-Reflects p q
compare_lowered-Reflects cmp_not_eql p q = Reflects-not (text_eq p q) (text_eq-Reflects p q)
compare_lowered-Reflects cmp_more p q = text_lt-Reflects q p
compare_lowered-Reflects cmp_more_eql p q = Reflects-not (text_lt p q) (text_lt-Reflects p q)
compare_lowered-Reflects cmp_less p q = text_lt-Reflects p q
compare_lowered-Reflects cmp_less_eql p q = Reflects-not (text_lt q p) (text_lt-Reflects q p)
compare_lowered-Reflects cmp_contains p q = find-Reflects q p
compare_lowered-Reflects (cmp_other n) p q = (λ h. cc, λ h. elim h [ ])

pub compare_string_values-Reflects :
    (comparison : Comparison) (p q : Text)
    → Reflects (compare_string_values comparison p q) (TextMeets comparison p q)
unfolding compare_string_values
compare_string_values-Reflects comparison p q =
    compare_lowered-Reflects comparison (map to_lower p) (map to_lower q)
