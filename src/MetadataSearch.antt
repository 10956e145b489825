-- ===== src/MetadataSearch.antt =====
-- rdk/ORB/library/src/core/utilities/Query.h and MetadataSearchTask.cpp: queries for programmes, and what
-- matches them. An exception and a call through a null pointer have no result (`none`).
pub mod Worker
pub mod Found
pub mod Page
pub mod Decisions
pub mod Texts
pub mod Comparisons
pub mod Complete
pub mod Tasks
use orb_private.Prelude.{
  ℕ, suc, ◌+◌, ◌-◌, ◌^◌, Bool, true, false, not, ◌&&◌, ◌||◌, Option, none, some, List, [], ◌∷◌, map,
  Text, codes, to_lower, text_eq, find, ltb, ◌==◌, if◌then◌else◌, ◌>>=◌,
}

-- int and long
pub data ℤ : Type 0 where
  pos : ℕ → ℤ
  negsuc : ℕ → ℤ

abbrev pub ltz : ℤ → ℤ → Bool
ltz (pos m) (pos n) = ltb m n
ltz (pos m) (negsuc n) = false
ltz (negsuc m) (pos n) = true
ltz (negsuc m) (negsuc n) = ltb n m

abbrev pub eqz : ℤ → ℤ → Bool
eqz (pos m) (pos n) = m == n
eqz (pos m) (negsuc n) = false
eqz (negsuc m) (pos n) = false
eqz (negsuc m) (negsuc n) = m == n

abbrev minus : ℕ → ℕ → ℤ
minus m n = if ltb m n then negsuc (n - m - 1) else pos (m - n)

infixl 65 ◌+ℤ◌
abbrev pub ◌+ℤ◌ : ℤ → ℤ → ℤ
pos m +ℤ pos n = pos (m + n)
pos m +ℤ negsuc n = minus m (suc n)
negsuc m +ℤ pos n = minus n (suc m)
negsuc m +ℤ negsuc n = negsuc (suc (m + n))

-- A sum that is no long is undefined.
abbrev pub add_long : ℤ → ℤ → Option ℤ
add_long a b = elim (a +ℤ b) [
  | pos n ↦ if ltb n (2 ^ 63) then some (pos n) else none
  | negsuc n ↦ if ltb n (2 ^ 63) then some (negsuc n) else none
]

-- Query::Operation
pub data Operation : Type 0 where
  op_invalid op_id op_and op_or op_not : Operation

-- Query::Comparison, with any other value that the cast of an int makes.
pub data Comparison : Type 0 where
  cmp_invalid cmp_equal cmp_not_eql cmp_more cmp_more_eql cmp_less cmp_less_eql cmp_contains :
      Comparison
  cmp_other : ℤ → Comparison

-- The members of Query, in their order. An operand may be a null pointer.
mutual
  pub data Query : Type 0 where
    query : ℤ → Operation → Operand → Operand → Text → Comparison → Text → Query

  pub data Operand : Type 0 where
    null : Operand
    operand : Query → Operand

abbrev pub query_id : Query → ℤ
query_id (query id operation operator1 operator2 field comparison value) = id

-- What the search reads of a Programme and of a Channel.
pub record Programme : Type 0 where
  pub programme_id : Text
  pub name : Text
  pub start_time : ℤ
  pub duration : ℤ

pub record Channel : Type 0 where
  pub ccid : Text
  pub hidden : Bool

-- s.compare(t) < 0
unfoldable pub text_lt : Text → Text → Bool
text_lt s [] = false
text_lt [] (d ∷ t) = true
text_lt (c ∷ s) (d ∷ t) = ltb c d || (c == d && text_lt s t)

abbrev pub is_found : Option ℕ → Bool
is_found none = false
is_found (some i) = true

-- MetadataSearchTask::CompareStringValues
unfoldable pub compare_lowered : Comparison → Text → Text → Bool
compare_lowered cmp_invalid p q = false
compare_lowered cmp_equal p q = text_eq p q
compare_lowered cmp_not_eql p q = not (text_eq p q)
compare_lowered cmp_more p q = text_lt q p
compare_lowered cmp_more_eql p q = not (text_lt p q)
compare_lowered cmp_less p q = text_lt p q
compare_lowered cmp_less_eql p q = not (text_lt q p)
compare_lowered cmp_contains p q = is_found (find q p)
compare_lowered (cmp_other n) p q = false

unfoldable pub compare_string_values : Comparison → Text → Text → Bool
compare_string_values comparison programme_value query_value =
    compare_lowered comparison (map to_lower programme_value) (map to_lower query_value)

-- MetadataSearchTask::CompareLongValues
unfoldable pub compare_long_values : Comparison → ℤ → ℤ → Bool
compare_long_values cmp_invalid p q = false
compare_long_values cmp_equal p q = eqz p q
compare_long_values cmp_not_eql p q = not (eqz p q)
compare_long_values cmp_more p q = ltz q p
compare_long_values cmp_more_eql p q = not (ltz p q)
compare_long_values cmp_less p q = ltz p q
compare_long_values cmp_less_eql p q = not (ltz q p)
compare_long_values cmp_contains p q = eqz p q
compare_long_values (cmp_other n) p q = false

abbrev pub and_then : Option Bool → Option Bool → Option Bool
and_then first second = do a ← first; if a then second else some false

abbrev pub or_then : Option Bool → Option Bool → Option Bool
or_then first second = do a ← first; if a then some true else second

-- The switch of MetadataSearchTask::Match, with what its calls for the operands return.
unfoldable pub combine : Operation → Option Bool → Option Bool → Option Bool → Option Bool
combine op_invalid first second here = some false
combine op_id first second here = here
combine op_and first second here = and_then first second
combine op_or first second here = or_then first second
combine op_not first second here = do a ← first; some (not a)

-- `stol` is std::stol, which throws where the text has no long.
module _ (stol : Text → Option ℤ) (programme : Programme) (ccid : Text) where
  -- The case OP_ID of MetadataSearchTask::Match.
  unfoldable pub match_field : Text → Comparison → Text → Option Bool
  match_field field comparison value =
      if text_eq field (codes "Programme.channelID")
      then some (compare_string_values comparison ccid value)
      else if text_eq field (codes "Programme.startTime")
      then (do q ← stol value; some (compare_long_values comparison programme.start_time q))
      else if text_eq field (codes "Programme.endTime")
      then (do
        q ← stol value
        end_time ← add_long programme.start_time programme.duration
        some (compare_long_values comparison end_time q))
      else if text_eq field (codes "Programme.name")
      then some (compare_string_values comparison programme.name value)
      else if text_eq field (codes "Programme.programmeID")
      then some (compare_string_values comparison programme.programme_id value)
      else some false

  -- MetadataSearchTask::Match
  unfoldable mutual
    pub match_query : Query → Option Bool
    match_query (query id operation operator1 operator2 field comparison value) =
        combine operation (match_operand operator1) (match_operand operator2)
          (match_field field comparison value)

    pub match_operand : Operand → Option Bool
    match_operand null = none
    match_operand (operand q) = match_query q
