-- ===== src/MetadataSearch/Complete.antt =====
-- What a query says of a programme.
use orb_private.Prelude.{
  ◌≡◌, ◌↔◌, ◌⊎◌, refl, sym, ap, subst, ◌∙◌, Bool, true, false, ◌||◌, Option, none, some, List, [],
  ◌∷◌, Text, codes, text_eq, ltb, ◌^◌, drop, if◌then◌else◌, ◌>>=◌, Any,
}
use orb_private.MetadataSearch.{
  ℤ, pos, negsuc, ◌+ℤ◌, op_invalid, op_id, op_and, op_or, op_not, Comparison, Query, query, Operand,
  null, operand, Programme, add_long, match_field, combine, match_query, match_operand,
  compare_string_values, compare_long_values,
}
use orb_private.MetadataSearch.Comparisons.{
  LongMeets, TextMeets, compare_long_values-Reflects, compare_string_values-Reflects,
}
use orb_private.MetadataSearch.Decisions.{
  Decides, Decides-and, Decides-or, Decides-not, Decides-some, Decides-field,
}

a_long : {m n : ℤ} → some m ≡ some n → m ≡ n
a_long h = cc

long_if : (b : Bool) (x end : ℤ) → (if b then some x else none) ≡ some end → x ≡ end
long_if true x end h = cc
long_if false x end h = cc

add_long-sum : (a b end : ℤ) → add_long a b ≡ some end → a +ℤ b ≡ end
add_long-sum a b end = in_range (a +ℤ b)
  where
    in_range :
        (sum : ℤ)
        → elim sum [
          | pos n ↦ if ltb n (2 ^ 63) then some (pos n) else none
          | negsuc n ↦ if ltb n (2 ^ 63) then some (negsuc n) else none
        ]
          ≡ some end
        → sum ≡ end
    in_range (pos n) h = long_if (ltb n (2 ^ 63)) (pos n) end h
    in_range (negsuc n) h = long_if (ltb n (2 ^ 63)) (negsuc n) end h

-- A field that is compared as a number.
abbrev pub is_time : Text → Bool
is_time field =
    text_eq field (codes "Programme.startTime") || text_eq field (codes "Programme.endTime")

module _ (stol : Text → Option ℤ) where
  -- Every operand that the operations call for is there, and every time is a number.
  unfoldable mutual
    pub IsComplete : Query → Type 0
    IsComplete (query id op_invalid operator1 operator2 field comparison value) = Unit
    IsComplete (query id op_id operator1 operator2 field comparison value) =
        is_time field ≡ true → (n : ℤ) × (stol value ≡ some n)
    IsComplete (query id op_and operator1 operator2 field comparison value) =
        IsThere operator1 × IsThere operator2
    IsComplete (query id op_or operator1 operator2 field comparison value) =
        IsThere operator1 × IsThere operator2
    IsComplete (query id op_not operator1 operator2 field comparison value) = IsThere operator1

    pub IsThere : Operand → Type 0
    IsThere null = ⊥
    IsThere (operand q) = IsComplete q

  module _ (programme : Programme) (ccid : Text) where
    -- What a comparison says, by the name of its field.
    abbrev pub conditions : Comparison → Text → List (Text × Type 0)
    conditions comparison value =
        (codes "Programme.channelID", TextMeets comparison ccid value)
        ∷ (
          codes "Programme.startTime",
          (n : ℤ) × (stol value ≡ some n) × LongMeets comparison programme.start_time n,
        )
        ∷ (
          codes "Programme.endTime",
          (n : ℤ) × (stol value ≡ some n)
              × LongMeets comparison (programme.start_time +ℤ programme.duration) n,
        )
        ∷ (codes "Programme.name", TextMeets comparison programme.name value)
        ∷ (codes "Programme.programmeID", TextMeets comparison programme.programme_id value)
        ∷ []

    abbrev pub FieldMeets : Text → Comparison → Text → Type 0
    FieldMeets field comparison value = Any (λ c. (field ≡ c.0) × c.1) (conditions comparison value)

    -- The proposition that a query is.
    unfoldable mutual
      pub Meets : Query → Type 0
      Meets (query id op_invalid operator1 operator2 field comparison value) = ⊥
      Meets (query id op_id operator1 operator2 field comparison value) =
          FieldMeets field comparison value
      Meets (query id op_and operator1 operator2 field comparison value) =
          MeetsOperand operator1 × MeetsOperand operator2
      Meets (query id op_or operator1 operator2 field comparison value) =
          MeetsOperand operator1 ⊎ MeetsOperand operator2
      Meets (query id op_not operator1 operator2 field comparison value) =
          MeetsOperand operator1 → ⊥

      pub MeetsOperand : Operand → Type 0
      MeetsOperand null = ⊥
      MeetsOperand (operand q) = Meets q

    Decides-start :
        (comparison : Comparison) (value : Text) (p n : ℤ)
        → stol value ≡ some n
        → Decides
            (do q ← stol value; some (compare_long_values comparison p q))
            ((n : ℤ) × (stol value ≡ some n) × LongMeets comparison p n)
    Decides-start comparison value p n read =
        let r = compare_long_values-Reflects comparison p n in
        (
          compare_long_values comparison p n,
          rw read refl,
          (
            λ h. (n, read, r.0 h),
            λ (n', read', k). r.1 (subst (LongMeets comparison p) (a_long (sym read' ∙ read)) k),
          ),
        )

    module _ (end : ℤ) (ends : add_long programme.start_time programme.duration ≡ some end) where
      Decides-end :
          (comparison : Comparison) (value : Text) (n : ℤ)
          → stol value ≡ some n
          → Decides
              (do
                q ← stol value
                end_time ← add_long programme.start_time programme.duration
                some (compare_long_values comparison end_time q))
              ((n : ℤ) × (stol value ≡ some n)
                × LongMeets comparison (programme.start_time +ℤ programme.duration) n)
      Decides-end comparison value n read =
          let p = programme.start_time +ℤ programme.duration in
          let r = compare_long_values-Reflects comparison p n in
          let sum = add_long-sum programme.start_time programme.duration end ends in
          (
            compare_long_values comparison p n,
            rw (read, ends) (ap (λ e. some (compare_long_values comparison e n)) (sym sum)),
            (
              λ h. (n, read, r.0 h),
              λ (n', read', k). r.1 (subst (LongMeets comparison p) (a_long (sym read' ∙ read)) k),
            ),
          )

      match_field-Decides :
          (field : Text) (comparison : Comparison) (value : Text)
          → (is_time field ≡ true → (n : ℤ) × (stol value ≡ some n))
          → Decides
              (match_field stol programme ccid field comparison value)
              (FieldMeets field comparison value)
      unfolding match_field text_eq
      match_field-Decides field comparison value reads =
          let cs = conditions comparison value in
          let text = λ (p : Text).
            Decides-some (some (compare_string_values comparison p value))
              (compare_string_values comparison p value) refl
              (compare_string_values-Reflects comparison p value) in
          Decides-field field (codes "Programme.channelID") _ _ (drop 1 cs) (λ e. text ccid)
            (Decides-field field (codes "Programme.startTime") _ _ (drop 2 cs)
              (λ e.
                let (n, read) = reads (ap is_time e) in
                Decides-start comparison value programme.start_time n read)
              (Decides-field field (codes "Programme.endTime") _ _ (drop 3 cs)
                (λ e. let (n, read) = reads (ap is_time e) in Decides-end comparison value n read)
                (Decides-field field (codes "Programme.name") _ _ (drop 4 cs)
                  (λ e. text programme.name)
                  (Decides-field field (codes "Programme.programmeID") _ _ (drop 5 cs)
                    (λ e. text programme.programme_id) (false, refl, (λ h. cc, λ h. elim h [ ])) tt)
                  (refl, tt))
                (refl, (refl, tt)))
              (refl, (refl, (refl, tt))))
            (refl, (refl, (refl, (refl, tt))))

      mutual
        unfolding combine match_query Meets IsComplete

        decide_query :
            (q : Query) → IsComplete q → Decides (match_query stol programme ccid q) (Meets q)
        decide_query (query id op_invalid operator1 operator2 field comparison value) is =
            (false, refl, ((λ h. cc), λ h. absurd h))
        decide_query (query id op_id operator1 operator2 field comparison value) reads =
            match_field-Decides field comparison value reads
        decide_query (query id op_and operator1 operator2 field comparison value) (there1, there2) =
            Decides-and (match_operand stol programme ccid operator1)
              (match_operand stol programme ccid operator2) (decide_operand operator1 there1)
              (decide_operand operator2 there2)
        decide_query (query id op_or operator1 operator2 field comparison value) (there1, there2) =
            Decides-or (match_operand stol programme ccid operator1)
              (match_operand stol programme ccid operator2) (decide_operand operator1 there1)
              (decide_operand operator2 there2)
        decide_query (query id op_not operator1 operator2 field comparison value) there =
            Decides-not (match_operand stol programme ccid operator1)
              (decide_operand operator1 there)

        decide_operand :
            (o : Operand)
            → IsThere o
            → Decides (match_operand stol programme ccid o) (MeetsOperand o)
        decide_operand null there = elim there [ ]
        decide_operand (operand q) there = decide_query q there

      -- For a query whose operands are all there and whose times are numbers, and a programme that ends at
      -- a time that is a long: Match returns, and answers whether the programme meets the query, a
      -- combination of its comparisons by and, or and not. A comparison names the channel, the start, the
      -- end, the name or the id of the programme, and relates it to its value: numbers by their order, texts
      -- in lower case by the order of their bytes or as one that occurs in the other.
      pub match_query-Meets :
          (q : Query)
          → IsComplete q
          → (b : Bool) × (match_query stol programme ccid q ≡ some b) × ((b ≡ true) ↔ Meets q)
      match_query-Meets q is = decide_query q is
