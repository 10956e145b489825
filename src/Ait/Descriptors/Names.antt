-- ===== src/Ait/Descriptors/Names.antt =====
-- The application name descriptor.
use orb_private.Prelude.{
  ℕ, zero, suc, ◌+◌, ◌-◌, ◌*◌, ◌%◌, ◌<◌, ◌≡◌, refl, some, List, [], ◌∷◌, ◌++◌, Text, Pointer,
  length, text_at, text_at-append, arith,
}
use orb_private.Ait.{AppNameDesc, LangString}
use orb_private.Ait.Descriptors.{count_names, read_names, put_name, parse_app_name_desc}

-- A name in one language: its code, its length, its text.
abbrev pub encode_name : ℕ → ℕ → ℕ → Text → List ℕ
encode_name l0 l1 l2 name = l0 ∷ l1 ∷ l2 ∷ length name ∷ name

count_names_done : (fuel n : ℕ) (p : Pointer) → count_names fuel 0 n p ≡ some n
unfolding count_names
count_names_done zero n p = refl
count_names_done (suc fuel) n p = refl

read_names_done :
    (fuel n : ℕ) (names : List LangString) (p : Pointer) → read_names fuel 0 n names p ≡ some names
unfolding read_names
read_names_done zero n names p = refl
read_names_done (suc fuel) n names p = refl

module _ (fuel l0 l1 l2 len : ℕ) (p : Pointer) (fits : 0 < len) (short : len < 252) where
  count_names_one : count_names (suc fuel) (len + 4) 0 (l0 ∷ l1 ∷ l2 ∷ len ∷ p) ≡ some 1
  unfolding count_names
  count_names_one =
      let left : (len + 4 + 512 - (len + 4)) % 256 ≡ 0 = omega arith in
      ground (arith, left, count_names_done fuel 1 p)

  read_names_one :
      (name : Text) (v : LangString)
      → text_at len p ≡ some name
      → read_names (suc fuel) (len + 4) 0 (v ∷ []) (l0 ∷ l1 ∷ l2 ∷ len ∷ p)
        ≡ some (record { lang_code = l0 * 65536 + (l1 * 256 + l2); name = name } ∷ [])
  unfolding read_names put_name
  read_names_one name v e =
      let left : (len + 4 + 512 - (len + 4)) % 256 ≡ 0 = omega arith in
      let filled : List LangString =
        record { lang_code = l0 * 65536 + (l1 * 256 + l2); name = name } ∷ [] in
      ground (arith, left, e, read_names_done fuel 1 filled p)

-- For an application without names, a descriptor with a name in one language, of 1 to 251
-- characters, gives that name, under its three-letter code.
pub parse_app_name_desc-encode :
    (l0 l1 l2 c : ℕ) (name : Text) (app_name : AppNameDesc) (rest : Pointer)
    → length name < 251
    → app_name.names ≡ []
    → parse_app_name_desc
        ((length (c ∷ name) + 4) ∷ (encode_name l0 l1 l2 (c ∷ name) ++ rest))
        app_name
      ≡ some (record {
        num_langs = 1;
        names = record { lang_code = l0 * 65536 + (l1 * 256 + l2); name = c ∷ name } ∷ [];
      })
unfolding parse_app_name_desc
parse_app_name_desc-encode l0 l1 l2 c name app_name rest short fresh =
    rw (fresh, parse_app_name_desc)
      (rw (count_names_one _ l0 l1 l2 (length (c ∷ name)) _ (omega arith) (omega arith)) (
        rw (
          read_names_one _ l0 l1 l2 (length (c ∷ name)) _ (omega arith) (omega arith) (c ∷ name) _
            (text_at-append (c ∷ name) rest))))
