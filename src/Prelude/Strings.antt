-- ===== src/Prelude/Strings.antt =====
-- Text as the codes of its bytes, with the `std::string` operations that the sources call.
-- A position that `find` does not give is `none`, for `npos`.
use Prim.Native.Nat.{ℕ, suc, ◌+◌}
use Prim.Native.Char.{code}
use Prim.Native.String.{String}
use mathlib.Core.Path.{◌≡◌, refl}
use mathlib.Core.Bool.{Bool, true, false, ◌&&◌}
use mathlib.Core.List.{List, [], ◌∷◌}
use mathlib.Core.Option.{Option, none, some}
use native.Mathlib.Omega.{arith}
use orb_private.Prelude.Tests.{leb, ◌==◌, if◌then◌else◌}
use orb_private.Prelude.Lists.{take, drop}

abbrev pub Text : Type 0
Text = List ℕ

abbrev pub codes : String → Text
codes String.[] = []
codes (String.◌∷◌ c s) = code c ∷ codes s

abbrev pub is_empty : Text → Bool
is_empty [] = true
is_empty (c ∷ s) = false

-- tolower in the C locale
abbrev pub to_lower : ℕ → ℕ
to_lower c = if leb b'A' c && leb c b'Z' then c + 32 else c

-- s == t
unfoldable pub text_eq : Text → Text → Bool
text_eq [] [] = true
text_eq [] (d ∷ t) = false
text_eq (c ∷ s) [] = false
text_eq (c ∷ s) (d ∷ t) = c == d && text_eq s t

-- The position of a match in the tail, counted from the head.
abbrev pub after_head : Option ℕ → Option ℕ
after_head none = none
after_head (some i) = some (suc i)

-- s.find(c)
unfoldable pub find_char : ℕ → Text → Option ℕ
find_char c [] = none
find_char c (d ∷ s) = if d == c then some 0 else after_head (find_char c s)

-- s.substr(0, t.length()) == t
unfoldable pub starts_with : Text → Text → Bool
starts_with s [] = true
starts_with [] (d ∷ t) = false
starts_with (c ∷ s) (d ∷ t) = c == d && starts_with s t

-- s.find(t)
unfoldable pub find : Text → Text → Option ℕ
find t [] = if is_empty t then some 0 else none
find t (c ∷ s) = let rest = after_head (find t s) in if starts_with (c ∷ s) t then some 0 else rest

-- s.substr(pos, n)
abbrev pub substr : ℕ → ℕ → Text → Text
substr pos n s = take n (drop pos s)

pub text_eq_refl : (s : Text) → text_eq s s ≡ true
unfolding text_eq
text_eq_refl [] = refl
text_eq_refl (c ∷ s) = ground (arith, text_eq_refl s)

pub text_eq_sound : (s t : Text) → text_eq s t ≡ true → s ≡ t
unfolding text_eq
text_eq_sound [] [] h = refl
text_eq_sound [] (d ∷ t) h = cc
text_eq_sound (c ∷ s) [] h = cc
text_eq_sound (c ∷ s) (d ∷ t) h = ground (arith, text_eq_sound s t)
