-- ===== src/Prelude/Bytes.antt =====
-- Reads through a `const uint8_t *`: a pointer is the list of the bytes from it to the end of the
-- buffer, so a read past the end has no value.
use Prim.Native.Nat.{ℕ, ◌+◌, ◌*◌}
use mathlib.Core.Path.{◌≡◌}
use mathlib.Core.List.{List, ◌++◌}
use mathlib.Core.Option.{Option, none, some}
use native.Mathlib.Omega.{arith}
use orb_private.Prelude.Tests.{leb, if◌then◌else◌, ◌>>=◌}
use orb_private.Prelude.Lists.{length, get_elem?, take, take-append_left, length-append}
use orb_private.Prelude.Strings.{Text}

abbrev pub Pointer : Type 0
Pointer = List ℕ

-- *(p + k)
abbrev pub byte : Pointer → ℕ → Option ℕ
byte p k = get_elem? p k

-- (*(p + k) << 8u) + *(p + k + 1)
abbrev pub word : Pointer → ℕ → Option ℕ
word p k = do hi ← byte p k; lo ← byte p (k + 1); some (hi * 256 + lo)

-- std::string(reinterpret_cast<const char *>(p), n)
unfoldable pub text_at : ℕ → Pointer → Option Text
text_at n p = if leb n (length p) then some (take n p) else none

pub text_at-append : (s : Text) (rest : Pointer) → text_at (length s) (s ++ rest) ≡ some s
unfolding text_at
text_at-append s rest = ground (arith, length-append s rest, take-append_left s rest)
