-- ===== src/Ait/Descriptors/Boundaries.antt =====
-- Lists of texts, each behind its length byte: the simple application boundary descriptor.
use orb_private.Prelude.{
  ℕ, ◌≡◌, ◌∙◌, some, List, [], ◌∷◌, ◌++◌, append-nil, append_assoc, Text, Pointer, length,
  drop-append_left, text_at-append,
}
use orb_private.Ait.{AitAppDesc}
use orb_private.Ait.Descriptors.{read_texts, parse_simple_app_boundary_desc}

abbrev pub encode_texts : List Text → List ℕ
encode_texts [] = []
encode_texts (t ∷ ts) = length t ∷ (t ++ encode_texts ts)

-- Texts that follow one another are read back in order, up to the byte behind the last.
pub read_texts-encode :
    (ts read : List Text) (rest : Pointer)
    → read_texts (length ts) read (encode_texts ts ++ rest) ≡ some (read ++ ts, rest)
unfolding read_texts
read_texts-encode [] read rest = rw (append-nil read)
read_texts-encode (t ∷ ts) read rest = rw (append_assoc t (encode_texts ts) rest) (
    rw (text_at-append t (encode_texts ts ++ rest)) (
      rw (drop-append_left t (encode_texts ts ++ rest))
        (read_texts-encode ts (read ++ t ∷ []) rest ∙ rw append_assoc)))

-- Every boundary descriptor of an application adds its boundaries, in order, behind those that the
-- application has. The first byte, the descriptor's length, is not looked at.
pub parse_simple_app_boundary_desc-encode :
    (len : ℕ) (ts : List Text) (app : AitAppDesc) (rest : Pointer)
    → parse_simple_app_boundary_desc (len ∷ length ts ∷ (encode_texts ts ++ rest)) app
      ≡ some (record app { boundaries = app.boundaries ++ ts })
unfolding parse_simple_app_boundary_desc
parse_simple_app_boundary_desc-encode len ts app rest =
    rw (read_texts-encode ts app.boundaries rest)
