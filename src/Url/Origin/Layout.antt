-- ===== src/Url/Origin/Layout.antt =====
-- The origin of a URL that is laid out as scheme, host, port and path.
use orb_private.Prelude.{
  ℕ, ◌+◌, ◌≤◌, ◌<◌, ◌≡◌, refl, sym, ap, ◌∙◌, true, false, List, [], ◌∷◌, ◌++◌, append_assoc,
  append-nil, Text, any, ltb, leb, ◌==◌, if◌then◌else◌, length, length-append, take-append_left,
  All, arith,
}
use orb_private.Url.{compare_urls}
use orb_private.Url.Origin.{
  OriginScan, is_error, scheme, domain, port, default_port, origin_scan, origin_result,
  str_get_url_origin, boundaries_loop, check_boundaries,
}

-- A text without one character.
abbrev pub Without : ℕ → Text → Type 0
Without x s = All (λ c. (c == x) ≡ false) s

scan_scheme :
    (s rest : Text) (n k : ℕ) (str : Text)
    → Without b':' s
    → length str + length s ≤ 6
    → origin_scan scheme n k str (s ++ rest) ≡ origin_scan scheme (n + length s) k (str ++ s) rest
unfolding origin_scan
scan_scheme [] rest n k str w h = ground (arith, append-nil str)
scan_scheme (c ∷ s) rest n k str w h =
    let room : ltb (length str) 6 ≡ true = ground arith in
    let count : n + 1 + length s ≡ n + length (c ∷ s) = omega arith in
    rw (w.0, origin_scan)
      (rw (room, origin_scan)
        (scan_scheme s rest (n + 1) k (str ++ c ∷ []) w.1
            (omega (arith, length-append str (c ∷ [])))
          ∙ rw (append_assoc str (c ∷ []) s, count)))

scan_domain :
    (s rest : Text) (n k : ℕ) (str : Text)
    → Without b':' s
    → Without b'/' s
    → origin_scan domain n k str (s ++ rest) ≡ origin_scan domain (n + length s) k str rest
unfolding origin_scan
scan_domain [] rest n k str w v = ground arith
scan_domain (c ∷ s) rest n k str w v =
    let count : n + 1 + length s ≡ n + length (c ∷ s) = omega arith in
    rw (w.0, origin_scan)
      (rw (v.0, origin_scan) (scan_domain s rest (n + 1) k str w.1 v.1 ∙ rw count))

scan_port :
    (s rest : Text) (n k : ℕ) (str : Text)
    → Without b'/' s
    → k + length s ≤ 6
    → origin_scan port n k str (s ++ rest) ≡ origin_scan port (n + length s) (k + length s) str rest
unfolding origin_scan
scan_port [] rest n k str v h = ground arith
scan_port (c ∷ s) rest n k str v h =
    let room : ltb 5 k ≡ false = ground arith in
    let count : n + 1 + length s ≡ n + length (c ∷ s) = omega arith in
    let digits : k + 1 + length s ≡ k + length (c ∷ s) = omega arith in
    rw (v.0, origin_scan)
      (rw (room, origin_scan)
        (scan_port s rest (n + 1) (k + 1) str v.1 (omega arith) ∙ rw (count, digits)))

-- What may follow the host or the port: nothing, or a path.
abbrev pub IsPath : Text → Type 0
IsPath [] = Unit
IsPath (c ∷ s) = c ≡ b'/'

scan_separator :
    (rest : Text) (n k : ℕ) (str : Text)
    → origin_scan scheme n k str (b':' ∷ b'/' ∷ b'/' ∷ rest)
      ≡ origin_scan domain (n + 1 + 2) k str rest
unfolding origin_scan
scan_separator rest n k str = refl

scan_colon :
    (rest : Text) (n k : ℕ) (str : Text)
    → origin_scan domain n k str (b':' ∷ rest) ≡ origin_scan port (n + 1) k str rest
unfolding origin_scan
scan_colon rest n k str = refl

-- The scan stops at a path without an error, with what it has counted.
abbrev Stopped : OriginScan → ℕ → ℕ → Text → Type 0
Stopped s n k str =
    (is_error s.state ≡ false) × (s.count_chars ≡ n) × (s.port_index ≡ k) × (s.scheme_str ≡ str)

domain_path :
    (path : Text) (n k : ℕ) (str : Text)
    → IsPath path
    → Stopped (origin_scan domain n k str path) n k str
unfolding origin_scan
domain_path [] n k str h = (refl, refl, refl, refl)
domain_path (c ∷ path) n k str h = ground arith

port_path :
    (path : Text) (n k : ℕ) (str : Text)
    → IsPath path
    → Stopped (origin_scan port n k str path) n k str
unfolding origin_scan
port_path [] n k str h = (refl, refl, refl, refl)
port_path (c ∷ path) n k str h = ground arith

result_prefix :
    (p path : Text) (s : OriginScan) {k : ℕ} {str : Text}
    → 0 < length p
    → Stopped s (length p) k str
    → origin_result (p ++ path) s ≡ p ++ (if k == 0 then b':' ∷ default_port str else [])
unfolding origin_result
result_prefix p path s {k} {str} pos (ok, count, index, name) =
    let some_chars : ltb 0 (length p) ≡ true = ground arith in
    let inside : leb (length p) (length (p ++ path)) ≡ true =
      ground (arith, length-append p path) in
    rw (count, ok, index, name) (rw (some_chars, inside) (rw (take-append_left p path)))

module _ (sch host path : Text) (short : length sch ≤ 6) (no_colon : Without b':' sch)
    (host_colon : Without b':' host) (host_slash : Without b'/' host) (is_path : IsPath path) where
  abbrev pub prefix : Text
  prefix = sch ++ b':' ∷ b'/' ∷ b'/' ∷ host

  -- The scan as far as the end of the host.
  scan_prefix :
      (rest : Text)
      → origin_scan scheme 0 0 [] (prefix ++ rest) ≡ origin_scan domain (length prefix) 0 sch rest
  scan_prefix rest =
      let count : 0 + length sch + 1 + 2 + length host ≡ length prefix =
        omega (arith, length-append sch (b':' ∷ b'/' ∷ b'/' ∷ host)) in
      rw (append_assoc sch (b':' ∷ b'/' ∷ b'/' ∷ host) rest) (
        scan_scheme sch (b':' ∷ b'/' ∷ b'/' ∷ (host ++ rest)) 0 0 [] no_colon (omega arith)
        ∙ scan_separator (host ++ rest) (0 + length sch) 0 sch
        ∙ scan_domain host rest (0 + length sch + 1 + 2) 0 sch host_colon host_slash
        ∙ ap (λ (n : ℕ). origin_scan domain n 0 sch rest) count)

  prefix_pos : 0 < length prefix
  prefix_pos = omega (arith, length-append sch (b':' ∷ b'/' ∷ b'/' ∷ host))

  -- Of a URL made of a scheme of up to six characters, a host without a port, and a path that is
  -- empty or starts with a slash, the origin is the scheme and the host with the port of the
  -- scheme added: 443 for https, 80 for any other.
  pub str_get_url_origin-default :
      str_get_url_origin (prefix ++ path) ≡ prefix ++ b':' ∷ default_port sch
  unfolding str_get_url_origin
  str_get_url_origin-default =
      rw (scan_prefix path)
        (result_prefix prefix path _ prefix_pos (domain_path path (length prefix) 0 sch is_path))

  -- Of such a URL with a port of one to six characters it is the scheme, the host and the port,
  -- as written.
  pub str_get_url_origin-port :
      (d : ℕ) (digits : Text)
      → length (d ∷ digits) ≤ 6
      → Without b'/' (d ∷ digits)
      → str_get_url_origin (prefix ++ b':' ∷ (d ∷ (digits ++ path))) ≡ prefix ++ b':' ∷ (d ∷ digits)
  unfolding str_get_url_origin
  str_get_url_origin-port d digits len slash =
      let p : Text = d ∷ digits in
      let whole : Text = prefix ++ b':' ∷ p in
      let count : length prefix + 1 + length p ≡ length whole =
        omega (arith, length-append prefix (b':' ∷ p)) in
      let scan : origin_scan scheme 0 0 [] (prefix ++ b':' ∷ (p ++ path))
          ≡ origin_scan port (length whole) (0 + length p) sch path =
        scan_prefix (b':' ∷ (p ++ path))
        ∙ scan_colon (p ++ path) (length prefix) 0 sch
        ∙ scan_port p path (length prefix + 1) 0 sch slash (omega (arith, len))
        ∙ ap (λ (n : ℕ). origin_scan port n (0 + length p) sch path) count in
      let joined : prefix ++ b':' ∷ (p ++ path) ≡ whole ++ path =
        sym (append_assoc prefix (b':' ∷ p) path) in
      let has_port : (0 + length p == 0) ≡ false = ground arith in
      rw scan (
        rw joined (
          result_prefix whole path _ (omega (arith, count))
            (port_path path (length whole) (0 + length p) sch is_path)
          ∙ rw (has_port) (append-nil whole)))

boundaries_loop-any :
    (origin1 : Text) (bs : List Text)
    → boundaries_loop origin1 bs ≡ any (λ b. compare_urls origin1 (str_get_url_origin b)) bs
unfolding boundaries_loop
boundaries_loop-any origin1 [] = refl
boundaries_loop-any origin1 (b ∷ bs) = ground (arith, boundaries_loop-any origin1 bs)

-- A page is inside an application's boundaries exactly if its origin compares equal to that of the
-- application's URL or of one of its boundaries.
pub check_boundaries-any :
    (url app_uri : Text) (bs : List Text)
    → check_boundaries url app_uri bs
      ≡ any (λ b. compare_urls (str_get_url_origin url) (str_get_url_origin b)) (app_uri ∷ bs)
unfolding check_boundaries
check_boundaries-any url app_uri bs =
    ground (arith, boundaries_loop-any (str_get_url_origin url) bs)
