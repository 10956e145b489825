-- ===== src/Url/Origin.antt =====
-- components/application_manager/utils.cpp: the origin of a URL, and application boundaries.
pub mod Layout
use orb_private.Prelude.{
  ℕ, ◌+◌, Bool, true, false, not, ◌&&◌, ◌||◌, List, [], ◌∷◌, ◌++◌, Text, codes, starts_with, ltb,
  leb, ◌==◌, if◌then◌else◌, length, take,
}
use orb_private.Url.{compare_urls}

-- The values 0 to 5 of `state`.
pub data OriginState : Type 0 where
  scheme separator domain port end error : OriginState

-- The variables of the loop when it stops.
pub record OriginScan : Type 0 where
  pub state : OriginState
  pub count_chars : ℕ
  pub port_index : ℕ
  pub scheme_str : Text

abbrev stop : OriginState → ℕ → ℕ → Text → OriginScan
stop state n k str = record { state = state; count_chars = n; port_index = k; scheme_str = str }

-- The loop of StrGetUrlOrigin from a state, with `ptr` the text that is left: `n` is countChars, `k`
-- portStrIndex, `str` what schemeStr holds.
unfoldable pub origin_scan : OriginState → ℕ → ℕ → Text → Text → OriginScan
origin_scan scheme n k str [] = stop scheme n k str
origin_scan scheme n k str (c ∷ ptr) = elim (c == b':') [
  | true ↦ origin_scan separator (n + 1) k str ptr
  | false ↦ elim (ltb (length str) 6) [
    | true ↦ origin_scan scheme (n + 1) k (str ++ c ∷ []) ptr
    | false ↦ stop error (n + 1) k str
  ]
]
origin_scan separator n k str [] = stop separator n k str
origin_scan separator n k str (c ∷ []) = stop error n k str
origin_scan separator n k str (c ∷ d ∷ ptr) = elim (c == b'/' && d == b'/') [
  | true ↦ origin_scan domain (n + 2) k str ptr
  | false ↦ stop error n k str
]
origin_scan domain n k str [] = stop domain n k str
origin_scan domain n k str (c ∷ ptr) = elim (c == b':') [
  | true ↦ origin_scan port (n + 1) k str ptr
  | false ↦ elim (c == b'/') [
    | true ↦ stop end n k str
    | false ↦ origin_scan domain (n + 1) k str ptr
  ]
]
origin_scan port n k str [] = stop port n k str
origin_scan port n k str (c ∷ ptr) = elim (c == b'/') [
  | true ↦ stop end n k str
  | false ↦ elim (ltb 5 k) [
    | true ↦ stop error n k str
    | false ↦ origin_scan port (n + 1) (k + 1) str ptr
  ]
]
origin_scan end n k str ptr = stop end n k str
origin_scan error n k str ptr = stop error n k str

abbrev pub is_error : OriginState → Bool
is_error error = true
is_error _ = false

-- The port that is written when the URL has none.
abbrev pub default_port : Text → Text
default_port str = if starts_with str (codes "https") then codes "443" else codes "80"

-- What StrGetUrlOrigin returns after its loop.
unfoldable pub origin_result : Text → OriginScan → Text
origin_result url s =
    if ltb 0 s.count_chars && leb s.count_chars (length url) && not (is_error s.state)
    then take s.count_chars url
      ++ (if s.port_index == 0 then b':' ∷ default_port s.scheme_str else [])
    else []

-- Utils::StrGetUrlOrigin
unfoldable pub str_get_url_origin : Text → Text
str_get_url_origin url = origin_result url (origin_scan scheme 0 0 [] url)

-- The loop of CheckBoundaries.
unfoldable pub boundaries_loop : Text → List Text → Bool
boundaries_loop origin1 [] = false
boundaries_loop origin1 (app_boundary ∷ app_boundaries) =
    if compare_urls origin1 (str_get_url_origin app_boundary)
    then true
    else boundaries_loop origin1 app_boundaries

-- Utils::CheckBoundaries
unfoldable pub check_boundaries : Text → Text → List Text → Bool
check_boundaries url app_uri app_boundaries =
    let origin1 = str_get_url_origin url in
    if compare_urls origin1 (str_get_url_origin app_uri)
    then true
    else boundaries_loop origin1 app_boundaries
