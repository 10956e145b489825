-- ===== src/Url.antt =====
-- components/application_manager/utils.cpp: comparing URLs, and merging parameters into one.
pub mod Compare
pub mod Origin
pub mod Locator
use orb_private.Prelude.{
  ℕ, ◌+◌, ◌%◌, ◌^◌, Bool, true, false, not, ◌&&◌, ◌||◌, Option, none, some, List, [], ◌∷◌, ◌++◌,
  map, Text, is_empty, text_eq, find_char, ◌==◌, if◌then◌else◌, length, take,
}

-- The characters of " \t\n\r\f\v/".
abbrev pub is_trailing : ℕ → Bool
is_trailing c = c == 32 || c == 9 || c == 10 || c == 13 || c == 12 || c == 11 || c == b'/'

-- str.erase(str.find_last_not_of(" \t\n\r\f\v/") + 1)
unfoldable pub trim : Text → Text
trim [] = []
trim (c ∷ s) = let rest = trim s in if is_empty rest && is_trailing c then [] else c ∷ rest

-- Utils::CompareUrls; the lengths are uint32.
unfoldable pub compare_urls : Text → Text → Bool
compare_urls url1 url2 =
    let str1 = trim url1 in
    let str2 = trim url2 in
    if not (is_empty str1) && not (is_empty str2)
    then length str1 % 2 ^ 32 == length str2 % 2 ^ 32 && text_eq str1 str2
    else false

-- Utils::IsPartOf
unfoldable pub is_part_of : Text → Text → Bool
is_part_of document_url app_base_url =
    let str1 = trim document_url in
    let str2 = trim app_base_url in
    if not (is_empty str1) && not (is_empty str2)
    then text_eq (take (length str2) str1) str2
    else false

-- locn.substr(0, locn.find('#'))
unfoldable pub without_fragment : Text → Text
without_fragment [] = []
without_fragment (c ∷ s) = if c == b'#' then [] else c ∷ without_fragment s

abbrev pub has_query : Text → Bool
has_query [] = false
has_query (c ∷ s) = c == b'?' || has_query s

-- std::replace(params.begin(), params.end(), '?', '&')
abbrev pub replace_query : Text → Text
replace_query = map (λ c. if c == b'?' then b'&' else c)

-- Utils::MergeUrlParams
unfoldable pub merge_url_params : Text → Text → Text → Text
merge_url_params base locn params =
    let path = without_fragment locn in
    base ++ (path ++ (if has_query path then replace_query params else params))
