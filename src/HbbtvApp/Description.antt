-- ===== src/HbbtvApp/Description.antt =====
-- components/application_manager/hbbtv_app.cpp: what Update reads from a description.
use orb_private.Prelude.{
  ℕ, zero, suc, ◌≤◌, ◌≡◌, ◌≢◌, ◌⊎◌, inl, inr, refl, sym, ap, ◌∙◌, subst, Bool, true, false, Option,
  none, some, List, [], ◌∷◌, ◌++◌, Text, codes, text_eq, text_eq_refl, text_eq_sound, find_char,
  is_empty, leb, ◌==◌, if◌then◌else◌, take, drop, All, Any, Bool-cases, Option-cases, arith,
}
use orb_private.Ait.{AitAppDesc, LangString, AppProfile}
use orb_private.HbbtvApp.{
  HbbtvApp, least_of, put_name, read_names, update_scheme, with_scheme, get_scheme,
  linked_app_scheme_1_2, linked_app_scheme_2, url_params_from_app_scheme,
}
use orb_private.Url.{merge_url_params}

-- A number is the least of those of the profiles and one more.
pub record IsLeast (v : ℕ) (ps : List AppProfile) (least : ℕ) : Type 0 where
  pub least_old : least ≤ v
  pub least_new : All (λ p. least ≤ p.version_minor) ps
  pub is_one : (least ≡ v) ⊎ Any (λ p. least ≡ p.version_minor) ps

least_of-le : (v : ℕ) (ps : List AppProfile) → least_of v ps ≤ v
unfolding least_of
least_of-le v [] = omega arith
least_of-le v (p ∷ ps) =
    ground (arith, least_of-le (if leb p.version_minor v then p.version_minor else v) ps)

least_of-All : (v : ℕ) (ps : List AppProfile) → All (λ p. least_of v ps ≤ p.version_minor) ps
unfolding least_of
least_of-All v [] = tt
least_of-All v (p ∷ ps) =
    let w = if leb p.version_minor v then p.version_minor else v in
    (ground (arith, least_of-le w ps), least_of-All w ps)

one-step :
    (b : Bool) (v l : ℕ) (p : AppProfile) (ps : List AppProfile)
    → (l ≡ (if b then p.version_minor else v)) ⊎ Any (λ q. l ≡ q.version_minor) ps
    → (l ≡ v) ⊎ ((l ≡ p.version_minor) ⊎ Any (λ q. l ≡ q.version_minor) ps)
one-step true v l p ps (inl e) = inr (inl e)
one-step false v l p ps (inl e) = inl e
one-step b v l p ps (inr e) = inr (inr e)

least_of-one :
    (v : ℕ) (ps : List AppProfile)
    → (least_of v ps ≡ v) ⊎ Any (λ p. least_of v ps ≡ p.version_minor) ps
unfolding least_of
least_of-one v [] = inl refl
least_of-one v (p ∷ ps) =
    let b = leb p.version_minor v in
    let w = if b then p.version_minor else v in
    one-step b v (least_of w ps) p ps (least_of-one w ps)

pub least_of-IsLeast : (v : ℕ) (ps : List AppProfile) → IsLeast v ps (least_of v ps)
least_of-IsLeast v ps = record {
  least_old = least_of-le v ps;
  least_new = least_of-All v ps;
  is_one = least_of-one v ps;
}

-- The name that m_names has for a language.
abbrev pub name_of : ℕ → List LangString → Option Text
name_of code [] = none
name_of code (m ∷ ms) =
    let rest = name_of code ms in if m.lang_code == code then some m.name else rest

-- The last name that a list has for a language.
abbrev pub last_name : ℕ → List LangString → Option Text
last_name code [] = none
last_name code (m ∷ ms) = elim (last_name code ms) [
  | some name ↦ some name
  | none ↦ if m.lang_code == code then some m.name else none
]

abbrev or_name : Option Text → Option Text → Option Text
or_name (some name) other = some name
or_name none other = other

name_of-put_name :
    (code : ℕ) (n : LangString) (ms : List LangString)
    → name_of code (put_name n ms) ≡ (if n.lang_code == code then some n.name else name_of code ms)
unfolding put_name
name_of-put_name code n [] = refl
name_of-put_name code n (m ∷ ms) = ground (arith, name_of-put_name code n ms)

name_of-read_names :
    (code k : ℕ) (ns read : List LangString) {names : List LangString}
    → read_names k ns read ≡ some names
    → name_of code names ≡ or_name (last_name code (take k ns)) (name_of code read)
unfolding read_names
name_of-read_names code zero ns read h = ground arith
name_of-read_names code (suc k) [] read h = cc
name_of-read_names code (suc k) (m ∷ ms) read h =
    name_of-read_names code k ms (put_name m read) h
    ∙ ap (or_name (last_name code (take k ms))) (name_of-put_name code m read)
    ∙ later (last_name code (take k ms)) (m.lang_code == code)
  where
    later :
        (o : Option Text) (b : Bool)
        → or_name o (if b then some m.name else name_of code read)
          ≡ or_name
              (elim o [ some name ↦ some name | none ↦ if b then some m.name else none ])
              (name_of code read)
    later (some name) b = refl
    later none true = refl
    later none false = refl

-- A text without a character.
abbrev pub Lacks : ℕ → Text → Type 0
Lacks c s = All (λ d. d ≢ c) s

find_char-none : (c : ℕ) (s : Text) → find_char c s ≡ none → Lacks c s
unfolding find_char
find_char-none c [] h = tt
find_char-none c (d ∷ s) h = elim (Option-cases (find_char c s)) [
  | inl e ↦ (ground arith, find_char-none c s e)
  | inr (i, e) ↦ ground arith
]

-- A text is cut at the first of a character.
abbrev Cut : ℕ → Text → ℕ → Type 0
Cut c s i =
    Lacks c (take i s) × ((rest : Text) × (s ≡ take i s ++ c ∷ rest) × (drop i s ≡ c ∷ rest))

is_zero : {i : ℕ} → some 0 ≡ some i → 0 ≡ i
is_zero h = cc

is_after : {i j : ℕ} → some (suc j) ≡ some i → suc j ≡ i
is_after h = cc

no_place : {i : ℕ} → none ≡ some i → ⊥
no_place h = cc

find_char-some : (c i : ℕ) (s : Text) → find_char c s ≡ some i → Cut c s i
unfolding find_char
find_char-some c i [] h = absurd (no_place h)
find_char-some c i (d ∷ s) h = elim (Bool-cases (d == c)) [
  | inl here ↦
      let e : d ≡ c = ground arith in
      subst (Cut c (d ∷ s)) (is_zero (rw here at h)) (tt, (s, ap (λ x. x ∷ s) e, ap (λ x. x ∷ s) e))
  | inr there ↦ elim (Option-cases (find_char c s)) [
    | inl e ↦ absurd (no_place (rw (there, e) at h))
    | inr (j, e) ↦
        let (lacks, (rest, cut, dropped)) = find_char-some c j s e in
        let other : d ≢ c = ground arith in
        subst (Cut c (d ∷ s)) (is_after (rw (there, e) at h))
          ((other, lacks), (rest, ap (λ x. d ∷ x) cut, dropped))
  ]
]

-- The parameter of a URL that stands for a scheme.
abbrev pub IsParams : Text → Text → Type 0
IsParams scheme params =
    ((scheme ≡ linked_app_scheme_1_2) × (params ≡ codes "?lloc=service"))
    ⊎ ((scheme ≡ linked_app_scheme_2) × (params ≡ codes "?lloc=availability"))
    ⊎ ((scheme ≢ linked_app_scheme_1_2) × (scheme ≢ linked_app_scheme_2) × (params ≡ []))

not_both : {b : Bool} → b ≡ true → b ≡ false → ⊥
not_both h k = cc

differ_by : (s t : Text) → text_eq s t ≡ false → s ≢ t
differ_by s t h e = not_both (ap (text_eq s) (sym e) ∙ text_eq_refl s) h

url_params_from_app_scheme-IsParams :
    (scheme : Text) → IsParams scheme (url_params_from_app_scheme scheme)
unfolding url_params_from_app_scheme
url_params_from_app_scheme-IsParams scheme =
    elim (Bool-cases (text_eq scheme linked_app_scheme_1_2)) [
      | inl first ↦ rw first (inl (text_eq_sound scheme linked_app_scheme_1_2 first, refl))
      | inr other ↦ rw other (elim (Bool-cases (text_eq scheme linked_app_scheme_2)) [
        | inl second ↦ rw second (inr (inl (text_eq_sound scheme linked_app_scheme_2 second, refl)))
        | inr third ↦ rw third (
            inr (
              inr (
                differ_by scheme linked_app_scheme_1_2 other,
                differ_by scheme linked_app_scheme_2 third,
                refl,
              )))
      ])
    ]

-- The scheme and the URL that an update leaves, from the scheme of the description and the URLs before: without
-- a scheme there is none, and the URL stays; a scheme with parameters is cut there, and the entry URL gets
-- them; any other is taken, and the URL gets the parameter that stands for it.
abbrev pub Schemed : Text → Text → Text → Text → Text → Type 0
Schemed given entry_url before scheme loaded_url =
    ((given ≡ []) × (scheme ≡ []) × (loaded_url ≡ before))
    ⊎ ((params : Text) × Lacks b'?' scheme
        × (given ≡ scheme ++ b'?' ∷ params)
        × (loaded_url ≡ merge_url_params [] entry_url (b'?' ∷ params)))
    ⊎ ((params : Text) × (given ≢ [])
        × Lacks b'?' given
        × (scheme ≡ given)
        × IsParams given params
        × (loaded_url ≡ merge_url_params [] before params))

empty-nil : (s : Text) → is_empty s ≡ true → s ≡ []
empty-nil [] h = refl
empty-nil (c ∷ s) h = absurd (not_both h refl)

-- The scheme of a description changes the scheme and the loaded URL only.
pub with_scheme-Schemed :
    (desc : AitAppDesc) (a : HbbtvApp)
    → (s : Text) × (u : Text) × (with_scheme desc a ≡ record a { scheme = s; loaded_url = u })
      × Schemed desc.scheme a.entry_url a.loaded_url s u
unfolding with_scheme update_scheme get_scheme
with_scheme-Schemed desc a = elim (Bool-cases (is_empty desc.scheme)) [
  | inl h ↦ ([], a.loaded_url, rw h refl, inl (empty-nil desc.scheme h, refl, refl))
  | inr h ↦ elim (Option-cases (find_char b'?' desc.scheme)) [
    | inl none_found ↦
        let params = url_params_from_app_scheme desc.scheme in
        (
          desc.scheme,
          merge_url_params [] a.loaded_url params,
          rw h (rw (none_found, update_scheme) (rw (h, get_scheme) refl)),
          inr (
              inr (
                params,
                (λ e. not_both (ap is_empty e) h),
                find_char-none b'?' desc.scheme none_found,
                refl,
                url_params_from_app_scheme-IsParams desc.scheme,
                refl,
              )),
        )
    | inr (i, found) ↦
        let (lacks, (rest, cut, dropped)) = find_char-some b'?' i desc.scheme found in
        (
          take i desc.scheme,
          merge_url_params [] a.entry_url (drop i desc.scheme),
          rw h (rw (found, update_scheme) refl),
          inr (inl (rest, lacks, cut, ap (merge_url_params [] a.entry_url) dropped)),
        )
  ]
]

-- The names of the languages, each the last one of the description.
pub read_names-last :
    (code k : ℕ) (ns : List LangString) {names : List LangString}
    → read_names k ns [] ≡ some names
    → name_of code names ≡ last_name code (take k ns)
read_names-last code k ns h =
    name_of-read_names code k ns [] h ∙ or_none (last_name code (take k ns))
  where
    or_none : (o : Option Text) → or_name o none ≡ o
    or_none none = refl
    or_none (some name) = refl
