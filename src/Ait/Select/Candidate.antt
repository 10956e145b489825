-- ===== src/Ait/Select/Candidate.antt =====
-- What it takes to be started: the tests of AutoStartApp, each as a proposition of its own.
use orb_private.Prelude.{
  Reflects, Reflects-and, Reflects-or, text_eq-Reflects, ℕ, zero, suc, ◌≤◌, ◌<◌, ◌≡◌, ◌⊎◌, inl, inr,
  refl, sym, ap, ◌∙◌, Bool, true, false, not, ◌&&◌, ◌||◌, some, List, [], ◌∷◌, map, Text, codes,
  to_lower, leb, ◌==◌, ==_iff, if◌then◌else◌, length, take, Any, Bool-cases, arith,
}
use orb_private.Ait.{TransportProtocolDesc, AppProfile, ParentalRating, AitAppDesc}
use orb_private.Ait.Select.{
  HbbtvVersion, ParentalControl, c_str, strcasecmp_eq, allows, restricted_loop, is_age_restricted,
  version_supported, is_supported, has_viable_transport, is_candidate,
}

not_both : {b : Bool} → b ≡ true → b ≡ false → ⊥
not_both h k = cc

some_bool : {a b : Bool} → some a ≡ some b → a ≡ b
some_bool h = cc

-- A version of the major, minor and micro numbers that is not above another.
abbrev pub NotAbove : AppProfile → HbbtvVersion → Type 0
NotAbove p v =
    (p.version_major < v.major)
    ⊎ ((p.version_major ≡ v.major) × (p.version_minor < v.minor))
    ⊎ ((p.version_major ≡ v.major) × (p.version_minor ≡ v.minor) × (p.version_micro ≤ v.micro))

-- The base profile, of a version that is implemented.
abbrev pub Supported : HbbtvVersion → AppProfile → Type 0
Supported v p = NotAbove p v × (p.app_profile ≡ 0)

-- Two texts up to the first NUL, in any case.
abbrev pub SameRegion : Text → Text → Type 0
SameRegion s t = map to_lower (c_str s) ≡ map to_lower (c_str t)

-- A rating of the DVB scheme and of the user's region that the user is old enough for.
abbrev pub Allows : ParentalControl → ParentalRating → Type 0
Allows control pr =
    (pr.scheme ≡ codes "dvb-si")
    × (((length pr.region ≡ 2) × SameRegion pr.region control.region)
        ⊎ ((length pr.region ≡ 3) × SameRegion pr.region control.region3))
    × (pr.value ≤ control.age)

abbrev pub NotRestricted : ParentalControl → List ParentalRating → Type 0
NotRestricted control prs = (prs ≡ []) ⊎ Any (Allows control) prs

-- HTTP (3) or a carousel (1), which has not failed.
abbrev pub Viable : TransportProtocolDesc → Type 0
Viable t = ((t.protocol_id ≡ 3) ⊎ (t.protocol_id ≡ 1)) × (t.failed_to_load ≡ false)

-- An application that may be started: its control code is AUTOSTART (1).
abbrev pub Candidate : HbbtvVersion → ParentalControl → AitAppDesc → Type 0
Candidate v control a =
    (a.control_code ≡ 1)
    × Any (Supported v) a.app_desc.app_profiles
    × NotRestricted control a.parental_ratings
    × Any Viable (take a.num_transports a.transport_array)

version_supported-Reflects :
    (v : HbbtvVersion) (p : AppProfile) → Reflects (version_supported v p) (NotAbove p v)
unfolding version_supported
version_supported-Reflects v p = ground arith

-- A loop that ends with true at the first element that passes a test.
Reflects-first :
    (b : Bool) (rest : Bool) {P Q : Type 0}
    → Reflects b P
    → Reflects rest Q
    → Reflects (if b then true else rest) (P ⊎ Q)
Reflects-first true rest p q = (λ h. inl (p.0 refl), λ h. refl)
Reflects-first false rest p q =
    (λ h. inr (q.0 h), elim [ inl h ↦ absurd (cc (p.1 h)) | inr h ↦ q.1 h ])

is_supported-Reflects :
    (v : HbbtvVersion) (ps : List AppProfile) → Reflects (is_supported v ps) (Any (Supported v) ps)
unfolding is_supported
is_supported-Reflects v [] = (λ h. cc, λ h. elim h [ ])
is_supported-Reflects v (p ∷ ps) =
    Reflects-first (version_supported v p && p.app_profile == 0) (is_supported v ps)
      (Reflects-and (version_supported v p) (p.app_profile == 0) (version_supported-Reflects v p)
        (==_iff p.app_profile 0))
      (is_supported-Reflects v ps)

leb-Reflects : (m n : ℕ) → Reflects (leb m n) (m ≤ n)
leb-Reflects m n = ground arith

allows-Reflects :
    (control : ParentalControl) (pr : ParentalRating)
    → Reflects (allows control pr) (Allows control pr)
unfolding allows strcasecmp_eq
allows-Reflects control pr =
    let region = λ (n : ℕ) (s : Text).
      Reflects-and (length pr.region == n) (strcasecmp_eq pr.region s) (==_iff (length pr.region) n)
        (text_eq-Reflects (map to_lower (c_str pr.region)) (map to_lower (c_str s))) in
    let both =
      Reflects-and _ _
        (Reflects-and _ _ (text_eq-Reflects pr.scheme (codes "dvb-si"))
          (Reflects-or _ _ (region 2 control.region) (region 3 control.region3)))
        (leb-Reflects pr.value control.age) in
    (
      λ h. let ((scheme, place), age) = both.0 h in (scheme, place, age),
      λ (scheme, place, age). both.1 ((scheme, place), age),
    )

-- The loop over the ratings, from a restriction: whether none of them allows the application.
restricted_loop-Reflects :
    (control : ParentalControl) (r : Bool) (prs : List ParentalRating)
    → Reflects (not (restricted_loop control r prs)) ((r ≡ false) ⊎ Any (Allows control) prs)
unfolding restricted_loop
restricted_loop-Reflects control true [] = (λ h. cc, elim [ inl h ↦ cc | inr h ↦ elim h [ ] ])
restricted_loop-Reflects control false [] = (λ h. inl refl, λ h. refl)
restricted_loop-Reflects control r (pr ∷ prs) =
    let allow = allows-Reflects control pr in
    let loop = restricted_loop-Reflects control (if allows control pr then false else r) prs in
    elim (Bool-cases (allows control pr)) [
      | inl yes' ↦
          (λ h. inr (inl (allow.0 yes')), λ h. loop.1 (inl (ap (λ b. if b then false else r) yes')))
      | inr no' ↦
          let kept = ap (λ b. if b then false else r) no' in
          (
            λ h. elim (loop.0 h) [ inl e ↦ inl (sym kept ∙ e) | inr e ↦ inr (inr e) ],
            elim [
              | inl e ↦ loop.1 (inl (kept ∙ e))
              | inr (inl e) ↦ absurd (not_both (allow.1 e) no')
              | inr (inr e) ↦ loop.1 (inr e)
            ],
          )
    ]

NotRestricted-Reflects :
    (control : ParentalControl) (prs : List ParentalRating)
    → Reflects (not (is_age_restricted prs control)) (NotRestricted control prs)
unfolding is_age_restricted
NotRestricted-Reflects control [] = (λ h. inl refl, λ h. refl)
NotRestricted-Reflects control (pr ∷ prs) =
    let loop = restricted_loop-Reflects control true (pr ∷ prs) in
    (
      λ h. elim (loop.0 h) [ inl e ↦ absurd (not_both refl e) | inr e ↦ inr e ],
      elim [ inl e ↦ cc | inr e ↦ loop.1 (inr e) ],
    )

Viable-Reflects :
    (t : TransportProtocolDesc)
    → Reflects ((t.protocol_id == 3 || t.protocol_id == 1) && not t.failed_to_load) (Viable t)
Viable-Reflects t = ground arith

has_viable_transport-Reflects :
    (n : ℕ) (ts : List TransportProtocolDesc) (b : Bool)
    → has_viable_transport n ts ≡ some b
    → Reflects b (Any Viable (take n ts))
unfolding has_viable_transport
has_viable_transport-Reflects zero ts b h = (λ is. cc, λ k. elim k [ ])
has_viable_transport-Reflects (suc n) [] b h = cc
has_viable_transport-Reflects (suc n) (t ∷ ts) b h =
    let viable = (t.protocol_id == 3 || t.protocol_id == 1) && not t.failed_to_load in
    elim (Bool-cases viable) [
      | inl yes' ↦ (λ is. inl ((Viable-Reflects t).0 yes'), λ k. some_bool (sym (rw yes' at h)))
      | inr no' ↦
          let rest = has_viable_transport-Reflects n ts b (rw no' at h) in
          (
            λ is. inr (rest.0 is),
            elim [ inl k ↦ absurd (not_both ((Viable-Reflects t).1 k) no') | inr k ↦ rest.1 k ],
          )
    ]

-- Where the test of an application does not fault, it says whether that may be started.
pub is_candidate-Candidate :
    (v : HbbtvVersion) (control : ParentalControl) (a : AitAppDesc) (b : Bool)
    → is_candidate v control a ≡ some b
    → Reflects b (Candidate v control a)
unfolding is_candidate
is_candidate-Candidate v control a b h =
    let first =
      Reflects-and _ _
        (Reflects-and _ _ (==_iff a.control_code 1)
          (is_supported-Reflects v a.app_desc.app_profiles))
        (NotRestricted-Reflects control a.parental_ratings) in
    let tests =
      a.control_code == 1
      && is_supported v a.app_desc.app_profiles
      && not (is_age_restricted a.parental_ratings control) in
    elim (Bool-cases tests) [
      | inl yes' ↦
          let ((code, profile), rating) = first.0 yes' in
          let last =
            has_viable_transport-Reflects a.num_transports a.transport_array b (rw yes' at h) in
          (λ is. (code, profile, rating, last.0 is), λ (_, _, _, k). last.1 k)
      | inr no' ↦
          let off : false ≡ b = some_bool (rw no' at h) in
          (
            λ is. absurd (not_both is (sym off)),
            λ (code, profile, rating, k). absurd (not_both (first.1 ((code, profile), rating)) no'),
          )
    ]
