-- ===== src/Ait/Select/AutoStart.antt =====
-- Which application is started.
use orb_private.Prelude.{
  ℕ, zero, suc, ◌≤◌, ◌<◌, ◌≡◌, refl, subst, inl, inr, Bool, true, false, ◌&&◌, Option, none, some,
  List, [], ◌∷◌, ◌++◌, append_assoc, append-nil, >>=-eq-some, Bool-cases, length, All, All-append,
  All-map, arith,
}
use orb_private.Ait.{AitTable, AitAppDesc}
use orb_private.Ait.Select.{
  HbbtvVersion, ParentalControl, is_candidate, is_better, auto_start_loop, auto_start_app,
}
use orb_private.Ait.Select.Candidate.{Candidate, is_candidate-Candidate}

worse_than : (a b : Bool) → a ≡ true → (a && b) ≡ false → b ≡ false
worse_than true b h k = k
worse_than false b h k = cc

module _ (v : HbbtvVersion) (control : ParentalControl) where
  abbrev IsCandidate : AitAppDesc → Type 0
  IsCandidate = Candidate v control

  abbrev pub priority : AitAppDesc → ℕ
  priority a = a.app_desc.priority

  -- What is chosen among applications: with none chosen there is no candidate; a chosen one is a
  -- candidate, of a higher priority than those before it, and of one no lower than those behind it.
  abbrev pub Chosen : List AitAppDesc → Option AitAppDesc → Type 0
  Chosen apps none = All (λ b. IsCandidate b → ⊥) apps
  Chosen apps (some a) =
      (before : List AitAppDesc) × (after : List AitAppDesc) × (apps ≡ before ++ a ∷ after)
      × IsCandidate a
      × All (λ b. IsCandidate b → priority b < priority a) before
      × All (λ b. IsCandidate b → priority b ≤ priority a) after

  -- One more application that does not replace the choice.
  Chosen-keep :
      (seen : List AitAppDesc) (app : Option AitAppDesc) (b : AitAppDesc)
      → Chosen seen app
      → (IsCandidate b → is_better app b ≡ false)
      → Chosen (seen ++ b ∷ []) app
  Chosen-keep seen none b c worse = All-append _ seen (b ∷ []) c ((λ is. cc (worse is)), tt)
  Chosen-keep seen (some a) b (before, after, e, is, high, low) worse = (
    before,
    after ++ b ∷ [],
    rw e (append_assoc before (a ∷ after) (b ∷ [])),
    is,
    high,
    All-append _ after (b ∷ []) low ((λ isb. ground (arith, worse isb)), tt),
  )

  -- One that does.
  Chosen-take :
      (seen : List AitAppDesc) (app : Option AitAppDesc) (b : AitAppDesc)
      → Chosen seen app
      → IsCandidate b
      → is_better app b ≡ true
      → Chosen (seen ++ b ∷ []) (some b)
  Chosen-take seen none b c is better =
      (seen, [], refl, is, All-map (λ x never isx. absurd (never isx)) seen c, tt)
  Chosen-take seen (some a) b (before, after, e, isa, high, low) is better =
      let lt : priority a < priority b = ground arith in
      let all_lower : All (λ x. IsCandidate x → priority x < priority b) (before ++ a ∷ after) =
        All-append _ before (a ∷ after)
          (All-map (λ x lower isx. omega (arith, lower isx)) before high)
          ((λ _. lt), All-map (λ x no_higher isx. omega (arith, no_higher isx)) after low) in
      (seen, [], refl, is, rw e all_lower, tt)

  auto_start_loop-Chosen :
      (n : ℕ) (apps seen : List AitAppDesc) (app : Option AitAppDesc) {r : Option AitAppDesc}
      → length apps ≡ n
      → Chosen seen app
      → auto_start_loop v control app n apps ≡ some r
      → Chosen (seen ++ apps) r
  unfolding auto_start_loop
  auto_start_loop-Chosen zero [] seen app {r} len c h =
      let same : app ≡ r = ground arith in subst (Chosen (seen ++ [])) same (rw (append-nil seen) c)
  auto_start_loop-Chosen zero (b ∷ apps) seen app len c h = absurd (omega arith)
  auto_start_loop-Chosen (suc n) [] seen app len c h = absurd (omega arith)
  auto_start_loop-Chosen (suc n) (b ∷ apps) seen app {r} len c h =
      let (viable, asked, h') = >>=-eq-some (is_candidate v control b) _ {b = r} h in
      let asks = is_candidate-Candidate v control b viable asked in
      let regroup = append_assoc seen (b ∷ []) apps in
      elim (Bool-cases (viable && is_better app b)) [
        | inl better ↦
            subst (λ xs. Chosen xs r) regroup
              (auto_start_loop-Chosen n apps (seen ++ b ∷ []) (some b) (omega arith)
                (Chosen-take seen app b c (asks.0 (ground arith)) (ground arith)) (rw better at h'))
        | inr worse ↦
            subst (λ xs. Chosen xs r) regroup
              (auto_start_loop-Chosen n apps (seen ++ b ∷ []) app (omega arith)
                (Chosen-keep seen app b c
                  (λ is. worse_than viable (is_better app b) (asks.1 is) worse))
                (rw worse at h'))
      ]

  -- In a table whose array has as many applications as it counts, and where the search does not
  -- fault: the application that is started is a candidate of the highest priority, and the first in the
  -- table of those; nothing is started only if there is no candidate. A candidate is signalled as
  -- AUTOSTART, has the base profile in a version no higher than the build's, is not rated or has a rating
  -- of the user's region and age, and has a counted transport over HTTP or a carousel that has not failed.
  pub auto_start_app-Chosen :
      (table : AitTable) {r : Option AitAppDesc}
      → length table.app_array ≡ table.num_apps
      → auto_start_app v (some table) control ≡ some r
      → Chosen table.app_array r
  unfolding auto_start_app
  auto_start_app-Chosen table len h =
      auto_start_loop-Chosen table.num_apps table.app_array [] none len tt h
