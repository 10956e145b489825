-- ===== src/Ait/Select/Lookup.antt =====
-- Finding an application by its ids.
use orb_private.Prelude.{
  ℕ, zero, suc, ◌+◌, ◌≡◌, refl, ap, ◌∙◌, inl, inr, Bool, true, false, ◌&&◌, Option, none, some,
  List, [], ◌∷◌, ◌==◌, Bool-cases, length, All, arith,
}
use orb_private.Ait.{AitTable, AitAppDesc}
use orb_private.Ait.Select.{find_loop, find_app}

module _ (org_id app_id : ℕ) where
  -- The test that FindApp makes.
  abbrev pub has_ids : AitAppDesc → Bool
  has_ids app = app.org_id == org_id && app.app_id == app_id

  -- `i` is the first position of an application with these ids; `none`: no application has them.
  abbrev pub FirstAt : List AitAppDesc → Option ℕ → Type 0
  FirstAt apps none = All (λ app. has_ids app ≡ false) apps
  FirstAt [] (some i) = ⊥
  FirstAt (app ∷ apps) (some zero) = has_ids app ≡ true
  FirstAt (app ∷ apps) (some (suc i)) = (has_ids app ≡ false) × FirstAt apps (some i)

  abbrev shift : ℕ → Option ℕ → Option ℕ
  shift k none = none
  shift k (some i) = some (k + i)

  abbrev behind : Option ℕ → Option ℕ
  behind none = none
  behind (some i) = some (suc i)

  shift-behind : (k : ℕ) (r : Option ℕ) → shift (k + 1) r ≡ shift k (behind r)
  shift-behind k none = refl
  shift-behind k (some i) = ground arith

  FirstAt-behind :
      (app : AitAppDesc) (apps : List AitAppDesc) (r : Option ℕ)
      → has_ids app ≡ false
      → FirstAt apps r
      → FirstAt (app ∷ apps) (behind r)
  FirstAt-behind app apps none miss f = (miss, f)
  FirstAt-behind app apps (some i) miss f = (miss, f)

  find_loop-FirstAt :
      (k n : ℕ) (apps : List AitAppDesc)
      → length apps ≡ n
      → (r : Option ℕ) × (find_loop org_id app_id k n apps ≡ some (shift k r)) × FirstAt apps r
  unfolding find_loop
  find_loop-FirstAt k zero [] len = (none, refl, tt)
  find_loop-FirstAt k zero (app ∷ apps) len = absurd (omega arith)
  find_loop-FirstAt k (suc n) [] len = absurd (omega arith)
  find_loop-FirstAt k (suc n) (app ∷ apps) len = elim (Bool-cases (has_ids app)) [
    | inl hit ↦ (some 0, rw hit (ground arith), hit)
    | inr miss ↦
        let (r, e, f) = find_loop-FirstAt (k + 1) n apps (omega arith) in
        (behind r, rw miss (e ∙ ap some (shift-behind k r)), FirstAt-behind app apps r miss f)
  ]

  shift_zero : (r : Option ℕ) → shift 0 r ≡ r
  shift_zero none = refl
  shift_zero (some i) = ground arith

  -- In a table whose array has as many applications as it counts, FindApp does not fault; it
  -- gives the first application with both ids, and no application if none has them.
  pub find_app-FirstAt :
      (table : AitTable)
      → length table.app_array ≡ table.num_apps
      → (r : Option ℕ) × (find_app (some table) org_id app_id ≡ some r) × FirstAt table.app_array r
  unfolding find_app
  find_app-FirstAt table len =
      let (r, e, f) = find_loop-FirstAt 0 table.num_apps table.app_array len in
      (r, e ∙ ap some (shift_zero r), f)
