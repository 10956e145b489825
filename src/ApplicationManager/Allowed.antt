-- ===== src/ApplicationManager/Allowed.antt =====
-- components/application_manager/application_manager.cpp: which requests IsRequestAllowed allows.
use orb_private.Prelude.{
  ℕ, ◌≡◌, ◌↔◌, refl, sym, subst, ◌∙◌, inl, inr, Bool, true, false, not, ◌||◌, none, some, Text,
  codes, ◌==◌, ==_refl, if◌then◌else◌, Bool-cases, Option-cases, is_empty, arith,
}
use orb_private.Ait.{DvbTriplet}
use orb_private.Url.{compare_urls}
use orb_private.Url.Origin.{check_boundaries}
use orb_private.Url.Locator.{is_invalid_dvb_triplet}
use orb_private.HbbtvApp.{HbbtvApp}
use orb_private.ApplicationManager.{App, base, lookup, ApplicationManager}
use orb_private.ApplicationManager.Invariant.Ownership.{same_id}
use orb_private.ApplicationManager.Requests.{
  MethodRequirement, for_running_app_only, for_broadcast_app_only,
  for_broadcast_or_transitioning_app_only, for_trusted_app_only, meets, is_request_allowed,
}

opposite : false ≡ true → ⊥
opposite h = cc

clash : {A : Type 0} {a : A} → some a ≡ none → ⊥
clash h = cc

some_inj : {A : Type 0} {a b : A} → some a ≡ some b → a ≡ b
some_inj h = cc

-- What a method requires of the running application and of the page that calls.
abbrev pub Meets : MethodRequirement → Text → DvbTriplet → HbbtvApp → Type 0
Meets for_running_app_only url service a = Unit
Meets for_broadcast_app_only url service a = a.is_broadcast ≡ true
Meets for_broadcast_or_transitioning_app_only url service a = is_invalid_dvb_triplet service ≡ false
Meets for_trusted_app_only url service a =
    (check_boundaries url a.entry_url a.ait_desc.boundaries ≡ true) × (a.is_trusted ≡ true)

meets_iff :
    (requirement : MethodRequirement) (url : Text) (service : DvbTriplet) (a : HbbtvApp)
    → (meets requirement url service a ≡ true) ↔ Meets requirement url service a
unfolding meets
meets_iff for_running_app_only url service a = (λ _. tt, λ _. refl)
meets_iff for_broadcast_app_only url service a = (λ h. h, λ h. h)
meets_iff for_broadcast_or_transitioning_app_only url service a =
    (λ h. ground arith, λ h. ground arith)
meets_iff for_trusted_app_only url service a =
    elim (Bool-cases (check_boundaries url a.entry_url a.ait_desc.boundaries)) [
      | inl within ↦ rw within (λ h. (refl, h), λ (_, h). h)
      | inr beyond ↦ rw beyond (λ h. absurd (opposite h), λ (h, _). absurd (opposite h))
    ]

-- The running HbbTV application is the one that calls, from a page that has a URL.
pub record Caller (id : ℕ) (url : Text) (requirement : MethodRequirement) (m : ApplicationManager)
    (app : App) : Type 0 where
  pub running : lookup m.hbbtv_app_id m.apps ≡ some app
  pub calls : m.hbbtv_app_id ≡ id
  pub has_url : is_empty url ≡ false
  pub not_blank : compare_urls url (codes "about:blank") ≡ false
  pub fits : Meets requirement url m.current_service (base app)

-- The tests in the order of the code.
allowed_by : Bool → Bool → Bool → Bool → Bool
allowed_by same empty blank ok = if not same then false else if empty || blank then false else ok

allowed_by_iff :
    (same empty blank ok : Bool)
    → (allowed_by same empty blank ok ≡ true)
      ↔ ((same ≡ true) × (empty ≡ false) × (blank ≡ false) × (ok ≡ true))
unfolding allowed_by
allowed_by_iff false empty blank ok = (λ h. absurd (opposite h), λ r. absurd (opposite r.0))
allowed_by_iff true true blank ok = (λ h. absurd (opposite h), λ r. absurd (opposite (sym r.1)))
allowed_by_iff true false true ok = (λ h. absurd (opposite h), λ r. absurd (opposite (sym r.2)))
allowed_by_iff true false false ok = (λ h. (refl, refl, refl, h), λ r. r.3)

-- A request is allowed exactly if the application that calls is the running HbbTV application, the URL
-- of its page is neither empty nor about:blank, and the application meets the method's requirement: to
-- be broadcast-related; to run while a service is selected; or to be trusted, with the page inside its
-- boundaries.
pub is_request_allowed_iff :
    (id : ℕ) (url : Text) (requirement : MethodRequirement) (m : ApplicationManager)
    → (is_request_allowed id url requirement m ≡ true)
      ↔ ((app : App) × Caller id url requirement m app)
unfolding is_request_allowed allowed_by
is_request_allowed_iff id url requirement m =
    let blank = compare_urls url (codes "about:blank") in
    elim (Option-cases (lookup m.hbbtv_app_id m.apps)) [
      | inl missing ↦
          rw (is_request_allowed, missing)
            (λ h. absurd (opposite h), λ (app, c). absurd (clash (sym c.running ∙ missing)))
      | inr (app, found) ↦
          let tests =
            allowed_by_iff (m.hbbtv_app_id == id) (is_empty url) blank
              (meets requirement url m.current_service (base app)) in
          let fits = meets_iff requirement url m.current_service (base app) in
          rw (is_request_allowed, found)
            (
              λ h.
                  let (same, has_url, not_blank, ok) = tests.0 h in
                  (
                    app,
                    record {
                      running = found;
                      calls = same_id same;
                      has_url = has_url;
                      not_blank = not_blank;
                      fits = fits.0 ok;
                    },
                  ),
              λ (app', c).
                  let same : app' ≡ app = some_inj (sym c.running ∙ found) in
                  tests.1 (
                    subst (λ k. (m.hbbtv_app_id == k) ≡ true) c.calls (==_refl m.hbbtv_app_id),
                    c.has_url,
                    c.not_blank,
                    fits.1
                        (subst (λ b. Meets requirement url m.current_service (base b)) same c.fits),
                  ),
            )
    ]
