-- ===== src/ServiceManager/Starting.antt =====
-- What starting a service makes of the services.
use orb_private.Prelude.{
  ℕ, zero, suc, ◌+◌, ◌<◌, ◌≤◌, ◌≡◌, refl, ap, inl, inr, Bool, true, false, Option, none, some, ◌==◌,
  ==_refl, ==_iff, subst, Bool-cases, arith,
}
use orb_private.ServiceManager.{
  Kind, wall_clock, Service, ServiceManager, lock, unlock, is_free, free_id, new_service_id,
  start_as, start_kind, locked, start_wall_clock_service, start_content_identification_service,
  start_timeline_sync_service, start_app2app_service, start_service, start_at,
  content_identification, timeline_sync, app2app, is_content_identification,
}

some_inj : {A : Type 0} {a b : A} → some a ≡ some b → a ≡ b
some_inj h = cc

clash : {A : Type 0} {a : A} → none ≡ some a → ⊥
clash h = cc

le_of : {i id : ℕ} → i + 1 ≤ id → i ≤ id
le_of h = omega arith

lt_of : (n i : ℕ) {id : ℕ} → id < (i + 1) + n → id < i + suc n
lt_of n i h = omega arith

zero_plus : (n : ℕ) → 0 + n ≡ n
zero_plus n = omega arith

past : {i j : ℕ} → (i == j) ≡ false → i ≤ j → i + 1 ≤ j
past far le = ground arith

-- The id is the least one that is free.
pub record IsLeastFree (services : ℕ → Option Service) (from bound id : ℕ) : Type 0 where
  pub from_on : from ≤ id
  pub bounded : id < bound
  pub free : is_free (services id) ≡ true
  pub least : (j : ℕ) → from ≤ j → j < id → is_free (services j) ≡ false

free_id-IsLeastFree :
    (services : ℕ → Option Service) (n i id : ℕ)
    → free_id services n i ≡ some id
    → IsLeastFree services i (i + n) id
unfolding free_id
free_id-IsLeastFree services zero i id h = absurd (clash h)
free_id-IsLeastFree services (suc n) i id h = elim (Bool-cases (is_free (services i))) [
  | inl free ↦
      let here : i ≡ id = some_inj (rw free at h) in
      subst (IsLeastFree services i (i + suc n)) here (record {
        from_on = omega arith;
        bounded = omega arith;
        free = free;
        least = λ j le lt. absurd (omega arith);
      })
  | inr taken ↦
      let rest = free_id-IsLeastFree services n (i + 1) id (rw taken at h) in
      record {
        from_on = le_of (rest.from_on);
        bounded = lt_of n i (rest.bounded);
        free = rest.free;
        least = λ j le lt. elim (Bool-cases (i == j)) [
          | inl is ↦ subst (λ k. is_free (services k) ≡ false) ((==_iff i j).0 is) taken
          | inr far ↦ rest.least j (past far le) lt
        ];
      }
]

-- What is so after a service has been started with an id: the id was the least free one, the service is
-- found by it, all other ids have what they had, and the mutex is locked as often as before.
pub record Starts (kind : Kind) (m m' : ServiceManager) (id : ℕ) : Type 0 where
  pub fresh : IsLeastFree m.services 0 m.max_services id
  pub found : m'.services id ≡ some (record { serial = m.next_serial; kind = kind })
  pub others : (j : ℕ) → (j == id) ≡ false → m'.services j ≡ m.services j
  pub lock_depth : m'.lock_depth ≡ m.lock_depth

Starts-start_as :
    (id : ℕ) (kind : Kind) (started : Bool) (m : ServiceManager) (given : ℕ)
    → IsLeastFree m.services 0 m.max_services id
    → (start_as id kind started (lock m)).0 ≡ some given
    → Starts kind m (unlock (start_as id kind started (lock m)).1) given
unfolding start_as
Starts-start_as id kind false m given free h = absurd (clash h)
Starts-start_as id kind true m given free h =
    subst (λ i. Starts kind m (unlock (start_as id kind true (lock m)).1) i) (some_inj h)
      (record {
        fresh = free;
        found = rw (==_refl id) refl;
        others = λ j far. rw far refl;
        lock_depth = omega arith;
      })

Starts-start_at :
    (o : Option ℕ) (kind : Kind) (started : Bool) (m m' : ServiceManager) (id : ℕ)
    → free_id m.services m.max_services 0 ≡ o
    → locked (start_at kind started o) m ≡ (some id, m')
    → Starts kind m m' id
unfolding start_at
Starts-start_at none kind started m m' id e h = absurd (clash (ap (λ r. r.0) h))
Starts-start_at (some new) kind started m m' id e h =
    subst (λ x. Starts kind m x id) (ap (λ r. r.1) h)
      (Starts-start_as new kind started m id
        (subst (λ b. IsLeastFree m.services 0 b new) (zero_plus m.max_services)
          (free_id-IsLeastFree m.services m.max_services 0 new e))
        (ap (λ r. r.0) h))

start_kind-Starts :
    (kind : Kind) (started : Bool) (m m' : ServiceManager) (id : ℕ)
    → locked (start_kind kind started) m ≡ (some id, m')
    → Starts kind m m' id
unfolding start_kind new_service_id
start_kind-Starts kind started m m' id h =
    Starts-start_at (free_id m.services m.max_services 0) kind started m m' id refl h

-- Where a service of any of the four kinds is started and its id is returned, the id was the least
-- that was free, below the number of services; the service is found by it; all other ids have what they
-- had; and the mutex is locked as often as before.
pub start_service-Starts :
    (kind : Kind) (started : Bool) (cii : ℕ) (m m' : ServiceManager) (id : ℕ)
    → start_service kind started cii m ≡ (some id, m')
    → Starts kind m m' id
unfolding start_service start_wall_clock_service start_content_identification_service
    start_timeline_sync_service start_app2app_service
start_service-Starts wall_clock started cii m m' id h =
    start_kind-Starts wall_clock started m m' id h
start_service-Starts content_identification started cii m m' id h =
    start_kind-Starts content_identification started m m' id h
start_service-Starts app2app started cii m m' id h = start_kind-Starts app2app started m m' id h
start_service-Starts timeline_sync started cii m m' id h =
    elim (Bool-cases (is_content_identification (m.services cii))) [
      | inl found ↦ start_kind-Starts timeline_sync started m m' id (rw found at h)
      | inr missing ↦
          let none_given : (none, lock m) ≡ (some id, m') = rw missing at h in
          absurd (clash (ap (λ (r : Option ℕ × ServiceManager). r.0) none_given))
    ]

-- A timeline synchronisation service that does not find its content identification service is not
-- started, and leaves the mutex locked once more than it was.
pub start_timeline_sync_service-locked :
    (started : Bool) (cii : ℕ) (m : ServiceManager)
    → is_content_identification (m.services cii) ≡ false
    → start_timeline_sync_service started cii m ≡ (none, record m { lock_depth = m.lock_depth + 1 })
unfolding start_timeline_sync_service
start_timeline_sync_service-locked started cii m missing = rw missing refl
