-- ===== src/ServiceManager.antt =====
-- components/network_services/service_manager.h and service_manager.cpp: the services that run, by id.
pub mod Starting
use orb_private.Prelude.{
  ℕ, zero, suc, ◌+◌, ◌-◌, Bool, true, false, not, Option, none, some, List, [], ◌∷◌, ◌++◌, ◌==◌,
  if◌then◌else◌,
}

-- The class of a service.
pub data Kind : Type 0 where
  wall_clock content_identification timeline_sync app2app : Kind

-- A service object, known by the number of its construction.
pub record Service : Type 0 where
  pub serial : ℕ
  pub kind : Kind

-- What is called on the services and on their callbacks.
pub data ServiceCall : Type 0 where
  stop_call on_stopped_call : ℕ → ServiceCall

-- The members, with the number of times that the recursive mutex is locked. An id without a service
-- has no entry, and `callbacks` has the services that have a callback.
pub record ServiceManager : Type 0 where
  pub max_services : ℕ
  pub services : ℕ → Option Service
  pub callbacks : ℕ → Bool
  pub lock_depth : ℕ
  pub next_serial : ℕ
  pub called : List ServiceCall

abbrev pub lock : ServiceManager → ServiceManager
lock m = record m { lock_depth = m.lock_depth + 1 }

abbrev pub unlock : ServiceManager → ServiceManager
unlock m = record m { lock_depth = m.lock_depth - 1 }

abbrev pub is_free : Option Service → Bool
is_free none = true
is_free (some s) = false

-- The loop from `i` over `n` ids.
unfoldable pub free_id : (ℕ → Option Service) → ℕ → ℕ → Option ℕ
free_id services zero i = none
free_id services (suc n) i =
    let rest = free_id services n (i + 1) in if is_free (services i) then some i else rest

-- ServiceManager::NewServiceId; `none` is -1.
unfoldable pub new_service_id : ServiceManager → Option ℕ
new_service_id m = free_id m.services m.max_services 0

abbrev pub set_service : ℕ → Option Service → (ℕ → Option Service) → ℕ → Option Service
set_service id s services j = if j == id then s else services j

abbrev pub set_callback : ℕ → Bool → (ℕ → Bool) → ℕ → Bool
set_callback serial is callbacks j = if j == serial then is else callbacks j

-- A service of a kind is made; `started` is what its Start returns.
unfoldable pub start_as : ℕ → Kind → Bool → ServiceManager → Option ℕ × ServiceManager
start_as id kind started m =
    if started
    then (
      some id,
      record m {
        services =
            set_service id (some (record { serial = m.next_serial; kind = kind })) m.services;
        callbacks = set_callback m.next_serial true m.callbacks;
        next_serial = m.next_serial + 1;
      },
    )
    else (none, record m { next_serial = m.next_serial + 1 })

unfoldable pub start_at : Kind → Bool → Option ℕ → ServiceManager → Option ℕ × ServiceManager
start_at kind started none m = (none, m)
start_at kind started (some id) m = start_as id kind started m

unfoldable pub start_kind : Kind → Bool → ServiceManager → Option ℕ × ServiceManager
start_kind kind started m = start_at kind started (new_service_id m) m

abbrev pub locked :
    (ServiceManager → Option ℕ × ServiceManager) → ServiceManager → Option ℕ × ServiceManager
locked act m = let r = act (lock m) in (r.0, unlock r.1)

-- StartWallClockService, StartContentIdentificationService and StartApp2AppService
unfoldable pub start_wall_clock_service : Bool → ServiceManager → Option ℕ × ServiceManager
start_wall_clock_service started = locked (start_kind wall_clock started)

unfoldable pub start_content_identification_service :
    Bool → ServiceManager → Option ℕ × ServiceManager
start_content_identification_service started = locked (start_kind content_identification started)

unfoldable pub start_app2app_service : Bool → ServiceManager → Option ℕ × ServiceManager
start_app2app_service started = locked (start_kind app2app started)

-- FindService<ContentIdentificationService>(id) != nullptr
abbrev pub is_content_identification : Option Service → Bool
is_content_identification none = false
is_content_identification (some s) = elim (s.kind) [ content_identification ↦ true | _ ↦ false ]

-- StartTimelineSyncService: the mutex is unlocked only where the service that it needs is found.
unfoldable pub start_timeline_sync_service : Bool → ℕ → ServiceManager → Option ℕ × ServiceManager
start_timeline_sync_service started cii m =
    if is_content_identification (m.services cii)
    then locked (start_kind timeline_sync started) m
    else (none, lock m)

-- ServiceManager::StopService
unfoldable pub stop_service : ℕ → ServiceManager → ServiceManager
stop_service id m = elim (m.services id) [
  | none ↦ m
  | some s ↦ record m { called = m.called ++ stop_call s.serial ∷ [] }
]

-- ServiceManager::FindServiceId, over the `n` ids from `i` on.
unfoldable pub find_service_id : ℕ → (ℕ → Option Service) → ℕ → ℕ → Option ℕ
find_service_id serial services zero i = none
find_service_id serial services (suc n) i =
    let rest = find_service_id serial services n (i + 1) in
    elim (services i) [ none ↦ rest | some s ↦ if s.serial == serial then some i else rest ]

-- ServiceManager::OnServiceStopped
unfoldable pub on_service_stopped : ℕ → ServiceManager → ServiceManager
on_service_stopped serial m =
    let m1 =
      if m.callbacks serial
      then record m { called = m.called ++ on_stopped_call serial ∷ [] }
      else m in
    elim (find_service_id serial m.services m.max_services 0) [
      | none ↦ m1
      | some id ↦ record m1 {
        services = set_service id none m.services;
        callbacks = set_callback serial false m.callbacks;
      }
    ]

-- The start of a service of each kind.
unfoldable pub start_service : Kind → Bool → ℕ → ServiceManager → Option ℕ × ServiceManager
start_service wall_clock started cii = start_wall_clock_service started
start_service content_identification started cii = start_content_identification_service started
start_service timeline_sync started cii = start_timeline_sync_service started cii
start_service app2app started cii = start_app2app_service started
