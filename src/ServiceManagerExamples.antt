-- ===== src/ServiceManagerExamples.antt =====
-- The theorems on the service manager where one service runs already.
use orb_private.Prelude.{◌≡◌, refl, true, none, some, [], ◌==◌}
use orb_private.ServiceManager.{
  wall_clock, app2app, ServiceManager, set_service, free_id, new_service_id, start_as, start_at,
  start_kind, start_wall_clock_service, start_service,
}
use orb_private.ServiceManager.Starting.{Starts, start_service-Starts}

abbrev manager : ServiceManager
manager = record {
  max_services = 3;
  services = set_service 0 (some (record { serial = 7; kind = app2app })) (λ id. none);
  callbacks = λ serial. serial == 7;
  lock_depth = 0;
  next_serial = 8;
  called = [];
}

abbrev with_wall_clock : ServiceManager
with_wall_clock = (start_service wall_clock true 0 manager).1

wall_clock_run : start_service wall_clock true 0 manager ≡ (some 1, with_wall_clock)
unfolding start_service start_wall_clock_service start_kind start_at start_as new_service_id free_id
wall_clock_run = refl

start_service-Starts_example : Starts wall_clock manager with_wall_clock 1
start_service-Starts_example =
    start_service-Starts wall_clock true 0 manager with_wall_clock 1 wall_clock_run
