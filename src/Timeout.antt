-- ===== src/Timeout.antt =====
-- components/application_manager/utils.cpp: class Utils::Timeout. Times are in milliseconds, and the
-- system clock is an argument. `m_cvm` is a std::mutex: a thread that locks it twice has no result
-- (`none`). The timer's thread holds it while it runs the callback, so `in_callback` says that the
-- caller holds it already.
use orb_private.Prelude.{
  ℕ, ◌-◌, ◌≡◌, Bool, true, false, Option, none, some, if◌then◌else◌, ◌>>=◌, arith,
}

pub record Timeout : Type 0 where
  pub joinable : Bool
  pub stopped : Bool
  pub timeout : ℕ
  pub start_timestamp : ℕ

abbrev pub new_timeout : Timeout
new_timeout = record { joinable = false; stopped = true; timeout = 0; start_timestamp = 0 }

-- Timeout::stop. A thread cannot join itself either.
unfoldable pub stop : Bool → Timeout → Option Timeout
stop in_callback t =
    if t.joinable
    then (if in_callback then none else some (record t { stopped = true; joinable = false }))
    else some t

-- Timeout::start
unfoldable pub start : Bool → ℕ → ℕ → Timeout → Option Timeout
unfolding stop
start in_callback now timeout t = do
  t' ← stop in_callback t
  some (record { joinable = true; stopped = false; timeout = timeout; start_timestamp = now })

-- Timeout::elapsed; `locked` says that the caller holds the mutex.
unfoldable pub elapsed : Bool → ℕ → Timeout → Option ℕ
elapsed locked now t =
    if locked then none else if t.stopped then some 0 else some (now - t.start_timestamp)

-- Timeout::remaining calls `elapsed` with the mutex locked.
unfoldable pub remaining : ℕ → Timeout → Option ℕ
unfolding elapsed
remaining now t = if t.stopped then some 0 else (do e ← elapsed true now t; some (t.timeout - e))

-- Timeout::isStopped
unfoldable pub is_stopped : Timeout → Bool
is_stopped t = t.stopped

-- The time that remains of a running timeout is never returned: the query locks the mutex twice.
pub remaining_running : (now : ℕ) (t : Timeout) → is_stopped t ≡ false → remaining now t ≡ none
unfolding remaining is_stopped
remaining_running now t h = ground arith
