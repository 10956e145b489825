-- ===== src/ApplicationManager.antt =====
-- components/application_manager/application_manager.h: the state of the application manager, the
-- answers of its session callback, and the actions that its methods are made of.
pub mod Running
pub mod Signalling
pub mod Requests
pub mod Invariant
pub mod Allowed
pub mod Outcome
pub mod Reachable
use orb_private.Prelude.{
  ℕ, zero, suc, Bool, true, false, not, ◌&&◌, Option, none, some, List, [], ◌∷◌, ◌++◌, Text, ◌==◌,
  if◌then◌else◌,
}
use orb_private.Timeout.{Timeout, new_timeout}
use orb_private.Ait.{Ait, AppProfile, DvbTriplet}
use orb_private.Ait.Select.{HbbtvVersion, ParentalControl}
use orb_private.XmlAit.{Node}
use orb_private.Url.Locator.{invalid_dvb_triplet}
use orb_private.HbbtvApp.{HbbtvApp, Event}
use orb_private.OpApp.{OpApp}

-- INVALID_APP_ID
abbrev pub invalid_app_id : ℕ
invalid_app_id = 0

-- A running application, by its class.
pub data App : Type 0 where
  hbbtv_app : HbbtvApp → App
  op_app : OpApp → App

-- The part that is an HbbTVApp.
abbrev pub base : App → HbbtvApp
base (hbbtv_app a) = a
base (op_app o) = o.app

abbrev pub with_base : HbbtvApp → App → App
with_base a (hbbtv_app b) = hbbtv_app a
with_base a (op_app o) = op_app (record o { app = a })

-- GetType() == OPAPP_TYPE
abbrev pub is_op_app : App → Bool
is_op_app (hbbtv_app a) = false
is_op_app (op_app o) = true

-- `m_apps`, an unordered map from ids.
abbrev pub Apps : Type 0
Apps = List (ℕ × App)

unfoldable pub lookup : ℕ → Apps → Option App
lookup k [] = none
lookup k ((j, a) ∷ apps) = if j == k then some a else lookup k apps

unfoldable pub erase : ℕ → Apps → Apps
erase k [] = []
erase k ((j, a) ∷ apps) = let rest = erase k apps in if j == k then rest else (j, a) ∷ rest

-- m_apps[k] = a
abbrev pub insert : ℕ → App → Apps → Apps
insert k a apps = (k, a) ∷ erase k apps

-- The calls of the session callback that the manager makes, and those of its applications.
pub data Call : Type 0 where
  load_application : ℕ → Text → List ℕ → Call
  show_application hide_application : ℕ → Call
  stop_broadcast reset_broadcast_presentation application_load_error : Call
  of_app : Event → Call

-- What is outside of the manager, for one request: the build's version, the answers of the session
-- callback, the reader of XML documents, what the stack has where the XML AIT's parser leaves a
-- variable unset, std::stoul with base 16, and the clock.
pub record Session : Type 0 where
  pub version : HbbtvVersion
  pub control : ParentalControl
  pub is_instance_in_current_service : DvbTriplet → Bool
  pub get_xml_ait_contents : Text → Text
  pub read_memory : Text → Option Node
  pub indeterminate : AppProfile
  pub stoul : Text → Option ℕ
  pub now : ℕ

-- The members, the counter `g_id`, and the calls made so far.
pub record ApplicationManager : Type 0 where
  pub ait : Ait
  pub apps : Apps
  pub hbbtv_app_id : ℕ  -- int
  pub op_app_id : ℕ  -- int
  pub current_service : DvbTriplet
  pub previous_service : DvbTriplet
  pub current_service_received_first_ait : Bool
  pub current_service_ait_pid : ℕ  -- uint16
  pub is_network_available : Bool
  pub ait_timeout : Timeout
  pub last_id : ℕ  -- int
  pub calls : List Call

abbrev pub new_manager : ApplicationManager
new_manager = record {
  ait = record { ait = none; ait_completed = none; is_shared = false };
  apps = [];
  hbbtv_app_id = invalid_app_id;
  op_app_id = invalid_app_id;
  current_service = invalid_dvb_triplet;
  previous_service = invalid_dvb_triplet;
  current_service_received_first_ait = false;
  current_service_ait_pid = 0;
  is_network_available = false;
  ait_timeout = new_timeout;
  last_id = 0;
  calls = [];
}

-- A method: it changes the manager and returns a value, or faults (`none`), where the code has
-- undefined behaviour or never returns.
abbrev pub Action : Type 0 → Type 0
Action A = ApplicationManager → Option (A × ApplicationManager)

abbrev pub pure : {A : Type 0} → A → Action A
pure a m = some (a, m)

abbrev pub fault : {A : Type 0} → Action A
fault m = none

abbrev pub lift : {A : Type 0} → Option A → Action A
lift none m = none
lift (some a) m = some (a, m)

abbrev pub gets : {A : Type 0} → (ApplicationManager → A) → Action A
gets f m = some (f m, m)

abbrev pub modify : (ApplicationManager → ApplicationManager) → Action (Unit {0})
modify f m = some (tt, f m)

infixl 5 ◌>>=◌ ◌>>◌
abbrev pub ◌>>=◌ : {A B : Type 0} → Action A → (A → Action B) → Action B
◌>>=◌ act f m = elim (act m) [ none ↦ none | some (a, m') ↦ f a m' ]

abbrev pub ◌>>◌ : {B : Type 0} → Action (Unit {0}) → Action B → Action B
act >> k = act >>= λ _. k

abbrev pub when : Bool → Action (Unit {0}) → Action (Unit {0})
when c act = if c then act else pure tt

-- A value that may be a null pointer.
abbrev pub or_else : {A B : Type 0} → Option A → Action B → (A → Action B) → Action B
or_else none missing present = missing
or_else (some a) missing present = present a

abbrev pub call : Call → Action (Unit {0})
call c = modify (λ m. record m { calls = m.calls ++ c ∷ [] })

unfoldable pub calls_of : List Event → List Call
calls_of [] = []
calls_of (e ∷ es) = of_app e ∷ calls_of es

abbrev pub call_events : List Event → Action (Unit {0})
call_events es = modify (λ m. record m { calls = m.calls ++ calls_of es })

-- m_apps.count(k) > 0
abbrev pub is_some : Option App → Bool
is_some none = false
is_some (some a) = true

abbrev pub has_app : ℕ → Action Bool
has_app k = gets (λ m. is_some (lookup k m.apps))

-- m_apps[k], through which a call faults if there is none.
abbrev pub app_at : ℕ → Action App
app_at k m = lift (lookup k m.apps) m

abbrev pub put_app : ℕ → App → Action (Unit {0})
put_app k a = modify (λ m. record m { apps = insert k a m.apps })

abbrev pub hbbtv_id : Action ℕ
hbbtv_id = gets (λ m. m.hbbtv_app_id)
