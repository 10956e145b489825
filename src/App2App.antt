-- ===== src/App2App.antt =====
-- components/network_services/app2app: the service that pairs a connection of a local application with one
-- of a remote application that has the same application endpoint.
pub mod Pairing
pub mod Equations
pub mod Invariant
pub mod Events
pub mod Relay
use orb_private.Prelude.{
  ℕ, Bool, true, false, not, ◌||◌, Option, none, some, List, [], ◌∷◌, ◌++◌, Text, codes, text_eq,
  find, drop, is_empty, ◌==◌, if◌then◌else◌,
}
use orb_private.WebSocket.{Fragment}

-- The service that a connection belongs to, which is the type of a waiting connection.
pub data Side : Type 0 where
  local remote : Side

abbrev pub other : Side → Side
other local = remote
other remote = local

-- LOCAL_TYPE, REMOTE_TYPE
abbrev pub type_name : Side → Text
type_name local = codes "local"
type_name remote = codes "remote"

abbrev pub pairing_completed_message : Text
pairing_completed_message = codes "pairingcompleted"

-- What is called on the connections and the services. A connection is known by a number.
pub data Sent : Type 0 where
  send_message : ℕ → Text → Sent
  send_fragment : ℕ → Fragment → Sent
  close : ℕ → Sent
  stop_remote_service stop_service service_stopped manager_service_stopped : Sent

-- The members, with `paired_connection_` of every connection. A key without an entry in
-- `waiting_connections_` has the empty queue.
pub record App2App : Type 0 where
  pub paired : ℕ → Option ℕ
  pub waiting : Text → List ℕ
  pub is_service_stopped : Bool
  pub is_remote_service_stopped : Bool
  pub sent : List Sent

abbrev pub new_service : App2App
new_service = record {
  paired = λ c. none;
  waiting = λ k. [];
  is_service_stopped = false;
  is_remote_service_stopped = false;
  sent = [];
}

abbrev pub send : List Sent → App2App → App2App
send events st = record st { sent = st.sent ++ events }

abbrev pub is_stopped : App2App → Bool
is_stopped st = st.is_service_stopped || st.is_remote_service_stopped

-- App2AppLocalService::GetAppEndPoint
unfoldable pub get_app_end_point : Text → Text
get_app_end_point uri = elim (find (codes "/hbbtv/") uri) [
  | none ↦ []
  | some pos ↦ if pos == 0 then drop 7 uri else []
]

abbrev pub key : Side → Text → Text
key type app_endpoint = type_name type ++ app_endpoint

-- connection->paired_connection_ = partner
abbrev pub set_paired : ℕ → Option ℕ → (ℕ → Option ℕ) → ℕ → Option ℕ
set_paired c partner paired d = if d == c then partner else paired d

abbrev pub set_waiting : Text → List ℕ → (Text → List ℕ) → Text → List ℕ
set_waiting k queue waiting j = if text_eq j k then queue else waiting j

-- std::remove
unfoldable pub without : ℕ → List ℕ → List ℕ
without c [] = []
without c (d ∷ queue) = let rest = without c queue in if d == c then rest else d ∷ rest

-- App2AppLocalService::AddWaitingConnection
unfoldable pub add_waiting_connection : Side → Text → ℕ → App2App → App2App
add_waiting_connection type app_endpoint c st =
    let k = key type app_endpoint in
    record st { waiting = set_waiting k (st.waiting k ++ c ∷ []) st.waiting }

-- App2AppLocalService::RemoveWaitingConnection
unfoldable pub remove_waiting_connection : Side → Text → ℕ → App2App → App2App
remove_waiting_connection type app_endpoint c st =
    let k = key type app_endpoint in
    record st { waiting = set_waiting k (without c (st.waiting k)) st.waiting }

-- App2AppLocalService::GetNextWaitingConnection
unfoldable pub get_next_waiting_connection : Side → Text → App2App → Option ℕ × App2App
get_next_waiting_connection type app_endpoint st = elim (st.waiting (key type app_endpoint)) [
  | [] ↦ (none, st)
  | front ∷ queue ↦
      (some front, record st { waiting = set_waiting (key type app_endpoint) queue st.waiting })
]

-- The two connections are paired, and told so.
unfoldable pub pair : ℕ → ℕ → App2App → App2App
pair c waiting_connection st = record st {
  paired =
      set_paired c (some waiting_connection) (set_paired waiting_connection (some c) st.paired);
  sent =
      st.sent
      ++ send_message c pairing_completed_message
        ∷ send_message waiting_connection pairing_completed_message
        ∷ [];
}

unfoldable pub pair_next : Side → Text → ℕ → Option ℕ × App2App → App2App
pair_next type app_endpoint c (none, st) = add_waiting_connection type app_endpoint c st
pair_next type app_endpoint c (some d, st) = pair c d st

-- A connection of a type is paired with the next one of the other type, or waits.
unfoldable pub pair_or_wait : Side → Text → ℕ → App2App → App2App
pair_or_wait type app_endpoint c st =
    pair_next type app_endpoint c (get_next_waiting_connection (other type) app_endpoint st)

unfoldable pub connect : Side → Text → ℕ → App2App → Bool × App2App
connect type uri c st =
    let app_endpoint = get_app_end_point uri in
    if is_empty app_endpoint
    then (false, st)
    else if is_stopped st
    then (false, st)
    else (true, pair_or_wait type app_endpoint c st)

-- OnConnection and OnRemoteConnection
abbrev pub on_connection : Text → ℕ → App2App → Bool × App2App
on_connection = connect local

abbrev pub on_remote_connection : Text → ℕ → App2App → Bool × App2App
on_remote_connection = connect remote

-- OnFragmentReceived and OnRemoteFragmentReceived, which are one
unfoldable pub on_fragment_received : ℕ → Fragment → App2App → App2App
on_fragment_received c fragment st =
    if is_stopped st
    then st
    else elim (st.paired c) [ none ↦ st | some d ↦ send (send_fragment d fragment ∷ []) st ]

abbrev pub on_remote_fragment_received : ℕ → Fragment → App2App → App2App
on_remote_fragment_received = on_fragment_received

-- What a paired connection leaves, and one that is not paired.
unfoldable pub unpair : ℕ → ℕ → App2App → App2App
unpair c d st = record st {
  paired = set_paired c none (set_paired d none st.paired);
  sent = st.sent ++ close d ∷ [];
}

unfoldable pub leave : Side → Text → ℕ → App2App → App2App
leave type app_endpoint c st = elim (st.paired c) [
  | none ↦ remove_waiting_connection type app_endpoint c st
  | some d ↦ unpair c d st
]

unfoldable pub disconnect : Side → Text → ℕ → App2App → App2App
disconnect type uri c st =
    let app_endpoint = get_app_end_point uri in
    if is_empty app_endpoint then st else if is_stopped st then st else leave type app_endpoint c st

-- OnDisconnected and OnRemoteDisconnected
abbrev pub on_disconnected : Text → ℕ → App2App → App2App
on_disconnected = disconnect local

abbrev pub on_remote_disconnected : Text → ℕ → App2App → App2App
on_remote_disconnected = disconnect remote

-- App2AppLocalService::Stop
unfoldable pub stop : App2App → App2App
stop st =
    if is_stopped st
    then st
    else if not st.is_remote_service_stopped
    then send (stop_remote_service ∷ []) (record st { is_remote_service_stopped = true })
    else send (stop_service ∷ []) st

-- App2AppLocalService::OnServiceStopped
unfoldable pub on_service_stopped : App2App → App2App
on_service_stopped st =
    let st' = record st { is_service_stopped = true } in
    if not st'.is_remote_service_stopped
    then send (stop_remote_service ∷ []) (record st' { is_remote_service_stopped = true })
    else send (service_stopped ∷ []) st'

-- App2AppLocalService::OnRemoteServiceStopped
unfoldable pub on_remote_service_stopped : App2App → App2App
on_remote_service_stopped st =
    let st' = record st { is_remote_service_stopped = true } in
    if not st'.is_service_stopped
    then send (stop_service ∷ []) (record st' { is_service_stopped = true })
    else send (manager_service_stopped ∷ []) st'
