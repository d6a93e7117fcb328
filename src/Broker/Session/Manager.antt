-- ===== src/Broker/Session/Manager.antt =====
-- The session manager of broker/session.go: which session a connection gets. A session is a value;
-- the manager's map has the only copy. The store is handed on and not read here.
pub mod Takeover
use shark_mqtt.Prelude.{
  ℕ, Bool, true, false, not, ◌&&◌, Option, none, some, List, [], ◌∷◌, Str, is_some, str_eq,
  if◌then◌else◌,
}
use shark_mqtt.Prelude.Map.{Map, lookup, insert, delete}
use shark_mqtt.Broker.Session.{Session}
use shark_mqtt.Broker.Session.Subscriptions.{Subscriptions, options_or_plain}

pub data State : Type 0 where
  disconnected connecting connected disconnecting : State

pub data CloseReason : Type 0 where
  client_disconnect server_kick server_shut keep_alive_expired protocol_error replaced : CloseReason

-- The fields of a session that the manager sets, with the packet flows and the subscriptions.
pub record ManagedSession : Type 0 where
  pub flows : Session
  pub subs : Subscriptions
  pub username : Str
  pub is_clean : Bool
  pub protocol_ver : ℕ
  pub receive_max : ℕ
  pub connected_at : ℕ
  pub state : State
  pub close_reason : CloseReason

-- What `CreateSession` reads of a CONNECT packet.
pub record Connect : Type 0 where
  pub clean_session : Bool
  pub keep_alive : ℕ
  pub username : Str
  pub protocol_version : ℕ

pub record Manager : Type 0 where
  pub sessions : Map Str ManagedSession
  pub has_kick_callback : Bool

unfoldable pub new_manager : Bool → Manager
new_manager has_kick_callback = record { sessions = []; has_kick_callback = has_kick_callback }

unfoldable pub set_state : State → ManagedSession → ManagedSession
set_state state s = record s { state = state }

unfoldable pub set_close_reason : CloseReason → ManagedSession → ManagedSession
set_close_reason reason s = record s { close_reason = reason; state = disconnecting }

abbrev pub is_connected : State → Bool
is_connected connected = true
is_connected disconnected = false
is_connected connecting = false
is_connected disconnecting = false

unfoldable pub new_session : Str → Connect → ℕ → ManagedSession
new_session client c now = record {
  flows = record {
    client_id = client;
    inflight = [];
    inbound_qos2 = [];
    packet_id_seq = 1;
    topic_alias_max = 0;
    outbound_window = 65535;
    outbound_unacked = 0;
    outbound_queue = [];
    topic_aliases = [];
  };
  subs = record {
    subscriptions = [];
    sub_options = some [];
    keep_alive = c.keep_alive;
    last_activity = now;
  };
  username = c.username;
  is_clean = c.clean_session;
  protocol_ver = c.protocol_version;
  receive_max = 65535;
  connected_at = now;
  state = connected;
  close_reason = client_disconnect;
}

-- The session that a connection resumes.
unfoldable pub resume : Connect → ℕ → ManagedSession → ManagedSession
resume c now s = record s {
  flows = record s.flows { topic_aliases = [] };
  subs = record s.subs {
    keep_alive = c.keep_alive;
    last_activity = now;
    sub_options = some (options_or_plain s.subs s.subs.sub_options);
  };
  username = c.username;
  protocol_ver = c.protocol_version;
  connected_at = now;
}

abbrev pub kicked : Bool → ManagedSession → List ManagedSession
kicked true s = set_close_reason replaced s ∷ []
kicked false s = []

-- The manager, the session, and the sessions that the callback was called with.
unfoldable pub create_session :
    Str → Connect → Bool → ℕ → Manager → Manager × ManagedSession × List ManagedSession
create_session client c is_resuming now m = elim (lookup client m.sessions) [
  | none ↦
      let s = new_session client c now in
      (record m { sessions = insert client s m.sessions }, s, [])
  | some existing ↦
      let resumed = resume c now existing in
      let s = new_session client c now in
      if not c.clean_session && is_resuming
      then (record m { sessions = insert client resumed m.sessions }, resumed, [])
      else (
        record m { sessions = insert client s (delete client m.sessions) },
        s,
        kicked m.has_kick_callback existing,
      )
]

unfoldable pub get_session : Str → Manager → Option ManagedSession
get_session client m = lookup client m.sessions

-- The session that is removed is handed to no one: what it becomes is the second result.
unfoldable pub remove_session : Str → Manager → Manager × Option ManagedSession
remove_session client m = (
  record m { sessions = delete client m.sessions },
  elim (lookup client m.sessions) [
    | none ↦ none
    | some s ↦ some (if is_connected s.state then set_state disconnecting s else s)
  ],
)

unfoldable pub list_sessions : Map Str ManagedSession → List Str
list_sessions [] = []
list_sessions ((id, _) ∷ sessions) = id ∷ list_sessions sessions

unfoldable pub session_exists : Str → Manager → Bool
session_exists client m = is_some (lookup client m.sessions)
