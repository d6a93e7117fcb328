-- ===== src/Examples/Takeovers.antt =====
-- A client that connects again while it has a session.
use shark_mqtt.Prelude.{◌≡◌, refl, true, false, some, Str, str_eq, codes}
use mathlib.Core.Path.{subst}
use shark_mqtt.Prelude.Map.{lookup, insert}
use shark_mqtt.Broker.Session.Manager.{
  Manager, ManagedSession, Connect, create_session, new_manager, new_session,
}
use shark_mqtt.Broker.Session.Manager.Takeover.{IsCreated, Outcome, IsResumed, create_session_lem}

abbrev ann : Str
ann = codes "ann"

abbrev connect : Connect
connect = record { clean_session = false; keep_alive = 60; username = ann; protocol_version = 5 }

abbrev manager : Manager
manager = (create_session ann connect false 100 (new_manager true)).0

abbrev first : ManagedSession
first = new_session ann connect 100

has_session : lookup ann manager.sessions ≡ some first
unfolding create_session new_manager lookup insert
has_session = refl

create_session_example :
    let r = create_session ann connect true 200 manager in
    IsCreated ann connect manager r × Outcome manager r (lookup ann manager.sessions) true
create_session_example = create_session_lem ann connect true 200 manager

-- The client's session is the one that resuming finds.
connect-IsResumed : IsResumed first (create_session ann connect true 200 manager).1
connect-IsResumed =
    let created = create_session ann connect true 200 manager in
    let resumed : Outcome manager created (some first) true =
      subst (λ o. Outcome manager created o true) has_session
        (create_session_lem ann connect true 200 manager).1 in
    resumed.0
