-- ===== src/Broker/Wills.antt =====
-- broker/will_handler.go: the last wills of clients. Each method is one step, as the mutex makes
-- it, with the callback's calls in `published`; the two branches of the goroutine that waits out a
-- delay are steps of their own. A timer may fire whenever it waits: real time is not modelled.
pub mod Moves
pub mod Published
pub mod Retired
pub mod Armed
pub mod Delays
pub mod Owner
use shark_mqtt.Prelude.{
  ℕ, ◌+◌, Bool, true, false, not, ◌&&◌, ◌||◌, Option, none, some, List, [], ◌∷◌, ◌++◌, Str, length,
  is_some, ltb, ◌==◌, nat_eq, str_eq, if◌then◌else◌,
}
use shark_mqtt.Prelude.Map.{Map, lookup, insert, delete}

-- The fields of `protocol.Properties` that a will may have.
pub record WillProperties : Type 0 where
  pub payload_format : Option ℕ
  pub message_expiry_interval : Option ℕ
  pub content_type : Str
  pub response_topic : Str
  pub correlation_data : Option Str
  pub user_properties : List (Str × Str)
  pub will_delay_interval : Option ℕ

unfoldable pub relayable_will_properties : Option WillProperties → Option WillProperties
relayable_will_properties none = none
relayable_will_properties (some p) =
    if not (is_some p.payload_format)
      && not (is_some p.message_expiry_interval)
      && length p.content_type == 0
      && length p.response_topic == 0
      && not (is_some p.correlation_data)
      && length p.user_properties == 0
    then none
    else some (record p { will_delay_interval = none })

-- `serial` is the identity of the object: each registration makes a new one. `conn` is none where
-- it is nil. A negative delay publishes at once, as 0 does, and is 0 here.
pub record WillMessage : Type 0 where
  pub serial : ℕ
  pub client_id : Str
  pub username : Str
  pub topic : Str
  pub payload : Str
  pub qos : ℕ
  pub retain : Bool
  pub properties : Option WillProperties
  pub delay : ℕ
  pub conn : Option ℕ

-- A goroutine that waits; its context has been cancelled or not.
pub record Timer : Type 0 where
  pub client_id : Str
  pub will : WillMessage
  pub cancelled : Bool

-- `cancel` has the timer that a client's cancel function stops.
pub record WillHandler : Type 0 where
  pub wills : Map Str WillMessage
  pub cancel : Map Str ℕ
  pub timers : Map ℕ Timer
  pub next_serial : ℕ
  pub next_timer : ℕ
  pub has_callback : Bool
  pub published : List WillMessage

unfoldable pub new_will_handler : WillHandler
new_will_handler = record {
  wills = [];
  cancel = [];
  timers = [];
  next_serial = 0;
  next_timer = 0;
  has_callback = false;
  published = [];
}

unfoldable pub set_publish_callback : WillHandler → WillHandler
set_publish_callback h = record h { has_callback = true }

unfoldable pub publish_will_message : WillMessage → WillHandler → WillHandler
publish_will_message will h =
    if h.has_callback && ltb 0 (length will.topic)
    then record h { published = h.published ++ will ∷ [] }
    else h

abbrev pub cancel_timer : ℕ → Option Timer → Map ℕ Timer → Map ℕ Timer
cancel_timer id none timers = timers
cancel_timer id (some t) timers = insert id (record t { cancelled = true }) timers

abbrev pub stop_found : Option ℕ → Str → WillHandler → WillHandler
stop_found none client h = h
stop_found (some id) client h = record h {
  cancel = delete client h.cancel;
  timers = cancel_timer id (lookup id h.timers) h.timers;
}

-- `stopTimerLocked`
unfoldable pub stop_timer : Str → WillHandler → WillHandler
stop_timer client h = stop_found (lookup client h.cancel) client h

-- The will is given without its serial.
unfoldable pub register_will : WillMessage → WillHandler → WillHandler
register_will w h =
    let h1 = stop_timer w.client_id h in
    let will = record w {
      serial = h1.next_serial;
      properties = relayable_will_properties w.properties;
    } in
    record h1 { wills = insert w.client_id will h1.wills; next_serial = h1.next_serial + 1 }

-- `conn != nil && will.Conn != nil && will.Conn != conn`
abbrev pub is_foreign : Option ℕ → Option ℕ → Bool
is_foreign none _ = false
is_foreign (some c) none = false
is_foreign (some c) (some d) = not (d == c)

abbrev pub trigger_found : WillMessage → Str → Option ℕ → WillHandler → WillHandler
trigger_found will client conn h =
    if is_foreign conn will.conn
    then h
    else if is_some (lookup client h.cancel)
    then h
    else if will.delay == 0
    then publish_will_message will (record h { wills = delete client h.wills })
    else record h {
      cancel = insert client h.next_timer h.cancel;
      timers =
          insert h.next_timer (record { client_id = client; will = will; cancelled = false })
            h.timers;
      next_timer = h.next_timer + 1;
    }

unfoldable pub trigger_will : Str → Option ℕ → WillHandler → WillHandler
trigger_will client conn h = elim (lookup client h.wills) [
  | none ↦ h
  | some will ↦ trigger_found will client conn h
]

-- `ok && current == will`
abbrev pub is_current : Option WillMessage → WillMessage → Bool
is_current none will = false
is_current (some current) will = current.serial == will.serial

abbrev pub timer_fires : ℕ → Timer → WillHandler → WillHandler
timer_fires id t h =
    let ended = record h { timers = delete id h.timers } in
    if is_current (lookup t.client_id h.wills) t.will
    then publish_will_message t.will
        (record ended { wills = delete t.client_id h.wills; cancel = delete t.client_id h.cancel })
    else ended

-- The branch of the goroutine where the delay has passed. It may be taken by a goroutine whose
-- context has been cancelled, when both are ready.
unfoldable pub delay_passed : ℕ → WillHandler → WillHandler
delay_passed id h = elim (lookup id h.timers) [ none ↦ h | some t ↦ timer_fires id t h ]

-- The branch where the context is done.
unfoldable pub context_done : ℕ → WillHandler → WillHandler
context_done id h = elim (lookup id h.timers) [
  | none ↦ h
  | some t ↦ if t.cancelled then record h { timers = delete id h.timers } else h
]

unfoldable pub fire_will : Str → WillHandler → WillHandler
fire_will client h = elim (lookup client h.wills) [
  | none ↦ h
  | some will ↦
      let h1 = stop_timer client h in
      if not (is_some (lookup client h.cancel))
      then h
      else publish_will_message will (record h1 { wills = delete client h1.wills })
]

unfoldable pub cancel_will : Str → WillHandler → WillHandler
cancel_will client h = let h1 = stop_timer client h in record h1 { wills = delete client h1.wills }

unfoldable pub remove_will : Str → WillHandler → WillHandler
remove_will client h = stop_timer client (record h { wills = delete client h.wills })

abbrev pub cancel_all : Map ℕ Timer → Map Str ℕ → Map ℕ Timer
cancel_all timers [] = timers
cancel_all timers ((_, id) ∷ cancels) =
    cancel_all (cancel_timer id (lookup id timers) timers) cancels

-- `Stop` up to its wait for the goroutines.
unfoldable pub stop : WillHandler → WillHandler
stop h = record h { wills = []; cancel = []; timers = cancel_all h.timers h.cancel }

pub record WillInfo : Type 0 where
  pub topic : Str
  pub qos : ℕ
  pub retain : Bool
  pub has_payload : Bool

unfoldable pub get_will_info : Str → WillHandler → Option WillInfo
get_will_info client h = elim (lookup client h.wills) [
  | none ↦ none
  | some will ↦ some (record {
    topic = will.topic;
    qos = will.qos;
    retain = will.retain;
    has_payload = ltb 0 (length will.payload);
  })
]

-- What can happen to the handler, in any order.
pub data Event : Type 0 where
  callback_set : Event
  registered : WillMessage → Event
  triggered : Str → Option ℕ → Event
  passed : ℕ → Event
  ended : ℕ → Event
  fired : Str → Event
  cancelled : Str → Event
  removed : Str → Event
  stopped : Event

unfoldable pub step : Event → WillHandler → WillHandler
step callback_set h = set_publish_callback h
step (registered w) h = register_will w h
step (triggered c conn) h = trigger_will c conn h
step (passed id) h = delay_passed id h
step (ended id) h = context_done id h
step (fired c) h = fire_will c h
step (cancelled c) h = cancel_will c h
step (removed c) h = remove_will c h
step stopped h = stop h

unfoldable pub run : List Event → WillHandler → WillHandler
run [] h = h
run (e ∷ es) h = run es (step e h)
