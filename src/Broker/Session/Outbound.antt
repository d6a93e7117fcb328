-- ===== src/Broker/Session/Outbound.antt =====
-- Flow control towards the client in broker/session.go, the window and the buffer behind it, and how
-- `doDeliver` of broker/pub_sub.go uses the window.
use shark_mqtt.Prelude.{
  ℕ, zero, suc, ◌+◌, ◌-◌, ◌^◌, ◌≤◌, ◌<◌, ◌≡◌, ◌∙◌, refl, ap, true, false, none, some, List, [], ◌∷◌,
  ◌++◌, nat_eq, if◌then◌else◌, arith, leb, length, length-append,
}
use shark_mqtt.Broker.Session.{
  OutboundMsg, Session, can_send_outbound, inc_outbound_unacked, dec_outbound_unacked,
  max_buffered_outbound, buffer_outbound, pop_outbound, outbound_queue_len,
}

-- A session and the number of QoS 1/2 deliveries to it that `doDeliver` is in the middle of: it has asked
-- for the window, and has not counted itself. No lock is held from the one to the other.
pub record Flow : Type 0 where
  pub session : Session
  pub started : ℕ

-- `if deliverQoS > 0 && !sess.CanSendOutbound()`, which a delivery without room leaves `doDeliver` by.
unfoldable pub start_delivery : Flow → Flow
start_delivery f = if can_send_outbound f.session then record f { started = f.started + 1 } else f

-- `if deliverQoS > 0 { sess.IncOutboundUnacked() }`
unfoldable pub count_delivery : Flow → Flow
count_delivery f = record f { session = inc_outbound_unacked f.session; started = f.started - 1 }

-- The steps of any number of goroutines, at most `k` of which deliver at once.
pub data FlowStep (k : ℕ) (f : Flow) : Flow → Type 0 where
  starts : f.started < k → FlowStep k f (start_delivery f)
  counts : 0 < f.started → FlowStep k f (count_delivery f)
  -- an acknowledgment, expected or not
  acknowledged : FlowStep k f (record f { session = dec_outbound_unacked f.session })

pub data FlowRun (k : ℕ) (f : Flow) : Flow → Type 0 where
  here : FlowRun k f f
  then_step : {g h : Flow} → FlowRun k f g → FlowStep k g h → FlowRun k f h

-- `OutboundWindow` is a uint16; the bound on the deliveries at once keeps the int32 from wrapping.
abbrev pub InWindow : ℕ → Flow → Type 0
InWindow k f =
    (f.session.outbound_unacked + f.started + 1 ≤ f.session.outbound_window + k)
    × (f.started ≤ k)
    × (f.session.outbound_window ≤ 65535)
    × (0 < k)
    × (k ≤ 2 ^ 30)

FlowStep-InWindow :
    (k : ℕ) (f g : Flow)
    → FlowStep k f g
    → InWindow k f
    → InWindow k g × (g.session.outbound_window ≡ f.session.outbound_window)
unfolding start_delivery count_delivery can_send_outbound inc_outbound_unacked dec_outbound_unacked
FlowStep-InWindow k f _ (starts room) h = ground arith
FlowStep-InWindow k f _ (counts some_started) h = ground arith
FlowStep-InWindow k f _ acknowledged h = ground arith

FlowRun-InWindow :
    (k : ℕ) (f g : Flow)
    → FlowRun k f g
    → InWindow k f
    → InWindow k g × (g.session.outbound_window ≡ f.session.outbound_window)
FlowRun-InWindow k f _ here h = (h, refl)
FlowRun-InWindow k f _ (then_step {g = g} {h = g'} run step) h =
    let (mid, same) = FlowRun-InWindow k f g run h in
    let (end, same') = FlowStep-InWindow k g g' step mid in (end, same' ∙ same)

-- Where at most `k` goroutines at once are in the middle of a QoS 1/2 delivery to a session, through
-- any interleaving of their two steps and of acknowledgments, spurious ones included, the number of
-- unacknowledged deliveries exceeds the client's window by at most `k` - 1: it never does for one
-- goroutine. (From a state that is within the window and where no delivery is started; the window is at
-- most 65535 and `k` at most 2 ^ 30.)
pub unacked-le-window :
    (k : ℕ) (f g : Flow)
    → 0 < k
    → k ≤ 2 ^ 30
    → f.session.outbound_window ≤ 65535
    → f.session.outbound_unacked ≤ f.session.outbound_window
    → f.started ≡ 0
    → FlowRun k f g
    → g.session.outbound_unacked + 1 ≤ f.session.outbound_window + k
unacked-le-window k f g some_k few window within idle run =
    omega (arith, FlowRun-InWindow k f g run (omega (arith, some_k, few, window, within, idle)))

-- Popping `n` buffered deliveries, oldest first.
unfoldable pub pop_many : ℕ → Session → List OutboundMsg × Session
pop_many zero s = ([], s)
pop_many (suc n) s = elim (pop_outbound s).1 [
  | none ↦ ([], s)
  | some msg ↦ (let (msgs, s') = pop_many n (pop_outbound s).0 in (msg ∷ msgs, s'))
]

pop_many_all :
    (q : List OutboundMsg) (s : Session)
    → (pop_many (length q) (record s { outbound_queue = q })).0 ≡ q
unfolding pop_many pop_outbound
pop_many_all [] s = refl
pop_many_all (m ∷ q) s = ap (λ ms. m ∷ ms) (pop_many_all q s)

-- Below the bound a delivery is buffered behind all earlier ones and comes out after them, and the
-- buffer stays within its bound.
pub pop_many-buffer :
    (msg : OutboundMsg) (s : Session)
    → length s.outbound_queue < max_buffered_outbound
    → ((buffer_outbound msg s).1 ≡ true)
      × ((pop_many (length s.outbound_queue + 1) (buffer_outbound msg s).0).0
          ≡ s.outbound_queue ++ msg ∷ [])
      × (outbound_queue_len (buffer_outbound msg s).0 ≤ max_buffered_outbound)
unfolding buffer_outbound outbound_queue_len
pop_many-buffer msg s h =
    let grown : length (s.outbound_queue ++ msg ∷ []) ≡ length s.outbound_queue + 1 =
      omega (arith, length-append s.outbound_queue (msg ∷ [])) in
    let free : leb max_buffered_outbound (length s.outbound_queue) ≡ false = ground arith in
    (
      rw free,
      rw (free, ← grown) (pop_many_all (s.outbound_queue ++ msg ∷ []) s),
      rw free (omega (arith, grown)),
    )

-- At the bound a delivery is refused and the buffer stays as it was.
pub buffer_full :
    (msg : OutboundMsg) (s : Session)
    → max_buffered_outbound ≤ length s.outbound_queue
    → buffer_outbound msg s ≡ (s, false)
unfolding buffer_outbound
buffer_full msg s h = ground arith
