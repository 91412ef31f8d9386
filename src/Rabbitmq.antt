-- ===== src/Rabbitmq.antt =====
-- apps/api/src/rabbitmq/rabbitmq.service.ts: the connection to the broker as a state machine. What
-- amqplib answers and emits are the events; connections and channels are numbers. An asynchronous
-- method is one event for each stretch between two awaits.
pub mod Laws
mod Tests
use sealvo.Base.{
  ℕ, ◌+◌, Bool, true, false, not, ◌&&◌, ◌||◌, Option, none, some, List, [], ◌∷◌, any, select, ◌==◌,
  if◌then◌else◌,
}

-- A call of connect that waits: for the connection, or for the channel of the connection.
pub data Phase : Type 0 where
  dialing : Phase
  opening : (conn : ℕ) → Phase

pub record Consumer : Type 0 where
  pub channel : ℕ
  pub in_flight : ℕ

pub record State : Type 0 where
  pub connection : Option ℕ
  pub channel : Option ℕ
  pub ready : Bool
  pub closing : Bool
  pub reconnect_timer : Bool
  pub connecting : List Phase
  pub consumers : List Consumer
  -- How often the handlers of a lost connection were called.
  pub lost : ℕ
  -- The connections that the service has asked amqplib to close.
  pub close_requests : List ℕ

abbrev pub initial : State
initial = record {
  connection = none;
  channel = none;
  ready = false;
  closing = false;
  reconnect_timer = false;
  connecting = [];
  consumers = [];
  lost = 0;
  close_requests = [];
}

abbrev pub is_dialing : Phase → Bool
is_dialing dialing = true
is_dialing (opening conn) = false

abbrev pub opens : ℕ → Phase → Bool
opens conn dialing = false
opens conn (opening c) = c == conn

-- One call less in this phase.
unfoldable pub finish_phase : (Phase → Bool) → List Phase → List Phase
finish_phase is [] = []
finish_phase is (p ∷ ps) = let rest = finish_phase is ps in if is p then ps else p ∷ rest

-- Without an address the service is off.
unfoldable pub connect : Bool → State → State
connect has_url s = if has_url then record s { connecting = dialing ∷ s.connecting } else s

unfoldable pub schedule_reconnect : State → State
schedule_reconnect s =
    if s.reconnect_timer || s.closing then s else record s { reconnect_timer = true }

-- amqp.connect has answered.
unfoldable pub dialed : ℕ → State → State
dialed conn s = record s {
  connection = some conn;
  connecting = opening conn ∷ finish_phase is_dialing s.connecting;
}

unfoldable pub dial_failed : State → State
dial_failed s =
    schedule_reconnect
      (record s { ready = false; connecting = finish_phase is_dialing s.connecting })

-- openChannel has answered, its handlers included.
unfoldable pub channel_opened : ℕ → ℕ → State → State
channel_opened conn ch s = record s {
  channel = some ch;
  ready = true;
  connecting = finish_phase (opens conn) s.connecting;
}

unfoldable pub channel_failed : ℕ → State → State
channel_failed conn s = schedule_reconnect (record s {
  ready = false;
  connecting = finish_phase (opens conn) s.connecting;
  close_requests = conn ∷ s.close_requests;
})

-- The `close` event of any connection that connect has made.
unfoldable pub connection_closed : State → State
connection_closed s =
    let s' = record s { ready = false; connection = none; channel = none } in
    if s.closing then s' else schedule_reconnect (record s' { lost = s.lost + 1 })

abbrev pub is_channel : ℕ → Option ℕ → Bool
is_channel ch none = false
is_channel ch (some c) = c == ch

-- The `close` event of a main channel.
unfoldable pub channel_closed : ℕ → ℕ → State → State
channel_closed conn ch s =
    let s' = record s { channel = none; ready = false } in
    if not (is_channel ch s.channel)
    then s
    else (if s.closing then s' else record s' { close_requests = conn ∷ s.close_requests })

unfoldable pub timer_fired : Bool → State → State
timer_fired has_url s =
    if s.reconnect_timer then connect has_url (record s { reconnect_timer = false }) else s

-- Publishing needs a channel, and then a confirmation before the timeout.
unfoldable pub publish : Bool → State → Bool
publish confirmed s = elim s.channel [ none ↦ false | some ch ↦ confirmed ]

-- None: `RabbitMQ not connected`.
unfoldable pub consume : ℕ → State → Option State
consume ch s = elim s.connection [
  | none ↦ none
  | some conn ↦ some (record s { consumers = record { channel = ch; in_flight = 0 } ∷ s.consumers })
]

-- A consumer's channel closes, or the broker cancels it.
unfoldable pub consumer_lost : State → State
consumer_lost s = if s.closing then s else record s { lost = s.lost + 1 }

unfoldable pub stop_consumers : State → State
stop_consumers s = record s { closing = true }

-- disconnect up to its first await, and its end.
unfoldable pub disconnect_begin : State → State
disconnect_begin s = record s {
  closing = true;
  reconnect_timer = false;
  ready = false;
  consumers = [];
}

unfoldable pub disconnect_end : State → State
disconnect_end s = record s { channel = none; connection = none }

pub data Event : Type 0 where
  connect_event : (has_url : Bool) → Event
  dialed_event : (conn : ℕ) → Event
  dial_failed_event : Event
  channel_opened_event : (conn ch : ℕ) → Event
  channel_failed_event : (conn : ℕ) → Event
  connection_error_event : Event
  connection_closed_event : (conn : ℕ) → Event
  channel_closed_event : (conn ch : ℕ) → Event
  timer_event : (has_url : Bool) → Event
  consumer_lost_event : Event
  stop_event : Event
  disconnect_begin_event : Event
  disconnect_end_event : Event

-- A call that does not wait for an answer gets none, and a disconnect ends after it has begun.
unfoldable pub handle : Event → State → State
handle (connect_event has_url) s = connect has_url s
handle (dialed_event conn) s = if any is_dialing s.connecting then dialed conn s else s
handle dial_failed_event s = if any is_dialing s.connecting then dial_failed s else s
handle (channel_opened_event conn ch) s =
    if any (opens conn) s.connecting then channel_opened conn ch s else s
handle (channel_failed_event conn) s =
    if any (opens conn) s.connecting then channel_failed conn s else s
handle connection_error_event s = record s { ready = false }
handle (connection_closed_event conn) s = connection_closed s
handle (channel_closed_event conn ch) s = channel_closed conn ch s
handle (timer_event has_url) s = timer_fired has_url s
handle consumer_lost_event s = consumer_lost s
handle stop_event s = stop_consumers s
handle disconnect_begin_event s = disconnect_begin s
handle disconnect_end_event s = if s.closing then disconnect_end s else s

unfoldable pub handle_all : List Event → State → State
handle_all [] s = s
handle_all (e ∷ es) s = handle_all es (handle e s)
