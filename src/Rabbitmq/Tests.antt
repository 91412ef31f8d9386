-- ===== src/Rabbitmq/Tests.antt =====
-- Tests of the connection to the broker.
use sealvo.Base.{◌≡◌, refl, true, false, none, some, List, [], ◌∷◌, any, ◌==◌, arith}
use sealvo.Rabbitmq.{
  State, Phase, Event, initial, dialing, opening, handle, handle_all, connect_event, dialed_event,
  channel_opened_event, connection_closed_event, channel_failed_event, timer_event,
  disconnect_begin, disconnect_end, publish, connect,
}
use sealvo.Rabbitmq.Laws.{ready_publishes, Stopped, stays_stopped, late_connect, stale_close}

abbrev connected : List Event
connected = connect_event true ∷ dialed_event 1 ∷ channel_opened_event 1 10 ∷ []

is_ready : (handle_all connected initial).ready ≡ true
unfolding handle_all handle connect sealvo.Rabbitmq.dialed sealvo.Rabbitmq.channel_opened
is_ready = refl

is_open : (handle_all connected initial).closing ≡ false
unfolding handle_all handle connect sealvo.Rabbitmq.dialed sealvo.Rabbitmq.channel_opened
is_open = refl

ready_publishes_example : publish true (handle_all connected initial) ≡ true
ready_publishes_example = ready_publishes connected true is_ready is_open

abbrev running : State
running = record initial {
  connection = some 1;
  channel = some 10;
  ready = true;
  reconnect_timer = true;
}

stays_stopped_example :
    Stopped
      (handle_all (connection_closed_event 1 ∷ timer_event true ∷ []) (disconnect_begin running))
stays_stopped_example =
    stays_stopped (connection_closed_event 1 ∷ timer_event true ∷ []) running refl
      (refl, (refl, tt))

abbrev dialing_state : State
dialing_state = record initial { connecting = dialing ∷ [] }

late_connect_example :
    let s' =
      handle_all
        (dialed_event 2 ∷ channel_opened_event 2 20 ∷ [])
        (disconnect_end (disconnect_begin dialing_state)) in
    (s'.closing ≡ true) × (s'.ready ≡ true) × (s'.connection ≡ some 2) × (s'.channel ≡ some 20)
late_connect_example = late_connect 2 20 dialing_state refl

-- A call of connect that waits for the channel of the first connection.
abbrev first_opening : State
first_opening = record initial { connection = some 1; connecting = opening 1 ∷ [] }

stale_close_example :
    let s₁ =
      handle_all
        (channel_failed_event 1
          ∷ timer_event true
          ∷ dialed_event 2
          ∷ channel_opened_event 2 20
          ∷ [])
        first_opening in
    let s₂ = handle (connection_closed_event 1) s₁ in
    (s₁.ready ≡ true)
    × (s₁.connection ≡ some 2)
    × (s₂.connection ≡ none)
    × (s₂.ready ≡ false)
    × (s₂.reconnect_timer ≡ true)
    × (any (λ c. c == 2) s₂.close_requests ≡ false)
stale_close_example =
    stale_close 1 2 20 first_opening refl refl refl (λ e. absurd (omega (arith, e))) refl
