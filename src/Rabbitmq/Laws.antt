-- ===== src/Rabbitmq/Laws.antt =====
-- What holds of the connection at any time, and after the service has been stopped.
use sealvo.Base.{
  ◌==◌, ==_refl, ℕ, ◌≡◌, ◌≢◌, refl, sym, subst, Bool, true, false, none, some, List, [], ◌∷◌, arith,
  any, All,
}
use sealvo.Rabbitmq.{
  State, Phase, opening, finish_phase, Event, initial, is_dialing, opens, handle, handle_all,
  connect_event, dialed_event, dial_failed_event, channel_opened_event, channel_failed_event,
  connection_error_event, connection_closed_event, channel_closed_event, timer_event,
  consumer_lost_event, stop_event, disconnect_begin_event, disconnect_end_event, connect, dialed,
  dial_failed, channel_opened, channel_failed, connection_closed, channel_closed, timer_fired,
  consumer_lost, stop_consumers, disconnect_begin, disconnect_end, schedule_reconnect, publish,
}

-- A service that is ready and not stopped can publish.
abbrev pub Usable : State → Type 0
Usable s = s.ready ≡ true → s.closing ≡ false → s.channel ≢ none

handle-Usable : (e : Event) (s : State) → Usable s → Usable (handle e s)
unfolding handle connect dialed dial_failed channel_opened channel_failed connection_closed
    channel_closed timer_fired consumer_lost stop_consumers disconnect_begin disconnect_end
    schedule_reconnect
handle-Usable (connect_event has_url) s u = ground arith
handle-Usable (dialed_event conn) s u = ground arith
handle-Usable dial_failed_event s u = ground arith
handle-Usable (channel_opened_event conn ch) s u = ground arith
handle-Usable (channel_failed_event conn) s u = ground arith
handle-Usable connection_error_event s u = ground arith
handle-Usable (connection_closed_event conn) s u = ground arith
handle-Usable (channel_closed_event conn ch) s u = ground arith
handle-Usable (timer_event has_url) s u = ground arith
handle-Usable consumer_lost_event s u = ground arith
handle-Usable stop_event s u = ground arith
handle-Usable disconnect_begin_event s u = ground arith
handle-Usable disconnect_end_event s u = ground arith

handle_all-Usable : (es : List Event) (s : State) → Usable s → Usable (handle_all es s)
unfolding handle_all
handle_all-Usable [] s u = u
handle_all-Usable (e ∷ es) s u = handle_all-Usable es (handle e s) (handle-Usable e s u)

-- Whatever has happened since the start, a service that is ready and has not been stopped
-- publishes: the answer is whether the broker confirms.
pub ready_publishes :
    (es : List Event) (confirmed : Bool)
    → let s = handle_all es initial in
      s.ready ≡ true → s.closing ≡ false → publish confirmed s ≡ confirmed
unfolding publish
ready_publishes es confirmed r c =
    let usable = handle_all-Usable es initial (λ r. absurd (ground arith)) in
    ground (arith, usable r c)

-- Stopped, with nothing on its way.
pub record Stopped (s : State) : Type 0 where
  pub is_closing : s.closing ≡ true
  pub no_timer : s.reconnect_timer ≡ false
  pub not_ready : s.ready ≡ false
  pub nothing_waits : s.connecting ≡ []

-- Nobody calls connect again.
abbrev pub reconnects : Event → Bool
reconnects (connect_event has_url) = true
reconnects _ = false

abbrev pub NoConnect : List Event → Type 0
NoConnect = All (λ e. reconnects e ≡ false)

none_waits : (is : Phase → Bool) (ps : List Phase) → ps ≡ [] → any is ps ≡ false
none_waits is ps e = subst (λ ps. any is ps ≡ false) (sym e) refl

handle-Stopped : (e : Event) (s : State) → reconnects e ≡ false → Stopped s → Stopped (handle e s)
unfolding handle connection_closed channel_closed timer_fired consumer_lost stop_consumers
    disconnect_begin disconnect_end schedule_reconnect
handle-Stopped (connect_event has_url) s n v = absurd (ground arith)
handle-Stopped (dialed_event conn) s n v = rw (none_waits is_dialing s.connecting v.nothing_waits) v
handle-Stopped dial_failed_event s n v = rw (none_waits is_dialing s.connecting v.nothing_waits) v
handle-Stopped (channel_opened_event conn ch) s n v =
    rw (none_waits (opens conn) s.connecting v.nothing_waits) v
handle-Stopped (channel_failed_event conn) s n v =
    rw (none_waits (opens conn) s.connecting v.nothing_waits) v
handle-Stopped connection_error_event s n v = record {
  is_closing = v.is_closing;
  no_timer = v.no_timer;
  not_ready = refl;
  nothing_waits = v.nothing_waits;
}
handle-Stopped (connection_closed_event conn) s n v = record {
  is_closing = ground arith;
  no_timer = ground arith;
  not_ready = ground arith;
  nothing_waits = ground arith;
}
handle-Stopped (channel_closed_event conn ch) s n v = record {
  is_closing = ground arith;
  no_timer = ground arith;
  not_ready = ground arith;
  nothing_waits = ground arith;
}
handle-Stopped (timer_event has_url) s n v = simp v.no_timer v
handle-Stopped consumer_lost_event s n v = simp v.is_closing v
handle-Stopped stop_event s n v = record {
  is_closing = refl;
  no_timer = v.no_timer;
  not_ready = v.not_ready;
  nothing_waits = v.nothing_waits;
}
handle-Stopped disconnect_begin_event s n v = record {
  is_closing = refl;
  no_timer = refl;
  not_ready = refl;
  nothing_waits = v.nothing_waits;
}
handle-Stopped disconnect_end_event s n v = record {
  is_closing = ground arith;
  no_timer = ground arith;
  not_ready = ground arith;
  nothing_waits = ground arith;
}

later : (es : List Event) (s : State) → NoConnect es → Stopped s → Stopped (handle_all es s)
unfolding handle_all
later [] s n v = v
later (e ∷ es) s n v = later es (handle e s) n.1 (handle-Stopped e s n.0 v)

-- After disconnect has begun while no call of connect waits, and as long as nobody calls connect:
-- whatever happens, the service stays closing, no reconnection is scheduled, it is never ready and
-- nothing waits.
pub stays_stopped :
    (es : List Event) (s : State)
    → s.connecting ≡ []
    → NoConnect es
    → Stopped (handle_all es (disconnect_begin s))
unfolding disconnect_begin
stays_stopped es s idle n =
    later es (disconnect_begin s) n
      (record { is_closing = refl; no_timer = refl; not_ready = refl; nothing_waits = idle })

-- A call of connect that waits for its connection while the service disconnects, and gets it and a
-- channel afterwards, makes the service ready again with that connection, although it is closing.
pub late_connect :
    (conn ch : ℕ) (s : State)
    → any is_dialing s.connecting ≡ true
    → let s' =
        handle_all
          (dialed_event conn ∷ channel_opened_event conn ch ∷ [])
          (disconnect_end (disconnect_begin s)) in
      (s'.closing ≡ true) × (s'.ready ≡ true) × (s'.connection ≡ some conn) × (s'.channel ≡ some ch)
unfolding handle_all handle disconnect_begin disconnect_end dialed channel_opened
late_connect conn ch s waits = rw (waits, ==_refl conn) (refl, refl, refl, refl)

-- While the service is open, no reconnection is scheduled and nothing but the channel of `old` is
-- waited for: the channel fails, so that the connection `old` is asked to close, and the service
-- connects again, to `conn`, which it has not asked to close, and is ready. When only then `old`
-- emits its close event, the service forgets `conn` without having asked it to close, is not ready,
-- and schedules another reconnection.
pub stale_close :
    (old conn ch : ℕ) (s : State)
    → s.connecting ≡ opening old ∷ []
    → s.reconnect_timer ≡ false
    → s.closing ≡ false
    → old ≢ conn
    → any (λ c. c == conn) s.close_requests ≡ false
    → let s₁ =
        handle_all
          (channel_failed_event old
            ∷ timer_event true
            ∷ dialed_event conn
            ∷ channel_opened_event conn ch
            ∷ [])
          s in
      let s₂ = handle (connection_closed_event old) s₁ in
      (s₁.ready ≡ true)
      × (s₁.connection ≡ some conn)
      × (s₂.connection ≡ none)
      × (s₂.ready ≡ false)
      × (s₂.reconnect_timer ≡ true)
      × (any (λ c. c == conn) s₂.close_requests ≡ false)
unfolding handle_all handle channel_failed timer_fired connect dialed channel_opened
    connection_closed schedule_reconnect finish_phase
stale_close old conn ch s waits no_timer open_service other unasked =
    ground (arith, ==_refl old, ==_refl conn)
