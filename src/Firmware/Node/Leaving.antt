-- ===== src/Firmware/Node/Leaving.antt =====
-- When a node leaves the loop of `coap_server_event_loop` of pmindp-esp32-thread/src/platform.rs, after
-- which `main` resets it.
use mathlib.Core.Path.{subst}
use plant_minder.Base.{
  ℕ, ◌≡◌, refl, List, [], ◌∷◌, Bool, true, false, Option, none, some, returns, panics, Bool-cases,
  inl, inr,
}
use plant_minder.Sensor.{SensorReading, PlatformSensorError}
use plant_minder.Net.{Ipv6Addr}
use plant_minder.Firmware.{Reading}
use plant_minder.Firmware.Platform.{Json, Sensed, sensor_read}
use plant_minder.Firmware.Node.{
  Sent, report_sent, Turn, Incoming, receive_error, no_data, incoming, Codec, Node, Verdict,
  goes_on, breaks, crashes, report_if_due, turn, listen, then_listen, after_read, send_report,
  report_to, if_fired, unfire, accept,
}

module _ {S : Type 0} (read : List ℕ → ℕ → S → Reading S PlatformSensorError) (json : Json)
    (c : Codec) where
  -- The report was due and printed, and could not be sent.
  abbrev pub CannotSend : Turn → Node S → Node S → List Sent → Type 0
  CannotSend t n n' sent =
      (a : Ipv6Addr) × (p : ℕ) × (d : SensorReading) × (ss' : List (Option S)) × (bytes : List ℕ)
      × (n.observer_addr ≡ some (a, p))
      × (n.statics.sensor_timer_fired ≡ true)
      × (sensor_read read json t.send_data_buf n.sensors ≡ returns (d, ss'))
      × (c.report_json d ≡ some bytes)
      × (t.send_ok ≡ false)
      × (n' ≡ record (unfire n) { sensors = ss' })
      × (sent ≡ [])

  abbrev Leaves : Turn → Node S → Verdict S → Type 0
  Leaves t n (goes_on n' sent) = Unit
  Leaves t n (crashes sent) = Unit
  Leaves t n (breaks n' sent) = CannotSend t n n' sent

  send_report-Leaves :
      (t : Turn) (a : Ipv6Addr) (p : ℕ) (n : Node S) (d : SensorReading) (ss' : List (Option S))
      (printed : Option (List ℕ))
      → n.observer_addr ≡ some (a, p)
      → n.statics.sensor_timer_fired ≡ true
      → sensor_read read json t.send_data_buf n.sensors ≡ returns (d, ss')
      → c.report_json d ≡ printed
      → Leaves t n (send_report read json c t a p (record (unfire n) { sensors = ss' }) printed)
  send_report-Leaves t a p n d ss' none known fired sensed e = tt
  send_report-Leaves t a p n d ss' (some bytes) known fired sensed e =
      let n1 = record (unfire n) { sensors = ss' } in
      elim t.send_ok
          as (λ b.
            t.send_ok ≡ b
            → Leaves t n (elim b [
              | true ↦ goes_on n1 (report_sent bytes a p ∷ [])
              | false ↦ breaks n1 []
            ])) [
              | true ↦ λ sends. tt
              | false ↦ λ fails. (a, p, d, ss', bytes, known, fired, sensed, e, fails, refl, refl)
            ]
        refl

  after_read-Leaves :
      (t : Turn) (a : Ipv6Addr) (p : ℕ) (n : Node S) (sensed : Sensed S)
      → n.observer_addr ≡ some (a, p)
      → n.statics.sensor_timer_fired ≡ true
      → sensor_read read json t.send_data_buf n.sensors ≡ sensed
      → Leaves t n (after_read read json c t a p (unfire n) sensed)
  after_read-Leaves t a p n panics known fired e = tt
  after_read-Leaves t a p n (returns (d, ss')) known fired e =
      send_report-Leaves t a p n d ss' (c.report_json d) known fired e refl

  if_fired-Leaves :
      (t : Turn) (a : Ipv6Addr) (p : ℕ) (n : Node S) (fired : Bool)
      → n.observer_addr ≡ some (a, p)
      → n.statics.sensor_timer_fired ≡ fired
      → Leaves t n (if_fired read json c t a p n fired)
  if_fired-Leaves t a p n true known fired =
      after_read-Leaves t a p n (sensor_read read json t.send_data_buf n.sensors) known fired refl
  if_fired-Leaves t a p n false known fired = tt

  report_to-Leaves :
      (t : Turn) (o : Option (Ipv6Addr × ℕ)) (n : Node S)
      → n.observer_addr ≡ o
      → Leaves t n (report_to read json c t o n)
  report_to-Leaves t none n known = tt
  report_to-Leaves t (some (a, p)) n known = if_fired-Leaves t a p n _ known refl

  accept-Leaves :
      (t : Turn) (from : Ipv6Addr) (n n1 : Node S) (sent : List Sent) (x : Option (ℕ × Bool))
      → Leaves t n (accept read json c t from n1 sent x)
  accept-Leaves t from n n1 sent (some (id, true)) = tt
  accept-Leaves t from n n1 sent (some (id, false)) = tt
  accept-Leaves t from n n1 sent none = elim (Bool-cases t.reply_ok) [
    | inl replied ↦ rw replied tt
    | inr failed ↦ rw failed tt
  ]

  listen-Leaves :
      (t : Turn) (received : Incoming) (n n1 : Node S) (sent : List Sent)
      → Leaves t n (listen read json c t received n1 sent)
  listen-Leaves t receive_error n n1 sent = tt
  listen-Leaves t no_data n n1 sent = tt
  listen-Leaves t (incoming [] from) n n1 sent = tt
  listen-Leaves t (incoming (b ∷ bs) from) n n1 sent =
      accept-Leaves t from n n1 sent (c.from_bytes (b ∷ bs))

  then_listen-Leaves :
      (t : Turn) (n : Node S) (v : Verdict S)
      → Leaves t n v
      → Leaves t n (then_listen read json c t v)
  then_listen-Leaves t n (crashes sent) h = tt
  then_listen-Leaves t n (breaks n1 sent) h = h
  then_listen-Leaves t n (goes_on n1 sent) h = listen-Leaves t t.received n n1 sent

  -- A node leaves the loop, and is reset, only because a report cannot be sent: whatever the sensors do,
  -- and whatever comes in, a turn ends the loop only if the node has been asked for its readings, its
  -- timer has fired, the sensors have been read without a panic, the report is printed, and sending it
  -- fails. No error of a sensor does it. The flag is cleared then, the sensors are as the reading left
  -- them, and nothing has been sent in that turn.
  pub turn-CannotSend :
      (t : Turn) (n n' : Node S) (sent : List Sent)
      → turn read json c t n ≡ breaks n' sent
      → CannotSend t n n' sent
  unfolding turn report_if_due
  turn-CannotSend t n n' sent e = subst (Leaves t n) e (
      then_listen-Leaves t n (report_to read json c t n.observer_addr n)
        (report_to-Leaves t n.observer_addr n refl))
