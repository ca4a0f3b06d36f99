-- ===== src/Firmware/Node.antt =====
-- A node at work: one turn of `coap_server_event_loop` of pmindp-esp32-thread/src/platform.rs, the
-- interrupts between the turns, and `main` of src/bin/main.rs, which resets the node when the loop
-- ends.

pub mod Turns
pub mod Progress
pub mod Runs
pub mod Leaving
use plant_minder.Base.{
  ℕ, suc, ◌+◌, List, [], ◌∷◌, ◌++◌, Bool, true, false, Option, none, some, Outcome, returns, panics,
}
use plant_minder.Net.{Ipv6Addr}
use plant_minder.Sensor.{SensorReading, PlatformSensorError}
use plant_minder.Firmware.{Reading}
use plant_minder.Firmware.Platform.{Json, Sensed, sensor_read, answer}
use plant_minder.Firmware.Timer.{
  TimerCommand, Statics, initial, setup_sensor_timer, sensor_timer_interrupt,
}

abbrev pub bound_port : ℕ
bound_port = 1212

-- What the node sends, to an address and a port: a report, an answer to a request, or the reply to
-- what is no CoAP message.
pub data Sent : Type 0 where
  report_sent answer_sent : List ℕ → Ipv6Addr → ℕ → Sent
  authenticate_sent : Ipv6Addr → ℕ → Sent

-- What `socket.receive` gives: an error, no data, or a datagram with its sender.
pub data Incoming : Type 0 where
  receive_error no_data : Incoming
  incoming : List ℕ → Ipv6Addr → Incoming

-- The world's part in a turn: what earlier reads left in the buffer for the report, whether the
-- report is sent, what comes in, and whether the reply to it is sent.
pub record Turn : Type 0 where
  pub send_data_buf : List ℕ
  pub send_ok : Bool
  pub received : Incoming
  pub reply_ok : Bool

-- `Packet::from_bytes` with `CoapRequest::from_packet`, down to the message id and whether there is a
-- response to fill in; `to_bytes` of the response; `serde_json::to_vec` of the report; and what the
-- node knows itself by.
pub record Codec : Type 0 where
  pub from_bytes : List ℕ → Option (ℕ × Bool)
  pub to_bytes : List ℕ → List ℕ
  pub report_json : SensorReading → Option (List ℕ)
  pub eui : List ℕ
  pub plant_name : List ℕ

-- The statics, the sensors and the address that asked for the readings.
pub record Node (S : Type 0) : Type 0 where
  pub statics : Statics
  pub sensors : List (Option S)
  pub observer_addr : Option (Ipv6Addr × ℕ)

-- A turn goes on to the next, ends the loop, or panics; with what it has sent by then.
pub data Verdict (S : Type 0) : Type 0 where
  goes_on breaks : Node S → List Sent → Verdict S
  crashes : List Sent → Verdict S

module _ {S : Type 0} where
  -- `init` of lib.rs and `Esp32Platform::new`.
  unfoldable pub init : List (Option S) → Node S
  unfolding setup_sensor_timer initial
  init sensors = record {
    statics = (setup_sensor_timer 25000 initial).0;
    sensors = sensors;
    observer_addr = none;
  }

  -- The interrupt, whatever the loop is at; the commands go to the timer.
  abbrev pub with_statics : Node S → Outcome (Statics × List TimerCommand) → Outcome (Node S)
  with_statics n panics = panics
  with_statics n (returns (s, commands)) = returns (record n { statics = s })

  unfoldable pub interrupted : Node S → Outcome (Node S)
  unfolding sensor_timer_interrupt
  interrupted n = with_statics n (sensor_timer_interrupt n.statics)

  unfoldable pub unfire : Node S → Node S
  unfire n = record n { statics = record n.statics { sensor_timer_fired = false } }

  module _ (read : List ℕ → ℕ → S → Reading S PlatformSensorError) (json : Json) (c : Codec) where
    -- A report that cannot be sent closes the socket and ends the loop.
    abbrev pub send_report : Turn → Ipv6Addr → ℕ → Node S → Option (List ℕ) → Verdict S
    send_report t observer port n none = goes_on n []
    send_report t observer port n (some bytes) = elim t.send_ok [
      | true ↦ goes_on n (report_sent bytes observer port ∷ [])
      | false ↦ breaks n []
    ]

    abbrev pub after_read : Turn → Ipv6Addr → ℕ → Node S → Sensed S → Verdict S
    after_read t observer port n panics = crashes []
    after_read t observer port n (returns (d, sensors)) =
        send_report t observer port (record n { sensors = sensors }) (c.report_json d)

    -- With an observer the flag is cleared, and if it was set the sensors are read.
    abbrev pub if_fired : Turn → Ipv6Addr → ℕ → Node S → Bool → Verdict S
    if_fired t observer port n true =
        after_read t observer port (unfire n) (sensor_read read json t.send_data_buf n.sensors)
    if_fired t observer port n false = goes_on (unfire n) []

    abbrev pub report_to : Turn → Option (Ipv6Addr × ℕ) → Node S → Verdict S
    report_to t none n = goes_on n []
    report_to t (some (observer, port)) n = if_fired t observer port n n.statics.sensor_timer_fired

    unfoldable pub report_if_due : Turn → Node S → Verdict S
    unfolding unfire sensor_read
    report_if_due t n = report_to t n.observer_addr n

    -- A request is answered and its sender becomes the observer; a message that takes no response
    -- panics at `request.response.unwrap()`.
    abbrev pub accept : Turn → Ipv6Addr → Node S → List Sent → Option (ℕ × Bool) → Verdict S
    accept t from n sent (some (message_id, true)) =
        let a = answer c.to_bytes c.eui c.plant_name from message_id in
        goes_on (record n { observer_addr = some a.observer })
          (sent ++ answer_sent a.datagram from a.to_port ∷ [])
    accept t from n sent (some (message_id, false)) = crashes sent
    accept t from n sent none = elim t.reply_ok [
      | true ↦ goes_on n (sent ++ authenticate_sent from bound_port ∷ [])
      | false ↦ crashes sent
    ]

    abbrev pub listen : Turn → Incoming → Node S → List Sent → Verdict S
    listen t receive_error n sent = crashes sent
    listen t no_data n sent = goes_on n sent
    listen t (incoming [] from) n sent = goes_on n sent
    listen t (incoming (b ∷ bs) from) n sent = accept t from n sent (c.from_bytes (b ∷ bs))

    abbrev pub then_listen : Turn → Verdict S → Verdict S
    then_listen t (crashes sent) = crashes sent
    then_listen t (breaks n sent) = breaks n sent
    then_listen t (goes_on n sent) = listen t t.received n sent

    unfoldable pub turn : Turn → Node S → Verdict S
    unfolding report_if_due answer
    turn t n = then_listen t (report_if_due t n)
