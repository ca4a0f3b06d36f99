-- ===== src/Firmware/Node/Progress.antt =====
-- A node that has been asked for its readings, and the reports that it can send from then on.
use mathlib.Core.Path.{subst}
use plant_minder.Base.{
  ℕ, zero, suc, ◌+◌, ◌≤◌, ◌≡◌, refl, ap, ◌∙◌, List, [], ◌∷◌, true, Option, some, returns, le→leb,
  arith, length,
}
use plant_minder.Sensor.{SensorReading, PlatformSensorError}
use plant_minder.Net.{Ipv6Addr}
use plant_minder.Firmware.{Reading}
use plant_minder.Firmware.Platform.{Json, sensor_read}
use plant_minder.Firmware.Platform.Reference.{
  Slot, Perform, bytes_in, report, sensor_read-reference,
}
use plant_minder.Firmware.Timer.{clear_interrupt, load_value, start}
use plant_minder.Firmware.Node.{
  report_sent, Turn, no_data, Codec, Node, goes_on, interrupted, report_if_due, turn, if_fired,
  report_to, send_report, with_statics, then_listen, after_read, unfire,
}
use plant_minder.Firmware.Node.Runs.{Run, fires, turns, Run-interrupt}

module _ {S : Type 0} (read : List ℕ → ℕ → S → Reading S PlatformSensorError) (json : Json)
    (c : Codec) where
  -- The sensors work, their report can be printed, and what they are afterwards is as good.
  abbrev pub Works : (List (Option S) → Type 0) → Type 0
  Works Good =
      (ss : List (Option S))
      → Good ss
      → (slots : List Slot) × (ss' : List (Option S)) × (bytes : List ℕ) × Perform read json ss
          slots ss'
        × (bytes_in slots ≤ 127)
        × (c.report_json (report json slots) ≡ some bytes)
        × Good ss'

  -- A turn in which the report can be sent and nothing comes in.
  abbrev pub quiet : List ℕ → Turn
  quiet buffer = record {
    send_data_buf = buffer;
    send_ok = true;
    received = no_data;
    reply_ok = true;
  }

  -- The sensors give the report `d`.
  pub turn-sensed :
      (n : Node S) (a : Ipv6Addr) (p : ℕ) (buffer : List ℕ) (d : SensorReading)
      (ss' : List (Option S)) (bytes : List ℕ)
      → n.observer_addr ≡ some (a, p)
      → n.statics.sensor_timer_fired ≡ true
      → sensor_read read json buffer n.sensors ≡ returns (d, ss')
      → c.report_json d ≡ some bytes
      → turn read json c (quiet buffer) n
        ≡ goes_on (record (unfire n) { sensors = ss' }) (report_sent bytes a p ∷ [])
  unfolding turn report_if_due
  turn-sensed n a p buffer d ss' bytes known fired sensed printed =
      let t = quiet buffer in
      ap (λ o. then_listen read json c t (report_to read json c t o n)) known
      ∙ ap (λ b. then_listen read json c t (if_fired read json c t a p n b)) fired
      ∙ ap (λ r. then_listen read json c t (after_read read json c t a p (unfire n) r)) sensed
      ∙ ap
          (λ printing.
            then_listen read json c t
              (send_report read json c t a p (record (unfire n) { sensors = ss' }) printing))
          printed

  pub turn-quiet :
      (n : Node S) (a : Ipv6Addr) (p : ℕ) (buffer : List ℕ) (slots : List Slot)
      (ss' : List (Option S)) (bytes : List ℕ)
      → n.observer_addr ≡ some (a, p)
      → n.statics.sensor_timer_fired ≡ true
      → Perform read json n.sensors slots ss'
      → bytes_in slots ≤ length buffer
      → c.report_json (report json slots) ≡ some bytes
      → turn read json c (quiet buffer) n
        ≡ goes_on (record (unfire n) { sensors = ss' }) (report_sent bytes a p ∷ [])
  turn-quiet n a p buffer slots ss' bytes known fired works fits printed =
      turn-sensed n a p buffer (report json slots) ss' bytes known fired
        (sensor_read-reference read json buffer n.sensors slots ss' works
          ∙ rw (le→leb _ _ fits) refl)
        printed

  -- After one interrupt and one turn a report more is sent, and the node is as before.
  one_report :
      (Good : List (Option S) → Type 0) (sensors : List (Option S)) (a : Ipv6Addr) (p : ℕ)
      (buffer : List ℕ)
      → Works Good
      → length buffer ≡ 127
      → {i r : ℕ} {n : Node S} → Run read json c sensors i r n
      → n.observer_addr ≡ some (a, p)
      → Good n.sensors
      → (n' : Node S) × Run read json c sensors (suc i) (r + 1) n'
        × (n'.observer_addr ≡ some (a, p))
        × Good n'.sensors
  unfolding interrupted unfire
  one_report Good sensors a p buffer work long {n} run known good =
      let (slots, ss', bytes, performs, fits, printed, good') = work n.sensors good in
      let (s', fired, flagged) = Run-interrupt read json c sensors run in
      let n1 : Node S = record n { statics = record n.statics { sensor_timer_fired = true } } in
      (
        record (unfire n1) { sensors = ss' },
        turns (quiet buffer) (report_sent bytes a p ∷ [])
            (fires run (
              ap (with_statics n) (
                fired
                ∙ ap (λ s. returns (s, clear_interrupt ∷ load_value 25000 ∷ start ∷ [])) flagged)))
            (turn-quiet n1 a p buffer slots ss' bytes known refl performs (omega arith) printed),
        known,
        good',
      )

  counted :
      (sensors : List (Option S)) {i r i' r' : ℕ} {n : Node S}
      → i ≡ i'
      → r ≡ r'
      → Run read json c sensors i r n
      → Run read json c sensors i' r' n
  counted sensors {r} {i'} {n} e d run =
      subst (λ (m : ℕ). Run read json c sensors i' m n) d
        (subst (λ (m : ℕ). Run read json c sensors m r n) e run)

  -- Once it has been asked, a node whose sensors work goes on to report: whatever has happened so far,
  -- and however often the timer is to fire from now on, it can send a report for each time, if the
  -- turns are quiet, and it still knows its observer then.
  pub keeps_reporting :
      (Good : List (Option S) → Type 0) (sensors : List (Option S)) (a : Ipv6Addr) (p : ℕ)
      (buffer : List ℕ)
      → Works Good
      → length buffer ≡ 127
      → {i r : ℕ} {n : Node S} → Run read json c sensors i r n
      → n.observer_addr ≡ some (a, p)
      → Good n.sensors
      → (k : ℕ)
      → (n' : Node S) × Run read json c sensors (i + k) (r + k) n'
        × (n'.observer_addr ≡ some (a, p))
        × Good n'.sensors
  keeps_reporting Good sensors a p buffer work long {i} {r} {n} run known good zero =
      (n, counted sensors (omega arith) (omega arith) run, known, good)
  keeps_reporting Good sensors a p buffer work long {i} {r} {n} run known good (suc k) =
      let (n1, run1, known1, good1) =
        keeps_reporting Good sensors a p buffer work long run known good k in
      let (n2, run2, known2, good2) =
        one_report Good sensors a p buffer work long run1 known1 good1 in
      (n2, counted sensors (omega arith) (omega arith) run2, known2, good2)
