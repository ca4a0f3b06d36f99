-- ===== src/Firmware/Node/Runs.antt =====
-- The runs of a node, with interrupts between its turns and resets: what holds in every state.
use mathlib.Core.Path.{subst}
use plant_minder.Base.{
  inl, inr, Bool-cases, ℕ, suc, ◌+◌, ◌≤◌, ◌≡◌, refl, List, [], ◌∷◌, ◌++◌, Bool, true, false, Option,
  none, some, returns, panics, if◌then◌else◌, arith,
}
use plant_minder.Sensor.{PlatformSensorError}
use plant_minder.Net.{Ipv6Addr}
use plant_minder.Firmware.{Reading}
use plant_minder.Firmware.Platform.{Json, Sensed, sensor_read, answer}
use plant_minder.Firmware.Timer.{
  Statics, sensor_timer_interrupt, clear_interrupt, load_value, start,
}
use plant_minder.Firmware.Node.{
  Sent, report_sent, answer_sent, authenticate_sent, Turn, Incoming, receive_error, no_data,
  incoming, Codec, Node, Verdict, goes_on, breaks, crashes, bound_port, init, interrupted,
  report_if_due, turn, listen, then_listen, after_read, send_report, report_to, if_fired, unfire,
  accept,
}

abbrev pub reports : List Sent → ℕ
reports [] = 0
reports (report_sent bytes to port ∷ sent) = suc (reports sent)
reports (answer_sent bytes to port ∷ sent) = reports sent
reports (authenticate_sent to port ∷ sent) = reports sent

pub reports-append : (xs ys : List Sent) → reports (xs ++ ys) ≡ reports xs + reports ys
reports-append [] ys = omega arith
reports-append (report_sent bytes to port ∷ xs) ys = omega (arith, reports-append xs ys)
reports-append (answer_sent bytes to port ∷ xs) ys = reports-append xs ys
reports-append (authenticate_sent to port ∷ xs) ys = reports-append xs ys

abbrev pub fired_once : Statics → ℕ
fired_once s = if s.sensor_timer_fired then 1 else 0

-- The timer is there and keeps its interval.
abbrev pub IsArmed : Statics → Type 0
IsArmed s = (s.sensor_timer ≡ true) × (s.sensor_timer_interval ≡ 25000)

module _ {S : Type 0} (read : List ℕ → ℕ → S → Reading S PlatformSensorError) (json : Json)
    (c : Codec) (sensors : List (Option S)) where
  -- A node that has run since `main` began, with the number of interrupts of the timer and of
  -- reports sent.
  pub data Run : ℕ → ℕ → Node S → Type 0 where
    boots : Run 0 0 (init sensors)
    fires : {i r : ℕ} {n n' : Node S} → Run i r n → interrupted n ≡ returns n' → Run (suc i) r n'
    turns :
        {i r : ℕ} {n n' : Node S} (t : Turn) (sent : List Sent)
        → Run i r n
        → turn read json c t n ≡ goes_on n' sent
        → Run i (r + reports sent) n'
    resets :
        {i r : ℕ} {n n' : Node S} (t : Turn) (sent : List Sent)
        → Run i r n
        → turn read json c t n ≡ breaks n' sent
        → Run i (r + reports sent) (init sensors)

  -- The statics and the reports of a turn: a report uses up the flag.
  abbrev pub Uses : Node S → Verdict S → Type 0
  Uses n (crashes sent) = reports sent ≤ fired_once n.statics
  Uses n (breaks n' sent) = reports sent ≤ fired_once n.statics
  Uses n (goes_on n' sent) =
      (reports sent + fired_once n'.statics ≤ fired_once n.statics)
      × (n'.statics.sensor_timer ≡ n.statics.sensor_timer)
      × (n'.statics.sensor_timer_interval ≡ n.statics.sensor_timer_interval)

  -- The second node is the first with the flag cleared, and with other sensors.
  abbrev pub Spent : Node S → Node S → Type 0
  Spent n n1 =
      (n.statics.sensor_timer_fired ≡ true)
      × (n1.statics.sensor_timer_fired ≡ false)
      × (n1.statics.sensor_timer ≡ n.statics.sensor_timer)
      × (n1.statics.sensor_timer_interval ≡ n.statics.sensor_timer_interval)

  send_report-Uses :
      (t : Turn) (a : Ipv6Addr) (p : ℕ) (n n1 : Node S) (bytes : Option (List ℕ))
      → Spent n n1
      → Uses n (send_report read json c t a p n1 bytes)
  send_report-Uses t a p n n1 none h = ground arith
  send_report-Uses t a p n n1 (some bytes) h =
      elim t.send_ok
        as (λ b.
          Uses n
            (elim b [ true ↦ goes_on n1 (report_sent bytes a p ∷ []) | false ↦ breaks n1 [] ])) [
              | true ↦ ground arith
              | false ↦ ground arith
            ]

  after_read-Uses :
      (t : Turn) (a : Ipv6Addr) (p : ℕ) (n n1 : Node S) (sensed : Sensed S)
      → Spent n n1
      → Uses n (after_read read json c t a p n1 sensed)
  after_read-Uses t a p n n1 panics h = omega arith
  after_read-Uses t a p n n1 (returns (d, ss)) h =
      send_report-Uses t a p n (record n1 { sensors = ss }) (c.report_json d) h

  if_fired-Uses :
      (t : Turn) (a : Ipv6Addr) (p : ℕ) (n : Node S) (fired : Bool)
      → n.statics.sensor_timer_fired ≡ fired
      → Uses n (if_fired read json c t a p n fired)
  unfolding unfire
  if_fired-Uses t a p n true e =
      after_read-Uses t a p n (unfire n) (sensor_read read json t.send_data_buf n.sensors)
        (e, refl, refl, refl)
  if_fired-Uses t a p n false e = ground arith

  report_to-Uses :
      (t : Turn) (o : Option (Ipv6Addr × ℕ)) (n : Node S) → Uses n (report_to read json c t o n)
  report_to-Uses t none n = ground arith
  report_to-Uses t (some (a, p)) n = if_fired-Uses t a p n _ refl

  accept-Uses :
      (t : Turn) (from : Ipv6Addr) (n n1 : Node S) (sent : List Sent) (x : Option (ℕ × Bool))
      → Uses n (goes_on n1 sent)
      → Uses n (accept read json c t from n1 sent x)
  accept-Uses t from n n1 sent (some (id, true)) u =
      let a = answer c.to_bytes c.eui c.plant_name from id in
      ground (arith, reports-append sent (answer_sent a.datagram from a.to_port ∷ []))
  accept-Uses t from n n1 sent (some (id, false)) u = omega (arith, u.0)
  accept-Uses t from n n1 sent none u = elim (Bool-cases t.reply_ok) [
    | inl replied ↦
        rw replied (ground (arith, reports-append sent (authenticate_sent from bound_port ∷ [])))
    | inr failed ↦ rw failed (omega (arith, u.0))
  ]

  listen-Uses :
      (t : Turn) (received : Incoming) (n n1 : Node S) (sent : List Sent)
      → Uses n (goes_on n1 sent)
      → Uses n (listen read json c t received n1 sent)
  listen-Uses t receive_error n n1 sent u = omega (arith, u.0)
  listen-Uses t no_data n n1 sent u = u
  listen-Uses t (incoming [] from) n n1 sent u = u
  listen-Uses t (incoming (b ∷ bs) from) n n1 sent u =
      accept-Uses t from n n1 sent (c.from_bytes (b ∷ bs)) u

  then_listen-Uses :
      (t : Turn) (n : Node S) (v : Verdict S) → Uses n v → Uses n (then_listen read json c t v)
  then_listen-Uses t n (crashes sent) u = u
  then_listen-Uses t n (breaks n1 sent) u = u
  then_listen-Uses t n (goes_on n1 sent) u = listen-Uses t t.received n n1 sent u

  -- A turn sends a report only if it uses up the flag, also if it crashes later.
  pub turn-Uses : (t : Turn) (n : Node S) → Uses n (turn read json c t n)
  unfolding turn report_if_due
  turn-Uses t n =
      then_listen-Uses t n (report_to read json c t n.observer_addr n)
        (report_to-Uses t n.observer_addr n)

  -- However interrupts, turns and resets follow one another, a node has never sent more reports than
  -- its timer has fired, and the timer is set to fire every 25 seconds.
  pub Run-reports :
      {i r : ℕ} {n : Node S} → Run i r n → (r + fired_once n.statics ≤ i) × IsArmed n.statics
  unfolding init interrupted sensor_timer_interrupt
  Run-reports boots = (omega arith, (refl, refl))
  Run-reports (fires {n} run e) = let before = Run-reports run in ground arith
  Run-reports (turns {n} {n'} t sent run e) =
      let uses : Uses n (goes_on n' sent) = subst (Uses n) e (turn-Uses t n) in
      let before = Run-reports run in ground arith
  Run-reports (resets {n} {n'} t sent run e) =
      let uses : Uses n (breaks n' sent) = subst (Uses n) e (turn-Uses t n) in
      let before = Run-reports run in (omega arith, (refl, refl))

  -- The interrupt never panics: it sets the flag, and starts the timer again with the 25 seconds.
  pub Run-interrupt :
      {i r : ℕ} {n : Node S}
      → Run i r n
      → (s' : Statics) × (sensor_timer_interrupt n.statics
          ≡ returns (s', clear_interrupt ∷ load_value 25000 ∷ start ∷ []))
        × (s' ≡ record n.statics { sensor_timer_fired = true })
  unfolding sensor_timer_interrupt
  Run-interrupt {n} run =
      let (_, (there, interval)) = Run-reports run in
      (record n.statics { sensor_timer_fired = true }, ground arith, refl)
