-- ===== src/Firmware/Node/Turns.antt =====
-- What a turn of a node does for the one who asked for its readings.
use plant_minder.Base.{
  ℕ, ◌≡◌, refl, ◌⊎◌, inl, inr, List, [], ◌∷◌, ◌++◌, Bool, true, false, Option, none, some, returns,
  panics, All, All-append,
}
use plant_minder.Sensor.{PlatformSensorError}
use plant_minder.Net.{Ipv6Addr}
use plant_minder.Firmware.{Reading}
use plant_minder.Firmware.Platform.{Json, Sensed, sensor_read, answer}
use plant_minder.Firmware.Node.{
  Sent, report_sent, answer_sent, authenticate_sent, Turn, Incoming, receive_error, no_data,
  incoming, Codec, Node, Verdict, goes_on, breaks, crashes, bound_port, report_if_due, turn, listen,
  then_listen, after_read, send_report, report_to, if_fired, unfire, accept,
}

-- A report goes to the one who asked.
abbrev pub IsFor : Option (Ipv6Addr × ℕ) → Sent → Type 0
IsFor o (report_sent bytes a p) = o ≡ some (a, p)
IsFor o (answer_sent bytes a p) = Unit
IsFor o (authenticate_sent a p) = Unit

module _ {S : Type 0} (read : List ℕ → ℕ → S → Reading S PlatformSensorError) (json : Json)
    (c : Codec) where
  -- The observer stays, or is the sender of a request that came in.
  abbrev pub Observed : Turn → Option (Ipv6Addr × ℕ) → Option (Ipv6Addr × ℕ) → Type 0
  Observed t o o' =
      (o' ≡ o)
      ⊎ ((bytes : List ℕ) × (from : Ipv6Addr) × (id : ℕ) × (t.received ≡ incoming bytes from)
          × (c.from_bytes bytes ≡ some (id, true))
          × (o' ≡ some (from, id)))

  abbrev pub Serves : Turn → Option (Ipv6Addr × ℕ) → Verdict S → Type 0
  Serves t o (crashes sent) = All (IsFor o) sent
  Serves t o (breaks n' sent) = All (IsFor o) sent
  Serves t o (goes_on n' sent) = All (IsFor o) sent × Observed t o n'.observer_addr

  -- Before anything comes in.
  abbrev Reports : Option (Ipv6Addr × ℕ) → Verdict S → Type 0
  Reports o (crashes sent) = All (IsFor o) sent
  Reports o (breaks n' sent) = All (IsFor o) sent
  Reports o (goes_on n' sent) = All (IsFor o) sent × (n'.observer_addr ≡ o)

  send_report-Reports :
      (t : Turn) (a : Ipv6Addr) (p : ℕ) (n1 : Node S) (bytes : Option (List ℕ))
      → n1.observer_addr ≡ some (a, p)
      → Reports (some (a, p)) (send_report read json c t a p n1 bytes)
  send_report-Reports t a p n1 none h = (tt, h)
  send_report-Reports t a p n1 (some bytes) h =
      elim t.send_ok
        as (λ b.
          Reports (some (a, p))
            (elim b [ true ↦ goes_on n1 (report_sent bytes a p ∷ []) | false ↦ breaks n1 [] ])) [
              | true ↦ ((refl, tt), h)
              | false ↦ tt
            ]

  after_read-Reports :
      (t : Turn) (a : Ipv6Addr) (p : ℕ) (n1 : Node S) (sensed : Sensed S)
      → n1.observer_addr ≡ some (a, p)
      → Reports (some (a, p)) (after_read read json c t a p n1 sensed)
  after_read-Reports t a p n1 panics h = tt
  after_read-Reports t a p n1 (returns (d, ss)) h =
      send_report-Reports t a p (record n1 { sensors = ss }) (c.report_json d) h

  if_fired-Reports :
      (t : Turn) (a : Ipv6Addr) (p : ℕ) (n : Node S) (fired : Bool)
      → n.observer_addr ≡ some (a, p)
      → Reports (some (a, p)) (if_fired read json c t a p n fired)
  unfolding unfire
  if_fired-Reports t a p n true h =
      after_read-Reports t a p (unfire n) (sensor_read read json t.send_data_buf n.sensors) h
  if_fired-Reports t a p n false h = (tt, h)

  report_to-Reports :
      (t : Turn) (o : Option (Ipv6Addr × ℕ)) (n : Node S)
      → n.observer_addr ≡ o
      → Reports o (report_to read json c t o n)
  report_to-Reports t none n h = (tt, h)
  report_to-Reports t (some (a, p)) n h = if_fired-Reports t a p n _ h

  accept-Serves :
      (t : Turn) (bytes : List ℕ) (from : Ipv6Addr) (o : Option (Ipv6Addr × ℕ)) (n1 : Node S)
      (sent : List Sent) (x : Option (ℕ × Bool))
      → t.received ≡ incoming bytes from
      → c.from_bytes bytes ≡ x
      → Reports o (goes_on n1 sent)
      → Serves t o (accept read json c t from n1 sent x)
  unfolding answer
  accept-Serves t bytes from o n1 sent (some (id, true)) e d (h, k) =
      (All-append (IsFor o) sent (_ ∷ []) h (tt, tt), inr (bytes, from, id, e, d, refl))
  accept-Serves t bytes from o n1 sent (some (id, false)) e d (h, k) = h
  accept-Serves t bytes from o n1 sent none e d (h, k) =
      elim t.reply_ok
        as (λ b. Serves t o (elim b [
          | true ↦ goes_on n1 (sent ++ authenticate_sent from bound_port ∷ [])
          | false ↦ crashes sent
        ])) [ true ↦ (All-append (IsFor o) sent (_ ∷ []) h (tt, tt), inl k) | false ↦ h ]

  listen-Serves :
      (t : Turn) (received : Incoming) (o : Option (Ipv6Addr × ℕ)) (n1 : Node S) (sent : List Sent)
      → t.received ≡ received
      → Reports o (goes_on n1 sent)
      → Serves t o (listen read json c t received n1 sent)
  listen-Serves t receive_error o n1 sent e (h, k) = h
  listen-Serves t no_data o n1 sent e (h, k) = (h, inl k)
  listen-Serves t (incoming [] from) o n1 sent e (h, k) = (h, inl k)
  listen-Serves t (incoming (b ∷ bs) from) o n1 sent e h =
      accept-Serves t (b ∷ bs) from o n1 sent (c.from_bytes (b ∷ bs)) e refl h

  then_listen-Serves :
      (t : Turn) (o : Option (Ipv6Addr × ℕ)) (v : Verdict S)
      → Reports o v
      → Serves t o (then_listen read json c t v)
  then_listen-Serves t o (crashes sent) h = h
  then_listen-Serves t o (breaks n1 sent) h = h
  then_listen-Serves t o (goes_on n1 sent) h = listen-Serves t t.received o n1 sent refl h

  -- In a turn, also in one that crashes, a node reports to nobody but the observer that it knows, and
  -- without one to nobody; if the turn goes on, the observer changes only to the sender of a request
  -- that is answered, at the port that the request names by its message id.
  pub turn-Serves : (t : Turn) (n : Node S) → Serves t n.observer_addr (turn read json c t n)
  unfolding turn report_if_due
  turn-Serves t n =
      then_listen-Serves t n.observer_addr (report_to read json c t n.observer_addr n)
        (report_to-Reports t n.observer_addr n refl)
