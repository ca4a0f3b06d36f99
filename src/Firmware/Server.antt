-- ===== src/Firmware/Server.antt =====
-- `coap_server_event_loop` of pmindp-esp32-thread/src/platform.rs from its start to its end: the set up
-- of the radio and of Thread, the loop, and what `main` of src/bin/main.rs makes of the result.
pub mod Ends
use plant_minder.Base.{
  ℕ, List, [], ◌∷◌, ◌++◌, Bool, true, false, Option, some, Result, ok, err, Outcome, returns,
  panics,
}
use plant_minder.Text.{Text}
use plant_minder.Sensor.{PlatformSensorError}
use plant_minder.Firmware.{Reading}
use plant_minder.Firmware.Platform.{Json}
use plant_minder.Firmware.Node.{
  Sent, Turn, Codec, Node, Verdict, goes_on, breaks, crashes, interrupted, turn, bound_port,
}

pub data Esp32PlatformError : Type 0 where
  sensor_error platform_error peripheral_error other_error : Esp32PlatformError

-- The fields that the code sets; the others have their defaults.
pub record Config : Type 0 where
  pub auto_ack_tx : Bool
  pub auto_ack_rx : Bool
  pub promiscuous : Bool
  pub rx_when_idle : Bool
  pub txpower : ℕ
  pub channel : ℕ

pub record ThreadTimestamp : Type 0 where
  pub seconds : ℕ
  pub ticks : ℕ
  pub authoritative : Bool

pub record OperationalDataset : Type 0 where
  pub active_timestamp : Option ThreadTimestamp
  pub network_key : Option (List ℕ)
  pub network_name : Option Text
  pub extended_pan_id : Option (List ℕ)
  pub pan_id : Option ℕ
  pub channel : Option ℕ
  pub channel_mask : Option ℕ

abbrev pub radio : Config
radio = record {
  auto_ack_tx = true;
  auto_ack_rx = true;
  promiscuous = false;
  rx_when_idle = false;
  txpower = 18;
  channel = 25;
}

-- `try_into` of the name succeeds: it is short enough.
abbrev pub dataset : OperationalDataset
dataset = record {
  active_timestamp = some (record { seconds = 1; ticks = 0; authoritative = false });
  network_key = some (
      0xfe ∷ 0x04 ∷ 0x58 ∷ 0xf7 ∷ 0xdb ∷ 0x96 ∷ 0x35 ∷ 0x4e ∷ 0xaa ∷ 0x60 ∷ 0x41 ∷ 0xb8 ∷ 0x80
      ∷ 0xea ∷ 0x9c ∷ 0x0f ∷ []);
  network_name = some (
      b'O' ∷ b'p' ∷ b'e' ∷ b'n' ∷ b'T' ∷ b'h' ∷ b'r' ∷ b'e' ∷ b'a' ∷ b'd' ∷ b'-' ∷ b'5' ∷ b'8'
      ∷ b'd' ∷ b'1' ∷ []);
  extended_pan_id = some (0x3a ∷ 0x90 ∷ 0xe3 ∷ 0xa3 ∷ 0x19 ∷ 0xa9 ∷ 0x04 ∷ 0x94 ∷ []);
  pan_id = some 0x58d1;
  channel = some 25;
  channel_mask = some 0x07fff800;
}

-- The calls of OpenThread that are unwrapped.
pub data ThreadCall : Type 0 where
  set_radio_config : Config → ThreadCall
  set_active_dataset : OperationalDataset → ThreadCall
  ipv6_set_enabled thread_set_enabled : Bool → ThreadCall
  get_udp_socket : ThreadCall
  bind : ℕ → ThreadCall

unfoldable pub set_up : List ThreadCall
set_up =
    set_radio_config radio
    ∷ set_active_dataset dataset
    ∷ ipv6_set_enabled true
    ∷ thread_set_enabled true
    ∷ get_udp_socket
    ∷ bind bound_port
    ∷ []

-- The calls that are made, one after the other, and whether all succeed: the first that fails panics.
unfoldable pub unwrapped : (ThreadCall → Bool) → List ThreadCall → List ThreadCall × Bool
unwrapped succeeds [] = ([], true)
unwrapped succeeds (c ∷ cs) =
    let (more, all) = unwrapped succeeds cs in
    elim (succeeds c) [ true ↦ (c ∷ more, all) | false ↦ (c ∷ [], false) ]

-- A turn of the loop, or an interrupt of the timer between two turns.
pub data Moment : Type 0 where
  one_turn : Turn → Moment
  timer_fires : Moment

-- The loop after some moments: at work, left by `break`, or stopped by a panic; with what was sent.
pub data Loop (S : Type 0) : Type 0 where
  running left : Node S → List Sent → Loop S
  panicked : List Sent → Loop S

-- The same of the whole function, with the calls that were made.
pub data Server (S : Type 0) : Type 0 where
  serving : List ThreadCall → Node S → List Sent → Server S
  returned : Result (Unit {0}) Esp32PlatformError → List ThreadCall → Node S → List Sent → Server S
  panicked : List ThreadCall → List Sent → Server S

-- Whether `main` resets the node: it does on an error, and else it enters the loop again.
abbrev pub resets_on : Result (Unit {0}) Esp32PlatformError → Bool
resets_on (ok _) = false
resets_on (err e) = true

module _ {S : Type 0} (read : List ℕ → ℕ → S → Reading S PlatformSensorError) (json : Json)
    (c : Codec) where
  abbrev pub having_sent : List Sent → Loop S → Loop S
  having_sent sent (running n more) = running n (sent ++ more)
  having_sent sent (left n more) = left n (sent ++ more)
  having_sent sent (Loop.panicked more) = Loop.panicked (sent ++ more)

  abbrev pub after_turn : Verdict S → (Node S → Loop S) → Loop S
  after_turn (goes_on n sent) next = having_sent sent (next n)
  after_turn (breaks n sent) next = left n sent
  after_turn (crashes sent) next = Loop.panicked sent

  abbrev pub after_interrupt : Outcome (Node S) → (Node S → Loop S) → Loop S
  after_interrupt (returns n) next = next n
  after_interrupt panics next = Loop.panicked []

  unfoldable pub loop : List Moment → Node S → Loop S
  unfolding turn interrupted
  loop [] n = running n []
  loop (one_turn t ∷ rest) n = after_turn (turn read json c t n) (loop rest)
  loop (timer_fires ∷ rest) n = after_interrupt (interrupted n) (loop rest)

  -- Thread is disabled after the loop, which panics if that fails.
  abbrev pub disabled : Bool → List ThreadCall → Node S → List Sent → Server S
  disabled true calls n sent =
      returned (err platform_error) (calls ++ thread_set_enabled false ∷ []) n sent
  disabled false calls n sent = Server.panicked (calls ++ thread_set_enabled false ∷ []) sent

  abbrev pub after_loop : (ThreadCall → Bool) → List ThreadCall → Loop S → Server S
  after_loop succeeds calls (running n sent) = serving calls n sent
  after_loop succeeds calls (left n sent) =
      disabled (succeeds (thread_set_enabled false)) calls n sent
  after_loop succeeds calls (Loop.panicked sent) = Server.panicked calls sent

  abbrev pub once_up : (ThreadCall → Bool) → List ThreadCall × Bool → Loop S → Server S
  once_up succeeds (calls, true) l = after_loop succeeds calls l
  once_up succeeds (calls, false) l = Server.panicked calls []

  unfoldable pub coap_server_event_loop : (ThreadCall → Bool) → List Moment → Node S → Server S
  unfolding loop set_up unwrapped
  coap_server_event_loop succeeds moments n =
      once_up succeeds (unwrapped succeeds set_up) (loop moments n)
