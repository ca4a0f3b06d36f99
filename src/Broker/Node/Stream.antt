-- ===== src/Broker/Node/Stream.antt =====
-- The stream of a node's events: readings, and the event that ends it.
use plant_minder.Base.{ℕ, ◌≡◌, refl, List, [], ◌∷◌, ◌++◌, Option, none, some, take, All, All-append}
use mathlib.Core.List.{append_assoc}
use plant_minder.Net.{SocketAddrV6, v4, v6}
use plant_minder.Sensor.{SensorReading}
use plant_minder.Broker.Types.{NodeEvent, node_timeout, socket_failed, sensor_reading}
use plant_minder.Broker.Node.{
  Wakeup, sender_closed, timed_out, recv_failed, recv_from, sender_addr, stamped, report,
  receive_loop,
}

-- The datagrams before the first event that ends the task.
abbrev pub before_end : List Wakeup → List Wakeup
before_end [] = []
before_end (recv_from b a t ∷ rest) = recv_from b a t ∷ before_end rest
before_end (_ ∷ rest) = []

-- The address of the last sender of IPv6 data, and the bound address before there is one.
abbrev pub last_sender : SocketAddrV6 → List Wakeup → SocketAddrV6
last_sender addr [] = addr
last_sender addr (recv_from b (v6 a) t ∷ rest) = last_sender a rest
last_sender addr (_ ∷ rest) = last_sender addr rest

-- What the task says when it ends.
abbrev pub last_word : SocketAddrV6 → List Wakeup → List NodeEvent
last_word addr [] = []
last_word addr (sender_closed ∷ rest) = []
last_word addr (timed_out ∷ rest) = node_timeout addr ∷ []
last_word addr (recv_failed ∷ rest) = socket_failed addr ∷ []
last_word addr (recv_from b a t ∷ rest) = last_word addr rest

abbrev pub IsReading : NodeEvent → Type 0
IsReading (sensor_reading r) = Unit {0}
IsReading _ = ⊥

stamped-IsReading :
    (addr : SocketAddrV6) (t : ℕ) (r : Option SensorReading) → All IsReading (stamped addr t r)
stamped-IsReading addr t none = tt
stamped-IsReading addr t (some r) = (tt, tt)

module _ (parse : List ℕ → Option SensorReading) where
  -- The readings among some datagrams, each under the address that is known when it arrives.
  abbrev pub readings : SocketAddrV6 → List Wakeup → List NodeEvent
  readings addr [] = []
  readings addr (recv_from b a t ∷ rest) =
      stamped (last_sender addr (recv_from b a t ∷ [])) t (parse (take 512 b))
      ++ readings (last_sender addr (recv_from b a t ∷ [])) rest
  readings addr (_ ∷ rest) = readings addr rest

  -- The task reports the datagrams that parse, in order, until the first event that ends it, and
  -- then that event alone, under the address of the last sender.
  pub receive_loop_lem :
      (addr : SocketAddrV6) (ws : List Wakeup)
      → receive_loop parse addr ws
        ≡ readings addr (before_end ws) ++ last_word (last_sender addr (before_end ws)) ws
  unfolding receive_loop report sender_addr
  receive_loop_lem addr [] = refl
  receive_loop_lem addr (sender_closed ∷ ws) = refl
  receive_loop_lem addr (timed_out ∷ ws) = refl
  receive_loop_lem addr (recv_failed ∷ ws) = refl
  receive_loop_lem addr (recv_from b (v6 a) t ∷ ws) = rw (receive_loop_lem a ws, append_assoc)
  receive_loop_lem addr (recv_from b (v4 h p) t ∷ ws) = rw (receive_loop_lem addr ws, append_assoc)

  pub readings-IsReading :
      (addr : SocketAddrV6) (ws : List Wakeup) → All IsReading (readings addr ws)
  readings-IsReading addr [] = tt
  readings-IsReading addr (recv_from b a t ∷ ws) =
      let addr' = last_sender addr (recv_from b a t ∷ []) in
      All-append IsReading _ (readings addr' ws) (stamped-IsReading addr' t (parse (take 512 b)))
        (readings-IsReading addr' ws)
  readings-IsReading addr (sender_closed ∷ ws) = readings-IsReading addr ws
  readings-IsReading addr (timed_out ∷ ws) = readings-IsReading addr ws
  readings-IsReading addr (recv_failed ∷ ws) = readings-IsReading addr ws
