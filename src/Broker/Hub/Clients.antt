-- ===== src/Broker/Hub/Clients.antt =====
-- Which channels are served after a client subscribes or unsubscribes.
use plant_minder.Base.{
  ℕ, ◌+◌, ◌≡◌, [], ◌∷◌, Bool, true, false, Option, none, some, if◌then◌else◌, ◌==◌, nat_eq,
  nat_beq_iff, arith,
}
use plant_minder.Map.{lookup, insert, remove, IsMap}
use plant_minder.Map.Laws.{remove_absent, insert-IsMap, remove-IsMap}
use plant_minder.Broker.Types.{NodeSensorReading}
use plant_minder.Broker.Hub.{
  Sender, Broker, Subscribers, subscribe, unsubscribe, handle_api, send_readings,
}
use plant_minder.Broker.Hub.FanOut.{readings_to, data_copies, no_readings, one_reading}

-- Whether the entry uses the channel for readings.
abbrev uses : Sender → Option (Sender × Sender) → ℕ
uses c none = 0
uses c (some (d, s)) = if d == c then 1 else 0

data_copies-insert :
    (c id r s : ℕ) (m : Subscribers)
    → data_copies c (insert id (r, s) m) + uses c (lookup id m)
      ≡ data_copies c m + (if r == c then 1 else 0)
unfolding insert lookup
data_copies-insert c id r s [] = omega arith
data_copies-insert c id r s ((j, (d, t)) ∷ m) = ground (arith, data_copies-insert c id r s m)

data_copies-remove :
    (c id : ℕ) (m : Subscribers)
    → IsMap m
    → data_copies c (remove id m) + uses c (lookup id m) ≡ data_copies c m
unfolding remove lookup
data_copies-remove c id [] h = omega arith
data_copies-remove c id ((j, (d, t)) ∷ m) h =
    ground (arith, data_copies-remove c id m h.1, remove_absent id m, nat_beq_iff j id)

module _ (alive : Sender → Bool) (b : Broker) (id c d : ℕ) where
  -- A client that unsubscribes gets no more readings, and a client that subscribes again under its
  -- identifier, on a channel that is open and in no entry yet, gets them on that channel only. The
  -- table repeats no identifier, before and after.
  pub handle_api_lem :
      (r s : ℕ) (x : NodeSensorReading)
      → IsMap b.subscribers
      → lookup id b.subscribers ≡ some (c, d)
      → data_copies c b.subscribers ≡ 1
      → data_copies r b.subscribers ≡ 0
      → alive r ≡ true
      → let gone = (handle_api alive b (unsubscribe id)).subscribers in
        let moved = (handle_api alive b (subscribe id r s)).subscribers in
        (readings_to c (send_readings alive gone x) ≡ [])
        × (readings_to c (send_readings alive moved x) ≡ [])
        × (readings_to r (send_readings alive moved x) ≡ x ∷ [])
        × IsMap gone
        × IsMap moved
  unfolding handle_api
  handle_api_lem r s x m h once fresh live = (
    no_readings alive c _ x (omega (arith, unused)),
    no_readings alive c _ x (omega (arith, unused_by_new)),
    one_reading alive r _ x live (omega (arith, used_by_new)),
    remove-IsMap id b.subscribers m,
    insert-IsMap id (r, s) b.subscribers m,
  )
    where
      unused : data_copies c (remove id b.subscribers) ≡ 0
      unused = ground (arith, data_copies-remove c id b.subscribers m, h, once)

      other : (c == r) ≡ false
      other = ground (arith, nat_beq_iff c r, once, fresh)

      unused_by_new : data_copies c (insert id (r, s) b.subscribers) ≡ 0
      unused_by_new = ground (arith, data_copies-insert c id r s b.subscribers, h, once, other)

      used_by_new : data_copies r (insert id (r, s) b.subscribers) ≡ 1
      used_by_new = ground (arith, data_copies-insert r id r s b.subscribers, h, fresh, other)
