-- ===== src/Database/Readings.antt =====
-- The rows that a reading leaves.
use mathlib.Core.List.{append-nil}
use plant_minder.Base.{
  ℕ, ◌≡◌, refl, List, [], ◌∷◌, ◌++◌, Bool, true, false, Option, none, some, ok, err, ap, ◌∙◌,
}
use plant_minder.Sensor.{SensorReading, Gas, Light}
use plant_minder.Broker.Types.{Eui, NodeSensorReading}
use plant_minder.Database.{
  Sql, Queried, found, missing, query_failed, PlantRecord, Conversions, NewGasData, NewLightData,
  NewMoistureData, gas_row, light_row, moisture_row, insert_gas_if, insert_light_if, insert_rows,
  insert_queried, insert_reading, executed, and_next, Executed,
}
use plant_minder.Database.Laws.{SqlLaws, Tables}

module _ (Q : Sql) (L : SqlLaws Q) (c : Conversions) where
  abbrev pub gas_rows : Eui → ℕ → Option Gas → List NewGasData
  gas_rows eui ts none = []
  gas_rows eui ts (some g) = gas_row Q c eui ts g ∷ []

  abbrev pub light_rows : Eui → ℕ → Option Light → List NewLightData
  light_rows eui ts none = []
  light_rows eui ts (some l) = light_row Q c eui ts l ∷ []

  -- The tables with the rows of a reading of the plant.
  abbrev pub with_reading : Eui → SensorReading → Tables → Tables
  with_reading eui r t = record t {
    gas = t.gas ++ gas_rows eui r.ts r.gas;
    light = t.light ++ light_rows eui r.ts r.light;
    moisture = t.moisture ++ moisture_row Q c eui r.ts r.soil ∷ [];
  }

  and_next-ok :
      (p : Executed Q c) (next : Q.Store → Executed Q c)
      → (and_next Q c p next).0 ≡ ok tt
      → (p.0 ≡ ok tt) × ((next p.1).0 ≡ ok tt) × ((and_next Q c p next).1 ≡ (next p.1).1)
  and_next-ok (ok _, st) next h = (refl, h, refl)
  and_next-ok (err e, st) next h = cc

  gas_executed :
      (row : NewGasData) (st : Q.Store) (p : Bool × Q.Store)
      → Q.insert_gas row st ≡ p
      → (executed Q c p).0 ≡ ok tt
      → L.tables (executed Q c p).1 ≡ record (L.tables st) { gas = (L.tables st).gas ++ row ∷ [] }
  gas_executed row st (true, st') e done = L.gas_inserted row st st' e
  gas_executed row st (false, st') e done = cc

  light_executed :
      (row : NewLightData) (st : Q.Store) (p : Bool × Q.Store)
      → Q.insert_light row st ≡ p
      → (executed Q c p).0 ≡ ok tt
      → L.tables (executed Q c p).1
        ≡ record (L.tables st) { light = (L.tables st).light ++ row ∷ [] }
  light_executed row st (true, st') e done = L.light_inserted row st st' e
  light_executed row st (false, st') e done = cc

  moisture_executed :
      (row : NewMoistureData) (st : Q.Store) (p : Bool × Q.Store)
      → Q.insert_moisture row st ≡ p
      → (executed Q c p).0 ≡ ok tt
      → L.tables (executed Q c p).1
        ≡ record (L.tables st) { moisture = (L.tables st).moisture ++ row ∷ [] }
  moisture_executed row st (true, st') e done = L.moisture_inserted row st st' e
  moisture_executed row st (false, st') e done = cc

  insert_gas_if-ok :
      (eui : Eui) (ts : ℕ) (o : Option Gas) (st : Q.Store)
      → (insert_gas_if Q c eui ts o st).0 ≡ ok tt
      → L.tables (insert_gas_if Q c eui ts o st).1
        ≡ record (L.tables st) { gas = (L.tables st).gas ++ gas_rows eui ts o }
  unfolding insert_gas_if
  insert_gas_if-ok eui ts none st done = rw (append-nil (L.tables st).gas) refl
  insert_gas_if-ok eui ts (some g) st done = gas_executed (gas_row Q c eui ts g) st _ refl done

  insert_light_if-ok :
      (eui : Eui) (ts : ℕ) (o : Option Light) (st : Q.Store)
      → (insert_light_if Q c eui ts o st).0 ≡ ok tt
      → L.tables (insert_light_if Q c eui ts o st).1
        ≡ record (L.tables st) { light = (L.tables st).light ++ light_rows eui ts o }
  unfolding insert_light_if
  insert_light_if-ok eui ts none st done = rw (append-nil (L.tables st).light) refl
  insert_light_if-ok eui ts (some l) st done =
      light_executed (light_row Q c eui ts l) st _ refl done

  insert_rows-ok :
      (eui : Eui) (r : SensorReading) (st : Q.Store)
      → (insert_rows Q c eui r st).0 ≡ ok tt
      → L.tables (insert_rows Q c eui r st).1 ≡ with_reading eui r (L.tables st)
  unfolding insert_rows
  insert_rows-ok eui r st done =
      let st1 = (insert_gas_if Q c eui r.ts r.gas st).1 in
      let st2 = (insert_light_if Q c eui r.ts r.light st1).1 in
      let (gas_done, done1, e1) =
        and_next-ok (insert_gas_if Q c eui r.ts r.gas st)
          (λ s1.
            and_next Q c (insert_light_if Q c eui r.ts r.light s1)
              (λ s2. executed Q c (Q.insert_moisture (moisture_row Q c eui r.ts r.soil) s2)))
          done in
      let (light_done, done2, e2) =
        and_next-ok (insert_light_if Q c eui r.ts r.light st1)
          (λ s2. executed Q c (Q.insert_moisture (moisture_row Q c eui r.ts r.soil) s2)) done1 in
      ap L.tables (e1 ∙ e2)
      ∙ moisture_executed (moisture_row Q c eui r.ts r.soil) st2 _ refl done2
      ∙ ap
          (λ (t : Tables). record t {
            moisture = t.moisture ++ moisture_row Q c eui r.ts r.soil ∷ [];
          })
          (insert_light_if-ok eui r.ts r.light st1 light_done
            ∙ ap (λ (t : Tables). record t { light = t.light ++ light_rows eui r.ts r.light })
                (insert_gas_if-ok eui r.ts r.gas st gas_done))

  by_plant :
      (r : NodeSensorReading) (st : Q.Store) (q : Queried PlantRecord)
      → (insert_queried Q c r.reading st q).0 ≡ ok tt
      → (plant : PlantRecord) × (q ≡ found plant)
        × (L.tables (insert_queried Q c r.reading st q).1
            ≡ with_reading plant.eui r.reading (L.tables st))
  by_plant r st (found plant) done = (plant, refl, insert_rows-ok plant.eui r.reading st done)
  by_plant r st missing done = cc
  by_plant r st query_failed done = cc

  -- A reading that is stored without an error belongs to the first plant with the sender's address,
  -- and leaves a row of moisture, and rows of light and gas where it has them; nothing else changes.
  pub insert_reading_lem :
      (r : NodeSensorReading) (st : Q.Store)
      → (insert_reading Q c r st).0 ≡ ok tt
      → (plant : PlantRecord) × (Q.first_by_addr (c.show r.addr.ip) st ≡ found plant)
        × (L.tables (insert_reading Q c r st).1 ≡ with_reading plant.eui r.reading (L.tables st))
  unfolding insert_reading
  insert_reading_lem r st done = by_plant r st (Q.first_by_addr (c.show r.addr.ip) st) done
