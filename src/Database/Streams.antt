-- ===== src/Database/Streams.antt =====
-- The task that stores the readings: what it leaves of a plant in the end.
use mathlib.Core.List.{append-nil, append_assoc}
use plant_minder.Base.{
  ℕ, ◌≡◌, ◌⊎◌, inl, inr, refl, sym, ◌∙◌, List, [], ◌∷◌, ◌++◌, false, Option, none, some,
  if◌then◌else◌, ok, keep, keep-append, ◌==◌, list_eq, list_beq_iff, Bool-cases, arith,
}
use plant_minder.Map.{lookup}
use plant_minder.Text.{Text}
use plant_minder.Sensor.{Gas, Light}
use plant_minder.Broker.Types.{Eui, NodeSensorReading}
use plant_minder.Database.{
  Sql, found, missing, PlantRecord, Conversions, NewGasData, NewLightData, NewMoistureData, gas_row,
  light_row, moisture_row, insert_reading, stream_task,
}
use plant_minder.Database.Laws.{SqlLaws, Tables}
use plant_minder.Database.Readings.{gas_rows, light_rows, with_reading, insert_reading_lem}

-- The query by address finds a plant of the table that has the address, and misses only if none has it.
pub record AddrLaws (Q : Sql) (L : SqlLaws Q) : Type 0 where
  pub addr_found :
      (a : Text) (st : Q.Store) (p : PlantRecord)
      → Q.first_by_addr a st ≡ found p
      → (lookup p.eui (L.tables st).plants ≡ some p) × (p.addr ≡ a)
  pub addr_missing :
      (a : Text) (st : Q.Store)
      → Q.first_by_addr a st ≡ missing
      → (e : Eui) (p : PlantRecord) → lookup e (L.tables st).plants ≡ some p
      → (p.addr == a) ≡ false

-- The rows of one plant.
abbrev pub gas_of : Eui → Tables → List NewGasData
gas_of e t = keep (λ r. r.parent_plant_eui == e) t.gas

abbrev pub light_of : Eui → Tables → List NewLightData
light_of e t = keep (λ r. r.parent_plant_eui == e) t.light

abbrev pub moisture_of : Eui → Tables → List NewMoistureData
moisture_of e t = keep (λ r. r.parent_plant_eui == e) t.moisture

not_stored :
    (Q : Sql) (c : Conversions) (r : NodeSensorReading) (st : Q.Store)
    → Q.first_by_addr (c.show r.addr.ip) st ≡ missing
    → (insert_reading Q c r st).1 ≡ st
unfolding insert_reading
not_stored Q c r st gone = rw gone refl

then_more {ℓ} :
    {A : Type ℓ} (x x' x'' m n : List A) → x' ≡ x ++ (m ++ []) → x'' ≡ x' ++ n → x'' ≡ x ++ (m ++ n)
then_more x x' x'' m n h k = rw (k, h, append-nil, append_assoc) refl

module _ (Q : Sql) (L : SqlLaws Q) (c : Conversions) (e : Eui) (a : Text) where
  -- The rows that the readings from the address make for the plant.
  abbrev pub new_gas : List NodeSensorReading → List NewGasData
  new_gas [] = []
  new_gas (r ∷ rs) =
      (if a == c.show r.addr.ip then gas_rows Q L c e r.reading.ts r.reading.gas else [])
      ++ new_gas rs

  abbrev pub new_light : List NodeSensorReading → List NewLightData
  new_light [] = []
  new_light (r ∷ rs) =
      (if a == c.show r.addr.ip then light_rows Q L c e r.reading.ts r.reading.light else [])
      ++ new_light rs

  abbrev pub new_moisture : List NodeSensorReading → List NewMoistureData
  new_moisture [] = []
  new_moisture (r ∷ rs) =
      (if a == c.show r.addr.ip then moisture_row Q c e r.reading.ts r.reading.soil ∷ [] else [])
      ++ new_moisture rs

  -- The plants as they were, and the rows of the plant with those of the readings.
  pub record Stores (t t' : Tables) (rs : List NodeSensorReading) : Type 0 where
    pub plants : t'.plants ≡ t.plants
    pub gas : gas_of e t' ≡ gas_of e t ++ new_gas rs
    pub light : light_of e t' ≡ light_of e t ++ new_light rs
    pub moisture : moisture_of e t' ≡ moisture_of e t ++ new_moisture rs

  gas_rows-own :
      (j : Eui) (ts : ℕ) (o : Option Gas)
      → keep (λ r. r.parent_plant_eui == e) (gas_rows Q L c j ts o)
        ≡ (if j == e then gas_rows Q L c e ts o else [])
  unfolding gas_row
  gas_rows-own j ts none = ground arith
  gas_rows-own j ts (some g) = ground (arith, list_beq_iff j e)

  light_rows-own :
      (j : Eui) (ts : ℕ) (o : Option Light)
      → keep (λ r. r.parent_plant_eui == e) (light_rows Q L c j ts o)
        ≡ (if j == e then light_rows Q L c e ts o else [])
  unfolding light_row
  light_rows-own j ts none = ground arith
  light_rows-own j ts (some g) = ground (arith, list_beq_iff j e)

  -- The rows of a plant belong to the sender's address exactly if the plant is the one in question.
  reading-Stores :
      (j : Eui) (r : NodeSensorReading) (t : Tables)
      → (j == e) ≡ (a == c.show r.addr.ip)
      → Stores t (with_reading Q L c j r.reading t) (r ∷ [])
  unfolding moisture_row
  reading-Stores j r t h = record {
    plants = refl;
    gas =
        keep-append _ t.gas (gas_rows Q L c j r.reading.ts r.reading.gas)
        ∙ rw (gas_rows-own j r.reading.ts r.reading.gas, h, append-nil) refl;
    light =
        keep-append _ t.light (light_rows Q L c j r.reading.ts r.reading.light)
        ∙ rw (light_rows-own j r.reading.ts r.reading.light, h, append-nil) refl;
    moisture =
        keep-append _ t.moisture (moisture_row Q c j r.reading.ts r.reading.soil ∷ [])
        ∙ ground (arith, h, list_beq_iff j e);
  }

  unknown-Stores :
      (r : NodeSensorReading) (t : Tables) → (a == c.show r.addr.ip) ≡ false → Stores t t (r ∷ [])
  unknown-Stores r t h = record {
    plants = refl;
    gas = rw h (sym (append-nil (gas_of e t)));
    light = rw h (sym (append-nil (light_of e t)));
    moisture = rw h (sym (append-nil (moisture_of e t)));
  }

  -- The plant is in the table, under the address, which no other plant has.
  pub record Owns (st : Q.Store) : Type 0 where
    pub plant : PlantRecord
    pub known : lookup e (L.tables st).plants ≡ some plant
    pub at : plant.addr ≡ a
    pub only :
        (j : Eui) (p : PlantRecord) → lookup j (L.tables st).plants ≡ some p → p.addr ≡ a → j ≡ e

  -- The reading is stored, unless no plant has its address.
  abbrev pub IsHandled : NodeSensorReading → Q.Store → Type 0
  IsHandled r st =
      ((insert_reading Q c r st).0 ≡ ok tt) ⊎ (Q.first_by_addr (c.show r.addr.ip) st ≡ missing)

  -- So is each reading of a list, one after the other.
  abbrev pub AllHandled : List NodeSensorReading → Q.Store → Type 0
  AllHandled [] st = Unit {0}
  AllHandled (r ∷ rs) st = IsHandled r st × AllHandled rs (insert_reading Q c r st).1

  module _ (A : AddrLaws Q L) where
    stored_own :
        (r : NodeSensorReading) (st : Q.Store) (p : PlantRecord)
        → Owns st
        → Q.first_by_addr (c.show r.addr.ip) st ≡ found p
        → (p.eui == e) ≡ (a == c.show r.addr.ip)
    stored_own r st p o f =
        let (there, sends) = A.addr_found (c.show r.addr.ip) st p f in
        elim (Bool-cases (a == c.show r.addr.ip)) [
          | inl same ↦ rw same (
              (list_beq_iff p.eui e).1
                (o.only p.eui p there (sends ∙ sym ((list_beq_iff a _).0 same))))
          | inr other ↦ ground (arith, list_beq_iff p.eui e, list_beq_iff a (c.show r.addr.ip))
        ]

    read-Stores :
        (r : NodeSensorReading) (st : Q.Store)
        → IsHandled r st
        → Owns st
        → Stores (L.tables st) (L.tables (insert_reading Q c r st).1) (r ∷ [])
    read-Stores r st h o = elim h [
      | inl done ↦
          let (p, f, e') = insert_reading_lem Q L c r st done in
          rw e' (reading-Stores p.eui r (L.tables st) (stored_own r st p o f))
      | inr gone ↦
          let none_has = A.addr_missing (c.show r.addr.ip) st gone e o.plant o.known in
          rw (not_stored Q c r st gone) (unknown-Stores r (L.tables st) (rw (← o.at) none_has))
    ]

    Owns-Stores :
        (st st' : Q.Store) (rs : List NodeSensorReading)
        → Stores (L.tables st) (L.tables st') rs
        → Owns st
        → Owns st'
    Owns-Stores st st' rs s o = record {
      plant = o.plant;
      known = rw s.plants o.known;
      at = o.at;
      only = λ j p h at. o.only j p (rw (← s.plants) h) at;
    }

    -- Once the task has stored the readings in a list, a plant has the rows that it had, then those of
    -- the readings from its address, in their order: one of moisture for each reading, and one of light
    -- or gas where the reading has it. Readings from elsewhere make no difference, and no plant's record
    -- changes. The plant is the only one at its address, and each reading is stored without an error
    -- unless no plant has the sender's address.
    pub stream_task_lem :
        (rs : List NodeSensorReading) (st : Q.Store)
        → AllHandled rs st
        → Owns st
        → Stores (L.tables st) (L.tables (stream_task Q c rs st)) rs
    unfolding stream_task
    stream_task_lem [] st h o = record {
      plants = refl;
      gas = sym (append-nil (gas_of e (L.tables st)));
      light = sym (append-nil (light_of e (L.tables st)));
      moisture = sym (append-nil (moisture_of e (L.tables st)));
    }
    stream_task_lem (r ∷ rs) st h o =
        let st' = (insert_reading Q c r st).1 in
        let one = read-Stores r st h.0 o in
        let more = stream_task_lem rs st' h.1 (Owns-Stores st st' (r ∷ []) one o) in
        record {
          plants = more.plants ∙ one.plants;
          gas = then_more _ _ _ _ _ one.gas more.gas;
          light = then_more _ _ _ _ _ one.light more.light;
          moisture = then_more _ _ _ _ _ one.moisture more.moisture;
        }
