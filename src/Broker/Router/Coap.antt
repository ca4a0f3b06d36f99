-- ===== src/Broker/Router/Coap.antt =====
-- `coap_observer_register` of pmind-broker/src/router.rs.
pub mod Laws
pub mod Answers
use plant_minder.Base.{
  ℕ, ◌≤◌, ◌<◌, ◌≡◌, refl, ◌⊎◌, inl, inr, List, [], ◌∷◌, ◌++◌, Bool, true, false, Option, none, some,
  if◌then◌else◌, leb, leb→le, Result, ok, err, Outcome, returns, panics, take, drop, length, arith,
  Bool-cases,
}
use plant_minder.Net.{Ipv6Addr, SocketAddrV6}
use plant_minder.Broker.Types.{Eui}

-- The payloads of the errors of other libraries are dropped.
pub data EventRouterError : Type 0 where
  io ot_mon_error mail_error coap_msg_error addr_parse : EventRouterError

pub data Received : Type 0 where
  datagram : List ℕ → Received
  recv_error : Received

-- The request that is sent: GET /soilmoisture with the observe flag. Its message id is the port on
-- which the data is to arrive.
pub record Request : Type 0 where
  pub path : List ℕ
  pub token : List ℕ
  pub message_id : ℕ
  pub destination : SocketAddrV6

unfoldable pub request : Ipv6Addr → ℕ → Request
request ip port = record {
  path =
      b'/' ∷ b's' ∷ b'o' ∷ b'i' ∷ b'l' ∷ b'm' ∷ b'o' ∷ b'i' ∷ b's' ∷ b't' ∷ b'u' ∷ b'r' ∷ b'e' ∷ [];
  token = 0xfa ∷ 0xce ∷ 0xbe ∷ 0xef ∷ [];
  message_id = port;
  destination = record { ip = ip; port = 1212 };
}

-- The world's part in one registration. `encodes` and `decode` are coap_lite's `to_bytes` and
-- `from_bytes`, the latter down to the payload; `binds` is the socket's; `first` is what arrives
-- within thirty seconds, and `later` what arrives after each retry.
pub record Exchange : Type 0 where
  pub encodes : Request → Bool
  pub binds : SocketAddrV6 → Bool
  pub first : Option Received
  pub later : List Received
  pub decode : List ℕ → Option (List ℕ)

-- A task that waits for a datagram that never comes does not return.
pub data Registered : Type 0 where
  settled : Result (Option (SocketAddrV6 × Eui × List ℕ)) EventRouterError → Registered
  crashed waiting : Registered

abbrev pub no_eui : Eui
no_eui = 0 ∷ 0 ∷ 0 ∷ 0 ∷ 0 ∷ 0 ∷ []

-- The identifier is copied if there are six bytes, and the name is `payload[6..]`, which panics if
-- there are not.
unfoldable pub read_payload : Option (List ℕ) → Outcome (Eui × List ℕ)
read_payload none = returns (no_eui, [])
read_payload (some payload) =
    let eui = if leb 6 (length payload) then take 6 payload else no_eui in
    if leb 6 (length payload) then returns (eui, drop 6 payload) else panics

unfoldable pub accept : SocketAddrV6 → Outcome (Eui × List ℕ) → Registered
accept addr (returns (eui, name)) = settled (ok (some (addr, eui, name)))
accept addr panics = crashed

-- `while len == 0`: an empty datagram is answered by another request. A datagram is cut at the
-- buffer's 512 bytes.
unfoldable pub until_data :
    (List ℕ → Option (List ℕ)) → SocketAddrV6 → List ℕ → List Received → Registered
unfolding read_payload accept
until_data decode addr (b ∷ bs) later = accept addr (read_payload (decode (take 512 (b ∷ bs))))
until_data decode addr [] [] = waiting
until_data decode addr [] (recv_error ∷ later) = settled (err io)
until_data decode addr [] (datagram bs ∷ later) = until_data decode addr bs later

-- A failing first receive only disables its branch of the `select!`: the thirty seconds run out.
unfoldable pub await_response : Exchange → SocketAddrV6 → Option Received → Registered
await_response x addr none = settled (ok none)
await_response x addr (some recv_error) = settled (ok none)
await_response x addr (some (datagram bs)) = until_data x.decode addr bs x.later

unfoldable pub coap_observer_register : Ipv6Addr → Ipv6Addr → ℕ → Exchange → Registered
unfolding await_response request
coap_observer_register omr ip port x =
    let addr : SocketAddrV6 = record { ip = omr; port = port } in
    if x.encodes (request ip port)
    then (if x.binds addr then await_response x addr x.first else settled (err io))
    else settled (err coap_msg_error)
