-- ===== src/Broker/Router/Coap/Answers.antt =====
-- What stands behind a registration by `coap_observer_register` of pmind-broker/src/router.rs.
use plant_minder.Base.{
  ℕ, suc, ◌≤◌, ◌≡◌, refl, ap, inl, inr, List, [], ◌∷◌, true, Option, none, some, ok, length, take,
  drop, leb, leb→le, arith, Bool-cases,
}
use plant_minder.Net.{Ipv6Addr, SocketAddrV6}
use plant_minder.Broker.Types.{Eui}
use plant_minder.Broker.Router.Coap.{
  Exchange, Received, recv_error, datagram, Registered, settled, no_eui, read_payload, accept,
  until_data, await_response, coap_observer_register, request,
}
use plant_minder.Broker.Router.Coap.Laws.{Answered, empty_answers}

-- The identifier and the name in the payload of an answer; one that is no CoAP message has none.
abbrev pub Holds : Option (List ℕ) → Eui → List ℕ → Type 0
Holds none eui name = (eui ≡ no_eui) × (name ≡ [])
Holds (some payload) eui name =
    (6 ≤ length payload) × (eui ≡ take 6 payload) × (name ≡ drop 6 payload)

abbrev pub found : SocketAddrV6 → Eui → List ℕ → Registered
found addr eui name = settled (ok (some (addr, eui, name)))

accept-found :
    (addr addr' : SocketAddrV6) (o : Option (List ℕ)) (eui : Eui) (name : List ℕ)
    → accept addr (read_payload o) ≡ found addr' eui name
    → (addr' ≡ addr) × Holds o eui name
unfolding accept read_payload
accept-found addr addr' none eui name h = (cc h, (cc h, cc h))
accept-found addr addr' (some payload) eui name h = elim (Bool-cases (leb 6 (length payload))) [
  | inl long ↦
      let q : settled (ok (some (addr, take 6 payload, drop 6 payload))) ≡ found addr' eui name =
        ground (arith, h) in
      (cc q, (leb→le 6 (length payload) long, cc q, cc q))
  | inr short ↦ absurd (ground (arith, h))
]

-- A registration needs a datagram with some bytes, before which all are empty.
until_data-found :
    (decode : List ℕ → Option (List ℕ)) (addr addr' : SocketAddrV6) (d : List ℕ)
    (later : List Received) (eui : Eui) (name : List ℕ)
    → until_data decode addr d later ≡ found addr' eui name
    → (n b : ℕ) × (bytes : List ℕ) × (rest : List Received) × (datagram d ∷ later
        ≡ empty_answers n (datagram (b ∷ bytes) ∷ rest))
      × (addr' ≡ addr)
      × Holds (decode (take 512 (b ∷ bytes))) eui name
unfolding until_data
until_data-found decode addr addr' (b ∷ bs) later eui name h =
    let (own, holds) = accept-found addr addr' (decode (take 512 (b ∷ bs))) eui name h in
    (0, b, bs, later, refl, own, holds)
until_data-found decode addr addr' [] [] eui name h = absurd (cc h)
until_data-found decode addr addr' [] (recv_error ∷ later) eui name h = absurd (cc h)
until_data-found decode addr addr' [] (datagram bs ∷ later) eui name h =
    let (n, b, bytes, rest, e, own, holds) =
      until_data-found decode addr addr' bs later eui name h in
    (suc n, b, bytes, rest, ap (◌∷◌ (datagram [])) e, own, holds)

-- The exchange has been answered after `n` empty datagrams, and the identifier and the name are those
-- of the answer.
abbrev pub Origin : Ipv6Addr → Ipv6Addr → ℕ → Exchange → Eui → List ℕ → Type 0
Origin omr ip port x eui name =
    (n b : ℕ) × (bytes : List ℕ) × (rest : List Received) × Answered omr ip port n b bytes rest x
    × Holds (x.decode (take 512 (b ∷ bytes))) eui name

await_response-found :
    (omr ip : Ipv6Addr) (port : ℕ) (x : Exchange) (first : Option Received) (addr' : SocketAddrV6)
    (eui : Eui) (name : List ℕ)
    → x.first ≡ first
    → x.encodes (request ip port) ≡ true
    → x.binds (record { ip = omr; port = port }) ≡ true
    → await_response x (record { ip = omr; port = port }) first ≡ found addr' eui name
    → (addr' ≡ record { ip = omr; port = port }) × Origin omr ip port x eui name
unfolding await_response
await_response-found omr ip port x none addr' eui name e encodes binds h = absurd (cc h)
await_response-found omr ip port x (some recv_error) addr' eui name e encodes binds h =
    absurd (cc h)
await_response-found omr ip port x (some (datagram d)) addr' eui name e encodes binds h =
    let (n, b, bytes, rest, answers, own, holds) =
      until_data-found x.decode (record { ip = omr; port = port }) addr' d x.later eui name h in
    (
      own,
      (
        n,
        b,
        bytes,
        rest,
        record { encodes = encodes; binds = binds; opening = d; first = e; answers = answers },
        holds,
      ),
    )

-- An exchange that registers has been answered, and yields what the answer holds.
pub coap_observer_register-found :
    (omr ip : Ipv6Addr) (port : ℕ) (x : Exchange) (addr' : SocketAddrV6) (eui : Eui) (name : List ℕ)
    → coap_observer_register omr ip port x ≡ found addr' eui name
    → (addr' ≡ record { ip = omr; port = port }) × Origin omr ip port x eui name
unfolding coap_observer_register
coap_observer_register-found omr ip port x addr' eui name h =
    elim (Bool-cases (x.encodes (request ip port))) [
      | inr no_request ↦ absurd (ground (arith, h, no_request))
      | inl encodes ↦ elim (Bool-cases (x.binds (record { ip = omr; port = port }))) [
        | inr no_socket ↦ absurd (ground (arith, h, encodes, no_socket))
        | inl binds ↦
            await_response-found omr ip port x x.first addr' eui name refl encodes binds
              (rw (encodes, binds) at h)
      ]
    ]
