-- ===== src/Broker/Router/Coap/Laws.antt =====
-- What a registration yields, by what the node answers.
use plant_minder.Base.{
  ℕ, zero, suc, ◌≡◌, refl, List, [], ◌∷◌, true, Option, none, some, ok, take, drop, length, leb,
  arith, if◌then◌else◌,
}
use plant_minder.Net.{Ipv6Addr, SocketAddrV6}
use plant_minder.Broker.Router.Coap.{
  Exchange, Received, datagram, settled, crashed, request, no_eui, read_payload, accept, until_data,
  await_response, coap_observer_register,
}

-- `n` empty datagrams, one for each retry.
abbrev pub empty_answers : ℕ → List Received → List Received
empty_answers zero rest = rest
empty_answers (suc n) rest = datagram [] ∷ empty_answers n rest

-- The request goes out, and after `n` empty datagrams the answer `bytes` arrives.
pub record Answered (omr ip : Ipv6Addr) (port n : ℕ) (b : ℕ) (bytes : List ℕ) (rest : List Received)
    (x : Exchange) : Type 0 where
  pub encodes : x.encodes (request ip port) ≡ true
  pub binds : x.binds (record { ip = omr; port = port }) ≡ true
  pub opening : List ℕ
  pub first : x.first ≡ some (datagram opening)
  pub answers : datagram opening ∷ x.later ≡ empty_answers n (datagram (b ∷ bytes) ∷ rest)

module _ (decode : List ℕ → Option (List ℕ)) (addr : SocketAddrV6) (b : ℕ) (bytes : List ℕ)
    (rest : List Received) where
  after_retries :
      (n : ℕ)
      → until_data decode addr [] (empty_answers n (datagram (b ∷ bytes) ∷ rest))
        ≡ accept addr (read_payload (decode (take 512 (b ∷ bytes))))
  unfolding until_data
  after_retries zero = refl
  after_retries (suc n) = after_retries n

  until_data_lem :
      (n : ℕ) (d : List ℕ) (later : List Received)
      → datagram d ∷ later ≡ empty_answers n (datagram (b ∷ bytes) ∷ rest)
      → until_data decode addr d later ≡ accept addr (read_payload (decode (take 512 (b ∷ bytes))))
  unfolding until_data
  until_data_lem zero d later h = cc h
  until_data_lem (suc n) d later h = cc (h, after_retries n)

-- After any number of empty answers the node's answer decides: a payload of at least six bytes is
-- its identifier and its name, an answer that is no CoAP message registers it with an identifier of
-- zeros and no name, and a payload below six bytes crashes the task.
pub coap_observer_register_lem :
    (omr ip : Ipv6Addr) (port n b : ℕ) (bytes : List ℕ) (rest : List Received) (x : Exchange)
    → Answered omr ip port n b bytes rest x
    → coap_observer_register omr ip port x ≡ elim (x.decode (take 512 (b ∷ bytes))) [
      | none ↦ settled (ok (some (record { ip = omr; port = port }, no_eui, [])))
      | some payload ↦
          if leb 6 (length payload)
          then settled
              (ok (some (record { ip = omr; port = port }, take 6 payload, drop 6 payload)))
          else crashed
    ]
unfolding coap_observer_register await_response read_payload accept
coap_observer_register_lem omr ip port n b bytes rest x h = ground (
  arith,
  h.encodes,
  h.binds,
  h.first,
  until_data_lem x.decode (record { ip = omr; port = port }) b bytes rest n h.opening x.later
      h.answers,
)
