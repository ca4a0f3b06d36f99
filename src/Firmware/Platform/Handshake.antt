-- ===== src/Firmware/Platform/Handshake.antt =====
-- The registration of a node, from the broker's request to its reading of the node's answer.
use plant_minder.Base.{
  ℕ, ◌≤◌, ◌≡◌, refl, List, ◌∷◌, ◌++◌, true, some, ok, arith, length, take, drop, take_all, leb,
  length-append, take-length-append, drop-length-append, ap, ◌∙◌,
}
use mathlib.Core.Path.{subst}
use plant_minder.Broker.Router.Coap.Laws.{coap_observer_register_lem}
use plant_minder.Net.{Ipv6Addr}
use plant_minder.Broker.Router.Coap.{Exchange, datagram, settled, request, coap_observer_register}
use plant_minder.Firmware.Platform.{answer, record_payload}

six_first :
    (eui name : List ℕ)
    → length eui ≡ 6
    → (take 6 (eui ++ name) ≡ eui) × (drop 6 (eui ++ name) ≡ name)
six_first eui name six = (
  subst (λ (n : ℕ). take n (eui ++ name) ≡ eui) six (take-length-append eui name),
  subst (λ (n : ℕ). drop n (eui ++ name) ≡ name) six (drop-length-append eui name),
)

-- A node that answers the broker's request is registered with its own identifier and plant name, and
-- sends its readings to the port of the request: if the request goes out, the node's answer is the
-- first datagram that arrives, not empty and not longer than the buffer, and the codecs fit.
pub handshake :
    (encode : List ℕ → List ℕ) (eui plant_name : List ℕ) (node omr ip : Ipv6Addr) (port : ℕ)
    (x : Exchange) (b : ℕ) (bs : List ℕ)
    → length eui ≡ 6
    → x.encodes (request ip port) ≡ true
    → x.binds (record { ip = omr; port = port }) ≡ true
    → x.first
      ≡ some (datagram (answer encode eui plant_name node (request ip port).message_id).datagram)
    → encode (record_payload eui plant_name) ≡ b ∷ bs
    → length (b ∷ bs) ≤ 512
    → x.decode (encode (record_payload eui plant_name)) ≡ some (record_payload eui plant_name)
    → let a = answer encode eui plant_name node (request ip port).message_id in
      (coap_observer_register omr ip port x
        ≡ settled (ok (some (record { ip = omr; port = port }, eui, plant_name))))
      × (a.to_port ≡ port)
      × (a.observer ≡ (node, port))
unfolding answer record_payload request
handshake encode eui plant_name node omr ip port x b bs six sent bound first filled short back = (
  coap_observer_register_lem omr ip port 0 b bs x.later x (record {
    encodes = sent;
    binds = bound;
    opening = b ∷ bs;
    first = first ∙ ap (λ (d : List ℕ). some (datagram d)) filled;
    answers = refl;
  })
      ∙ rw
          (
            take_all 512 (b ∷ bs) short,
            ← filled,
            back,
            (six_first eui plant_name six).0,
            (six_first eui plant_name six).1,
            long,
          )
          refl,
  refl,
  refl,
)
  where
    long : leb 6 (length (eui ++ plant_name)) ≡ true
    long = ground (arith, length-append eui plant_name, six)
