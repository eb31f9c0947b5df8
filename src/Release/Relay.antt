-- ===== src/Release/Relay.antt =====
-- cmd/release-integration/main.go: the relay of datagrams. What its socket delivers, and what each
-- upstream socket does, are parameters.
pub mod Serving
use minecraft_ping.Base.{ℕ, List, [], ◌∷◌, ◌++◌, Bytes, take, Result, ok, err}
use minecraft_ping.Effects.{upstream, Event, Act, done, over}

-- The upstream socket of one exchange: its dial, its deadline, the end of its write, the answer to
-- what was written, and the end of the write back to the client.
pub record Upstream (E : Type 0) : Type 0 where
  pub dial : Result E (Unit {0})
  pub set_deadline : Result E (Unit {0})
  pub write : Result E (Unit {0})
  pub answer : Bytes → Result E Bytes
  pub write_back : Result E (Unit {0})

-- What the relay sent to its clients, what it logged, and what it opened and closed.
pub record Relayed (E C : Type 0) : Type 0 where
  pub sent : List (C × Bytes)
  pub failures : List E
  pub events : List Event

abbrev pub relay_buffer : ℕ
relay_buffer = 2048

module _ {E : Type 0} (u : Upstream E) (payload : Bytes) where
  abbrev pub sent_back : Bytes → Result E (Unit {0}) → Result E Bytes
  sent_back datagram (err e) = err e
  sent_back datagram (ok x) = ok datagram

  abbrev pub read_upstream : Result E Bytes → Result E Bytes
  read_upstream (err e) = err e
  read_upstream (ok datagram) = sent_back (take relay_buffer datagram) u.write_back

  abbrev pub written_upstream : Result E (Unit {0}) → Result E Bytes
  written_upstream (err e) = err e
  written_upstream (ok x) = read_upstream (u.answer payload)

  abbrev pub limited_upstream : Result E (Unit {0}) → Result E Bytes
  limited_upstream (err e) = err e
  limited_upstream (ok x) = written_upstream u.write

  -- `forwardPacket`, with the datagram that the client is sent.
  unfoldable pub forward_packet : Act E Bytes
  forward_packet = over upstream u.dial (λ _. done (limited_upstream u.set_deadline))

module _ {E C : Type 0} where
  abbrev pub relayed : C → Act E Bytes → Result E Bytes → Relayed E C → Relayed E C
  relayed client m (err e) rest = record {
    sent = rest.sent;
    failures = e ∷ rest.failures;
    events = m.events ++ rest.events;
  }
  relayed client m (ok datagram) rest = record {
    sent = (client, datagram) ∷ rest.sent;
    failures = rest.failures;
    events = m.events ++ rest.events;
  }

  -- `udpIPv6Relay.serve`, over the datagrams that come before the end of its socket.
  unfoldable pub serve_datagrams : List (Bytes × C × Upstream E) → Relayed E C
  unfolding forward_packet
  serve_datagrams [] = record { sent = []; failures = []; events = [] }
  serve_datagrams ((payload, client, u) ∷ rest) =
      let m = forward_packet u (take relay_buffer payload) in
      relayed client m m.result (serve_datagrams rest)
