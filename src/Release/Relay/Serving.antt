-- ===== src/Release/Relay/Serving.antt =====
-- cmd/release-integration/main.go, bedrock.go, internal/stagingserver/bedrock.go: a client that asks
-- the staging server through the relay of datagrams.
use minecraft_ping.Base.{
  ℕ, take-all, ◌≡◌, ◌≤◌, refl, ap, ◌∙◌, List, [], ◌∷◌, ◌++◌, length, Bytes, take, some, Result, ok,
  err, arith,
}
use minecraft_ping.Effects.{upstream, Act, done}
use minecraft_ping.Effects.Balanced.{
  over-IsBalanced, balanced-closes, still_open, still_open-append,
}
use minecraft_ping.Bedrock.{
  Error, build_bedrock_status_request_with, parse_bedrock_status_response,
  parse_bedrock_status_text,
}
use minecraft_ping.Bedrock.RoundTrip.{response-lengths, bedrock_exchange_whole}
use minecraft_ping.Staging.Bedrock.{validate_bedrock_status, build_bedrock_status_response}
use minecraft_ping.Release.Relay.{
  Upstream, Relayed, relay_buffer, limited_upstream, forward_packet, relayed, serve_datagrams,
}

-- An upstream that works, with a staging server behind it.
abbrev pub served_by : Bytes → Upstream Error
served_by status = record {
  dial = ok tt;
  set_deadline = ok tt;
  write = ok tt;
  answer = λ payload. build_bedrock_status_response (take 2048 payload) status;
  write_back = ok tt;
}

forward_packet-closes :
    {E : Type 0} (u : Upstream E) (payload : Bytes)
    → still_open [] (forward_packet u payload).events ≡ some []
unfolding forward_packet
forward_packet-closes u payload = balanced-closes (forward_packet u payload) (
    over-IsBalanced upstream u.dial (λ _. done (limited_upstream u payload u.set_deadline))
      (λ _. (refl, λ held. refl)))

module _ {E C : Type 0} where
  relayed-events :
      (client : C) (m : Act E Bytes) (r : Result E Bytes) (rest : Relayed E C)
      → (relayed client m r rest).events ≡ m.events ++ rest.events
  relayed-events client m (err e) rest = refl
  relayed-events client m (ok datagram) rest = refl

  serve_datagrams-closes :
      (ds : List (Bytes × C × Upstream E)) → still_open [] (serve_datagrams ds).events ≡ some []
  unfolding serve_datagrams
  serve_datagrams-closes [] = refl
  serve_datagrams-closes ((payload, client, u) ∷ rest) =
      let m = forward_packet u (take relay_buffer payload) in
      ap (still_open []) (relayed-events client m m.result (serve_datagrams rest))
      ∙ still_open-append [] [] m.events (serve_datagrams rest).events
          (forward_packet-closes u (take relay_buffer payload))
      ∙ serve_datagrams-closes rest

  relayed-sent :
      (client : C) (m : Act E Bytes) (r : Result E Bytes) (rest whole : Relayed E C)
      (behind : List (C × Bytes))
      → whole.sent ≡ rest.sent ++ behind
      → (relayed client m r whole).sent ≡ (relayed client m r rest).sent ++ behind
  relayed-sent client m (err e) rest whole behind h = h
  relayed-sent client m (ok datagram) rest whole behind h = ap (◌∷◌ (client, datagram)) h

  serve_datagrams-append :
      (before after : List (Bytes × C × Upstream E))
      → (serve_datagrams (before ++ after)).sent
        ≡ (serve_datagrams before).sent ++ (serve_datagrams after).sent
  unfolding serve_datagrams
  serve_datagrams-append [] after = refl
  serve_datagrams-append ((payload, client, u) ∷ before) after =
      let m = forward_packet u (take relay_buffer payload) in
      relayed-sent client m m.result (serve_datagrams before) (serve_datagrams (before ++ after)) _
        (serve_datagrams-append before after)

served-sent :
    {C : Type 0} (request status pong : Bytes) (client : C)
    (after : List (Bytes × C × Upstream Error))
    → build_bedrock_status_response request status ≡ ok pong
    → length status ≤ 2013
    → (serve_datagrams ((request, client, served_by status) ∷ after)).sent
      ≡ (client, pong) ∷ (serve_datagrams after).sent
unfolding serve_datagrams forward_packet
served-sent request status pong client after built short =
    let (size, pong_size) = response-lengths request status pong built in
    let whole = take-all 2048 request (omega (arith, size)) in
    let whole_pong = take-all 2048 pong (omega (arith, pong_size)) in
    rw whole (rw whole (rw built (rw whole_pong refl)))

-- Whatever datagrams come before and after it, and however their exchanges end, the ping of a
-- client for the Bedrock edition that the relay passes on to a staging server, with a status of no
-- more than 2013 bytes and without a fault of its sockets, is answered with a pong that the client
-- reads as the status text; and the relay closes each upstream socket that it has opened, once.
pub relayed_ping-completes :
    {C : Type 0} (now : ℕ) (guid_bytes status request : Bytes) (ping_time : ℕ) (client : C)
    (before after : List (Bytes × C × Upstream Error))
    → build_bedrock_status_request_with now (ok guid_bytes) ≡ ok (request, ping_time)
    → validate_bedrock_status status ≡ ok tt
    → length status ≤ 2013
    → (pong : Bytes) × ((serve_datagrams
          (before ++ ((request, client, served_by status) ∷ after))).sent
        ≡ (serve_datagrams before).sent ++ ((client, pong) ∷ (serve_datagrams after).sent))
      × (parse_bedrock_status_response pong ping_time ≡ parse_bedrock_status_text status)
      × (still_open []
            (serve_datagrams (before ++ ((request, client, served_by status) ∷ after))).events
          ≡ some [])
relayed_ping-completes now guid_bytes status request ping_time client before after asked valid
      short =
    let (pong, built, reads) =
      bedrock_exchange_whole now guid_bytes status request ping_time asked valid in
    (
      pong,
      serve_datagrams-append before ((request, client, served_by status) ∷ after)
          ∙ ap (λ l. (serve_datagrams before).sent ++ l)
              (served-sent request status pong client after built short),
      reads,
      serve_datagrams-closes (before ++ ((request, client, served_by status) ∷ after)),
    )
