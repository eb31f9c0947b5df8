-- ===== src/Staging/Serve/Loops.antt =====
-- internal/stagingserver/server.go, bedrock.go: `serveListener` and `serveBedrockListener`, over what
-- their sockets deliver. `quiet` is the test for a context or a socket that has ended.
use minecraft_ping.Base.{
  true, false, ◌&&◌, length, ◌==◌, get_or, bytes_eq, drop, Bool-cases, inl, inr, arith, ℕ, ◌≡◌,
  refl, sym, ap, ◌∙◌, append_assoc, Bool, List, [], ◌∷◌, ◌++◌, map, Bytes, take, if◌then◌else◌,
  Option, none, some, Result, ok, err,
}
use minecraft_ping.Base.Words.{big_endian}
use minecraft_ping.Bedrock.{Error, ping_length, unexpected_packet_id, magic_mismatch}
use minecraft_ping.Bedrock.RoundTrip.{pong_bytes}
use minecraft_ping.Staging.Bedrock.{
  build_bedrock_status_response, validate_bedrock_status, parse_bedrock_unconnected_ping,
  encode_bedrock_unconnected_pong,
}

-- What `ReadFrom` delivers, and how a `WriteTo` to the sender would end.
pub data Received (E A : Type 0) : Type 0 where
  datagram : Bytes → A → Option E → Received E A
  read_failed : E → Received E A

-- A loop that is still at its socket, or that has returned, with the error that it reported.
pub data LoopEnd (E : Type 0) : Type 0 where
  at_socket stopped : LoopEnd E
  reported : E → LoopEnd E

-- A ping by its bytes: 33 of them, the id, eight of the ping time, the magic, and eight more.
abbrev pub is_ping : Bytes → Bool
is_ping payload =
    length payload == 33
    && (get_or payload 0 0 == 1
        && bytes_eq (take 16 (drop 9 payload)) (
            0x00 ∷ 0xff ∷ 0xff ∷ 0x00 ∷ 0xfe ∷ 0xfe ∷ 0xfe ∷ 0xfe ∷ 0xfd ∷ 0xfd ∷ 0xfd ∷ 0xfd ∷ 0x12
            ∷ 0x34 ∷ 0x56 ∷ 0x78 ∷ []))

ping-read :
    (payload : Bytes)
    → is_ping payload ≡ true
    → parse_bedrock_unconnected_ping payload ≡ ok (big_endian (take 8 (drop 1 payload)))
unfolding parse_bedrock_unconnected_ping
ping-read payload h = ground arith

ping-answered :
    (payload status : Bytes)
    → validate_bedrock_status status ≡ ok tt
    → is_ping payload ≡ true
    → build_bedrock_status_response payload status
      ≡ ok (pong_bytes (big_endian (take 8 (drop 1 payload))) status)
unfolding build_bedrock_status_response encode_bedrock_unconnected_pong
ping-answered payload status valid h = rw (ping-read payload h) (rw valid refl)

other-unread :
    (payload : Bytes)
    → is_ping payload ≡ false
    → (e : Error) × (parse_bedrock_unconnected_ping payload ≡ err e)
unfolding parse_bedrock_unconnected_ping
other-unread payload h = elim (Bool-cases (length payload == 33)) [
  | inr size ↦ (ping_length (length payload), rw size refl)
  | inl size ↦ elim (Bool-cases (get_or payload 0 0 == 1)) [
    | inr id ↦ (unexpected_packet_id (get_or payload 0 0), ground arith)
    | inl id ↦ (magic_mismatch, ground arith)
  ]
]

other-refused :
    (payload status : Bytes)
    → is_ping payload ≡ false
    → (e : Error) × (build_bedrock_status_response payload status ≡ err e)
unfolding build_bedrock_status_response
other-refused payload status h = let (e, refused) = other-unread payload h in (e, rw refused refl)

module _ {E : Type 0} (quiet : E → Bool) where
  abbrev pub ended_by : E → LoopEnd E
  ended_by e = if quiet e then stopped else reported e

  abbrev pub read_buffer : ℕ
  read_buffer = 2048

  module _ {A : Type 0} (status : Bytes) where
    abbrev pub replied :
        A → Bytes → Option E → List (A × Bytes) × LoopEnd E → List (A × Bytes) × LoopEnd E
    replied addr response none rest = ((addr, response) ∷ rest.0, rest.1)
    replied addr response (some e) rest = ([], ended_by e)

    -- A datagram that is no ping is passed over.
    abbrev pub answered :
        A
        → Option E
        → Result Error Bytes
        → List (A × Bytes) × LoopEnd E
        → List (A × Bytes) × LoopEnd E
    answered addr write_end (err e) rest = rest
    answered addr write_end (ok response) rest = replied addr response write_end rest

    -- What is sent, in order, and how the loop stands.
    unfoldable pub serve_bedrock_listener : List (Received E A) → List (A × Bytes) × LoopEnd E
    unfolding build_bedrock_status_response
    serve_bedrock_listener [] = ([], at_socket)
    serve_bedrock_listener (read_failed e ∷ events) = ([], ended_by e)
    serve_bedrock_listener (datagram payload addr write_end ∷ events) =
        answered addr write_end (build_bedrock_status_response (take read_buffer payload) status)
          (serve_bedrock_listener events)

    -- The replies, described apart from the server: the pong for each ping, with its ping time, and
    -- nothing for any other datagram.
    abbrev pub reply_to : Bytes → A → List (A × Bytes)
    reply_to payload addr =
        if is_ping payload
        then (addr, pong_bytes (big_endian (take 8 (drop 1 payload))) status) ∷ []
        else []

    abbrev pub replies : List (Bytes × A) → List (A × Bytes)
    replies [] = []
    replies ((payload, addr) ∷ rest) = reply_to (take 2048 payload) addr ++ replies rest

    abbrev pub delivered : List (Bytes × A) → List (Received E A)
    delivered = map (λ d. datagram d.0 d.1 none)

    answered-reply_to :
        (payload : Bytes) (addr : A) (sent : List (A × Bytes)) (rest : List (A × Bytes) × LoopEnd E)
        (ends : LoopEnd E)
        → validate_bedrock_status status ≡ ok tt
        → rest ≡ (sent, ends)
        → answered addr none (build_bedrock_status_response payload status) rest
          ≡ (reply_to payload addr ++ sent, ends)
    answered-reply_to payload addr sent rest ends valid h = elim (Bool-cases (is_ping payload)) [
      | inl ping ↦ rw ping (
          ap (λ o. answered addr none o rest) (ping-answered payload status valid ping)
          ∙ ap (λ p. ((addr, pong_bytes (big_endian (take 8 (drop 1 payload))) status) ∷ p.0, p.1))
              h)
      | inr other ↦
          let (e, refused) = other-refused payload status other in
          rw other (ap (λ o. answered addr none o rest) refused ∙ h)
    ]

    -- With a status that `Serve` accepts, and while the socket of the Bedrock listener delivers
    -- datagrams and takes the replies, the listener sends, in order and to its sender, the pong with
    -- its ping time for each datagram that is a ping, of 33 bytes with the id and the magic of one,
    -- sends nothing for any other, and goes on, whatever a datagram holds; then it ends as it would
    -- have on what follows alone.
    pub serve_bedrock_listener-replies :
        (datagrams : List (Bytes × A)) (events : List (Received E A))
        → validate_bedrock_status status ≡ ok tt
        → serve_bedrock_listener (delivered datagrams ++ events) ≡ (
          replies datagrams ++ (serve_bedrock_listener events).0,
          (serve_bedrock_listener events).1,
        )
    unfolding serve_bedrock_listener
    serve_bedrock_listener-replies [] events valid = refl
    serve_bedrock_listener-replies ((payload, addr) ∷ datagrams) events valid =
        answered-reply_to (take read_buffer payload) addr _ _ _ valid
          (serve_bedrock_listener-replies datagrams events valid)
        ∙ ap (λ l. (l, (serve_bedrock_listener events).1))
            (sym (
              append_assoc (reply_to (take read_buffer payload) addr) (replies datagrams)
                (serve_bedrock_listener events).0))

  -- `serveListener`: the connections that are handled, each on its own and whatever comes of it.
  unfoldable pub serve_listener : {C : Type 0} → List (Result E C) → List C × LoopEnd E
  serve_listener [] = ([], at_socket)
  serve_listener (err e ∷ events) = ([], ended_by e)
  serve_listener (ok conn ∷ events) = let rest = serve_listener events in (conn ∷ rest.0, rest.1)
