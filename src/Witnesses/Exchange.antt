-- ===== src/Witnesses/Exchange.antt =====
-- One connection between the client and the staging server, for a host and a status.
use minecraft_ping.Base.{
  ◌+◌, ◌-◌, ◌≡◌, max, refl, [], ◌∷◌, ◌++◌, Bytes, ok, true, Option, none, some, arith,
}
use minecraft_ping.Base.Int.{pos}
use minecraft_ping.Base.Words.{be_bytes}
use minecraft_ping.Text.{codes}
use minecraft_ping.Text.Utf8.{utf8_valid}
use minecraft_ping.Io.{eof}
use minecraft_ping.Address.Endpoint.{Endpoint, uint16_port}
use minecraft_ping.Java.VarInt.{write_var_int}
use minecraft_ping.Java.Packet.{write_string}
use minecraft_ping.Java.Messages.{Json, object, handshake_payload}
use minecraft_ping.Java.Ping.{Moments, millisecond, io_deadline, ping_exchange}
use minecraft_ping.Staging.Codec
use minecraft_ping.Staging.Server.{handle_conn, status_payload}
use minecraft_ping.Staging.Server.Probing.{quiet}
use minecraft_ping.Exchange.Complete.{exchange-completes}

abbrev target : Endpoint
target = record { host = codes "mc.example"; port = pos 25565 }

abbrev moments : Moments
moments = record { ctx_deadline = none; dialled = 5; started = 10; finished = 2_000_010 }

-- A parser that takes one text of two bytes for an object.
abbrev braces : Bytes → Option Json
braces (c ∷ d ∷ []) = some object
braces s = none

abbrev json : Bytes
json = codes "{}"

abbrev handshake : Bytes
handshake =
    0 ∷ 0xff ∷ 0xff ∷ 0xff ∷ 0xff ∷ 0x0f ∷ 10 ∷ (codes "mc.example" ++ (0x63 ∷ 0xdd ∷ 1 ∷ []))

builds : handshake_payload target ≡ ok handshake
unfolding handshake_payload uint16_port write_string write_var_int be_bytes
builds = refl

host-utf8 : utf8_valid (codes "mc.example") ≡ true
unfolding utf8_valid
host-utf8 = refl

json-utf8 : utf8_valid json ≡ true
unfolding utf8_valid
json-utf8 = refl

encodes : status_payload json ≡ ok (0 ∷ 2 ∷ json)
unfolding status_payload Codec.write_string utf8_valid Codec.write_var_int
encodes = refl

exchange-completes_example :
    (to_server : Bytes) × (to_client : Bytes) × (ping_exchange braces moments 100
        (ok 7)
        target
        (quiet to_client eof [] none)
      ≡ (
        ok (max (2_000_010 - 10) millisecond),
        quiet [] eof to_server (some (io_deadline moments 100)),
      ))
    × (handle_conn 3 json 50 (quiet to_server eof [] none)
        ≡ (ok tt, quiet [] eof to_client (some (3 + 50))))
exchange-completes_example =
    exchange-completes braces eof eof moments 100 3 50 7 target json handshake (0 ∷ 2 ∷ json) builds
      host-utf8 encodes json-utf8 refl (omega arith)
