-- ===== src/Witnesses/Staging.antt =====
-- internal/stagingserver/server.go at concrete inputs.
use minecraft_ping.Base.{◌≡◌, refl, [], ◌∷◌, true, map_err, arith}
use minecraft_ping.Text.{codes}
use minecraft_ping.Text.Utf8.{utf8_valid}
use minecraft_ping.Io.{eof, Stream}
use minecraft_ping.Java.VarInt
use minecraft_ping.Java.Packet
use minecraft_ping.Staging.Codec.{
  read_packet, write_var_int, write_packet, read_string_from_bytes, write_string,
}
use minecraft_ping.Staging.Codec.Agreement.{unexpected, codecs-agree}

abbrev packet : Stream
packet = record { bytes = 2 ∷ 4 ∷ 5 ∷ 9 ∷ []; ends = eof }

word-utf8 : utf8_valid (codes "mc") ≡ true
unfolding utf8_valid
word-utf8 = refl

codecs-agree_example :
    (read_packet 10 packet ≡ Packet.read_packet 10 packet)
    × (write_packet (0x80 ∷ []) ≡ Packet.write_packet (0x80 ∷ []))
    × (read_string_from_bytes (0x80 ∷ []) 10
        ≡ map_err unexpected (Packet.read_string_from_bytes (0x80 ∷ []) 10))
    × (write_var_int 300 ≡ VarInt.write_var_int 300)
    × (write_string (codes "mc") 10 ≡ Packet.write_string (codes "mc") 10)
codecs-agree_example =
    codecs-agree 10 packet (0x80 ∷ []) (codes "mc") 300 10 (omega arith) (omega arith) word-utf8
