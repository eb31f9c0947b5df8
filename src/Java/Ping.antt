-- ===== src/Java/Ping.antt =====
-- java.go: the status exchange of one probe over a dialled connection. Times are nanoseconds.
use minecraft_ping.Base.{ℕ, ◌+◌, ◌-◌, max, ◌≡◌, refl, Bytes, Option, none, some, Result}
use minecraft_ping.Io.{Conn}
use minecraft_ping.Address.Endpoint.{Endpoint}
use minecraft_ping.Java.Errors.{Error}
use minecraft_ping.Java.Action.{Action, ◌>>=◌, ◌>>◌, return, of_result, set_deadline}
use minecraft_ping.Java.Messages.{
  Json, send_handshake_packet, send_status_request_packet, read_status_response, send_ping_packet,
  read_pong_packet,
}

-- What the clock and the context say during one probe: the deadline of the context, and the three
-- readings of the clock, behind the dialling and round the ping.
pub record Moments : Type 0 where
  pub ctx_deadline : Option ℕ
  pub dialled : ℕ
  pub started : ℕ
  pub finished : ℕ

abbrev pub millisecond : ℕ
millisecond = 1_000_000

abbrev pub io_deadline : Moments → ℕ → ℕ
io_deadline m timeout = elim m.ctx_deadline [ some at ↦ at | none ↦ m.dialled + timeout ]

-- `pingJavaPreparedContext` behind the dialling; the result is the latency. A clock that runs
-- backwards gives 0 here and a negative duration in Go, and the maximum is the same.
unfoldable pub ping_exchange :
    (Bytes → Option Json) → Moments → ℕ → Result Error ℕ → Endpoint → Action ℕ
ping_exchange unmarshal m timeout token_source handshake = do
  set_deadline (io_deadline m timeout)
  send_handshake_packet handshake
  send_status_request_packet
  read_status_response unmarshal
  token ← of_result token_source
  send_ping_packet token
  read_pong_packet token
  return (max (m.finished - m.started) millisecond)

-- The exchange as the chain of its steps.
pub ping_exchange-steps :
    (unmarshal : Bytes → Option Json) (m : Moments) (timeout : ℕ) (source : Result Error ℕ)
    (handshake : Endpoint) (c : Conn)
    → ping_exchange unmarshal m timeout source handshake c
      ≡ (set_deadline (io_deadline m timeout) >>= λ _.
            (send_handshake_packet handshake >>= λ _.
            (send_status_request_packet >>= λ _.
            (read_status_response unmarshal >>= λ _.
            (of_result source >>= λ token.
            (send_ping_packet token >>= λ _.
            (read_pong_packet token >>= λ _.
            return (max (m.finished - m.started) millisecond))))))))
          c
unfolding ping_exchange
ping_exchange-steps unmarshal m timeout source handshake c = refl
