-- ===== src/Staging/Server/Probing.antt =====
-- Messages over a connection on which nothing fails.
use minecraft_ping.Base.{
  ℕ, ◌≡◌, ◌<◌, ◌≤◌, refl, [], ◌++◌, Bytes, length, Option, none, some, ok, arith,
}
use minecraft_ping.Io.{IoError, Conn, conn_write, conn_set_deadline}
use minecraft_ping.Java.Action.{receive, write, set_deadline}
use minecraft_ping.Java.Packet.{max_packet_length, frame, write_packet, read_packet}
use minecraft_ping.Java.Messages.Framing.{read_packet-frame}

-- A connection whose writes and deadlines succeed, with these bytes to come and these written.
abbrev pub quiet : Bytes → IoError → Bytes → Option ℕ → Conn
quiet bytes ends sent deadline = record {
  incoming = record { bytes = bytes; ends = ends };
  sent = sent;
  write_faults = [];
  deadline_fault = none;
  deadline = deadline;
}

module _ (ends : IoError) where
  pub quiet-set_deadline :
      (at : ℕ) (bytes sent : Bytes) (deadline : Option ℕ)
      → set_deadline at (quiet bytes ends sent deadline) ≡ (ok tt, quiet bytes ends sent (some at))
  unfolding set_deadline conn_set_deadline
  quiet-set_deadline at bytes sent deadline = refl

  pub quiet-write_packet :
      (payload bytes sent : Bytes) (deadline : Option ℕ)
      → 0 < length payload
      → length payload ≤ max_packet_length
      → write_packet payload (quiet bytes ends sent deadline)
        ≡ (ok tt, quiet bytes ends (sent ++ frame payload) deadline)
  unfolding write_packet write conn_write
  quiet-write_packet payload bytes sent deadline lo hi = ground arith

  pub quiet-receive :
      (payload bytes sent : Bytes) (deadline : Option ℕ)
      → 0 < length payload
      → length payload ≤ max_packet_length
      → receive (read_packet max_packet_length) (quiet (frame payload ++ bytes) ends sent deadline)
        ≡ (ok payload, quiet bytes ends sent deadline)
  quiet-receive payload bytes sent deadline lo hi =
      rw (read_packet-frame payload bytes ends max_packet_length lo hi (omega arith)) refl
