-- ===== src/Io.antt =====
-- What the program uses of Go's `io` and `net`: a reader, and a connection with two directions.
use minecraft_ping.Base.{
  ℕ, List, [], ◌∷◌, ◌++◌, Option, none, some, Bytes, length, take, drop, leb, if◌then◌else◌, Result,
  ok, err,
}

-- `io.EOF`, `io.ErrUnexpectedEOF`, a missed deadline, a closed connection, and any other by a code.
pub data IoError : Type 0 where
  eof unexpected_eof timed_out closed : IoError
  other : ℕ → IoError

-- A reader delivers its bytes in order and then fails with `ends`.
pub record Stream : Type 0 where
  pub bytes : Bytes
  pub ends : IoError

-- `io.ReadFull` that could not fill its buffer: an end of file after some bytes is unexpected.
unfoldable pub short_read : Bytes → IoError → IoError
short_read (b ∷ bs) eof = unexpected_eof
short_read _ e = e

-- `io.ReadFull` into a buffer of `n` bytes.
unfoldable pub read_full : ℕ → Stream → Result IoError (Bytes × Stream)
read_full n s =
    if leb n (length s.bytes)
    then ok (take n s.bytes, record s { bytes = drop n s.bytes })
    else err (short_read s.bytes s.ends)

-- A connection: what the peer sends, what was written to it, how the coming writes end (past the
-- list they succeed), how the next `SetDeadline` ends, and the deadline that is set.
pub record Conn : Type 0 where
  pub incoming : Stream
  pub sent : Bytes
  pub write_faults : List (Option IoError)
  pub deadline_fault : Option IoError
  pub deadline : Option ℕ

-- Each operation returns its result and the connection behind it.
unfoldable pub conn_write : Bytes → Conn → Result IoError (Unit {0}) × Conn
conn_write p c = elim c.write_faults [
  | [] ↦ (ok tt, record c { sent = c.sent ++ p })
  | none ∷ rest ↦ (ok tt, record c { sent = c.sent ++ p; write_faults = rest })
  | some e ∷ rest ↦ (err e, record c { write_faults = rest })
]

unfoldable pub conn_set_deadline : ℕ → Conn → Result IoError (Unit {0}) × Conn
conn_set_deadline at c = elim c.deadline_fault [
  | none ↦ (ok tt, record c { deadline = some at })
  | some e ↦ (err e, c)
]
