-- ===== src/Session.antt =====
-- session.go: the loop of probes. Times are nanoseconds. The clock, the context, the sleep and the
-- probe are parameters: `now k` is the k-th reading of the clock in the session, the others depend
-- on the sequence number. The figures of the rtt line are floats and stand for the latencies here.
pub mod Counting
pub mod Ending
pub mod Undisturbed
use minecraft_ping.Base.{
  ℕ, zero, suc, ◌+◌, ◌-◌, ◌/◌, ◌≡◌, ◌<◌, min, Bool, true, false, not, ◌&&◌, ◌||◌, List, [], ◌∷◌,
  ◌++◌, Bytes, length, ltb, leb, ◌==◌, if◌then◌else◌, Option, none, some, Result, ok, err,
}
use minecraft_ping.Net.{AddrPort}
use minecraft_ping.Client.{ProbeSample}

-- The fields of `cliConfig` that a session reads; 0 stands for no count and for no deadline.
pub record SessionConfig : Type 0 where
  pub count : ℕ
  pub deadline : ℕ
  pub timeout : ℕ
  pub interval : ℕ
  pub quiet : Bool
  pub timestamp : Bool
  pub numeric : Bool

-- The lines of the output, each with what its text shows.
pub data Line : Type 0 where
  banner : Bytes → Line
  pong_from : Option ℕ → AddrPort → ℕ → ℕ → Line
  blank : Line
  statistics : Bytes → Line
  totals : ℕ → ℕ → ℕ → Line
  rtt : List ℕ → Line

-- `sessionStats`, `seq`, the number of clock readings so far, the prepared probe, the lines
-- written, and a trace: the timeouts that the probe was called with.
pub record Session (P : Type 0) : Type 0 where
  pub transmitted : ℕ
  pub received : ℕ
  pub latencies : List ℕ
  pub seq : ℕ
  pub ticks : ℕ
  pub prepared : P
  pub lines : List Line
  pub asked : List ℕ

-- A prepared probe, and the world that a session runs in.
pub record World (P : Type 0) : Type 0 where
  pub now : ℕ → ℕ
  pub ctx_done : ℕ → Bool
  pub sleep_fails : ℕ → ℕ → Bool
  pub probe : P → ℕ → ℕ → Result ℕ ProbeSample
  pub observe : ProbeSample → P → P
  pub banner_of : P → Bool → Bytes
  pub label_of : P → Bool → Bytes

module _ {P : Type 0} (w : World P) (cfg : SessionConfig) (deadline_at : ℕ) where
  abbrev pub reading : Session P → ℕ
  reading s = w.now s.ticks

  abbrev pub tick : Session P → Session P
  tick s = record s { ticks = suc s.ticks }

  abbrev pub count_reached : Session P → Bool
  count_reached s = ltb 0 cfg.count && leb cfg.count s.transmitted

  abbrev pub has_deadline : Bool
  has_deadline = ltb 0 cfg.deadline

  -- `hasDeadline && !rt.now().Before(deadlineAt)`
  abbrev pub deadline_passed : Session P → Bool × Session P
  deadline_passed s =
      if has_deadline then (not (ltb (reading s) deadline_at), tick s) else (false, s)

  abbrev pub plan_timeout : Session P → Option ℕ × Session P
  plan_timeout s =
      if has_deadline
      then (let remaining = deadline_at - reading s in
          (if remaining == 0 then none else some (min remaining cfg.timeout), tick s))
      else (some cfg.timeout, s)

  abbrev pub with_pong : ProbeSample → Session P → Session P
  with_pong sample s =
      if cfg.quiet
      then s
      else if cfg.timestamp
      then record s {
        lines = s.lines ++ (pong_from (some (reading s)) sample.remote s.seq sample.latency ∷ []);
        ticks = suc s.ticks;
      }
      else record s { lines = s.lines ++ (pong_from none sample.remote s.seq sample.latency ∷ []) }

  abbrev pub sampled : Result ℕ ProbeSample → Session P → Session P
  sampled (err e) s = s
  sampled (ok sample) s = with_pong sample (record s {
    prepared = w.observe sample s.prepared;
    received = suc s.received;
    latencies = s.latencies ++ (sample.latency ∷ []);
  })

  abbrev pub asking : ℕ → Session P → Session P
  asking timeout s = record s { transmitted = suc s.transmitted; asked = s.asked ++ (timeout ∷ []) }

  unfoldable pub probed : ℕ → Session P → Session P
  probed timeout s =
      let s' = sampled (w.probe s.prepared s.seq timeout) (asking timeout s) in
      record s' { seq = suc s'.seq }

  -- The end of a turn, behind the probe: whether the loop goes on.
  abbrev pub sleeping : ℕ → Bool × Session P → Bool × Session P
  sleeping start (true, s) = (false, s)
  sleeping start (false, s) =
      let sleep_for = cfg.interval - (reading s - start) in
      (not (w.sleep_fails s.seq sleep_for), tick s)

  unfoldable pub end_turn : ℕ → Session P → Bool × Session P
  end_turn start s =
      if w.ctx_done s.seq || count_reached s then (false, s) else sleeping start (deadline_passed s)

  abbrev pub probing : ℕ → Option ℕ × Session P → Bool × Session P
  probing start (none, s) = (false, s)
  probing start (some timeout, s) = end_turn start (probed timeout s)

  abbrev pub starting : Bool × Session P → Bool × Session P
  starting (true, s) = (false, s)
  starting (false, s) = probing (reading s) (plan_timeout (tick s))

  -- One turn of the loop: whether it goes on, and the session behind it.
  unfoldable pub turn : Session P → Bool × Session P
  turn s = if count_reached s then (false, s) else starting (deadline_passed s)

  -- The loop; `none` when the fuel ends before it.
  abbrev pub going_on : (Session P → Option (Session P)) → Bool × Session P → Option (Session P)
  going_on next (true, s) = next s
  going_on next (false, s) = some s

  unfoldable pub session_loop : ℕ → Session P → Option (Session P)
  session_loop zero s = none
  session_loop (suc fuel) s = going_on (session_loop fuel) (turn s)

module _ {P : Type 0} (w : World P) (cfg : SessionConfig) where
  unfoldable pub exit_code : Session P → ℕ
  exit_code s =
      if ltb 0 cfg.count && (ltb 0 cfg.deadline && ltb s.received cfg.count)
      then 1
      else if s.received == 0
      then 1
      else 0

  abbrev pub begun : P → Session P
  begun prepared = record {
    transmitted = 0;
    received = 0;
    latencies = [];
    seq = 1;
    ticks = 1;
    prepared = prepared;
    lines = banner (w.banner_of prepared cfg.numeric) ∷ [];
    asked = [];
  }

  abbrev rtt_line : List ℕ → List Line
  rtt_line [] = []
  rtt_line (l ∷ ls) = rtt (l ∷ ls) ∷ []

  -- The summary, with the time in milliseconds.
  unfoldable pub summary : Session P → List Line
  summary s =
      let time = (w.now s.ticks - w.now 0) / 1_000_000 in
      blank
      ∷ statistics (w.label_of s.prepared cfg.numeric)
      ∷ totals s.transmitted s.received time
      ∷ rtt_line s.latencies

  abbrev pub closing : Option (Session P) → Option (ℕ × List Line)
  closing none = none
  closing (some s) = some (exit_code s, s.lines ++ summary s)

  -- `runTextSession`: the exit code and the output.
  unfoldable pub run_text_session : ℕ → P → Option (ℕ × List Line)
  unfolding exit_code summary session_loop
  run_text_session fuel prepared =
      closing (session_loop w cfg (w.now 0 + cfg.deadline) fuel (begun prepared))
