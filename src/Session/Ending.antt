-- ===== src/Session/Ending.antt =====
-- session.go: when a session ends, and with which exit code.
use minecraft_ping.Base.{
  length, All, ℕ, zero, suc, ◌+◌, ◌≡◌, ◌<◌, ◌≤◌, refl, sym, ◌∙◌, Bool, true, false, some,
  Bool-cases, inl, inr, arith,
}
use mathlib.Core.Path.{subst}
use minecraft_ping.Session.{
  SessionConfig, Session, World, session_loop, turn, going_on, exit_code, begun,
}
use minecraft_ping.Session.Counting.{IsCounted, turn-IsTurned}

pub begun-IsCounted :
    {P : Type 0} (w : World P) (cfg : SessionConfig) (p : P) → IsCounted cfg (begun w cfg p)
begun-IsCounted w cfg p = record {
  answered = omega arith;
  latency_each = refl;
  timeout_each = refl;
  numbered = refl;
  within_count = λ h. omega arith;
  bounded = tt;
}

module _ {P : Type 0} (w : World P) (cfg : SessionConfig) (deadline_at : ℕ) where
  pub stops_on :
      (fuel : ℕ) (r : Bool × Session P)
      → r.0 ≡ false
      → going_on w cfg deadline_at (session_loop w cfg deadline_at fuel) r ≡ some r.1
  stops_on fuel (false, s) e = refl
  stops_on fuel (true, s) e = cc

  pub runs_on :
      (fuel : ℕ) (r : Bool × Session P)
      → r.0 ≡ true
      → going_on w cfg deadline_at (session_loop w cfg deadline_at fuel) r
        ≡ session_loop w cfg deadline_at fuel r.1
  runs_on fuel (true, s) e = refl
  runs_on fuel (false, s) e = cc

  -- The fuel covers the probes that are left, and one more.
  pub session_loop-ends :
      (fuel : ℕ) (s : Session P)
      → 0 < cfg.count
      → IsCounted cfg s
      → cfg.count < fuel + s.transmitted
      → (s' : Session P) × (session_loop w cfg deadline_at fuel s ≡ some s')
  unfolding session_loop
  session_loop-ends zero s some_count c enough =
      absurd (omega (arith, c.within_count some_count, enough))
  session_loop-ends (suc fuel) s some_count c enough =
      let r = turn w cfg deadline_at s in
      let (c', more) = turn-IsTurned w cfg deadline_at s c in
      elim (Bool-cases r.0) [
        | inr over ↦ (r.1, stops_on fuel r over)
        | inl on ↦
            let (s', ended) =
              session_loop-ends fuel r.1 some_count c' (omega (arith, more on, enough)) in
            (s', runs_on fuel r on ∙ ended)
      ]

  pub session_loop-IsCounted :
      (fuel : ℕ) (s s' : Session P)
      → IsCounted cfg s
      → session_loop w cfg deadline_at fuel s ≡ some s'
      → IsCounted cfg s'
  unfolding session_loop
  session_loop-IsCounted zero s s' c h = cc
  session_loop-IsCounted (suc fuel) s s' c h =
      let r = turn w cfg deadline_at s in
      let (c', more) = turn-IsTurned w cfg deadline_at s c in
      elim (Bool-cases r.0) [
        | inr over ↦
            let same : some r.1 ≡ some s' = sym (stops_on fuel r over) ∙ h in
            let same' : r.1 ≡ s' = ground arith in subst (IsCounted cfg) same' c'
        | inl on ↦ session_loop-IsCounted fuel r.1 s' c' (sym (runs_on fuel r on) ∙ h)
      ]

-- A session behind its last turn.
pub record IsFinished {P : Type 0} (cfg : SessionConfig) (s : Session P) : Type 0 where
  pub answered : s.received ≤ s.transmitted
  pub sent : s.transmitted ≤ cfg.count
  pub latency_each : length s.latencies ≡ s.received
  pub timeout_each : length s.asked ≡ s.transmitted
  pub bounded : All (λ t. t ≤ cfg.timeout) s.asked

-- A session with a count ends, whatever the clock, the probes and the context do: one turn more
-- than the count is enough. Behind it no more probes were answered than sent, and no more sent
-- than the count; there is one latency for each answer, and one timeout for each probe, none of
-- them above the configured one.
pub session-ends :
    {P : Type 0} (w : World P) (cfg : SessionConfig) (deadline_at : ℕ) (p : P)
    → 0 < cfg.count
    → (s : Session P) × (session_loop w cfg deadline_at (suc cfg.count) (begun w cfg p) ≡ some s)
      × IsFinished cfg s
session-ends w cfg deadline_at p some_count =
    let start = begun-IsCounted w cfg p in
    let (s, ended) =
      session_loop-ends w cfg deadline_at (suc cfg.count) (begun w cfg p) some_count start
        (omega arith) in
    let c =
      session_loop-IsCounted w cfg deadline_at (suc cfg.count) (begun w cfg p) s start ended in
    (
      s,
      ended,
      record {
        answered = c.answered;
        sent = c.within_count some_count;
        latency_each = c.latency_each;
        timeout_each = c.timeout_each;
        bounded = c.bounded;
      },
    )

-- A session with a count and a deadline that ends with the exit code 0 has sent as many probes as
-- the count, and every one was answered.
pub exit_code-zero :
    {P : Type 0} (w : World P) (cfg : SessionConfig) (deadline_at fuel : ℕ) (p : P) (s : Session P)
    → 0 < cfg.count
    → 0 < cfg.deadline
    → session_loop w cfg deadline_at fuel (begun w cfg p) ≡ some s
    → exit_code w cfg s ≡ 0
    → (s.received ≡ cfg.count) × (s.transmitted ≡ cfg.count)
unfolding exit_code
exit_code-zero w cfg deadline_at fuel p s some_count some_deadline ended zero_code =
    let c =
      session_loop-IsCounted w cfg deadline_at fuel (begun w cfg p) s (begun-IsCounted w cfg p)
        ended in
    let enough : cfg.count ≤ s.received = ground arith in
    let most = c.within_count some_count in let fewer = c.answered in (omega arith, omega arith)
