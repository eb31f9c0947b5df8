-- ===== src/Session/Undisturbed.antt =====
-- session.go: a session that nothing ends before its count.
use minecraft_ping.Base.{
  ℕ, zero, suc, ◌-◌, ◌≡◌, ◌<◌, ◌≤◌, refl, sym, ◌∙◌, Bool, true, false, ◌||◌, ltb, some, Bool-cases,
  inl, inr, arith,
}
use mathlib.Core.Path.{subst}
use minecraft_ping.Session.{
  SessionConfig, Session, World, session_loop, turn, end_turn, probed, begun, count_reached,
  starting, deadline_passed, sleeping, tick, reading,
}
use minecraft_ping.Session.Ending.{stops_on, runs_on, session_loop-IsCounted, begun-IsCounted}

-- No deadline, a context that lasts, and a sleep that never fails.
pub record IsUndisturbed {P : Type 0} (w : World P) (cfg : SessionConfig) : Type 0 where
  pub no_deadline : ltb 0 cfg.deadline ≡ false
  pub lasting : (seq : ℕ) → w.ctx_done seq ≡ false
  pub sleeps : (seq time : ℕ) → w.sleep_fails seq time ≡ false

module _ {P : Type 0} (w : World P) (cfg : SessionConfig) (deadline_at : ℕ)
    (u : IsUndisturbed w cfg) where
  abbrev StopsFull : Bool × Session P → Type 0
  StopsFull r = r.0 ≡ false → count_reached w cfg deadline_at r.1 ≡ true

  sleeping-StopsFull :
      (start : ℕ) (s : Session P)
      → StopsFull (sleeping w cfg deadline_at start (deadline_passed w cfg deadline_at s))
  sleeping-StopsFull start s =
      let rested = u.sleeps s.seq (cfg.interval - (reading w cfg deadline_at s - start)) in
      rw u.no_deadline (rw rested (λ e. cc))

  end_turn-StopsFull : (start : ℕ) (s : Session P) → StopsFull (end_turn w cfg deadline_at start s)
  unfolding end_turn
  end_turn-StopsFull start s =
      elim (Bool-cases (w.ctx_done s.seq || count_reached w cfg deadline_at s)) [
        | inl e ↦
            let live = u.lasting s.seq in
            let full : count_reached w cfg deadline_at s ≡ true = ground arith in
            rw (e, end_turn) (λ _. full)
        | inr e ↦ rw (e, end_turn) (sleeping-StopsFull start s)
      ]

  starting-is_probing :
      (s : Session P)
      → starting w cfg deadline_at (deadline_passed w cfg deadline_at s)
        ≡ end_turn w cfg deadline_at
            (reading w cfg deadline_at s)
            (probed w cfg deadline_at cfg.timeout (tick w cfg deadline_at s))
  starting-is_probing s = rw u.no_deadline (rw u.no_deadline refl)

  turn-StopsFull : (s : Session P) → StopsFull (turn w cfg deadline_at s)
  unfolding turn
  turn-StopsFull s = elim (Bool-cases (count_reached w cfg deadline_at s)) [
    | inl full ↦ rw (full, turn) (λ _. full)
    | inr room ↦
        rw (room, turn) (subst StopsFull (sym (starting-is_probing s)) (end_turn-StopsFull _ _))
  ]

  loop-full :
      (fuel : ℕ) (s s' : Session P)
      → session_loop w cfg deadline_at fuel s ≡ some s'
      → count_reached w cfg deadline_at s' ≡ true
  unfolding session_loop
  loop-full zero s s' h = cc
  loop-full (suc fuel) s s' h =
      let r = turn w cfg deadline_at s in
      elim (Bool-cases r.0) [
        | inr over ↦
            let same : some r.1 ≡ some s' = sym (stops_on w cfg deadline_at fuel r over) ∙ h in
            let same' : r.1 ≡ s' = ground arith in
            subst (λ (t : Session P). count_reached w cfg deadline_at t ≡ true) same'
              (turn-StopsFull s over)
        | inl on ↦ loop-full fuel r.1 s' (sym (runs_on w cfg deadline_at fuel r on) ∙ h)
      ]

-- Without a deadline, with a context that lasts and a sleep that never fails, a session with a
-- count sends exactly as many probes as the count, whatever the probes answer.
pub undisturbed-sends_all :
    {P : Type 0} (w : World P) (cfg : SessionConfig) (deadline_at fuel : ℕ) (p : P) (s : Session P)
    → IsUndisturbed w cfg
    → 0 < cfg.count
    → session_loop w cfg deadline_at fuel (begun w cfg p) ≡ some s
    → s.transmitted ≡ cfg.count
undisturbed-sends_all w cfg deadline_at fuel p s u some_count ended =
    let full = loop-full w cfg deadline_at u fuel (begun w cfg p) s ended in
    let c =
      session_loop-IsCounted w cfg deadline_at fuel (begun w cfg p) s (begun-IsCounted w cfg p)
        ended in
    let most = c.within_count some_count in
    let least : cfg.count ≤ s.transmitted = ground arith in omega arith
