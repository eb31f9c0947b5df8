-- ===== src/Session/Counting.antt =====
-- session.go: the counters of a session, and its end.
use minecraft_ping.Base.{
  ℕ, suc, ◌+◌, ◌≡◌, ◌<◌, ◌≤◌, refl, sym, ap, ◌∙◌, Bool, true, false, ◌||◌, [], ◌∷◌, ◌++◌, length,
  length-append, ltb, Option, none, some, Result, ok, err, All, All-append, Bool-cases, inl, inr,
  arith,
}
use mathlib.Core.Path.{subst}
use minecraft_ping.Client.{ProbeSample}
use minecraft_ping.Session.{
  SessionConfig, Session, World, turn, end_turn, probed, sampled, asking, with_pong, starting,
  probing, sleeping, plan_timeout, deadline_passed, count_reached, tick, reading,
}

-- The counters agree, no more probes were sent than asked for, and no timeout exceeds the configured
-- one.
pub record IsCounted {P : Type 0} (cfg : SessionConfig) (s : Session P) : Type 0 where
  pub answered : s.received ≤ s.transmitted
  pub latency_each : length s.latencies ≡ s.received
  pub timeout_each : length s.asked ≡ s.transmitted
  pub numbered : s.seq ≡ suc s.transmitted
  pub within_count : 0 < cfg.count → s.transmitted ≤ cfg.count
  pub bounded : All (λ t. t ≤ cfg.timeout) s.asked

module _ {P : Type 0} (w : World P) (cfg : SessionConfig) (deadline_at : ℕ) where
  -- The line of a pong changes no counter.
  with_pong-keeps :
      (sample : ProbeSample) (s : Session P)
      → ((with_pong w cfg deadline_at sample s).transmitted ≡ s.transmitted)
        × ((with_pong w cfg deadline_at sample s).received ≡ s.received)
        × ((with_pong w cfg deadline_at sample s).latencies ≡ s.latencies)
        × ((with_pong w cfg deadline_at sample s).seq ≡ s.seq)
        × ((with_pong w cfg deadline_at sample s).asked ≡ s.asked)
  with_pong-keeps sample s = elim (Bool-cases cfg.quiet) [
    | inl q ↦ rw (q, with_pong) (refl, refl, refl, refl, refl)
    | inr q ↦ elim (Bool-cases cfg.timestamp) [
      | inl t ↦ rw (q, with_pong) (rw (t, with_pong) (refl, refl, refl, refl, refl))
      | inr t ↦ rw (q, with_pong) (rw (t, with_pong) (refl, refl, refl, refl, refl))
    ]
  ]

  -- The counters behind an answer, or behind its absence.
  abbrev IsSampled : Session P → Session P → Type 0
  IsSampled s s' =
      (s'.transmitted ≡ s.transmitted)
      × (s.received ≤ s'.received)
      × (s'.received ≤ suc s.received)
      × (length s'.latencies + s.received ≡ length s.latencies + s'.received)
      × (s'.seq ≡ s.seq)
      × (s'.asked ≡ s.asked)

  sampled-IsSampled :
      (r : Result ℕ ProbeSample) (s : Session P) → IsSampled s (sampled w cfg deadline_at r s)
  sampled-IsSampled (err e) s = (refl, omega arith, omega arith, refl, refl, refl)
  sampled-IsSampled (ok sample) s =
      let s' : Session P = record s {
        prepared = w.observe sample s.prepared;
        received = suc s.received;
        latencies = s.latencies ++ (sample.latency ∷ []);
      } in
      let (t, r, l, q, a) = with_pong-keeps sample s' in
      (
        t,
        omega (arith, r),
        omega (arith, r),
        omega (arith, r, ap length l, length-append s.latencies (sample.latency ∷ [])),
        q,
        a,
      )

  probed-IsCounted :
      (timeout : ℕ) (s : Session P)
      → IsCounted cfg s
      → count_reached w cfg deadline_at s ≡ false
      → timeout ≤ cfg.timeout
      → IsCounted cfg (probed w cfg deadline_at timeout s)
        × ((probed w cfg deadline_at timeout s).transmitted ≡ suc s.transmitted)
  unfolding probed
  probed-IsCounted timeout s c room le =
      let asked = asking w cfg deadline_at timeout s in
      let answer = w.probe s.prepared s.seq timeout in
      let (t, lo, hi, l, q, a) = sampled-IsSampled answer asked in
      (
        record {
          answered = omega (arith, t, lo, hi, c.answered);
          latency_each = omega (arith, l, c.latency_each);
          timeout_each =
              omega (arith, ap length a, t, c.timeout_each, length-append s.asked (timeout ∷ []));
          numbered = omega (arith, q, t, c.numbered);
          within_count = λ some_count. ground (arith, t, c.within_count some_count);
          bounded =
              subst (All (λ t. t ≤ cfg.timeout)) (sym a)
                (All-append (λ t. t ≤ cfg.timeout) s.asked (timeout ∷ []) c.bounded (le, tt));
        },
        t,
      )

  -- What a turn does to the session: the counters agree behind it, and it has sent one more probe
  -- if the loop goes on.
  abbrev pub IsTurned : Session P → Bool × Session P → Type 0
  IsTurned s r = IsCounted cfg r.1 × (r.0 ≡ true → r.1.transmitted ≡ suc s.transmitted)

  -- A reading of the clock.
  abbrev IsRead : Session P → Session P → Type 0
  IsRead s s' = IsCounted cfg s' × (s'.transmitted ≡ s.transmitted)

  tick-IsRead : (s : Session P) → IsCounted cfg s → IsRead s (tick w cfg deadline_at s)
  tick-IsRead s c = (
    record {
      answered = c.answered;
      latency_each = c.latency_each;
      timeout_each = c.timeout_each;
      numbered = c.numbered;
      within_count = c.within_count;
      bounded = c.bounded;
    },
    refl,
  )

  deadline_passed-IsRead :
      (s : Session P) → IsCounted cfg s → IsRead s (deadline_passed w cfg deadline_at s).1
  deadline_passed-IsRead s c = elim (Bool-cases (ltb 0 cfg.deadline)) [
    | inl d ↦ rw d (tick-IsRead s c)
    | inr d ↦ rw d (c, refl)
  ]

  plan_timeout-IsRead :
      (s : Session P)
      → IsCounted cfg s
      → IsRead s (plan_timeout w cfg deadline_at s).1
        × ((timeout : ℕ)
            → (plan_timeout w cfg deadline_at s).0 ≡ some timeout
            → timeout ≤ cfg.timeout)
  plan_timeout-IsRead s c = elim (Bool-cases (ltb 0 cfg.deadline)) [
    | inl d ↦ rw d (tick-IsRead s c, λ timeout e. ground arith)
    | inr d ↦ rw d ((c, refl), λ timeout e. ground arith)
  ]

  sleeping-IsTurned :
      (start : ℕ) (s : Session P) (r : Bool × Session P)
      → IsRead s r.1
      → IsCounted cfg (sleeping w cfg deadline_at start r).1
        × ((sleeping w cfg deadline_at start r).1.transmitted ≡ s.transmitted)
  sleeping-IsTurned start s (true, s') h = h
  sleeping-IsTurned start s (false, s') h = let (c, e) = tick-IsRead s' h.0 in (c, e ∙ h.1)

  end_turn-IsRead :
      (start : ℕ) (s : Session P)
      → IsCounted cfg s
      → IsRead s (end_turn w cfg deadline_at start s).1
  unfolding end_turn
  end_turn-IsRead start s c =
      elim (Bool-cases (w.ctx_done s.seq || count_reached w cfg deadline_at s)) [
        | inl e ↦ rw (e, end_turn) (c, refl)
        | inr e ↦
            rw (e, end_turn)
              (sleeping-IsTurned start s (deadline_passed w cfg deadline_at s)
                (deadline_passed-IsRead s c))
      ]

  probing-IsTurned :
      (start : ℕ) (s : Session P) (r : Option ℕ × Session P)
      → IsRead s r.1
      → count_reached w cfg deadline_at s ≡ false
      → ((timeout : ℕ) → r.0 ≡ some timeout → timeout ≤ cfg.timeout)
      → IsTurned s (probing w cfg deadline_at start r)
  probing-IsTurned start s (none, s') h room le = (h.0, λ e. cc)
  probing-IsTurned start s (some timeout, s') h room le =
      let room' : count_reached w cfg deadline_at s' ≡ false = ground (arith, h.1) in
      let (c, e) = probed-IsCounted timeout s' h.0 room' (le timeout refl) in
      let (c', e') = end_turn-IsRead start (probed w cfg deadline_at timeout s') c in
      (c', λ _. e' ∙ (e ∙ ap suc h.1))

  starting-IsTurned :
      (s : Session P) (r : Bool × Session P)
      → IsRead s r.1
      → count_reached w cfg deadline_at s ≡ false
      → IsTurned s (starting w cfg deadline_at r)
  starting-IsTurned s (true, s') h room = (h.0, λ e. cc)
  starting-IsTurned s (false, s') h room =
      let (c, e) = tick-IsRead s' h.0 in
      let ((c', e'), le) = plan_timeout-IsRead (tick w cfg deadline_at s') c in
      probing-IsTurned (reading w cfg deadline_at s') s
        (plan_timeout w cfg deadline_at (tick w cfg deadline_at s')) (c', e' ∙ (e ∙ h.1)) room le

  pub turn-IsTurned : (s : Session P) → IsCounted cfg s → IsTurned s (turn w cfg deadline_at s)
  unfolding turn
  turn-IsTurned s c = elim (Bool-cases (count_reached w cfg deadline_at s)) [
    | inl full ↦ rw (full, turn) (c, λ e. cc)
    | inr room ↦
        rw (room, turn)
          (starting-IsTurned s (deadline_passed w cfg deadline_at s) (deadline_passed-IsRead s c)
            room)
  ]
