-- ===== src/Release/Waiting.antt =====
-- cmd/release-integration/main.go: `waitForListener`. The clock, the probe and the context are
-- parameters, for each turn of the loop.
use minecraft_ping.Base.{
  ℕ, zero, suc, ◌+◌, ◌*◌, ◌≡◌, ◌≢◌, ◌≤◌, ◌<◌, refl, ltb, ltb_iff, if◌then◌else◌, Option, none, some,
  Result, ok, err, arith, inl, inr, Bool-cases, dec_lt,
}
use mathlib.Core.Path.{subst}

abbrev pub millisecond : ℕ
millisecond = 1_000_000

abbrev pub listener_ready_timeout : ℕ
listener_ready_timeout = 120_000 * millisecond

abbrev pub listener_retry_interval : ℕ
listener_retry_interval = 500 * millisecond

-- The clock at the head of a turn, the error of the probe, and that of the context if it ends
-- before the next turn.
pub record Turn (E : Type 0) : Type 0 where
  pub now : ℕ
  pub probe : Option E
  pub ctx_err : Option E

pub data WaitError (E : Type 0) : Type 0 where
  ctx_ended : E → WaitError E
  never_ready : WaitError E

module _ {E : Type 0} where
  abbrev pub after_probe :
      Option E → Option (Result (WaitError E) (Unit {0})) → Option (Result (WaitError E) (Unit {0}))
  after_probe (some e) later = some (err (ctx_ended e))
  after_probe none later = later

  abbrev pub probed :
      Turn E
      → Option E
      → Option (Result (WaitError E) (Unit {0}))
      → Option (Result (WaitError E) (Unit {0}))
  probed turn none later = some (ok tt)
  probed turn (some e) later = after_probe turn.ctx_err later

  -- The loop from turn `i` on; `none` where the fuel ends first.
  unfoldable pub wait_loop : ℕ → (ℕ → Turn E) → ℕ → ℕ → Option (Result (WaitError E) (Unit {0}))
  wait_loop zero turns deadline i = none
  wait_loop (suc fuel) turns deadline i =
      let later = wait_loop fuel turns deadline (suc i) in
      if ltb (turns i).now deadline
      then probed (turns i) (turns i).probe later
      else some (err never_ready)

  -- The deadline is set at the time of `started`.
  unfoldable pub wait_for_listener : ℕ → ℕ → (ℕ → Turn E) → Option (Result (WaitError E) (Unit {0}))
  unfolding wait_loop
  wait_for_listener fuel started turns = wait_loop fuel turns (started + listener_ready_timeout) 0

  -- In each turn before some turn, the deadline was ahead, the probe failed, and the context went
  -- on.
  abbrev pub Waited : (ℕ → Turn E) → ℕ → ℕ → Type 0
  Waited turns deadline j =
      (i : ℕ)
      → i < j
      → ((turns i).now < deadline) × ((turns i).probe ≢ none) × ((turns i).ctx_err ≡ none)

  -- How the loop ended, in its last turn.
  abbrev pub Explains : (ℕ → Turn E) → ℕ → ℕ → Result (WaitError E) (Unit {0}) → Type 0
  Explains turns deadline j (ok u) = ((turns j).now < deadline) × ((turns j).probe ≡ none)
  Explains turns deadline j (err (ctx_ended e)) =
      ((turns j).now < deadline) × ((turns j).probe ≢ none) × ((turns j).ctx_err ≡ some e)
  Explains turns deadline j (err never_ready) = deadline ≤ (turns j).now

  abbrev pub Ends : (ℕ → Turn E) → ℕ → Option (Result (WaitError E) (Unit {0})) → Type 0
  Ends turns deadline o =
      (r : Result (WaitError E) (Unit {0})) × (j : ℕ) × (o ≡ some r)
      × Waited turns deadline j
      × Explains turns deadline j r

  module _ (turns : ℕ → Turn E) (deadline : ℕ) where
    Waited-suc :
        (i : ℕ) {e : E}
        → Waited turns deadline i
        → (turns i).now < deadline
        → (turns i).probe ≡ some e
        → (turns i).ctx_err ≡ none
        → Waited turns deadline (suc i)
    Waited-suc i waited early failed goes_on k h = elim (dec_lt k i) [
      | yes before ↦ waited k before
      | no here ↦
          let same : i ≡ k = omega arith in
          subst
            (λ m.
              ((turns m).now < deadline) × ((turns m).probe ≢ none) × ((turns m).ctx_err ≡ none))
            same (early, λ none_failed. absurd cc, goes_on)
    ]

    after_probe-Ends :
        (i : ℕ) (e : E) (ctx_err : Option E) (later : Option (Result (WaitError E) (Unit {0})))
        → Waited turns deadline i
        → (turns i).now < deadline
        → (turns i).probe ≡ some e
        → (turns i).ctx_err ≡ ctx_err
        → (Waited turns deadline (suc i) → Ends turns deadline later)
        → Ends turns deadline (after_probe ctx_err later)
    after_probe-Ends i e (some f) later waited early failed is h =
        (err (ctx_ended f), i, refl, waited, (early, λ none_failed. absurd cc, is))
    after_probe-Ends i e none later waited early failed is h =
        h (Waited-suc i waited early failed is)

    probed-Ends :
        (i : ℕ) (probe : Option E) (later : Option (Result (WaitError E) (Unit {0})))
        → Waited turns deadline i
        → (turns i).now < deadline
        → (turns i).probe ≡ probe
        → (Waited turns deadline (suc i) → Ends turns deadline later)
        → Ends turns deadline (probed (turns i) probe later)
    probed-Ends i none later waited early is h = (ok tt, i, refl, waited, (early, is))
    probed-Ends i (some e) later waited early is h =
        after_probe-Ends i e (turns i).ctx_err later waited early is refl h

    turn-Ends :
        (fuel i : ℕ)
        → Waited turns deadline i
        → ((turns i).now < deadline
            → Waited turns deadline (suc i)
            → Ends turns deadline (wait_loop fuel turns deadline (suc i)))
        → Ends turns deadline (wait_loop (suc fuel) turns deadline i)
    unfolding wait_loop
    turn-Ends fuel i waited rest = elim (Bool-cases (ltb (turns i).now deadline)) [
      | inr late ↦ rw late (err never_ready, i, refl, waited, ground arith)
      | inl early ↦
          let before = (ltb_iff (turns i).now deadline).0 early in
          rw early (probed-Ends i (turns i).probe _ waited before refl (rest before))
    ]

    -- As many turns as there are intervals up to the deadline, and one more.
    loop-Ends :
        (fuel i : ℕ)
        → Waited turns deadline i
        → ((j : ℕ) → (turns j).now + listener_retry_interval ≤ (turns (suc j)).now)
        → deadline ≤ (turns i).now + fuel * listener_retry_interval
        → Ends turns deadline (wait_loop (suc fuel) turns deadline i)
    loop-Ends zero i waited paced h = turn-Ends zero i waited (λ early. absurd (omega arith))
    loop-Ends (suc fuel) i waited paced h =
        turn-Ends (suc fuel) i waited
          (λ early waited'. loop-Ends fuel (suc i) waited' paced (omega (arith, paced i, h)))

  -- With a clock that goes on by the retry interval at least from each turn to the next,
  -- `waitForListener` returns within 241 turns, and at its first turn of one of three kinds: without
  -- an error where the probe succeeds before the deadline, with the error of the context where the
  -- probe fails before the deadline and the context ends, and with its own error at the deadline.
  pub wait_for_listener-Ends :
      (started : ℕ) (turns : ℕ → Turn E)
      → started ≤ (turns 0).now
      → ((j : ℕ) → (turns j).now + listener_retry_interval ≤ (turns (suc j)).now)
      → Ends turns (started + listener_ready_timeout) (wait_for_listener 241 started turns)
  unfolding wait_for_listener
  wait_for_listener-Ends started turns h paced =
      loop-Ends turns (started + listener_ready_timeout) 240 0 (λ i h. absurd (omega (arith, h)))
        paced (omega (arith, h))
