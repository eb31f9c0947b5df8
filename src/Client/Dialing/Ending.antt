-- ===== src/Client/Dialing/Ending.antt =====
-- client.go: `dialCandidates` comes to an end, and what it leaves behind.
use minecraft_ping.Base.{
  ℕ, zero, suc, ◌+◌, ◌*◌, ◌≡◌, ◌≤◌, ◌<◌, refl, sym, ap, ◌∙◌, Bool, true, false, List, [], ◌∷◌, ◌++◌,
  length, map, length-append, append_assoc, append-nil, arith, dec_lt, inl, inr, ◌⊎◌,
}
use minecraft_ping.Address.Candidates.{DialCandidate}
use minecraft_ping.Client.Dialing.{
  waiting, dialing, dialed, sending, finished, Phase, Worker, worker, Attempt, connected, failed,
  Caller, collecting, returned, gave_up, System, WorkerStep, timer_fires, stops_waiting, dial_fails,
  dial_succeeds, closes, passes, sends, Step, works, receives_connection, receives_error, gives_up,
  context_ends, first_workers, Reach, start, later,
}
use minecraft_ping.Client.Dialing.Collecting.{owes, owed, Adds, Reach-Inv, All-Unit}
use mathlib.Core.Path.{subst}

owes-cases : (phase : Phase) → (owes phase ≡ 1) ⊎ (owes phase ≡ 0)
owes-cases waiting = inl refl
owes-cases dialing = inl refl
owes-cases dialed = inl refl
owes-cases sending = inl refl
owes-cases finished = inr refl

-- How many steps a goroutine, the caller and the context can still take, a result in the channel
-- being one step of the caller.
abbrev left : Phase → ℕ
left waiting = 5
left dialing = 4
left dialed = 3
left sending = 2
left finished = 0

abbrev lefts : List Worker → ℕ
lefts [] = 0
lefts (w ∷ ws) = left w.phase + lefts ws

abbrev uncancelled : Bool → ℕ
uncancelled true = 0
uncancelled false = 1

lefts-append : (xs ys : List Worker) → lefts (xs ++ ys) ≡ lefts xs + lefts ys
lefts-append [] ys = omega arith
lefts-append (x ∷ xs) ys = omega (arith, lefts-append xs ys)

lefts-waiting : (cs : List DialCandidate) → lefts (map (λ d. worker d waiting) cs) ≡ 5 * length cs
lefts-waiting [] = omega arith
lefts-waiting (c ∷ cs) = omega (arith, lefts-waiting cs)

uncancelled-le : (b : Bool) → uncancelled b ≤ 1
uncancelled-le true = omega arith
uncancelled-le false = omega arith

first_owing :
    (ws : List Worker)
    → 0 < owed ws
    → (before : List Worker) × (w : Worker) × (after : List Worker) × (ws ≡ before ++ (w ∷ after))
      × (owes w.phase ≡ 1)
first_owing [] h = absurd (omega arith)
first_owing (w ∷ ws) h = elim (owes-cases w.phase) [
  | inl owing ↦ ([], w, ws, refl, owing)
  | inr done ↦
      let (before, v, after, e, owing) = first_owing ws (omega (arith, done)) in
      (w ∷ before, v, after, ap (◌∷◌ w) e, owing)
]

first_workers-lefts : (cs : List DialCandidate) → lefts (first_workers cs) ≤ 5 * length cs
first_workers-lefts [] = omega arith
first_workers-lefts (c ∷ cs) = omega (arith, lefts-waiting cs)

module _ {E : Type 0} where
  abbrev waits : Caller E → ℕ
  waits (collecting remaining errs) = 1
  waits (returned c) = 0
  waits (gave_up errs) = 0

  abbrev weight : System E → ℕ
  weight s = lefts s.workers + length s.results + waits s.caller + uncancelled s.cancelled

  WorkerStep-left :
      {cancelled : Bool} {w w' : Worker} {sent : List (Attempt E)}
      → WorkerStep cancelled w w' sent
      → left w'.phase + length sent < left w.phase
  WorkerStep-left timer_fires = omega arith
  WorkerStep-left (stops_waiting e h) = omega arith
  WorkerStep-left (dial_fails e) = omega arith
  WorkerStep-left dial_succeeds = omega arith
  WorkerStep-left (closes e h) = omega arith
  WorkerStep-left (passes h) = omega arith
  WorkerStep-left sends = omega arith

  Step-weight : {s t : System E} → Step s t → weight t < weight s
  Step-weight {s} (works before after {w} {w'} {sent} e step) = omega (
    arith,
    ap lefts e,
    lefts-append before (w ∷ after),
    lefts-append before (w' ∷ after),
    WorkerStep-left step,
    length-append s.results sent,
  )
  Step-weight {s} (receives_connection er ec) =
      omega (arith, ap length er, ap waits ec, uncancelled-le s.cancelled)
  Step-weight {s} (receives_error er ec) = omega (arith, ap length er, ap waits ec)
  Step-weight {s} (gives_up ec) = omega (arith, ap waits ec, uncancelled-le s.cancelled)
  Step-weight {s} (context_ends h) = omega (arith, ap uncancelled h)

  -- How many steps led to a state.
  abbrev pub steps : {cs : List DialCandidate} {s : System E} → Reach cs s → ℕ
  steps start = 0
  steps (later before step) = suc (steps before)

  steps-weight :
      {cs : List DialCandidate} {s : System E} (reached : Reach cs s)
      → steps reached + weight s ≤ 5 * length cs + 2
  steps-weight {cs} start = omega (arith, first_workers-lefts cs)
  steps-weight (later before step) = omega (arith, steps-weight before, Step-weight step)

  -- However the timers, the dials, the context and the caller interleave, the dials of a list of
  -- candidates take no more than five steps for each candidate and two more.
  pub steps-le :
      (cs : List DialCandidate) {s : System E} (reached : Reach cs s)
      → steps reached ≤ 5 * length cs + 2
  steps-le cs reached = omega (arith, steps-weight reached)

  -- A step that does not need the context of the caller to end.
  abbrev pub IsOwn : {s t : System E} → Step s t → Type 0
  IsOwn (context_ends h) = ⊥
  IsOwn step = Unit

  abbrev pub Moves : System E → Type 0
  Moves s = (t : System E) × (step : Step s t) × IsOwn step

  -- A goroutine that owes its result is able to go on.
  worker_moves :
      E
      → (cancelled : Bool) (c : DialCandidate) (phase : Phase) → owes phase ≡ 1
      → (w' : Worker) × (sent : List (Attempt E)) × WorkerStep cancelled (worker c phase) w' sent
  worker_moves e cancelled c waiting h = (worker c dialing, [], timer_fires)
  worker_moves e cancelled c dialing h = (worker c dialed, [], dial_succeeds)
  worker_moves e true c dialed h = (worker c finished, failed c e ∷ [], closes e refl)
  worker_moves e false c dialed h = (worker c sending, [], passes refl)
  worker_moves e cancelled c sending h = (worker c finished, connected c ∷ [], sends)
  worker_moves e cancelled c finished h = absurd (omega (arith, h))

  results-Moves :
      (s : System E) (results : List (Attempt E)) {n : ℕ} {errs : List (DialCandidate × E)}
      → s.results ≡ results
      → 0 < length results
      → s.caller ≡ collecting (suc n) errs
      → Moves s
  results-Moves s [] er h ec = absurd (omega arith)
  results-Moves s (connected c ∷ rest) {n} {errs} er h ec = (
    record s { results = rest; caller = returned c; cancelled = true },
    receives_connection er ec,
    tt,
  )
  results-Moves s (failed c e ∷ rest) {n} {errs} er h ec = (
    record s { results = rest; caller = collecting n (errs ++ ((c, e) ∷ [])) },
    receives_error er ec,
    tt,
  )

  owing-Moves : E → (s : System E) → 0 < owed s.workers → Moves s
  owing-Moves e s h =
      let (before, w, after, same, owing) = first_owing s.workers h in
      let (w', sent, step) = worker_moves e s.cancelled w.candidate w.phase owing in
      (
        record s { workers = before ++ (w' ∷ after); results = s.results ++ sent },
        works before after same step,
        tt,
      )

  remaining-Moves :
      E
      → (s : System E) (remaining : ℕ) {errs : List (DialCandidate × E)}
      → remaining ≡ owed s.workers + length s.results
      → s.caller ≡ collecting remaining errs
      → Moves s
  remaining-Moves e s zero h ec =
      (record s { caller = gave_up _; cancelled = true }, gives_up ec, tt)
  remaining-Moves e s (suc n) h ec = elim (dec_lt 0 (length s.results)) [
    | yes some_lie ↦ results-Moves s s.results refl some_lie ec
    | no none_lie ↦ owing-Moves e s (omega (arith, h, none_lie))
  ]

  -- The dials never block: as long as the caller of `dialCandidates` still collects results, in
  -- every reachable state, a goroutine or the caller can take a step, and the context need not end
  -- for it. The first argument is the error of a context that has ended.
  pub collecting-Moves :
      E
      → {cs : List DialCandidate} {s : System E} {n : ℕ} {errs : List (DialCandidate × E)}
      → Reach cs s
      → s.caller ≡ collecting n errs
      → Moves s
  collecting-Moves e {cs} {s} {n} reached ec =
      let inv = Reach-Inv (λ _. Unit) (All-Unit cs) reached in
      remaining-Moves e s n (subst (Adds (length cs) s) ec inv.adds).0 ec

  -- Some steps later.
  pub data Later (s : System E) : System E → Type 0 where
    now : Later s s
    then : {t u : System E} → Later s t → Step t u → Later s u

  -- The channel has grown only, behind a caller that has returned.
  abbrev pub Kept : DialCandidate → List (Attempt E) → System E → Type 0
  Kept c results t =
      (t.caller ≡ returned c) × (more : List (Attempt E)) × (t.results ≡ results ++ more)

  Step-Kept :
      (c : DialCandidate) (results : List (Attempt E)) {t u : System E}
      → Step t u
      → Kept c results t
      → Kept c results u
  Step-Kept c results {t} (works before after {w} {w'} {sent} e step) (done, more, grown) =
      (done, more ++ sent, ap (λ r. r ++ sent) grown ∙ append_assoc results more sent)
  Step-Kept c results (receives_connection er ec) (done, more, grown) = absurd cc
  Step-Kept c results (receives_error er ec) (done, more, grown) = absurd cc
  Step-Kept c results (gives_up ec) (done, more, grown) = absurd cc
  Step-Kept c results (context_ends h) kept = kept

  -- Once the caller of `dialCandidates` has returned a connection, nothing is received from the
  -- channel any more: all that lies in it then lies in it in every later state, the connections
  -- of other dials among it.
  pub returned-Kept :
      (c : DialCandidate) {s t : System E} → s.caller ≡ returned c → Later s t → Kept c s.results t
  returned-Kept c {s} done now = (done, [], sym (append-nil s.results))
  returned-Kept c {s} done (then before step) =
      Step-Kept c s.results step (returned-Kept c done before)
