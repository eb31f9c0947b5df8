-- ===== src/Client/Dialing/Each.antt =====
-- client.go: `dialCandidates` has one result for each candidate.
use mathlib.Core.Path.{subst}
use minecraft_ping.Base.{true, ℕ, ◌+◌, ◌≡◌, refl, ap, List, [], ◌∷◌, ◌++◌, length, map, arith, All}
use minecraft_ping.Address.Candidates.{DialCandidate}
use minecraft_ping.Client.Dialing.{
  Phase, waiting, dialing, dialed, sending, finished, Worker, worker, Attempt, Caller, collecting,
  returned, gave_up, System, WorkerStep, timer_fires, stops_waiting, dial_fails, dial_succeeds,
  closes, passes, sends, Step, works, receives_connection, receives_error, gives_up, context_ends,
  Reach, start, later, first_workers,
}
use minecraft_ping.Client.Dialing.Collecting.{
  candidate_of, ReturnsIn, Reach-Inv, Adds, owes, owed, All-Unit,
}

-- A weight for each candidate, added up: two lists have the same sums for all weights exactly where
-- each candidate occurs as often in the one as in the other.
module _ (f : DialCandidate → ℕ) where
  abbrev pub sum : List DialCandidate → ℕ
  sum [] = 0
  sum (c ∷ cs) = f c + sum cs

  abbrev weighs : Phase → DialCandidate → ℕ
  weighs finished c = 0
  weighs phase c = f c

  owes-weighs : (phase : Phase) (c : DialCandidate) → owes phase ≡ 0 → weighs phase c ≡ 0
  owes-weighs waiting c h = absurd (omega (arith, h))
  owes-weighs dialing c h = absurd (omega (arith, h))
  owes-weighs dialed c h = absurd (omega (arith, h))
  owes-weighs sending c h = absurd (omega (arith, h))
  owes-weighs finished c h = refl

  -- The candidates of the goroutines that have still to send their result.
  abbrev pub sum_owed : List Worker → ℕ
  sum_owed [] = 0
  sum_owed (w ∷ ws) = weighs w.phase w.candidate + sum_owed ws

  sum_owed-append : (xs ys : List Worker) → sum_owed (xs ++ ys) ≡ sum_owed xs + sum_owed ys
  sum_owed-append [] ys = omega arith
  sum_owed-append (x ∷ xs) ys = omega (arith, sum_owed-append xs ys)

  waiting-sum_owed : (cs : List DialCandidate) → sum_owed (map (λ d. worker d waiting) cs) ≡ sum cs
  waiting-sum_owed [] = refl
  waiting-sum_owed (c ∷ cs) = omega (arith, waiting-sum_owed cs)

  first-sum_owed : (cs : List DialCandidate) → sum_owed (first_workers cs) ≡ sum cs
  first-sum_owed [] = refl
  first-sum_owed (c ∷ cs) = omega (arith, waiting-sum_owed cs)

  module _ {E : Type 0} where
    abbrev pub sum_results : List (Attempt E) → ℕ
    sum_results [] = 0
    sum_results (a ∷ rest) = f (candidate_of a) + sum_results rest

    abbrev pub sum_errors : List (DialCandidate × E) → ℕ
    sum_errors [] = 0
    sum_errors ((c, e) ∷ rest) = f c + sum_errors rest

    sum_results-append :
        (xs ys : List (Attempt E)) → sum_results (xs ++ ys) ≡ sum_results xs + sum_results ys
    sum_results-append [] ys = omega arith
    sum_results-append (x ∷ xs) ys = omega (arith, sum_results-append xs ys)

    sum_errors-append :
        (xs ys : List (DialCandidate × E)) → sum_errors (xs ++ ys) ≡ sum_errors xs + sum_errors ys
    sum_errors-append [] ys = omega arith
    sum_errors-append ((c, e) ∷ xs) ys = omega (arith, sum_errors-append xs ys)

    -- Each candidate is that of a goroutine that owes its result, of a result in the channel, or of
    -- an error.
    abbrev pub Covers : List DialCandidate → System E → Caller E → Type 0
    Covers cs s (collecting n errs) =
        sum_owed s.workers + sum_results s.results + sum_errors errs ≡ sum cs
    Covers cs s (returned c) = Unit
    Covers cs s (gave_up errs) = sum_errors errs ≡ sum cs

    WorkerStep-weighs :
        {cancelled : _} {w w' : Worker} {sent : List (Attempt E)}
        → WorkerStep cancelled w w' sent
        → weighs w.phase w.candidate ≡ weighs w'.phase w'.candidate + sum_results sent
    WorkerStep-weighs timer_fires = omega arith
    WorkerStep-weighs (stops_waiting e h) = omega arith
    WorkerStep-weighs (dial_fails e) = omega arith
    WorkerStep-weighs dial_succeeds = omega arith
    WorkerStep-weighs (closes e h) = omega arith
    WorkerStep-weighs (passes h) = omega arith
    WorkerStep-weighs sends = omega arith

    Covers-moves :
        (cs : List DialCandidate) (s t : System E) (caller : Caller E)
        → sum_owed s.workers + sum_results s.results ≡ sum_owed t.workers + sum_results t.results
        → Covers cs s caller
        → Covers cs t caller
    Covers-moves cs s t (collecting n errs) same h = omega (arith, same, h)
    Covers-moves cs s t (returned c) same h = h
    Covers-moves cs s t (gave_up errs) same h = h

    owed_nothing :
        (ws : List Worker) (rs : List (Attempt E))
        → 0 ≡ owed ws + length rs
        → sum_owed ws + sum_results rs ≡ 0
    owed_nothing [] [] h = refl
    owed_nothing [] (a ∷ rs) h = absurd (omega (arith, h))
    owed_nothing (w ∷ ws) rs h = omega (
      arith,
      owes-weighs w.phase w.candidate (omega (arith, h)),
      owed_nothing ws rs (omega (arith, h)),
    )

    Step-Covers :
        (cs : List DialCandidate) {s t : System E}
        → Adds (length cs) s s.caller
        → Step s t
        → Covers cs s s.caller
        → Covers cs t t.caller
    Step-Covers cs {s} adds (works before after {w} {w'} {sent} e step) h =
        Covers-moves cs s
          (record s { workers = before ++ (w' ∷ after); results = s.results ++ sent }) s.caller
          (omega (
            arith,
            ap sum_owed e,
            sum_owed-append before (w ∷ after),
            sum_owed-append before (w' ∷ after),
            WorkerStep-weighs step,
            sum_results-append s.results sent,
          ))
          h
    Step-Covers cs adds (receives_connection er ec) h = tt
    Step-Covers cs {s} adds (receives_error {c} {e} {rest} {n} {errs} er ec) h =
        omega
          (arith, subst (Covers cs s) ec h, ap sum_results er, sum_errors-append errs ((c, e) ∷ []))
    Step-Covers cs {s} adds (gives_up ec) h = omega (
      arith,
      subst (Covers cs s) ec h,
      owed_nothing s.workers s.results (subst (Adds (length cs) s) ec adds).0,
    )
    Step-Covers cs {s} adds (context_ends k) h =
        Covers-moves cs s (record s { cancelled = true }) s.caller refl h

    Reach-Covers : {cs : List DialCandidate} {s : System E} → Reach cs s → Covers cs s s.caller
    Reach-Covers {cs} start = omega (arith, first-sum_owed cs)
    Reach-Covers {cs} (later before step) =
        Step-Covers cs (Reach-Inv (λ _. Unit) (All-Unit cs) before).adds step (Reach-Covers before)

module _ {E : Type 0} where
  -- What the caller of `dialCandidates` is told of a list of candidates.
  abbrev pub Answers : (DialCandidate → Type 0) → List DialCandidate → System E → Caller E → Type 0
  Answers Q cs s (collecting remaining errs) =
      (length errs + remaining ≡ length cs)
      × ((f : DialCandidate → ℕ)
          → sum_owed f s.workers + sum_results f s.results + sum_errors f errs ≡ sum f cs)
  Answers Q cs s (returned c) = Q c
  Answers Q cs s (gave_up errs) =
      (length errs ≡ length cs) × ((f : DialCandidate → ℕ) → sum_errors f errs ≡ sum f cs)

  answers :
      (Q : DialCandidate → Type 0) (cs : List DialCandidate) (s : System E) (caller : Caller E)
      → Adds (length cs) s caller
      → ReturnsIn Q caller
      → ((f : DialCandidate → ℕ) → Covers f cs s caller)
      → Answers Q cs s caller
  answers Q cs s (collecting remaining errs) h q covers = (h.1, covers)
  answers Q cs s (returned c) h q covers = q
  answers Q cs s (gave_up errs) h q covers = (h, covers)

  -- In every reachable state of the dials of a list of candidates of which each satisfies some
  -- property: a connection that the caller has returned is one to a candidate with that property; a
  -- caller that gave up has exactly one error for each candidate, as often as the list has it; and
  -- while it still collects, each candidate of the list is that of a goroutine that owes its result,
  -- of a result in the channel or of an error, exactly once, with as many errors and results to come
  -- as there are candidates. That each candidate occurs as often is said by sums of any weights.
  pub dial-Answers :
      (Q : DialCandidate → Type 0) (cs : List DialCandidate) (s : System E)
      → All Q cs
      → Reach cs s
      → Answers Q cs s s.caller
  dial-Answers Q cs s h reached =
      let inv = Reach-Inv Q h reached in
      answers Q cs s s.caller inv.adds inv.of_caller (λ f. Reach-Covers f reached)
