-- ===== src/Client/Dialing.antt =====
-- client.go: `dialCandidates`. With several candidates, one goroutine for each candidate dials after
-- its delay and sends its result to a buffered channel; the caller collects the results. The
-- interleaving, the ends of the dials and of the timers, and the context of the caller are left
-- open: any of them may come at any time.
pub mod Collecting
pub mod Each
pub mod Ending
pub mod Whole
use minecraft_ping.Base.{
  ℕ, zero, suc, ◌+◌, ◌≡◌, refl, Bool, true, false, List, [], ◌∷◌, ◌++◌, length, map,
}
use minecraft_ping.Address.Candidates.{DialCandidate}

-- Where `dialCandidateAfterDelay` stands: before its timer, in its dial, behind a dial that
-- succeeded, behind the test of the context, and at its end.
pub data Phase : Type 0 where
  waiting dialing dialed sending finished : Phase

pub record Worker : Type 0 where
  pub candidate : DialCandidate
  pub phase : Phase

-- `dialAttemptResult`; a connection is that of its candidate.
pub data Attempt (E : Type 0) : Type 0 where
  connected : DialCandidate → Attempt E
  failed : DialCandidate → E → Attempt E

-- The caller: the results that remain and the errors so far, or how it returned.
pub data Caller (E : Type 0) : Type 0 where
  collecting : ℕ → List (DialCandidate × E) → Caller E
  returned : DialCandidate → Caller E
  gave_up : List (DialCandidate × E) → Caller E

-- The channel holds as many results as there are candidates, so no send waits.
pub record System (E : Type 0) : Type 0 where
  pub workers : List Worker
  pub results : List (Attempt E)
  pub caller : Caller E
  pub cancelled : Bool

abbrev pub worker : DialCandidate → Phase → Worker
worker c phase = record { candidate = c; phase = phase }

-- A step of one goroutine, under a context that is cancelled or not, with what it sends.
pub data WorkerStep {E : Type 0} (cancelled : Bool)
    : Worker → Worker → List (Attempt E) → Type 0 where
  timer_fires : {c : DialCandidate} → WorkerStep cancelled (worker c waiting) (worker c dialing) []
  stops_waiting :
      {c : DialCandidate} (e : E)
      → cancelled ≡ true
      → WorkerStep cancelled (worker c waiting) (worker c finished) (failed c e ∷ [])
  dial_fails :
      {c : DialCandidate} (e : E)
      → WorkerStep cancelled (worker c dialing) (worker c finished) (failed c e ∷ [])
  dial_succeeds : {c : DialCandidate} → WorkerStep cancelled (worker c dialing) (worker c dialed) []
  closes :
      {c : DialCandidate} (e : E)
      → cancelled ≡ true
      → WorkerStep cancelled (worker c dialed) (worker c finished) (failed c e ∷ [])
  passes :
      {c : DialCandidate}
      → cancelled ≡ false
      → WorkerStep cancelled (worker c dialed) (worker c sending) []
  sends :
      {c : DialCandidate}
      → WorkerStep cancelled (worker c sending) (worker c finished) (connected c ∷ [])

pub data Step {E : Type 0} (s : System E) : System E → Type 0 where
  works :
      (before after : List Worker) {w w' : Worker} {sent : List (Attempt E)}
      → s.workers ≡ before ++ (w ∷ after)
      → WorkerStep s.cancelled w w' sent
      → Step s (record s { workers = before ++ (w' ∷ after); results = s.results ++ sent })
  receives_connection :
      {c : DialCandidate} {rest : List (Attempt E)} {n : ℕ} {errs : List (DialCandidate × E)}
      → s.results ≡ connected c ∷ rest
      → s.caller ≡ collecting (suc n) errs
      → Step s (record s { results = rest; caller = returned c; cancelled = true })
  receives_error :
      {c : DialCandidate} {e : E} {rest : List (Attempt E)} {n : ℕ}
      {errs : List (DialCandidate × E)}
      → s.results ≡ failed c e ∷ rest
      → s.caller ≡ collecting (suc n) errs
      → Step s (record s { results = rest; caller = collecting n (errs ++ ((c, e) ∷ [])) })
  gives_up :
      {errs : List (DialCandidate × E)}
      → s.caller ≡ collecting 0 errs
      → Step s (record s { caller = gave_up errs; cancelled = true })
  context_ends : s.cancelled ≡ false → Step s (record s { cancelled = true })

-- The first goroutine has no delay and dials at once.
abbrev pub first_workers : List DialCandidate → List Worker
first_workers [] = []
first_workers (c ∷ cs) = worker c dialing ∷ map (λ d. worker d waiting) cs

abbrev pub started : {E : Type 0} → List DialCandidate → System E
started candidates = record {
  workers = first_workers candidates;
  results = [];
  caller = collecting (length candidates) [];
  cancelled = false;
}

pub data Reach {E : Type 0} (candidates : List DialCandidate) : System E → Type 0 where
  start : Reach candidates (started candidates)
  later : {s t : System E} → Reach candidates s → Step s t → Reach candidates t

-- What `dialCandidates` returns: its error for no candidate, a connection to a candidate, the error
-- of the only dial, or the joined errors of all dials, with their candidates.
pub data DialOutcome (E : Type 0) : Type 0 where
  none_available : DialOutcome E
  connected_to : DialCandidate → DialOutcome E
  only_failed : E → DialOutcome E
  all_failed : List (DialCandidate × E) → DialOutcome E

-- `dialCandidates`. A single candidate is dialled at once, without a goroutine, and the end of its
-- dial is returned as it is.
pub data DialsTo {E : Type 0} : List DialCandidate → DialOutcome E → Type 0 where
  no_candidate : DialsTo [] none_available
  only_connects : {c : DialCandidate} → DialsTo (c ∷ []) (connected_to c)
  only_fails : {c : DialCandidate} (e : E) → DialsTo (c ∷ []) (only_failed e)
  some_connects :
      {c d x : DialCandidate} {cs : List DialCandidate} {s : System E}
      → Reach (c ∷ d ∷ cs) s
      → s.caller ≡ returned x
      → DialsTo (c ∷ d ∷ cs) (connected_to x)
  all_fail :
      {c d : DialCandidate} {cs : List DialCandidate} {s : System E}
      {errs : List (DialCandidate × E)}
      → Reach (c ∷ d ∷ cs) s
      → s.caller ≡ gave_up errs
      → DialsTo (c ∷ d ∷ cs) (all_failed errs)
