-- ===== src/Client/Dialing/Collecting.antt =====
-- client.go: what holds at every moment of `dialCandidates`.
use mathlib.Core.Path.{subst}
use minecraft_ping.Base.{
  ℕ, suc, ◌+◌, ◌≡◌, refl, ap, Bool, List, [], ◌∷◌, ◌++◌, length, map, length-append, arith, All,
  All-append,
}
use minecraft_ping.Address.Candidates.{DialCandidate}
use minecraft_ping.Client.Dialing.{
  Phase, waiting, finished, Worker, worker, Attempt, connected, failed, Caller, collecting,
  returned, gave_up, System, WorkerStep, timer_fires, stops_waiting, dial_fails, dial_succeeds,
  closes, passes, sends, Step, works, receives_connection, receives_error, gives_up, context_ends,
  started, Reach, start, later,
}

-- A goroutine that has still to send its result.
abbrev pub owes : Phase → ℕ
owes finished = 0
owes phase = 1

abbrev pub owed : List Worker → ℕ
owed [] = 0
owed (w ∷ ws) = owes w.phase + owed ws

owed-append : (xs ys : List Worker) → owed (xs ++ ys) ≡ owed xs + owed ys
owed-append [] ys = omega arith
owed-append (x ∷ xs) ys = omega (arith, owed-append xs ys)

pub All-parts {ℓ} :
    {A : Type ℓ} (P : A → Type 0) (xs : List A) (y : A) (ys : List A)
    → All P (xs ++ (y ∷ ys))
    → All P xs × P y × All P ys
All-parts P [] y ys h = (tt, h.0, h.1)
All-parts P (x ∷ xs) y ys h =
    let (front, here, behind) = All-parts P xs y ys h.1 in ((h.0, front), here, behind)

waiting-owed : (cs : List DialCandidate) → owed (map (λ d. worker d waiting) cs) ≡ length cs
waiting-owed [] = refl
waiting-owed (c ∷ cs) = omega (arith, waiting-owed cs)

waiting-All :
    (Q : DialCandidate → Type 0) (cs : List DialCandidate)
    → All Q cs
    → All (λ w. Q w.candidate) (map (λ d. worker d waiting) cs)
waiting-All Q [] h = tt
waiting-All Q (c ∷ cs) h = (h.0, waiting-All Q cs h.1)

pub All-Unit {ℓ} : {A : Type ℓ} (xs : List A) → All (λ _. Unit {0}) xs
All-Unit [] = tt
All-Unit (x ∷ xs) = (tt, All-Unit xs)

module _ {E : Type 0} where
  abbrev pub candidate_of : Attempt E → DialCandidate
  candidate_of (connected c) = c
  candidate_of (failed c e) = c

  -- The caller waits for exactly the results that are owed or lie in the channel, and has an error
  -- for every other candidate.
  abbrev pub Adds : ℕ → System E → Caller E → Type 0
  Adds n s (collecting remaining errs) =
      (remaining ≡ owed s.workers + length s.results) × (length errs + remaining ≡ n)
  Adds n s (returned c) = Unit
  Adds n s (gave_up errs) = length errs ≡ n

  abbrev pub ReturnsIn : (DialCandidate → Type 0) → Caller E → Type 0
  ReturnsIn Q (collecting n errs) = All (λ f. Q f.0) errs
  ReturnsIn Q (returned c) = Q c
  ReturnsIn Q (gave_up errs) = All (λ f. Q f.0) errs

  pub record Inv (Q : DialCandidate → Type 0) (n : ℕ) (s : System E) : Type 0 where
    pub adds : Adds n s s.caller
    pub of_workers : All (λ w. Q w.candidate) s.workers
    pub of_results : All (λ a. Q (candidate_of a)) s.results
    pub of_caller : ReturnsIn Q s.caller

  -- What a step of a goroutine owes and sends.
  WorkerStep-owes :
      {cancelled : Bool} {w w' : Worker} {sent : List (Attempt E)}
      → WorkerStep cancelled w w' sent
      → owes w.phase ≡ owes w'.phase + length sent
  WorkerStep-owes timer_fires = refl
  WorkerStep-owes (stops_waiting e h) = refl
  WorkerStep-owes (dial_fails e) = refl
  WorkerStep-owes dial_succeeds = refl
  WorkerStep-owes (closes e h) = refl
  WorkerStep-owes (passes h) = refl
  WorkerStep-owes sends = refl

  WorkerStep-keeps :
      (Q : DialCandidate → Type 0) {cancelled : Bool} {w w' : Worker} {sent : List (Attempt E)}
      → WorkerStep cancelled w w' sent
      → Q w.candidate
      → Q w'.candidate × All (λ a. Q (candidate_of a)) sent
  WorkerStep-keeps Q timer_fires q = (q, tt)
  WorkerStep-keeps Q (stops_waiting e h) q = (q, (q, tt))
  WorkerStep-keeps Q (dial_fails e) q = (q, (q, tt))
  WorkerStep-keeps Q dial_succeeds q = (q, tt)
  WorkerStep-keeps Q (closes e h) q = (q, (q, tt))
  WorkerStep-keeps Q (passes h) q = (q, tt)
  WorkerStep-keeps Q sends q = (q, (q, tt))

  -- As many results are to come after a step of a goroutine as before it.
  Adds-moves :
      (n : ℕ) (s t : System E) (caller : Caller E)
      → owed s.workers + length s.results ≡ owed t.workers + length t.results
      → Adds n s caller
      → Adds n t caller
  Adds-moves n s t (collecting remaining errs) same h = (omega (arith, same, h.0), h.1)
  Adds-moves n s t (returned c) same h = h
  Adds-moves n s t (gave_up errs) same h = h

  works-Inv :
      (Q : DialCandidate → Type 0) (n : ℕ) (s : System E) (before after : List Worker)
      {w w' : Worker} {sent : List (Attempt E)}
      → s.workers ≡ before ++ (w ∷ after)
      → WorkerStep s.cancelled w w' sent
      → Inv Q n s
      → Inv Q n (record s { workers = before ++ (w' ∷ after); results = s.results ++ sent })
  works-Inv Q n s before after {w} {w'} {sent} e step inv =
      let (front, here, behind) =
        All-parts (λ v. Q v.candidate) before w after
          (subst (All (λ v. Q v.candidate)) e inv.of_workers) in
      let (kept, sends_kept) = WorkerStep-keeps Q step here in
      record {
        adds =
            Adds-moves n s
              (record s { workers = before ++ (w' ∷ after); results = s.results ++ sent }) s.caller
              (omega (
                arith,
                ap owed e,
                owed-append before (w ∷ after),
                owed-append before (w' ∷ after),
                WorkerStep-owes step,
                length-append s.results sent,
              ))
              inv.adds;
        of_workers = All-append (λ v. Q v.candidate) before (w' ∷ after) front (kept, behind);
        of_results = All-append (λ a. Q (candidate_of a)) s.results sent inv.of_results sends_kept;
        of_caller = inv.of_caller;
      }

  received-Inv :
      (Q : DialCandidate → Type 0) (n : ℕ) (s : System E) {c : DialCandidate} {e : E}
      {rest : List (Attempt E)} {m : ℕ} {errs : List (DialCandidate × E)}
      → s.results ≡ failed c e ∷ rest
      → s.caller ≡ collecting (suc m) errs
      → Inv Q n s
      → Inv Q n (record s { results = rest; caller = collecting m (errs ++ ((c, e) ∷ [])) })
  received-Inv Q n s {c} {e} {rest} {m} {errs} er ec inv =
      let counted = subst (Adds n s) ec inv.adds in
      let qs = subst (All (λ a. Q (candidate_of a))) er inv.of_results in
      record {
        adds = (
          omega (arith, counted.0, ap length er),
          omega (arith, counted.1, length-append errs ((c, e) ∷ [])),
        );
        of_workers = inv.of_workers;
        of_results = qs.1;
        of_caller =
            All-append (λ f. Q f.0) errs ((c, e) ∷ []) (subst (ReturnsIn Q) ec inv.of_caller)
              (qs.0, tt);
      }

  Step-Inv :
      (Q : DialCandidate → Type 0) (n : ℕ) {s t : System E} → Step s t → Inv Q n s → Inv Q n t
  Step-Inv Q n {s} (works before after e step) inv = works-Inv Q n s before after e step inv
  Step-Inv Q n {s} (receives_connection er ec) inv =
      let qs = subst (All (λ a. Q (candidate_of a))) er inv.of_results in
      record { adds = tt; of_workers = inv.of_workers; of_results = qs.1; of_caller = qs.0 }
  Step-Inv Q n {s} (receives_error er ec) inv = received-Inv Q n s er ec inv
  Step-Inv Q n {s} (gives_up {errs} ec) inv =
      let counted = subst (Adds n s) ec inv.adds in
      record {
        adds = omega (arith, counted.1);
        of_workers = inv.of_workers;
        of_results = inv.of_results;
        of_caller = subst (ReturnsIn Q) ec inv.of_caller;
      }
  Step-Inv Q n {s} (context_ends h) inv = record {
    adds = inv.adds;
    of_workers = inv.of_workers;
    of_results = inv.of_results;
    of_caller = inv.of_caller;
  }

  started-Inv :
      (Q : DialCandidate → Type 0) (cs : List DialCandidate)
      → All Q cs
      → Inv Q (length cs) (started {E = E} cs)
  started-Inv Q [] h = record {
    adds = (refl, refl);
    of_workers = tt;
    of_results = tt;
    of_caller = tt;
  }
  started-Inv Q (c ∷ cs) h = record {
    adds = (omega (arith, waiting-owed cs), omega arith);
    of_workers = (h.0, waiting-All Q cs h.1);
    of_results = tt;
    of_caller = tt;
  }

  pub Reach-Inv :
      (Q : DialCandidate → Type 0) {cs : List DialCandidate} {s : System E}
      → All Q cs
      → Reach cs s
      → Inv Q (length cs) s
  Reach-Inv Q {cs} h start = started-Inv Q cs h
  Reach-Inv Q {cs} h (later before step) = Step-Inv Q (length cs) step (Reach-Inv Q h before)
