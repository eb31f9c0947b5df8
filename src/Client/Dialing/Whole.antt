-- ===== src/Client/Dialing/Whole.antt =====
-- client.go: the whole of `dialCandidates`, with its shortcuts for no candidate and for one.
use minecraft_ping.Base.{ℕ, ◌≡◌, ◌≤◌, refl, List, [], length, arith, All}
use mathlib.Core.Path.{subst}
use minecraft_ping.Address.Candidates.{DialCandidate}
use minecraft_ping.Client.Dialing.{
  Caller, System, Reach, DialOutcome, none_available, connected_to, only_failed, all_failed,
  DialsTo, no_candidate, only_connects, only_fails, some_connects, all_fail,
}
use minecraft_ping.Client.Dialing.Each.{sum, sum_errors, Answers, dial-Answers}

module _ {E : Type 0} where
  -- What each outcome tells of the candidates: a connection is one to a candidate of the list, and
  -- the joined errors are one for each of at least two candidates.
  abbrev pub Tells : (DialCandidate → Type 0) → List DialCandidate → DialOutcome E → Type 0
  Tells Q cs none_available = cs ≡ []
  Tells Q cs (connected_to c) = Q c
  Tells Q cs (only_failed e) = length cs ≡ 1
  Tells Q cs (all_failed errs) =
      (2 ≤ length errs)
      × (length errs ≡ length cs)
      × ((f : DialCandidate → ℕ) → sum_errors f errs ≡ sum f cs)

  answered :
      (Q : DialCandidate → Type 0) (cs : List DialCandidate) {s : System E} {caller : Caller E}
      → All Q cs
      → Reach cs s
      → s.caller ≡ caller
      → Answers Q cs s caller
  answered Q cs {s} h reached done = subst (Answers Q cs s) done (dial-Answers Q cs s h reached)

  -- Whatever the dials and the context do, `dialCandidates` says that it has no candidate for the
  -- empty list alone; a connection that it returns is one to a candidate with any property that
  -- all candidates have; the error of the dial itself is that of a single candidate; and joined
  -- errors are at least two, one for each candidate, as often as the list has it (which is said by
  -- sums of any weights), so its error for an empty join never comes.
  pub dial_candidates-Tells :
      (Q : DialCandidate → Type 0) (cs : List DialCandidate) (outcome : DialOutcome E)
      → All Q cs
      → DialsTo cs outcome
      → Tells Q cs outcome
  dial_candidates-Tells Q cs outcome h no_candidate = refl
  dial_candidates-Tells Q cs outcome h only_connects = h.0
  dial_candidates-Tells Q cs outcome h (only_fails e) = refl
  dial_candidates-Tells Q cs outcome h (some_connects reached done) = answered Q cs h reached done
  dial_candidates-Tells Q cs outcome h (all_fail reached done) =
      let told = answered Q cs h reached done in (omega (arith, told.0), told.0, told.1)
