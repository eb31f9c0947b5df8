-- ===== src/Address/Candidates/Resolved.antt =====
-- What `dialCandidatesForResolvedIPsByAddr` of address.go promises of the addresses it returns.
use minecraft_ping.Base.{
  ℕ, ◌≡◌, ◌≢◌, sym, ap, ◌∙◌, Bool, true, false, not, ◌&&◌, List, [], ◌∷◌, ◌==◌, if◌then◌else◌,
  arith, All, Bool-cases, inl, inr, length, Bytes, Result, ok, err,
}
use minecraft_ping.Net.{Addr}
use minecraft_ping.Address.Errors.{
  AddressFamily, Error, none_resolved, only_non_public, none_dialable,
}
use minecraft_ping.Address.Candidates.{
  DialCandidate, Filtered, is_seen, build_dial_candidates_with_port_func, verdict,
  dial_candidates_for_resolved_ips_by_addr,
}
use minecraft_ping.Address.Candidates.Interleave.{All-alternate}
use minecraft_ping.Address.Candidates.Filter.{
  IsAllowed, accepted, any_candidate, any_refused, filter_loop-accepted, accepted-IsAllowed,
}
use minecraft_ping.Address.Candidates.Build.{firsts, IsPlain, first_is_v6, in_turn, build-in_turn}
use minecraft_ping.Address.Candidates.Distinct.{
  Pairs, Differ, Lifts, All-family_candidates, firsts-Pairs, family_candidates-Pairs,
  family_candidates-is6, in_turn-Pairs,
}

in_turn-All :
    (P : DialCandidate → Type 0) (v6_first : Bool) (ipv4 ipv6 : List DialCandidate)
    → All P ipv4
    → All P ipv6
    → All P (in_turn v6_first ipv4 ipv6)
in_turn-All P true xs ys h k = All-alternate P ys xs k h
in_turn-All P false xs ys h k = All-alternate P xs ys h k

firsts-All : (P : Addr → Type 0) (seen addrs : List Addr) → All P addrs → All P (firsts seen addrs)
unfolding firsts
firsts-All P seen [] h = tt
firsts-All P seen (a ∷ addrs) h = elim (Bool-cases (is_seen seen a)) [
  | inl old ↦ rw old (firsts-All P seen addrs h.1)
  | inr new ↦ rw new (h.0, firsts-All P (a ∷ seen) addrs h.1)
]

-- What a client may dial.
pub record IsDialable (family : AddressFamily) (allow_private : Bool) (port : Addr → ℕ)
    (cs : List DialCandidate) : Type 0 where
  pub allowed : All (Lifts port (IsAllowed family allow_private)) cs
  pub distinct : Pairs Differ cs

module _ (family : AddressFamily) (allow_private : Bool) (port : Addr → ℕ) where
  pub allowed-IsPlain :
      (addrs : List Addr) → All (IsAllowed family allow_private) addrs → All IsPlain addrs
  allowed-IsPlain [] h = tt
  allowed-IsPlain (a ∷ addrs) h = ((h.0.valid, h.0.plain), allowed-IsPlain addrs h.1)

  pub build-IsDialable :
      (addrs : List Addr)
      → All (IsAllowed family allow_private) addrs
      → IsDialable family allow_private port (build_dial_candidates_with_port_func addrs port)
  build-IsDialable addrs h =
      let kept = firsts-All (IsAllowed family allow_private) [] addrs h in
      let P = Lifts port (IsAllowed family allow_private) in
      let once = firsts-Pairs [] addrs in
      rw (build-in_turn addrs port (allowed-IsPlain addrs h)) (record {
        allowed =
            in_turn-All P (first_is_v6 false (firsts [] addrs)) _ _
              (All-family_candidates port (IsAllowed family allow_private) false _ kept)
              (All-family_candidates port (IsAllowed family allow_private) true _ kept);
        distinct =
            in_turn-Pairs (first_is_v6 false (firsts [] addrs)) _ _
              (family_candidates-is6 port false (firsts [] addrs))
              (family_candidates-is6 port true (firsts [] addrs))
              (family_candidates-Pairs port false _ once)
              (family_candidates-Pairs port true _ once);
      })

verdict-ok :
    (host : Bytes) (s : Filtered) (cs : List DialCandidate) {ds : List DialCandidate}
    → verdict host s cs ≡ ok ds
    → (cs ≡ ds) × (ds ≢ [])
verdict-ok host s [] h = ground arith
verdict-ok host s (c ∷ cs) h = (ground arith, λ e. ground arith)

-- The outcome by the tests of the loop itself.
pub dial_candidates_outcome :
    (host : Bytes) (addrs : List Addr) (family : AddressFamily) (allow_private : Bool)
    (port : Addr → ℕ)
    → dial_candidates_for_resolved_ips_by_addr host addrs family allow_private port ≡ (
        if length addrs == 0
        then err (none_resolved host)
        else let candidates =
            build_dial_candidates_with_port_func (accepted family allow_private addrs) port in
          if not (length candidates == 0)
          then ok candidates
          else if any_candidate family allow_private addrs && any_refused family allow_private addrs
          then err (only_non_public host)
          else err (none_dialable host))
unfolding dial_candidates_for_resolved_ips_by_addr
dial_candidates_outcome host addrs family allow_private port =
    ap
      (λ (s : Filtered).
        if length addrs == 0
        then err (none_resolved host)
        else verdict host s (build_dial_candidates_with_port_func s.kept port))
      (filter_loop-accepted family allow_private addrs)

some_addresses :
    (addrs : List Addr) (e : Error) (r : Result Error (List DialCandidate))
    {cs : List DialCandidate}
    → (if length addrs == 0 then err e else r) ≡ ok cs
    → r ≡ ok cs
some_addresses [] e r h = cc
some_addresses (a ∷ addrs) e r h = ground arith

-- Whatever the resolver answers, every candidate is a valid address of the requested family with
-- the port that belongs to it, passes the guard unless private ones are allowed, and occurs once; and
-- there is one.
pub dial_candidates-IsDialable :
    (host : Bytes) (addrs : List Addr) (family : AddressFamily) (allow_private : Bool)
    (port : Addr → ℕ) (cs : List DialCandidate)
    → dial_candidates_for_resolved_ips_by_addr host addrs family allow_private port ≡ ok cs
    → IsDialable family allow_private port cs × (cs ≢ [])
dial_candidates-IsDialable host addrs family allow_private port cs h =
    let built = build_dial_candidates_with_port_func (accepted family allow_private addrs) port in
    let outcome = sym (dial_candidates_outcome host addrs family allow_private port) ∙ h in
    let (same, some_left) =
      verdict-ok host
        (record {
          kept = [];
          matched_family = any_candidate family allow_private addrs;
          filtered_non_public = any_refused family allow_private addrs;
        })
        built (some_addresses addrs (none_resolved host) _ outcome) in
    (
      rw same at (
          build-IsDialable family allow_private port (accepted family allow_private addrs)
            (accepted-IsAllowed family allow_private addrs)),
      some_left,
    )
