-- ===== src/Address/Candidates/Build.antt =====
-- `buildDialCandidatesWithPortFunc` of address.go against a description by lists.
use minecraft_ping.Base.{
  ℕ, ◌≡◌, sym, ◌∙◌, Bool, true, false, not, List, [], ◌∷◌, ◌++◌, if◌then◌else◌, append_assoc,
  append-nil, arith, All, Bool-cases, inl, inr,
}
use minecraft_ping.Net.{Addr, invalid, v4, v6, is_valid, is6, unmap}
use minecraft_ping.Address.Candidates.{
  DialCandidate, candidate_of, Building, is_seen, add_candidate, build_loop, nothing_built,
  order_families, build_dial_candidates_with_port_func,
}
use minecraft_ping.Address.Candidates.Interleave.{alternate, alternate-nil, interleave-alternate}

-- The first occurrence of each address that is not in `seen`.
unfoldable pub firsts : List Addr → List Addr → List Addr
firsts seen [] = []
firsts seen (a ∷ addrs) =
    let later = firsts (a ∷ seen) addrs in
    let skipped = firsts seen addrs in if is_seen seen a then skipped else a ∷ later

abbrev pub is_family : Bool → Addr → Bool
is_family true a = is6 a
is_family false a = not (is6 a)

-- The candidates of one family.
unfoldable pub family_candidates : (Addr → ℕ) → Bool → List Addr → List DialCandidate
family_candidates port want6 [] = []
family_candidates port want6 (a ∷ addrs) =
    if is_family want6 a
    then candidate_of a (port a) ∷ family_candidates port want6 addrs
    else family_candidates port want6 addrs

-- Whether the first address is an IPv6 one; `default` where there is none.
abbrev pub first_is_v6 : Bool → List Addr → Bool
first_is_v6 default [] = default
first_is_v6 default (a ∷ addrs) = is6 a

-- The loop takes the addresses as they stand: each is valid and unmapped.
abbrev pub IsPlain : Addr → Type 0
IsPlain a = (is_valid a ≡ true) × (unmap a ≡ a)

record Builds (port : Addr → ℕ) (addrs : List Addr) (s t : Building) : Type 0 where
  ipv4_is : t.ipv4 ≡ s.ipv4 ++ family_candidates port false (firsts s.seen addrs)
  ipv6_is : t.ipv6 ≡ s.ipv6 ++ family_candidates port true (firsts s.seen addrs)
  primary_is : t.primary_family_is_v6 ≡ (
      if s.primary_family_set
      then s.primary_family_is_v6
      else first_is_v6 s.primary_family_is_v6 (firsts s.seen addrs))

module _ (port : Addr → ℕ) where
  add_candidate-Builds :
      (a : Addr) (addrs : List Addr) (s t : Building)
      → is_seen s.seen a ≡ false
      → Builds port addrs (add_candidate port a s) t
      → Builds port (a ∷ addrs) s t
  unfolding firsts family_candidates
  add_candidate-Builds invalid addrs s t new b = record {
    ipv4_is =
        b.ipv4_is
        ∙ (rw new (
            append_assoc s.ipv4 (candidate_of invalid (port invalid) ∷ [])
              (family_candidates port false (firsts (invalid ∷ s.seen) addrs))));
    ipv6_is = b.ipv6_is ∙ (rw new);
    primary_is = b.primary_is ∙ rw new;
  }
  add_candidate-Builds (v4 n) addrs s t new b = record {
    ipv4_is =
        b.ipv4_is
        ∙ (rw new (
            append_assoc s.ipv4 (candidate_of (v4 n) (port (v4 n)) ∷ [])
              (family_candidates port false (firsts ((v4 n) ∷ s.seen) addrs))));
    ipv6_is = b.ipv6_is ∙ (rw new);
    primary_is = b.primary_is ∙ rw new;
  }
  add_candidate-Builds (v6 n z) addrs s t new b = record {
    ipv4_is = b.ipv4_is ∙ (rw new);
    ipv6_is =
        b.ipv6_is
        ∙ (rw new (
            append_assoc s.ipv6 (candidate_of (v6 n z) (port (v6 n z)) ∷ [])
              (family_candidates port true (firsts ((v6 n z) ∷ s.seen) addrs))));
    primary_is = b.primary_is ∙ rw new;
  }

  seen-Builds :
      (a : Addr) (addrs : List Addr) (s t : Building)
      → is_seen s.seen a ≡ true
      → Builds port addrs s t
      → Builds port (a ∷ addrs) s t
  unfolding firsts
  seen-Builds a addrs s t old b = record {
    ipv4_is = rw old b.ipv4_is;
    ipv6_is = rw old b.ipv6_is;
    primary_is = rw old b.primary_is;
  }

  build_loop_step :
      (a : Addr) (addrs : List Addr) (s : Building) {seen : Bool}
      → IsPlain a
      → is_seen s.seen a ≡ seen
      → build_loop port (a ∷ addrs) s
        ≡ build_loop port addrs (if seen then s else add_candidate port a s)
  unfolding build_loop
  build_loop_step a addrs s h e = rw h.1 (rw h.0 (rw e))

  build_loop-Builds :
      (addrs : List Addr) (s : Building)
      → All IsPlain addrs
      → Builds port addrs s (build_loop port addrs s)
  build_loop-Builds [] s h =
      unfold build_loop firsts family_candidates in
      record {
        ipv4_is = sym (append-nil s.ipv4);
        ipv6_is = sym (append-nil s.ipv6);
        primary_is = ground arith;
      }
  build_loop-Builds (a ∷ addrs) s h = elim (Bool-cases (is_seen s.seen a)) [
    | inl old ↦
        rw (build_loop_step a addrs s h.0 old)
          (seen-Builds a addrs s _ old (build_loop-Builds addrs s h.1))
    | inr new ↦ rw (build_loop_step a addrs s h.0 new) (
        add_candidate-Builds a addrs s _ new (build_loop-Builds addrs (add_candidate port a s) h.1))
  ]

-- The candidates are those of the first occurrences, the two families in turn, and the family of
-- the first address leads.
abbrev pub in_turn : Bool → List DialCandidate → List DialCandidate → List DialCandidate
in_turn v6_first ipv4 ipv6 = if v6_first then alternate ipv6 ipv4 else alternate ipv4 ipv6

order_families-in_turn :
    (v6_first : Bool) (ipv4 ipv6 : List DialCandidate)
    → order_families v6_first ipv4 ipv6 ≡ in_turn v6_first ipv4 ipv6
unfolding alternate
order_families-in_turn v6_first [] ys = ground (arith, alternate-nil ys)
order_families-in_turn v6_first (x ∷ xs) [] = ground (arith, alternate-nil (x ∷ xs))
order_families-in_turn v6_first (x ∷ xs) (y ∷ ys) =
    ground (arith, interleave-alternate (y ∷ ys) (x ∷ xs), interleave-alternate (x ∷ xs) (y ∷ ys))

-- For valid addresses that are not mapped ones, each address gives one candidate, at its first
-- occurrence; the two families alternate in the order of the addresses, the family of the first
-- address first, and the rest of the longer one follows.
pub build-in_turn :
    (addrs : List Addr) (port : Addr → ℕ)
    → All IsPlain addrs
    → build_dial_candidates_with_port_func addrs port
      ≡ in_turn
          (first_is_v6 false (firsts [] addrs))
          (family_candidates port false (firsts [] addrs))
          (family_candidates port true (firsts [] addrs))
unfolding build_dial_candidates_with_port_func
build-in_turn addrs port h =
    let b = build_loop-Builds port addrs nothing_built h in
    (λ i. order_families (b.primary_is i) (b.ipv4_is i) (b.ipv6_is i))
    ∙ order_families-in_turn (first_is_v6 false (firsts [] addrs))
        (family_candidates port false (firsts [] addrs))
        (family_candidates port true (firsts [] addrs))
