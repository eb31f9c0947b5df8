-- ===== src/Address/Candidates/Distinct.antt =====
-- address.go: no two candidates have the same address.
use minecraft_ping.Base.{
  ℕ, ◌≡◌, ◌≢◌, refl, sym, ap, ◌∙◌, Bool, true, false, List, [], ◌∷◌, arith, All, Bool-cases, inl,
  inr,
}
use minecraft_ping.Net.{Addr, is6, addr_eq_iff}
use minecraft_ping.Address.Candidates.{DialCandidate, is_seen}
use minecraft_ping.Address.Candidates.Interleave.{alternate, All-alternate}
use minecraft_ping.Address.Candidates.Build.{firsts, family_candidates, in_turn, is_family}

-- Each element stands in the relation to every later one.
abbrev pub Pairs {ℓ κ} : {A : Type ℓ} → (A → A → Type κ) → List A → Type κ
Pairs R [] = Unit
Pairs R (x ∷ xs) = All (R x) xs × Pairs R xs

abbrev pub Differ : DialCandidate → DialCandidate → Type 0
Differ c d = c.address.addr ≢ d.address.addr

-- What is known of each address carries over to its candidate.
module _ (port : Addr → ℕ) where
  abbrev pub Lifts : (Addr → Type 0) → DialCandidate → Type 0
  Lifts P c = P c.address.addr × (c.address.port ≡ port c.address.addr)

  pub All-family_candidates :
      (P : Addr → Type 0) (want6 : Bool) (addrs : List Addr)
      → All P addrs
      → All (Lifts P) (family_candidates port want6 addrs)
  unfolding family_candidates
  All-family_candidates P want6 [] h = tt
  All-family_candidates P want6 (a ∷ addrs) h = elim (Bool-cases (is_family want6 a)) [
    | inl mine ↦ rw mine ((h.0, refl), All-family_candidates P want6 addrs h.1)
    | inr other ↦ rw other (All-family_candidates P want6 addrs h.1)
  ]

-- No address is given twice: `firsts` keeps what was not seen.
firsts-unseen : (seen addrs : List Addr) → All (λ a. is_seen seen a ≡ false) (firsts seen addrs)
unfolding firsts
firsts-unseen seen [] = tt
firsts-unseen seen (a ∷ addrs) = elim (Bool-cases (is_seen seen a)) [
  | inl old ↦ rw old (firsts-unseen seen addrs)
  | inr new ↦ rw new (new, weaken (firsts (a ∷ seen) addrs) (firsts-unseen (a ∷ seen) addrs))
]
  where
    weaken :
        (bs : List Addr)
        → All (λ b. is_seen (a ∷ seen) b ≡ false) bs
        → All (λ b. is_seen seen b ≡ false) bs
    weaken [] h = tt
    weaken (b ∷ bs) h = (unfold is_seen in ground arith, weaken bs h.1)

unseen-ne :
    (a : Addr) (seen bs : List Addr)
    → All (λ b. is_seen (a ∷ seen) b ≡ false) bs
    → All (λ b. a ≢ b) bs
unfolding is_seen
unseen-ne a seen [] h = tt
unseen-ne a seen (b ∷ bs) h =
    (λ e. ground (arith, h.0, (addr_eq_iff a b).1 e), unseen-ne a seen bs h.1)

pub firsts-Pairs : (seen addrs : List Addr) → Pairs (λ a b. a ≢ b) (firsts seen addrs)
unfolding firsts
firsts-Pairs seen [] = tt
firsts-Pairs seen (a ∷ addrs) = elim (Bool-cases (is_seen seen a)) [
  | inl old ↦ rw old (firsts-Pairs seen addrs)
  | inr new ↦ rw new (
    unseen-ne a seen (firsts (a ∷ seen) addrs) (firsts-unseen (a ∷ seen) addrs),
    firsts-Pairs (a ∷ seen) addrs,
  )
]

All-map {κ ν} :
    {P : DialCandidate → Type κ} {Q : DialCandidate → Type ν} (cs : List DialCandidate)
    → ((c : DialCandidate) → P c → Q c)
    → All P cs
    → All Q cs
All-map [] f h = tt
All-map (c ∷ cs) f h = (f c h.0, All-map cs f h.1)

pub family_candidates-Pairs :
    (port : Addr → ℕ) (want6 : Bool) (addrs : List Addr)
    → Pairs (λ a b. a ≢ b) addrs
    → Pairs Differ (family_candidates port want6 addrs)
unfolding family_candidates
family_candidates-Pairs port want6 [] h = tt
family_candidates-Pairs port want6 (a ∷ addrs) h = elim (Bool-cases (is_family want6 a)) [
  | inl mine ↦ rw mine (
    All-map (family_candidates port want6 addrs) (λ c p. p.0)
        (All-family_candidates port (λ b. a ≢ b) want6 addrs h.0),
    family_candidates-Pairs port want6 addrs h.1,
  )
  | inr other ↦ rw other (family_candidates-Pairs port want6 addrs h.1)
]

-- Every candidate of a family is of that family.
pub family_candidates-is6 :
    (port : Addr → ℕ) (want6 : Bool) (addrs : List Addr)
    → All (λ c. is6 c.address.addr ≡ want6) (family_candidates port want6 addrs)
unfolding family_candidates
family_candidates-is6 port want6 [] = tt
family_candidates-is6 port want6 (a ∷ addrs) = elim (Bool-cases (is_family want6 a)) [
  | inl mine ↦ rw mine (kind want6 mine, family_candidates-is6 port want6 addrs)
  | inr other ↦ rw other (family_candidates-is6 port want6 addrs)
]
  where
    kind : (w : Bool) → is_family w a ≡ true → is6 a ≡ w
    kind true e = e
    kind false e = ground arith

across :
    (b b' : Bool) (c : DialCandidate) (ds : List DialCandidate)
    → b ≢ b'
    → is6 c.address.addr ≡ b
    → All (λ d. is6 d.address.addr ≡ b') ds
    → All (Differ c) ds
across b b' c [] ne h k = tt
across b b' c (d ∷ ds) ne h k =
    (λ e. ne (sym h ∙ ap (λ (a : Addr). is6 a) e ∙ k.0), across b b' c ds ne h k.1)

Pairs-alternate :
    (b b' : Bool) (cs ds : List DialCandidate)
    → b ≢ b'
    → All (λ c. is6 c.address.addr ≡ b) cs
    → All (λ d. is6 d.address.addr ≡ b') ds
    → Pairs Differ cs
    → Pairs Differ ds
    → Pairs Differ (alternate cs ds)
unfolding alternate
Pairs-alternate b b' [] ds ne hc hd pc pd = pd
Pairs-alternate b b' (c ∷ cs) [] ne hc hd pc pd = pc
Pairs-alternate b b' (c ∷ cs) (d ∷ ds) ne hc hd pc pd =
    let far = across b b' c (d ∷ ds) ne hc.0 hd in
    let near = across b' b d cs (λ e. ne (sym e)) hd.0 hc.1 in
    (
      (far.0, All-alternate (Differ c) cs ds pc.0 far.1),
      (All-alternate (Differ d) cs ds near pd.0, Pairs-alternate b b' cs ds ne hc.1 hd.1 pc.1 pd.1),
    )

pub in_turn-Pairs :
    (v6_first : Bool) (ipv4 ipv6 : List DialCandidate)
    → All (λ c. is6 c.address.addr ≡ false) ipv4
    → All (λ c. is6 c.address.addr ≡ true) ipv6
    → Pairs Differ ipv4
    → Pairs Differ ipv6
    → Pairs Differ (in_turn v6_first ipv4 ipv6)
in_turn-Pairs true xs ys h k p q = Pairs-alternate true false ys xs (λ e. cc) k h q p
in_turn-Pairs false xs ys h k p q = Pairs-alternate false true xs ys (λ e. cc) h k p q
