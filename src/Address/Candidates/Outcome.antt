-- ===== src/Address/Candidates/Outcome.antt =====
-- `dialCandidatesForResolvedIPsByAddr` of address.go against a description that does not share its
-- tests: which addresses may be dialled, in which order, and which error there is without one.
use minecraft_ping.Base.{
  ℕ, ◌≡◌, refl, ap, ◌∙◌, Bool, true, false, not, ◌&&◌, ◌||◌, List, [], ◌∷◌, ◌==◌, if◌then◌else◌,
  arith, Bool-cases, inl, inr, length, Bytes, Result, ok, err,
}
use minecraft_ping.Net.{Addr, is_valid, is4, is6, unmap, unmap_idem}
use minecraft_ping.Address.Errors.{
  AddressFamily, family_any, family4, family6, unnamed, Error, none_resolved, only_non_public,
  none_dialable,
}
use minecraft_ping.Address.Family.{matches}
use minecraft_ping.Address.Guard.{is_reserved, is_non_public_addr-is_reserved}
use minecraft_ping.Address.Candidates.{
  DialCandidate, is_seen, dial_candidates_for_resolved_ips_by_addr,
}
use minecraft_ping.Address.Candidates.Interleave.{alternate}
use minecraft_ping.Address.Candidates.Filter.{
  is_candidate, is_accepted, accepted, any_candidate, any_refused, accepted-IsAllowed,
}
use minecraft_ping.Address.Candidates.Build.{
  firsts, family_candidates, first_is_v6, in_turn, build-in_turn,
}
use minecraft_ping.Address.Candidates.Resolved.{dial_candidates_outcome, allowed-IsPlain}

module _ (family : AddressFamily) (allow_private : Bool) where
  abbrev pub of_family : AddressFamily → Addr → Bool
  of_family family4 a = is4 a
  of_family family6 a = is6 a
  of_family f a = true

  -- A valid address of the requested family, mapped ones taken as IPv4.
  abbrev pub is_wanted : Addr → Bool
  is_wanted a = is_valid a && of_family family a

  abbrev pub may_dial : Addr → Bool
  may_dial a = is_wanted a && (allow_private || not (is_reserved a))

  abbrev pub dialable : List Addr → List Addr
  dialable [] = []
  dialable (a ∷ addrs) = if may_dial (unmap a) then unmap a ∷ dialable addrs else dialable addrs

  abbrev pub any_wanted : List Addr → Bool
  any_wanted [] = false
  any_wanted (a ∷ addrs) = is_wanted (unmap a) || any_wanted addrs

  -- The first occurrences, the families in turn, the family of the first in front.
  abbrev pub ordered : (Addr → ℕ) → List Addr → List DialCandidate
  ordered port addrs =
      in_turn (first_is_v6 false (firsts [] addrs)) (family_candidates port false (firsts [] addrs))
        (family_candidates port true (firsts [] addrs))

  -- The outcome where no address at all may be dialled, and where some may.
  abbrev pub verdict_on : Bytes → Bool → (Addr → ℕ) → List Addr → Result Error (List DialCandidate)
  verdict_on host wanted port [] = err (if wanted then only_non_public host else none_dialable host)
  verdict_on host wanted port (a ∷ addrs) = ok (ordered port (a ∷ addrs))

  candidate-is_wanted :
      (a : Addr) → is_candidate family allow_private (unmap a) ≡ is_wanted (unmap a)
  unfolding matches
  candidate-is_wanted a = by_family family
    where
      by_family :
          (f : AddressFamily)
          → (is_valid (unmap a) && matches f (unmap a))
            ≡ (is_valid (unmap a) && of_family f (unmap a))
      by_family family4 = ap (λ b. is_valid (unmap a) && is4 b) (unmap_idem a)
      by_family family6 = ap (λ b. is_valid (unmap a) && is6 b) (unmap_idem a)
      by_family family_any =
          ap (λ b. is_valid (unmap a) && is_valid b) (unmap_idem a) ∙ twice (is_valid (unmap a))
        where
          twice : (b : Bool) → (b && b) ≡ (b && true)
          twice true = refl
          twice false = refl
      by_family (unnamed k) =
          ap (λ b. is_valid (unmap a) && is_valid b) (unmap_idem a) ∙ twice (is_valid (unmap a))
        where
          twice : (b : Bool) → (b && b) ≡ (b && true)
          twice true = refl
          twice false = refl

  accepted-may_dial : (a : Addr) → is_accepted family allow_private (unmap a) ≡ may_dial (unmap a)
  accepted-may_dial a =
      let wanted = candidate-is_wanted a in
      let guard = is_non_public_addr-is_reserved (unmap a) in ground arith

  accepted-dialable : (addrs : List Addr) → accepted family allow_private addrs ≡ dialable addrs
  unfolding accepted
  accepted-dialable [] = refl
  accepted-dialable (a ∷ addrs) = elim (Bool-cases (may_dial (unmap a))) [
    | inl good ↦
        rw (accepted-may_dial a ∙ good) (rw good (ap (λ l. unmap a ∷ l) (accepted-dialable addrs)))
    | inr bad ↦ rw (accepted-may_dial a ∙ bad) (rw bad (accepted-dialable addrs))
  ]

  any_candidate-any_wanted :
      (addrs : List Addr) → any_candidate family allow_private addrs ≡ any_wanted addrs
  unfolding any_candidate
  any_candidate-any_wanted [] = refl
  any_candidate-any_wanted (a ∷ addrs) =
      let here = candidate-is_wanted a in let rest = any_candidate-any_wanted addrs in cc

  -- Without an address that may be dialled, every wanted one was refused.
  none_dialable-refused :
      (addrs : List Addr)
      → accepted family allow_private addrs ≡ []
      → any_refused family allow_private addrs ≡ any_candidate family allow_private addrs
  unfolding accepted any_refused any_candidate
  none_dialable-refused [] h = refl
  none_dialable-refused (a ∷ addrs) h =
      elim (Bool-cases (is_accepted family allow_private (unmap a))) [
        | inl good ↦ absurd (cc)
        | inr bad ↦ let rest = none_dialable-refused addrs (rw bad at h) in ground (arith, rest)
      ]

  ordered-some :
      (port : Addr → ℕ) (a : Addr) (addrs : List Addr)
      → (length (ordered port (a ∷ addrs)) == 0) ≡ false
  unfolding firsts is_seen family_candidates alternate
  ordered-some port a addrs = elim (Bool-cases (is6 a)) [
    | inl six ↦ rw six (some_front _ _ (family_candidates port false (firsts (a ∷ []) addrs)))
    | inr four ↦ rw four (some_front _ _ (family_candidates port true (firsts (a ∷ []) addrs)))
  ]
    where
      some_front :
          (c : DialCandidate) (cs ys : List DialCandidate)
          → (length (alternate (c ∷ cs) ys) == 0) ≡ false
      some_front c cs [] = ground arith
      some_front c cs (y ∷ ys) = ground arith

  abbrev cascade :
      Bytes → List Addr → Bool → Bool → List DialCandidate → Result Error (List DialCandidate)
  cascade host addrs wanted refused candidates =
      if not (length candidates == 0)
      then ok candidates
      else if wanted && refused
      then err (only_non_public host)
      else err (none_dialable host)

  verdict-is :
      (host : Bytes) (addrs kept : List Addr) (port : Addr → ℕ) (wanted refused : Bool)
      → (kept ≡ [] → refused ≡ wanted)
      → cascade host addrs wanted refused (ordered port kept) ≡ verdict_on host wanted port kept
  unfolding firsts family_candidates alternate
  verdict-is host addrs [] port true refused h = let same = h refl in ground arith
  verdict-is host addrs [] port false refused h = refl
  verdict-is host addrs (a ∷ kept) port wanted refused h = rw (ordered-some port a kept) refl

  -- On every answer of the resolver, `dialCandidatesForResolvedIPsByAddr` gives: its error for no
  -- address at all; or the candidates of those addresses, mapped ones taken as IPv4, that are valid,
  -- of the requested family, and, unless private ones are allowed, outside the reserved ranges or
  -- with a zone, in order without repetitions, the families in turn, none left out; or, where there
  -- is none of these, its error for only reserved addresses if one is valid and of the family, and
  -- its error for nothing to dial if none is.
  pub dial_candidates-verdict_on :
      (host : Bytes) (addrs : List Addr) (port : Addr → ℕ)
      → dial_candidates_for_resolved_ips_by_addr host addrs family allow_private port ≡ (
          if length addrs == 0
          then err (none_resolved host)
          else verdict_on host (any_wanted addrs) port (dialable addrs))
  dial_candidates-verdict_on host addrs port =
      let built =
        build-in_turn (accepted family allow_private addrs) port (
          allowed-IsPlain family allow_private port _
            (accepted-IsAllowed family allow_private addrs))
        ∙ ap (λ l. ordered port l) (accepted-dialable addrs) in
      dial_candidates_outcome host addrs family allow_private port
      ∙ ap
          (λ cs.
            if length addrs == 0
            then err (none_resolved host)
            else cascade host addrs (any_candidate family allow_private addrs)
                (any_refused family allow_private addrs) cs)
          built
      ∙ ap (λ r. if length addrs == 0 then err (none_resolved host) else r)
          (verdict-is host addrs (dialable addrs) port (any_candidate family allow_private addrs)
            (any_refused family allow_private addrs)
            (λ empty. none_dialable-refused addrs (accepted-dialable addrs ∙ empty)))
      ∙ ap
          (λ b.
            if length addrs == 0
            then err (none_resolved host)
            else verdict_on host b port (dialable addrs))
          (any_candidate-any_wanted addrs)
