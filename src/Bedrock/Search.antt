-- ===== src/Bedrock/Search.antt =====
-- bedrock.go: the order in which `pingBedrockCandidates` tries the candidates.
use minecraft_ping.Base.{
  ℕ, suc, ◌≡◌, ◌≢◌, refl, sym, ap, ◌∙◌, List, [], ◌∷◌, ◌++◌, Option, none, some, ok, err, Result,
  append_assoc, append-nil, arith, Result-cases, Option-cases, inl, inr, ◌⊎◌,
}
use mathlib.Core.Path.{subst}
use minecraft_ping.Address.Candidates.{DialCandidate}
use minecraft_ping.Bedrock.Probe.{
  SearchError, context_ended, all_failed, search_loop, ping_bedrock_candidates, stopped,
}

module _ {E S : Type 0} (ctx_err : ℕ → Option E) (attempt : ℕ → DialCandidate → Result E S) where
  -- The candidates up to some point were tried in order and failed with these errors.
  pub data Tried
      : ℕ → List DialCandidate → ℕ → List DialCandidate → List (DialCandidate × E) → Type 0 where
    start : {i : ℕ} {cs : List DialCandidate} → Tried i cs i cs []
    failed :
        {i j : ℕ} {c : DialCandidate} {cs ds : List DialCandidate} {e : E}
        {fs : List (DialCandidate × E)}
        → ctx_err i ≡ none
        → attempt i c ≡ err e
        → Tried (suc i) cs j ds fs
        → Tried i (c ∷ cs) j ds ((c, e) ∷ fs)

  -- How the search ends, from an attempt on.
  abbrev pub Ending :
      List (DialCandidate × E) → ℕ → List DialCandidate → Result (SearchError E) S → Type 0
  Ending fs j [] r = r ≡ err (all_failed fs)
  Ending fs j (c ∷ cs) r =
      ((s : S) × (ctx_err j ≡ none) × (attempt j c ≡ ok s) × (r ≡ ok s))
      ⊎ ((e : E) × (ctx_err j ≡ some e)
          × (((fs ≡ []) × (r ≡ err (context_ended e))) ⊎ ((fs ≢ []) × (r ≡ err (all_failed fs)))))

  stopped-cases :
      (e : E) (fs : List (DialCandidate × E))
      → ((fs ≡ []) × (stopped ctx_err attempt e fs ≡ context_ended e))
        ⊎ ((fs ≢ []) × (stopped ctx_err attempt e fs ≡ all_failed fs))
  stopped-cases e [] = inl (refl, refl)
  stopped-cases e (f ∷ fs) = inr (λ h. absurd cc, refl)

  stopped-Ending :
      (e : E) (errs : List (DialCandidate × E)) (j : ℕ) (c : DialCandidate)
      (cs : List DialCandidate) (r : Result (SearchError E) S)
      → ctx_err j ≡ some e
      → r ≡ err (stopped ctx_err attempt e errs)
      → Ending errs j (c ∷ cs) r
  stopped-Ending e errs j c cs r ended h = elim (stopped-cases e errs) [
    | inl (none_failed, is) ↦ inr (e, ended, inl (none_failed, h ∙ ap (λ x. err x) is))
    | inr (some_failed, is) ↦ inr (e, ended, inr (some_failed, h ∙ ap (λ x. err x) is))
  ]

  module _ (i : ℕ) (errs : List (DialCandidate × E)) (c : DialCandidate)
      (cs : List DialCandidate) where
    loop_ended :
        (e : E)
        → ctx_err i ≡ some e
        → search_loop ctx_err attempt i errs (c ∷ cs) ≡ err (stopped ctx_err attempt e errs)
    unfolding search_loop
    loop_ended e ended = rw (ended, search_loop) refl

    loop_found :
        (s : S)
        → ctx_err i ≡ none
        → attempt i c ≡ ok s
        → search_loop ctx_err attempt i errs (c ∷ cs) ≡ ok s
    unfolding search_loop
    loop_found s live good = rw (live, search_loop) (rw (good, search_loop) refl)

    loop_failed :
        (e : E)
        → ctx_err i ≡ none
        → attempt i c ≡ err e
        → search_loop ctx_err attempt i errs (c ∷ cs)
          ≡ search_loop ctx_err attempt (suc i) (errs ++ ((c, e) ∷ [])) cs
    unfolding search_loop
    loop_failed e live bad = rw (live, search_loop) (rw (bad, search_loop) refl)

  search_loop-ends :
      (i : ℕ) (errs : List (DialCandidate × E)) (cs : List DialCandidate)
      → (j : ℕ) × (ds : List DialCandidate) × (fs : List (DialCandidate × E)) × Tried i cs j ds fs
        × Ending (errs ++ fs) j ds (search_loop ctx_err attempt i errs cs)
  search_loop-ends i errs [] = (
    i,
    [],
    [],
    start,
    unfold search_loop in ap (λ fs. err (all_failed fs)) (sym (append-nil errs)),
  )
  search_loop-ends i errs (c ∷ cs) = elim (Option-cases (ctx_err i)) [
    | inr (e, ended) ↦ (
      i,
      c ∷ cs,
      [],
      start,
      subst
          (λ (fs : List (DialCandidate × E)).
            Ending fs i (c ∷ cs) (search_loop ctx_err attempt i errs (c ∷ cs)))
          (sym (append-nil errs))
          (stopped-Ending e errs i c cs _ ended (loop_ended i errs c cs e ended)),
    )
    | inl live ↦ elim (Result-cases (attempt i c)) [
      | inl (s, good) ↦
          (i, c ∷ cs, [], start, inl (s, live, good, loop_found i errs c cs s live good))
      | inr (e, bad) ↦
          let (j, ds, fs, tried, ending) = search_loop-ends (suc i) (errs ++ ((c, e) ∷ [])) cs in
          (
            j,
            ds,
            (c, e) ∷ fs,
            failed live bad tried,
            subst
                (λ (es : List (DialCandidate × E)).
                  Ending es j ds (search_loop ctx_err attempt i errs (c ∷ cs)))
                (append_assoc errs ((c, e) ∷ []) fs)
                (subst (Ending ((errs ++ ((c, e) ∷ [])) ++ fs) j ds)
                  (sym (loop_failed i errs c cs e live bad)) ending),
          )
    ]
  ]

  some_candidate :
      (c : DialCandidate) (cs : List DialCandidate)
      → ping_bedrock_candidates ctx_err attempt (c ∷ cs) ≡ search_loop ctx_err attempt 0 [] (c ∷ cs)
  unfolding ping_bedrock_candidates
  some_candidate c cs = ground arith

  -- With a candidate at all, the search tries candidates in order while they fail and the context
  -- lasts; it ends with the first success, or with the errors of all candidates in order, or, when
  -- the context ends, with the errors so far, or with that of the context if there are none.
  pub ping_bedrock_candidates-ends :
      (c : DialCandidate) (cs : List DialCandidate)
      → (j : ℕ) × (ds : List DialCandidate) × (fs : List (DialCandidate × E)) × Tried 0
          (c ∷ cs)
          j
          ds
          fs
        × Ending fs j ds (ping_bedrock_candidates ctx_err attempt (c ∷ cs))
  ping_bedrock_candidates-ends c cs =
      let (j, ds, fs, tried, ending) = search_loop-ends 0 [] (c ∷ cs) in
      (j, ds, fs, tried, subst (Ending fs j ds) (sym (some_candidate c cs)) ending)
