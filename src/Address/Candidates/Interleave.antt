-- ===== src/Address/Candidates/Interleave.antt =====
-- `interleaveDialCandidates` of address.go alternates its two lists.
use minecraft_ping.Base.{
  ℕ, zero, suc, max, ◌≡◌, ◌≤◌, refl, sym, ◌∙◌, List, [], ◌∷◌, ◌++◌, length, append_assoc,
  append-nil, arith, All,
}
use minecraft_ping.Address.Candidates.{DialCandidate, interleave_loop, interleave_dial_candidates}

-- One of each in turn, and the rest of the longer list.
unfoldable pub alternate {ℓ} : {A : Type ℓ} → List A → List A → List A
alternate [] ys = ys
alternate (x ∷ xs) [] = x ∷ xs
alternate (x ∷ xs) (y ∷ ys) = x ∷ y ∷ alternate xs ys

module _ {ℓ} {A : Type ℓ} where
  both_empty : (n i : ℕ) (acc : List A) → interleave_loop n i [] [] acc ≡ acc
  unfolding interleave_loop
  both_empty zero i acc = refl
  both_empty (suc n) i acc = both_empty n (suc i) _ ∙ simp append-nil

  -- The loop reads both lists from its index on only.
  skip_both :
      (n i : ℕ) (x y : A) (xs ys acc : List A)
      → interleave_loop n (suc i) (x ∷ xs) (y ∷ ys) acc ≡ interleave_loop n i xs ys acc
  unfolding interleave_loop
  skip_both zero i x y xs ys acc = refl
  skip_both (suc n) i x y xs ys acc = skip_both n (suc i) x y xs ys _

  skip_primary :
      (n i : ℕ) (x : A) (xs acc : List A)
      → interleave_loop n (suc i) (x ∷ xs) [] acc ≡ interleave_loop n i xs [] acc
  unfolding interleave_loop
  skip_primary zero i x xs acc = refl
  skip_primary (suc n) i x xs acc = skip_primary n (suc i) x xs _

  skip_secondary :
      (n i : ℕ) (y : A) (ys acc : List A)
      → interleave_loop n (suc i) [] (y ∷ ys) acc ≡ interleave_loop n i [] ys acc
  unfolding interleave_loop
  skip_secondary zero i y ys acc = refl
  skip_secondary (suc n) i y ys acc = skip_secondary n (suc i) y ys _

  pub alternate-nil : (xs : List A) → alternate xs [] ≡ xs
  unfolding alternate
  alternate-nil [] = refl
  alternate-nil (x ∷ xs) = refl

  interleave_loop-alternate :
      (n : ℕ) (xs ys acc : List A)
      → length xs ≤ n
      → length ys ≤ n
      → interleave_loop n 0 xs ys acc ≡ acc ++ alternate xs ys
  unfolding interleave_loop alternate
  interleave_loop-alternate n [] [] acc h k = both_empty n 0 acc ∙ sym (append-nil acc)
  interleave_loop-alternate zero [] (y ∷ ys) acc h k = absurd (omega arith)
  interleave_loop-alternate zero (x ∷ xs) ys acc h k = absurd (omega arith)
  interleave_loop-alternate (suc n) [] (y ∷ ys) acc h k =
      skip_secondary n 0 y ys ((acc ++ []) ++ (y ∷ []))
      ∙ interleave_loop-alternate n [] ys ((acc ++ []) ++ (y ∷ [])) (omega arith) (omega arith)
      ∙ simp (append-nil, append_assoc)
  interleave_loop-alternate (suc n) (x ∷ xs) [] acc h k =
      skip_primary n 0 x xs ((acc ++ (x ∷ [])) ++ [])
      ∙ interleave_loop-alternate n xs [] ((acc ++ (x ∷ [])) ++ []) (omega arith) (omega arith)
      ∙ simp (append-nil, append_assoc, alternate-nil)
  interleave_loop-alternate (suc n) (x ∷ xs) (y ∷ ys) acc h k =
      skip_both n 0 x y xs ys ((acc ++ (x ∷ [])) ++ (y ∷ []))
      ∙ interleave_loop-alternate n xs ys ((acc ++ (x ∷ [])) ++ (y ∷ [])) (omega arith)
          (omega arith)
      ∙ simp append_assoc

  pub All-alternate {κ} :
      (P : A → Type κ) (xs ys : List A) → All P xs → All P ys → All P (alternate xs ys)
  unfolding alternate
  All-alternate P [] ys h k = k
  All-alternate P (x ∷ xs) [] h k = h
  All-alternate P (x ∷ xs) (y ∷ ys) h k = (h.0, (k.0, All-alternate P xs ys h.1 k.1))

-- The two families alternate from the first of the primary one on, and the rest of the longer list
-- follows in its order.
pub interleave-alternate :
    (primary secondary : List DialCandidate)
    → interleave_dial_candidates primary secondary ≡ alternate primary secondary
unfolding interleave_dial_candidates
interleave-alternate primary secondary =
    interleave_loop-alternate (max (length secondary) (length primary)) primary secondary []
      (omega arith) (omega arith)
