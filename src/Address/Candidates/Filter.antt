-- ===== src/Address/Candidates/Filter.antt =====
-- The filtering loop of `dialCandidatesForResolvedIPsByAddr` in address.go.
use minecraft_ping.Base.{
  ◌≡◌, refl, sym, ◌∙◌, Bool, true, false, not, ◌&&◌, ◌||◌, List, [], ◌∷◌, ◌++◌, if◌then◌else◌,
  append_assoc, append-nil, arith, All, Bool-cases, inl, inr, ◌⊎◌,
}
use minecraft_ping.Address.Guard.{is_reserved, is_non_public_addr-is_reserved}
use minecraft_ping.Net.{Addr, is4, is6, is_valid, unmap, unmap_idem}
use minecraft_ping.Address.Errors.{AddressFamily, family_any, family4, family6, unnamed}
use minecraft_ping.Address.Family.{matches}
use minecraft_ping.Address.Endpoint.{is_non_public_addr}
use minecraft_ping.Address.Candidates.{Filtered, filter_addr, filter_loop, nothing_filtered}

-- An address of a requested family.
abbrev pub IsOfFamily : AddressFamily → Addr → Type 0
IsOfFamily family4 a = is4 a ≡ true
IsOfFamily family6 a = is6 a ≡ true
IsOfFamily family a = Unit

-- An address outside the reserved ranges, or in one of IPv6 but with a zone (`is_reserved`), unless
-- private addresses are allowed.
abbrev pub IsLetThrough : Bool → Addr → Type 0
IsLetThrough allow_private a = (allow_private ≡ true) ⊎ (is_reserved a ≡ false)

pub matches-IsOfFamily :
    (family : AddressFamily) (a : Addr)
    → unmap a ≡ a
    → matches family a ≡ true
    → IsOfFamily family a
unfolding matches
matches-IsOfFamily family4 a plain h = rw plain at h
matches-IsOfFamily family6 a plain h = rw plain at h
matches-IsOfFamily family_any a plain h = tt
matches-IsOfFamily (unnamed k) a plain h = tt

pub guard-IsLetThrough :
    (allow_private : Bool) (a : Addr)
    → (not allow_private && is_non_public_addr a) ≡ false
    → IsLetThrough allow_private a
guard-IsLetThrough true a h = inl refl
guard-IsLetThrough false a h = inr (sym (is_non_public_addr-is_reserved a) ∙ h)

-- An address that may be dialled.
pub record IsAllowed (family : AddressFamily) (allow_private : Bool) (a : Addr) : Type 0 where
  pub valid : is_valid a ≡ true
  pub plain : unmap a ≡ a
  pub of_family : IsOfFamily family a
  pub let_through : IsLetThrough allow_private a

module _ (family : AddressFamily) (allow_private : Bool) where
  abbrev pub is_candidate : Addr → Bool
  is_candidate a = is_valid a && matches family a

  abbrev pub is_refused : Addr → Bool
  is_refused a = is_candidate a && (not allow_private && is_non_public_addr a)

  abbrev pub is_accepted : Addr → Bool
  is_accepted a = is_candidate a && not (not allow_private && is_non_public_addr a)

  -- What survives, in order, and whether some address matched or was refused.
  unfoldable pub accepted : List Addr → List Addr
  accepted [] = []
  accepted (a ∷ addrs) = if is_accepted (unmap a) then unmap a ∷ accepted addrs else accepted addrs

  unfoldable pub any_candidate : List Addr → Bool
  any_candidate [] = false
  any_candidate (a ∷ addrs) = is_candidate (unmap a) || any_candidate addrs

  unfoldable pub any_refused : List Addr → Bool
  any_refused [] = false
  any_refused (a ∷ addrs) = is_refused (unmap a) || any_refused addrs

  record Collects (addrs : List Addr) (s t : Filtered) : Type 0 where
    keeps : t.kept ≡ s.kept ++ accepted addrs
    matches_some : t.matched_family ≡ (s.matched_family || any_candidate addrs)
    refuses_some : t.filtered_non_public ≡ (s.filtered_non_public || any_refused addrs)

  step_keeps :
      (a : Addr) (addrs : List Addr) (s : Filtered)
      → (filter_addr family allow_private (unmap a) s).kept ++ accepted addrs
        ≡ s.kept ++ accepted (a ∷ addrs)
  unfolding accepted
  step_keeps a addrs s = ground (arith, append_assoc s.kept (unmap a ∷ []) (accepted addrs))

  step_matches :
      (a : Addr) (addrs : List Addr) (s : Filtered)
      → ((filter_addr family allow_private (unmap a) s).matched_family || any_candidate addrs)
        ≡ (s.matched_family || any_candidate (a ∷ addrs))
  unfolding any_candidate
  step_matches a addrs s = ground arith

  step_refuses :
      (a : Addr) (addrs : List Addr) (s : Filtered)
      → ((filter_addr family allow_private (unmap a) s).filtered_non_public || any_refused addrs)
        ≡ (s.filtered_non_public || any_refused (a ∷ addrs))
  unfolding any_refused
  step_refuses a addrs s = ground arith

  or_false : (b : Bool) → b ≡ (b || false)
  or_false true = refl
  or_false false = refl

  filter_loop-Collects :
      (addrs : List Addr) (s : Filtered)
      → Collects addrs s (filter_loop family allow_private addrs s)
  unfolding filter_loop
  filter_loop-Collects [] s = record {
    keeps = unfold accepted in sym (append-nil s.kept);
    matches_some = unfold any_candidate in or_false s.matched_family;
    refuses_some = unfold any_refused in or_false s.filtered_non_public;
  }
  filter_loop-Collects (a ∷ addrs) s =
      let later = filter_loop-Collects addrs (filter_addr family allow_private (unmap a) s) in
      record {
        keeps = later.keeps ∙ step_keeps a addrs s;
        matches_some = later.matches_some ∙ step_matches a addrs s;
        refuses_some = later.refuses_some ∙ step_refuses a addrs s;
      }

  pub filter_loop-accepted :
      (addrs : List Addr)
      → filter_loop family allow_private addrs nothing_filtered ≡ record {
        kept = accepted addrs;
        matched_family = any_candidate addrs;
        filtered_non_public = any_refused addrs;
      }
  filter_loop-accepted addrs =
      let all = filter_loop-Collects addrs nothing_filtered in
      λ i. record {
        kept = all.keeps i;
        matched_family = all.matches_some i;
        filtered_non_public = all.refuses_some i;
      }

  is_accepted-IsAllowed :
      (a : Addr) → is_accepted (unmap a) ≡ true → IsAllowed family allow_private (unmap a)
  is_accepted-IsAllowed a h = record {
    valid = ground arith;
    plain = unmap_idem a;
    of_family = matches-IsOfFamily family (unmap a) (unmap_idem a) (ground arith);
    let_through = guard-IsLetThrough allow_private (unmap a) (ground arith);
  }

  pub accepted-IsAllowed :
      (addrs : List Addr) → All (IsAllowed family allow_private) (accepted addrs)
  unfolding accepted
  accepted-IsAllowed [] = tt
  accepted-IsAllowed (a ∷ addrs) = elim (Bool-cases (is_accepted (unmap a))) [
    | inl good ↦ rw good (is_accepted-IsAllowed a good, accepted-IsAllowed addrs)
    | inr bad ↦ rw bad (accepted-IsAllowed addrs)
  ]
