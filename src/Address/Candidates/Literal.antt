-- ===== src/Address/Candidates/Literal.antt =====
-- endpoint.go, address.go: an address that a target spells out.
use minecraft_ping.Base.{
  ℕ, ◌≡◌, ◌≢◌, refl, Bool, true, false, not, ◌&&◌, List, [], ◌∷◌, Option, none, some, ok, arith,
  ◌>>=◌, Option-cases, inl, inr, >>=-eq-ok,
}
use minecraft_ping.Net.{Addr, invalid, v4, v6, is_valid, is4, is6, unmap, unmap_idem}
use minecraft_ping.Net.Parse.{parse_addr}
use minecraft_ping.Address.Errors.{AddressFamily, family_any, family4, family6, unnamed}
use minecraft_ping.Address.Family.{matches}
use minecraft_ping.Address.Endpoint.{
  PingOptions, Endpoint, is_non_public_addr, literal_ip, unmapped, uint16_port,
}
use minecraft_ping.Address.Candidates.{DialCandidate, candidate_of, dial_candidate_for_literal_ip}
use minecraft_ping.Address.Candidates.Filter.{matches-IsOfFamily, guard-IsLetThrough}
use minecraft_ping.Address.Candidates.Resolved.{IsDialable}

pub unmapped-plain : (o : Option Addr) (a : Addr) → unmapped o ≡ some a → unmap a ≡ a
unmapped-plain none a h = cc
unmapped-plain (some b) a h = let e : unmap b ≡ a = ground arith in rw e at (unmap_idem b)

valid_unmap :
    (family : AddressFamily) (a : Addr) → matches family a ≡ true → is_valid (unmap a) ≡ true
unfolding matches
valid_unmap family_any a h = h
valid_unmap (unnamed k) a h = h
valid_unmap family4 a h = is4-valid (unmap a) h
  where
    is4-valid : (b : Addr) → is4 b ≡ true → is_valid b ≡ true
    is4-valid invalid e = ground arith
    is4-valid (v4 n) e = refl
    is4-valid (v6 n z) e = refl
valid_unmap family6 a h = is6-valid (unmap a) h
  where
    is6-valid : (b : Addr) → is6 b ≡ true → is_valid b ≡ true
    is6-valid invalid e = ground arith
    is6-valid (v4 n) e = refl
    is6-valid (v6 n z) e = refl

pub single-IsDialable :
    (family : AddressFamily) (allow_private : Bool) (port : Addr → ℕ) (a : Addr) (n : ℕ)
    → unmap a ≡ a
    → matches family a ≡ true
    → (not allow_private && is_non_public_addr a) ≡ false
    → n ≡ port a
    → IsDialable family allow_private port (candidate_of a n ∷ [])
single-IsDialable family allow_private port a n plain fits guard same = record {
  allowed = (
    (
      record {
        valid = rw plain at (valid_unmap family a fits);
        plain = plain;
        of_family = matches-IsOfFamily family a plain fits;
        let_through = guard-IsLetThrough allow_private a guard;
      },
      same,
    ),
    tt,
  );
  distinct = (tt, tt);
}

-- A literal target that is accepted gives one candidate that may be dialled: of the requested
-- family, past the guard unless private addresses are allowed, with the port of the target.
pub literal-IsDialable :
    (target : Endpoint) (options : PingOptions) (cs : List DialCandidate)
    → dial_candidate_for_literal_ip target options ≡ ok cs
    → (port : ℕ) × (uint16_port target ≡ ok port)
      × IsDialable options.address_family options.allow_private_addresses (λ _. port) cs
      × (cs ≢ [])
unfolding dial_candidate_for_literal_ip literal_ip
literal-IsDialable target options cs h = elim (Option-cases (unmapped (parse_addr target.host))) [
  | inl e ↦ let h' = rw (e, dial_candidate_for_literal_ip) at h in absurd (ground arith)
  | inr (a, e) ↦
      let h' = rw (e, dial_candidate_for_literal_ip) at h in
      let family : matches options.address_family a ≡ true = ground arith in
      let guard : (not options.allow_private_addresses && is_non_public_addr a) ≡ false =
        ground arith in
      let rest : (uint16_port target >>= λ port. ok (candidate_of a port ∷ [])) ≡ ok cs =
        ground arith in
      let (port, fits, built) = >>=-eq-ok (uint16_port target) _ rest in
      let same : (candidate_of a port ∷ []) ≡ cs = ground arith in
      (
        port,
        fits,
        rw same at (
            single-IsDialable options.address_family options.allow_private_addresses (λ _. port) a
              port (unmapped-plain (parse_addr target.host) a e) family guard refl),
        λ empty. ground arith,
      )
]
