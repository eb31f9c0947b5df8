-- ===== src/Release/Valid.antt =====
-- cmd/release-integration/config.go: which configurations `validateConfig` accepts.
use minecraft_ping.Base.{
  ℕ, suc, zero, ◌≤◌, ◌≡◌, refl, sym, ◌∙◌, Bool, true, false, List, [], ◌∷◌, Bytes, ok, bytes_eq,
  bytes_eq_iff, >>=-eq-ok, arith, ◌⊎◌, inl, inr, ◌↔◌, Bool-cases, All, ◌≢◌,
}
use minecraft_ping.Base.Int.{ℤ, pos, negsuc}
use minecraft_ping.Text.{codes, trim_space}
use minecraft_ping.Release.Config.{
  ReleaseConfig, given, validate_port, validate_binary, validate_timeout, validate_ports,
  port_checks, validate_backend, validate_config,
}

abbrev pub IsPort : ℤ → Type 0
IsPort port = (n : ℕ) × (port ≡ pos n) × (1 ≤ n) × (n ≤ 65535)

-- A binary by its path, or by an archive and its name in it, and never both.
abbrev pub NamesBinary : ReleaseConfig → Type 0
NamesBinary cfg =
    ((trim_space cfg.binary_path ≢ [])
      × (trim_space cfg.archive_glob ≡ [])
      × (trim_space cfg.binary_name ≡ []))
    ⊎ ((trim_space cfg.binary_path ≡ [])
        × (trim_space cfg.archive_glob ≢ [])
        × (trim_space cfg.binary_name ≢ []))

given_iff : (text : Bytes) → (given text ≡ true) ↔ (trim_space text ≢ [])
given_iff text =
    let same = bytes_eq_iff (trim_space text) [] in
    (λ h e. ground (arith, same), λ h. ground (arith, same))

blank_iff : (text : Bytes) → (given text ≡ false) ↔ (trim_space text ≡ [])
blank_iff text =
    let same = bytes_eq_iff (trim_space text) [] in
    (λ h. ground (arith, same), λ h. ground (arith, same))

abbrev BinaryFlags : ReleaseConfig → Type 0
BinaryFlags cfg =
    ((given cfg.binary_path ≡ true)
      × (given cfg.archive_glob ≡ false)
      × (given cfg.binary_name ≡ false))
    ⊎ ((given cfg.binary_path ≡ false)
        × (given cfg.archive_glob ≡ true)
        × (given cfg.binary_name ≡ true))

BinaryFlags-iff : (cfg : ReleaseConfig) → BinaryFlags cfg ↔ NamesBinary cfg
BinaryFlags-iff cfg = (to, from)
  where
    to : BinaryFlags cfg → NamesBinary cfg
    to (inl (p, g, n)) = inl (
      (given_iff cfg.binary_path).0 p,
      (blank_iff cfg.archive_glob).0 g,
      (blank_iff cfg.binary_name).0 n,
    )
    to (inr (p, g, n)) = inr (
      (blank_iff cfg.binary_path).0 p,
      (given_iff cfg.archive_glob).0 g,
      (given_iff cfg.binary_name).0 n,
    )

    from : NamesBinary cfg → BinaryFlags cfg
    from (inl (p, g, n)) = inl (
      (given_iff cfg.binary_path).1 p,
      (blank_iff cfg.archive_glob).1 g,
      (blank_iff cfg.binary_name).1 n,
    )
    from (inr (p, g, n)) = inr (
      (blank_iff cfg.binary_path).1 p,
      (given_iff cfg.archive_glob).1 g,
      (given_iff cfg.binary_name).1 n,
    )

abbrev pub NamesBackend : ReleaseConfig → Type 0
NamesBackend cfg =
    ((cfg.backend ≡ codes "binary") × (trim_space cfg.server_binary ≢ []))
    ⊎ ((cfg.backend ≡ codes "container")
        × (trim_space cfg.container_cli ≢ [])
        × (trim_space cfg.container_name ≢ []))

pub record IsValidConfig (cfg : ReleaseConfig) : Type 0 where
  pub binary : NamesBinary cfg
  pub timeout : (n : ℕ) × (cfg.probe_timeout ≡ pos n) × (1 ≤ n)
  pub java_ipv4_port : IsPort cfg.java_ipv4_port
  pub java_ipv6_port : IsPort cfg.java_ipv6_port
  pub bedrock_ipv4_port : IsPort cfg.bedrock_ipv4_port
  pub bedrock_ipv6_port : IsPort cfg.bedrock_ipv6_port
  pub backend : NamesBackend cfg

validate_port-IsPort : (flag : Bytes) (port : ℤ) → validate_port flag port ≡ ok tt → IsPort port
unfolding validate_port
validate_port-IsPort flag (pos n) h = (n, refl, ground arith, ground arith)
validate_port-IsPort flag (negsuc n) h = ground arith

IsPort-validate_port : (flag : Bytes) (port : ℤ) → IsPort port → validate_port flag port ≡ ok tt
unfolding validate_port
IsPort-validate_port flag (pos n) (m, e, lo, hi) = let same : n ≡ m = ground arith in ground arith
IsPort-validate_port flag (negsuc n) (m, e, lo, hi) = ground arith

validate_ports-All :
    (checks : List (Bytes × ℤ)) → validate_ports checks ≡ ok tt → All (λ c. IsPort c.1) checks
validate_ports-All [] h = tt
validate_ports-All ((flag, port) ∷ checks) h =
    let (u, first, rest) = >>=-eq-ok (validate_port flag port) (λ _. validate_ports checks) h in
    (validate_port-IsPort flag port first, validate_ports-All checks rest)

All-validate_ports :
    (checks : List (Bytes × ℤ)) → All (λ c. IsPort c.1) checks → validate_ports checks ≡ ok tt
All-validate_ports [] h = refl
All-validate_ports ((flag, port) ∷ checks) h =
    rw (IsPort-validate_port flag port h.0) (All-validate_ports checks h.1)

validate_binary_iff :
    (p g n : Bool)
    → (validate_binary p g n ≡ ok tt)
      ↔ (((p ≡ true) × (g ≡ false) × (n ≡ false)) ⊎ ((p ≡ false) × (g ≡ true) × (n ≡ true)))
validate_binary_iff true true n = ground arith
validate_binary_iff true false true = ground arith
validate_binary_iff true false false = ground arith
validate_binary_iff false true true = ground arith
validate_binary_iff false true false = ground arith
validate_binary_iff false false true = ground arith
validate_binary_iff false false false = ground arith

validate_timeout_iff : (t : ℤ) → (validate_timeout t ≡ ok tt) ↔ ((n : ℕ) × (t ≡ pos n) × (1 ≤ n))
validate_timeout_iff (pos zero) = (λ h. ground arith, λ (n, e, lo). ground arith)
validate_timeout_iff (pos (suc n)) = (λ h. (suc n, refl, omega arith), λ _. ground arith)
validate_timeout_iff (negsuc n) = (λ h. ground arith, λ (m, e, lo). ground arith)

validate_backend-NamesBackend :
    (cfg : ReleaseConfig) → validate_backend cfg ≡ ok tt → NamesBackend cfg
validate_backend-NamesBackend cfg h = ground (
  arith,
  given_iff cfg.server_binary,
  given_iff cfg.container_cli,
  given_iff cfg.container_name,
  bytes_eq_iff cfg.backend (codes "binary"),
  bytes_eq_iff cfg.backend (codes "container"),
)

container-binary : codes "container" ≢ codes "binary"
container-binary e = absurd cc

NamesBackend-validate_backend :
    (cfg : ReleaseConfig) → NamesBackend cfg → validate_backend cfg ≡ ok tt
NamesBackend-validate_backend cfg (inl (is, server)) =
    let present = (given_iff cfg.server_binary).1 server in
    let same = (bytes_eq_iff cfg.backend (codes "binary")).1 is in ground arith
NamesBackend-validate_backend cfg (inr (is, cli, name)) =
    let has_cli = (given_iff cfg.container_cli).1 cli in
    let has_name = (given_iff cfg.container_name).1 name in
    let same = (bytes_eq_iff cfg.backend (codes "container")).1 is in
    elim (Bool-cases (bytes_eq cfg.backend (codes "binary"))) [
      | inl other ↦
          absurd (container-binary (sym is ∙ (bytes_eq_iff cfg.backend (codes "binary")).0 other))
      | inr other ↦ ground arith
    ]

-- `validateConfig` accepts a configuration exactly where it names a binary in one of the two ways
-- and not in both, its timeout is above 0, its four ports are from 1 to 65535, and its backend is
-- one of the two with what that one needs.
pub validate_config-IsValidConfig :
    (cfg : ReleaseConfig) → (validate_config cfg ≡ ok tt) ↔ IsValidConfig cfg
unfolding validate_config
validate_config-IsValidConfig cfg = (accepted, valid)
  where
    accepted : validate_config cfg ≡ ok tt → IsValidConfig cfg
    accepted h =
        let (u, binary, behind_binary) =
          >>=-eq-ok
            (validate_binary (given cfg.binary_path) (given cfg.archive_glob)
              (given cfg.binary_name))
            _ h in
        let (v, timeout, behind_timeout) =
          >>=-eq-ok (validate_timeout cfg.probe_timeout) _ behind_binary in
        let (w, ports, backend) = >>=-eq-ok (validate_ports (port_checks cfg)) _ behind_timeout in
        let in_range = validate_ports-All (port_checks cfg) ports in
        record {
          binary = (BinaryFlags-iff cfg).0 (
              (validate_binary_iff (given cfg.binary_path) (given cfg.archive_glob)
                  (given cfg.binary_name)).0
                binary);
          timeout = (validate_timeout_iff cfg.probe_timeout).0 timeout;
          java_ipv4_port = in_range.0;
          java_ipv6_port = in_range.1.0;
          bedrock_ipv4_port = in_range.1.1.0;
          bedrock_ipv6_port = in_range.1.1.1.0;
          backend = validate_backend-NamesBackend cfg backend;
        }

    valid : IsValidConfig cfg → validate_config cfg ≡ ok tt
    valid v =
        rw
          (
            (validate_binary_iff (given cfg.binary_path) (given cfg.archive_glob)
                  (given cfg.binary_name)).1
                ((BinaryFlags-iff cfg).1 v.binary),
            (validate_timeout_iff cfg.probe_timeout).1 v.timeout,
            All-validate_ports (port_checks cfg) (
              v.java_ipv4_port,
              (v.java_ipv6_port, (v.bedrock_ipv4_port, (v.bedrock_ipv6_port, tt))),
            ),
          )
          (NamesBackend-validate_backend cfg v.backend)
