-- ===== src/Release/Run/Checked.antt =====
-- cmd/release-integration/main.go: what an exit code of 0 says.
use minecraft_ping.Base.{
  ◌≡◌, refl, ap, ◌∙◌, sym, true, List, [], ◌∷◌, ◌++◌, Bytes, Result, ok, err, bytes_eq,
  bytes_eq_iff, map_err, ◌↔◌, ◌⊎◌, inl, inr, arith, All, Result-cases,
}
use minecraft_ping.Base.Int.{ℤ}
use minecraft_ping.Text.{codes, decimal, trim_space}
use minecraft_ping.Net.{join_host_port}
use minecraft_ping.Release.Config.{ReleaseConfig, ProbeSpec, probe_specs, validate_config}
use minecraft_ping.Release.Valid.{IsValidConfig, validate_config-IsValidConfig}
use minecraft_ping.Release.Probe.{format_probe_timeout, probe_args}
use minecraft_ping.Effects.Success.{bind-ok, ok-bind}
use minecraft_ping.Effects.{◌>>◌}
use minecraft_ping.Release.Backend.{CommandEnd, succeeded, exited, not_run, start_backend}
use minecraft_ping.Release.Run.{
  ReleaseError, backend_failed, ReleaseWorld, release_version_line, lifted, binary_of,
  version_checked, assert_version, probe_checked, run_probe, run_probes, check_version, checks, run,
  exit_of_run, validated, run_cli,
}

map_err-ok : {F G A : Type 0} (f : F → G) (r : Result F A) {a : A} → map_err f r ≡ ok a → r ≡ ok a
map_err-ok f (ok x) h = ground arith
map_err-ok f (err e) h = absurd cc

module _ {E : Type 0} (w : ReleaseWorld E) where
  -- A command that succeeds with an output that passes a test.
  abbrev pub SucceedsWith : (Bytes → Type 0) → CommandEnd E → Type 0
  SucceedsWith Q (succeeded output) = Q output
  SucceedsWith Q (exited e output) = ⊥
  SucceedsWith Q (not_run e) = ⊥

  abbrev pub AnswersProbe : Bytes → ℤ → ProbeSpec → Type 0
  AnswersProbe binary timeout spec =
      SucceedsWith (λ output. w.is_result output ≡ true)
        (w.probe_end (binary ∷ probe_args w.format_seconds timeout spec))

  -- The binary, asked at one of the four listeners, succeeds with the JSON of a result.
  abbrev pub AnswersAt : Bytes → ℤ → List Bytes → Bytes → Bytes → ℤ → Type 0
  AnswersAt binary timeout edition family host port =
      SucceedsWith (λ output. w.is_result output ≡ true)
        (w.probe_end (
          binary
          ∷ codes "-j"
          ∷ codes "--allow-private"
          ∷ codes "-W"
          ∷ format_probe_timeout w.format_seconds timeout
          ∷ (edition ++ (family ∷ join_host_port host (decimal port) ∷ []))))

  pub record AnswersAll (binary : Bytes) (cfg : ReleaseConfig) : Type 0 where
    pub java_ipv4 :
        AnswersAt binary cfg.probe_timeout [] (codes "-4") cfg.ipv4_host cfg.java_ipv4_port
    pub java_ipv6 :
        AnswersAt binary cfg.probe_timeout [] (codes "-6") cfg.ipv6_host cfg.java_ipv6_port
    pub bedrock_ipv4 :
        AnswersAt binary cfg.probe_timeout
          (codes "--bedrock" ∷ [])
          (codes "-4")
          cfg.ipv4_host
          cfg.bedrock_ipv4_port
    pub bedrock_ipv6 :
        AnswersAt binary cfg.probe_timeout
          (codes "--bedrock" ∷ [])
          (codes "-6")
          cfg.ipv6_host
          cfg.bedrock_ipv6_port

  specs-AnswersAll :
      (binary : Bytes) (cfg : ReleaseConfig)
      → All (AnswersProbe binary cfg.probe_timeout) (probe_specs cfg)
      → AnswersAll binary cfg
  unfolding probe_specs probe_args bytes_eq
  specs-AnswersAll binary cfg (a, (b, (c, (d, _)))) = record {
    java_ipv4 = a;
    java_ipv6 = b;
    bedrock_ipv4 = c;
    bedrock_ipv6 = d;
  }

  AnswersAll-specs :
      (binary : Bytes) (cfg : ReleaseConfig)
      → AnswersAll binary cfg
      → All (AnswersProbe binary cfg.probe_timeout) (probe_specs cfg)
  unfolding probe_specs probe_args bytes_eq
  AnswersAll-specs binary cfg h =
      (h.java_ipv4, (h.java_ipv6, (h.bedrock_ipv4, (h.bedrock_ipv6, tt))))

  abbrev pub HasVersion : Bytes → Bytes → Type 0
  HasVersion binary expected =
      (expected ≡ [])
      ⊎ SucceedsWith (λ output. trim_space output ≡ release_version_line expected)
          (w.version_end binary)

  -- What has been checked of a configuration and the binary that was found for it.
  pub record IsChecked (cfg : ReleaseConfig) : Type 0 where
    pub valid : IsValidConfig cfg
    pub binary : Bytes
    pub expected : Bytes
    pub found : (binary_of w cfg).result ≡ ok (binary, expected)
    pub version : HasVersion binary expected
    pub backend : (start_backend w.backend cfg).result ≡ ok tt
    pub probes : AnswersAll binary cfg

  probe_checked-AnswersProbe :
      (spec : ProbeSpec) (ends : CommandEnd E)
      → probe_checked w spec ends ≡ ok tt
      → SucceedsWith (λ output. w.is_result output ≡ true) ends
  probe_checked-AnswersProbe spec (succeeded output) h = ground arith
  probe_checked-AnswersProbe spec (exited e output) h = absurd cc
  probe_checked-AnswersProbe spec (not_run e) h = absurd cc

  run_probes-All :
      (binary : Bytes) (timeout : ℤ) (specs : List ProbeSpec)
      → (run_probes w binary timeout specs).result ≡ ok tt
      → All (AnswersProbe binary timeout) specs
  unfolding run_probes run_probe
  run_probes-All binary timeout [] h = tt
  run_probes-All binary timeout (spec ∷ specs) h =
      let (u, first, rest) =
        bind-ok (run_probe w binary timeout spec) (λ _. run_probes w binary timeout specs) h in
      (
        probe_checked-AnswersProbe spec
            (w.probe_end (binary ∷ probe_args w.format_seconds timeout spec)) first,
        run_probes-All binary timeout specs rest,
      )

  version_checked-SucceedsWith :
      (expected : Bytes) (ends : CommandEnd E)
      → version_checked w expected ends ≡ ok tt
      → SucceedsWith (λ output. trim_space output ≡ release_version_line expected) ends
  version_checked-SucceedsWith expected (succeeded output) h =
      ground (arith, bytes_eq_iff (trim_space output) (release_version_line expected))
  version_checked-SucceedsWith expected (exited e output) h = absurd cc
  version_checked-SucceedsWith expected (not_run e) h = absurd cc

  check_version-HasVersion :
      (binary expected : Bytes)
      → (check_version w binary expected).result ≡ ok tt
      → HasVersion binary expected
  unfolding assert_version bytes_eq
  check_version-HasVersion binary [] h = inl refl
  check_version-HasVersion binary (c ∷ cs) h =
      inr (version_checked-SucceedsWith (c ∷ cs) (w.version_end binary) h)

  AnswersProbe-probe_checked :
      (spec : ProbeSpec) (ends : CommandEnd E)
      → SucceedsWith (λ output. w.is_result output ≡ true) ends
      → probe_checked w spec ends ≡ ok tt
  AnswersProbe-probe_checked spec (succeeded output) h = rw h refl
  AnswersProbe-probe_checked spec (exited e output) h = elim h [ ]
  AnswersProbe-probe_checked spec (not_run e) h = elim h [ ]

  All-run_probes :
      (binary : Bytes) (timeout : ℤ) (specs : List ProbeSpec)
      → All (AnswersProbe binary timeout) specs
      → (run_probes w binary timeout specs).result ≡ ok tt
  unfolding run_probes run_probe
  All-run_probes binary timeout [] h = refl
  All-run_probes binary timeout (spec ∷ specs) h =
      ok-bind (run_probe w binary timeout spec) (λ _. run_probes w binary timeout specs)
        (AnswersProbe-probe_checked spec
          (w.probe_end (binary ∷ probe_args w.format_seconds timeout spec)) h.0)
        (All-run_probes binary timeout specs h.1)

  SucceedsWith-version_checked :
      (expected : Bytes) (ends : CommandEnd E)
      → SucceedsWith (λ output. trim_space output ≡ release_version_line expected) ends
      → version_checked w expected ends ≡ ok tt
  SucceedsWith-version_checked expected (succeeded output) h =
      rw ((bytes_eq_iff (trim_space output) (release_version_line expected)).1 h) refl
  SucceedsWith-version_checked expected (exited e output) h = elim h [ ]
  SucceedsWith-version_checked expected (not_run e) h = elim h [ ]

  HasVersion-check_version :
      (binary expected : Bytes)
      → HasVersion binary expected
      → (check_version w binary expected).result ≡ ok tt
  unfolding assert_version bytes_eq
  HasVersion-check_version binary [] h = refl
  HasVersion-check_version binary (c ∷ cs) (inl none_expected) = absurd cc
  HasVersion-check_version binary (c ∷ cs) (inr right) =
      SucceedsWith-version_checked (c ∷ cs) (w.version_end binary) right

  run-IsChecked :
      (cfg : ReleaseConfig) → IsValidConfig cfg → (run w cfg).result ≡ ok tt → IsChecked cfg
  unfolding run
  run-IsChecked cfg valid h =
      let ((binary, expected), found, checked) =
        bind-ok (binary_of w cfg) (λ found. checks w cfg found) h in
      let starting = lifted w backend_failed (start_backend w.backend cfg) in
      let probing = run_probes w binary cfg.probe_timeout (probe_specs cfg) in
      let (u, version, behind_version) =
        bind-ok (check_version w binary expected) (λ _. starting >> probing) checked in
      let (v, backend, probes) = bind-ok starting (λ _. probing) behind_version in
      record {
        valid = valid;
        binary = binary;
        expected = expected;
        found = found;
        version = check_version-HasVersion binary expected version;
        backend = map_err-ok backend_failed (start_backend w.backend cfg).result backend;
        probes =
            specs-AnswersAll binary cfg
              (run_probes-All binary cfg.probe_timeout (probe_specs cfg) probes);
      }

  IsChecked-run : (cfg : ReleaseConfig) → IsChecked cfg → (run w cfg).result ≡ ok tt
  unfolding run
  IsChecked-run cfg c =
      let starting = lifted w backend_failed (start_backend w.backend cfg) in
      let probing = run_probes w c.binary cfg.probe_timeout (probe_specs cfg) in
      ok-bind (binary_of w cfg) (λ found. checks w cfg found) c.found
        (ok-bind (check_version w c.binary c.expected) (λ _. starting >> probing)
          (HasVersion-check_version c.binary c.expected c.version)
          (ok-bind starting (λ _. probing) (ap (map_err backend_failed) c.backend)
            (All-run_probes c.binary cfg.probe_timeout (probe_specs cfg)
              (AnswersAll-specs c.binary cfg c.probes))))

  exit_of_run-zero : (r : Result (ReleaseError E) (Unit {0})) → exit_of_run w r ≡ 0 → r ≡ ok tt
  exit_of_run-zero (ok u) h = refl
  exit_of_run-zero (err e) h = absurd (omega (arith, h))

  -- Of a configuration, the exit code of the release integration is 0 exactly where `validateConfig`
  -- accepts it, a binary is found for it whose output for `-V` is the line of the expected version,
  -- if one is expected, the backend starts, and the binary prints the JSON of a result at each of
  -- the four listeners: those of the Java and of the Bedrock edition, over IPv4 and over IPv6, each
  -- at its own host and port.
  pub run_cli-IsChecked : (cfg : ReleaseConfig) → ((run_cli w (ok cfg)).0 ≡ 0) ↔ IsChecked cfg
  unfolding run_cli
  run_cli-IsChecked cfg = (passed, checked)
    where
      passed : (validated w cfg (validate_config cfg)).0 ≡ 0 → IsChecked cfg
      passed h = elim (Result-cases (validate_config cfg)) [
        | inl (u, e) ↦
            run-IsChecked cfg ((validate_config-IsValidConfig cfg).0 e)
              (exit_of_run-zero (run w cfg).result (ap (λ r. (validated w cfg r).0) (sym e) ∙ h))
        | inr (e, is) ↦
            let code : 2 ≡ 0 = ap (λ r. (validated w cfg r).0) (sym is) ∙ h in
            absurd (omega (arith, code))
      ]

      checked : IsChecked cfg → (validated w cfg (validate_config cfg)).0 ≡ 0
      checked c =
          ap (λ r. (validated w cfg r).0) ((validate_config-IsValidConfig cfg).1 c.valid)
          ∙ ap (exit_of_run w) (IsChecked-run cfg c)
