-- ===== src/Cli/Exit.antt =====
-- cli.go: a run of the program ends.
use minecraft_ping.Base.{
  ℕ, ◌+◌, ◌≡◌, ◌<◌, ◌≤◌, refl, ap, Bool, true, false, List, Bytes, if◌then◌else◌, Option, some,
  Result, ok, err, arith, inl, inr, ◌⊎◌, drop,
}
use minecraft_ping.Client.{ProbeSample}
use minecraft_ping.Session.{Session, begun, exit_code, closing, run_text_session}
use minecraft_ping.Session.Ending.{session_loop-ends, begun-IsCounted}
use minecraft_ping.Cli.{ParseStatus, status_ok, status_help, status_invalid}
use minecraft_ping.Cli.Config.{CliConfig, parse_cli_config}
use minecraft_ping.Cli.Run.{
  CliRuntime, Written, session_config, json_result, session_result, probing, started,
  run_with_runtime,
}

module _ {P : Type 0} (rt : CliRuntime P) (fuel : ℕ) where
  -- The run has ended, with one of the three exit codes.
  abbrev pub Ends : Option (ℕ × List Written) → Type 0
  Ends r = (code : ℕ) × (written : List Written) × (r ≡ some (code, written)) × (code ≤ 2)

  -- Arguments whose run needs no more turns than the fuel: they are refused, or they ask for help,
  -- for the version or for JSON, or they give a count below the fuel.
  abbrev pub IsBounded : Result ParseStatus CliConfig → Type 0
  IsBounded (err e) = Unit
  IsBounded (ok cfg) =
      (cfg.show_version ≡ true) ⊎ ((cfg.json ≡ true) ⊎ ((0 < cfg.count) × (cfg.count < fuel)))

  if-Ends :
      (b : Bool) (r r' : Option (ℕ × List Written))
      → (b ≡ true → Ends r)
      → (b ≡ false → Ends r')
      → Ends (if b then r else r')
  if-Ends true r r' h k = h refl
  if-Ends false r r' h k = k refl

  exit_code-le : (cfg : CliConfig) (s : Session P) → exit_code rt.world (session_config cfg) s ≤ 2
  unfolding exit_code
  exit_code-le cfg s = ground arith

  text-Ends :
      (cfg : CliConfig) (p : P)
      → 0 < cfg.count
      → cfg.count < fuel
      → Ends (session_result rt fuel (run_text_session rt.world (session_config cfg) fuel p))
  unfolding run_text_session session_config
  text-Ends cfg p some_count enough =
      let sc = session_config cfg in
      let at = rt.world.now 0 + sc.deadline in
      let (s, ended) =
        session_loop-ends rt.world sc at fuel (begun rt.world sc p) some_count
          (begun-IsCounted rt.world sc p) (omega arith) in
      (
        _,
        _,
        ap (λ (o : Option (Session P)). session_result rt fuel (closing rt.world sc o)) ended,
        exit_code-le cfg s,
      )

  json-Ends : (cfg : CliConfig) (r : Result ℕ ProbeSample) → Ends (some (json_result rt fuel cfg r))
  json-Ends cfg (err e) = (_, _, refl, omega arith)
  json-Ends cfg (ok sample) = (_, _, refl, omega arith)

  probing-Ends :
      (cfg : CliConfig) (r : Result Bytes P)
      → (cfg.json ≡ true) ⊎ ((0 < cfg.count) × (cfg.count < fuel))
      → Ends (probing rt fuel cfg r)
  probing-Ends cfg (err e) b = (_, _, refl, omega arith)
  probing-Ends cfg (ok p) b =
      if-Ends cfg.json _ _ (λ on. json-Ends cfg (rt.world.probe p 1 cfg.timeout))
        (λ off. elim b [
          | inl on ↦ absurd (cc)
          | inr (some_count, enough) ↦ text-Ends cfg p some_count enough
        ])

  started-Ends : (r : Result ParseStatus CliConfig) → IsBounded r → Ends (started rt fuel r)
  started-Ends (err status_ok) b = (_, _, refl, omega arith)
  started-Ends (err status_help) b = (_, _, refl, omega arith)
  started-Ends (err status_invalid) b = (_, _, refl, omega arith)
  started-Ends (ok cfg) b =
      if-Ends cfg.show_version _ _ (λ on. (_, _, refl, omega arith))
        (λ off. elim b [ inl on ↦ absurd (cc) | inr rest ↦ probing-Ends cfg (rt.prepare cfg) rest ])

  -- A run of the program ends with an exit code of at most 2, whatever the resolver, the server, the
  -- clock and the context do, if its arguments are refused, ask for help, for the version or for
  -- JSON, or give a count; the count and one turn more are enough.
  pub run-Ends :
      (argv : List Bytes)
      → IsBounded (parse_cli_config rt.numbers (drop 1 argv))
      → Ends (run_with_runtime rt fuel argv)
  unfolding run_with_runtime
  run-Ends argv b = started-Ends (parse_cli_config rt.numbers (drop 1 argv)) b
