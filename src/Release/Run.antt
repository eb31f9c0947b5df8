-- ===== src/Release/Run.antt =====
-- cmd/release-integration/main.go: `runCLI`, and `run` with its cleanup.
pub mod Cleaned
pub mod Checked
use minecraft_ping.Base.{
  ℕ, ◌≡◌, refl, Bool, true, false, not, List, [], ◌∷◌, ◌++◌, Bytes, if◌then◌else◌, Option, none,
  some, Result, ok, err, map_err, bytes_eq,
}
use minecraft_ping.Base.Int.{ℤ}
use minecraft_ping.Text.{codes, trim_space}
use minecraft_ping.Release.Config.{
  ReleaseConfig, ProbeSpec, ConfigError, probe_specs, validate_config,
}
use minecraft_ping.Release.Probe.{probe_args}
use minecraft_ping.Effects.{Event, ran, Act, done, ◌>>=◌, ◌>>◌, logged, cleaning}
use minecraft_ping.Release.Archive.{
  Archive, ArchiveError, resolve_single_file, version_from_archive_name, extract_binary,
}
use minecraft_ping.Release.Backend.{
  CommandEnd, succeeded, exited, not_run, BackendWorld, BackendError, start_backend,
}

pub data ReleaseError (E : Type 0) : Type 0 where
  archive_failed : ArchiveError E → ReleaseError E
  version_check_failed : ReleaseError E
  wrong_version : Bytes → ReleaseError E
  backend_failed : BackendError E → ReleaseError E
  probe_failed : Bytes → ReleaseError E

-- The surroundings of `run`: the files that match a glob, `filepath.Base`, the temporary directory
-- and where the binary in it lies, the archive, how the commands end, and whether an output is the
-- JSON of a result.
pub record ReleaseWorld (E : Type 0) : Type 0 where
  pub glob : Bytes → Result E (List Bytes)
  pub base_name : Bytes → Bytes
  pub make_temp_dir : Result E (Unit {0})
  pub in_temp_dir : Bytes → Bytes
  pub archive : Bytes → Archive E
  pub version_end : Bytes → CommandEnd E
  pub backend : BackendWorld E
  pub format_seconds : ℤ → Bytes
  pub probe_end : List Bytes → CommandEnd E
  pub is_result : Bytes → Bool

unfoldable pub release_version_line : Bytes → Bytes
release_version_line version = codes "minecraft-ping " ++ version

module _ {E : Type 0} (w : ReleaseWorld E) where
  abbrev pub step : {A : Type 0} → Result (ReleaseError E) A → Act (ReleaseError E) A
  step r = done r

  abbrev pub lifted : {F A : Type 0} → (F → ReleaseError E) → Act F A → Act (ReleaseError E) A
  lifted f m = record { result = map_err f m.result; events = m.events; registered = m.registered }

  -- The binary and the version that it shall have; no version for an empty text.
  abbrev pub expected_of : ReleaseConfig → Bytes → Result (ReleaseError E) Bytes
  expected_of cfg path =
      if bytes_eq cfg.expected_version []
      then map_err archive_failed (version_from_archive_name (w.base_name path))
      else ok cfg.expected_version

  abbrev pub extracted : ReleaseConfig → Bytes → Bytes → Act (ReleaseError E) (Bytes × Bytes)
  extracted cfg path version =
      lifted archive_failed (extract_binary w.make_temp_dir (w.archive path) path cfg.binary_name)
      >> step (ok (w.in_temp_dir cfg.binary_name, version))

  abbrev pub from_path : ReleaseConfig → Bytes → Act (ReleaseError E) (Bytes × Bytes)
  from_path cfg path = step (expected_of cfg path) >>= λ version. extracted cfg path version

  unfoldable pub binary_of : ReleaseConfig → Act (ReleaseError E) (Bytes × Bytes)
  unfolding resolve_single_file version_from_archive_name extract_binary
  binary_of cfg =
      if bytes_eq cfg.archive_glob []
      then step (ok (cfg.binary_path, cfg.expected_version))
      else (step (map_err archive_failed (resolve_single_file (w.glob cfg.archive_glob)))
          >>= λ path. from_path cfg path)

  abbrev pub version_checked : Bytes → CommandEnd E → Result (ReleaseError E) (Unit {0})
  version_checked expected (succeeded output) =
      if bytes_eq (trim_space output) (release_version_line expected)
      then ok tt
      else err (wrong_version (trim_space output))
  version_checked expected (exited e output) = err version_check_failed
  version_checked expected (not_run e) = err version_check_failed

  unfoldable pub assert_version : Bytes → Bytes → Act (ReleaseError E) (Unit {0})
  assert_version binary expected =
      logged (ran (binary ∷ codes "-V" ∷ []))
      >> step (version_checked expected (w.version_end binary))

  abbrev pub probe_checked : ProbeSpec → CommandEnd E → Result (ReleaseError E) (Unit {0})
  probe_checked spec (succeeded output) =
      if w.is_result output then ok tt else err (probe_failed spec.label)
  probe_checked spec (exited e output) = err (probe_failed spec.label)
  probe_checked spec (not_run e) = err (probe_failed spec.label)

  unfoldable pub run_probe : Bytes → ℤ → ProbeSpec → Act (ReleaseError E) (Unit {0})
  unfolding probe_args
  run_probe binary timeout spec =
      let args = binary ∷ probe_args w.format_seconds timeout spec in
      logged (ran args) >> step (probe_checked spec (w.probe_end args))

  unfoldable pub run_probes : Bytes → ℤ → List ProbeSpec → Act (ReleaseError E) (Unit {0})
  unfolding run_probe
  run_probes binary timeout [] = step (ok tt)
  run_probes binary timeout (spec ∷ specs) =
      run_probe binary timeout spec >> run_probes binary timeout specs

  abbrev pub check_version : Bytes → Bytes → Act (ReleaseError E) (Unit {0})
  check_version binary expected =
      if bytes_eq expected [] then step (ok tt) else assert_version binary expected

  abbrev pub checks : ReleaseConfig → Bytes × Bytes → Act (ReleaseError E) (Unit {0})
  checks cfg (binary, expected) =
      check_version binary expected
      >> (lifted backend_failed (start_backend w.backend cfg)
          >> run_probes binary cfg.probe_timeout (probe_specs cfg))

  -- The deferred cleanup covers what comes behind the extraction; what comes before it registers
  -- nothing when it fails.
  unfoldable pub run : ReleaseConfig → Act (ReleaseError E) (Unit {0})
  unfolding binary_of assert_version start_backend run_probes probe_specs
  run cfg = cleaning (binary_of cfg >>= λ found. checks cfg found)

  abbrev pub exit_of_run : Result (ReleaseError E) (Unit {0}) → ℕ
  exit_of_run (ok u) = 0
  exit_of_run (err e) = 1

  abbrev pub validated : ReleaseConfig → Result ConfigError (Unit {0}) → ℕ × List Event
  validated cfg (err e) = (2, [])
  validated cfg (ok u) = (exit_of_run (run cfg).result, (run cfg).events)

  -- `runCLI`, with what Go's `flag` makes of the arguments: the exit code, and what was done.
  unfoldable pub run_cli : Result E ReleaseConfig → ℕ × List Event
  unfolding validate_config run
  run_cli (err e) = (2, [])
  run_cli (ok cfg) = validated cfg (validate_config cfg)
