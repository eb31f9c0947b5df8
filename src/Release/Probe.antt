-- ===== src/Release/Probe.antt =====
-- cmd/release-integration/main.go: the arguments of `runProbe`.
pub mod Scanned
pub mod Asked
use minecraft_ping.Base.{
  ℕ, ◌*◌, ◌≡◌, refl, ◌∙◌, ap, Bool, true, false, not, ◌||◌, List, [], ◌∷◌, ◌++◌, Bytes,
  if◌then◌else◌, bytes_eq, All, Result, ok, err, some, none, Option, ◌≤◌, ◌≢◌, suc, arith, ltb,
}
use minecraft_ping.Base.Int.{ℤ, pos, negsuc}
use minecraft_ping.Text.{codes, decimal, trim_right, has_prefix, index_byte, trim_space}
use minecraft_ping.Net.{join_host_port}
use minecraft_ping.Address.Errors.{AddressFamily, family4, family6}
use minecraft_ping.Address.Edition.{
  Edition, java, bedrock, TargetSpec, parse_destination, validate_target,
}
use minecraft_ping.Cli.{
  RawCliConfig, ParseStatus, status_ok, no_arguments, scan_argv, scan_loop, scan_arg,
  consume_long_flag, consume_short_flags, short_flag, short_loop,
}
use minecraft_ping.Cli.Config.{
  CliConfig, Numbers, parse_cli_config, normalize_cli_config, normalize_options,
  parse_seconds_duration, max_allowed_timeout, second, max_int64, duration_of, timeout_of,
  target_of, family_of, edition_of, count_of, json_excludes, after_scan,
}
use minecraft_ping.Release.Config.{ReleaseConfig, ProbeSpec, probe_specs}

-- The text of `strconv.FormatFloat(timeout.Seconds(), 'f', 3, 64)` is a parameter.
unfoldable pub format_probe_timeout : (ℤ → Bytes) → ℤ → Bytes
format_probe_timeout format_seconds timeout =
    trim_right b'.' (trim_right b'0' (format_seconds timeout))

abbrev pub destination : ProbeSpec → Bytes
destination spec = join_host_port spec.host (decimal spec.port)

unfoldable pub probe_args : (ℤ → Bytes) → ℤ → ProbeSpec → List Bytes
probe_args format_seconds timeout spec =
    (codes "-j"
      ∷ codes "--allow-private"
      ∷ codes "-W"
      ∷ format_probe_timeout format_seconds timeout
      ∷ [])
    ++ ((if bytes_eq spec.edition_arg [] then [] else spec.edition_arg ∷ [])
        ++ (spec.family_flag ∷ destination spec ∷ []))
