-- ===== src/Cli/Accepted.antt =====
-- cli.go: what is known of a configuration that is accepted.
use mathlib.Core.Path.{subst}
use minecraft_ping.Base.{
  ℕ, ◌≡◌, ◌≤◌, refl, sym, ◌∙◌, Bool, false, List, Bytes, ltb, Result, ok, err, >>=-eq-ok, arith,
  Bool-cases, inl, inr, ◌⊎◌,
}
use minecraft_ping.Address.Errors.{Error}
use minecraft_ping.Address.Edition.{TargetSpec, parse_destination, validate_target}
use minecraft_ping.Address.Edition.Valid.{IsValidTarget, validate_target-IsValidTarget}
use minecraft_ping.Cli.{
  RawCliConfig, ParseStatus, status_ok, status_help, status_invalid, scan_argv,
}
use minecraft_ping.Cli.Config.{
  timeout_of, second, max_allowed_timeout, max_int64, CliConfig, Numbers, family_of, edition_of,
  target_of, accepted_target, validated, count_of, duration_of, json_excludes, version_config,
  normalize_options, normalize_cli_config, after_scan, parse_cli_config, given,
}
use minecraft_ping.Cli.Durations.{timeout_of-bounds, duration_of-bounds, within, default_duration}

-- What is known of an accepted configuration.
pub record IsAccepted (cfg : CliConfig) : Type 0 where
  pub target : IsValidTarget cfg.target
  pub interval : (1 ≤ cfg.interval) × (cfg.interval ≤ max_int64)
  pub deadline : cfg.deadline ≤ max_int64
  pub timeout : (1 ≤ cfg.timeout) × (cfg.timeout ≤ max_allowed_timeout)
  pub json_alone :
      (cfg.json ≡ false)
      ⊎ ((cfg.count ≡ 0)
          × (cfg.interval ≡ second)
          × (cfg.deadline ≡ 0)
          × (cfg.quiet ≡ false)
          × (cfg.timestamp ≡ false))

accepted_target-IsValidTarget :
    (r : Result Error TargetSpec) (t : TargetSpec) → accepted_target r ≡ ok t → IsValidTarget t
accepted_target-IsValidTarget (err e) t h = cc
accepted_target-IsValidTarget (ok u) t h = of_verdict (validate_target u) refl h
  where
    of_verdict :
        (v : Result Error (Unit {0}))
        → validate_target u ≡ v
        → validated u v ≡ ok t
        → IsValidTarget t
    of_verdict (err e) is k = cc
    of_verdict (ok x) is k =
        let same : u ≡ t = ground arith in
        subst IsValidTarget same (validate_target-IsValidTarget u (is ∙ refl))

target_of-IsValidTarget :
    (raw : RawCliConfig) (t : TargetSpec) → target_of raw ≡ ok t → IsValidTarget t
target_of-IsValidTarget raw t h =
    accepted_target-IsValidTarget (parse_destination raw.destination) t (ground arith)

-- What the last step of `normalizeCLIConfig` is given.
json_alone-of :
    (raw : RawCliConfig) (count interval deadline : ℕ)
    → json_excludes raw count ≡ false
    → (given raw.interval ≡ false → interval ≡ second)
    → (given raw.deadline ≡ false → deadline ≡ 0)
    → (raw.json ≡ false)
      ⊎ ((count ≡ 0)
          × (interval ≡ second)
          × (deadline ≡ 0)
          × (raw.quiet ≡ false)
          × (raw.timestamp ≡ false))
json_alone-of raw count interval deadline h of_i of_d = elim (Bool-cases raw.json) [
  | inr off ↦ inl off
  | inl on ↦
      let none_given : (given raw.interval ≡ false)
          × (given raw.deadline ≡ false)
          × (raw.quiet ≡ false)
          × (raw.timestamp ≡ false)
          × (ltb 0 count ≡ false) =
        ground arith in
      inr (
        ground (arith, none_given),
        of_i none_given.0,
        of_d none_given.1,
        none_given.2,
        none_given.3,
      )
]

normalize_options-IsAccepted :
    (numbers : Numbers) (raw : RawCliConfig) (cfg : CliConfig)
    → normalize_options numbers raw ≡ ok cfg
    → IsAccepted cfg
unfolding normalize_options
normalize_options-IsAccepted numbers raw cfg h =
    let (family, f, h1) = >>=-eq-ok (family_of raw) _ h in
    let (edition, e, h2) = >>=-eq-ok (edition_of raw) _ h1 in
    let (target, t, h3) = >>=-eq-ok (target_of raw) _ h2 in
    let (count, c, h4) = >>=-eq-ok (count_of raw) _ h3 in
    let (interval, i, h5) = >>=-eq-ok (duration_of numbers second raw.interval) _ h4 in
    let (deadline, d, h6) = >>=-eq-ok (duration_of numbers 0 raw.deadline) _ h5 in
    let (timeout, w, h7) = >>=-eq-ok (timeout_of numbers raw.timeout) _ h6 in
    let built : CliConfig = record {
      target = target;
      edition = edition;
      options = record { address_family = family; allow_private_addresses = raw.allow_private };
      count = count;
      interval = interval;
      deadline = deadline;
      timeout = timeout;
      quiet = raw.quiet;
      timestamp = raw.timestamp;
      numeric = raw.numeric;
      json = raw.json;
      show_version = false;
    } in
    let same : built ≡ cfg = ground arith in
    let apart : json_excludes raw count ≡ false = ground arith in
    let i' = duration_of-bounds numbers second raw.interval interval i in
    let d' = duration_of-bounds numbers 0 raw.deadline deadline d in
    subst IsAccepted same (record {
      target = target_of-IsValidTarget raw target t;
      interval =
          within interval second max_int64 (given raw.interval) (omega arith) (omega arith) i';
      deadline = at_most deadline (given raw.deadline) d';
      timeout = timeout_of-bounds numbers raw.timeout timeout w;
      json_alone =
          json_alone-of raw count interval deadline apart
            (default_duration numbers second raw.interval interval i)
            (default_duration numbers 0 raw.deadline deadline d);
    })
  where
    at_most :
        (deadline : ℕ) (g : Bool)
        → ((g ≡ false) × (deadline ≡ 0)) ⊎ ((1 ≤ deadline) × (deadline ≤ max_int64))
        → deadline ≤ max_int64
    at_most deadline g (inl (_, e)) = omega arith
    at_most deadline g (inr b) = b.1

-- Arguments that are accepted ask for the version alone, or give a configuration with a valid
-- target, an interval and a timeout that are not 0, a timeout of 30 seconds at most, durations of
-- 63 bits, and, where the output is JSON, without a count, an interval, a deadline, `-q` and `-D`.
pub parse_cli_config-IsAccepted :
    (numbers : Numbers) (args : List Bytes) (cfg : CliConfig)
    → parse_cli_config numbers args ≡ ok cfg
    → (cfg ≡ version_config) ⊎ IsAccepted cfg
unfolding parse_cli_config normalize_cli_config
parse_cli_config-IsAccepted numbers args cfg h = of_scan (scan_argv args) h
  where
    of_raw :
        (raw : RawCliConfig)
        → normalize_cli_config numbers raw ≡ ok cfg
        → (cfg ≡ version_config) ⊎ IsAccepted cfg
    of_raw raw k = elim (Bool-cases raw.show_version) [
      | inl on ↦ let same : version_config ≡ cfg = ground arith in inl (sym same)
      | inr off ↦ inr (normalize_options-IsAccepted numbers raw cfg (ground arith))
    ]

    of_scan :
        (s : RawCliConfig × ParseStatus)
        → after_scan numbers s ≡ ok cfg
        → (cfg ≡ version_config) ⊎ IsAccepted cfg
    of_scan (raw, status_ok) k = of_raw raw k
    of_scan (raw, status_help) k = cc
    of_scan (raw, status_invalid) k = cc
