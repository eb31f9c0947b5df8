-- ===== src/Release/Probe/Asked.antt =====
-- cmd/release-integration/main.go, cli.go: what the command line makes of the arguments of
-- `runProbe`.
use minecraft_ping.Base.{
  ℕ, ◌≡◌, refl, ◌∙◌, ap, Bool, true, false, [], ◌∷◌, Bytes, if◌then◌else◌, bytes_eq, All, ok, some,
  ltb,
}
use minecraft_ping.Base.Int.{ℤ}
use minecraft_ping.Text.{codes}
use minecraft_ping.Address.Errors.{AddressFamily, family4, family6}
use minecraft_ping.Address.Edition.{
  Edition, java, bedrock, TargetSpec, parse_destination, validate_target,
}
use minecraft_ping.Cli.{RawCliConfig}
use minecraft_ping.Cli.Config.{
  CliConfig, Numbers, parse_cli_config, normalize_cli_config, normalize_options,
  parse_seconds_duration, max_allowed_timeout, second, duration_of, timeout_of, target_of,
  family_of, edition_of, count_of, json_excludes, after_scan,
}
use minecraft_ping.Release.Config.{ReleaseConfig, ProbeSpec, probe_specs}
use minecraft_ping.Release.Probe.{format_probe_timeout, destination, probe_args}
use minecraft_ping.Release.Probe.Scanned.{
  PlainHost, IsWord, destination-IsWord, asked, spec_of, scans_spec,
}

-- What the command line needs of the configuration to take the arguments of a probe: a host that is
-- no flag, a destination and a timeout that it accepts.
pub record IsAskable (numbers : Numbers) (format_seconds : ℤ → Bytes) (timeout : ℤ)
    (spec : ProbeSpec) : Type 0 where
  pub plain : PlainHost spec.host
  pub target : TargetSpec
  pub parses : parse_destination (destination spec) ≡ ok target
  pub valid : validate_target target ≡ ok tt
  pub duration : ℕ
  pub timeout_given : bytes_eq (format_probe_timeout format_seconds timeout) [] ≡ false
  pub reads :
      parse_seconds_duration numbers (format_probe_timeout format_seconds timeout) ≡ some duration
  pub within : ltb max_allowed_timeout duration ≡ false

abbrev edition_for : Bytes → Edition
edition_for [] = java
edition_for (c ∷ cs) = bedrock

abbrev family_for : Bytes → AddressFamily
family_for flag = if bytes_eq flag (codes "-6") then family6 else family4

-- The configuration that `cli.go` makes of the arguments.
pub record IsAsked (numbers : Numbers) (format_seconds : ℤ → Bytes) (timeout : ℤ) (spec : ProbeSpec)
    : Type 0 where
  pub config : CliConfig
  pub accepted : parse_cli_config numbers (probe_args format_seconds timeout spec) ≡ ok config
  pub one_json_result : (config.json ≡ true) × (config.show_version ≡ false) × (config.count ≡ 0)
  pub private_allowed : config.options.allow_private_addresses ≡ true
  pub same_edition : config.edition ≡ edition_for spec.edition_arg
  pub same_family : config.options.address_family ≡ family_for spec.family_flag
  pub same_target : parse_destination (destination spec) ≡ ok config.target

target-accepted :
    (raw : RawCliConfig) (word : Bytes) (target : TargetSpec)
    → IsWord word
    → parse_destination word ≡ ok target
    → validate_target target ≡ ok tt
    → target_of (record raw { destination = word }) ≡ ok target
unfolding bytes_eq
target-accepted raw [] target w parses valid = elim w [ ]
target-accepted raw (c ∷ cs) target w parses valid = rw (parses, valid)

module _ (numbers : Numbers) (format_seconds : ℤ → Bytes) (timeout : ℤ) where
  abbrev config_for : Bool → Bool → TargetSpec → ℕ → CliConfig
  config_for is_bedrock is_ipv6 target duration = record {
    target = target;
    edition = if is_bedrock then bedrock else java;
    options = record {
      address_family = if is_ipv6 then family6 else family4;
      allow_private_addresses = true;
    };
    count = 0;
    interval = second;
    deadline = 0;
    timeout = duration;
    quiet = false;
    timestamp = false;
    numeric = false;
    json = true;
    show_version = false;
  }

  duration-accepted :
      (text : Bytes) (duration : ℕ)
      → bytes_eq text [] ≡ false
      → parse_seconds_duration numbers text ≡ some duration
      → ltb max_allowed_timeout duration ≡ false
      → timeout_of numbers text ≡ ok duration
  duration-accepted text duration some_text reads within = rw (some_text, reads, within) refl

  -- The steps of `normalizeCLIConfig`, where each is accepted.
  normalizes :
      (raw : RawCliConfig) {family : AddressFamily} {edition : Edition} {target : TargetSpec}
      {interval deadline duration : ℕ}
      → family_of raw ≡ ok family
      → edition_of raw ≡ ok edition
      → target_of raw ≡ ok target
      → count_of raw ≡ ok 0
      → duration_of numbers second raw.interval ≡ ok interval
      → duration_of numbers 0 raw.deadline ≡ ok deadline
      → timeout_of numbers raw.timeout ≡ ok duration
      → json_excludes raw 0 ≡ false
      → normalize_options numbers raw
        ≡ ok (record {
          target = target;
          edition = edition;
          options = record { address_family = family; allow_private_addresses = raw.allow_private };
          count = 0;
          interval = interval;
          deadline = deadline;
          timeout = duration;
          quiet = raw.quiet;
          timestamp = raw.timestamp;
          numeric = raw.numeric;
          json = raw.json;
          show_version = false;
        })
  unfolding normalize_options
  normalizes raw f e t c i d w j = rw (f, e, t, c, i, d, w, j) refl

  asked-family :
      (is_bedrock is_ipv6 : Bool) (spec : ProbeSpec)
      → family_of (asked format_seconds timeout spec is_bedrock is_ipv6)
        ≡ ok (if is_ipv6 then family6 else family4)
  asked-family is_bedrock true spec = refl
  asked-family is_bedrock false spec = refl

  asked-edition :
      (is_bedrock is_ipv6 : Bool) (spec : ProbeSpec)
      → edition_of (asked format_seconds timeout spec is_bedrock is_ipv6)
        ≡ ok (if is_bedrock then bedrock else java)
  asked-edition true is_ipv6 spec = refl
  asked-edition false is_ipv6 spec = refl

  normalized :
      (is_bedrock is_ipv6 : Bool) (label host : Bytes) (port : ℤ)
      (h : IsAskable numbers format_seconds timeout (spec_of is_bedrock is_ipv6 label host port))
      → normalize_cli_config numbers (
          asked format_seconds timeout
            (spec_of is_bedrock is_ipv6 label host port)
            is_bedrock
            is_ipv6)
        ≡ ok (config_for is_bedrock is_ipv6 h.target h.duration)
  unfolding normalize_cli_config bytes_eq
  normalized is_bedrock is_ipv6 label host port h =
      let spec = spec_of is_bedrock is_ipv6 label host port in
      let raw = asked format_seconds timeout spec is_bedrock is_ipv6 in
      normalizes raw (asked-family is_bedrock is_ipv6 spec) (asked-edition is_bedrock is_ipv6 spec)
        (target-accepted raw (destination spec) h.target (destination-IsWord spec h.plain) h.parses
          h.valid)
        refl refl refl (duration-accepted raw.timeout h.duration h.timeout_given h.reads h.within)
        refl

  same_edition :
      (b : Bool) → (if b then bedrock else java) ≡ edition_for (if b then codes "--bedrock" else [])
  same_edition true = refl
  same_edition false = refl

  same_family :
      (b : Bool)
      → (if b then family6 else family4) ≡ family_for (if b then codes "-6" else codes "-4")
  unfolding bytes_eq
  same_family true = refl
  same_family false = refl

  accepted-IsAsked :
      (is_bedrock is_ipv6 : Bool) (label host : Bytes) (port : ℤ)
      → IsAskable numbers format_seconds timeout (spec_of is_bedrock is_ipv6 label host port)
      → IsAsked numbers format_seconds timeout (spec_of is_bedrock is_ipv6 label host port)
  unfolding parse_cli_config
  accepted-IsAsked is_bedrock is_ipv6 label host port h =
      let spec = spec_of is_bedrock is_ipv6 label host port in
      record {
        config = config_for is_bedrock is_ipv6 h.target h.duration;
        accepted =
            ap (after_scan numbers)
              (scans_spec format_seconds timeout is_bedrock is_ipv6 label host port h.plain)
            ∙ normalized is_bedrock is_ipv6 label host port h;
        one_json_result = (refl, refl, refl);
        private_allowed = refl;
        same_edition = same_edition is_bedrock;
        same_family = same_family is_ipv6;
        same_target = h.parses;
      }

  -- For each of the four probes of a release configuration whose host is no flag and whose
  -- destination and timeout the command line accepts, `cli.go` takes the arguments of `runProbe`
  -- as a request for one result in JSON, of the edition and the family of the probe, that may dial
  -- a private address, and whose target is the destination of the probe.
  pub probe_args-IsAsked :
      (cfg : ReleaseConfig)
      → All (IsAskable numbers format_seconds timeout) (probe_specs cfg)
      → All (IsAsked numbers format_seconds timeout) (probe_specs cfg)
  unfolding probe_specs
  probe_args-IsAsked cfg h = (
    accepted-IsAsked false false _ _ _ h.0,
    (
      accepted-IsAsked false true _ _ _ h.1.0,
      (accepted-IsAsked true false _ _ _ h.1.1.0, (accepted-IsAsked true true _ _ _ h.1.1.1.0, tt)),
    ),
  )
