-- ===== src/Cli/Config.antt =====
-- cli.go: the configuration that the arguments stand for. Durations are nanoseconds.
use minecraft_ping.Base.{
  ℕ, ◌+◌, ◌*◌, ◌-◌, ◌/◌, ◌^◌, Bool, true, false, not, ◌&&◌, ◌||◌, List, [], Bytes, ltb, ◌==◌,
  if◌then◌else◌, Option, none, some, Result, ok, err, bytes_eq, ◌>>=◌,
}
use minecraft_ping.Base.Int.{ℤ, pos, negsuc}
use minecraft_ping.Text.{trim_space, atoi}
use minecraft_ping.Address.Errors.{Error, AddressFamily, family_any, family4, family6}
use minecraft_ping.Address.Endpoint.{PingOptions}
use minecraft_ping.Address.Edition.{
  Edition, java, bedrock, parse_edition, TargetSpec, parse_destination, validate_target,
}
use minecraft_ping.Cli.{
  RawCliConfig, ParseStatus, status_ok, status_help, status_invalid, scan_argv,
}

abbrev pub second : ℕ
second = 1_000_000_000

abbrev pub max_allowed_timeout : ℕ
max_allowed_timeout = 30 * second

-- A count and a deadline of 0 stand for none.
pub record CliConfig : Type 0 where
  pub target : TargetSpec
  pub edition : Edition
  pub options : PingOptions
  pub count : ℕ
  pub interval : ℕ
  pub deadline : ℕ
  pub timeout : ℕ
  pub quiet : Bool
  pub timestamp : Bool
  pub numeric : Bool
  pub json : Bool
  pub show_version : Bool

-- What `strconv.ParseFloat` and `big.Rat.SetString` make of a text: whether the first succeeds with
-- a finite value above 0, and the numerator and the denominator of the second.
pub record Numbers : Type 0 where
  pub positive_float : Bytes → Bool
  pub rational : Bytes → Option (ℤ × ℕ)

abbrev pub max_int64 : ℕ
max_int64 = 2 ^ 63 - 1

-- The quotient of `nanoseconds`, if it is a positive int64.
abbrev pub whole_nanoseconds : ℕ → ℕ → Option ℕ
whole_nanoseconds numerator denominator =
    if ltb (max_int64 * denominator) numerator
    then none
    else (let duration = numerator / denominator in
        if duration == 0 || ltb max_int64 duration then none else some duration)

abbrev pub rational_seconds : Option (ℤ × ℕ) → Option ℕ
rational_seconds none = none
rational_seconds (some (negsuc n, denominator)) = none
rational_seconds (some (pos numerator, denominator)) =
    if numerator == 0 then none else whole_nanoseconds (numerator * second) denominator

unfoldable pub parse_seconds_duration : Numbers → Bytes → Option ℕ
parse_seconds_duration numbers raw =
    let text = trim_space raw in
    if not (numbers.positive_float text) then none else rational_seconds (numbers.rational text)

-- `cliConfig{}, parseStatusInvalid` is the error; each field's step is named for it.
abbrev pub Normalized : Type 0 → Type 0
Normalized A = Result ParseStatus A

abbrev pub family_of : RawCliConfig → Normalized AddressFamily
family_of raw =
    if raw.force_ipv4 && raw.force_ipv6
    then err status_invalid
    else if raw.force_ipv4
    then ok family4
    else if raw.force_ipv6
    then ok family6
    else ok family_any

abbrev pub one_if : Bool → ℕ
one_if b = if b then 1 else 0

abbrev pub edition_set_count : RawCliConfig → ℕ
edition_set_count raw = one_if raw.edition_set + (one_if raw.java_alias + one_if raw.bedrock_alias)

abbrev pub accepted_edition : Result Error Edition → Normalized Edition
accepted_edition (ok e) = ok e
accepted_edition (err e) = err status_invalid

abbrev pub edition_of : RawCliConfig → Normalized Edition
edition_of raw =
    if ltb 1 (edition_set_count raw)
    then err status_invalid
    else if raw.java_alias
    then ok java
    else if raw.bedrock_alias
    then ok bedrock
    else if raw.edition_set
    then accepted_edition (parse_edition raw.edition)
    else ok java

abbrev pub validated : TargetSpec → Result Error (Unit {0}) → Normalized TargetSpec
validated target (ok u) = ok target
validated target (err e) = err status_invalid

abbrev pub accepted_target : Result Error TargetSpec → Normalized TargetSpec
accepted_target (ok target) = validated target (validate_target target)
accepted_target (err e) = err status_invalid

abbrev pub target_of : RawCliConfig → Normalized TargetSpec
target_of raw =
    if bytes_eq raw.destination []
    then err status_invalid
    else accepted_target (parse_destination raw.destination)

abbrev pub accepted_count : Option ℤ → Normalized ℕ
accepted_count none = err status_invalid
accepted_count (some (negsuc n)) = err status_invalid
accepted_count (some (pos n)) = if n == 0 then err status_invalid else ok n

abbrev pub count_of : RawCliConfig → Normalized ℕ
count_of raw = if bytes_eq raw.count [] then ok 0 else accepted_count (atoi raw.count)

-- A duration that is not given has its default.
abbrev pub accepted_duration : Option ℕ → Normalized ℕ
accepted_duration none = err status_invalid
accepted_duration (some d) = ok d

abbrev pub accepted_timeout : Option ℕ → Normalized ℕ
accepted_timeout none = err status_invalid
accepted_timeout (some d) = if ltb max_allowed_timeout d then err status_invalid else ok d

abbrev pub duration_of : Numbers → ℕ → Bytes → Normalized ℕ
duration_of numbers default raw =
    if bytes_eq raw [] then ok default else accepted_duration (parse_seconds_duration numbers raw)

abbrev pub timeout_of : Numbers → Bytes → Normalized ℕ
timeout_of numbers raw =
    if bytes_eq raw []
    then ok (5 * second)
    else accepted_timeout (parse_seconds_duration numbers raw)

abbrev pub given : Bytes → Bool
given raw = not (bytes_eq raw [])

abbrev pub json_excludes : RawCliConfig → ℕ → Bool
json_excludes raw count =
    raw.json
    && (ltb 0 count || (given raw.interval || (given raw.deadline || (raw.quiet || raw.timestamp))))

abbrev pub no_target : TargetSpec
no_target = record { host = []; port = pos 0; port_explicit = false }

abbrev pub version_config : CliConfig
version_config = record {
  target = no_target;
  edition = java;
  options = record { address_family = family_any; allow_private_addresses = false };
  count = 0;
  interval = second;
  deadline = 0;
  timeout = 5 * second;
  quiet = false;
  timestamp = false;
  numeric = false;
  json = false;
  show_version = true;
}

-- Behind the test for `--version`.
unfoldable pub normalize_options : Numbers → RawCliConfig → Normalized CliConfig
normalize_options numbers raw = family_of raw >>= λ family. edition_of raw >>= λ edition.
    target_of raw >>= λ target. count_of raw >>= λ count.
    duration_of numbers second raw.interval >>= λ interval.
    duration_of numbers 0 raw.deadline >>= λ deadline. timeout_of numbers raw.timeout >>= λ timeout.
    if json_excludes raw count
    then err status_invalid
    else ok (record {
      target = target;
      edition = edition;
      options = record { address_family = family; allow_private_addresses = raw.allow_private };
      count = count;
      interval = interval;
      deadline = deadline;
      timeout = timeout;
      quiet = raw.quiet;
      timestamp = raw.timestamp;
      numeric = raw.numeric;
      json = raw.json;
      show_version = false;
    })

unfoldable pub normalize_cli_config : Numbers → RawCliConfig → Normalized CliConfig
normalize_cli_config numbers raw =
    if raw.show_version then ok version_config else normalize_options numbers raw

abbrev pub after_scan : Numbers → RawCliConfig × ParseStatus → Normalized CliConfig
after_scan numbers (raw, status_ok) = normalize_cli_config numbers raw
after_scan numbers (raw, status_help) = err status_help
after_scan numbers (raw, status_invalid) = err status_invalid

unfoldable pub parse_cli_config : Numbers → List Bytes → Normalized CliConfig
unfolding scan_argv normalize_cli_config
parse_cli_config numbers args = after_scan numbers (scan_argv args)
