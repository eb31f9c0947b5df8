-- ===== src/Cli.antt =====
-- cli.go: the arguments of the program.
pub mod Config
pub mod Durations
pub mod Accepted
pub mod Run
pub mod Exit
pub mod Guarded
pub mod RoundTrip
use minecraft_ping.Base.{
  ℕ, suc, ◌+◌, ◌≡◌, refl, Bool, true, false, not, ◌&&◌, ◌||◌, List, [], ◌∷◌, Bytes, take, drop,
  length, ltb, ◌==◌, if◌then◌else◌, Option, none, some, bytes_eq,
}
use minecraft_ping.Text.{codes, has_prefix, index_byte, trim_space}

pub data ParseStatus : Type 0 where
  status_ok status_help status_invalid : ParseStatus

pub record RawCliConfig : Type 0 where
  pub destination : Bytes
  pub edition : Bytes
  pub edition_set : Bool
  pub java_alias : Bool
  pub bedrock_alias : Bool
  pub force_ipv4 : Bool
  pub force_ipv6 : Bool
  pub count : Bytes
  pub interval : Bytes
  pub deadline : Bytes
  pub timeout : Bytes
  pub quiet : Bool
  pub timestamp : Bool
  pub numeric : Bool
  pub json : Bool
  pub allow_private : Bool
  pub show_help : Bool
  pub show_version : Bool

-- What a flag does: `consumed` says whether it took the argument behind it as its value.
pub data Consumed : Type 0 where
  refused : Consumed
  consumed : RawCliConfig → Bool → Consumed

abbrev pub blank : Bytes → Bool
blank value = bytes_eq (trim_space value) []

abbrev pub edition_value : RawCliConfig → Bytes → Bool → Consumed
edition_value raw value takes_next =
    if blank value
    then refused
    else consumed (record raw { edition = value; edition_set = true }) takes_next

abbrev pub edition_flag : RawCliConfig → Option Bytes → List Bytes → Consumed
edition_flag raw (some value) rest =
    if bytes_eq value [] then refused else edition_value raw value false
edition_flag raw none [] = refused
edition_flag raw none (value ∷ rest) = edition_value raw value true

-- A flag that takes no value.
abbrev pub plain_flag : RawCliConfig → Option Bytes → Consumed
plain_flag raw (some value) = refused
plain_flag raw none = consumed raw false

abbrev pub long_flag : RawCliConfig → Bytes → Option Bytes → List Bytes → Consumed
long_flag raw name inline rest =
    if bytes_eq name (codes "--edition")
    then edition_flag raw inline rest
    else if bytes_eq name (codes "--java")
    then plain_flag (record raw { java_alias = true }) inline
    else if bytes_eq name (codes "--allow-private")
    then plain_flag (record raw { allow_private = true }) inline
    else if bytes_eq name (codes "--bedrock")
    then plain_flag (record raw { bedrock_alias = true }) inline
    else if bytes_eq name (codes "--help")
    then plain_flag (record raw { show_help = true }) inline
    else if bytes_eq name (codes "--version")
    then plain_flag (record raw { show_version = true }) inline
    else refused

-- `rest` are the arguments behind `arg`.
unfoldable pub consume_long_flag : RawCliConfig → Bytes → List Bytes → Consumed
consume_long_flag raw arg rest = elim (index_byte b'=' arg) [
  | none ↦ long_flag raw arg none rest
  | some eq ↦ long_flag raw (take eq arg) (some (drop (eq + 1) arg)) rest
]

-- What the letter of a short flag does.
pub data ShortFlag : Type 0 where
  sets : RawCliConfig → ShortFlag
  takes_value : (Bytes → RawCliConfig) → ShortFlag
  unknown : ShortFlag

unfoldable pub short_flag : RawCliConfig → ℕ → ShortFlag
short_flag raw c =
    if c == b'4'
    then sets (record raw { force_ipv4 = true })
    else if c == b'6'
    then sets (record raw { force_ipv6 = true })
    else if c == b'q'
    then sets (record raw { quiet = true })
    else if c == b'D'
    then sets (record raw { timestamp = true })
    else if c == b'n'
    then sets (record raw { numeric = true })
    else if c == b'j'
    then sets (record raw { json = true })
    else if c == b'V'
    then sets (record raw { show_version = true })
    else if c == b'h'
    then sets (record raw { show_help = true })
    else if c == b'c'
    then takes_value (λ value. record raw { count = value })
    else if c == b'i'
    then takes_value (λ value. record raw { interval = value })
    else if c == b'w'
    then takes_value (λ value. record raw { deadline = value })
    else if c == b'W'
    then takes_value (λ value. record raw { timeout = value })
    else unknown

abbrev pub flag_value : (Bytes → RawCliConfig) → Bytes → List Bytes → Consumed
flag_value set (c ∷ cs) rest = consumed (set (c ∷ cs)) false
flag_value set [] [] = refused
flag_value set [] (value ∷ rest) = consumed (set value) true

-- The letters of `arg[pos:]`.
unfoldable pub short_loop : RawCliConfig → Bytes → List Bytes → Consumed
unfolding short_flag
short_loop raw [] rest = consumed raw false
short_loop raw (c ∷ cs) rest = elim (short_flag raw c) [
  | sets raw' ↦ short_loop raw' cs rest
  | takes_value set ↦ flag_value set cs rest
  | unknown ↦ refused
]

unfoldable pub consume_short_flags : RawCliConfig → Bytes → List Bytes → Consumed
unfolding short_loop
consume_short_flags raw arg rest = short_loop raw (drop 1 arg) rest

-- What one turn of the loop of `scanArgv` does: it returns, it leaves the loop, or it goes on, with
-- or without the argument behind the one that it looked at.
pub data Scanned : Type 0 where
  returns : RawCliConfig → Scanned
  leaves : RawCliConfig → Scanned
  goes_on : RawCliConfig → Bool → Scanned

abbrev pub after_flag : RawCliConfig → Consumed → Scanned
after_flag raw refused = returns raw
after_flag raw (consumed raw' takes_next) =
    if raw'.show_help || raw'.show_version then leaves raw' else goes_on raw' takes_next

abbrev pub last_destination : RawCliConfig → List Bytes → Scanned
last_destination raw [] = returns raw
last_destination raw (value ∷ []) =
    if not (bytes_eq raw.destination [])
    then returns raw
    else goes_on (record raw { destination = value }) true
last_destination raw (value ∷ more ∷ rest) =
    if not (bytes_eq raw.destination [])
    then returns raw
    else returns (record raw { destination = value })

abbrev pub destination_arg : RawCliConfig → Bytes → Scanned
destination_arg raw arg =
    if not (bytes_eq raw.destination [])
    then returns raw
    else goes_on (record raw { destination = arg }) false

unfoldable pub scan_arg : RawCliConfig → Bytes → List Bytes → Scanned
unfolding consume_long_flag consume_short_flags
scan_arg raw arg rest =
    if bytes_eq arg []
    then returns raw
    else if bytes_eq arg (codes "--")
    then last_destination raw rest
    else if not (has_prefix arg (codes "-")) || bytes_eq arg (codes "-")
    then destination_arg raw arg
    else if has_prefix arg (codes "--")
    then after_flag raw (consume_long_flag raw arg rest)
    else after_flag raw (consume_short_flags raw arg rest)

abbrev pub scan_end : RawCliConfig → RawCliConfig × ParseStatus
scan_end raw = if raw.show_help then (raw, status_help) else (raw, status_ok)

-- The first argument is skipped where the flag in front of it took it as its value.
unfoldable pub scan_loop : Bool → RawCliConfig → List Bytes → RawCliConfig × ParseStatus
unfolding scan_arg
scan_loop skip raw [] = scan_end raw
scan_loop true raw (arg ∷ rest) = scan_loop false raw rest
scan_loop false raw (arg ∷ rest) = elim (scan_arg raw arg rest) [
  | returns raw' ↦ (raw', status_invalid)
  | leaves raw' ↦ scan_end raw'
  | goes_on raw' takes_next ↦ scan_loop takes_next raw' rest
]

abbrev pub no_arguments : RawCliConfig
no_arguments = record {
  destination = [];
  edition = [];
  edition_set = false;
  java_alias = false;
  bedrock_alias = false;
  force_ipv4 = false;
  force_ipv6 = false;
  count = [];
  interval = [];
  deadline = [];
  timeout = [];
  quiet = false;
  timestamp = false;
  numeric = false;
  json = false;
  allow_private = false;
  show_help = false;
  show_version = false;
}

unfoldable pub scan_argv : List Bytes → RawCliConfig × ParseStatus
unfolding scan_loop
scan_argv args = scan_loop false no_arguments args

test_scan :
    scan_argv (codes "-4qc3" ∷ codes "--edition=java" ∷ codes "-W" ∷ codes "2" ∷ codes "h" ∷ []) ≡ (
      record no_arguments {
        force_ipv4 = true;
        quiet = true;
        count = codes "3";
        edition = codes "java";
        edition_set = true;
        timeout = codes "2";
        destination = codes "h";
      },
      status_ok,
    )
unfolding scan_argv bytes_eq has_prefix index_byte trim_space
test_scan = refl
