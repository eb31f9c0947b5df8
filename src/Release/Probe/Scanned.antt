-- ===== src/Release/Probe/Scanned.antt =====
-- cmd/release-integration/main.go, cli.go: `scanArgv` on the arguments of `runProbe`.
use minecraft_ping.Base.{
  ◌≡◌, refl, Bool, true, false, not, [], ◌∷◌, Bytes, if◌then◌else◌, bytes_eq, ◌≢◌, arith,
}
use minecraft_ping.Base.Int.{ℤ}
use minecraft_ping.Text.{codes, decimal, has_prefix, index_byte}
use minecraft_ping.Net.{join_host_port}
use minecraft_ping.Cli.{
  RawCliConfig, status_ok, no_arguments, scan_argv, scan_loop, scan_arg, consume_long_flag,
  consume_short_flags, short_flag, short_loop,
}
use minecraft_ping.Release.Config.{ProbeSpec}
use minecraft_ping.Release.Probe.{format_probe_timeout, destination, probe_args}

abbrev pub PlainHost : Bytes → Type 0
PlainHost host = (host ≢ []) × (has_prefix host (codes "-") ≡ false)

-- A word that `scanArgv` takes for the destination.
abbrev pub IsWord : Bytes → Type 0
IsWord [] = ⊥
IsWord (c ∷ cs) = c ≢ b'-'

pub destination-IsWord : (spec : ProbeSpec) → PlainHost spec.host → IsWord (destination spec)
unfolding join_host_port has_prefix
destination-IsWord spec (some_host, h) = go spec.host some_host h
  where
    go :
        (host : Bytes)
        → host ≢ []
        → has_prefix host (codes "-") ≡ false
        → IsWord (join_host_port host (decimal spec.port))
    go [] none_given k = absurd (none_given refl)
    go (c ∷ cs) some_given k = ground arith

scans_word :
    (raw : RawCliConfig) (word : Bytes)
    → IsWord word
    → scan_loop false (record raw { destination = [] }) (word ∷ [])
      ≡ scan_loop false (record raw { destination = word }) []
unfolding scan_loop scan_arg bytes_eq has_prefix
scans_word raw [] h = elim h [ ]
scans_word raw (c ∷ cs) h = ground arith

-- The raw configuration that the arguments of a probe stand for.
abbrev pub asked : (ℤ → Bytes) → ℤ → ProbeSpec → Bool → Bool → RawCliConfig
asked format_seconds timeout spec is_bedrock is_ipv6 = record no_arguments {
  json = true;
  allow_private = true;
  timeout = format_probe_timeout format_seconds timeout;
  bedrock_alias = is_bedrock;
  force_ipv4 = not is_ipv6;
  force_ipv6 = is_ipv6;
  destination = destination spec;
}

abbrev pub spec_of : Bool → Bool → Bytes → Bytes → ℤ → ProbeSpec
spec_of is_bedrock is_ipv6 label host port = record {
  label = label;
  edition_arg = if is_bedrock then codes "--bedrock" else [];
  family_flag = if is_ipv6 then codes "-6" else codes "-4";
  host = host;
  port = port;
}

pub scans_spec :
    (format_seconds : ℤ → Bytes) (timeout : ℤ) (is_bedrock is_ipv6 : Bool) (label host : Bytes)
    (port : ℤ)
    → PlainHost host
    → scan_argv (probe_args format_seconds timeout (spec_of is_bedrock is_ipv6 label host port)) ≡ (
      asked format_seconds timeout (spec_of is_bedrock is_ipv6 label host port) is_bedrock is_ipv6,
      status_ok,
    )
unfolding scan_argv probe_args scan_loop scan_arg bytes_eq has_prefix index_byte consume_long_flag
    consume_short_flags short_loop short_flag
scans_spec f t true true label host port h =
    scans_word (asked f t (spec_of true true label host port) true true)
      (destination (spec_of true true label host port))
      (destination-IsWord (spec_of true true label host port) h)
scans_spec f t true false label host port h =
    scans_word (asked f t (spec_of true false label host port) true false)
      (destination (spec_of true false label host port))
      (destination-IsWord (spec_of true false label host port) h)
scans_spec f t false true label host port h =
    scans_word (asked f t (spec_of false true label host port) false true)
      (destination (spec_of false true label host port))
      (destination-IsWord (spec_of false true label host port) h)
scans_spec f t false false label host port h =
    scans_word (asked f t (spec_of false false label host port) false false)
      (destination (spec_of false false label host port))
      (destination-IsWord (spec_of false false label host port) h)
