-- ===== src/Cli/Run.antt =====
-- cli.go, version.go: the program behind its arguments. The preparation of a probe is that of
-- `Client`; what a run writes is a list of texts for the two outputs.
use minecraft_ping.Base.{
  ℕ, ◌/◌, List, [], ◌∷◌, ◌++◌, Bytes, drop, ltb, if◌then◌else◌, Option, none, some, Result, ok, err,
  ◌>>=◌,
}
use minecraft_ping.Text.{codes}
use minecraft_ping.Address.Edition.{java, bedrock}
use minecraft_ping.Bedrock.Probe.{LookupNetIp}
use minecraft_ping.Client.{
  LookupSrv, PrepareError, JavaPreparedProbe, BedrockPreparedProbe, prepare_java_probe,
  prepare_bedrock_probe, ProbeSample,
}
use minecraft_ping.Session.{SessionConfig, Line, World, run_text_session}
use minecraft_ping.Cli.{ParseStatus, status_ok, status_help, status_invalid}
use minecraft_ping.Cli.Config.{CliConfig, Numbers, parse_cli_config}

pub data PreparedProbe : Type 0 where
  java_probe : JavaPreparedProbe → PreparedProbe
  bedrock_probe : BedrockPreparedProbe → PreparedProbe

-- The resolver of the client, and the error of the context behind the SRV lookup.
pub record Resolver : Type 0 where
  pub lookup_srv : LookupSrv
  pub ctx_err : Option ℕ
  pub lookup_net_ip : LookupNetIp

unfoldable pub prepare_probe : Resolver → CliConfig → Result PrepareError PreparedProbe
prepare_probe r cfg = elim cfg.edition [
  | bedrock ↦
      prepare_bedrock_probe r.lookup_net_ip cfg.target cfg.options >>= λ p. ok (bedrock_probe p)
  | java ↦ prepare_java_probe r.lookup_srv r.ctx_err r.lookup_net_ip cfg.target cfg.options >>= λ p.
      ok (java_probe p)
]

abbrev usage_lines : List Bytes
usage_lines =
    codes "Usage: minecraft-ping [options] destination"
    ∷ []
    ∷ codes "Options:"
    ∷ codes "  -4                    use IPv4 only"
    ∷ codes "  -6                    use IPv6 only"
    ∷ codes "  -c count              stop after count probes"
    ∷ codes "  -i interval           set the start-to-start interval in seconds"
    ∷ codes "  -w deadline           stop starting probes after deadline seconds"
    ∷ codes "  -W timeout            set socket I/O timeout after connection, in seconds"
    ∷ codes "  -q                    quiet output"
    ∷ codes "  -D                    print unix timestamp before each reply line"
    ∷ codes "  -n                    numeric output only"
    ∷ codes "  -j                    JSON output (single probe)"
    ∷ codes "  --allow-private       allow private, loopback, and local-only IP targets"
    ∷ codes "  -V, --version         print version and exit"
    ∷ codes "  -h, --help            show help"
    ∷ codes "  --edition kind        java or bedrock"
    ∷ codes "  --java                alias for --edition java"
    ∷ codes "  --bedrock             alias for --edition bedrock"
    ∷ []

abbrev join_lines : List Bytes → Bytes
join_lines [] = []
join_lines (l ∷ ls) = l ++ (10 ∷ join_lines ls)

-- The usage text with the line end that is written behind it.
unfoldable pub usage_text : Bytes
usage_text = join_lines usage_lines

-- `cliVersion` is set when the program is linked.
unfoldable pub version_line : Bytes → Bytes
version_line cli_version = codes "minecraft-ping " ++ cli_version

abbrev pub millisecond : ℕ
millisecond = 1_000_000

unfoldable pub duration_to_latency_ms : ℕ → ℕ
duration_to_latency_ms d =
    let latency_ms = d / millisecond in if ltb latency_ms 1 then 1 else latency_ms

pub data Written : Type 0 where
  to_stdout to_stderr : Bytes → Written
  session_lines : List Line → Written

-- `cliRuntime`, for prepared probes of a type `P`, with the texts of errors and of the JSON result.
pub record CliRuntime (P : Type 0) : Type 0 where
  pub numbers : Numbers
  pub cli_version : Bytes
  pub prepare : CliConfig → Result Bytes P
  pub world : World P
  pub probe_error : ℕ → Bytes
  pub json_text : Bytes → ℕ → Bytes

unfoldable pub session_config : CliConfig → SessionConfig
session_config cfg = record {
  count = cfg.count;
  deadline = cfg.deadline;
  timeout = cfg.timeout;
  interval = cfg.interval;
  quiet = cfg.quiet;
  timestamp = cfg.timestamp;
  numeric = cfg.numeric;
}

module _ {P : Type 0} (rt : CliRuntime P) (fuel : ℕ) where
  abbrev pub json_result : CliConfig → Result ℕ ProbeSample → ℕ × List Written
  json_result cfg (err e) = (1, to_stderr (rt.probe_error e ++ (10 ∷ [])) ∷ [])
  json_result cfg (ok sample) = (
    0,
    to_stdout (rt.json_text cfg.target.host (duration_to_latency_ms sample.latency) ++ (10 ∷ []))
        ∷ [],
  )

  abbrev pub session_result : Option (ℕ × List Line) → Option (ℕ × List Written)
  session_result none = none
  session_result (some (code, lines)) = some (code, session_lines lines ∷ [])

  abbrev pub probing : CliConfig → Result Bytes P → Option (ℕ × List Written)
  probing cfg (err e) = some (2, to_stderr (e ++ (10 ∷ [])) ∷ [])
  probing cfg (ok p) =
      if cfg.json
      then some (json_result cfg (rt.world.probe p 1 cfg.timeout))
      else session_result (run_text_session rt.world (session_config cfg) fuel p)

  abbrev pub started : Result ParseStatus CliConfig → Option (ℕ × List Written)
  started (err status_help) = some (0, to_stdout usage_text ∷ [])
  started (err status_invalid) = some (2, to_stderr usage_text ∷ [])
  started (err status_ok) = some (2, to_stderr usage_text ∷ [])
  started (ok cfg) =
      if cfg.show_version
      then some (0, to_stdout (version_line rt.cli_version ++ (10 ∷ [])) ∷ [])
      else probing cfg (rt.prepare cfg)

  -- `runWithRuntime`: the exit code and what is written; `none` when the fuel of the session ends.
  unfoldable pub run_with_runtime : List Bytes → Option (ℕ × List Written)
  unfolding parse_cli_config
  run_with_runtime argv = started (parse_cli_config rt.numbers (drop 1 argv))
