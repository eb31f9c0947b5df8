-- ===== src/Release/Config.antt =====
-- cmd/release-integration/config.go: the configuration, the probes that it stands for, and its
-- validation. The parsing of the flags is that of Go's `flag`.
use minecraft_ping.Base.{
  Bool, not, ◌&&◌, ◌||◌, List, [], ◌∷◌, Bytes, if◌then◌else◌, Result, ok, err, bytes_eq, ◌>>◌,
}
use minecraft_ping.Base.Int.{ℤ, pos, ltb_ℤ, leb_ℤ}
use minecraft_ping.Text.{codes, trim_space}

pub record ReleaseConfig : Type 0 where
  pub archive_glob : Bytes
  pub backend : Bytes
  pub binary_name : Bytes
  pub binary_path : Bytes
  pub container_cli : Bytes
  pub container_name : Bytes
  pub expected_version : Bytes
  pub image_archive : Bytes
  pub image_tag : Bytes
  pub ipv4_host : Bytes
  pub ipv6_host : Bytes
  pub java_ipv4_port : ℤ
  pub java_ipv6_port : ℤ
  pub bedrock_ipv4_port : ℤ
  pub bedrock_ipv6_port : ℤ
  pub probe_timeout : ℤ
  pub server_binary : Bytes

pub record ProbeSpec : Type 0 where
  pub label : Bytes
  pub edition_arg : Bytes
  pub family_flag : Bytes
  pub host : Bytes
  pub port : ℤ

unfoldable pub probe_specs : ReleaseConfig → List ProbeSpec
probe_specs cfg =
    (record {
      label = codes "java-ipv4";
      edition_arg = [];
      family_flag = codes "-4";
      host = cfg.ipv4_host;
      port = cfg.java_ipv4_port;
    })
    ∷ (record {
      label = codes "java-ipv6";
      edition_arg = [];
      family_flag = codes "-6";
      host = cfg.ipv6_host;
      port = cfg.java_ipv6_port;
    })
    ∷ (record {
      label = codes "bedrock-ipv4";
      edition_arg = codes "--bedrock";
      family_flag = codes "-4";
      host = cfg.ipv4_host;
      port = cfg.bedrock_ipv4_port;
    })
    ∷ (record {
      label = codes "bedrock-ipv6";
      edition_arg = codes "--bedrock";
      family_flag = codes "-6";
      host = cfg.ipv6_host;
      port = cfg.bedrock_ipv6_port;
    })
    ∷ []

-- The errors of `validateConfig`.
pub data ConfigError : Type 0 where
  not_both missing_binary missing_archive_or_name : ConfigError
  timeout_not_positive : ConfigError
  invalid_port : Bytes → ℤ → ConfigError
  missing_server_binary missing_container_cli missing_container_name : ConfigError
  unsupported_backend_name : Bytes → ConfigError

abbrev pub given : Bytes → Bool
given text = not (bytes_eq (trim_space text) [])

unfoldable pub validate_port : Bytes → ℤ → Result ConfigError (Unit {0})
validate_port flag_name port =
    if ltb_ℤ port (pos 1) || ltb_ℤ (pos 65535) port
    then err (invalid_port flag_name port)
    else ok tt

-- The three tests of the `switch` on the binary.
abbrev pub validate_binary : Bool → Bool → Bool → Result ConfigError (Unit {0})
validate_binary has_binary_path has_archive_glob has_binary_name =
    if has_binary_path && (has_archive_glob || has_binary_name)
    then err not_both
    else if not has_binary_path && (not has_archive_glob && not has_binary_name)
    then err missing_binary
    else if not has_binary_path && (not has_archive_glob || not has_binary_name)
    then err missing_archive_or_name
    else ok tt

abbrev pub validate_timeout : ℤ → Result ConfigError (Unit {0})
validate_timeout timeout = if leb_ℤ timeout (pos 0) then err timeout_not_positive else ok tt

-- The loop over the four ports.
abbrev pub validate_ports : List (Bytes × ℤ) → Result ConfigError (Unit {0})
validate_ports [] = ok tt
validate_ports ((flag_name, port) ∷ checks) = validate_port flag_name port >> validate_ports checks

abbrev pub port_checks : ReleaseConfig → List (Bytes × ℤ)
port_checks cfg =
    (codes "-java-ipv4-port", cfg.java_ipv4_port)
    ∷ (codes "-java-ipv6-port", cfg.java_ipv6_port)
    ∷ (codes "-bedrock-ipv4-port", cfg.bedrock_ipv4_port)
    ∷ (codes "-bedrock-ipv6-port", cfg.bedrock_ipv6_port)
    ∷ []

abbrev pub validate_backend : ReleaseConfig → Result ConfigError (Unit {0})
validate_backend cfg =
    if bytes_eq cfg.backend (codes "binary")
    then (if given cfg.server_binary then ok tt else err missing_server_binary)
    else if bytes_eq cfg.backend (codes "container")
    then (if not (given cfg.container_cli)
        then err missing_container_cli
        else if not (given cfg.container_name)
        then err missing_container_name
        else ok tt)
    else err (unsupported_backend_name cfg.backend)

unfoldable pub validate_config : ReleaseConfig → Result ConfigError (Unit {0})
unfolding validate_port
validate_config cfg =
    validate_binary (given cfg.binary_path) (given cfg.archive_glob) (given cfg.binary_name)
    >> (validate_timeout cfg.probe_timeout
        >> (validate_ports (port_checks cfg) >> validate_backend cfg))
