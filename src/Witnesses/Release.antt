-- ===== src/Witnesses/Release.antt =====
-- cmd/release-integration at a concrete configuration and surroundings.
use minecraft_ping.Base.{
  ℕ, ◌≡◌, ◌*◌, ◌+◌, refl, true, Bytes, [], ◌∷◌, ◌++◌, none, some, ok, arith, bytes_eq, ltb, drop,
  if◌then◌else◌, ◌↔◌, All,
}
use minecraft_ping.Base.Int.{ℤ, pos}
use minecraft_ping.Text.{
  codes, has_prefix, has_suffix, index, trim_prefix, trim_space, to_lower, contains_text,
  trim_right, decimal, atoi, count_byte, contains_byte,
}
use minecraft_ping.Release.Config.{ReleaseConfig, validate_port, validate_config, probe_specs}
use minecraft_ping.Release.Config.{ProbeSpec}
use minecraft_ping.Release.Probe.{destination, format_probe_timeout}
use minecraft_ping.Release.Probe.Scanned.{PlainHost}
use minecraft_ping.Release.Probe.Asked.{IsAskable, IsAsked, probe_args-IsAsked}
use minecraft_ping.Cli.Config.{Numbers, parse_seconds_duration}
use minecraft_ping.Net.{join_host_port}
use minecraft_ping.Net.Parse.{parse_addr, split_host_port}
use minecraft_ping.Address.Endpoint.{
  unbracket_ipv6_literal, normalize_host, validate_server_address, has_control,
}
use minecraft_ping.Address.Edition.{TargetSpec, parse_destination, validate_target, new_target_spec}
use minecraft_ping.Release.Valid.{IsValidConfig, validate_config-IsValidConfig}
use minecraft_ping.Release.Waiting.{
  Turn, Ends, wait_for_listener, wait_loop, wait_for_listener-Ends, listener_ready_timeout,
}
use minecraft_ping.Release.Archive.{
  Archive, Member, resolve_single_file, version_from_archive_name, extract_binary,
  extract_tar_gz_binary, open_read_only_file, extract_tar_member, is_valid_size,
}
use minecraft_ping.Release.Backend.{
  succeeded, exited, start_backend, start_container_backend, load_image, remove_container, removed,
  is_container_not_found_error, start_container, wait_for_all, wait_for,
}
use minecraft_ping.Release.Run.{
  ReleaseWorld, run_cli, run, binary_of, assert_version, run_probe, run_probes,
  release_version_line,
}
use minecraft_ping.Release.Run.Checked.{IsChecked, run_cli-IsChecked}

abbrev config : ReleaseConfig
config = record {
  archive_glob = codes "dist/*.tar.gz";
  backend = codes "container";
  binary_name = codes "minecraft-ping";
  binary_path = [];
  container_cli = codes "docker";
  container_name = codes "c";
  expected_version = codes "2.0.0";
  image_archive = codes "image.tar.gz";
  image_tag = codes "staging:ci";
  ipv4_host = codes "127.0.0.1";
  ipv6_host = codes "::1";
  java_ipv4_port = pos 45565;
  java_ipv6_port = pos 45566;
  bedrock_ipv4_port = pos 49132;
  bedrock_ipv6_port = pos 49133;
  probe_timeout = pos 12_000_000_000;
  server_binary = [];
}

abbrev member : Member ℕ
member = record {
  name = codes "minecraft-ping";
  size = pos 100;
  open_source = ok tt;
  create_target = ok tt;
  copied = ok 100;
  close_target = ok tt;
  change_mode = ok tt;
}

abbrev archive : Archive ℕ
archive = record {
  open_reader = ok tt;
  open_parent = ok tt;
  open_file = ok tt;
  close_parent = ok tt;
  open_gzip = ok tt;
  open_target_root = ok tt;
  members = member ∷ [];
  next_header = none;
}

-- A listener that is ready at its third turn.
abbrev turn : ℕ → Turn ℕ
turn i = record {
  now = i * 500_000_000;
  probe = if ltb i 2 then some 111 else none;
  ctx_err = none;
}

abbrev world : ReleaseWorld ℕ
world = record {
  glob = λ pattern. ok (codes "dist/minecraft-ping_2.0.0_Linux_x86_64.tar.gz" ∷ []);
  base_name = λ path. drop 5 path;
  make_temp_dir = ok tt;
  in_temp_dir = λ name. codes "/tmp/x/" ++ name;
  archive = λ path. archive;
  version_end = λ binary. succeeded (codes "minecraft-ping 2.0.0\n");
  backend = record {
    start_server = ok tt;
    image = archive;
    load_end = ok tt;
    remove_end = exited 1 (codes "Error: No such container: c");
    run_end = ok tt;
    listen_relay = ok tt;
    listen_bedrock_relay = ok tt;
    resolve_relay_target = ok tt;
    started = λ kind net. 0;
    turns = λ kind net. turn;
  };
  format_seconds = λ timeout. codes "12.000";
  probe_end = λ args. succeeded (codes "{}");
  is_result = λ output. true;
}

run_cli-IsChecked_example : ((run_cli world (ok config)).0 ≡ 0) ↔ IsChecked world config
run_cli-IsChecked_example = run_cli-IsChecked world config

validate_config-IsValidConfig_example : (validate_config config ≡ ok tt) ↔ IsValidConfig config
validate_config-IsValidConfig_example = validate_config-IsValidConfig config

wait_for_listener-Ends_example :
    Ends turn (0 + listener_ready_timeout) (wait_for_listener 241 0 turn)
wait_for_listener-Ends_example = wait_for_listener-Ends 0 turn (omega arith) (λ j. omega arith)

-- The whole run, up to the removal of the container, the two relays and the temporary directory.
passes : run_cli world (ok config) ≡ (0, (run world config).events)
unfolding run_cli validate_config validate_port run binary_of resolve_single_file
    version_from_archive_name extract_binary extract_tar_gz_binary open_read_only_file
    extract_tar_member is_valid_size assert_version start_backend start_container_backend load_image
    remove_container removed is_container_not_found_error start_container wait_for_all wait_for
    wait_for_listener wait_loop run_probes run_probe probe_specs bytes_eq has_prefix has_suffix
    index trim_prefix trim_space to_lower contains_text release_version_line
passes = refl

abbrev numbers : Numbers
numbers = record { positive_float = λ text. true; rational = λ text. some (pos 12, 1) }

abbrev format_seconds : ℤ → Bytes
format_seconds timeout = codes "12.000"

askable :
    (spec : ProbeSpec) (target : TargetSpec)
    → PlainHost spec.host
    → parse_destination (destination spec) ≡ ok target
    → validate_target target ≡ ok tt
    → IsAskable numbers format_seconds config.probe_timeout spec
unfolding format_probe_timeout trim_right bytes_eq parse_seconds_duration trim_space
askable spec target plain parses valid = record {
  plain = plain;
  target = target;
  parses = parses;
  valid = valid;
  duration = 12_000_000_000;
  timeout_given = refl;
  reads = refl;
  within = refl;
}

asks-All : All (IsAskable numbers format_seconds config.probe_timeout) (probe_specs config)
unfolding probe_specs parse_destination validate_target trim_space bytes_eq has_prefix count_byte
    unbracket_ipv6_literal parse_addr split_host_port atoi new_target_spec normalize_host
    join_host_port decimal contains_byte validate_server_address has_control
asks-All = (
  askable _ (record { host = codes "127.0.0.1"; port = pos 45565; port_explicit = true })
      ((λ e. absurd cc), refl) refl refl,
  (
    askable _ (record { host = codes "::1"; port = pos 45566; port_explicit = true })
        ((λ e. absurd cc), refl) refl refl,
    (
      askable _ (record { host = codes "127.0.0.1"; port = pos 49132; port_explicit = true })
          ((λ e. absurd cc), refl) refl refl,
      (
        askable _ (record { host = codes "::1"; port = pos 49133; port_explicit = true })
            ((λ e. absurd cc), refl) refl refl,
        tt,
      ),
    ),
  ),
)

probe_args-IsAsked_example :
    All (IsAsked numbers format_seconds config.probe_timeout) (probe_specs config)
probe_args-IsAsked_example =
    probe_args-IsAsked numbers format_seconds config.probe_timeout config asks-All
