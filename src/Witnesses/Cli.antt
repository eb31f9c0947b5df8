-- ===== src/Witnesses/Cli.antt =====
-- cli.go at concrete arguments.
use minecraft_ping.Base.{
  ℕ, ◌≡◌, ◌≢◌, refl, true, false, Bytes, List, [], ◌∷◌, ◌*◌, sym, Option, none, some, ok, err,
  arith, inr, ◌⊎◌, bytes_eq, All,
}
use mathlib.Core.Path.{subst}
use minecraft_ping.Base.Int.{ℤ, pos}
use minecraft_ping.Text.{codes, has_prefix, index_byte, trim_space, atoi, count_byte, contains_byte}
use minecraft_ping.Net.{v4}
use minecraft_ping.Net.Parse.{parse_addr, split_host_port}
use minecraft_ping.Address.Endpoint.{
  unbracket_ipv6_literal, normalize_host, validate_server_address, has_control, literal_ip,
  uint16_port, is_non_public_addr,
}
use minecraft_ping.Address.Errors.{family4}
use minecraft_ping.Address.Edition.{
  parse_destination, validate_target, new_target_spec, fallback_endpoint,
}
use minecraft_ping.Cli.{RawCliConfig, status_ok, no_arguments, scan_argv}
use minecraft_ping.Cli.Config.{
  Numbers, CliConfig, parse_cli_config, normalize_cli_config, normalize_options,
  parse_seconds_duration, version_config, second,
}
use minecraft_ping.Cli.Accepted.{IsAccepted, parse_cli_config-IsAccepted}
use minecraft_ping.Cli.RoundTrip.{rendered, scan_argv-rendered}
use minecraft_ping.Cli.Run.{
  Resolver, PreparedProbe, java_probe, prepare_probe, CliRuntime, run_with_runtime,
}
use minecraft_ping.Cli.Exit.{Ends, IsBounded, run-Ends}
use minecraft_ping.Cli.Guarded.{MayBeDialled, candidates_of, prepare_probe-MayBeDialled}
use minecraft_ping.Session.{World}
use minecraft_ping.Client.{prepare_java_probe, resolve_java_route_context, resolve_dial_candidates}
use minecraft_ping.Address.Candidates.{
  candidate_of, dial_candidates_for_resolved_ips_by_addr, filter_loop,
  build_dial_candidates_with_port_func, dial_candidates_for_resolved_ips,
}
use minecraft_ping.Address.Family.{matches}

-- Texts of whole seconds only.
abbrev whole : Option ℤ → Option (ℤ × ℕ)
whole none = none
whole (some n) = some (n, 1)

abbrev numbers : Numbers
numbers = record { positive_float = λ text. true; rational = λ text. whole (atoi text) }

abbrev raw : RawCliConfig
raw = record no_arguments {
  destination = codes "mc.example";
  edition = codes "bedrock";
  edition_set = true;
  force_ipv6 = true;
  count = codes "-3";
  json = true;
  timeout = codes "2";
}

edition-given : bytes_eq (trim_space (codes "bedrock")) [] ≡ false
unfolding bytes_eq trim_space
edition-given = refl

scan_argv-rendered_example : scan_argv (rendered raw) ≡ (raw, status_ok)
scan_argv-rendered_example = scan_argv-rendered raw (refl, refl, edition-given)

abbrev arguments : List Bytes
arguments = codes "-c3" ∷ codes "-W" ∷ codes "2" ∷ codes "-4" ∷ codes "mc.example:25577" ∷ []

abbrev config : CliConfig
config = record version_config {
  target = record { host = codes "mc.example"; port = pos 25577; port_explicit = true };
  options = record { address_family = family4; allow_private_addresses = false };
  count = 3;
  timeout = 2 * second;
  show_version = false;
}

accepts : parse_cli_config numbers arguments ≡ ok config
unfolding parse_cli_config scan_argv normalize_cli_config normalize_options parse_seconds_duration
    bytes_eq has_prefix index_byte trim_space atoi parse_destination validate_target new_target_spec
    parse_addr split_host_port count_byte contains_byte unbracket_ipv6_literal normalize_host
    validate_server_address has_control
accepts = refl

parse_cli_config-IsAccepted_example : (config ≡ version_config) ⊎ IsAccepted config
parse_cli_config-IsAccepted_example = parse_cli_config-IsAccepted numbers arguments config accepts

-- A client whose server answers after seven units of time.
abbrev world : World (Unit {0})
world = record {
  now = λ k. k;
  ctx_done = λ seq. false;
  sleep_fails = λ seq time. false;
  probe = λ p seq timeout. ok (record { latency = 7; remote = record { addr = v4 1; port = 2 } });
  observe = λ s p. p;
  banner_of = λ p numeric. [];
  label_of = λ p numeric. [];
}

abbrev runtime : CliRuntime (Unit {0})
runtime = record {
  numbers = numbers;
  cli_version = codes "1";
  prepare = λ cfg. ok tt;
  world = world;
  probe_error = λ e. [];
  json_text = λ host ms. host;
}

run-Ends_example : Ends runtime 4 (run_with_runtime runtime 4 (codes "minecraft-ping" ∷ arguments))
run-Ends_example =
    run-Ends runtime 4 (codes "minecraft-ping" ∷ arguments)
      (subst (IsBounded runtime 4) (sym accepts) (inr (inr (omega arith, omega arith))))

-- A public address and the loopback address.
abbrev resolver : Resolver
resolver = record {
  lookup_srv = λ host. err 1;
  ctx_err = none;
  lookup_net_ip = λ kind host. ok (v4 0x08080808 ∷ v4 0x7f000001 ∷ []);
}

abbrev prepared : PreparedProbe
prepared = java_probe (record {
  target = config.target;
  route = record {
    dial = record { host = codes "mc.example"; port = pos 25577 };
    handshake = record { host = codes "mc.example"; port = pos 25577 };
  };
  candidates = candidate_of (v4 0x08080808) 25577 ∷ [];
  display_target = record { addr = v4 0x08080808; port = 25577 };
})

prepares : prepare_probe resolver config ≡ ok prepared
unfolding prepare_probe prepare_java_probe resolve_java_route_context fallback_endpoint literal_ip
    parse_addr resolve_dial_candidates uint16_port dial_candidates_for_resolved_ips_by_addr
    filter_loop build_dial_candidates_with_port_func is_non_public_addr bytes_eq
    dial_candidates_for_resolved_ips matches
prepares = refl

prepare_probe-MayBeDialled_example :
    All (MayBeDialled config.options) (candidates_of prepared) × (candidates_of prepared ≢ [])
prepare_probe-MayBeDialled_example = prepare_probe-MayBeDialled resolver config prepared prepares
