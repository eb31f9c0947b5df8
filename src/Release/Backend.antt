-- ===== src/Release/Backend.antt =====
-- cmd/release-integration/main.go: the backend that the probes ask, a staging server of its own or a
-- container with two relays in front of it. Commands, sockets and clocks are parameters.
pub mod Closed
use minecraft_ping.Base.{
  ℕ, ◌+◌, ◌≡◌, refl, Bool, true, false, not, ◌&&◌, ◌||◌, List, [], ◌∷◌, ◌++◌, Bytes, if◌then◌else◌,
  Option, none, some, Result, ok, err, map_err, bytes_eq,
}
use minecraft_ping.Base.Int.{ℤ}
use minecraft_ping.Text.{codes, trim_space, to_lower, contains_text, decimal}
use minecraft_ping.Net.{join_host_port}
use minecraft_ping.Release.Config.{ReleaseConfig}
use minecraft_ping.Effects.{
  Resource, server, container_removal, java_relay, bedrock_relay, upstream, gzip_stream, Event,
  opened, closed, ran, waited, Act, done, ◌>>=◌, ◌>>◌, logged, opening, registering, deferring,
  behind,
}
use minecraft_ping.Release.Archive.{
  Archive, ArchiveError, failed, Step, call, attempt, with_open, with_archive_file,
  open_read_only_file,
}
use minecraft_ping.Release.Waiting.{Turn, WaitError, wait_for_listener}

-- How a command ends: with its output, with the error of its exit code and its output, or without
-- having run.
pub data CommandEnd (E : Type 0) : Type 0 where
  succeeded : Bytes → CommandEnd E
  exited : E → Bytes → CommandEnd E
  not_run : E → CommandEnd E

pub data BackendError (E : Type 0) : Type 0 where
  unsupported_backend : Bytes → BackendError E
  not_started : E → BackendError E
  in_archive : ArchiveError E → BackendError E
  remove_failed : E → Bytes → BackendError E
  wait_failed : WaitError E → BackendError E
  out_of_turns : BackendError E

pub record BackendWorld (E : Type 0) : Type 0 where
  pub start_server : Result E (Unit {0})
  pub image : Archive E
  pub load_end : Result E (Unit {0})
  pub remove_end : CommandEnd E
  pub run_end : Result E (Unit {0})
  pub listen_relay : Result E (Unit {0})
  pub listen_bedrock_relay : Result E (Unit {0})
  pub resolve_relay_target : Result E (Unit {0})
  -- The start and the turns of each wait, by its kind and network.
  pub started : Bytes → Bytes → ℕ
  pub turns : Bytes → Bytes → ℕ → Turn E

unfoldable pub is_container_not_found_error : Bytes → Bool
unfolding to_lower contains_text
is_container_not_found_error message =
    let lower = to_lower message in
    contains_text lower (codes "no such container")
    || contains_text lower (codes "no container with name or id")

abbrev pub address : Bytes → ℤ → Bytes
address host port = join_host_port host (decimal port)

abbrev pub server_args : ReleaseConfig → List Bytes
server_args cfg =
    cfg.server_binary
    ∷ codes "-listen4"
    ∷ address cfg.ipv4_host cfg.java_ipv4_port
    ∷ codes "-listen6"
    ∷ address cfg.ipv6_host cfg.java_ipv6_port
    ∷ codes "-bedrock-listen4"
    ∷ address cfg.ipv4_host cfg.bedrock_ipv4_port
    ∷ codes "-bedrock-listen6"
    ∷ address cfg.ipv6_host cfg.bedrock_ipv6_port
    ∷ []

module _ {E : Type 0} where
  abbrev pub as_backend : Result E (Unit {0}) → Result (BackendError E) (Unit {0})
  as_backend (ok a) = ok a
  as_backend (err e) = err (not_started e)

  -- A command: it is run, and ends with a result.
  abbrev pub command :
      List Bytes → Result (BackendError E) (Unit {0}) → Act (BackendError E) (Unit {0})
  command args r = logged (ran args) >> done r

  abbrev pub load_command : BackendWorld E → Bytes → Step E (Unit {0})
  load_command w cli = logged (ran (cli ∷ codes "load" ∷ [])) >> call w.load_end

  abbrev pub from_archive : {A : Type 0} → Step E A → Act (BackendError E) A
  from_archive m = record {
    result = map_err in_archive m.result;
    events = m.events;
    registered = m.registered;
  }

  unfoldable pub load_image : BackendWorld E → Bytes → Bytes → Step E (Unit {0})
  unfolding open_read_only_file
  load_image w cli path =
      if bytes_eq path []
      then done (ok tt)
      else with_archive_file w.image (with_open gzip_stream w.image.open_gzip (load_command w cli))

  unfoldable pub removed : CommandEnd E → Result (BackendError E) (Unit {0})
  unfolding is_container_not_found_error
  removed (succeeded output) = ok tt
  removed (exited e output) =
      if is_container_not_found_error (trim_space output)
      then ok tt
      else err (remove_failed e (trim_space output))
  removed (not_run e) = err (not_started e)

  unfoldable pub remove_container : BackendWorld E → Bytes → Bytes → Act (BackendError E) (Unit {0})
  unfolding removed
  remove_container w cli name =
      command (cli ∷ codes "rm" ∷ codes "-f" ∷ name ∷ []) (removed w.remove_end)

  unfoldable pub start_container : BackendWorld E → ReleaseConfig → Act (BackendError E) (Unit {0})
  unfolding decimal
  start_container w cfg =
      command
        (cfg.container_cli
          ∷ codes "run"
          ∷ codes "-d"
          ∷ codes "--name"
          ∷ cfg.container_name
          ∷ codes "-p"
          ∷ (codes "127.0.0.1:" ++ (decimal cfg.java_ipv4_port ++ codes ":25565/tcp"))
          ∷ codes "-p"
          ∷ (codes "127.0.0.1:" ++ (decimal cfg.bedrock_ipv4_port ++ codes ":19132/udp"))
          ∷ cfg.image_tag
          ∷ [])
        (as_backend w.run_end)

  abbrev pub waited_for :
      Option (Result (WaitError E) (Unit {0})) → Result (BackendError E) (Unit {0})
  waited_for none = err out_of_turns
  waited_for (some r) = map_err wait_failed r

  -- `waitForJava` and `waitForBedrock`
  unfoldable pub wait_for :
      BackendWorld E → Bytes → Bytes → Bytes → ℤ → Act (BackendError E) (Unit {0})
  unfolding wait_for_listener
  wait_for w kind network host port =
      logged (waited network host port)
      >> done (waited_for (wait_for_listener 241 (w.started kind network) (w.turns kind network)))

  unfoldable pub wait_for_all : BackendWorld E → ReleaseConfig → Act (BackendError E) (Unit {0})
  unfolding wait_for
  wait_for_all w cfg =
      wait_for w (codes "java") (codes "tcp4") cfg.ipv4_host cfg.java_ipv4_port
      >> (wait_for w (codes "java") (codes "tcp6") cfg.ipv6_host cfg.java_ipv6_port
          >> (wait_for w (codes "bedrock") (codes "udp4") cfg.ipv4_host cfg.bedrock_ipv4_port
              >> wait_for w (codes "bedrock") (codes "udp6") cfg.ipv6_host cfg.bedrock_ipv6_port))

  unfoldable pub start_binary_backend :
      BackendWorld E → ReleaseConfig → Act (BackendError E) (Unit {0})
  unfolding wait_for_all
  start_binary_backend w cfg =
      command (server_args cfg) (as_backend w.start_server)
      >> (registering server >> wait_for_all w cfg)

  abbrev pub new_relay : Result E (Unit {0}) → Act (BackendError E) (Unit {0})
  new_relay (err e) = done (err (not_started e))
  new_relay (ok u) = registering java_relay

  -- The socket is closed where its target does not resolve.
  abbrev pub new_bedrock_relay :
      Result E (Unit {0}) → Result E (Unit {0}) → Act (BackendError E) (Unit {0})
  new_bedrock_relay (err e) resolved = done (err (not_started e))
  new_bedrock_relay (ok u) (err e) =
      logged (opened bedrock_relay) >> (logged (closed bedrock_relay) >> done (err (not_started e)))
  new_bedrock_relay (ok u) (ok v) = registering bedrock_relay

  -- The removal of the container is registered before there is one.
  unfoldable pub start_container_backend :
      BackendWorld E → ReleaseConfig → Act (BackendError E) (Unit {0})
  unfolding load_image remove_container start_container wait_for_all
  start_container_backend w cfg =
      registering container_removal
      >> (from_archive (load_image w cfg.container_cli cfg.image_archive)
          >> (remove_container w cfg.container_cli cfg.container_name
              >> (start_container w cfg
                  >> (new_relay w.listen_relay
                      >> (new_bedrock_relay w.listen_bedrock_relay w.resolve_relay_target
                          >> wait_for_all w cfg)))))

  unfoldable pub start_backend : BackendWorld E → ReleaseConfig → Act (BackendError E) (Unit {0})
  unfolding start_binary_backend start_container_backend
  start_backend w cfg =
      if bytes_eq cfg.backend (codes "binary")
      then start_binary_backend w cfg
      else if bytes_eq cfg.backend (codes "container")
      then start_container_backend w cfg
      else done (err (unsupported_backend cfg.backend))
