-- ===== src/Release/Backend/Closed.antt =====
-- cmd/release-integration/main.go: what the start of a backend leaves open.
use minecraft_ping.Base.{
  refl, Bool, true, false, [], Bytes, if◌then◌else◌, Result, ok, err, bytes_eq,
}
use minecraft_ping.Text.{codes}
use minecraft_ping.Release.Config.{ReleaseConfig}
use minecraft_ping.Effects.{server, container_removal, gzip_stream, Act, ◌>>◌, registering}
use minecraft_ping.Effects.Balanced.{IsBalanced, IsTracked, then-IsTracked}
use minecraft_ping.Release.Archive.{open_read_only_file}
use minecraft_ping.Release.Archive.Closed.{
  with_open-IsBalanced, with_archive_file-IsBalanced, if-IsBalanced,
}
use minecraft_ping.Release.Backend.{
  BackendWorld, command, load_command, from_archive, load_image, remove_container, start_container,
  as_backend, wait_for, wait_for_all, server_args, start_binary_backend, new_relay,
  new_bedrock_relay, start_container_backend, start_backend,
}

pub if-IsTracked :
    {F A : Type 0} (b : Bool) (m k : Act F A)
    → IsTracked m
    → IsTracked k
    → IsTracked (if b then m else k)
if-IsTracked true m k hm hk = hm
if-IsTracked false m k hm hk = hk

module _ {E : Type 0} where
  load_command-IsBalanced : (w : BackendWorld E) (cli : Bytes) → IsBalanced (load_command w cli)
  load_command-IsBalanced w cli = (refl, λ held. refl)

  load_image-IsBalanced :
      (w : BackendWorld E) (cli path : Bytes) → IsBalanced (load_image w cli path)
  unfolding load_image open_read_only_file
  load_image-IsBalanced w cli path =
      if-IsBalanced (bytes_eq path []) _ _ (refl, λ held. refl)
        (with_archive_file-IsBalanced w.image.open_parent w.image.open_file w.image.close_parent _
          (with_open-IsBalanced gzip_stream w.image.open_gzip _ (load_command-IsBalanced w cli)))

  wait_for_all-IsTracked :
      (w : BackendWorld E) (cfg : ReleaseConfig) → IsTracked (wait_for_all w cfg)
  unfolding wait_for_all wait_for
  wait_for_all-IsTracked w cfg =
      let java4 = wait_for w (codes "java") (codes "tcp4") cfg.ipv4_host cfg.java_ipv4_port in
      let java6 = wait_for w (codes "java") (codes "tcp6") cfg.ipv6_host cfg.java_ipv6_port in
      let bedrock4 =
        wait_for w (codes "bedrock") (codes "udp4") cfg.ipv4_host cfg.bedrock_ipv4_port in
      let bedrock6 =
        wait_for w (codes "bedrock") (codes "udp6") cfg.ipv6_host cfg.bedrock_ipv6_port in
      then-IsTracked java4 (java6 >> (bedrock4 >> bedrock6)) (λ held. refl)
        (then-IsTracked java6 (bedrock4 >> bedrock6) (λ held. refl)
          (then-IsTracked bedrock4 bedrock6 (λ held. refl) (λ held. refl)))

  start_binary_backend-IsTracked :
      (w : BackendWorld E) (cfg : ReleaseConfig) → IsTracked (start_binary_backend w cfg)
  unfolding start_binary_backend
  start_binary_backend-IsTracked w cfg =
      let starting = command (server_args cfg) (as_backend w.start_server) in
      then-IsTracked starting (registering server >> wait_for_all w cfg) (λ held. refl)
        (then-IsTracked (registering server) (wait_for_all w cfg) (λ held. refl)
          (wait_for_all-IsTracked w cfg))

  new_relay-IsTracked : (listen : Result E (Unit {0})) → IsTracked (new_relay listen)
  new_relay-IsTracked (err e) held = refl
  new_relay-IsTracked (ok u) held = refl

  new_bedrock_relay-IsTracked :
      (listen resolved : Result E (Unit {0})) → IsTracked (new_bedrock_relay listen resolved)
  new_bedrock_relay-IsTracked (err e) resolved held = refl
  new_bedrock_relay-IsTracked (ok u) (err e) held = refl
  new_bedrock_relay-IsTracked (ok u) (ok v) held = refl

  start_container_backend-IsTracked :
      (w : BackendWorld E) (cfg : ReleaseConfig) → IsTracked (start_container_backend w cfg)
  unfolding start_container_backend remove_container start_container
  start_container_backend-IsTracked w cfg =
      let waits = wait_for_all w cfg in
      let bedrock = new_bedrock_relay w.listen_bedrock_relay w.resolve_relay_target in
      let java = new_relay w.listen_relay in
      let starting = start_container w cfg in
      let removing = remove_container w cfg.container_cli cfg.container_name in
      let loading = from_archive (load_image w cfg.container_cli cfg.image_archive) in
      then-IsTracked (registering container_removal)
        (loading >> (removing >> (starting >> (java >> (bedrock >> waits))))) (λ held. refl)
        (then-IsTracked loading (removing >> (starting >> (java >> (bedrock >> waits))))
          (load_image-IsBalanced w cfg.container_cli cfg.image_archive).1
          (then-IsTracked removing (starting >> (java >> (bedrock >> waits))) (λ held. refl)
            (then-IsTracked starting (java >> (bedrock >> waits)) (λ held. refl)
              (then-IsTracked java (bedrock >> waits) (new_relay-IsTracked w.listen_relay) (
                then-IsTracked bedrock waits
                  (new_bedrock_relay-IsTracked w.listen_bedrock_relay w.resolve_relay_target)
                  (wait_for_all-IsTracked w cfg))))))

  pub start_backend-IsTracked :
      (w : BackendWorld E) (cfg : ReleaseConfig) → IsTracked (start_backend w cfg)
  unfolding start_backend
  start_backend-IsTracked w cfg =
      if-IsTracked (bytes_eq cfg.backend (codes "binary")) _ _
        (start_binary_backend-IsTracked w cfg)
        (if-IsTracked (bytes_eq cfg.backend (codes "container")) _ _
          (start_container_backend-IsTracked w cfg) (λ held. refl))
