-- ===== src/Cli/RoundTrip.antt =====
-- cli.go: arguments for every configuration that `scanArgv` can produce without a request for help
-- or for the version, and that it reads them back.
use minecraft_ping.Base.{
  ℕ, ◌≡◌, refl, sym, ◌∙◌, Bool, true, false, List, [], ◌∷◌, ◌++◌, Bytes, bytes_eq,
}
use mathlib.Core.Path.{ap₂}
use minecraft_ping.Text.{codes, has_prefix, index_byte}
use minecraft_ping.Cli.{
  RawCliConfig, status_ok, blank, no_arguments, scan_loop, scan_argv, consume_long_flag,
  consume_short_flags, short_flag, short_loop, scan_arg,
}

abbrev plain_args : Bool → Bytes → List Bytes
plain_args true flag = flag ∷ []
plain_args false flag = []

abbrev value_args : Bytes → Bytes → List Bytes
value_args flag [] = []
value_args flag (c ∷ cs) = flag ∷ (c ∷ cs) ∷ []

abbrev edition_args : Bool → Bytes → List Bytes
edition_args true value = codes "--edition" ∷ value ∷ []
edition_args false value = []

abbrev destination_args : Bytes → List Bytes
destination_args [] = []
destination_args (c ∷ cs) = codes "--" ∷ (c ∷ cs) ∷ []

-- The flags in some order, and the destination behind `--`.
abbrev pub rendered : RawCliConfig → List Bytes
rendered raw =
    plain_args raw.force_ipv4 (codes "-4")
    ++ (plain_args raw.force_ipv6 (codes "-6")
        ++ (plain_args raw.quiet (codes "-q")
            ++ (plain_args raw.timestamp (codes "-D")
                ++ (plain_args raw.numeric (codes "-n")
                    ++ (plain_args raw.json (codes "-j")
                        ++ (plain_args raw.java_alias (codes "--java")
                            ++ (plain_args raw.bedrock_alias (codes "--bedrock")
                                ++ (plain_args raw.allow_private (codes "--allow-private")
                                    ++ (value_args (codes "-c") raw.count
                                        ++ (value_args (codes "-i") raw.interval
                                            ++ (value_args (codes "-w") raw.deadline
                                                ++ (value_args (codes "-W") raw.timeout
                                                    ++ (edition_args raw.edition_set raw.edition
                                                        ++ (destination_args
                                                            raw.destination))))))))))))))

abbrev EditionIsGiven : Bool → Bytes → Type 0
EditionIsGiven true value = blank value ≡ false
EditionIsGiven false value = value ≡ []

-- Neither help nor the version is asked for, and an edition is set exactly where there is one.
abbrev pub IsRenderable : RawCliConfig → Type 0
IsRenderable raw =
    (raw.show_help ≡ false)
    × (raw.show_version ≡ false)
    × EditionIsGiven raw.edition_set raw.edition

module _ (set : Bool → RawCliConfig) (flag : Bytes) where
  plain_args-IsRead :
      ((rest : List Bytes)
        → scan_loop false (set false) (flag ∷ rest) ≡ scan_loop false (set true) rest)
      → (b : Bool) (rest : List Bytes)
      → scan_loop false (set false) (plain_args b flag ++ rest) ≡ scan_loop false (set b) rest
  plain_args-IsRead h true rest = h rest
  plain_args-IsRead h false rest = refl

module _ (set : Bytes → RawCliConfig) (flag : Bytes) where
  value_args-IsRead :
      ((c : ℕ) (cs : Bytes) (rest : List Bytes)
        → scan_loop false (set []) (flag ∷ (c ∷ cs) ∷ rest) ≡ scan_loop false (set (c ∷ cs)) rest)
      → (value : Bytes) (rest : List Bytes)
      → scan_loop false (set []) (value_args flag value ++ rest) ≡ scan_loop false (set value) rest
  value_args-IsRead h [] rest = refl
  value_args-IsRead h (c ∷ cs) rest = h c cs rest

-- The configurations behind the flags, in their order.
abbrev with_force_ipv4 : RawCliConfig → Bool → RawCliConfig
with_force_ipv4 raw x = record no_arguments { force_ipv4 = x }

abbrev with_force_ipv6 : RawCliConfig → Bool → RawCliConfig
with_force_ipv6 raw x = record (with_force_ipv4 raw raw.force_ipv4) { force_ipv6 = x }

abbrev with_quiet : RawCliConfig → Bool → RawCliConfig
with_quiet raw x = record (with_force_ipv6 raw raw.force_ipv6) { quiet = x }

abbrev with_timestamp : RawCliConfig → Bool → RawCliConfig
with_timestamp raw x = record (with_quiet raw raw.quiet) { timestamp = x }

abbrev with_numeric : RawCliConfig → Bool → RawCliConfig
with_numeric raw x = record (with_timestamp raw raw.timestamp) { numeric = x }

abbrev with_json : RawCliConfig → Bool → RawCliConfig
with_json raw x = record (with_numeric raw raw.numeric) { json = x }

abbrev with_java_alias : RawCliConfig → Bool → RawCliConfig
with_java_alias raw x = record (with_json raw raw.json) { java_alias = x }

abbrev with_bedrock_alias : RawCliConfig → Bool → RawCliConfig
with_bedrock_alias raw x = record (with_java_alias raw raw.java_alias) { bedrock_alias = x }

abbrev with_allow_private : RawCliConfig → Bool → RawCliConfig
with_allow_private raw x = record (with_bedrock_alias raw raw.bedrock_alias) { allow_private = x }

abbrev with_count : RawCliConfig → Bytes → RawCliConfig
with_count raw x = record (with_allow_private raw raw.allow_private) { count = x }

abbrev with_interval : RawCliConfig → Bytes → RawCliConfig
with_interval raw x = record (with_count raw raw.count) { interval = x }

abbrev with_deadline : RawCliConfig → Bytes → RawCliConfig
with_deadline raw x = record (with_interval raw raw.interval) { deadline = x }

abbrev with_timeout : RawCliConfig → Bytes → RawCliConfig
with_timeout raw x = record (with_deadline raw raw.deadline) { timeout = x }

reads_edition :
    (raw : RawCliConfig) (b : Bool) (value : Bytes) (rest : List Bytes)
    → EditionIsGiven b value
    → scan_loop false
        (record raw { edition = []; edition_set = false; show_help = false; show_version = false })
        (edition_args b value ++ rest)
      ≡ scan_loop false
          (record raw { edition = value; edition_set = b; show_help = false; show_version = false })
          rest
unfolding bytes_eq has_prefix index_byte scan_loop scan_arg consume_long_flag consume_short_flags
    short_loop short_flag
reads_edition raw true value rest h = rw (scan_loop, h)
reads_edition raw false value rest h = rw h

reads_destination :
    (raw : RawCliConfig) (value : Bytes)
    → scan_loop false
        (record raw { destination = []; show_help = false; show_version = false })
        (destination_args value)
      ≡ (record raw { destination = value; show_help = false; show_version = false }, status_ok)
unfolding bytes_eq has_prefix index_byte scan_loop scan_arg consume_long_flag consume_short_flags
    short_loop short_flag
reads_destination raw [] = refl
reads_destination raw (v ∷ vs) = refl

-- `scanArgv` reads back every configuration that asks for neither help nor the version and has an
-- edition that is not blank where it is set, and none where it is not: from its flags, in an order
-- of the flags, and its destination behind `--`.
pub scan_argv-rendered :
    (raw : RawCliConfig) → IsRenderable raw → scan_argv (rendered raw) ≡ (raw, status_ok)
unfolding scan_argv bytes_eq has_prefix index_byte scan_loop scan_arg consume_long_flag
    consume_short_flags short_loop short_flag
scan_argv-rendered raw (no_help, no_version, given) =
    plain_args-IsRead (with_force_ipv4 raw) (codes "-4") (λ rest. refl) raw.force_ipv4 _
    ∙ plain_args-IsRead (with_force_ipv6 raw) (codes "-6") (λ rest. refl) raw.force_ipv6 _
    ∙ plain_args-IsRead (with_quiet raw) (codes "-q") (λ rest. refl) raw.quiet _
    ∙ plain_args-IsRead (with_timestamp raw) (codes "-D") (λ rest. refl) raw.timestamp _
    ∙ plain_args-IsRead (with_numeric raw) (codes "-n") (λ rest. refl) raw.numeric _
    ∙ plain_args-IsRead (with_json raw) (codes "-j") (λ rest. refl) raw.json _
    ∙ plain_args-IsRead (with_java_alias raw) (codes "--java") (λ rest. refl) raw.java_alias _
    ∙ plain_args-IsRead (with_bedrock_alias raw) (codes "--bedrock") (λ rest. refl)
        raw.bedrock_alias _
    ∙ plain_args-IsRead (with_allow_private raw) (codes "--allow-private") (λ rest. refl)
        raw.allow_private _
    ∙ value_args-IsRead (with_count raw) (codes "-c") (λ c cs rest. refl) raw.count _
    ∙ value_args-IsRead (with_interval raw) (codes "-i") (λ c cs rest. refl) raw.interval _
    ∙ value_args-IsRead (with_deadline raw) (codes "-w") (λ c cs rest. refl) raw.deadline _
    ∙ value_args-IsRead (with_timeout raw) (codes "-W") (λ c cs rest. refl) raw.timeout _
    ∙ reads_edition (with_timeout raw raw.timeout) raw.edition_set raw.edition _ given
    ∙ reads_destination
        (record (with_timeout raw raw.timeout) {
          edition = raw.edition;
          edition_set = raw.edition_set;
        })
        raw.destination
    ∙ ap₂ (λ h v. (record raw { show_help = h; show_version = v }, status_ok)) (sym no_help)
        (sym no_version)
