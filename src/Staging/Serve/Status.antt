-- ===== src/Staging/Serve/Status.antt =====
-- internal/stagingserver/bedrock.go, server.go: the status that `Serve` makes up for its listeners.
use minecraft_ping.Base.{
  ℕ, ◌≡◌, ◌≤◌, refl, ap, ◌∙◌, true, false, [], ◌∷◌, ◌++◌, Bytes, length, length-append,
  if◌then◌else◌, ltb, ok, bytes_eq, bytes_eq_iff, arith,
}
use minecraft_ping.Base.Int.{ℤ, pos}
use minecraft_ping.Text.{codes, decimal, has_prefix}
use minecraft_ping.Text.Utf8.{utf8_valid, utf8_loop}
use minecraft_ping.Text.Decimal.{decimal-All, decimal-length, digits-ascii, utf8_loop-ascii}
use minecraft_ping.Staging.Bedrock.{validate_bedrock_status, max_bedrock_status_length}
use minecraft_ping.Staging.Serve.{
  ServerConfig, ServeWorld, udp_addr, is_to4, default_bedrock_status, ports_loop,
  default_bedrock_status_for_listeners, local_addrs, packet_blocks, refused_status, bedrock_enabled,
  status_or_default, bedrock_status_of,
}
use minecraft_ping.Effects.{packet_listener4, packet_listener6}

abbrev IsPort16 : ℤ → Type 0
IsPort16 port = (n : ℕ) × (port ≡ pos n) × (n ≤ 65535)

accepted :
    (status : Bytes)
    → bytes_eq status [] ≡ false
    → utf8_valid status ≡ true
    → ltb max_bedrock_status_length (length status) ≡ false
    → has_prefix status (codes "MCPE;") ≡ true
    → validate_bedrock_status status ≡ ok tt
unfolding validate_bedrock_status
accepted status some_text valid short prefix = rw (some_text, valid, short, prefix) refl

ltb-false : (m n : ℕ) → n ≤ m → ltb m n ≡ false
ltb-false m n h = ground arith

default-utf8_valid : (p q : ℕ) → utf8_valid (default_bedrock_status (pos p) (pos q)) ≡ true
unfolding default_bedrock_status utf8_valid utf8_loop
default-utf8_valid p q =
    utf8_loop-ascii (decimal (pos p)) _ (digits-ascii (decimal (pos p)) (decimal-All p))
    ∙ utf8_loop-ascii (decimal (pos q)) _ (digits-ascii (decimal (pos q)) (decimal-All q))

default-length :
    (p q : ℕ)
    → p ≤ 65535
    → q ≤ 65535
    → length (default_bedrock_status (pos p) (pos q)) ≤ max_bedrock_status_length
unfolding default_bedrock_status
default-length p q hp hq = omega (
  arith,
  decimal-length p 4 (omega (arith, hp)),
  decimal-length q 4 (omega (arith, hq)),
  length-append (decimal (pos p)) (b';' ∷ (decimal (pos q) ++ codes ";0;")),
  length-append (decimal (pos q)) (codes ";0;"),
)

default-not_empty : (p q : ℕ) → bytes_eq (default_bedrock_status (pos p) (pos q)) [] ≡ false
unfolding default_bedrock_status bytes_eq
default-not_empty p q = refl

default-begins :
    (p q : ℕ) → has_prefix (default_bedrock_status (pos p) (pos q)) (codes "MCPE;") ≡ true
unfolding default_bedrock_status has_prefix
default-begins p q = refl

default-accepted :
    (p q : ℤ)
    → IsPort16 p
    → IsPort16 q
    → validate_bedrock_status (default_bedrock_status p q) ≡ ok tt
default-accepted p q (n, ep, hp) (m, eq', hq) =
    ap (λ z. validate_bedrock_status (default_bedrock_status z q)) ep
    ∙ ap (λ z. validate_bedrock_status (default_bedrock_status (pos n) z)) eq'
    ∙ accepted (default_bedrock_status (pos n) (pos m)) (default-not_empty n m)
        (default-utf8_valid n m)
        (ltb-false max_bedrock_status_length (length (default_bedrock_status (pos n) (pos m)))
          (default-length n m hp hq))
        (default-begins n m)

-- The status by its text, and the port of a socket for an address, or the default without one.
abbrev pub made_up_status : ℕ → ℕ → Bytes
made_up_status ipv4_port ipv6_port =
    codes "MCPE;minecraft-ping staging;924;1.26.3;0;10;1;staging;Creative;1;"
    ++ (decimal (pos ipv4_port) ++ (b';' ∷ (decimal (pos ipv6_port) ++ codes ";0;")))

abbrev pub socket_port : Bytes → ℕ → ℕ → ℕ
socket_port [] port default = default
socket_port (c ∷ address) port default = port

made_up-accepted :
    (p q : ℕ) → p ≤ 65535 → q ≤ 65535 → validate_bedrock_status (made_up_status p q) ≡ ok tt
unfolding default_bedrock_status
made_up-accepted p q hp hq = default-accepted (pos p) (pos q) (p, refl, hp) (q, refl, hq)

module _ {E : Type 0} (w : ServeWorld E) (ip4 ip6 : Bytes) (port4 port6 : ℕ) where
  made_up :
      (a4 a6 : Bytes)
      → w.local_addr packet_listener4 ≡ udp_addr ip4 (pos port4)
      → w.local_addr packet_listener6 ≡ udp_addr ip6 (pos port6)
      → is_to4 ip4 ≡ true
      → is_to4 ip6 ≡ false
      → length ip6 ≡ 16
      → default_bedrock_status_for_listeners
          (local_addrs w ((packet_listener4, a4) ∷ (packet_listener6, a6) ∷ []))
        ≡ made_up_status (socket_port a4 port4 19132) (socket_port a6 port6 19133)
  unfolding default_bedrock_status_for_listeners ports_loop default_bedrock_status bytes_eq
  made_up [] [] e4 e6 v4 v6 wide = refl
  made_up [] (c ∷ a6) e4 e6 v4 v6 wide = rw e6 (rw v6 (rw wide refl))
  made_up (c ∷ a4) [] e4 e6 v4 v6 wide = rw e4 (rw v4 refl)
  made_up (c ∷ a4) (d ∷ a6) e4 e6 v4 v6 wide = rw e4 (rw v4 (rw e6 (rw v6 (rw wide refl))))

  socket_port-le :
      (a : Bytes) (port default : ℕ)
      → port ≤ 65535
      → default ≤ 65535
      → socket_port a port default ≤ 65535
  socket_port-le [] port default h k = k
  socket_port-le (c ∷ a) port default h k = h

  -- Where a Bedrock address is given and no Bedrock status, `Serve` makes up the status text with
  -- the port of its IPv4 socket and then that of its IPv6 socket, 19132 and 19133 where it has no
  -- such socket, and never refuses it; for sockets with an address of their own family, and ports
  -- of 16 bits.
  pub bedrock_status_of-default :
      (cfg : ServerConfig)
      → w.local_addr packet_listener4 ≡ udp_addr ip4 (pos port4)
      → w.local_addr packet_listener6 ≡ udp_addr ip6 (pos port6)
      → is_to4 ip4 ≡ true
      → is_to4 ip6 ≡ false
      → length ip6 ≡ 16
      → port4 ≤ 65535
      → port6 ≤ 65535
      → bedrock_enabled w cfg ≡ true
      → cfg.bedrock_status ≡ []
      → bedrock_status_of w cfg
        ≡ ok (
            made_up_status
              (socket_port cfg.bedrock_listen_ipv4 port4 19132)
              (socket_port cfg.bedrock_listen_ipv6 port6 19133))
  unfolding bedrock_status_of
  bedrock_status_of-default cfg e4 e6 v4 v6 wide h4 h6 enabled none_given =
      let p = socket_port cfg.bedrock_listen_ipv4 port4 19132 in
      let q = socket_port cfg.bedrock_listen_ipv6 port6 19133 in
      let blank = (bytes_eq_iff cfg.bedrock_status []).1 none_given in
      let text : status_or_default w cfg ≡ made_up_status p q =
        ap
          (λ b.
            if b
            then default_bedrock_status_for_listeners (local_addrs w (packet_blocks w cfg))
            else cfg.bedrock_status)
          blank
        ∙ made_up cfg.bedrock_listen_ipv4 cfg.bedrock_listen_ipv6 e4 e6 v4 v6 wide in
      ap
        (λ b.
          if b
          then refused_status w (status_or_default w cfg)
              (validate_bedrock_status (status_or_default w cfg))
          else ok cfg.bedrock_status)
        enabled
      ∙ ap (λ t. refused_status w t (validate_bedrock_status t)) text
      ∙ ap (refused_status w (made_up_status p q)) (
          made_up-accepted p q (socket_port-le cfg.bedrock_listen_ipv4 port4 19132 h4 (omega arith))
            (socket_port-le cfg.bedrock_listen_ipv6 port6 19133 h6 (omega arith)))
