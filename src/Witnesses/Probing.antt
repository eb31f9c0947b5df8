-- ===== src/Witnesses/Probing.antt =====
-- java.go: `remoteAddrPort` at a concrete peer.
use minecraft_ping.Base.{◌≡◌, refl, none, some}
use minecraft_ping.Base.Int.{pos}
use minecraft_ping.Text.{codes}
use minecraft_ping.Net.{unmap, v4}
use minecraft_ping.Probing.{Peer, remote_addr_port}

abbrev peer : Peer
peer = record {
  text = some (codes "8.8.8.8:25565");
  parse_addr_port = λ text. none;
  lookup_port = λ text. some (pos 25565);
}

-- The text is not an address with a port to `parse_addr_port`, and is taken apart.
remote_addr_port_by_parts : remote_addr_port peer ≡ record { addr = v4 0x08080808; port = 25565 }
unfolding remote_addr_port unmap
remote_addr_port_by_parts = refl
