-- ===== src/Address/Family.antt =====
-- endpoint.go: the address families.
use minecraft_ping.Base.{Bool, if◌then◌else◌, Result, ok, err, Bytes, []}
use minecraft_ping.Net.{Addr, is_valid, is4, is6, unmap}
use minecraft_ping.Text.{codes}
use minecraft_ping.Address.Errors.{AddressFamily, family4, family6, unnamed, Error, invalid_family}

unfoldable pub validate_family : AddressFamily → Result Error (Unit {0})
validate_family (unnamed f) = err (invalid_family f)
validate_family f = ok tt

pub resolver_network : AddressFamily → Bytes
resolver_network family4 = codes "ip4"
resolver_network family6 = codes "ip6"
resolver_network f = codes "ip"

unfoldable pub matches : AddressFamily → Addr → Bool
matches family4 addr = is4 (unmap addr)
matches family6 addr = is6 (unmap addr)
matches f addr = is_valid (unmap addr)

pub forced_flag : AddressFamily → Bytes
forced_flag family4 = codes "-4"
forced_flag family6 = codes "-6"
forced_flag f = []

pub family_name : AddressFamily → Bytes
family_name family4 = codes "IPv4"
family_name family6 = codes "IPv6"
family_name f = codes "IP"

pub family_for_addr : Addr → AddressFamily
family_for_addr addr = if is6 (unmap addr) then family6 else family4
