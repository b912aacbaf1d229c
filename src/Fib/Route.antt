-- ===== src/Fib/Route.antt =====
-- sartd/src/fib/src/route.rs: routes and the numbers of their parts. `N` is the type `ipnet::IpNet`.
pub mod Multipath
use sart.Common.{
  ℕ, ◌==◌, ◌||◌, Bool, true, false, not, Option, none, some, List, [], ◌∷◌, ◌++◌, if◌then◌else◌,
  length, Outcome, ok, err, Eq, suc,
}
use sart.Net.{Ipv4Addr, Ipv6Addr, IpAddr}
use sart.Net.Equality.{addr_eq}

pub data Error : Type 0 where
  failed_to_get_prefix invalid_ad_value invalid_protocol invalid_scope : Error
  invalid_type invalid_ip_version invalid_next_hop_flag : Error
  failed_to_parse_address multipath_is_not_equal : Error

-- `rtnetlink::IpVersion`
pub data IpVersion : Type 0 where
  v4 v6 : IpVersion

pub data NextHopFlags : Type 0 where
  empty dead pervasive onlink offload linkdown unresolved : NextHopFlags

pub data Scope : Type 0 where
  universe site link host nowhere : Scope

pub data Kind : Type 0 where
  unspec_type unicast local broadcast anycast multicast : Kind
  blackhole unreachable prohibit throw nat : Kind

pub data AdministrativeDistance : Type 0 where
  connected static ebgp ospf rip ibgp : AdministrativeDistance

pub data Protocol : Type 0 where
  unspec redirect kernel boot static bgp ospf rip : Protocol
  other : ℕ → Protocol

pub record NextHop : Type 0 where
  pub gateway : IpAddr
  pub weight : ℕ
  pub flags : NextHopFlags
  pub interface : ℕ

pub record Route (N : Type 0) : Type 0 where
  pub destination : N
  pub version : IpVersion
  pub protocol : Protocol
  pub scope : Scope
  pub kind : Kind
  pub next_hops : List NextHop
  pub source : Option IpAddr
  pub priority : ℕ
  pub ad : AdministrativeDistance
  pub table : ℕ

abbrev pub flags_number : NextHopFlags → ℕ
flags_number empty = 0
flags_number dead = 1
flags_number pervasive = 2
flags_number onlink = 3
flags_number offload = 4
flags_number linkdown = 16
flags_number unresolved = 32

unfoldable pub flags_try_from : ℕ → Outcome Error NextHopFlags
flags_try_from value =
    if value == 0
    then ok empty
    else if value == 1
    then ok dead
    else if value == 2
    then ok pervasive
    else if value == 3
    then ok onlink
    else if value == 4
    then ok offload
    else if value == 16
    then ok linkdown
    else if value == 32
    then ok unresolved
    else err invalid_next_hop_flag

abbrev pub scope_number : Scope → ℕ
scope_number universe = 0
scope_number site = 200
scope_number link = 253
scope_number host = 254
scope_number nowhere = 255

unfoldable pub scope_try_from : ℕ → Outcome Error Scope
scope_try_from value =
    if value == 0
    then ok universe
    else if value == 200
    then ok site
    else if value == 253
    then ok link
    else if value == 254
    then ok host
    else if value == 255
    then ok nowhere
    else err invalid_scope

abbrev pub kind_number : Kind → ℕ
kind_number unspec_type = 0
kind_number unicast = 1
kind_number local = 2
kind_number broadcast = 3
kind_number anycast = 4
kind_number multicast = 5
kind_number blackhole = 6
kind_number unreachable = 7
kind_number prohibit = 8
kind_number throw = 9
kind_number nat = 10

unfoldable pub kind_try_from : ℕ → Outcome Error Kind
kind_try_from value =
    if value == 0
    then ok unspec_type
    else if value == 1
    then ok unicast
    else if value == 2
    then ok local
    else if value == 3
    then ok broadcast
    else if value == 4
    then ok anycast
    else if value == 5
    then ok multicast
    else if value == 6
    then ok blackhole
    else if value == 7
    then ok unreachable
    else if value == 8
    then ok prohibit
    else if value == 9
    then ok throw
    else if value == 10
    then ok nat
    else err invalid_type

unfoldable pub to_safi : Kind → ℕ
to_safi kind = if kind_number kind == 3 || kind_number kind == 5 then 2 else 1

abbrev pub ad_number : AdministrativeDistance → ℕ
ad_number connected = 0
ad_number AdministrativeDistance.static = 1
ad_number ebgp = 20
ad_number AdministrativeDistance.ospf = 110
ad_number AdministrativeDistance.rip = 120
ad_number ibgp = 200

unfoldable pub ad_try_from : ℕ → Outcome Error AdministrativeDistance
ad_try_from value =
    if value == 0
    then ok connected
    else if value == 1
    then ok AdministrativeDistance.static
    else if value == 20
    then ok ebgp
    else if value == 110
    then ok AdministrativeDistance.ospf
    else if value == 120
    then ok AdministrativeDistance.rip
    else if value == 200
    then ok ibgp
    else err invalid_ad_value

unfoldable pub from_protocol : Protocol → Bool → AdministrativeDistance
from_protocol unspec internal = connected
from_protocol redirect internal = connected
from_protocol kernel internal = connected
from_protocol boot internal = connected
from_protocol (other _) internal = connected
from_protocol Protocol.static internal = AdministrativeDistance.static
from_protocol bgp internal = if internal then ibgp else ebgp
from_protocol Protocol.ospf internal = AdministrativeDistance.ospf
from_protocol Protocol.rip internal = AdministrativeDistance.rip

abbrev pub protocol_number : Protocol → ℕ
protocol_number unspec = 0
protocol_number redirect = 1
protocol_number kernel = 2
protocol_number boot = 3
protocol_number Protocol.static = 4
protocol_number bgp = 186
protocol_number Protocol.ospf = 188
protocol_number Protocol.rip = 189
protocol_number (other val) = val

unfoldable pub protocol_from : ℕ → Protocol
protocol_from value =
    if value == 0
    then unspec
    else if value == 1
    then redirect
    else if value == 2
    then kernel
    else if value == 3
    then boot
    else if value == 4
    then Protocol.static
    else if value == 186
    then bgp
    else if value == 188
    then Protocol.ospf
    else if value == 189
    then Protocol.rip
    else other value

-- A number for each protocol, for the derived equality.
abbrev pub protocol_key : Protocol → ℕ
protocol_key unspec = 0
protocol_key redirect = 1
protocol_key kernel = 2
protocol_key boot = 3
protocol_key Protocol.static = 4
protocol_key bgp = 5
protocol_key Protocol.ospf = 6
protocol_key Protocol.rip = 7
protocol_key (other val) = suc (suc (suc (suc (suc (suc (suc (suc val)))))))

unfoldable pub ip_version_from : ℕ → Outcome Error IpVersion
ip_version_from val =
    if val == 2
    then ok IpVersion.v4
    else if val == 10
    then ok IpVersion.v6
    else err invalid_protocol

unfoldable pub ip_version_into : IpVersion → ℕ
ip_version_into IpVersion.v4 = 2
ip_version_into IpVersion.v6 = 10

unfoldable pub ip_version_to_afi : IpVersion → ℕ
ip_version_to_afi IpVersion.v4 = 1
ip_version_to_afi IpVersion.v6 = 2

unfoldable pub parse_ipaddr : List ℕ → Outcome Error IpAddr
parse_ipaddr (a ∷ b ∷ c ∷ d ∷ []) = ok (IpAddr.v4 (record { a = a; b = b; c = c; d = d }))
parse_ipaddr octets =
    if length octets == 16
    then ok (IpAddr.v6 (record { octets = octets }))
    else err failed_to_get_prefix

-- Whether a next hop of the list has the gateway.
unfoldable pub has_gateway : IpAddr → List NextHop → Bool
has_gateway g [] = false
has_gateway g (n ∷ ns) = addr_eq n.gateway g || has_gateway g ns

-- The next hops whose gateway the other list has not.
unfoldable pub without : List NextHop → List NextHop → List NextHop
unfolding has_gateway
without others [] = []
without others (n ∷ ns) =
    let rest = without others ns in if not (has_gateway n.gateway others) then n ∷ rest else rest

module _ {N : Type 0} ⦃e : Eq N⦄ where
  -- The condition of `MultipathIsNotEqual`.
  unfoldable pub is_other_route : Route N → Route N → Bool
  unfolding ip_version_into
  is_other_route r second =
      not (e.beq r.destination second.destination)
      || not (ip_version_into r.version == ip_version_into second.version)
      || not (protocol_key r.protocol == protocol_key second.protocol)
      || not (scope_number r.scope == scope_number second.scope)
      || not (kind_number r.kind == kind_number second.kind)
      || not (ad_number r.ad == ad_number second.ad)
      || not (r.table == second.table)

  unfoldable pub merge_multipath : Route N → Route N → Outcome Error (Route N)
  unfolding is_other_route without
  merge_multipath r second =
      if is_other_route r second
      then err multipath_is_not_equal
      else ok (record r { next_hops = r.next_hops ++ without r.next_hops second.next_hops })

  unfoldable pub pop_multipath : Route N → Route N → Outcome Error (Route N)
  unfolding is_other_route without
  pop_multipath r second =
      if is_other_route r second
      then err multipath_is_not_equal
      else ok (record r { next_hops = without second.next_hops r.next_hops })
