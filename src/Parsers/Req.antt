-- ===== src/Parsers/Req.antt =====
-- src/parsers/req_parser.c and src/parsers/req_parser.h: the request, with a command, an address of
-- one of three kinds and a port.
--
-- `where_to` points into one of four byte arrays of the parser. A store through a null pointer, or out
-- of the array, is a fault. A port is kept as its two bytes in memory, in network order.
pub mod ResState
pub mod ReqCmd
pub mod ReqAtyp
pub mod Address
pub mod Message
use tpe_socks.Prelude.{
  ℕ, zero, suc, ◌+◌, Bool, true, false, Option, none, some, List, [], ◌∷◌, ◌==◌, ◌||◌, ◌&&◌,
  if◌then◌else◌, ◌>>=◌, ltb, set, length, get_or, replicate,
}
use tpe_socks.Prelude.Int.{ℤ, pos, negsuc}
use tpe_socks.Buffer.{Buffer}
use tpe_socks.Buffer.Loop.{parse_full}
use tpe_socks.Parsers.Conn.{socks_version}

-- `enum req_state`.
pub data ReqState : Type 0 where
  req_ver req_cmd req_rsv req_atyp req_dst_addr req_dst_port req_error req_done : ReqState

-- `sa_family_t`; the numbers are the system's.
pub data Family : Type 0 where
  af_unspec af_inet af_inet6 : Family

-- What the program uses of `struct sockaddr_in` and of `struct sockaddr_in6`.
pub record Sockaddr : Type 0 where
  pub family : Family
  pub port : List ℕ
  pub addr : List ℕ

-- `struct req_dst_addr`.
pub record DstAddr : Type 0 where
  pub ipv4 : Sockaddr
  pub ipv6 : Sockaddr
  pub fqdn : List ℕ

-- `struct res_parser`.
pub record ResParser : Type 0 where
  pub state : ℕ
  pub type : ℕ
  pub addr : DstAddr
  pub port : List ℕ

-- The arrays that the parser fills, and pointers into them.
pub data Array : Type 0 where
  sin_addr s6_addr fqdn_name port_bytes : Array

pub data Target : Type 0 where
  null : Target
  at : Array → ℕ → Target

-- `struct req_parser`.
pub record ReqParser : Type 0 where
  pub state : ReqState
  pub to_parse : ℤ
  pub where_to : Target
  pub cmd : ℕ
  pub type : ℕ
  pub addr : DstAddr
  pub port : List ℕ
  pub res_parser : ResParser

abbrev pub get_array : Array → ReqParser → List ℕ
get_array sin_addr p = p.addr.ipv4.addr
get_array s6_addr p = p.addr.ipv6.addr
get_array fqdn_name p = p.addr.fqdn
get_array port_bytes p = p.port

abbrev pub set_array : Array → List ℕ → ReqParser → ReqParser
set_array sin_addr xs p = record p {
  addr = record (p.addr) { ipv4 = record (p.addr.ipv4) { addr = xs } };
}
set_array s6_addr xs p = record p {
  addr = record (p.addr) { ipv6 = record (p.addr.ipv6) { addr = xs } };
}
set_array fqdn_name xs p = record p { addr = record (p.addr) { fqdn = xs } }
set_array port_bytes xs p = record p { port = xs }

-- `*where_to = byte`.
unfoldable pub store : Target → ℕ → ReqParser → Option ReqParser
store null byte p = none
store (at a i) byte p =
    if ltb i (length (get_array a p))
    then some (set_array a (set (get_array a p) i byte) p)
    else none

abbrev pub next : Target → Target
next null = null
next (at a i) = at a (suc i)

abbrev pub dec : ℤ → ℤ
dec (pos zero) = negsuc 0
dec (pos (suc n)) = pos n
dec (negsuc n) = negsuc (suc n)

abbrev pub is_zero : ℤ → Bool
is_zero (pos n) = n == 0
is_zero (negsuc n) = false

-- -2.
abbrev pub first_fqdn_byte_parse : ℤ
first_fqdn_byte_parse = negsuc 1

abbrev pub is_first_fqdn_byte : ℤ → Bool
is_first_fqdn_byte (pos n) = false
is_first_fqdn_byte (negsuc n) = n == 1

unfoldable pub req_parser_init : ReqParser → ReqParser
req_parser_init p = record p {
  state = req_ver;
  to_parse = pos 0;
  where_to = null;
  cmd = ReqCmd.none_yet;
  type = ReqAtyp.none_yet;
  port = 0 ∷ 0 ∷ [];
}

unfoldable pub set_dst_port_config : ReqParser → ReqParser
set_dst_port_config p = record p {
  to_parse = pos 2;
  state = req_dst_port;
  where_to = at port_bytes 0;
}

unfoldable pub parse_addr_byte : ReqParser → ℕ → Option ReqParser
unfolding store set_dst_port_config
parse_addr_byte parser byte = store parser.where_to byte parser >>= λ p.
    let q = record p { where_to = next p.where_to; to_parse = dec p.to_parse } in
    if is_zero q.to_parse then some (set_dst_port_config q) else some q

-- The cases of `REQ_ATYP`; `memset` clears the whole `sockaddr`.
unfoldable pub parse_atyp : ReqParser → ℕ → ReqParser
parse_atyp parser byte =
    let p = record parser { type = byte } in
    if byte == ReqAtyp.ipv4
    then record p {
      addr = record (p.addr) {
        ipv4 = record { family = af_inet; port = 0 ∷ 0 ∷ []; addr = replicate 4 0 };
      };
      to_parse = pos 4;
      where_to = at sin_addr 0;
      state = req_dst_addr;
    }
    else if byte == ReqAtyp.ipv6
    then record p {
      addr = record (p.addr) {
        ipv6 = record { family = af_inet6; port = 0 ∷ 0 ∷ []; addr = replicate 16 0 };
      };
      to_parse = pos 16;
      where_to = at s6_addr 0;
      state = req_dst_addr;
    }
    else if byte == ReqAtyp.fqdn
    then record p {
      where_to = at fqdn_name 0;
      to_parse = first_fqdn_byte_parse;
      state = req_dst_addr;
    }
    else record p { state = req_error }

-- The case of `REQ_DST_ADDR`: of a name, the first byte is its length.
unfoldable pub parse_dst_addr : ReqParser → ℕ → Option ReqParser
unfolding parse_addr_byte store set_dst_port_config
parse_dst_addr parser byte =
    if (parser.type == ReqAtyp.fqdn) && is_first_fqdn_byte parser.to_parse
    then if byte == 0
      then some (set_dst_port_config parser)
      else (store (at fqdn_name byte) 0 (record parser { to_parse = pos byte }) >>= λ p.
          some (record p { state = req_dst_addr }))
    else parse_addr_byte parser byte

-- The case of `REQ_DST_PORT`.
unfoldable pub parse_port : ReqParser → ℕ → Option ReqParser
unfolding store
parse_port parser byte = store parser.where_to byte parser >>= λ p.
    let q = record p { where_to = next p.where_to; to_parse = dec p.to_parse } in
    if is_zero q.to_parse then some (record q { state = req_done }) else some q

dispatch : ReqState → ReqParser → ℕ → Option ReqParser
unfolding parse_atyp parse_dst_addr parse_port
dispatch req_ver p byte =
    some (record p { state = if byte == socks_version then req_cmd else req_error })
dispatch req_cmd p byte =
    if (byte == ReqCmd.connect) || (byte == ReqCmd.bind) || (byte == ReqCmd.udp)
    then some (record p { cmd = byte; state = req_rsv })
    else some (record p { state = req_error })
dispatch req_rsv p byte = some (record p { state = if byte == 0 then req_atyp else req_error })
dispatch req_atyp p byte = some (parse_atyp p byte)
dispatch req_dst_addr p byte = parse_dst_addr p byte
dispatch req_dst_port p byte = parse_port p byte
dispatch req_done p byte = some p
dispatch req_error p byte = some p

unfoldable pub req_parse_byte : ReqParser → ℕ → Option ReqParser
unfolding dispatch
req_parse_byte p byte = dispatch p.state p byte

abbrev pub is_final : ReqState → Bool
is_final req_error = true
is_final req_done = true
is_final _ = false

unfoldable pub req_parse_full : ReqParser → Buffer → Option (ReqParser × Buffer)
unfolding req_parse_byte parse_full
req_parse_full = parse_full req_parse_byte (λ p. is_final p.state)

-- `errno` after a failed connection, as far as the program tells values apart.
pub data Errno : Type 0 where
  no_error econnrefused ehostunreach enetunreach etimedout other_error : Errno

unfoldable pub errno_to_req_response_state : Errno → ℕ
errno_to_req_response_state no_error = ResState.success
errno_to_req_response_state econnrefused = ResState.conn_refused
errno_to_req_response_state ehostunreach = ResState.host_unreachable
errno_to_req_response_state enetunreach = ResState.net_unreachable
errno_to_req_response_state etimedout = ResState.ttl_expired
errno_to_req_response_state other_error = ResState.cmd_unsupported
