-- ===== src/Parsers/Conn.antt =====
-- src/parsers/conn_parser.c and src/parsers/conn_parser.h: the greeting, which lists the
-- authentication methods that the client offers.
pub mod Select
use tpe_socks.Prelude.{
  ℕ, ◌-◌, Bool, true, false, not, ◌&&◌, ◌||◌, Option, some, ◌==◌, if◌then◌else◌,
}
use tpe_socks.Buffer.{Buffer}
use tpe_socks.Buffer.Loop.{parse_full}

-- `enum conn_state`.
pub data ConnState : Type 0 where
  conn_version conn_nmethods conn_methods conn_done conn_error : ConnState

abbrev pub socks_version : ℕ
socks_version = 0x05

-- `enum auth_method`; a method is the byte itself, since the parser stores what it reads.
abbrev pub no_auth : ℕ
no_auth = 0x00

abbrev pub gssapi : ℕ
gssapi = 0x01

abbrev pub user_pass : ℕ
user_pass = 0x02

abbrev pub no_methods : ℕ
no_methods = 0xff

-- `struct conn_parser`, without `buff`, which nothing reads.
pub record ConnParser : Type 0 where
  pub auth : ℕ
  pub state : ConnState
  pub to_parse : ℕ

unfoldable pub start_connection_parser : ConnParser
start_connection_parser = record { auth = no_methods; state = conn_version; to_parse = 0 }

-- `needs_auth()` is an argument.
unfoldable pub set_new_method : Bool → ConnParser → ℕ → ConnParser
set_new_method needs_auth parser to_parse =
    if to_parse == user_pass
      || (not needs_auth && (to_parse == no_auth) && not (parser.auth == user_pass))
    then record parser { auth = to_parse }
    else parser

-- `to_parse` is at least 1 in `CONN_METHODS`, where alone it is counted down.
dispatch : Bool → ConnState → ConnParser → ℕ → ConnParser
unfolding set_new_method
dispatch needs_auth conn_version parser byte =
    if byte == socks_version
    then record parser { state = conn_nmethods }
    else record parser { state = conn_error }
dispatch needs_auth conn_nmethods parser byte =
    if byte == 0
    then record parser { state = conn_done }
    else record parser { to_parse = byte; state = conn_methods }
dispatch needs_auth conn_methods parser byte =
    let p = set_new_method needs_auth parser byte in
    if p.to_parse - 1 == 0
    then record p { to_parse = p.to_parse - 1; state = conn_done }
    else record p { to_parse = p.to_parse - 1 }
dispatch needs_auth conn_done parser byte = parser
dispatch needs_auth conn_error parser byte = parser

unfoldable pub conn_parse_byte : Bool → ConnParser → ℕ → ConnParser
unfolding dispatch
conn_parse_byte needs_auth parser byte = dispatch needs_auth parser.state parser byte

abbrev pub is_final : ConnState → Bool
is_final conn_done = true
is_final conn_error = true
is_final _ = false

-- The loop returns `parser->state` on each of its ways out.
unfoldable pub conn_parse_full : Bool → ConnParser → Buffer → Option (ConnParser × Buffer)
unfolding conn_parse_byte parse_full
conn_parse_full needs_auth =
    parse_full (λ p c. some (conn_parse_byte needs_auth p c)) (λ p. is_final p.state)
