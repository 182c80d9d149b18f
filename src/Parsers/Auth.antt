-- ===== src/Parsers/Auth.antt =====
-- src/parsers/auth_parser.c and src/parsers/auth_parser.h: the username and password message.
--
-- `where_to` points into one of the two arrays of the parser. A store through a null pointer, or out
-- of the array, is a fault.
pub mod Credentials
pub mod Aims
pub mod Steps
pub mod Safety
use tpe_socks.Prelude.{
  ℕ, suc, ◌+◌, ◌-◌, ◌%◌, Bool, true, false, Option, none, some, List, ◌==◌, if◌then◌else◌, ◌>>=◌,
  ltb, set, length,
}
use tpe_socks.Buffer.{Buffer}
use tpe_socks.Buffer.Loop.{parse_full}

abbrev pub auth_version : ℕ
auth_version = 0x01

abbrev pub max_len : ℕ
max_len = 255

-- `enum auth_state`.
pub data AuthState : Type 0 where
  auth_ver auth_ulen auth_uname auth_plen auth_passwd auth_done auth_error : AuthState

-- A pointer to an element of `username` or of `password`.
pub data Target : Type 0 where
  null : Target
  in_username : ℕ → Target
  in_password : ℕ → Target

-- `struct auth_parser`.
pub record AuthParser : Type 0 where
  pub state : AuthState
  pub to_parse : ℕ
  pub where_to : Target
  pub username : List ℕ
  pub password : List ℕ

-- The arrays keep what they held.
unfoldable pub auth_parser_init : AuthParser → AuthParser
auth_parser_init parser = record parser { state = auth_ver; to_parse = 0; where_to = null }

-- `target[i] = byte`.
unfoldable pub store : Target → ℕ → ℕ → AuthParser → Option AuthParser
store null i byte parser = none
store (in_username k) i byte parser =
    if ltb (k + i) (length parser.username)
    then some (record parser { username = set parser.username (k + i) byte })
    else none
store (in_password k) i byte parser =
    if ltb (k + i) (length parser.password)
    then some (record parser { password = set parser.password (k + i) byte })
    else none

abbrev pub next : Target → Target
next null = null
next (in_username k) = in_username (suc k)
next (in_password k) = in_password (suc k)

abbrev pub is_uname : AuthState → Bool
is_uname auth_uname = true
is_uname _ = false

abbrev pub is_ulen : AuthState → Bool
is_ulen auth_ulen = true
is_ulen _ = false

-- `uint8_t to_parse` wraps at 0.
unfoldable pub plain_parse_byte : AuthParser → ℕ → Option AuthParser
unfolding store
plain_parse_byte parser byte = store parser.where_to 0 byte parser >>= λ p.
    let left = (p.to_parse + 255) % 256 in
    if left == 0
    then some (record p {
      to_parse = left;
      state = if is_uname p.state then auth_plen else auth_done;
      where_to = null;
    })
    else some (record p { to_parse = left; where_to = next p.where_to })

unfoldable pub set_len_to_parse : AuthParser → ℕ → Option AuthParser
unfolding store
set_len_to_parse parser to_parse =
    if to_parse == 0
    then some (record parser { state = if is_ulen parser.state then auth_plen else auth_done })
    else (let target = if is_ulen parser.state then in_username 0 else in_password 0 in
        store target to_parse 0 (record parser {
          to_parse = to_parse;
          state = if is_ulen parser.state then auth_uname else auth_passwd;
          where_to = target;
        }))

dispatch : AuthState → AuthParser → ℕ → Option AuthParser
unfolding set_len_to_parse plain_parse_byte
dispatch auth_ver parser byte =
    some (record parser { state = if byte == auth_version then auth_ulen else auth_error })
dispatch auth_ulen parser byte = set_len_to_parse parser byte
dispatch auth_plen parser byte = set_len_to_parse parser byte
dispatch auth_uname parser byte = plain_parse_byte parser byte
dispatch auth_passwd parser byte = plain_parse_byte parser byte
dispatch auth_done parser byte = some parser
dispatch auth_error parser byte = some parser

unfoldable pub auth_parse_byte : AuthParser → ℕ → Option AuthParser
unfolding dispatch
auth_parse_byte parser byte = dispatch parser.state parser byte

abbrev pub is_final : AuthState → Bool
is_final auth_done = true
is_final auth_error = true
is_final _ = false

unfoldable pub auth_parse_full : AuthParser → Buffer → Option (AuthParser × Buffer)
unfolding auth_parse_byte parse_full
auth_parse_full = parse_full auth_parse_byte (λ p. is_final p.state)
