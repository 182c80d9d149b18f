-- ===== src/Socks/Auth.antt =====
-- `auth_read` and `auth_write` of src/socks5/socks5.c: the username and password message and its answer.
use tpe_socks.Prelude.{ℕ, none, some, ◌>>=◌, c_string}
use tpe_socks.Prelude.Int.{ℤ, pos, negsuc}
use tpe_socks.Parsers.Auth.{
  AuthParser, AuthState, auth_done, auth_error, auth_parser_init, auth_parse_full, auth_version,
}
use tpe_socks.Users.{Users, process_authentication_request, set_curr_user}
use tpe_socks.Socks.Conn.{
  auth_reading, auth_writing, req_reading, failed, SocksConn, World, Next, Recv, Send,
  check_buff_and_receive,
}
use tpe_socks.Socks.Hello.{answer_when_set, write_then}

-- An `int` stored in a byte: 255 for -1.
abbrev pub status_byte : ℤ → ℕ
status_byte (pos _) = 0
status_byte (negsuc _) = 255

unfoldable pub log_in : ℤ → Users → AuthParser → Users
log_in (pos _) s p = set_curr_user s (c_string p.username)
log_in (negsuc _) s p = s

unfoldable pub authenticated : AuthState → ℤ → SocksConn → World → Next
authenticated auth_error fd c w = some (failed, c, w)
authenticated auth_done fd c w =
    let is_authenticated =
      process_authentication_request w.server.users (c_string c.auth_parser.username)
        (c_string c.auth_parser.password) in
    let users' = log_in is_authenticated w.server.users c.auth_parser in
    answer_when_set fd auth_version (status_byte is_authenticated) auth_writing c
      (record w { server = record (w.server) { users = users' } })
authenticated _ fd c w = some (auth_reading, c, w)

unfoldable pub auth_read : ℤ → Recv → SocksConn → World → Next
auth_read fd r c w = check_buff_and_receive r c.read_buff >>= λ (n, b). elim n [
  | none ↦
      some (failed, record c { auth_parser = auth_parser_init c.auth_parser; read_buff = b }, w)
  | some _ ↦ auth_parse_full (auth_parser_init c.auth_parser) b >>= λ (p, b').
      authenticated p.state fd (record c { auth_parser = p; read_buff = b' }) w
]

unfoldable pub auth_write : ℤ → Send → SocksConn → World → Next
auth_write fd r c w = write_then fd r auth_writing req_reading c w
