-- ===== src/Socks/Hello.antt =====
-- `hello_read` and `hello_write` of src/socks5/socks5.c: the greeting and its answer.
use tpe_socks.Prelude.{ℕ, none, some, [], ◌∷◌, ◌>>=◌, if◌then◌else◌, ltb, ◌==◌}
use tpe_socks.Prelude.Int.{ℤ}
use tpe_socks.Buffer.{buffer_can_read, buffer_write_ptr}
use tpe_socks.Control.Conn.{put}
use tpe_socks.Parsers.Conn.{
  ConnState, conn_done, conn_error, start_connection_parser, conn_parse_full, socks_version,
  no_auth, user_pass, gssapi, no_methods,
}
use tpe_socks.Users.{needs_auth}
use tpe_socks.Socks.Conn.{
  SocksState, hello_reading, hello_writing, auth_reading, req_reading, failed, finished, SocksConn,
  World, Next, Recv, Send, op_read, op_write, check_buff_and_receive, check_buff_and_send,
  set_interest, is_success,
}

-- Two bytes for the client, if there is room for them, and the state that follows.
unfoldable pub answer_two : ℕ → ℕ → SocksState → SocksConn → World → Next
answer_two x y next c w = buffer_write_ptr c.write_buff >>= λ (_, n_available).
    if ltb n_available 2
    then some (failed, c, w)
    else (put c.write_buff (x ∷ y ∷ []) >>= λ b. some (next, record c { write_buff = b }, w))

-- The interest in writing to `fd`, and then the answer.
unfoldable pub answer_when_set : ℤ → ℕ → ℕ → SocksState → SocksConn → World → Next
answer_when_set fd x y next c w = set_interest w fd op_write >>= λ (t, w').
    let answered = answer_two x y next c w' in
    if is_success t then answered else some (failed, c, w')

unfoldable pub greeted : ConnState → ℤ → SocksConn → World → Next
greeted conn_error fd c w = some (failed, c, w)
greeted conn_done fd c w = answer_when_set fd socks_version c.connect_parser.auth hello_writing c w
greeted _ fd c w = some (hello_reading, c, w)

-- `fd` is the descriptor of the key, which was given to the handler.
unfoldable pub hello_read : ℤ → Recv → SocksConn → World → Next
hello_read fd r c w = check_buff_and_receive r c.read_buff >>= λ (n, b). elim n [
  | none ↦ some (failed, record c { connect_parser = start_connection_parser; read_buff = b }, w)
  | some _ ↦ conn_parse_full (needs_auth w.server.users) start_connection_parser b >>= λ (p, b').
      greeted p.state fd (record c { connect_parser = p; read_buff = b' }) w
]

-- The state that the chosen method leads to.
unfoldable pub after_hello : ℕ → SocksState
after_hello auth =
    if auth == no_auth
    then req_reading
    else if auth == user_pass
    then auth_reading
    else if auth == gssapi
    then finished
    else if auth == no_methods
    then finished
    else failed

-- What is left to send keeps the state; then the connection is to be read, and `next` follows.
unfoldable pub write_then : ℤ → Send → SocksState → SocksState → SocksConn → World → Next
write_then fd r stay next c w = check_buff_and_send r c.write_buff >>= λ (n, b).
    let c' = record c { write_buff = b } in
    elim n [
      | none ↦ some (failed, c', w)
      | some _ ↦
          if buffer_can_read b
          then some (stay, c', w)
          else (set_interest w fd op_read >>= λ (t, w').
              some (if is_success t then next else failed, c', w'))
    ]

unfoldable pub hello_write : ℤ → Send → SocksConn → World → Next
hello_write fd r c w = write_then fd r hello_writing (after_hello c.connect_parser.auth) c w
