-- ===== src/Server.antt =====
-- src/server.c: the listening sockets, the connections that they accept, and the end of a SOCKS5
-- connection.
--
-- What the system answers is an argument. The loop of `start_server` over `selector_select` is not modelled.
pub mod Close
use tpe_socks.Prelude.{
  ℕ, ◌+◌, Bool, true, false, not, Option, none, some, List, [], ◌∷◌, ◌++◌, ◌>>=◌, if◌then◌else◌,
  ◌==◌, ◌&&◌,
}
use tpe_socks.Prelude.Int.{ℤ, pos, negsuc}
use tpe_socks.Metrics.{add_socks_connection, remove_current_socks_connection}
use tpe_socks.Selector.{Handler, Item, selector_register, selector_unregister_fd}
use tpe_socks.Socks.Conn.{SocksConn, World, op_read, new_socks_conn, is_success}
use tpe_socks.Socks.Request.{conn_actions_handler}

abbrev no_fd : ℤ
no_fd = negsuc 0

abbrev is_no_fd : ℤ → Bool
is_no_fd (negsuc n) = n == 0
is_no_fd (pos _) = false

-- `selector_unregister_fd`, whose status is ignored, and `close`.
pub drop_fd : ℤ → World → Option World
drop_fd fd w = selector_unregister_fd w.selector fd false >>= λ (_, s, _).
    some (record w { selector = s; closed = w.closed ++ fd ∷ [] })

-- `close_socks_conn`; the blocks of the connection are freed, so that nothing of it is left.
pub close_socks_conn : SocksConn → World → Option World
close_socks_conn c w = (if is_no_fd c.src_socket then some w else drop_fd c.src_socket w) >>= λ w'.
    let counted = record (w'.server) {
      metrics = remove_current_socks_connection w'.server.metrics;
    } in
    if is_no_fd c.cli_socket then some w' else drop_fd c.cli_socket (record w' { server = counted })

-- The results of `accept` and `selector_fd_set_nio`, and the allocations: the block's address, what is
-- in the two arrays, and whether the table of the selector can grow.
pub record Accepting : Type 0 where
  pub accept : Option ℕ
  pub nio : Bool
  pub self : ℕ
  pub aux_read_buff : List ℕ
  pub aux_write_buff : List ℕ
  pub alloc : Bool

-- A connection that could not be set up is closed.
pub give_up : SocksConn → World → Option (Option SocksConn × World)
give_up c w = close_socks_conn c w >>= λ w'. some (none, w')

-- The connection that is accepted, if there is one.
pub passive_socks_socket_handler : Accepting → World → Option (Option SocksConn × World)
passive_socks_socket_handler a w =
    let c = new_socks_conn a.self a.aux_read_buff a.aux_write_buff in
    elim a.accept [
      | none ↦ give_up (record c { cli_socket = no_fd }) w
      | some fd ↦
          let c' = record c { cli_socket = pos fd } in
          if not a.nio
          then give_up c' w
          else (selector_register a.alloc w.selector (pos fd)
                (record { interest = op_read; handler = conn_actions_handler; attached = a.self })
              >>= λ (t, s).
                  let w' = record w { selector = s } in
                  let counted = record (w.server) {
                    metrics = add_socks_connection w.server.metrics;
                  } in
                  if is_success t
                  then some (some c', record w' { server = counted })
                  else give_up c' w')
    ]

-- The results of the calls of `start_socket`, in order; `garbage` is what the variable of the descriptor
-- holds before it is set.
record Opening : Type 0 where
  pub getaddrinfo : Bool
  pub garbage : ℤ
  pub socket : Option ℕ
  pub reuse_addr : Bool
  pub v6only : Bool
  pub bind : Bool
  pub listen : Bool
  pub alloc : Bool

-- `finally` with `error` set.
unfoldable failed_socket : ℤ → World → Option (ℤ × World)
failed_socket fd w =
    if is_no_fd fd then some (fd, w) else some (no_fd, record w { closed = w.closed ++ fd ∷ [] })

unfoldable start_socket : Opening → Handler → Bool → World → Option (ℤ × World)
start_socket o handler af_inet6 w =
    if not o.getaddrinfo then failed_socket o.garbage w else elim o.socket [
      | none ↦ failed_socket no_fd w
      | some fd ↦
          if not (o.reuse_addr && (if af_inet6 then o.v6only else true))
          then failed_socket (pos fd) w
          else if not o.bind
          then some (pos fd, w)
          else if not o.listen
          then failed_socket (pos fd) w
          else (selector_register o.alloc w.selector (pos fd)
                (record { interest = op_read; handler = handler; attached = 0 })
              >>= λ (t, s).
                  let w' = record w { selector = s } in
                  if is_success t then some (pos fd, w') else failed_socket (pos fd) w')
    ]
