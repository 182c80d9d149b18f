-- ===== src/Socks/Request.antt =====
-- The request of src/socks5/socks5.c: reading it, resolving a name, connecting to the origin, and
-- writing the reply.
--
-- What the system and the allocator decide are arguments. The thread that resolves a name is the event
-- `req_dns_thread`, whose argument is the result of `getaddrinfo`.
use tpe_socks.Prelude.{
  ℕ, Bool, true, false, not, Option, none, some, List, [], ◌∷◌, ◌++◌, ◌>>=◌, if◌then◌else◌, ◌==◌,
  ◌&&◌,
}
use tpe_socks.Prelude.Int.{ℤ, pos, negsuc}
use tpe_socks.Buffer.{buffer_can_read}
use tpe_socks.Selector.{Handler, selector_register, selector_unregister_fd}
use tpe_socks.Parsers.Req.{
  ReqState, req_done, req_error, req_parser_init, req_parse_full, Errno, no_error,
  errno_to_req_response_state, Family, Sockaddr, af_unspec, af_inet, af_inet6,
}
use tpe_socks.Parsers.Req.ReqAtyp
use tpe_socks.Parsers.Req.ReqCmd
use tpe_socks.Parsers.Req.ResState
use tpe_socks.Socks.Conn.{
  SocksState, req_reading, req_writing, req_resolving, req_connecting, copying, failed, finished,
  AddrInfo, SocksConn, World, Next, Recv, Send, op_noop, op_read, op_write, check_buff_and_receive,
  check_buff_and_send, set_interest, is_success,
}
use tpe_socks.Socks.Hello.{write_then}
use tpe_socks.Socks.Response.{req_response_message, manage_req_error}

-- The results of `socket`, by the family it is given, of `connect`, by the address, and of the
-- allocation that `selector_register` may need.
pub data Connected : Type 0 where
  started : Connected
  refused : Errno → Connected

pub record Dial : Type 0 where
  pub socket : Family → Option ℕ
  pub connect : Sockaddr → Connected
  pub alloc : Bool

-- `conn_actions_handler` of src/server.c.
abbrev pub conn_actions_handler : Handler
conn_actions_handler = record { address = 1; has_close = true }

-- `selector_register` of the origin's socket.
unfoldable pub register_origin : Bool → ℕ → SocksConn → World → Next
register_origin alloc fd c w =
    selector_register alloc w.selector (pos fd)
      (record { interest = op_write; handler = conn_actions_handler; attached = c.self })
    >>= λ (t, s).
        some (if is_success t then req_connecting else failed, c, record w { selector = s })

unfoldable pub init_connection : Dial → SocksConn → World → Next
init_connection d c w = elim (d.socket c.src_addr_family) [
  | none ↦ some (failed, record c { src_socket = negsuc 0 }, w)
  | some fd ↦
      let c' = record c { src_socket = pos fd } in
      elim (d.connect c.src_addr) [
        | started ↦ set_interest w c.cli_socket op_noop >>= λ (t, w').
            let registered = register_origin d.alloc fd c' w' in
            if is_success t then registered else some (failed, c', w')
        | refused e ↦ manage_req_error (errno_to_req_response_state e) c' w
      ]
]

-- Whether the key's copy is allocated, and whether the thread starts.
pub record Thread : Type 0 where
  pub alloc : Bool
  pub created : Bool

unfoldable pub connect_ipv4 : Dial → SocksConn → World → Next
connect_ipv4 d c w =
    let p = c.req_parser in
    let addr = record (p.addr.ipv4) { port = p.port } in
    let p' = record p { addr = record (p.addr) { ipv4 = addr } } in
    init_connection d (record c { req_parser = p'; src_addr_family = af_inet; src_addr = addr }) w

unfoldable pub connect_ipv6 : Dial → SocksConn → World → Next
connect_ipv6 d c w =
    let p = c.req_parser in
    let addr = record (p.addr.ipv6) { port = p.port } in
    let p' = record p { addr = record (p.addr) { ipv6 = addr } } in
    init_connection d (record c { req_parser = p'; src_addr_family = af_inet6; src_addr = addr }) w

unfoldable pub resolve_name : ℤ → Thread → SocksConn → World → Next
resolve_name fd t c w =
    if not (t.alloc && t.created)
    then manage_req_error ResState.socks_fail c w
    else (set_interest w fd op_noop >>= λ (s, w').
        some (if is_success s then req_resolving else failed, c, w'))

unfoldable pub set_connection : ℤ → Dial → Thread → SocksConn → World → Next
set_connection fd d t c w =
    let type = c.req_parser.type in
    if type == ReqAtyp.ipv4
    then connect_ipv4 d c w
    else if type == ReqAtyp.ipv6
    then connect_ipv6 d c w
    else if type == ReqAtyp.fqdn
    then resolve_name fd t c w
    else some (failed, c, w)

unfoldable pub run_request : ℤ → Dial → Thread → SocksConn → World → Next
run_request fd d t c w =
    let cmd = c.req_parser.cmd in
    if cmd == ReqCmd.connect
    then set_connection fd d t c w
    else if cmd == ReqCmd.bind
    then manage_req_error ResState.cmd_unsupported c w
    else if cmd == ReqCmd.udp
    then manage_req_error ResState.cmd_unsupported c w
    else if cmd == ReqCmd.none_yet
    then some (finished, c, w)
    else some (failed, c, w)

unfoldable pub requested : ReqState → ℤ → Dial → Thread → SocksConn → World → Next
requested req_done fd d t c w = run_request fd d t c w
requested req_error fd d t c w = some (failed, c, w)
requested _ fd d t c w = some (req_reading, c, w)

unfoldable pub req_read : ℤ → Recv → Dial → Thread → SocksConn → World → Next
req_read fd r d t c w = check_buff_and_receive r c.read_buff >>= λ (n, b). elim n [
  | none ↦ some (failed, record c { req_parser = req_parser_init c.req_parser; read_buff = b }, w)
  | some _ ↦ req_parse_full (req_parser_init c.req_parser) b >>= λ (p, b').
      requested p.state fd d t (record c { req_parser = p; read_buff = b' }) w
]

-- No address if the name could not be resolved.
unfoldable pub req_dns_thread : List AddrInfo → SocksConn → SocksConn
req_dns_thread [] c = record c { resolved_addr = none; curr_addr = [] }
req_dns_thread (a ∷ rest) c = record c { resolved_addr = some (a ∷ rest); curr_addr = a ∷ rest }

-- The next address that the name has is tried; after the last one the client is told.
unfoldable pub req_dns : Dial → SocksConn → World → Next
req_dns d c w = elim c.curr_addr [
  | [] ↦ manage_req_error ResState.host_unreachable (record c { resolved_addr = none }) w
  | a ∷ rest ↦
      init_connection d
        (record c { src_addr_family = a.family; src_addr = a.addr; curr_addr = rest }) w
]

-- `set_response`, or nothing for -1.
unfoldable pub set_response : Family → SocksConn → Option SocksConn
set_response family c =
    let p = c.req_parser in
    let res = record (p.res_parser) { state = ResState.success; port = p.port } in
    elim family [
      | af_inet ↦ some (record c {
        req_parser = record p {
          res_parser = record res {
            type = ReqAtyp.ipv4;
            addr = record (res.addr) { ipv4 = c.src_addr };
          };
        };
      })
      | af_inet6 ↦ some (record c {
        req_parser = record p {
          res_parser = record res {
            type = ReqAtyp.ipv6;
            addr = record (res.addr) { ipv6 = c.src_addr };
          };
        };
      })
      | af_unspec ↦ none
    ]

-- Called for a request by name only.
abbrev pub clean_resolved_addr : SocksConn → SocksConn
clean_resolved_addr c =
    if c.req_parser.type == ReqAtyp.fqdn then record c { resolved_addr = none } else c

-- The origin is connected: the reply says so.
unfoldable pub reply_connected : ℤ → SocksConn → World → Next
reply_connected fd c w = set_interest w fd op_noop >>= λ (t, w').
    let then_client =
      (set_interest w' c.cli_socket op_write >>= λ (t', w'').
      let reply =
        (req_response_message c.write_buff c.req_parser.res_parser >>= λ (n, b).
        let next : SocksState = elim n [ none ↦ failed | some _ ↦ req_writing ] in
        some (next, record c { write_buff = b }, w'')) in
      if is_success t' then reply else some (failed, c, w'')) in
    if is_success t then then_client else some (failed, c, w')

-- The origin's socket is given up, and the next address is tried.
unfoldable pub retry : Dial → SocksConn → World → Next
retry d c w = selector_unregister_fd w.selector c.src_socket false >>= λ (_, s, _).
    req_dns d c (record w { selector = s; closed = w.closed ++ c.src_socket ∷ [] })

unfoldable pub connected_or_not : ℤ → Dial → Errno → SocksConn → World → Next
connected_or_not fd d no_error c w =
    let c' = clean_resolved_addr c in
    elim (set_response c'.src_addr_family c') [
      | none ↦ manage_req_error ResState.socks_fail c' w
      | some c'' ↦ reply_connected fd c'' w
    ]
connected_or_not fd d optval c w =
    if c.req_parser.type == ReqAtyp.fqdn
    then retry d c w
    else manage_req_error (errno_to_req_response_state optval) c w

-- `optval` is what `getsockopt` stores, or nothing if it fails.
unfoldable pub req_connect : ℤ → Option Errno → Dial → SocksConn → World → Next
req_connect fd optval d c w = elim optval [
  | none ↦ manage_req_error ResState.socks_fail (clean_resolved_addr c) w
  | some e ↦ connected_or_not fd d e c w
]

-- Once a refusal is sent the connection is over.
unfoldable pub write_refusal : Send → SocksConn → World → Next
write_refusal r c w = check_buff_and_send r c.write_buff >>= λ (n, b).
    let next : SocksState = elim n [
      | none ↦ failed
      | some _ ↦ if buffer_can_read b then req_writing else finished
    ] in
    some (next, record c { write_buff = b }, w)

-- A reply that is sent leads to the copy phase if it reports success.
unfoldable pub req_write : ℤ → Send → SocksConn → World → Next
req_write fd r c w =
    if c.req_parser.res_parser.state == ResState.success
    then (write_then fd r req_writing copying c w >>= λ (t, c', w'). elim t [
      | copying ↦ set_interest w' c'.src_socket op_read >>= λ (s, w'').
          some (if is_success s then copying else failed, c', w'')
      | other ↦ some (other, c', w')
    ])
    else write_refusal r c w
