-- ===== src/Tests/Handshake.antt =====
-- The messages of a SOCKS5 client at descriptor 1.
use tpe_socks.Prelude.{
  ℕ, ◌+◌, ◌≡◌, refl, true, Option, none, some, [], ◌∷◌, ◌++◌, arith, length, replicate,
}
use tpe_socks.Prelude.Int.{pos, negsuc}
use tpe_socks.Buffer.{Buffer}
use tpe_socks.Buffer.Refine.{contents}
use tpe_socks.Selector as Sel
use tpe_socks.Selector.Highest.{slot}
use tpe_socks.Users.{find_credentials, needs_auth, process_authentication_request}
use tpe_socks.Parsers.Conn.Select.{preferred}
use tpe_socks.Parsers.Req.{ResParser, Family, econnrefused, af_inet}
use tpe_socks.Socks.Bytes.{Holds}
use tpe_socks.Socks.Conn.{
  SocksState, hello_writing, auth_writing, req_reading, req_connecting, AddrInfo, SocksConn, World,
  received, sent, op_read, op_write, new_socks_conn, no_dst_addr, set_interest,
}
use tpe_socks.Socks.Hello.{hello_read}
use tpe_socks.Socks.Auth.{auth_read, auth_write}
use tpe_socks.Socks.Response.{req_response_message}
use tpe_socks.Socks.Response.Bytes.{req_response_message_cut}
use tpe_socks.Socks.Request.{
  Dial, Thread, started, req_read, req_connect, connected_or_not, retry, req_dns, init_connection,
  register_origin,
}
use tpe_socks.Socks.Listening.{IsListening, IsTold, HasRoom}
use tpe_socks.Socks.Login.{IsText, refused_login_goes_on}
use tpe_socks.Socks.Handshake.{hello_read_lem}
use tpe_socks.Socks.Connecting.{IsConnecting, req_read_connect}
use tpe_socks.Socks.Attempts.{first, another, Attempts-bounded}
use tpe_socks.Tests.Socks.{item, table-IsValid, world}
use tpe_socks.Tests.Users.{two_users}

abbrev sixteen : Buffer
sixteen = record { bytes = replicate 16 0; limit = 16; read = 0; write = 0 }

abbrev conn : SocksConn
conn = record (new_socks_conn 7 (replicate 2048 0) (replicate 2048 0)) {
  cli_socket = pos 1;
  read_buff = sixteen;
  write_buff = sixteen;
}

listening : IsListening world 1 (item 7)
listening = record { table = table-IsValid op_read op_read; small = omega arith; used = refl }

room : HasRoom conn.write_buff
room = record { valid = ground arith; room = omega arith }

-- No authentication is offered.
greet_client :
    (c' : SocksConn) × (w' : World) × (hello_read (pos 1) (received (5 ∷ 1 ∷ 0 ∷ [])) conn world
      ≡ some (hello_writing, c', w'))
    × (c'.connect_parser.auth ≡ preferred (needs_auth world.server.users) (0 ∷ []))
    × (contents c'.write_buff ≡ [] ++ 5 ∷ preferred (needs_auth world.server.users) (0 ∷ []) ∷ [])
    × (contents c'.read_buff ≡ [])
    × IsTold world 1 (item 7) op_write w'
greet_client =
    hello_read_lem 1 5 (1 ∷ 0 ∷ []) (0 ∷ []) [] (item 7) conn world listening room
      (record { valid = ground arith; fits = omega arith; whole = refl })

abbrev with_users : World
with_users = record world { server = record (world.server) { users = two_users } }

name_a : IsText (b'a' ∷ [])
name_a = (omega arith, omega arith, (omega arith, tt))

password_b : IsText (b'b' ∷ [])
password_b = (omega arith, omega arith, (omega arith, tt))

refused : process_authentication_request two_users (b'a' ∷ []) (b'b' ∷ []) ≡ negsuc 0
unfolding process_authentication_request find_credentials
refused = refl

name_size : length conn.auth_parser.username ≡ 255
unfolding new_socks_conn
name_size = refl

password_size : length conn.auth_parser.password ≡ 255
unfolding new_socks_conn
password_size = refl

refuse_ab :
    (c1 : SocksConn) × (w1 : World) × (c2 : SocksConn) × (w2 : World) × (auth_read
        (pos 1)
        (received (1 ∷ 1 ∷ b'a' ∷ 1 ∷ b'b' ∷ []))
        conn
        with_users
      ≡ some (auth_writing, c1, w1))
    × (contents c1.write_buff ≡ 1 ∷ 255 ∷ [])
    × (auth_write (pos 1) (sent 2) c1 w1 ≡ some (req_reading, c2, w2))
    × (slot w2.selector.fds 1 ≡ some (item 7))
refuse_ab =
    refused_login_goes_on 1 1 (1 ∷ b'a' ∷ 1 ∷ b'b' ∷ []) (b'a' ∷ []) (b'b' ∷ []) [] (item 7) conn
      with_users
      (record { table = table-IsValid op_read op_read; small = omega arith; used = refl }) room refl
      name_size password_size name_a password_b
      (record { valid = ground arith; fits = omega arith; whole = refl }) refused

-- A system without IPv6.
abbrev local_only : Family → Option ℕ
local_only af_inet = some 3
local_only _ = none

abbrev dial : Dial
dial = record { socket = local_only; connect = λ a. started; alloc = true }

abbrev thread : Thread
thread = record { alloc = true; created = true }

fqdn_size : length conn.req_parser.addr.fqdn ≡ 255
unfolding new_socks_conn
fqdn_size = refl

connect_client :
    (c' : SocksConn) × (w' : World) × (req_read
        (pos 1)
        (received (5 ∷ 1 ∷ 0 ∷ 1 ∷ 127 ∷ 0 ∷ 0 ∷ 1 ∷ 0 ∷ 80 ∷ []))
        dial
        thread
        conn
        world
      ≡ some (req_connecting, c', w'))
    × (c'.src_addr_family ≡ af_inet)
    × (c'.src_addr ≡ record { family = af_inet; port = 0 ∷ 80 ∷ []; addr = 127 ∷ 0 ∷ 0 ∷ 1 ∷ [] })
    × (c'.src_socket ≡ pos 3)
    × (contents c'.read_buff ≡ [])
    × IsConnecting world 1 3 (item 7) conn w'
connect_client =
    req_read_connect 1 3 5 0 80 (1 ∷ 0 ∷ 1 ∷ 127 ∷ 0 ∷ 0 ∷ 1 ∷ 0 ∷ 80 ∷ []) (127 ∷ 0 ∷ 0 ∷ 1 ∷ [])
      [] (item 7) dial thread conn world listening refl fqdn_size refl
      (record { valid = ground arith; fits = omega arith; whole = refl })
      (record {
        socket = refl;
        connect = refl;
        free = refl;
        small = omega arith;
        in_table = omega arith;
      })

abbrev reply_to : ResParser
reply_to = record {
  state = 0;
  type = 1;
  addr = record no_dst_addr {
    ipv4 = record { family = af_inet; port = 0 ∷ 80 ∷ []; addr = 127 ∷ 0 ∷ 0 ∷ 1 ∷ [] };
  };
  port = 0 ∷ 80 ∷ [];
}

reply_local :
    (b' : Buffer) × (req_response_message sixteen reply_to ≡ some (some 10, b'))
    × Holds sixteen b' ([] ++ 5 ∷ 0 ∷ 0 ∷ 1 ∷ ((127 ∷ [] ++ 0 ∷ 0 ∷ 0 ∷ []) ++ 0 ∷ 80 ∷ []))
reply_local =
    req_response_message_cut sixteen reply_to (127 ∷ []) (0 ∷ 1 ∷ []) (ground arith) (omega arith)
      refl refl refl refl (ground arith)

abbrev address : AddrInfo
address = record {
  family = af_inet;
  addr = record { family = af_inet; port = 0 ∷ 80 ∷ []; addr = 10 ∷ 0 ∷ 0 ∷ 1 ∷ [] };
}

-- A name with one more address, while the origin at descriptor 2 refuses.
abbrev by_name : SocksConn
by_name = record conn {
  src_socket = pos 2;
  curr_addr = address ∷ [];
  req_parser = record (conn.req_parser) { type = 3 };
}

abbrev after : Option (SocksState × SocksConn × World) → SocksConn × World
after none = (conn, world)
after (some (t, c, w)) = (c, w)

abbrev tried : SocksConn × World
tried = after (req_connect (pos 2) (some econnrefused) dial by_name world)

try_next :
    req_connect (pos 2) (some econnrefused) dial by_name world
    ≡ some (req_connecting, tried.0, tried.1)
unfolding req_connect connected_or_not retry req_dns init_connection register_origin set_interest
    Sel.selector_unregister_fd Sel.selector_register
try_next = refl

try_one : 1 + length tried.0.curr_addr ≡ 1
try_one = Attempts-bounded 1 by_name tried.0 world tried.1 (
    another 0 (pos 2) econnrefused dial by_name tried.0 tried.0 world tried.1 tried.1
      (λ h. absurd cc) refl try_next (first tried.0 tried.1))
