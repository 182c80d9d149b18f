-- ===== src/Socks/Connecting.antt =====
-- A request to connect to an IPv4 address, in src/socks5/socks5.c.
use tpe_socks.Prelude.{
  ℕ, ◌<◌, ◌≡◌, ◌≢◌, refl, sym, subst, ◌∙◌, ap, true, false, Option, some, none, List, [], ◌∷◌, ◌++◌,
  arith, ltb, ◌==◌, ◌||◌, ◌&&◌, if◌then◌else◌, length, inl,
}
use tpe_socks.Prelude.Int.{ℤ, pos}
use tpe_socks.Buffer.Refine.{contents}
use tpe_socks.Selector as Sel
use tpe_socks.Selector.Highest.{slot}
use tpe_socks.Selector.Register.{selector_register_lem}
use tpe_socks.Parsers.Req.{Family, Sockaddr, req_done, af_inet}
use tpe_socks.Parsers.Req.Message.{v4, req_parse_full-request}
use tpe_socks.Socks.Bytes.{receive_lem}
use tpe_socks.Socks.Conn.{
  req_connecting, SocksConn, World, received, op_noop, op_write, set_interest, is_success,
}
use tpe_socks.Socks.Request.{
  Dial, Thread, started, conn_actions_handler, register_origin, init_connection, connect_ipv4,
  set_connection, run_request, requested, req_read,
}
use tpe_socks.Socks.Listening.{IsListening, IsTold, IsReceived, set_interest-IsTold}

-- The system makes a socket of the family, on a descriptor that is free, and starts its connection to
-- the address; nothing is known of another family or address.
pub record IsDialled (d : Dial) (w : World) (s : ℕ) (family : Family) (addr : Sockaddr)
    : Type 0 where
  pub socket : d.socket family ≡ some s
  pub connect : d.connect addr ≡ started
  pub free : slot w.selector.fds s ≡ none
  pub small : s < Sel.items_max_size
  pub in_table : s < length w.selector.fds

-- The item of the origin.
abbrev origin_item : SocksConn → Sel.Item
origin_item c = record { interest = op_write; handler = conn_actions_handler; attached = c.self }

-- The two descriptors of a connection that is being made: the client waits for nothing.
pub record IsConnecting (w : World) (fd s : ℕ) (x : Sel.Item) (c : SocksConn) (w' : World)
    : Type 0 where
  pub origin : slot w'.selector.fds s ≡ some (origin_item c)
  pub client : slot w'.selector.fds fd ≡ some (record x { interest = op_noop })

-- A free slot is not one in use.
different :
    (xs : List (Option Sel.Item)) (s fd : ℕ) (x : Sel.Item)
    → slot xs s ≡ none
    → slot xs fd ≡ some x
    → ((s == fd) ≡ false) × ((fd == s) ≡ false)
different xs s fd x h k = (ground (arith, unequal), ground (arith, unequal))
  where
    unequal : s ≢ fd
    unequal e = let u : slot xs s ≡ slot xs fd = ap (slot xs) e in cc

own :
    (s : ℕ) (y : Sel.Item) (z : Option Sel.Item) → (if true && (s == s) then some y else z) ≡ some y
own s y z = ground arith

register_origin_lem :
    (d : Dial) (fd s : ℕ) (x : Sel.Item) (c : SocksConn) (w w1 : World)
    → IsListening w fd x
    → slot w.selector.fds s ≡ none
    → s < Sel.items_max_size
    → s < length w.selector.fds
    → IsTold w fd x op_noop w1
    → (w' : World) × (register_origin d.alloc s c w1 ≡ some (req_connecting, c, w'))
      × IsConnecting w fd s x c w'
unfolding register_origin
register_origin_lem d fd s x c w w1 l unused small in_table t =
    let (apart, apart') = different w.selector.fds s fd x unused l.used in
    let size : s < length w1.selector.fds = omega (arith, t.leaves.size, in_table) in
    let free : slot w1.selector.fds s ≡ none = t.leaves.slots s ∙ rw apart unused in
    let (p, q, r) =
      selector_register_lem d.alloc w1.selector s (origin_item c) t.listening.table small
        (omega arith) in
    let room : (d.alloc || ltb s (length w1.selector.fds)) ≡ true = ground arith in
    let ok : is_success p.0 ≡ true = rw (r.status_given, room, free) refl in
    (
      record w1 { selector = p.1 },
      rw (q, ok) refl,
      record {
        origin = r.slots s ∙ rw ok (own s (origin_item c) (slot w1.selector.fds s));
        client = r.slots fd ∙ rw (ok, apart') t.listening.used;
      },
    )

init_started :
    (d : Dial) (fd s : ℕ) (x : Sel.Item) (c : SocksConn) (w : World)
    → IsListening w fd x
    → c.cli_socket ≡ pos fd
    → IsDialled d w s c.src_addr_family c.src_addr
    → (w' : World) × (init_connection d c w
        ≡ some (req_connecting, record c { src_socket = pos s }, w'))
      × IsConnecting w fd s x c w'
unfolding init_connection
init_started d fd s x c w l k i =
    let (w1, q, t) = set_interest-IsTold w fd x op_noop l in
    let (w', r, u) =
      register_origin_lem d fd s x (record c { src_socket = pos s }) w w1 l i.free i.small
        i.in_table t in
    let q' = subst (λ z. set_interest w z op_noop ≡ some (Sel.selector_success, w1)) (sym k) q in
    (
      w',
      rw (init_connection, i.socket, i.connect, q', r) refl,
      record { origin = u.origin; client = u.client },
    )

requested_v4 :
    (fd : ℤ) (d : Dial) (t : Thread) (c : SocksConn) (w : World)
    → c.req_parser.state ≡ req_done
    → c.req_parser.cmd ≡ 1
    → c.req_parser.type ≡ 1
    → requested c.req_parser.state fd d t c w ≡ connect_ipv4 d c w
unfolding requested run_request set_connection
requested_v4 fd d t c w h k l =
    let connects : (c.req_parser.cmd == 1) ≡ true = ap (λ n. n == 1) k in
    let is_ipv4 : (c.req_parser.type == 1) ≡ true = ap (λ n. n == 1) l in
    ap (λ z. requested z fd d t c w) h ∙ rw (connects, is_ipv4) refl

-- A whole request to connect to an IPv4 address that arrives starts a connection, of a socket of that
-- family, to exactly that address and port, if the system would start that one: the origin's descriptor is registered to be written, the client waits for nothing, and what
-- stands behind the request stays in the buffer that the client's bytes are read into.
pub req_read_connect :
    (fd s x y z : ℕ) (xs bs rest : List ℕ) (item : Sel.Item) (d : Dial) (t : Thread) (c : SocksConn)
    (w : World)
    → IsListening w fd item
    → c.cli_socket ≡ pos fd
    → length c.req_parser.addr.fqdn ≡ 255
    → length bs ≡ 4
    → IsReceived c.read_buff x xs (5 ∷ 1 ∷ 0 ∷ 1 ∷ (bs ++ y ∷ z ∷ rest))
    → IsDialled d w s af_inet (record { family = af_inet; port = y ∷ z ∷ []; addr = bs })
    → (c' : SocksConn) × (w' : World) × (req_read (pos fd) (received (x ∷ xs)) d t c w
        ≡ some (req_connecting, c', w'))
      × (c'.src_addr_family ≡ af_inet)
      × (c'.src_addr ≡ record { family = af_inet; port = y ∷ z ∷ []; addr = bs })
      × (c'.src_socket ≡ pos s)
      × (contents c'.read_buff ≡ rest)
      × IsConnecting w fd s item c w'
unfolding req_read connect_ipv4
req_read_connect fd s x y z xs bs rest item d t c w l k n four i dial =
    let (b, q, o) = receive_lem c.read_buff x xs i.valid i.fits in
    let (p, b', r, st, cmd, (ty, ad, fam), po, v, e) =
      req_parse_full-request c.req_parser 1 y z rest (v4 bs) b (inl refl) n four o.valid
        (o.queue ∙ i.whole) in
    let c1 = record c { req_parser = p; read_buff = b' } in
    let addr : Sockaddr = record (p.addr.ipv4) { port = p.port } in
    let p' = record p { addr = record (p.addr) { ipv4 = addr } } in
    let c2 = record c1 { req_parser = p'; src_addr_family = af_inet; src_addr = addr } in
    let to : Sockaddr = record { family = af_inet; port = y ∷ z ∷ []; addr = bs } in
    let same : addr ≡ to = rw (ad, po, fam) refl in
    let dial' = subst (λ (a : Sockaddr). IsDialled d w s af_inet a) (sym same) dial in
    let (w', g, u) = init_started d fd s item c2 w l k dial' in
    (
      record c2 { src_socket = pos s },
      w',
      rw (q, r) (requested_v4 (pos fd) d t c1 w st cmd ty ∙ g),
      refl,
      same,
      refl,
      e,
      record { origin = u.origin; client = u.client },
    )
