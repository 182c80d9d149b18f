-- ===== src/Server/Close.antt =====
-- The end of a connection in src/server.c: which descriptors leave the selector and are closed.
use tpe_socks.Prelude.{
  ℕ, ◌<◌, ◌≡◌, refl, ◌∙◌, ap, Bool, true, false, Option, some, none, List, [], ◌∷◌, ◌++◌, arith,
  ◌>>=◌, append_assoc, length, Option-cases, Bool-cases, inl, inr, if◌then◌else◌, ◌==◌, ltb, ◌||◌,
  ◌&&◌,
}
use tpe_socks.Prelude.Int.{pos}
use tpe_socks.Metrics.{remove_current_socks_connection, add_socks_connection}
use tpe_socks.Selector.{Selector, Item, selector_iargs, items_max_size, selector_unregister_fd}
use tpe_socks.Selector.Inv.{IsValid, Leaves, selector_unregister_fd_lem, get_elem?-slot}
use tpe_socks.Selector.Highest.{slot}
use tpe_socks.Control.Commands.{Server}
use tpe_socks.Selector.Register.{selector_register_lem}
use tpe_socks.Socks.Request.{conn_actions_handler}
use tpe_socks.Socks.Copy.Relaying.{slot-some}
use tpe_socks.Socks.Conn.{op_read, is_success, SocksConn, World, new_socks_conn}
use tpe_socks.Server.{drop_fd, close_socks_conn, give_up, Accepting, passive_socks_socket_handler}

-- The descriptor is not waited for any more, and it was closed.
pub record IsDropped (w : World) (fd : ℕ) (w' : World) : Type 0 where
  pub table : Leaves w.selector fd none w'.selector
  pub closed : w'.closed ≡ w.closed ++ pos fd ∷ []
  pub server : w'.server ≡ w.server

unused_lem :
    (s : Selector) (fd : ℕ)
    → fd < items_max_size
    → fd < length s.fds
    → slot s.fds fd ≡ none
    → selector_unregister_fd s (pos fd) false ≡ some (selector_iargs, s, none)
unfolding selector_unregister_fd
unused_lem s fd h k u = let e = get_elem?-slot s.fds fd k in ground (arith, e, u)

unchanged :
    (xs : List (Option Item)) (fd i : ℕ)
    → slot xs fd ≡ none
    → slot xs i ≡ (if i == fd then none else slot xs i)
unchanged xs fd i u = elim (Bool-cases (i == fd)) [
  | inl h ↦ let e : i ≡ fd = ground arith in rw h (ap (slot xs) e ∙ u)
  | inr h ↦ rw h refl
]

drop_fd_lem :
    (w : World) (fd : ℕ)
    → IsValid w.selector
    → fd < items_max_size
    → fd < length w.selector.fds
    → (w' : World) × (drop_fd (pos fd) w ≡ some w') × IsDropped w fd w'
unfolding drop_fd
drop_fd_lem w fd v h k = elim (Option-cases (slot w.selector.fds fd)) [
  | inl u ↦ (
    record w { closed = w.closed ++ pos fd ∷ [] },
    ap (λ z. z >>= λ (_, s, _). some (record w { selector = s; closed = w.closed ++ pos fd ∷ [] }))
        (unused_lem w.selector fd h k u),
    record {
      table = record { valid = v; slots = λ i. unchanged w.selector.fds fd i u; size = refl };
      closed = refl;
      server = refl;
    },
  )
  | inr (x, u) ↦
      let (s, q, l) = selector_unregister_fd_lem w.selector fd x false v h k u in
      (
        record w { selector = s; closed = w.closed ++ pos fd ∷ [] },
        ap
            (λ z.
              z >>= λ (_, s, _). some (record w { selector = s; closed = w.closed ++ pos fd ∷ [] }))
            q,
        record { table = l; closed = refl; server = refl },
      )
]

abbrev counted_off : Server → Server
counted_off s = record s { metrics = remove_current_socks_connection s.metrics }

-- What is left when both descriptors of a connection are dropped.
record IsClosed (w : World) (a b : ℕ) (w' : World) : Type 0 where
  pub valid : IsValid w'.selector
  pub slots :
      (i : ℕ)
      → slot w'.selector.fds i
        ≡ (if i == a then none else if i == b then none else slot w.selector.fds i)
  pub closed : w'.closed ≡ w.closed ++ pos b ∷ pos a ∷ []
  pub counted : w'.server ≡ counted_off w.server

-- Closing a connection takes the client's descriptor and the origin's out of the selector, whether they
-- are registered or not, closes the two in the order origin, client, and counts one connection less;
-- every other item stays as it is.
close_socks_conn_lem :
    (c : SocksConn) (w : World) (a b : ℕ)
    → IsValid w.selector
    → c.cli_socket ≡ pos a
    → c.src_socket ≡ pos b
    → a < items_max_size
    → b < items_max_size
    → a < length w.selector.fds
    → b < length w.selector.fds
    → (w' : World) × (close_socks_conn c w ≡ some w') × IsClosed w a b w'
unfolding close_socks_conn
close_socks_conn_lem c w a b v ha hb sa sb la lb =
    let (w1, q1, d1) = drop_fd_lem w b v sb lb in
    let w2 = record w1 {
      server = record (w1.server) { metrics = remove_current_socks_connection w1.server.metrics };
    } in
    let la' : a < length w2.selector.fds = omega (arith, d1.table.size) in
    let (w3, q3, d3) = drop_fd_lem w2 a d1.table.valid sa la' in
    (
      w3,
      rw (hb, q1, ha, q3) refl,
      record {
        valid = d3.table.valid;
        slots = λ i. ground (arith, d3.table.slots i, d1.table.slots i);
        closed =
            d3.closed
            ∙ ap (λ z. z ++ pos a ∷ []) d1.closed
            ∙ append_assoc w.closed (pos b ∷ []) (pos a ∷ []);
        counted = d3.server ∙ ap counted_off d1.server;
      },
    )

-- When `accept` fails, descriptor 0 is taken out of the selector and closed: the new connection has no
-- origin yet, and 0 stands for it.
accept_fails :
    (a : Accepting) (w : World)
    → a.accept ≡ none
    → IsValid w.selector
    → (w' : World) × (passive_socks_socket_handler a w ≡ some (none, w')) × IsDropped w 0 w'
unfolding passive_socks_socket_handler give_up close_socks_conn new_socks_conn
accept_fails a w h v =
    let (w', q, d) = drop_fd_lem w 0 v (omega arith) (omega (arith, v.highest_in)) in
    (w', rw (h, q) refl, d)

own_slot :
    (fd : ℕ) (item : Item) (xs : List (Option Item))
    → (if true && (fd == fd) then some item else slot xs fd) ≡ some item
own_slot fd item xs = ground arith

freed :
    (xs : List (Option Item)) (fd i : ℕ) (item : Item) (b : Bool)
    → slot xs fd ≡ none
    → (if i == fd
        then none
        else if i == 0
        then none
        else if b && (i == fd)
        then some item
        else slot xs i)
      ≡ (if i == 0 then none else slot xs i)
freed xs fd i item b u = elim (Bool-cases (i == fd)) [
  | inl h ↦ let e : i ≡ fd = ground arith in rw (h, ap (slot xs) e ∙ u) (ground arith)
  | inr h ↦ rw h (ground arith)
]

-- A connection that is accepted and closed before it has an origin leaves every descriptor of the selector
-- as it was, but descriptor 0, which is taken out and closed.
pub accepted_then_closed :
    (a : Accepting) (w : World) (fd : ℕ)
    → a.accept ≡ some fd
    → a.nio ≡ true
    → IsValid w.selector
    → slot w.selector.fds fd ≡ none
    → fd < items_max_size
    → fd < length w.selector.fds
    → (c : SocksConn) × (w1 : World) × (w2 : World) × (passive_socks_socket_handler a w
        ≡ some (some c, w1))
      × (close_socks_conn c w1 ≡ some w2)
      × ((i : ℕ) → slot w2.selector.fds i ≡ (if i == 0 then none else slot w.selector.fds i))
      × (w2.closed ≡ w.closed ++ pos 0 ∷ pos fd ∷ [])
unfolding passive_socks_socket_handler new_socks_conn
accepted_then_closed a w fd h n v u m l =
    let item : Item = record {
      interest = op_read;
      handler = conn_actions_handler;
      attached = a.self;
    } in
    let (p, q, r) = selector_register_lem a.alloc w.selector fd item v m (omega arith) in
    let s = p.1 in
    let room : (a.alloc || ltb fd (length w.selector.fds)) ≡ true = ground arith in
    let ok : is_success p.0 ≡ true = rw (r.status_given, room, u) refl in
    let w1 = record w {
      selector = s;
      server = record (w.server) { metrics = add_socks_connection w.server.metrics };
    } in
    let c = record (new_socks_conn a.self a.aux_read_buff a.aux_write_buff) {
      cli_socket = pos fd;
    } in
    let here : slot s.fds fd ≡ some item = r.slots fd ∙ rw ok (own_slot fd item w.selector.fds) in
    let in_table = slot-some s.fds fd item here in
    let (w2, q2, k) =
      close_socks_conn_lem c w1 fd 0 r.valid refl refl m (omega arith) in_table (omega arith) in
    (
      c,
      w1,
      w2,
      rw (h, n, q, ok) refl,
      q2,
      λ i.
          k.slots i
          ∙ ap (λ z. if i == fd then none else if i == 0 then none else z) (r.slots i)
          ∙ freed w.selector.fds fd i item (is_success p.0) u,
      k.closed,
    )
