-- ===== src/Socks/Copy/Relaying.antt =====
-- The invariant of the copy phase of src/socks5/socks5.c, and what a change of one copy keeps.
use tpe_socks.Prelude.{
  ℕ, zero, suc, List, [], ◌∷◌, ◌<◌, ◌≡◌, ◌≢◌, ◌>>=◌, refl, sym, ◌∙◌, ap, false, Option, some, arith,
  length, ◌==◌,
}
use tpe_socks.Prelude.Int.{ℤ, pos}
use tpe_socks.Buffer.{Buffer}
use tpe_socks.Buffer.Inv as Buf
use tpe_socks.Selector as Sel
use tpe_socks.Selector.Inv as Table
use tpe_socks.Selector.Highest.{slot}
use tpe_socks.Sniffer.Noise.{IsSafe}
use tpe_socks.Socks.Conn.{CopyModel, Side, cli, src, SocksConn, World, set_interest}
use tpe_socks.Socks.Copy.Sides.{write_buff_of-with_copy, copy_of-with_write_buff, rest_after}
use tpe_socks.Socks.Copy.{aux, copy_of, with_copy, write_buff_of, with_write_buff, change_copy}

-- The two descriptors of a connection, and the items that they are registered with.
pub record Ends : Type 0 where
  pub fd : Side → ℕ
  pub item : Side → Sel.Item
  pub differ : fd cli ≢ fd src
  pub small : (s : Side) → fd s < Sel.items_max_size

pub ends_differ : (e : Ends) (s : Side) → (e.fd (aux s) == e.fd s) ≡ false
ends_differ e cli = ground (arith, e.differ)
ends_differ e src = ground (arith, e.differ)

-- The buffers and the parser of the sniffer are in order, each copy is that of its side's socket, and
-- the selector waits for exactly what the copy says.
pub record IsRelaying (e : Ends) (c : SocksConn) (w : World) : Type 0 where
  pub table : Table.IsValid w.selector
  pub sockets : (c.cli_socket ≡ pos (e.fd cli)) × (c.src_socket ≡ pos (e.fd src))
  pub named : (s : Side) → (copy_of s c).fd ≡ pos (e.fd s)
  pub synced :
      (s : Side)
      → slot w.selector.fds (e.fd s)
        ≡ some (record (e.item s) { interest = (copy_of s c).interests })
  pub buffers : (s : Side) → Buf.IsValid (write_buff_of s c)
  pub parser : (p : _) → c.pop3_parser ≡ some p → IsSafe p

-- A copy of the same socket is put in place, the selector is told, and nothing else is touched.
pub record Changed (e : Ends) (s : Side) (m : CopyModel) (c : SocksConn) (w w' : World)
    : Type 0 where
  pub relaying : IsRelaying e (with_copy s m c) w'
  pub server_kept : w'.server ≡ w.server
  pub shut_kept : w'.shut ≡ w.shut
  pub closed_kept : w'.closed ≡ w.closed

pub slot-some :
    (xs : List (Option Sel.Item)) (i : ℕ) (x : Sel.Item) → slot xs i ≡ some x → i < length xs
slot-some [] i x h = absurd cc
slot-some (y ∷ xs) zero x h = omega arith
slot-some (y ∷ xs) (suc i) x h = omega (arith, slot-some xs i x h)

synced_after :
    (e : Ends) (s t : Side) (m : CopyModel) (c : SocksConn) (w : World) (v : Sel.Selector)
    → IsRelaying e c w
    → Table.Leaves w.selector (e.fd s) (some (record (e.item s) { interest = m.interests })) v
    → slot v.fds (e.fd t)
      ≡ some (record (e.item t) { interest = (copy_of t (with_copy s m c)).interests })
synced_after e cli cli m c w v r l = ground (arith, l.slots (e.fd cli))
synced_after e cli src m c w v r l =
    ground (arith, l.slots (e.fd src), ends_differ e cli, r.synced src)
synced_after e src cli m c w v r l =
    ground (arith, l.slots (e.fd cli), ends_differ e src, r.synced cli)
synced_after e src src m c w v r l = ground (arith, l.slots (e.fd src))

named_after :
    (e : Ends) (s t : Side) (m : CopyModel) (c : SocksConn) (w : World)
    → IsRelaying e c w
    → m.fd ≡ pos (e.fd s)
    → (copy_of t (with_copy s m c)).fd ≡ pos (e.fd t)
named_after e cli cli m c w r h = h
named_after e cli src m c w r h = r.named src
named_after e src cli m c w r h = r.named cli
named_after e src src m c w r h = h

sockets_after :
    (e : Ends) (s : Side) (m : CopyModel) (c : SocksConn) (w : World)
    → IsRelaying e c w
    → ((with_copy s m c).cli_socket ≡ pos (e.fd cli))
      × ((with_copy s m c).src_socket ≡ pos (e.fd src))
sockets_after e cli m c w r = r.sockets
sockets_after e src m c w r = r.sockets

parser_after :
    (e : Ends) (s : Side) (m : CopyModel) (c : SocksConn) (w : World)
    → IsRelaying e c w
    → (p : _) → (with_copy s m c).pop3_parser ≡ some p
    → IsSafe p
parser_after e cli m c w r p h = r.parser p h
parser_after e src m c w r p h = r.parser p h

answer :
    Side
    → CopyModel
    → SocksConn
    → World
    → Option (Sel.Status × Sel.Selector)
    → Option (SocksConn × World)
answer s m c w z =
    (z >>= λ (t, v). some (t, record w { selector = v })) >>= λ (_, w'). some (with_copy s m c, w')

change_copy-some :
    (fd : ℤ) (s : Side) (m : CopyModel) (c : SocksConn) (w : World) (t : Sel.Status)
    (v : Sel.Selector)
    → Sel.selector_set_interest w.selector fd m.interests ≡ some (t, v)
    → change_copy fd s m c w ≡ some (with_copy s m c, record w { selector = v })
unfolding change_copy set_interest answer
change_copy-some fd s m c w t v q = ap (answer s m c w) q

-- A change of one copy, with the selector told of it, keeps the invariant.
pub change_copy_lem :
    (e : Ends) (fd : ℤ) (s : Side) (m : CopyModel) (c : SocksConn) (w : World)
    → IsRelaying e c w
    → fd ≡ pos (e.fd s)
    → m.fd ≡ pos (e.fd s)
    → (w' : World) × (change_copy fd s m c w ≡ some (with_copy s m c, w')) × Changed e s m c w w'
change_copy_lem e fd s m c w r k h =
    let (v, q, l) =
      Table.selector_set_interest_lem w.selector (e.fd s)
        (record (e.item s) { interest = (copy_of s c).interests }) m.interests r.table (e.small s)
        (slot-some w.selector.fds (e.fd s) _ (r.synced s)) (r.synced s) in
    (
      record w { selector = v },
      rw k (change_copy-some (pos (e.fd s)) s m c w Sel.selector_success v q),
      record {
        relaying = record {
          table = l.valid;
          sockets = sockets_after e s m c w r;
          named = λ t. named_after e s t m c w r h;
          synced = λ t. synced_after e s t m c w v r l;
          buffers = λ t. rw (write_buff_of-with_copy t s m c) (r.buffers t);
          parser = parser_after e s m c w r;
        };
        server_kept = refl;
        shut_kept = refl;
        closed_kept = refl;
      },
    )

synced_kept :
    (e : Ends) (s t : Side) (m : CopyModel) (c : SocksConn) (w : World)
    → IsRelaying e c w
    → m.interests ≡ (copy_of s c).interests
    → slot w.selector.fds (e.fd t)
      ≡ some (record (e.item t) { interest = (copy_of t (with_copy s m c)).interests })
synced_kept e cli cli m c w r h = rw h (r.synced cli)
synced_kept e cli src m c w r h = r.synced src
synced_kept e src cli m c w r h = r.synced cli
synced_kept e src src m c w r h = rw h (r.synced src)

-- A change that leaves the interests keeps it as well.
pub with_copy-IsRelaying :
    (e : Ends) (s : Side) (m : CopyModel) (c : SocksConn) (w : World)
    → IsRelaying e c w
    → m.fd ≡ pos (e.fd s)
    → m.interests ≡ (copy_of s c).interests
    → IsRelaying e (with_copy s m c) w
with_copy-IsRelaying e s m c w r h k = record {
  table = r.table;
  sockets = sockets_after e s m c w r;
  named = λ t. named_after e s t m c w r h;
  synced = λ t. synced_kept e s t m c w r k;
  buffers = λ t. rw (write_buff_of-with_copy t s m c) (r.buffers t);
  parser = parser_after e s m c w r;
}

buffers_after :
    (t s : Side) (b : Buffer) (c : SocksConn)
    → ((u : Side) → Buf.IsValid (write_buff_of u c))
    → Buf.IsValid b
    → Buf.IsValid (write_buff_of t (with_write_buff s b c))
buffers_after cli cli b c r v = v
buffers_after cli src b c r v = r cli
buffers_after src cli b c r v = r src
buffers_after src src b c r v = v

-- So does a buffer that is in order.
pub with_write_buff-IsRelaying :
    (e : Ends) (s : Side) (b : Buffer) (c : SocksConn) (w : World)
    → IsRelaying e c w
    → Buf.IsValid b
    → IsRelaying e (with_write_buff s b c) w
with_write_buff-IsRelaying e s b c w r v =
    let (h, k, l) = rest_after s b c in
    record {
      table = r.table;
      sockets = (h ∙ r.sockets.0, k ∙ r.sockets.1);
      named = λ t. rw (copy_of-with_write_buff t s b c) (r.named t);
      synced = λ t. rw (copy_of-with_write_buff t s b c) (r.synced t);
      buffers = λ t. buffers_after t s b c r.buffers v;
      parser = λ p q. r.parser p (sym l ∙ q);
    }

-- So does anything that happens to the server or to the record of what was shut.
pub other_world-IsRelaying :
    (e : Ends) (c : SocksConn) (w w' : World)
    → IsRelaying e c w
    → w'.selector ≡ w.selector
    → IsRelaying e c w'
other_world-IsRelaying e c w w' r h = record {
  table = rw h r.table;
  sockets = r.sockets;
  named = r.named;
  synced = λ t. rw h (r.synced t);
  buffers = r.buffers;
  parser = r.parser;
}
