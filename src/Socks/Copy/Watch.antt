-- ===== src/Socks/Copy/Watch.antt =====
-- What the selector waits for in the copy phase of src/socks5/socks5.c while both streams are open.
use tpe_socks.Prelude.{◌≡◌, ◌≢◌, refl, subst, ◌∙◌, ap, Bool, true, false, Option, some, none}
use tpe_socks.Prelude.Int.{pos}
use tpe_socks.Buffer.{buffer_can_read, buffer_can_write}
use tpe_socks.Buffer.Inv as Buf
use tpe_socks.Selector as Sel
use tpe_socks.Selector.Inv as Table
use tpe_socks.Selector.Highest.{slot}
use tpe_socks.Sniffer.{Pop3Parser, pop3_parser_init}
use tpe_socks.Sniffer.Noise.{IsSafe}
use tpe_socks.Socks.Conn.{SocksState, Side, cli, src, SocksConn, World, op_read}
use tpe_socks.Socks.Copy.{
  aux, op_both, copy_of, write_buff_of, read_buff_of, copy_on_arrival, init_copy_structure,
}
use tpe_socks.Socks.Copy.Relaying.{Ends, IsRelaying}
use tpe_socks.Socks.Copy.Wakeup.{IsAwake}
use tpe_socks.Socks.Copy.Fifo.{Event, relay, Allowed, goes_on}
use tpe_socks.Socks.Copy.Runs.{relay_total}

-- A descriptor with bytes pending for it is in the set to be written, and one with room for its bytes is
-- in the set to be read.
pub record IsWatched (e : Ends) (c : SocksConn) (w : World) : Type 0 where
  pub pending :
      (s : Side) → buffer_can_read (read_buff_of s c) ≡ true → w.selector.master_w (e.fd s) ≡ true
  pub room :
      (s : Side) → buffer_can_write (write_buff_of s c) ≡ true → w.selector.master_r (e.fd s) ≡ true

watched : (e : Ends) (c : SocksConn) (w : World) → IsRelaying e c w → IsAwake c → IsWatched e c w
watched e c w i k = record {
  pending = λ s h. i.table.writes (e.fd s) ∙ ap Sel.wants_write (i.synced s) ∙ (k.ready s).writes h;
  room = λ s h. i.table.reads (e.fd s) ∙ ap Sel.wants_read (i.synced s) ∙ (k.ready s).reads h;
}

-- After the event the connection is as it was before, and no wakeup is lost.
abbrev pub Watches : Ends → Event → SocksConn → World → Type 0
Watches e ev c w =
    (t : SocksState) × (c' : SocksConn) × (w' : World) × (relay ev c w ≡ some (t, c', w'))
    × IsRelaying e c' w'
    × IsAwake c'
    × IsWatched e c' w'

-- While neither stream has ended no wakeup is lost: if each side waits as it has to (`IsAwake`: to write
-- if bytes are pending for it, and to read if there is room for its bytes), then an event that the
-- system allows and that ends no stream is handled without a fault, each side then waits so again,
-- the selector waits to write to a side with bytes pending for it and to read from a side with room
-- for its bytes, and the connection is in order for the next event.
pub relay-IsWatched :
    (e : Ends) (ev : Event) (c : SocksConn) (w : World)
    → IsRelaying e c w
    → IsAwake c
    → Allowed ev c
    → goes_on ev ≡ true
    → Watches e ev c w
relay-IsWatched e ev c w i k a g =
    let (t, c', w', h, m) = relay_total e ev c w i a in
    (t, c', w', h, m.relaying, m.wakes k g, watched e c' w' m.relaying (m.wakes k g))

-- A connection whose copies are as `copy_on_arrival` leaves them.
pub record IsConnected (e : Ends) (c : SocksConn) (w : World) : Type 0 where
  pub table : Table.IsValid w.selector
  pub sockets : (c.cli_socket ≡ pos (e.fd cli)) × (c.src_socket ≡ pos (e.fd src))
  pub read_only :
      (s : Side) → slot w.selector.fds (e.fd s) ≡ some (record (e.item s) { interest = op_read })
  pub buffers : (s : Side) → Buf.IsValid (write_buff_of s c)
  pub empty : (s : Side) → buffer_can_read (write_buff_of s c) ≡ false
  pub parser : c.pop3_parser ≡ none

parser_inj : (p q : Pop3Parser) → some p ≡ some q → p ≡ q
parser_inj p q h = cc

absent : (p : Option Pop3Parser) (q : Pop3Parser) → p ≡ none → p ≢ some q
absent p q h k = cc

abbrev pub with_parser : SocksConn → Option Pop3Parser → SocksConn
with_parser c p = record c {
  cli_copy = init_copy_structure c cli;
  src_copy = init_copy_structure c src;
  pop3_parser = p;
}

named :
    (e : Ends) (c : SocksConn) (p : Option Pop3Parser) (s : Side)
    → (c.cli_socket ≡ pos (e.fd cli)) × (c.src_socket ≡ pos (e.fd src))
    → (copy_of s (with_parser c p)).fd ≡ pos (e.fd s)
unfolding init_copy_structure
named e c p cli h = h.0
named e c p src h = h.1

reading :
    (c : SocksConn) (p : Option Pop3Parser) (s : Side)
    → ((copy_of s (with_parser c p)).interests ≡ op_read)
      × ((copy_of s (with_parser c p)).int_connection ≡ op_both)
unfolding init_copy_structure
reading c p cli = (refl, refl)
reading c p src = (refl, refl)

same_write_buff :
    (c : SocksConn) (p : Option Pop3Parser) (s : Side)
    → (write_buff_of s (with_parser c p) ≡ write_buff_of s c)
      × (read_buff_of s (with_parser c p) ≡ write_buff_of (aux s) c)
same_write_buff c p cli = (refl, refl)
same_write_buff c p src = (refl, refl)

pub arrived :
    (e : Ends) (c : SocksConn) (w : World) (p : Option Pop3Parser)
    → IsConnected e c w
    → ((q : Pop3Parser) → p ≡ some q → IsSafe q)
    → IsRelaying e (with_parser c p) w × IsAwake (with_parser c p)
arrived e c w p i k = (
  record {
    table = i.table;
    sockets = i.sockets;
    named = λ s. named e c p s i.sockets;
    synced = λ s. rw ((reading c p s).0) (i.read_only s);
    buffers = λ s. rw ((same_write_buff c p s).0) (i.buffers s);
    parser = k;
  },
  record {
    ready = λ s. record {
      both_ways = (reading c p s).1;
      writes = λ h. absurd (nothing s h);
      reads = λ _. ap (λ z. z.op_read) ((reading c p s).0);
    };
  },
)
  where
    nothing : (s : Side) → buffer_can_read (read_buff_of s (with_parser c p)) ≢ true
    nothing s h =
        let u : buffer_can_read (write_buff_of (aux s) c) ≡ true =
          rw ((same_write_buff c p s).1) at h in
        let v = i.empty (aux s) in cc

-- On arrival in the copy phase with two empty buffers, both descriptors registered to be read and, if the
-- sniffer is on, a block for its parser, the copies are set up in order: each side is waited for as
-- the copies say, and no wakeup is missing.
pub copy_on_arrival-IsRelaying :
    (e : Ends) (c : SocksConn) (w : World) (fresh : Pop3Parser) (sniffer_on : Bool)
    → IsConnected e c w
    → IsSafe (pop3_parser_init fresh)
    → (c' : SocksConn) × (copy_on_arrival (some fresh) sniffer_on c ≡ some c')
      × IsRelaying e c' w
      × IsAwake c'
unfolding copy_on_arrival
copy_on_arrival-IsRelaying e c w fresh true i k =
    let (r, u) =
      arrived e c w (some (pop3_parser_init fresh)) i (λ q h. subst IsSafe (parser_inj _ q h) k) in
    (with_parser c (some (pop3_parser_init fresh)), refl, r, u)
copy_on_arrival-IsRelaying e c w fresh false i k =
    let (r, u) =
      arrived e c w c.pop3_parser i (λ q h. absurd (absent c.pop3_parser q i.parser h)) in
    (with_parser c c.pop3_parser, refl, r, u)
