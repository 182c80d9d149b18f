-- ===== src/Socks/Copy/Steps.antt =====
-- What the branches of `copy_read` and `copy_write` of src/socks5/socks5.c do to a connection in the copy
-- phase.
use tpe_socks.Prelude.{
  ◌+◌, ◌≡◌, refl, sym, ◌∙◌, ap, Bool, some, Option-cases, Bool-cases, inl, inr, ◌==◌, ◌&&◌, get_or,
  ◌*◌,
}
use tpe_socks.Prelude.Int.{pos}
use tpe_socks.Sniffer.{Pop3Parser}
use tpe_socks.Sniffer.Noise.{IsSafe, pop3_parse-IsSafe}
use tpe_socks.Socks.Conn.{copying, CopyModel, Side, cli, src, SocksConn, World, op_read, op_write}
use tpe_socks.Socks.Copy.{
  aux, copy_of, with_copy, write_buff_of, meet, join, sniff, sniff_by, copy_received, copy_full,
  pop3_port,
}
use tpe_socks.Socks.Copy.Relaying.{Ends, IsRelaying, change_copy_lem}
use tpe_socks.Socks.Copy.Sides.{copy_of-with_copy, copy_of-aux, write_buff_of-with_copy}

-- The connection is still in the copy phase, with the same buffers and with `m` and `a` as the copies of
-- the side and of the other one.
pub record Left (e : Ends) (s : Side) (m a : CopyModel) (c c' : SocksConn) (w' : World)
    : Type 0 where
  pub relaying : IsRelaying e c' w'
  pub buffers : (t : Side) → write_buff_of t c' ≡ write_buff_of t c
  pub own : copy_of s c' ≡ m
  pub other : copy_of (aux s) c' ≡ a

copy_of-parsed :
    (t : Side) (p : Pop3Parser) (c : SocksConn)
    → copy_of t (record c { pop3_parser = some p }) ≡ copy_of t c
copy_of-parsed cli p c = refl
copy_of-parsed src p c = refl

write_buff_of-parsed :
    (t : Side) (p : Pop3Parser) (c : SocksConn)
    → write_buff_of t (record c { pop3_parser = some p }) ≡ write_buff_of t c
write_buff_of-parsed cli p c = refl
write_buff_of-parsed src p c = refl

some_inj : (p q : Pop3Parser) → some p ≡ some q → p ≡ q
some_inj p q h = cc

parsed_Left :
    (e : Ends) (s : Side) (c : SocksConn) (w : World) (p : Pop3Parser)
    → IsRelaying e c w
    → IsSafe p
    → Left e s (copy_of s c) (copy_of (aux s) c) c (record c { pop3_parser = some p }) w
parsed_Left e s c w p r h = record {
  relaying = record {
    table = r.table;
    sockets = r.sockets;
    named = λ t. rw (copy_of-parsed t p c) (r.named t);
    synced = λ t. rw (copy_of-parsed t p c) (r.synced t);
    buffers = λ t. rw (write_buff_of-parsed t p c) (r.buffers t);
    parser = λ q k. rw (sym (some_inj p q k)) h;
  };
  buffers = λ t. write_buff_of-parsed t p c;
  own = copy_of-parsed s p c;
  other = copy_of-parsed (aux s) p c;
}

same_Left :
    (e : Ends) (s : Side) (c : SocksConn) (w : World)
    → IsRelaying e c w
    → Left e s (copy_of s c) (copy_of (aux s) c) c c w
same_Left e s c w r = record { relaying = r; buffers = λ t. refl; own = refl; other = refl }

wanted : SocksConn → World → Bool
wanted c w =
    (get_or c.req_parser.port 0 0 * 256 + get_or c.req_parser.port 1 0 == pop3_port)
    && w.server.sniffer_on

-- The sniffer only changes its parser.
sniff_lem :
    (e : Ends) (s : Side) (c : SocksConn) (w : World)
    → IsRelaying e c w
    → (c' : SocksConn) × (sniff s c w ≡ some (copying, c', w))
      × Left e s (copy_of s c) (copy_of (aux s) c) c c' w
unfolding sniff sniff_by wanted
sniff_lem e s c w r = elim (Option-cases c.pop3_parser) [
  | inl h ↦ (c, ap (λ z. sniff_by z s c w) h, same_Left e s c w r)
  | inr (p, h) ↦ elim (Bool-cases (wanted c w)) [
    | inr n ↦ (c, ap (λ z. sniff_by z s c w) h ∙ rw n refl, same_Left e s c w r)
    | inl n ↦
        let (t, p', q, k) = pop3_parse-IsSafe p (write_buff_of s c) (r.parser p h) (r.buffers s) in
        (
          record c { pop3_parser = some p' },
          ap (λ z. sniff_by z s c w) h ∙ rw (n, q) refl,
          parsed_Left e s c w p' r k,
        )
  ]
]

-- A change of one copy alone, as a step.
pub changed_Left :
    (e : Ends) (s : Side) (m : CopyModel) (c : SocksConn) (w : World)
    → IsRelaying e (with_copy s m c) w
    → Left e s m (copy_of (aux s) c) c (with_copy s m c) w
changed_Left e s m c w r = record {
  relaying = r;
  buffers = λ t. write_buff_of-with_copy t s m c;
  own = copy_of-with_copy s m c;
  other = copy_of-aux s m c;
}

pub copy_of-own :
    (s : Side) (m : CopyModel) (c : SocksConn) → copy_of s (with_copy (aux s) m c) ≡ copy_of s c
copy_of-own cli m c = refl
copy_of-own src m c = refl

-- The same for the other side's copy.
pub changed_other_Left :
    (e : Ends) (s : Side) (a : CopyModel) (c : SocksConn) (w : World)
    → IsRelaying e (with_copy (aux s) a c) w
    → Left e s (copy_of s c) a c (with_copy (aux s) a c) w
changed_other_Left e s a c w r = record {
  relaying = r;
  buffers = λ t. write_buff_of-with_copy t (aux s) a c;
  own = copy_of-own s a c;
  other = copy_of-with_copy (aux s) a c;
}

-- A step after which nothing happens to the copies.
then_same :
    (e : Ends) (s : Side) (m a : CopyModel) (c c' c'' : SocksConn) (w' w'' : World)
    → Left e s m a c c' w'
    → Left e s (copy_of s c') (copy_of (aux s) c') c' c'' w''
    → Left e s m a c c'' w''
then_same e s m a c c' c'' w' w'' l k = record {
  relaying = k.relaying;
  buffers = λ t. k.buffers t ∙ l.buffers t;
  own = k.own ∙ l.own;
  other = k.other ∙ l.other;
}

-- What `copy_read` does to the copies on each branch.
abbrev pub wake_writer : CopyModel → CopyModel
wake_writer a = record a { interests = meet (join a.interests op_write) a.int_connection }

abbrev pub wake_reader : CopyModel → CopyModel
wake_reader a = record a { interests = meet (join a.interests op_read) a.int_connection }

abbrev pub stop_reading : CopyModel → CopyModel
stop_reading m = record m { interests = meet (meet m.interests op_write) m.int_connection }

abbrev pub stop_writing : CopyModel → CopyModel
stop_writing m = record m { interests = meet (meet m.interests op_read) m.int_connection }

pub copy_received_lem :
    (e : Ends) (s : Side) (c : SocksConn) (w : World)
    → IsRelaying e c w
    → (c' : SocksConn) × (w' : World) × (copy_received s c w ≡ some (copying, c', w'))
      × Left e s (copy_of s c) (wake_writer (copy_of (aux s) c)) c c' w'
unfolding copy_received
copy_received_lem e s c w r =
    let a' = wake_writer (copy_of (aux s) c) in
    let (w', q, k) =
      change_copy_lem e (copy_of (aux s) c).fd (aux s) a' c w r (r.named (aux s))
        (r.named (aux s)) in
    let c1 = with_copy (aux s) a' c in
    let (c', q', l) = sniff_lem e s c1 w' k.relaying in
    (
      c',
      w',
      rw (q, q') refl,
      then_same e s (copy_of s c) a' c c1 c' w' w' (changed_other_Left e s a' c w' k.relaying) l,
    )

pub copy_full_lem :
    (e : Ends) (s : Side) (c : SocksConn) (w : World)
    → IsRelaying e c w
    → (c' : SocksConn) × (w' : World) × (copy_full (pos (e.fd s)) s c w ≡ some (copying, c', w'))
      × Left e s (stop_reading (copy_of s c)) (copy_of (aux s) c) c c' w'
unfolding copy_full
copy_full_lem e s c w r =
    let m = stop_reading (copy_of s c) in
    let (w', q, k) = change_copy_lem e (pos (e.fd s)) s m c w r refl (r.named s) in
    (with_copy s m c, w', rw q refl, changed_Left e s m c w' k.relaying)
