-- ===== src/Socks/Copy/Wakeup.antt =====
-- What the two sides of the copy phase of src/socks5/socks5.c wait for while both streams are open.
use tpe_socks.Prelude.{
  ℕ, ◌-◌, ◌≡◌, refl, ◌∙◌, ap, true, false, arith, length, drop, length-drop, if◌then◌else◌,
}
use tpe_socks.Buffer.{Buffer, buffer_can_read, buffer_can_write}
use tpe_socks.Buffer.Refine.{contents, length-contents}
use tpe_socks.Socks.Bytes.{Holds}
use tpe_socks.Socks.Conn.{CopyModel, Side, cli, src, SocksConn, World}
use tpe_socks.Socks.Copy.Sides.{
  after_own, after_other, read_own, read_other, copy_of-with_read_buff, read_after,
}
use tpe_socks.Socks.Copy.{
  aux, op_both, copy_of, write_buff_of, read_buff_of, with_write_buff, with_read_buff,
}
use tpe_socks.Socks.Copy.Relaying.{Ends}
use tpe_socks.Socks.Copy.Steps.{Left, wake_writer, wake_reader, stop_reading, stop_writing}

-- One side: it may read and write, it waits to write whenever there are bytes for it, and to read
-- whenever there is room for what it sends.
pub record IsReady (room pending : Buffer) (m : CopyModel) : Type 0 where
  pub both_ways : m.int_connection ≡ op_both
  pub writes : buffer_can_read pending ≡ true → m.interests.op_write ≡ true
  pub reads : buffer_can_write room ≡ true → m.interests.op_read ≡ true

-- Both sides.
pub record IsAwake (c : SocksConn) : Type 0 where
  pub ready : (s : Side) → IsReady (write_buff_of s c) (read_buff_of s c) (copy_of s c)

-- From both sides of a connection, given by any of the two.
by_sides :
    (s : Side) (c : SocksConn)
    → IsReady (write_buff_of s c) (write_buff_of (aux s) c) (copy_of s c)
    → IsReady (write_buff_of (aux s) c) (write_buff_of s c) (copy_of (aux s) c)
    → IsAwake c
by_sides cli c p q = record { ready = λ t. both t }
  where
    both : (t : Side) → IsReady (write_buff_of t c) (read_buff_of t c) (copy_of t c)
    both cli = p
    both src = q
by_sides src c p q = record { ready = λ t. both t }
  where
    both : (t : Side) → IsReady (write_buff_of t c) (read_buff_of t c) (copy_of t c)
    both cli = q
    both src = p

own_side :
    (s : Side) (c : SocksConn)
    → IsAwake c
    → IsReady (write_buff_of s c) (write_buff_of (aux s) c) (copy_of s c)
own_side cli c k = k.ready cli
own_side src c k = k.ready src

other_side :
    (s : Side) (c : SocksConn)
    → IsAwake c
    → IsReady (write_buff_of (aux s) c) (write_buff_of s c) (copy_of (aux s) c)
other_side cli c k = k.ready src
other_side src c k = k.ready cli

-- The two sides after a step, from the side's buffer, the other buffer and the two copies.
sides-Left :
    (e : Ends) (s : Side) (m a : CopyModel) (c c' : SocksConn) (w' : World) (x y : Buffer)
    → Left e s m a c c' w'
    → write_buff_of s c ≡ x
    → write_buff_of (aux s) c ≡ y
    → IsReady x y m
    → IsReady y x a
    → IsAwake c'
sides-Left e s m a c c' w' x y l h k p q =
    by_sides s c' (rw (l.buffers s, l.buffers (aux s), l.own, h, k) p)
      (rw (l.buffers s, l.buffers (aux s), l.other, h, k) q)

wake_writer-IsReady : (x y b : Buffer) (a : CopyModel) → IsReady y x a → IsReady y b (wake_writer a)
wake_writer-IsReady x y b a r = ground (arith, r.both_ways)

received-IsReady :
    (x y b : Buffer) (m : CopyModel) → IsReady x y m → buffer_can_write x ≡ true → IsReady b y m
received-IsReady x y b m r h = record {
  both_ways = r.both_ways;
  writes = r.writes;
  reads = λ _. r.reads h;
}

-- Bytes that are received wake the other side.
pub received-IsAwake :
    (e : Ends) (s : Side) (b : Buffer) (c c' : SocksConn) (w' : World)
    → IsAwake c
    → buffer_can_write (write_buff_of s c) ≡ true
    → Left e s (copy_of s c) (wake_writer (copy_of (aux s) c)) (with_write_buff s b c) c' w'
    → IsAwake c'
received-IsAwake e s b c c' w' k h l =
    sides-Left e s (copy_of s c) (wake_writer (copy_of (aux s) c)) (with_write_buff s b c) c' w' b
      (write_buff_of (aux s) c) l (after_own s b c) (after_other s b c)
      (received-IsReady (write_buff_of s c) (write_buff_of (aux s) c) b (copy_of s c)
        (own_side s c k) h)
      (wake_writer-IsReady (write_buff_of s c) (write_buff_of (aux s) c) b (copy_of (aux s) c)
        (other_side s c k))

stop_reading-IsReady :
    (x y : Buffer) (m : CopyModel)
    → IsReady x y m
    → buffer_can_write x ≡ false
    → IsReady x y (stop_reading m)
stop_reading-IsReady x y m r h = ground (arith, r.both_ways)

-- A side that there is no room for may stop reading.
pub full-IsAwake :
    (e : Ends) (s : Side) (c c' : SocksConn) (w' : World)
    → IsAwake c
    → buffer_can_write (write_buff_of s c) ≡ false
    → Left e s (stop_reading (copy_of s c)) (copy_of (aux s) c) c c' w'
    → IsAwake c'
full-IsAwake e s c c' w' k h l =
    sides-Left e s (stop_reading (copy_of s c)) (copy_of (aux s) c) c c' w' (write_buff_of s c)
      (write_buff_of (aux s) c) l refl refl
      (stop_reading-IsReady (write_buff_of s c) (write_buff_of (aux s) c) (copy_of s c)
        (own_side s c k) h)
      (other_side s c k)

wake_reader-IsReady : (x y b : Buffer) (a : CopyModel) → IsReady y x a → IsReady b x (wake_reader a)
wake_reader-IsReady x y b a r = ground (arith, r.both_ways)

-- What is left to send was there before.
still :
    (y b : Buffer) (n : ℕ)
    → Holds y b (drop n (contents y))
    → buffer_can_read b ≡ true
    → buffer_can_read y ≡ true
unfolding buffer_can_read
still y b n o h =
    let k : length (contents b) ≡ length (contents y) - n =
      ap length o.queue ∙ length-drop n (contents y) in
    ground (arith, length-contents b, length-contents y)

sent-IsReady :
    (x y b : Buffer) (m : CopyModel)
    → IsReady x y m
    → (buffer_can_read b ≡ true → buffer_can_read y ≡ true)
    → IsReady x b (if buffer_can_read b then m else stop_writing m)
sent-IsReady x y b m r h = ground (arith, r.both_ways)

drained :
    (s : Side) (n : ℕ) (b : Buffer) (c : SocksConn)
    → Holds (read_buff_of s c) b (drop n (contents (read_buff_of s c)))
    → buffer_can_read b ≡ true
    → buffer_can_read (write_buff_of (aux s) c) ≡ true
drained cli n b c o h = still c.read_buff b n o h
drained src n b c o h = still c.write_buff b n o h

-- Bytes that are sent make room for the other side, which waits to read again.
pub sent-IsAwake :
    (e : Ends) (s : Side) (n : ℕ) (b : Buffer) (c c1 c' : SocksConn) (w' : World)
    → IsAwake c
    → c1 ≡ with_read_buff s b c
    → Holds (read_buff_of s c) b (drop n (contents (read_buff_of s c)))
    → Left e s
        (if buffer_can_read (read_buff_of s c1) then copy_of s c1 else stop_writing (copy_of s c1))
        (wake_reader (copy_of (aux s) c1))
        c1
        c'
        w'
    → IsAwake c'
sent-IsAwake e s n b c c1 c' w' k j o l =
    let x = write_buff_of s c in
    let y = write_buff_of (aux s) c in
    let own : copy_of s c1 ≡ copy_of s c = ap (copy_of s) j ∙ copy_of-with_read_buff s s b c in
    let other : copy_of (aux s) c1 ≡ copy_of (aux s) c =
      ap (copy_of (aux s)) j ∙ copy_of-with_read_buff (aux s) s b c in
    let left : read_buff_of s c1 ≡ b = ap (read_buff_of s) j ∙ read_after s b c in
    sides-Left e s _ _ c1 c' w' x b l (ap (write_buff_of s) j ∙ read_own s b c)
      (ap (write_buff_of (aux s)) j ∙ read_other s b c)
      (rw (own, left) (sent-IsReady x y b (copy_of s c) (own_side s c k) (drained s n b c o)))
      (rw other (wake_reader-IsReady x y b (copy_of (aux s) c) (other_side s c k)))

own_copy :
    (t s : Side) (c : SocksConn)
    → IsReady (write_buff_of t c) (read_buff_of t c) (copy_of t c)
    → IsReady
        (write_buff_of t (with_write_buff s (write_buff_of s c) c))
        (read_buff_of t (with_write_buff s (write_buff_of s c) c))
        (copy_of t (with_write_buff s (write_buff_of s c) c))
own_copy cli cli c r = r
own_copy cli src c r = r
own_copy src cli c r = r
own_copy src src c r = r

own_read_copy :
    (t s : Side) (c : SocksConn)
    → IsReady (write_buff_of t c) (read_buff_of t c) (copy_of t c)
    → IsReady
        (write_buff_of t (with_read_buff s (read_buff_of s c) c))
        (read_buff_of t (with_read_buff s (read_buff_of s c) c))
        (copy_of t (with_read_buff s (read_buff_of s c) c))
own_read_copy cli cli c r = r
own_read_copy cli src c r = r
own_read_copy src cli c r = r
own_read_copy src src c r = r

-- Nothing happens when a call is to be tried again.
pub again-IsAwake :
    (s : Side) (c : SocksConn)
    → IsAwake c
    → IsAwake (with_write_buff s (write_buff_of s c) c)
      × IsAwake (with_read_buff s (read_buff_of s c) c)
again-IsAwake s c k = (
  record { ready = λ t. own_copy t s c (k.ready t) },
  record { ready = λ t. own_read_copy t s c (k.ready t) },
)
