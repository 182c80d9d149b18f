-- ===== src/Socks/Copy/Runs.antt =====
-- Any sequence of events in the copy phase of src/socks5/socks5.c.
use tpe_socks.Prelude.{
  ℕ, ◌≡◌, refl, sym, subst, ◌∙◌, ap, drop, Bool, true, some, none, List, [], ◌∷◌, ◌++◌, append-nil,
  append_assoc, Bool-cases, inl, inr, if◌then◌else◌,
}
use tpe_socks.Buffer.{Buffer, buffer_can_read, buffer_can_write}
use tpe_socks.Buffer.Inv as Buf
use tpe_socks.Buffer.Refine.{contents}
use tpe_socks.Socks.Bytes.{Holds, receive_end, receive_error, send_lem, send_error}
use tpe_socks.Socks.Conn.{
  SocksState, copying, failed, Side, cli, src, SocksConn, World, Recv, received, recv_failed, sent,
  send_failed,
}
use tpe_socks.Socks.Copy.{
  aux, copy_of, write_buff_of, read_buff_of, with_write_buff, with_read_buff, copy_write,
  copy_write_by, copy_to,
}
use tpe_socks.Socks.Copy.Relaying.{Ends, IsRelaying, with_write_buff-IsRelaying}
use tpe_socks.Socks.Copy.Steps.{Left, wake_reader, stop_writing}
use tpe_socks.Socks.Copy.Ends.{copy_sent_lem}
use tpe_socks.Socks.Copy.Wakeup.{sent-IsAwake, again-IsAwake}
use tpe_socks.Socks.Copy.Fifo.{
  Event, readable, writable, relay, Allowed, Moves, Result, taken_for, sent_to, queue_sent,
  get_copy_lem, queue_same,
}
use tpe_socks.Socks.Copy.Reads.{read_full, read_none, read_some, taken_empty}

with_read_buff-aux :
    (s : Side) (b : Buffer) (c : SocksConn) → with_write_buff (aux s) b c ≡ with_read_buff s b c
with_read_buff-aux cli b c = refl
with_read_buff-aux src b c = refl

read_buff_of-aux : (s : Side) (c : SocksConn) → write_buff_of (aux s) c ≡ read_buff_of s c
read_buff_of-aux cli c = refl
read_buff_of-aux src c = refl

sending :
    (e : Ends) (s : Side) (b : Buffer) (c : SocksConn) (w : World)
    → IsRelaying e c w
    → Buf.IsValid b
    → IsRelaying e (with_read_buff s b c) w
sending e s b c w i v =
    rw (with_read_buff-aux s b c) at (with_write_buff-IsRelaying e (aux s) b c w i v)

to_send :
    (e : Ends) (s : Side) (c : SocksConn) (w : World)
    → IsRelaying e c w
    → Buf.IsValid (read_buff_of s c)
to_send e s c w i = rw (read_buff_of-aux s c) at (i.buffers (aux s))

own_read_buffer :
    (t s : Side) (c : SocksConn)
    → write_buff_of t (with_read_buff s (read_buff_of s c) c) ≡ write_buff_of t c
own_read_buffer cli cli c = refl
own_read_buffer cli src c = refl
own_read_buffer src cli c = refl
own_read_buffer src src c = refl

-- What `send` of some bytes leads to.
pub write_step :
    (e : Ends) (s : Side) (n : ℕ) (again : Bool) (c : SocksConn) (w : World)
    → IsRelaying e c w
    → Allowed (writable s (sent n) again) c
    → (b : Buffer) × (c' : SocksConn) × (w' : World) × (relay (writable s (sent n) again) c w
        ≡ some (copying, c', w'))
      × Holds (read_buff_of s c) b (drop n (contents (read_buff_of s c)))
      × Left e s
          (if buffer_can_read (read_buff_of s (with_read_buff s b c))
            then copy_of s (with_read_buff s b c)
            else stop_writing (copy_of s (with_read_buff s b c)))
          (wake_reader (copy_of (aux s) (with_read_buff s b c)))
          (with_read_buff s b c)
          c'
          w'
unfolding relay copy_write copy_write_by copy_to
write_step e s n again c w i a =
    let (k, g) = get_copy_lem e s c w i in
    let (b, m, o) = send_lem (read_buff_of s c) n (to_send e s c w i) a in
    let (c', w', q, l) =
      copy_sent_lem e s n (with_read_buff s b c) w (sending e s b c w i o.valid) in
    (b, c', w', ap (λ z. copy_write_by z (sent n) again c w) g ∙ rw (m, q) refl, o, l)

write_some :
    (e : Ends) (s : Side) (n : ℕ) (again : Bool) (c : SocksConn) (w : World)
    → IsRelaying e c w
    → Allowed (writable s (sent n) again) c
    → Result e (writable s (sent n) again) c w
write_some e s n again c w i a =
    let (b, c', w', q, o, l) = write_step e s n again c w i a in
    (
      copying,
      c',
      w',
      q,
      record {
        relaying = l.relaying;
        queues = λ t. queue_sent s t b c c' n l.buffers o.queue;
        wakes = λ v _. sent-IsAwake e s n b c (with_read_buff s b c) c' w' v refl o l;
      },
    )

write_none :
    (e : Ends) (s : Side) (again : Bool) (c : SocksConn) (w : World)
    → IsRelaying e c w
    → Result e (writable s send_failed again) c w
unfolding relay copy_write copy_write_by copy_to
write_none e s again c w i =
    let (k, g) = get_copy_lem e s c w i in
    let c1 = with_read_buff s (read_buff_of s c) c in
    (
      if again then copying else failed,
      c1,
      w,
      ap (λ z. copy_write_by z send_failed again c w) g
          ∙ rw (send_error (read_buff_of s c) (to_send e s c w i)) refl,
      record {
        relaying = sending e s (read_buff_of s c) c w i (to_send e s c w i);
        queues = λ t.
            queue_same t c c1 (λ u. own_read_buffer u s c)
            ∙ sym (append-nil (contents (read_buff_of t c)));
        wakes = λ v _. (again-IsAwake s c v).1;
      },
    )

-- In the copy phase an event that the system allows never faults and leaves the connection in order. For
-- each side, what is sent to it, followed by what is pending for it after the event, is what was pending
-- before, followed by what was received for it.
pub relay_total :
    (e : Ends) (ev : Event) (c : SocksConn) (w : World)
    → IsRelaying e c w
    → Allowed ev c
    → (t : SocksState) × (c' : SocksConn) × (w' : World) × (relay ev c w ≡ some (t, c', w'))
      × Moves e ev c c' w'
relay_total e (readable s r again) c w i a =
    elim (Bool-cases (buffer_can_write (write_buff_of s c))) [
      | inr h ↦ read_full e s r again c w i h
      | inl h ↦ read_room e s r again c w i h a
    ]
  where
    read_room :
        (e : Ends) (s : Side) (r : Recv) (again : Bool) (c : SocksConn) (w : World)
        → IsRelaying e c w
        → buffer_can_write (write_buff_of s c) ≡ true
        → Allowed (readable s r again) c
        → Result e (readable s r again) c w
    read_room e s (received []) again c w i h a =
        read_none e s (received []) again c w i h (receive_end (write_buff_of s c) (i.buffers s))
          (λ t. taken_empty t s again c) refl
    read_room e s (received (x ∷ xs)) again c w i h a = read_some e s x xs again c w i h a
    read_room e s recv_failed again c w i h a =
        read_none e s recv_failed again c w i h (receive_error (write_buff_of s c) (i.buffers s))
          (λ t. refl) refl
relay_total e (writable s (sent n) again) c w i a = write_some e s n again c w i a
relay_total e (writable s send_failed again) c w i a = write_none e s again c w i

-- A run of events that stays in the copy phase, with all that was received for side `t` and all that was
-- sent to it.
pub data Relays (t : Side) : SocksConn → World → List ℕ → List ℕ → SocksConn → World → Type 0 where
  start : (c : SocksConn) (w : World) → Relays t c w [] [] c w
  event :
      (ev : Event) (c c1 c' : SocksConn) (w w1 w' : World) (ins outs : List ℕ)
      → Allowed ev c
      → relay ev c w ≡ some (copying, c1, w1)
      → Relays t c1 w1 ins outs c' w'
      → Relays t c w (taken_for t ev c ++ ins) (sent_to t ev c ++ outs) c' w'

result_inj : (x y : SocksState × SocksConn × World) → some x ≡ some y → x ≡ y
result_inj x y h = ap (λ z. elim z [ none ↦ x | some u ↦ u ]) h

-- The same event again, with the result that is known.
pub moved_any :
    (e : Ends) (ev : Event) (c c1 : SocksConn) (w w1 : World) (t1 : SocksState)
    → IsRelaying e c w
    → Allowed ev c
    → relay ev c w ≡ some (t1, c1, w1)
    → Moves e ev c c1 w1
moved_any e ev c c1 w w1 t1 i a h =
    let (t, c2, w2, q, m) = relay_total e ev c w i a in
    let same : (x y : SocksState × SocksConn × World)
        → x ≡ y
        → Moves e ev c x.1 x.2
        → Moves e ev c y.1 y.2 =
      λ x y p. subst (λ z. Moves e ev c z.1 z.2) p in
    same (t, c2, w2) (t1, c1, w1) (result_inj (t, c2, w2) (t1, c1, w1) (sym q ∙ h)) m

one_more :
    (o os r q i is p : List ℕ)
    → o ++ r ≡ p ++ i
    → os ++ q ≡ r ++ is
    → (o ++ os) ++ q ≡ p ++ (i ++ is)
one_more o os r q i is p h k =
    append_assoc o os q
    ∙ ap (λ z. o ++ z) k
    ∙ sym (append_assoc o r is)
    ∙ ap (λ z. z ++ is) h
    ∙ append_assoc p i is

-- Over any run of the copy phase each direction is a queue: what was sent to a side, followed by what is
-- still pending for it, is what was pending for it at the start, followed by all that was received for
-- it. No byte is lost, repeated or put out of order, and the connection stays in order.
pub Relays-fifo :
    (e : Ends) (t : Side) (c c' : SocksConn) (w w' : World) (ins outs : List ℕ)
    → IsRelaying e c w
    → Relays t c w ins outs c' w'
    → IsRelaying e c' w'
      × (outs ++ contents (read_buff_of t c') ≡ contents (read_buff_of t c) ++ ins)
Relays-fifo e t c _ w _ _ _ i (start _ _) = (i, sym (append-nil (contents (read_buff_of t c))))
Relays-fifo e t c c' w w' _ _ i (event ev _ c1 _ _ w1 _ ins outs a h r) =
    let m = moved_any e ev c c1 w w1 copying i a h in
    let (i', f) = Relays-fifo e t c1 c' w1 w' ins outs m.relaying r in
    (
      i',
      one_more (sent_to t ev c) outs (contents (read_buff_of t c1)) (contents (read_buff_of t c'))
          (taken_for t ev c) ins (contents (read_buff_of t c)) (m.queues t) f,
    )
