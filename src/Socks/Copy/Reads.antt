-- ===== src/Socks/Copy/Reads.antt =====
-- What is read in the copy phase of src/socks5/socks5.c, as a move of the queues.
use tpe_socks.Prelude.{ℕ, ◌≡◌, refl, ◌∙◌, ap, Bool, true, false, some, none, List, [], ◌∷◌, arith}
use tpe_socks.Buffer.{buffer_can_write}
use tpe_socks.Socks.Bytes.{receive_lem}
use tpe_socks.Socks.Conn.{
  copying, Side, cli, src, SocksConn, World, Recv, received, recv_failed, check_buff_and_receive,
}
use tpe_socks.Socks.Copy.{
  aux, write_buff_of, with_write_buff, copy_from, copy_read, copy_read_by, after_end,
}
use tpe_socks.Socks.Copy.Relaying.{Ends, IsRelaying, with_write_buff-IsRelaying}
use tpe_socks.Socks.Copy.Sides.{copy_of-with_write_buff}
use tpe_socks.Socks.Copy.Wakeup.{received-IsAwake, full-IsAwake, again-IsAwake}
use tpe_socks.Socks.Copy.Steps.{copy_received_lem, copy_full_lem}
use tpe_socks.Socks.Copy.Ends.{copy_ended_lem}
use tpe_socks.Socks.Copy.Fifo.{
  readable, socket_of, relay, Allowed, same_side, taken_for, get_copy_lem, goes_on, queue_received,
  Result, if_same, nothing_received,
}

taken_full :
    (t s : Side) (r : Recv) (again : Bool) (c : SocksConn)
    → buffer_can_write (write_buff_of s c) ≡ false
    → taken_for t (readable s r again) c ≡ []
taken_full t s (received xs) again c h = if_same (same_side (aux s) t) _ (rw h refl)
taken_full t s recv_failed again c h = refl

pub taken_empty :
    (t s : Side) (again : Bool) (c : SocksConn)
    → taken_for t (readable s (received []) again) c ≡ []
taken_empty t s again c = ground arith

pub read_full :
    (e : Ends) (s : Side) (r : Recv) (again : Bool) (c : SocksConn) (w : World)
    → IsRelaying e c w
    → buffer_can_write (write_buff_of s c) ≡ false
    → Result e (readable s r again) c w
unfolding relay copy_read copy_read_by
read_full e s r again c w i h =
    let (k, g) = get_copy_lem e s c w i in
    let (c', w', q, l) = copy_full_lem e s c w i in
    (
      copying,
      c',
      w',
      ap (λ z. copy_read_by z (socket_of s c) r again c w) g ∙ rw (h, k, q) refl,
      nothing_received e s r again c c' w' l.relaying (λ t. taken_full t s r again c h) l.buffers
          (λ v _. full-IsAwake e s c c' w' v h l),
    )

pub own_buffer :
    (t s : Side) (c : SocksConn)
    → write_buff_of t (with_write_buff s (write_buff_of s c) c) ≡ write_buff_of t c
own_buffer cli cli c = refl
own_buffer cli src c = refl
own_buffer src cli c = refl
own_buffer src src c = refl

pub read_none :
    (e : Ends) (s : Side) (r : Recv) (again : Bool) (c : SocksConn) (w : World)
    → IsRelaying e c w
    → buffer_can_write (write_buff_of s c) ≡ true
    → check_buff_and_receive r (write_buff_of s c) ≡ some (none, write_buff_of s c)
    → ((t : Side) → taken_for t (readable s r again) c ≡ [])
    → goes_on (readable s r again) ≡ again
    → Result e (readable s r again) c w
unfolding relay copy_read copy_read_by copy_from
read_none e s r true c w i h n z f =
    let (k, g) = get_copy_lem e s c w i in
    let c1 = with_write_buff s (write_buff_of s c) c in
    let i1 = with_write_buff-IsRelaying e s (write_buff_of s c) c w i (i.buffers s) in
    (
      copying,
      c1,
      w,
      ap (λ z. copy_read_by z (socket_of s c) r true c w) g ∙ rw (h, n) refl,
      nothing_received e s r true c c1 w i1 z (λ t. own_buffer t s c)
          (λ v _. (again-IsAwake s c v).0),
    )
read_none e s r false c w i h n z f =
    let (k, g) = get_copy_lem e s c w i in
    let c1 = with_write_buff s (write_buff_of s c) c in
    let i1 = with_write_buff-IsRelaying e s (write_buff_of s c) c w i (i.buffers s) in
    let (c', w', q, l) = copy_ended_lem e s c1 w i1 in
    (
      after_end c',
      c',
      w',
      ap (λ z. copy_read_by z (socket_of s c) r false c w) g ∙ rw (h, n, q) refl,
      nothing_received e s r false c c' w' l.relaying z (λ t. l.buffers t ∙ own_buffer t s c)
          (λ v g'. absurd cc),
    )

pub read_some :
    (e : Ends) (s : Side) (x : ℕ) (xs : List ℕ) (again : Bool) (c : SocksConn) (w : World)
    → IsRelaying e c w
    → buffer_can_write (write_buff_of s c) ≡ true
    → Allowed (readable s (received (x ∷ xs)) again) c
    → Result e (readable s (received (x ∷ xs)) again) c w
unfolding relay copy_read copy_read_by copy_from
read_some e s x xs again c w i h a =
    let (k, g) = get_copy_lem e s c w i in
    let (b, n, o) = receive_lem (write_buff_of s c) x xs (i.buffers s) a in
    let c1 = with_write_buff s b c in
    let (c', w', q, l) =
      copy_received_lem e s c1 w (with_write_buff-IsRelaying e s b c w i o.valid) in
    (
      copying,
      c',
      w',
      ap (λ z. copy_read_by z (socket_of s c) (received (x ∷ xs)) again c w) g ∙ rw (h, n, q) refl,
      record {
        relaying = l.relaying;
        wakes = λ v _.
            received-IsAwake e s b c c' w' v h
              (rw (copy_of-with_write_buff s s b c, copy_of-with_write_buff (aux s) s b c) at l);
        queues = λ t. rw h (queue_received s t b c c' (x ∷ xs) l.buffers o.queue);
      },
    )
