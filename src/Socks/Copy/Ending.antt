-- ===== src/Socks/Copy/Ending.antt =====
-- How the copy phase of src/socks5/socks5.c ends, and what it does with bytes that are still pending.
use tpe_socks.Prelude.{ℕ, ◌≡◌, refl, ◌∙◌, ap, Bool, true, false, some, [], arith, if◌then◌else◌}
use tpe_socks.Buffer.{Buffer, buffer_can_read, buffer_can_write}
use tpe_socks.Buffer.Refine.{contents}
use tpe_socks.Selector as Sel
use tpe_socks.Socks.Bytes.{receive_end}
use tpe_socks.Socks.Conn.{
  copying, finished, CopyModel, Side, cli, src, SocksConn, World, received, sent,
}
use tpe_socks.Socks.Copy.{
  aux, copy_of, write_buff_of, read_buff_of, with_write_buff, with_read_buff, copy_read,
  copy_read_by, copy_from, after_end, is_noop,
}
use tpe_socks.Socks.Copy.Relaying.{Ends, IsRelaying, with_write_buff-IsRelaying}
use tpe_socks.Socks.Copy.Sides.{copy_of-with_write_buff}
use tpe_socks.Socks.Copy.Steps.{wake_reader}
use tpe_socks.Socks.Copy.Ends.{copy_ended_lem, ended, half_closed, closed}
use tpe_socks.Socks.Copy.Sides.{copy_of-with_read_buff}
use tpe_socks.Socks.Copy.Fifo.{readable, writable, relay, Allowed, socket_of, get_copy_lem}
use tpe_socks.Socks.Copy.Reads.{own_buffer}
use tpe_socks.Socks.Copy.Runs.{write_step}

other_pending :
    (s : Side) (b : Buffer) (c c' : SocksConn)
    → ((t : Side) → write_buff_of t c' ≡ write_buff_of t (with_read_buff s b c))
    → contents (read_buff_of (aux s) c') ≡ contents (read_buff_of (aux s) c)
other_pending cli b c c' k = ap contents (k cli)
other_pending src b c c' k = ap contents (k src)

-- Once the other side may not write any more, a `send` to this side leaves the selector not waiting to
-- write to the other side, whatever is still pending for that one.
pub relay_strands :
    (e : Ends) (s : Side) (n : ℕ) (again : Bool) (c : SocksConn) (w : World)
    → IsRelaying e c w
    → Allowed (writable s (sent n) again) c
    → (copy_of (aux s) c).int_connection.op_write ≡ false
    → (c' : SocksConn) × (w' : World) × (relay (writable s (sent n) again) c w
        ≡ some (copying, c', w'))
      × (w'.selector.master_w (e.fd (aux s)) ≡ false)
      × (contents (read_buff_of (aux s) c') ≡ contents (read_buff_of (aux s) c))
relay_strands e s n again c w i a h =
    let (b, c', w', q, o, l) = write_step e s n again c w i a in
    let other : copy_of (aux s) c' ≡ wake_reader (copy_of (aux s) c) =
      l.other ∙ ap wake_reader (copy_of-with_read_buff (aux s) s b c) in
    (
      c',
      w',
      q,
      l.relaying.table.writes (e.fd (aux s))
          ∙ ap Sel.wants_write (l.relaying.synced (aux s))
          ∙ ap (λ m. m.interests.op_write) other
          ∙ never_written (copy_of (aux s) c) h,
      other_pending s b c c' l.buffers,
    )
  where
    never_written :
        (m : CopyModel)
        → m.int_connection.op_write ≡ false
        → (wake_reader m).interests.op_write ≡ false
    never_written m h = ground arith

nothing_left :
    (s : Side) (c : SocksConn)
    → is_noop (copy_of s c).int_connection ≡ true
    → is_noop (copy_of (aux s) c).int_connection ≡ true
    → after_end c ≡ finished
unfolding after_end
nothing_left cli c h k = rw (h, k) refl
nothing_left src c h k = rw (k, h) refl

ended_noop :
    (m : CopyModel) → m.int_connection.op_write ≡ false → is_noop (ended m).int_connection ≡ true
ended_noop m h = ground arith

half_noop :
    (b : Bool) (m : CopyModel)
    → m.int_connection.op_read ≡ false
    → is_noop (if b then half_closed m else closed m).int_connection ≡ true
half_noop b m h = ground arith

-- When a side ends whose peer has ended before, the connection is over at once, whatever is pending for
-- either side.
pub relay_drops :
    (e : Ends) (s : Side) (c : SocksConn) (w : World)
    → IsRelaying e c w
    → buffer_can_write (write_buff_of s c) ≡ true
    → (copy_of s c).int_connection.op_write ≡ false
    → (copy_of (aux s) c).int_connection.op_read ≡ false
    → (c' : SocksConn) × (w' : World) × (relay (readable s (received []) false) c w
        ≡ some (finished, c', w'))
      × ((t : Side) → contents (write_buff_of t c') ≡ contents (write_buff_of t c))
unfolding relay copy_read copy_read_by copy_from
relay_drops e s c w i h wr rd =
    let (k, g) = get_copy_lem e s c w i in
    let c1 = with_write_buff s (write_buff_of s c) c in
    let i1 = with_write_buff-IsRelaying e s (write_buff_of s c) c w i (i.buffers s) in
    let (c', w', q, l) = copy_ended_lem e s c1 w i1 in
    let own = l.own ∙ ap ended (copy_of-with_write_buff s s (write_buff_of s c) c) in
    let last : after_end c' ≡ finished = nothing_left s c' (rw own (ended_noop (copy_of s c) wr)) (
      rw (l.other, copy_of-with_write_buff (aux s) s (write_buff_of s c) c)
        (half_noop (buffer_can_read (write_buff_of s c1)) (copy_of (aux s) c) rd)) in
    (
      c',
      w',
      ap (λ z. copy_read_by z (socket_of s c) (received []) false c w) g
          ∙ rw (h, receive_end (write_buff_of s c) (i.buffers s), q, last) refl,
      λ t. ap contents (l.buffers t ∙ own_buffer t s c),
    )
