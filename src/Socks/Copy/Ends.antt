-- ===== src/Socks/Copy/Ends.antt =====
-- What the end of a side's stream, and what a `send`, do to a connection in the copy phase of
-- src/socks5/socks5.c.
use tpe_socks.Prelude.{
  ℕ, ◌≡◌, refl, sym, subst, ◌∙◌, ap, Bool, true, false, some, Bool-cases, inl, inr, if◌then◌else◌,
}
use tpe_socks.Prelude.Int.{pos}
use tpe_socks.Buffer.{buffer_can_read}
use tpe_socks.Metrics.{add_bytes_transferred}
use tpe_socks.Socks.Conn.{copying, CopyModel, Side, cli, src, SocksConn, World, op_read, op_write}
use tpe_socks.Socks.Copy.{
  aux, copy_of, with_copy, write_buff_of, read_buff_of, meet, change_copy, shutdown, copy_ended,
  copy_drained, copy_sent, after_end,
}
use tpe_socks.Socks.Copy.Relaying.{
  Ends, IsRelaying, change_copy_lem, with_copy-IsRelaying, other_world-IsRelaying,
}
use tpe_socks.Socks.Copy.Sides.{copy_of-with_copy, copy_of-aux, write_buff_of-with_copy}
use tpe_socks.Socks.Copy.Steps.{
  Left, changed_Left, changed_other_Left, copy_of-own, wake_reader, stop_writing,
}

shutdown_kept : (fd : _) (rd : Bool) (w : World) → (shutdown fd rd w).selector ≡ w.selector
unfolding shutdown
shutdown_kept fd rd w = refl

-- The side's copy after its stream has ended.
abbrev pub ended : CopyModel → CopyModel
ended m =
    let int = meet m.int_connection op_write in
    record m { interests = meet m.interests int; int_connection = int }

-- The other side's copy: it may only read from now on.
abbrev pub half_closed : CopyModel → CopyModel
half_closed a = record a { int_connection = meet a.int_connection op_read }

abbrev pub closed : CopyModel → CopyModel
closed a =
    let int = meet a.int_connection op_read in
    record a { interests = meet a.interests int; int_connection = int }

-- Two steps, of the side's copy and then of the other one.
both_Left :
    (e : Ends) (s : Side) (m a : CopyModel) (c : SocksConn) (w' : World)
    → IsRelaying e (with_copy (aux s) a (with_copy s m c)) w'
    → Left e s m a c (with_copy (aux s) a (with_copy s m c)) w'
both_Left e s m a c w' r = record {
  relaying = r;
  buffers =
      λ t. write_buff_of-with_copy t (aux s) a (with_copy s m c) ∙ write_buff_of-with_copy t s m c;
  own = copy_of-own s a (with_copy s m c) ∙ copy_of-with_copy s m c;
  other = copy_of-with_copy (aux s) a (with_copy s m c);
}

with_copy_twice :
    (s : Side) (m m' : CopyModel) (c : SocksConn)
    → with_copy s m' (with_copy s m c) ≡ with_copy s m' c
with_copy_twice cli m m' c = refl
with_copy_twice src m m' c = refl

-- Once nothing is pending the other side is closed for writing.
close_lem :
    (e : Ends) (s : Side) (c : SocksConn) (w : World)
    → IsRelaying e c w
    → (w' : World) × (change_copy
          (copy_of (aux s) c).fd
          (aux s)
          (closed (copy_of (aux s) c))
          (with_copy (aux s) (half_closed (copy_of (aux s) c)) c)
          w
        ≡ some (with_copy (aux s) (closed (copy_of (aux s) c)) c, w'))
      × IsRelaying e (with_copy (aux s) (closed (copy_of (aux s) c)) c) w'
close_lem e s c w r =
    let h = half_closed (copy_of (aux s) c) in
    let r' = with_copy-IsRelaying e (aux s) h c w r (r.named (aux s)) refl in
    let (w', q, k) =
      change_copy_lem e (copy_of (aux s) c).fd (aux s) (closed (copy_of (aux s) c))
        (with_copy (aux s) h c) w r' (r.named (aux s)) (r.named (aux s)) in
    (
      w',
      q ∙ ap (λ d. some (d, w')) (with_copy_twice (aux s) h (closed (copy_of (aux s) c)) c),
      subst (λ d. IsRelaying e d w') (with_copy_twice (aux s) h (closed (copy_of (aux s) c)) c)
          k.relaying,
    )

pub copy_ended_lem :
    (e : Ends) (s : Side) (c : SocksConn) (w : World)
    → IsRelaying e c w
    → (c' : SocksConn) × (w' : World) × (copy_ended s c w ≡ some (after_end c', c', w'))
      × Left e s
          (ended (copy_of s c))
          (if buffer_can_read (write_buff_of s c)
            then half_closed (copy_of (aux s) c)
            else closed (copy_of (aux s) c))
          c
          c'
          w'
unfolding copy_ended
copy_ended_lem e s c w r =
    let m = ended (copy_of s c) in
    let a = copy_of (aux s) c in
    let (w1, q, k) = change_copy_lem e (copy_of s c).fd s m c w r (r.named s) (r.named s) in
    let c1 = with_copy s m c in
    let w2 = shutdown (copy_of s c).fd true w1 in
    let r2 : IsRelaying e c1 w2 =
      other_world-IsRelaying e c1 w1 w2 k.relaying (shutdown_kept (copy_of s c).fd true w1) in
    let same : copy_of (aux s) c1 ≡ a = copy_of-aux s m c in
    let c2 = with_copy (aux s) (half_closed (copy_of (aux s) c1)) c1 in
    let kept : write_buff_of s c2 ≡ write_buff_of s c =
      write_buff_of-with_copy s (aux s) (half_closed (copy_of (aux s) c1)) c1
      ∙ write_buff_of-with_copy s s m c in
    let r3 : IsRelaying e c2 w2 =
      with_copy-IsRelaying e (aux s) (half_closed (copy_of (aux s) c1)) c1 w2 r2 (r2.named (aux s))
        refl in
    elim (Bool-cases (buffer_can_read (write_buff_of s c))) [
      | inl h ↦ (
        c2,
        w2,
        rw (q, ap buffer_can_read kept ∙ h) refl,
        rw (h, sym same) (both_Left e s m (half_closed (copy_of (aux s) c1)) c w2 r3),
      )
      | inr h ↦
          let (w4, q4, r4) = close_lem e s c1 w2 r2 in
          let w5 = shutdown (copy_of (aux s) c1).fd false w4 in
          (
            with_copy (aux s) (closed (copy_of (aux s) c1)) c1,
            w5,
            rw (q, ap buffer_can_read kept ∙ h, q4) refl,
            rw (h, sym same)
                (both_Left e s m (closed (copy_of (aux s) c1)) c w5 (
                  other_world-IsRelaying e _ w4 w5 r4
                    (shutdown_kept (copy_of (aux s) c1).fd false w4))),
          )
    ]

read_buff_of-with_copy :
    (t s : Side) (m : CopyModel) (c : SocksConn)
    → read_buff_of t (with_copy s m c) ≡ read_buff_of t c
read_buff_of-with_copy cli cli m c = refl
read_buff_of-with_copy cli src m c = refl
read_buff_of-with_copy src cli m c = refl
read_buff_of-with_copy src src m c = refl

copy_drained_lem :
    (e : Ends) (s : Side) (c : SocksConn) (w : World)
    → IsRelaying e c w
    → (c' : SocksConn) × (w' : World) × (copy_drained s c w ≡ some (copying, c', w'))
      × Left e s (stop_writing (copy_of s c)) (copy_of (aux s) c) c c' w'
unfolding copy_drained
copy_drained_lem e s c w r =
    let m = stop_writing (copy_of s c) in
    let (w1, q, k) = change_copy_lem e (copy_of s c).fd s m c w r (r.named s) (r.named s) in
    let w2 = shutdown (copy_of s c).fd false w1 in
    elim (Bool-cases (copy_of s c).int_connection.op_write) [
      | inl h ↦ (with_copy s m c, w1, rw (q, h) refl, changed_Left e s m c w1 k.relaying)
      | inr h ↦ (
        with_copy s m c,
        w2,
        rw (q, h) refl,
        changed_Left e s m c w2 (
            other_world-IsRelaying e (with_copy s m c) w1 w2 k.relaying
              (shutdown_kept (copy_of s c).fd false w1)),
      )
    ]

pub copy_sent_lem :
    (e : Ends) (s : Side) (n : ℕ) (c : SocksConn) (w : World)
    → IsRelaying e c w
    → (c' : SocksConn) × (w' : World) × (copy_sent s n c w ≡ some (copying, c', w'))
      × Left e s
          (if buffer_can_read (read_buff_of s c) then copy_of s c else stop_writing (copy_of s c))
          (wake_reader (copy_of (aux s) c))
          c
          c'
          w'
unfolding copy_sent
copy_sent_lem e s n c w r =
    let a' = wake_reader (copy_of (aux s) c) in
    let w0 = record w {
      server = record (w.server) { metrics = add_bytes_transferred w.server.metrics (pos n) };
    } in
    let (w1, q, k) =
      change_copy_lem e (copy_of (aux s) c).fd (aux s) a' c w0
        (other_world-IsRelaying e c w w0 r refl) (r.named (aux s)) (r.named (aux s)) in
    let c1 = with_copy (aux s) a' c in
    let kept = read_buff_of-with_copy s (aux s) a' c in
    elim (Bool-cases (buffer_can_read (read_buff_of s c))) [
      | inl h ↦ (
        c1,
        w1,
        rw (q, ap buffer_can_read kept ∙ h) refl,
        rw h (changed_other_Left e s a' c w1 k.relaying),
      )
      | inr h ↦
          let (c2, w2, q2, l) = copy_drained_lem e s c1 w1 k.relaying in
          (
            c2,
            w2,
            rw (q, ap buffer_can_read kept ∙ h, q2) refl,
            rw h (record {
              relaying = l.relaying;
              buffers = λ t. l.buffers t ∙ write_buff_of-with_copy t (aux s) a' c;
              own = l.own ∙ ap stop_writing (copy_of-own s a' c);
              other = l.other ∙ copy_of-with_copy (aux s) a' c;
            }),
          )
    ]
