-- ===== src/Socks/Bytes.antt =====
-- What `check_buff_and_receive` and `check_buff_and_send` of src/socks5/socks5.c do to the queue of a buffer.
use tpe_socks.Prelude.{
  ℕ, suc, true, ◌+◌, ◌≤◌, ◌≡◌, refl, some, none, List, [], ◌∷◌, ◌++◌, arith, length, drop,
  store_all, length-store_all, leb,
}
use tpe_socks.Buffer.{Buffer, buffer_write_ptr, buffer_read_ptr}
use tpe_socks.Buffer.Inv.{IsValid, SameFrame, buffer_write_adv_total}
use tpe_socks.Buffer.Refine.{contents, contents-received, buffer_read_adv-Taken}
use tpe_socks.Control.Conn.{put}
use tpe_socks.Socks.Conn.{
  received, recv_failed, sent, send_failed, check_buff_and_receive, check_buff_and_send,
}

-- The buffer after a call, with its queue.
pub record Holds (b b' : Buffer) (xs : List ℕ) : Type 0 where
  pub valid : IsValid b'
  pub frame : SameFrame b b'
  pub queue : contents b' ≡ xs

pub put_lem :
    (b : Buffer) (xs : List ℕ)
    → IsValid b
    → b.write + length xs ≤ b.limit
    → (b' : Buffer) × (put b xs ≡ some b') × Holds b b' (contents b ++ xs)
unfolding put
put_lem b xs v h =
    let b1 = record b { bytes = store_all b.bytes b.write xs } in
    let v1 : IsValid b1 = ground (arith, length-store_all b.bytes b.write xs) in
    let (q, v') = buffer_write_adv_total b1 (length xs) v1 h in
    (
      record b1 { write = b.write + length xs },
      q,
      record {
        valid = v';
        frame = ground (arith, length-store_all b.bytes b.write xs);
        queue = contents-received b xs v h;
      },
    )

pub receive_lem :
    (b : Buffer) (x : ℕ) (xs : List ℕ)
    → IsValid b
    → b.write + length (x ∷ xs) ≤ b.limit
    → (b' : Buffer) × (check_buff_and_receive (received (x ∷ xs)) b
        ≡ some (some (suc (length xs)), b'))
      × Holds b b' (contents b ++ x ∷ xs)
unfolding check_buff_and_receive buffer_write_ptr
receive_lem b x xs v h =
    let (b', q, k) = put_lem b (x ∷ xs) v h in
    let room : leb b.write b.limit ≡ true = ground arith in (b', rw (room, q) refl, k)

pub receive_end : (b : Buffer) → IsValid b → check_buff_and_receive (received []) b ≡ some (none, b)
unfolding check_buff_and_receive buffer_write_ptr
receive_end b v = ground arith

pub receive_error : (b : Buffer) → IsValid b → check_buff_and_receive recv_failed b ≡ some (none, b)
unfolding check_buff_and_receive buffer_write_ptr
receive_error b v = ground arith

pub send_lem :
    (b : Buffer) (n : ℕ)
    → IsValid b
    → b.read + n ≤ b.write
    → (b' : Buffer) × (check_buff_and_send (sent n) b ≡ some (some n, b'))
      × Holds b b' (drop n (contents b))
unfolding check_buff_and_send buffer_read_ptr
send_lem b n v h =
    let (b', q, t) = buffer_read_adv-Taken b n v h in
    let some_left : leb b.read b.write ≡ true = ground arith in
    (b', rw (some_left, q) refl, record { valid = t.valid; frame = t.frame; queue = t.rest })

pub send_error : (b : Buffer) → IsValid b → check_buff_and_send send_failed b ≡ some (none, b)
unfolding check_buff_and_send buffer_read_ptr
send_error b v = ground arith
