-- ===== src/Buffer.antt =====
-- src/buffer.c and src/include/buffer.h: a byte buffer with a read and a write position.
--
-- The four pointers of `struct buffer` point into one array. `bytes` is that array, and `limit`,
-- `read` and `write` are offsets from `data`. A function whose `assert` may fail returns an option,
-- with `none` for the abort.
pub mod Inv
pub mod Refine
pub mod Loop
pub mod For
use tpe_socks.Prelude.{
  ℕ, suc, ◌+◌, ◌-◌, ◌≡◌, Bool, Option, none, some, List, ◌>>=◌, ltb, leb, ◌==◌, if◌then◌else◌,
  get_or, set, slice, store_all,
}
use tpe_socks.Prelude.Int.{ℤ, pos, negsuc}

pub record Buffer : Type 0 where
  pub bytes : List ℕ
  pub limit : ℕ
  pub read : ℕ
  pub write : ℕ

unfoldable pub buffer_reset : Buffer → Buffer
buffer_reset b = record b { read = 0; write = 0 }

-- `storage` is the array that the caller gives.
unfoldable pub buffer_init : ℕ → List ℕ → Buffer
unfolding buffer_reset
buffer_init n storage = buffer_reset (record { bytes = storage; limit = n; read = 0; write = 0 })

unfoldable pub buffer_can_write : Buffer → Bool
buffer_can_write b = ltb b.write b.limit

-- The write position, and in `*nbyte` the room behind it.
unfoldable pub buffer_write_ptr : Buffer → Option (ℕ × ℕ)
buffer_write_ptr b = if leb b.write b.limit then some (b.write, b.limit - b.write) else none

unfoldable pub buffer_can_read : Buffer → Bool
buffer_can_read b = ltb b.read b.write

-- The read position, and in `*nbyte` the bytes that can be read from it.
unfoldable pub buffer_read_ptr : Buffer → Option (ℕ × ℕ)
buffer_read_ptr b = if leb b.read b.write then some (b.read, b.write - b.read) else none

-- `memmove(b->data, b->read, n)` copies as if through a copy of the source.
unfoldable pub buffer_compact : Buffer → Buffer
buffer_compact b =
    if b.read == 0
    then b
    else if b.read == b.write
    then record b { read = 0; write = 0 }
    else record b {
      bytes = store_all b.bytes 0 (slice b.bytes b.read (b.write - b.read));
      read = 0;
      write = b.write - b.read;
    }

unfoldable pub buffer_write_adv : Buffer → ℤ → Option Buffer
buffer_write_adv b (pos n) =
    if leb (b.write + n) b.limit then some (record b { write = b.write + n }) else none
buffer_write_adv b (negsuc n) = some b

unfoldable pub buffer_read_adv : Buffer → ℤ → Option Buffer
unfolding buffer_compact
buffer_read_adv b (pos n) =
    if leb (b.read + n) b.write
    then (let b' = record b { read = b.read + n } in
        if b.read + n == b.write then some (buffer_compact b') else some b')
    else none
buffer_read_adv b (negsuc n) = some b

unfoldable pub buffer_read : Buffer → Option (ℕ × Buffer)
unfolding buffer_can_read
buffer_read b =
    if buffer_can_read b
    then (buffer_read_adv b (pos 1) >>= λ b'. some (get_or b.bytes b.read 0, b'))
    else some (0, b)

unfoldable pub buffer_write : Buffer → ℕ → Option Buffer
unfolding buffer_can_write
buffer_write b c =
    if buffer_can_write b
    then buffer_write_adv (record b { bytes = set b.bytes b.write c }) (pos 1)
    else some b
