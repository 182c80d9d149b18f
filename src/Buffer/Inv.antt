-- ===== src/Buffer/Inv.antt =====
-- The invariant of src/include/buffer.h, R <= W <= limit, on each operation.
use tpe_socks.Prelude.{
  ℕ, ◌+◌, ◌-◌, ◌≤◌, ◌≡◌, some, List, arith, length, slice, length-store_all, ◌==◌, Bool-cases, inl,
  inr,
}
use tpe_socks.Prelude.Int.{pos}
use tpe_socks.Buffer.{
  Buffer, buffer_reset, buffer_init, buffer_compact, buffer_write_adv, buffer_read_adv,
}

-- R <= W <= limit, and the array holds `limit` bytes.
pub record IsOrdered (b : Buffer) : Type 0 where
  pub ordered : b.read ≤ b.write
  pub within : b.write ≤ b.limit
  pub backed : b.limit ≤ length b.bytes

-- The same, and an empty buffer is empty at its start: its whole array is room.
pub record IsValid (b : Buffer) : Type 0 where
  pub ordered : b.read ≤ b.write
  pub within : b.write ≤ b.limit
  pub backed : b.limit ≤ length b.bytes
  pub compacted : b.read ≡ b.write → b.read ≡ 0

pub buffer_reset-IsValid : (b : Buffer) → IsValid b → IsValid (buffer_reset b)
unfolding buffer_reset
buffer_reset-IsValid b v = ground arith

pub buffer_init-IsValid :
    (n : ℕ) (storage : List ℕ) → n ≤ length storage → IsValid (buffer_init n storage)
unfolding buffer_init
buffer_init-IsValid n storage h = ground arith

pub buffer_compact-IsValid : (b : Buffer) → IsOrdered b → IsValid (buffer_compact b)
unfolding buffer_compact
buffer_compact-IsValid b v =
    ground (arith, length-store_all b.bytes 0 (slice b.bytes b.read (b.write - b.read)))

-- What an operation keeps of the buffer's frame: its limit and the size of its array.
pub record SameFrame (b b' : Buffer) : Type 0 where
  pub limit_kept : b'.limit ≡ b.limit
  pub size_kept : length b'.bytes ≡ length b.bytes

pub buffer_compact-SameFrame : (b : Buffer) → SameFrame b (buffer_compact b)
unfolding buffer_compact
buffer_compact-SameFrame b =
    ground (arith, length-store_all b.bytes 0 (slice b.bytes b.read (b.write - b.read)))

-- Within the room that `buffer_write_ptr` gives, the assertion of `buffer_write_adv` holds.
pub buffer_write_adv_total :
    (b : Buffer) (n : ℕ)
    → IsValid b
    → b.write + n ≤ b.limit
    → (buffer_write_adv b (pos n) ≡ some (record b { write = b.write + n }))
      × IsValid (record b { write = b.write + n })
unfolding buffer_write_adv
buffer_write_adv_total b n v h = ground arith

-- Within the bytes that `buffer_read_ptr` gives, the assertion of `buffer_read_adv` holds.
pub buffer_read_adv_total :
    (b : Buffer) (n : ℕ)
    → IsValid b
    → b.read + n ≤ b.write
    → (b' : Buffer) × (buffer_read_adv b (pos n) ≡ some b') × IsValid b' × SameFrame b b'
unfolding buffer_read_adv
buffer_read_adv_total b n v h = elim (Bool-cases (b.read + n == b.write)) [
  | inl e ↦ (
    buffer_compact (record b { read = b.read + n }),
    ground arith,
    buffer_compact-IsValid (record b { read = b.read + n }) (ground arith),
    ground (arith, buffer_compact-SameFrame (record b { read = b.read + n })),
  )
  | inr e ↦ (record b { read = b.read + n }, ground arith, ground arith, ground arith)
]
