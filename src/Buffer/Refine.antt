-- ===== src/Buffer/Refine.antt =====
-- The buffer of src/buffer.c seen as the queue of the bytes between its read and its write position.
use tpe_socks.Prelude.{
  ℕ, suc, ◌+◌, ◌-◌, ◌≤◌, ◌≡◌, sym, ap, ap₂, get_or, if◌then◌else◌, ltb, ◌∙◌, some, List, [], ◌∷◌,
  ◌++◌, arith, length, drop, set, slice, store_all, slice-append, slice-store_all,
  slice-store_all_after, length-slice, drop-slice, length-set, ◌==◌, Bool-cases, inl, inr,
}
use tpe_socks.Prelude.Int.{pos}
use tpe_socks.Buffer.{Buffer, buffer_compact, buffer_read_adv, buffer_read, buffer_write}
use tpe_socks.Buffer.Inv.{
  IsOrdered, IsValid, SameFrame, buffer_compact-IsValid, buffer_compact-SameFrame,
  buffer_write_adv_total,
}

-- The bytes that can be read, oldest first.
abbrev pub contents : Buffer → List ℕ
contents b = slice b.bytes b.read (b.write - b.read)

pub length-contents : (b : Buffer) → length (contents b) ≡ b.write - b.read
length-contents b = length-slice b.bytes b.read (b.write - b.read)

slice-store_front :
    (xs ys : List ℕ) (n : ℕ) → length ys ≡ n → n ≤ length xs → slice (store_all xs 0 ys) 0 n ≡ ys
slice-store_front xs ys n e h =
    ap (λ k. slice (store_all xs 0 ys) 0 k) (sym e) ∙ slice-store_all xs 0 ys (omega arith)

moved :
    (xs : List ℕ) (r n k : ℕ)
    → k ≡ n
    → n ≤ length xs
    → slice (store_all xs 0 (slice xs r n)) 0 k ≡ slice xs r n
moved xs r n k e h = rw e (slice-store_front xs (slice xs r n) n (length-slice xs r n) h)

-- Compaction loses no byte.
pub contents-buffer_compact : (b : Buffer) → IsOrdered b → contents (buffer_compact b) ≡ contents b
unfolding buffer_compact
contents-buffer_compact b v = elim (Bool-cases (b.read == 0)) [
  | inl e ↦ rw e
  | inr ne ↦ elim (Bool-cases (b.read == b.write)) [
    | inl e ↦ let z : b.write - b.read ≡ 0 = ground arith in rw (ne, e, z)
    | inr d ↦
        rw (ne, d)
          (moved b.bytes b.read (b.write - b.read) (b.write - b.read - 0) (omega arith)
            (omega arith))
  ]
]

-- What is left after `n` bytes are taken, with the state that `buffer_read_adv` leaves.
pub record Taken (b : Buffer) (n : ℕ) (b' : Buffer) : Type 0 where
  pub valid : IsValid b'
  pub frame : SameFrame b b'
  pub rest : contents b' ≡ drop n (contents b)

advanced : (b : Buffer) (n : ℕ) → contents (record b { read = b.read + n }) ≡ drop n (contents b)
advanced b n =
    let e : b.write - (b.read + n) ≡ b.write - b.read - n = omega arith in
    rw e (sym (drop-slice b.bytes b.read (b.write - b.read) n))

-- Advancing the read position of a valid buffer within what it holds drops that many bytes of its
-- queue, and leaves a valid buffer of the same frame.
pub buffer_read_adv-Taken :
    (b : Buffer) (n : ℕ)
    → IsValid b
    → b.read + n ≤ b.write
    → (b' : Buffer) × (buffer_read_adv b (pos n) ≡ some b') × Taken b n b'
unfolding buffer_read_adv
buffer_read_adv-Taken b n v h = elim (Bool-cases (b.read + n == b.write)) [
  | inl e ↦ (
    buffer_compact moved_on,
    ground arith,
    record {
      valid = buffer_compact-IsValid moved_on (ground arith);
      frame = ground (arith, buffer_compact-SameFrame moved_on);
      rest = contents-buffer_compact moved_on (ground arith) ∙ advanced b n;
    },
  )
  | inr e ↦ (
    moved_on,
    ground arith,
    record { valid = ground arith; frame = ground arith; rest = advanced b n },
  )
]
  where
    moved_on : Buffer
    moved_on = record b { read = b.read + n }

-- A non-empty queue, seen in the array.
front :
    (b : Buffer) (x : ℕ) (xs : List ℕ)
    → contents b ≡ x ∷ xs
    → (b.read + 1 ≤ b.write) × (get_or b.bytes b.read 0 ≡ x)
front b x xs e =
    let n : length (contents b) ≡ suc (length xs) = ap length e in
    let lt : b.read + 1 ≤ b.write = omega (arith, length-contents b) in
    let k : b.write - b.read ≡ suc (b.write - b.read - 1) = omega arith in
    let e' : slice b.bytes b.read (suc (b.write - b.read - 1)) ≡ x ∷ xs =
      ap (λ m. slice b.bytes b.read m) (sym k) ∙ e in
    (lt, cc)

-- Reading from a buffer that holds `x` and then `xs` returns `x` and leaves `xs`.
pub buffer_read-cons :
    (b : Buffer) (x : ℕ) (xs : List ℕ)
    → IsValid b
    → contents b ≡ x ∷ xs
    → (b' : Buffer) × (buffer_read b ≡ some (x, b'))
      × IsValid b'
      × SameFrame b b'
      × (contents b' ≡ xs)
unfolding buffer_read
buffer_read-cons b x xs v e =
    let (lt, h) = front b x xs e in
    let (b', r, t) = buffer_read_adv-Taken b 1 v lt in
    (b', ground arith, t.valid, t.frame, t.rest ∙ ap (drop 1) e)

-- Reading from an empty buffer returns 0 and changes nothing.
pub buffer_read-nil : (b : Buffer) → IsValid b → contents b ≡ [] → buffer_read b ≡ some (0, b)
unfolding buffer_read
buffer_read-nil b v e =
    let n : length (contents b) ≡ 0 = ap length e in ground (arith, length-contents b)

-- `recv` of `ys` at the write pointer and `buffer_write_adv` of their number, which must fit.
pub contents-received :
    (b : Buffer) (ys : List ℕ)
    → IsValid b
    → b.write + length ys ≤ b.limit
    → contents (record b { bytes = store_all b.bytes b.write ys; write = b.write + length ys })
      ≡ contents b ++ ys
contents-received b ys v h =
    let e : b.write + length ys - b.read ≡ b.write - b.read + length ys = omega arith in
    let e' : b.read + (b.write - b.read) ≡ b.write = omega arith in
    rw (e, slice-append, e')
      (ap₂ ◌++◌ (slice-store_all_after b.bytes b.read (b.write - b.read) b.write ys (omega arith))
        (slice-store_all b.bytes b.write ys (omega arith)))

-- A buffer that can be written takes the byte at the end of its queue; a full one is unchanged.
pub buffer_write_lem :
    (b : Buffer) (c : ℕ)
    → IsValid b
    → (b' : Buffer) × (buffer_write b c ≡ some b')
      × IsValid b'
      × SameFrame b b'
      × (contents b' ≡ (if ltb b.write b.limit then contents b ++ c ∷ [] else contents b))
unfolding buffer_write
buffer_write_lem b c v = elim (Bool-cases (ltb b.write b.limit)) [
  | inl room ↦
      let (w, v') =
        buffer_write_adv_total (record b { bytes = set b.bytes b.write c }) 1
          (ground (arith, length-set b.bytes b.write c)) (ground arith) in
      (
        record b { bytes = set b.bytes b.write c; write = b.write + 1 },
        ground arith,
        v',
        ground (arith, length-set b.bytes b.write c),
        rw room (contents-received b (c ∷ []) v (ground arith)),
      )
  | inr full ↦ (b, ground arith, v, ground arith, rw full)
]
