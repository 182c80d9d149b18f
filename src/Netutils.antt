-- ===== src/Netutils.antt =====
-- src/netutils.c: the blocking write of a buffer and the blocking copy between two sockets.
--
-- `send` and its `errno` are a parameter, which may answer each call in its own way. The loops run on
-- fuel; `none` is that the fuel ran out. The printing of addresses is not modelled.
pub mod Sent
use tpe_socks.Prelude.{
  ℕ, zero, suc, ◌+◌, ◌-◌, Bool, true, false, Option, none, some, List, [], ◌∷◌, ◌++◌, take, drop,
  length, ltb, if◌then◌else◌,
}
use tpe_socks.Prelude.Int.{ℤ, pos, negsuc}
use tpe_socks.Buffer.{Buffer, buffer_can_read, buffer_read_ptr, buffer_read_adv}
use tpe_socks.Buffer.Refine.{contents}

-- The system, by the number of the call: what `send` returns for the bytes that it is offered, and the
-- `errno` that it leaves.
pub record Network : Type 0 where
  pub send : ℕ → List ℕ → ℤ
  pub errno : ℕ → ℕ

-- How a loop ends: a fault, or the returned value with what is left and the bytes that were sent.
pub data Outcome (A : Type 0) : Type 0 where
  fault : Outcome A
  returned : (ret : ℕ) (left : A) (sent : List ℕ) → Outcome A

-- The bytes of this round in front of those of the rounds behind it.
abbrev pub sent_before : {A : Type 0} → List ℕ → Option (Outcome A) → Option (Outcome A)
sent_before xs none = none
sent_before xs (some fault) = some fault
sent_before xs (some (returned ret left sent)) = some (returned ret left (xs ++ sent))

-- The end of a round, in which `n` bytes were sent.
unfoldable pub written :
    ℕ → Buffer → Option Buffer → (Buffer → Option (Outcome Buffer)) → Option (Outcome Buffer)
unfolding buffer_can_read
written n b none again = some fault
written n b (some b') again =
    sent_before (take n (contents b))
      (elim (buffer_can_read b') [ true ↦ again b' | false ↦ some (returned 0 b' []) ])

-- A round, by what `send` returns, which is the number `i` of its calls.
unfoldable pub write_round :
    Network → ℕ → ℤ → Buffer → (Buffer → Option (Outcome Buffer)) → Option (Outcome Buffer)
unfolding written buffer_read_adv
write_round net i (pos (suc n)) b again = written (suc n) b (buffer_read_adv b (pos (suc n))) again
write_round net i (pos zero) b again = some (returned (net.errno i) b [])
write_round net i (negsuc n) b again = some (returned (net.errno i) b [])

unfoldable pub sock_blocking_write : ℕ → Network → ℕ → Buffer → Option (Outcome Buffer)
sock_blocking_write zero net i b = none
sock_blocking_write (suc fuel) net i b = elim (buffer_read_ptr b) [
  | none ↦ some fault
  | some _ ↦ write_round net i (net.send i (contents b)) b (sock_blocking_write fuel net (suc i))
]

-- A round of the inner loop of `sock_blocking_copy`, on the bytes from `out_ptr` on.
unfoldable pub copy_round :
    Network → ℕ → ℤ → List ℕ → (List ℕ → Option (Outcome (List ℕ))) → Option (Outcome (List ℕ))
copy_round net i (pos zero) xs again = some (returned (net.errno i) xs [])
copy_round net i (negsuc n) xs again = some (returned (net.errno i) xs [])
copy_round net i (pos (suc n)) xs again =
    sent_before (take (suc n) xs) (elim (ltb 0 (length xs - suc n)) [
      | true ↦ again (drop (suc n) xs)
      | false ↦ some (returned 0 [] [])
    ])

unfoldable pub copy_out : ℕ → Network → ℕ → List ℕ → Option (Outcome (List ℕ))
copy_out zero net i xs = none
copy_out (suc fuel) net i xs = copy_round net i (net.send i xs) xs (copy_out fuel net (suc i))

-- What is left of a chunk: nothing if it was sent whole.
abbrev pub is_empty : List ℕ → Bool
is_empty [] = true
is_empty (x ∷ xs) = false

-- What ends the loop over `recv`: 0 at the end of the stream, or -1 with an `errno`.
pub data SourceEnd : Type 0 where
  closed : SourceEnd
  recv_failed : ℕ → SourceEnd

-- What `sock_blocking_copy` returns behind the loop: `ret`, which is not set where `recv` fails.
unfoldable pub behind_recv : SourceEnd → ℕ
behind_recv closed = 0
behind_recv (recv_failed errno) = 0

-- `sock_blocking_copy`, on what the calls of `recv` give and on what ends them; the calls of `send` for a chunk are numbered from the fuel times its place on. What is left is what was received
-- and not sent, with the chunks that were not received.
unfoldable pub sock_blocking_copy :
    ℕ → Network → ℕ → List (List ℕ) → SourceEnd → Option (Outcome (List (List ℕ)))
unfolding behind_recv
sock_blocking_copy fuel net i [] source_end = some (returned (behind_recv source_end) [] [])
sock_blocking_copy fuel net i (chunk ∷ chunks) source_end = elim (copy_out fuel net i chunk) [
  | none ↦ none
  | some fault ↦ some fault
  | some (returned ret left sent) ↦ elim (is_empty left) [
    | true ↦ sent_before sent (sock_blocking_copy fuel net (i + fuel) chunks source_end)
    | false ↦ some (returned ret (left ∷ chunks) sent)
  ]
]
