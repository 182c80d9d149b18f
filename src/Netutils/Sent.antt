-- ===== src/Netutils/Sent.antt =====
-- What the blocking loops of src/netutils.c send.
use tpe_socks.Prelude.{
  ℕ, zero, suc, ◌+◌, ◌-◌, ◌≤◌, ◌<◌, ◌≡◌, ◌⊎◌, inl, inr, refl, sym, ap, ◌∙◌, subst, true, false,
  Option, some, List, [], ◌∷◌, ◌++◌, append-nil, append_assoc, take, drop, arith, length,
  length-drop, ltb, Bool-cases, All, leb,
}
use tpe_socks.Prelude.Int.{ℤ, pos, negsuc}
use tpe_socks.Buffer.{Buffer, buffer_can_read, buffer_read_ptr}
use tpe_socks.Buffer.Inv.{IsValid}
use tpe_socks.Buffer.Refine.{contents, length-contents, buffer_read_adv-Taken}
use tpe_socks.Netutils.{
  Network, Outcome, returned, sent_before, written, write_round, sock_blocking_write, copy_round,
  copy_out, sock_blocking_copy, SourceEnd, closed, recv_failed, behind_recv,
}

-- `send` never takes more than it is offered.
abbrev pub IsBounded : Network → Type 0
IsBounded net = (i : ℕ) (xs : List ℕ) (n : ℕ) → net.send i xs ≡ pos n → n ≤ length xs

take-drop : (n : ℕ) (xs : List ℕ) → take n xs ++ drop n xs ≡ xs
take-drop zero xs = refl
take-drop (suc n) [] = refl
take-drop (suc n) (x ∷ xs) = ap (λ t. x ∷ t) (take-drop n xs)

-- The loop has ended: what was sent is the start of the bytes, in order, and what is in the buffer is
-- the rest; it is empty unless the value is the `errno` of the call that failed.
abbrev pub Sent : Network → List ℕ → Option (Outcome Buffer) → Type 0
Sent net xs o =
    (ret : ℕ) × (b' : Buffer) × (sent : List ℕ) × (o ≡ some (returned ret b' sent))
    × IsValid b'
    × (sent ++ contents b' ≡ xs)
    × (((ret ≡ 0) × (contents b' ≡ [])) ⊎ ((j : ℕ) × (ret ≡ net.errno j)))

Sent-before :
    (net : Network) (xs ys : List ℕ) (o : Option (Outcome Buffer))
    → Sent net ys o
    → Sent net (xs ++ ys) (sent_before xs o)
Sent-before net xs ys o (ret, b', sent, e, v, c, why) = (
  ret,
  b',
  xs ++ sent,
  rw e refl,
  v,
  append_assoc xs sent (contents b') ∙ ap (λ t. xs ++ t) c,
  why,
)

failed :
    (net : Network) (i : ℕ) (b : Buffer)
    → IsValid b
    → Sent net (contents b) (some (returned (net.errno i) b []))
failed net i b v = (net.errno i, b, [], refl, v, refl, inr (i, refl))

nothing : (xs : List ℕ) → length xs ≡ 0 → xs ≡ []
nothing [] h = refl
nothing (x ∷ xs) h = absurd (omega arith)

nothing_left : (b : Buffer) → buffer_can_read b ≡ false → contents b ≡ []
unfolding buffer_can_read
nothing_left b e = nothing (contents b) (ground (arith, length-contents b))

-- A round that sends something and what follows.
written_lem :
    (net : Network) (n : ℕ) (b b' : Buffer) (again : Buffer → Option (Outcome Buffer))
    → IsValid b'
    → contents b' ≡ drop n (contents b)
    → Sent net (contents b') (again b')
    → Sent net (contents b) (written n b (some b') again)
unfolding written
written_lem net n b b' again v c s =
    let whole : take n (contents b) ++ contents b' ≡ contents b =
      ap (λ t. take n (contents b) ++ t) c ∙ take-drop n (contents b) in
    elim (Bool-cases (buffer_can_read b')) [
      | inl e ↦ rw e (
          subst (λ xs. Sent net xs (sent_before (take n (contents b)) (again b'))) whole
            (Sent-before net (take n (contents b)) (contents b') (again b') s))
      | inr e ↦ rw e (
        0,
        b',
        take n (contents b) ++ [],
        refl,
        v,
        ap (λ t. t ++ contents b') (append-nil (take n (contents b))) ∙ whole,
        inl (refl, nothing_left b' e),
      )
    ]

write_round_lem :
    (net : Network) (i : ℕ) (z : ℤ) (b : Buffer) (again : Buffer → Option (Outcome Buffer))
    → IsBounded net
    → IsValid b
    → net.send i (contents b) ≡ z
    → ((b' : Buffer)
        → IsValid b'
        → length (contents b') < length (contents b)
        → Sent net (contents b') (again b'))
    → Sent net (contents b) (write_round net i z b again)
unfolding write_round
write_round_lem net i (pos zero) b again w v e more = failed net i b v
write_round_lem net i (negsuc n) b again w v e more = failed net i b v
write_round_lem net i (pos (suc n)) b again w v e more =
    let few : suc n ≤ length (contents b) = w i (contents b) (suc n) e in
    let (b', r, t) =
      buffer_read_adv-Taken b (suc n) v (omega (arith, few, length-contents b, v.ordered)) in
    let size : length (contents b') < length (contents b) =
      omega (arith, few, ap (λ (l : List ℕ). length l) t.rest, length-drop (suc n) (contents b)) in
    rw r (written_lem net (suc n) b b' again t.valid t.rest (more b' t.valid size))

-- With more fuel than bytes the write ends, whatever `send` answers within its bounds: it has sent the
-- start of what the buffer held, in order, and the rest is still in the buffer. It returns 0 with
-- nothing left, or the `errno` of a call.
pub sock_blocking_write-Sent :
    (fuel : ℕ) (net : Network) (i : ℕ) (b : Buffer)
    → IsBounded net
    → IsValid b
    → length (contents b) < fuel
    → Sent net (contents b) (sock_blocking_write fuel net i b)
unfolding sock_blocking_write buffer_read_ptr
sock_blocking_write-Sent zero net i b w v h = absurd (omega arith)
sock_blocking_write-Sent (suc fuel) net i b w v h =
    let reads : leb b.read b.write ≡ true = ground (arith, v.ordered) in
    rw (sock_blocking_write, reads)
      (write_round_lem net i (net.send i (contents b)) b (sock_blocking_write fuel net (suc i)) w v
        refl (λ b' v' less. sock_blocking_write-Sent fuel net (suc i) b' w v' (omega arith)))

-- The same for the inner loop of the copy.
abbrev Copied : Network → List ℕ → Option (Outcome (List ℕ)) → Type 0
Copied net xs o =
    (ret : ℕ) × (left : List ℕ) × (sent : List ℕ) × (o ≡ some (returned ret left sent))
    × (sent ++ left ≡ xs)
    × (((ret ≡ 0) × (left ≡ [])) ⊎ ((j : ℕ) × (ret ≡ net.errno j)))

Copied-before :
    (net : Network) (n : ℕ) (xs : List ℕ) (o : Option (Outcome (List ℕ)))
    → Copied net (drop n xs) o
    → Copied net xs (sent_before (take n xs) o)
Copied-before net n xs o (ret, left, sent, e, c, why) = (
  ret,
  left,
  take n xs ++ sent,
  rw e refl,
  append_assoc (take n xs) sent left ∙ (ap (λ t. take n xs ++ t) c ∙ take-drop n xs),
  why,
)

copy_round_lem :
    (net : Network) (i : ℕ) (z : ℤ) (xs : List ℕ) (again : List ℕ → Option (Outcome (List ℕ)))
    → IsBounded net
    → net.send i xs ≡ z
    → ((ys : List ℕ) → length ys < length xs → Copied net ys (again ys))
    → Copied net xs (copy_round net i z xs again)
unfolding copy_round
copy_round_lem net i (pos zero) xs again w e more = (net.errno i, xs, [], refl, refl, inr (i, refl))
copy_round_lem net i (negsuc n) xs again w e more = (net.errno i, xs, [], refl, refl, inr (i, refl))
copy_round_lem net i (pos (suc n)) xs again w e more =
    let few : suc n ≤ length xs = w i xs (suc n) e in
    Copied-before net (suc n) xs _ (elim (Bool-cases (ltb 0 (length xs - suc n))) [
      | inl f ↦ rw f (more (drop (suc n) xs) (omega (arith, few, length-drop (suc n) xs)))
      | inr f ↦ rw f (
        0,
        [],
        [],
        refl,
        sym (nothing (drop (suc n) xs) (ground (arith, length-drop (suc n) xs))),
        inl (refl, refl),
      )
    ])

copy_out-Copied :
    (fuel : ℕ) (net : Network) (i : ℕ) (xs : List ℕ)
    → IsBounded net
    → length xs < fuel
    → Copied net xs (copy_out fuel net i xs)
unfolding copy_out
copy_out-Copied zero net i xs w h = absurd (omega arith)
copy_out-Copied (suc fuel) net i xs w h =
    copy_round_lem net i (net.send i xs) xs (copy_out fuel net (suc i)) w refl
      (λ ys less. copy_out-Copied fuel net (suc i) ys w (omega arith))

-- All the bytes of the chunks, in order.
abbrev pub joined : List (List ℕ) → List ℕ
joined [] = []
joined (xs ∷ xss) = xs ++ joined xss

-- The copy has ended: what it has sent and what is left are the bytes that it was given, in order;
-- nothing is left unless the value is the `errno` of a call of `send`.
abbrev pub Delivered : Network → List ℕ → Option (Outcome (List (List ℕ))) → Type 0
Delivered net xs o =
    (ret : ℕ) × (left : List (List ℕ)) × (sent : List ℕ) × (o ≡ some (returned ret left sent))
    × (sent ++ joined left ≡ xs)
    × (((ret ≡ 0) × (left ≡ [])) ⊎ ((j : ℕ) × (ret ≡ net.errno j)))

behind_recv-zero : (source_end : SourceEnd) → behind_recv source_end ≡ 0
unfolding behind_recv
behind_recv-zero closed = refl
behind_recv-zero (recv_failed errno) = refl

-- The copy ends, on chunks shorter than the fuel, whether `recv` then meets the end of the stream or
-- fails: what it has sent and what is left are the bytes that `recv` gave, in order; it returns 0 with
-- none of those left, so also where `recv` has failed, or the `errno` of a call of `send`.
pub sock_blocking_copy_lem :
    (fuel : ℕ) (net : Network) (i : ℕ) (chunks : List (List ℕ)) (source_end : SourceEnd)
    → IsBounded net
    → All (λ xs. length xs < fuel) chunks
    → Delivered net (joined chunks) (sock_blocking_copy fuel net i chunks source_end)
unfolding sock_blocking_copy
sock_blocking_copy_lem fuel net i [] source_end w h =
    (0, [], [], rw (sock_blocking_copy, behind_recv-zero source_end) refl, refl, inl (refl, refl))
sock_blocking_copy_lem fuel net i (chunk ∷ chunks) source_end w (h, hs) =
    let (ret, left, sent, e, c, why) = copy_out-Copied fuel net i chunk w h in
    by_left ret left sent e c why
      (sock_blocking_copy_lem fuel net (i + fuel) chunks source_end w hs)
  where
    by_left :
        (ret : ℕ) (left sent : List ℕ)
        → copy_out fuel net i chunk ≡ some (returned ret left sent)
        → sent ++ left ≡ chunk
        → ((ret ≡ 0) × (left ≡ [])) ⊎ ((j : ℕ) × (ret ≡ net.errno j))
        → Delivered net (joined chunks) (sock_blocking_copy fuel net (i + fuel) chunks source_end)
        → Delivered net
            (chunk ++ joined chunks)
            (sock_blocking_copy fuel net i (chunk ∷ chunks) source_end)
    by_left ret [] sent e c why (ret', left', sent', e', c', why') = (
      ret',
      left',
      sent ++ sent',
      rw (sock_blocking_copy, e, e') refl,
      append_assoc sent sent' (joined left')
          ∙ (ap (λ t. sent ++ t) c' ∙ ap (λ t. t ++ joined chunks) (sym (append-nil sent) ∙ c)),
      why',
    )
    by_left ret (x ∷ left) sent e c (inr j) rest = (
      ret,
      (x ∷ left) ∷ chunks,
      sent,
      rw (sock_blocking_copy, e) refl,
      sym (append_assoc sent (x ∷ left) (joined chunks)) ∙ ap (λ t. t ++ joined chunks) c,
      inr j,
    )
    by_left ret (x ∷ left) sent e c (inl (z, bad)) rest = absurd (ground arith)
