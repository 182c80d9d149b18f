-- ===== src/Buffer/Loop.antt =====
-- The loop that src/parsers/conn_parser.c, src/parsers/auth_parser.c and src/parsers/req_parser.c
-- share: read a byte while there is one, feed it to the parser, and stop at a final state.
use tpe_socks.Prelude.{
  ℕ, zero, suc, ◌-◌, ◌<◌, ◌≡◌, refl, ap, ◌∙◌, Option, some, none, List, [], ◌∷◌, arith, ◌>>=◌, Bool,
  true, false, if◌then◌else◌, Bool-cases, Option-cases, inl, inr, ltb, length,
}
use tpe_socks.Buffer.{Buffer, buffer_can_read, buffer_read}
use tpe_socks.Buffer.Inv.{IsValid}
use tpe_socks.Buffer.Refine.{contents, length-contents, buffer_read-cons}

module _ {P : Type 0} (step : P → ℕ → Option P) (stop : P → Bool) where
  -- The C loop, on fuel. `none` is a fault of the parser, or fuel that ran out.
  unfoldable pub parse_loop : ℕ → P → Buffer → Option (P × Buffer)
  unfolding buffer_can_read
  parse_loop zero p b = none
  parse_loop (suc fuel) p b =
      if buffer_can_read b
      then (buffer_read b >>= λ (c, b'). step p c >>= λ p'.
          let rest = parse_loop fuel p' b' in if stop p' then some (p', b') else rest)
      else some (p, b)

  -- One round more than there are bytes: the last one only finds the buffer empty.
  unfoldable pub parse_full : P → Buffer → Option (P × Buffer)
  unfolding parse_loop
  parse_full p b = parse_loop (suc (b.write - b.read)) p b

  -- The same on a list of bytes: the final parser and the bytes it left, or a fault.
  abbrev pub consume : P → List ℕ → Option (P × List ℕ)
  consume p [] = some (p, [])
  consume p (x ∷ xs) =
      step p x >>= λ p'. let rest = consume p' xs in if stop p' then some (p', xs) else rest

  -- A run over a buffer that agrees with a run over a list.
  abbrev pub Agrees : Buffer → Option (P × List ℕ) → Option (P × Buffer) → Type 0
  Agrees b none r = r ≡ none
  Agrees b (some (p, rest)) r =
      (b' : Buffer) × (r ≡ some (p, b')) × IsValid b' × (b'.limit ≡ b.limit) × (contents b' ≡ rest)

  Agrees-frame :
      (b b' : Buffer) (o : Option (P × List ℕ)) (r : Option (P × Buffer))
      → b'.limit ≡ b.limit
      → Agrees b' o r
      → Agrees b o r
  Agrees-frame b b' none r e h = h
  Agrees-frame b b' (some (p, rest)) r e (b'', q, v, l, c) = (b'', q, v, l ∙ e, c)

  parse_loop-Agrees :
      (fuel : ℕ) (p : P) (b : Buffer) (xs : List ℕ)
      → IsValid b
      → contents b ≡ xs
      → length xs < fuel
      → Agrees b (consume p xs) (parse_loop fuel p b)
  unfolding parse_loop
  parse_loop-Agrees zero p b xs v e h = absurd (omega arith)
  parse_loop-Agrees (suc fuel) p b [] v e h =
      let n : length (contents b) ≡ 0 = ap length e in
      let no_more : ltb b.read b.write ≡ false = ground (arith, length-contents b) in
      (b, rw no_more, v, refl, e)
  parse_loop-Agrees (suc fuel) p b (x ∷ xs) v e h =
      let n : length (contents b) ≡ suc (length xs) = ap length e in
      let more : ltb b.read b.write ≡ true = ground (arith, length-contents b) in
      let (b', r, v', f, c) = buffer_read-cons b x xs v e in
      rw (more, r)
        (elim (Option-cases (step p x)) [
          | inl bad ↦ rw bad
          | inr (p', good) ↦ rw good (elim (Bool-cases (stop p')) [
            | inl done ↦ rw done (b', refl, v', f.limit_kept, c)
            | inr on ↦ rw on (
                Agrees-frame b b' (consume p' xs) (parse_loop fuel p' b') f.limit_kept
                  (parse_loop-Agrees fuel p' b' xs v' c (omega arith)))
          ])
        ])

  -- The loop over a valid buffer does what the same steps do over the list of its bytes, it ends
  -- within its fuel, and what it leaves in the buffer is what the list run leaves.
  pub parse_full-Agrees :
      (p : P) (b : Buffer) → IsValid b → Agrees b (consume p (contents b)) (parse_full p b)
  unfolding parse_full
  parse_full-Agrees p b v =
      parse_loop-Agrees (suc (b.write - b.read)) p b (contents b) v refl
        (omega (arith, length-contents b))
