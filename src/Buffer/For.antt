-- ===== src/Buffer/For.antt =====
-- The loop that `authRead` and `executeRead` of src/controlProtocol/controlProtocol.c share with
-- `pop3_parse_char` of src/sniffer/pop3_sniffer.c: over at most the bytes that can be read, until the
-- parser is done, with a return at an error.
use tpe_socks.Prelude.{
  ℕ, zero, suc, ◌≡◌, refl, ap, subst, ◌∙◌, Option, some, none, List, [], ◌∷◌, arith, ◌>>=◌, Bool,
  if◌then◌else◌, Bool-cases, Option-cases, inl, inr, length,
}
use tpe_socks.Buffer.{Buffer, buffer_read}
use tpe_socks.Buffer.Inv.{IsValid}
use tpe_socks.Buffer.Refine.{contents, buffer_read-cons}

module _ {P : Type 0} (step : P → ℕ → Option P) (done failed : P → Bool) where
  -- `n` is what is left of `bytesLeft - i`.
  unfoldable pub for_bytes : ℕ → P → Buffer → Option (P × Buffer)
  for_bytes zero p b = some (p, b)
  for_bytes (suc n) p b =
      if done p
      then some (p, b)
      else (buffer_read b >>= λ (c, b'). step p c >>= λ p'.
          let rest = for_bytes n p' b' in if failed p' then some (p', b') else rest)

  -- The same on a list of bytes.
  abbrev pub consume : P → List ℕ → Option (P × List ℕ)
  consume p [] = some (p, [])
  consume p (x ∷ xs) =
      let read =
        step p x >>= λ p'. let rest = consume p' xs in if failed p' then some (p', xs) else rest in
      if done p then some (p, x ∷ xs) else read

  abbrev pub Agrees : ℕ → Option (P × List ℕ) → Option (P × Buffer) → Type 0
  Agrees l none r = r ≡ none
  Agrees l (some (p, rest)) r =
      (b' : Buffer) × (r ≡ some (p, b')) × IsValid b' × (b'.limit ≡ l) × (contents b' ≡ rest)

  pub for_bytes-Agrees :
      (xs : List ℕ) (p : P) (b : Buffer)
      → IsValid b
      → contents b ≡ xs
      → Agrees b.limit (consume p xs) (for_bytes (length xs) p b)
  unfolding for_bytes
  for_bytes-Agrees [] p b v e = (b, refl, v, refl, e)
  for_bytes-Agrees (x ∷ xs) p b v e = elim (Bool-cases (done p)) [
    | inl d ↦ rw d (b, refl, v, refl, e)
    | inr nd ↦
        let (b', r, v', f, c) = buffer_read-cons b x xs v e in
        rw (nd, r)
          (elim (Option-cases (step p x)) [
            | inl bad ↦ rw bad
            | inr (p', good) ↦ rw good (elim (Bool-cases (failed p')) [
              | inl stop ↦ rw stop (b', refl, v', f.limit_kept, c)
              | inr on ↦ rw on (
                  subst (λ (l : ℕ). Agrees l (consume p' xs) (for_bytes (length xs) p' b'))
                    f.limit_kept (for_bytes-Agrees xs p' b' v' c))
            ])
          ])
  ]

  -- The loop of the code, bound by what can be read, from a run over the bytes that it holds.
  pub for_bytes-some :
      (p p' : P) (b : Buffer) (xs rest : List ℕ)
      → IsValid b
      → contents b ≡ xs
      → consume p xs ≡ some (p', rest)
      → (b' : Buffer) × (for_bytes (length (contents b)) p b ≡ some (p', b'))
        × IsValid b'
        × (b'.limit ≡ b.limit)
        × (contents b' ≡ rest)
  for_bytes-some p p' b xs rest v e h =
      subst (λ o. Agrees b.limit o (for_bytes (length (contents b)) p b))
        (ap (λ (ys : List ℕ). consume p ys) e ∙ h) (for_bytes-Agrees (contents b) p b v refl)

  pub for_bytes-none :
      (p : P) (b : Buffer) (xs : List ℕ)
      → IsValid b
      → contents b ≡ xs
      → consume p xs ≡ none
      → for_bytes (length (contents b)) p b ≡ none
  for_bytes-none p b xs v e h =
      subst (λ o. Agrees b.limit o (for_bytes (length (contents b)) p b))
        (ap (λ (ys : List ℕ). consume p ys) e ∙ h) (for_bytes-Agrees (contents b) p b v refl)

  -- Whatever the bytes are, a loop that ends leaves a valid buffer.
  pub for_bytes-IsValid :
      (p p' : P) (b b' : Buffer)
      → IsValid b
      → for_bytes (length (contents b)) p b ≡ some (p', b')
      → IsValid b' × (b'.limit ≡ b.limit)
  for_bytes-IsValid p p' b b' v h =
      go (consume p (contents b)) (for_bytes-Agrees (contents b) p b v refl)
    where
      go :
          (o : Option (P × List ℕ))
          → Agrees b.limit o (for_bytes (length (contents b)) p b)
          → IsValid b' × (b'.limit ≡ b.limit)
      go none a = absurd (cc)
      go (some (q, rest)) (b'', r, v', l, _) =
          let same : b'' ≡ b' = ground (arith, h, r) in (rw same at v', rw same at l)
