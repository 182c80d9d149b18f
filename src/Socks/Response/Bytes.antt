-- ===== src/Socks/Response/Bytes.antt =====
-- The bytes of a reply of src/socks5/socks5.c.
use tpe_socks.Prelude.{
  ℕ, zero, suc, ◌+◌, ◌-◌, ◌≤◌, ◌<◌, ◌≡◌, refl, sym, ◌∙◌, ap, true, false, some, List, [], ◌∷◌, ◌++◌,
  arith, ltb, leb, ◌==◌, length, length-append, replicate, All,
}
use tpe_socks.Buffer.{Buffer, buffer_write_ptr}
use tpe_socks.Buffer.Inv as Buf
use tpe_socks.Buffer.Refine.{contents}
use tpe_socks.Parsers.Req.{ResParser}
use tpe_socks.Parsers.Req.ReqAtyp
use tpe_socks.Socks.Bytes.{Holds, put_lem}
use tpe_socks.Socks.Response.{strncpy, response_address, response_bytes, req_response_message}

abbrev zeros : ℕ → List ℕ
zeros n = replicate n 0

length-zeros : (n : ℕ) → length (zeros n) ≡ n
length-zeros zero = refl
length-zeros (suc n) = omega (arith, length-zeros n)

length-strncpy : (xs : List ℕ) (n : ℕ) → length (strncpy xs n) ≡ n
length-strncpy xs zero = refl
length-strncpy [] (suc n) = omega (arith, length-strncpy [] n)
length-strncpy (x ∷ xs) (suc n) = ground (arith, length-strncpy xs n, length-zeros (suc n))

-- `strncpy` fills up with zeros behind the first one.
strncpy-zero :
    (xs ys : List ℕ)
    → All (λ c. 0 < c) xs
    → strncpy (xs ++ 0 ∷ ys) (length (xs ++ 0 ∷ ys)) ≡ xs ++ replicate (suc (length ys)) 0
strncpy-zero [] ys h = refl
strncpy-zero (x ∷ xs) ys h =
    let e : (x == 0) ≡ false = ground arith in rw e (ap (λ t. x ∷ t) (strncpy-zero xs ys h.1))

-- A reply about an IPv4 address, into a valid buffer with room for its ten bytes.
req_response_message-ipv4 :
    (b : Buffer) (p : ResParser)
    → Buf.IsValid b
    → b.write + 10 ≤ b.limit
    → p.type ≡ ReqAtyp.ipv4
    → length p.port ≡ 2
    → (b' : Buffer) × (req_response_message b p ≡ some (some 10, b'))
      × Holds b b' (contents b ++ 5 ∷ p.state ∷ 0 ∷ 1 ∷ (strncpy p.addr.ipv4.addr 4 ++ p.port))
unfolding req_response_message response_address response_bytes buffer_write_ptr
req_response_message-ipv4 b p v room t k =
    let bytes : List ℕ = 5 ∷ p.state ∷ 0 ∷ 1 ∷ (strncpy p.addr.ipv4.addr 4 ++ p.port) in
    let ten : length bytes ≡ 10 = omega (
      arith,
      length-append (strncpy p.addr.ipv4.addr 4) p.port,
      length-strncpy p.addr.ipv4.addr 4,
    ) in
    let (b', q, o) = put_lem b bytes v (omega arith) in
    let ok : leb b.write b.limit ≡ true = ground arith in
    let fits : ltb (b.limit - b.write) 10 ≡ false = ground arith in
    (b', ground (arith, ok, t, fits, q), o)

-- A reply about an IPv4 address that starts with some non-zero bytes and then has a zero, into a valid
-- buffer with room for it: the ten bytes are queued, but the bytes of the address behind its first zero
-- are zeros, whatever they were.
pub req_response_message_cut :
    (b : Buffer) (p : ResParser) (xs ys : List ℕ)
    → Buf.IsValid b
    → b.write + 10 ≤ b.limit
    → p.type ≡ ReqAtyp.ipv4
    → p.addr.ipv4.addr ≡ xs ++ 0 ∷ ys
    → length (xs ++ 0 ∷ ys) ≡ 4
    → length p.port ≡ 2
    → All (λ c. 0 < c) xs
    → (b' : Buffer) × (req_response_message b p ≡ some (some 10, b'))
      × Holds b b'
          (contents b ++ 5 ∷ p.state ∷ 0 ∷ 1 ∷ ((xs ++ replicate (suc (length ys)) 0) ++ p.port))
req_response_message_cut b p xs ys v room t a n k h =
    let (b', q, o) = req_response_message-ipv4 b p v room t k in
    let four : strncpy p.addr.ipv4.addr 4 ≡ xs ++ replicate (suc (length ys)) 0 =
      ap (λ l. strncpy l 4) a ∙ ap (strncpy (xs ++ 0 ∷ ys)) (sym n) ∙ strncpy-zero xs ys h in
    (
      b',
      q,
      record {
        valid = o.valid;
        frame = o.frame;
        queue = o.queue ∙ ap (λ z. contents b ++ 5 ∷ p.state ∷ 0 ∷ 1 ∷ (z ++ p.port)) four;
      },
    )
