-- ===== src/Parsers/Req/Address.antt =====
-- The loop of the request parser over the bytes of an address and of a port.
use tpe_socks.Prelude.{
  ℕ, zero, suc, ◌+◌, ◌≤◌, ◌<◌, ◌≡◌, refl, ◌∙◌, Option, some, List, [], ◌∷◌, ◌++◌, arith, length,
  store_all, set, length-set,
}
use tpe_socks.Prelude.Int.{pos}
use tpe_socks.Buffer.Loop.{consume}
use tpe_socks.Parsers.Req.{
  ReqParser, Array, sin_addr, s6_addr, fqdn_name, port_bytes, at, get_array, set_array,
  req_dst_addr, set_dst_port_config, req_parse_byte, is_final,
}

abbrev pub run : ReqParser → List ℕ → Option (ReqParser × List ℕ)
run = consume req_parse_byte (λ p. is_final p.state)

-- About to store the first of `k` bytes at index `i` of an array.
abbrev pub cursor : Array → ℕ → ℕ → ReqParser → ReqParser
cursor a i k p = record p { state = req_dst_addr; to_parse = pos k; where_to = at a i }

get-set : (a : Array) (xs : List ℕ) (p : ReqParser) → get_array a (set_array a xs p) ≡ xs
get-set sin_addr xs p = refl
get-set s6_addr xs p = refl
get-set fqdn_name xs p = refl
get-set port_bytes xs p = refl

set-set :
    (a : Array) (xs ys : List ℕ) (p : ReqParser)
    → set_array a ys (set_array a xs p) ≡ set_array a ys p
set-set sin_addr xs ys p = refl
set-set s6_addr xs ys p = refl
set-set fqdn_name xs ys p = refl
set-set port_bytes xs ys p = refl

step_last :
    (a : Array) (i byte : ℕ) (p : ReqParser)
    → i < length (get_array a p)
    → req_parse_byte (cursor a i 1 p) byte
      ≡ some (set_dst_port_config (set_array a (set (get_array a p) i byte) p))
unfolding req_parse_byte
step_last sin_addr i byte p h = ground arith
step_last s6_addr i byte p h = ground arith
step_last fqdn_name i byte p h = ground arith
step_last port_bytes i byte p h = ground arith

step_more :
    (a : Array) (i k byte : ℕ) (p : ReqParser)
    → i < length (get_array a p)
    → req_parse_byte (cursor a i (suc (suc k)) p) byte
      ≡ some (cursor a (suc i) (suc k) (set_array a (set (get_array a p) i byte) p))
unfolding req_parse_byte
step_more sin_addr i k byte p h = ground arith
step_more s6_addr i k byte p h = ground arith
step_more fqdn_name i k byte p h = ground arith
step_more port_bytes i k byte p h = ground arith

-- All the bytes of an address, and then the port is awaited.
pub addr_loop :
    (a : Array) (bs rest : List ℕ) (i k : ℕ) (p : ReqParser)
    → length bs ≡ suc k
    → i + suc k ≤ length (get_array a p)
    → run (cursor a i (suc k) p) (bs ++ rest)
      ≡ run (set_dst_port_config (set_array a (store_all (get_array a p) i bs) p)) rest
unfolding set_dst_port_config
addr_loop a [] rest i k p h b = absurd (omega arith)
addr_loop a (x ∷ []) rest i zero p h b = rw (step_last a i x p (omega arith))
addr_loop a (x ∷ []) rest i (suc k) p h b = absurd (omega arith)
addr_loop a (x ∷ y ∷ ys) rest i zero p h b = absurd (omega arith)
addr_loop a (x ∷ y ∷ ys) rest i (suc k) p h b =
    let q = set_array a (set (get_array a p) i x) p in
    let g : get_array a q ≡ set (get_array a p) i x = get-set a (set (get_array a p) i x) p in
    rw (step_more a i k x p (omega arith)) (
      addr_loop a (y ∷ ys) rest (suc i) k q (omega arith)
        (rw g (omega (arith, length-set (get_array a p) i x)))
      ∙ rw
          (
            g,
            set-set a (set (get_array a p) i x)
                (store_all (set (get_array a p) i x) (suc i) (y ∷ ys)) p,
          )
          refl)
