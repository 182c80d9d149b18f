-- ===== src/Parsers/Req/Message.antt =====
-- The request that the parser reads off a whole message.
use tpe_socks.Prelude.{
  ℕ, suc, ◌<◌, ◌≡◌, refl, sym, ◌∙◌, some, List, [], ◌∷◌, ◌++◌, arith, length, All, c_string,
  store_all, set, length-set, ◌⊎◌, replicate, store_all-full, c_string-store_all,
}
use tpe_socks.Prelude.Int.{pos}
use tpe_socks.Buffer.{Buffer}
use tpe_socks.Buffer.Inv.{IsValid}
use tpe_socks.Buffer.Refine.{contents}
use tpe_socks.Buffer.Loop.{parse_full-Agrees}
use tpe_socks.Parsers.Req.{
  ReqParser, sin_addr, s6_addr, fqdn_name, port_bytes, at, set_array, req_atyp, req_done,
  req_parser_init, set_dst_port_config, req_parse_byte, req_parse_full, is_final, af_inet, af_inet6,
}
use tpe_socks.Parsers.Req.Address.{run, cursor, addr_loop}

-- An address as RFC 1928 has it, and its bytes in a request.
pub data Address : Type 0 where
  v4 : List ℕ → Address
  v6 : List ℕ → Address
  domain : List ℕ → Address

abbrev pub address_bytes : Address → List ℕ
address_bytes (v4 bs) = 1 ∷ bs
address_bytes (v6 bs) = 4 ∷ bs
address_bytes (domain bs) = 3 ∷ length bs ∷ bs

abbrev pub IsWellFormed : Address → Type 0
IsWellFormed (v4 bs) = length bs ≡ 4
IsWellFormed (v6 bs) = length bs ≡ 16
IsWellFormed (domain bs) = (0 < length bs) × (length bs < 255) × All (λ c. 0 < c) bs

-- The parser holds an address.
abbrev pub Holds : Address → ReqParser → Type 0
Holds (v4 bs) p = (p.type ≡ 1) × (p.addr.ipv4.addr ≡ bs) × (p.addr.ipv4.family ≡ af_inet)
Holds (v6 bs) p = (p.type ≡ 4) × (p.addr.ipv6.addr ≡ bs) × (p.addr.ipv6.family ≡ af_inet6)
Holds (domain bs) p = (p.type ≡ 3) × (c_string p.addr.fqdn ≡ bs)

abbrev pub IsCommand : ℕ → Type 0
IsCommand cmd = (cmd ≡ 1) ⊎ (cmd ≡ 2) ⊎ (cmd ≡ 3)

two_bytes : (ps : List ℕ) → length ps ≡ 2 → (u : ℕ) × (v : ℕ) × (ps ≡ u ∷ v ∷ [])
two_bytes [] h = absurd (omega arith)
two_bytes (u ∷ []) h = absurd (omega arith)
two_bytes (u ∷ v ∷ []) h = (u, v, refl)
two_bytes (u ∷ v ∷ w ∷ ws) h = absurd (omega arith)

-- The two bytes of the port end the message.
port_loop :
    (p : ReqParser) (x y : ℕ) (rest : List ℕ)
    → length p.port ≡ 2
    → run (set_dst_port_config p) (x ∷ y ∷ rest)
      ≡ some (
        record p {
          state = req_done;
          to_parse = pos 0;
          where_to = at port_bytes 2;
          port = x ∷ y ∷ [];
        },
        rest,
      )
unfolding req_parse_byte
port_loop p x y rest h = let (u, v, e) = two_bytes p.port h in ground (arith, e)

-- The three bytes before the address.
head_loop :
    (p : ReqParser) (cmd : ℕ) (rest : List ℕ)
    → IsCommand cmd
    → run (req_parser_init p) (5 ∷ cmd ∷ 0 ∷ rest)
      ≡ run (record (req_parser_init p) { state = req_atyp; cmd = cmd }) rest
unfolding req_parse_byte req_parser_init
head_loop p cmd rest c = ground arith

-- What a request leaves in the parser.
pub record Parsed (p : ReqParser) (cmd : ℕ) (a : Address) (x y : ℕ) (rest xs : List ℕ)
    : Type 0 where
  pub result : ReqParser
  pub ran : run (req_parser_init p) xs ≡ some (result, rest)
  pub final : result.state ≡ req_done
  pub command : result.cmd ≡ cmd
  pub address : Holds a result
  pub port : result.port ≡ x ∷ y ∷ []

-- The parser behind the address type byte.
module _ (p : ReqParser) (cmd x y : ℕ) (rest : List ℕ) (c : IsCommand cmd) where
  parse_v4 :
      (bs : List ℕ)
      → length bs ≡ 4
      → Parsed p cmd (v4 bs) x y rest (5 ∷ cmd ∷ 0 ∷ 1 ∷ (bs ++ x ∷ y ∷ rest))
  unfolding req_parse_byte req_parser_init
  parse_v4 bs h =
      let q = record (req_parser_init p) {
        cmd = cmd;
        type = 1;
        addr = record (p.addr) {
          ipv4 = record { family = af_inet; port = 0 ∷ 0 ∷ []; addr = replicate 4 0 };
        };
      } in
      record {
        result = record (set_array sin_addr (store_all (replicate 4 0) 0 bs) q) {
          state = req_done;
          to_parse = pos 0;
          where_to = at port_bytes 2;
          port = x ∷ y ∷ [];
        };
        ran =
            head_loop p cmd (1 ∷ (bs ++ x ∷ y ∷ rest)) c
            ∙ (addr_loop sin_addr bs (x ∷ y ∷ rest) 0 3 q h (omega arith)
                ∙ port_loop (set_array sin_addr (store_all (replicate 4 0) 0 bs) q) x y rest refl);
        final = refl;
        command = refl;
        address = (refl, store_all-full (replicate 4 0) bs (sym h), refl);
        port = refl;
      }

  parse_v6 :
      (bs : List ℕ)
      → length bs ≡ 16
      → Parsed p cmd (v6 bs) x y rest (5 ∷ cmd ∷ 0 ∷ 4 ∷ (bs ++ x ∷ y ∷ rest))
  unfolding req_parse_byte req_parser_init
  parse_v6 bs h =
      let q = record (req_parser_init p) {
        cmd = cmd;
        type = 4;
        addr = record (p.addr) {
          ipv6 = record { family = af_inet6; port = 0 ∷ 0 ∷ []; addr = replicate 16 0 };
        };
      } in
      record {
        result = record (set_array s6_addr (store_all (replicate 16 0) 0 bs) q) {
          state = req_done;
          to_parse = pos 0;
          where_to = at port_bytes 2;
          port = x ∷ y ∷ [];
        };
        ran =
            head_loop p cmd (4 ∷ (bs ++ x ∷ y ∷ rest)) c
            ∙ (addr_loop s6_addr bs (x ∷ y ∷ rest) 0 15 q h (omega arith)
                ∙ port_loop (set_array s6_addr (store_all (replicate 16 0) 0 bs) q) x y rest refl);
        final = refl;
        command = refl;
        address = (refl, store_all-full (replicate 16 0) bs (sym h), refl);
        port = refl;
      }

  -- The type byte and the length byte of a name.
  name_head :
      (k : ℕ) (xs : List ℕ)
      → length p.addr.fqdn ≡ 255
      → suc k < 255
      → run (record (req_parser_init p) { state = req_atyp; cmd = cmd }) (3 ∷ suc k ∷ xs)
        ≡ run
            (cursor fqdn_name 0 (suc k) (record (req_parser_init p) {
              cmd = cmd;
              type = 3;
              addr = record (p.addr) { fqdn = set p.addr.fqdn (suc k) 0 };
            }))
            xs
  unfolding req_parse_byte req_parser_init
  name_head k xs h b = ground arith

  parse_domain :
      (bs : List ℕ)
      → length p.addr.fqdn ≡ 255
      → IsWellFormed (domain bs)
      → Parsed p cmd (domain bs) x y rest (5 ∷ cmd ∷ 0 ∷ 3 ∷ length bs ∷ (bs ++ x ∷ y ∷ rest))
  unfolding req_parser_init
  parse_domain [] h w = absurd (omega arith)
  parse_domain (b ∷ bs) h w =
      let fqdn' = set p.addr.fqdn (suc (length bs)) 0 in
      let q = record (req_parser_init p) {
        cmd = cmd;
        type = 3;
        addr = record (p.addr) { fqdn = fqdn' };
      } in
      record {
        result = record (set_array fqdn_name (store_all fqdn' 0 (b ∷ bs)) q) {
          state = req_done;
          to_parse = pos 0;
          where_to = at port_bytes 2;
          port = x ∷ y ∷ [];
        };
        ran =
            head_loop p cmd (3 ∷ suc (length bs) ∷ ((b ∷ bs) ++ x ∷ y ∷ rest)) c
            ∙ (name_head (length bs) ((b ∷ bs) ++ x ∷ y ∷ rest) h w.1
                ∙ (addr_loop fqdn_name (b ∷ bs) (x ∷ y ∷ rest) 0 (length bs) q refl
                      (omega (arith, length-set p.addr.fqdn (suc (length bs)) 0))
                    ∙ port_loop (set_array fqdn_name (store_all fqdn' 0 (b ∷ bs)) q) x y rest
                        refl));
        final = refl;
        command = refl;
        address = (refl, c_string-store_all p.addr.fqdn (b ∷ bs) (omega arith) w.2);
        port = refl;
      }

by_address :
    (p : ReqParser) (cmd x y : ℕ) (rest : List ℕ) (a : Address)
    → IsCommand cmd
    → length p.addr.fqdn ≡ 255
    → IsWellFormed a
    → Parsed p cmd a x y rest (5 ∷ cmd ∷ 0 ∷ (address_bytes a ++ x ∷ y ∷ rest))
by_address p cmd x y rest (v4 bs) c h w = parse_v4 p cmd x y rest c bs w
by_address p cmd x y rest (v6 bs) c h w = parse_v6 p cmd x y rest c bs w
by_address p cmd x y rest (domain bs) c h w = parse_domain p cmd x y rest c bs h w

-- A buffer that starts with a whole request (version 5, one of the three commands, a zero, an IPv4
-- address, an IPv6 address or a name of 1 to 254 non-zero bytes, and the two bytes of a port) is parsed
-- to the end of it. The parser is done and holds that command, address and port, whatever it held
-- before, and exactly the bytes behind the request stay in the buffer.
pub req_parse_full-request :
    (p : ReqParser) (cmd x y : ℕ) (rest : List ℕ) (a : Address) (b : Buffer)
    → IsCommand cmd
    → length p.addr.fqdn ≡ 255
    → IsWellFormed a
    → IsValid b
    → contents b ≡ 5 ∷ cmd ∷ 0 ∷ (address_bytes a ++ x ∷ y ∷ rest)
    → (p' : ReqParser) × (b' : Buffer) × (req_parse_full (req_parser_init p) b ≡ some (p', b'))
      × (p'.state ≡ req_done)
      × (p'.cmd ≡ cmd)
      × Holds a p'
      × (p'.port ≡ x ∷ y ∷ [])
      × IsValid b'
      × (contents b' ≡ rest)
unfolding req_parse_full
req_parse_full-request p cmd x y rest a b c h w v e =
    let r = by_address p cmd x y rest a c h w in
    let q = parse_full-Agrees req_parse_byte (λ p. is_final p.state) (req_parser_init p) b v in
    let q' = rw (e, r.ran) at q in
    (r.result, q'.0, q'.1, r.final, r.command, r.address, r.port, q'.2, q'.4)
