-- ===== src/Parsers/Auth/Credentials.antt =====
-- The credentials that src/parsers/auth_parser.c reads off a whole message.
use tpe_socks.Prelude.{
  ℕ, zero, suc, ◌+◌, ◌≤◌, ◌<◌, ◌≡◌, refl, ◌∙◌, Option, some, List, [], ◌∷◌, ◌++◌, arith, length,
  All, c_string, store_all, set, c_string-store_all, length-set,
}
use tpe_socks.Buffer.{Buffer}
use tpe_socks.Buffer.Inv.{IsValid}
use tpe_socks.Buffer.Refine.{contents}
use tpe_socks.Buffer.Loop.{consume, parse_full-Agrees}
use tpe_socks.Parsers.Auth.{
  AuthParser, null, in_username, in_password, auth_ulen, auth_uname, auth_plen, auth_passwd,
  auth_done, auth_parser_init, auth_parse_byte, auth_parse_full, is_final, max_len,
}

abbrev run : AuthParser → List ℕ → Option (AuthParser × List ℕ)
run = consume auth_parse_byte (λ p. is_final p.state)

-- A byte of the username, the last one and any other.
module _ (un pw : List ℕ) (i byte : ℕ) where
  uname_last :
      i < length un
      → auth_parse_byte
          (record {
            state = auth_uname;
            to_parse = 1;
            where_to = in_username i;
            username = un;
            password = pw;
          })
          byte
        ≡ some (record {
          state = auth_plen;
          to_parse = 0;
          where_to = null;
          username = set un i byte;
          password = pw;
        })
  unfolding auth_parse_byte
  uname_last h = let e : i + 0 ≡ i = omega arith in rw e (ground arith)

  uname_more :
      (k : ℕ)
      → i < length un
      → k < 254
      → auth_parse_byte
          (record {
            state = auth_uname;
            to_parse = suc (suc k);
            where_to = in_username i;
            username = un;
            password = pw;
          })
          byte
        ≡ some (record {
          state = auth_uname;
          to_parse = suc k;
          where_to = in_username (suc i);
          username = set un i byte;
          password = pw;
        })
  unfolding auth_parse_byte
  uname_more k h l = let e : i + 0 ≡ i = omega arith in rw e (ground arith)

  passwd_last :
      i < length pw
      → auth_parse_byte
          (record {
            state = auth_passwd;
            to_parse = 1;
            where_to = in_password i;
            username = un;
            password = pw;
          })
          byte
        ≡ some (record {
          state = auth_done;
          to_parse = 0;
          where_to = null;
          username = un;
          password = set pw i byte;
        })
  unfolding auth_parse_byte
  passwd_last h = let e : i + 0 ≡ i = omega arith in rw e (ground arith)

  passwd_more :
      (k : ℕ)
      → i < length pw
      → k < 254
      → auth_parse_byte
          (record {
            state = auth_passwd;
            to_parse = suc (suc k);
            where_to = in_password i;
            username = un;
            password = pw;
          })
          byte
        ≡ some (record {
          state = auth_passwd;
          to_parse = suc k;
          where_to = in_password (suc i);
          username = un;
          password = set pw i byte;
        })
  unfolding auth_parse_byte
  passwd_more k h l = let e : i + 0 ≡ i = omega arith in rw e (ground arith)

uname_loop :
    (un pw bs rest : List ℕ) (i k : ℕ)
    → length bs ≡ suc k
    → i + suc k ≤ length un
    → k < 255
    → run
        (record {
          state = auth_uname;
          to_parse = suc k;
          where_to = in_username i;
          username = un;
          password = pw;
        })
        (bs ++ rest)
      ≡ run
          (record {
            state = auth_plen;
            to_parse = 0;
            where_to = null;
            username = store_all un i bs;
            password = pw;
          })
          rest
uname_loop un pw [] rest i k h b l = absurd (omega arith)
uname_loop un pw (x ∷ []) rest i zero h b l = rw (uname_last un pw i x (omega arith))
uname_loop un pw (x ∷ []) rest i (suc k) h b l = absurd (omega arith)
uname_loop un pw (x ∷ y ∷ ys) rest i zero h b l = absurd (omega arith)
uname_loop un pw (x ∷ y ∷ ys) rest i (suc k) h b l =
    rw (uname_more un pw i x k (omega arith) (omega arith)) (
      uname_loop (set un i x) pw (y ∷ ys) rest (suc i) k (omega arith)
        (omega (arith, length-set un i x)) (omega arith))

passwd_loop :
    (un pw bs rest : List ℕ) (i k : ℕ)
    → length bs ≡ suc k
    → i + suc k ≤ length pw
    → k < 255
    → run
        (record {
          state = auth_passwd;
          to_parse = suc k;
          where_to = in_password i;
          username = un;
          password = pw;
        })
        (bs ++ rest)
      ≡ some (
        record {
          state = auth_done;
          to_parse = 0;
          where_to = null;
          username = un;
          password = store_all pw i bs;
        },
        rest,
      )
passwd_loop un pw [] rest i k h b l = absurd (omega arith)
passwd_loop un pw (x ∷ []) rest i zero h b l = rw (passwd_last un pw i x (omega arith))
passwd_loop un pw (x ∷ []) rest i (suc k) h b l = absurd (omega arith)
passwd_loop un pw (x ∷ y ∷ ys) rest i zero h b l = absurd (omega arith)
passwd_loop un pw (x ∷ y ∷ ys) rest i (suc k) h b l =
    rw (passwd_more un pw i x k (omega arith) (omega arith)) (
      passwd_loop un (set pw i x) (y ∷ ys) rest (suc i) k (omega arith)
        (omega (arith, length-set pw i x)) (omega arith))

-- The two length bytes.
module _ (un pw : List ℕ) (k : ℕ) where
  step_ulen :
      suc k < length un
      → auth_parse_byte
          (record {
            state = auth_ulen;
            to_parse = 0;
            where_to = null;
            username = un;
            password = pw;
          })
          (suc k)
        ≡ some (record {
          state = auth_uname;
          to_parse = suc k;
          where_to = in_username 0;
          username = set un (suc k) 0;
          password = pw;
        })
  unfolding auth_parse_byte
  step_ulen h = let e : 0 + suc k ≡ suc k = omega arith in rw e (ground arith)

  step_plen :
      suc k < length pw
      → auth_parse_byte
          (record {
            state = auth_plen;
            to_parse = 0;
            where_to = null;
            username = un;
            password = pw;
          })
          (suc k)
        ≡ some (record {
          state = auth_passwd;
          to_parse = suc k;
          where_to = in_password 0;
          username = un;
          password = set pw (suc k) 0;
        })
  unfolding auth_parse_byte
  step_plen h = let e : 0 + suc k ≡ suc k = omega arith in rw e (ground arith)

step_ver :
    (p : AuthParser)
    → auth_parse_byte (auth_parser_init p) 1
      ≡ some (record {
        state = auth_ulen;
        to_parse = 0;
        where_to = null;
        username = p.username;
        password = p.password;
      })
unfolding auth_parse_byte auth_parser_init
step_ver p = refl

-- The parser after a whole message.
abbrev parsed : AuthParser → List ℕ → List ℕ → AuthParser
parsed p u w = record {
  state = auth_done;
  to_parse = 0;
  where_to = null;
  username = store_all (set p.username (length u) 0) 0 u;
  password = store_all (set p.password (length w) 0) 0 w;
}

run_message :
    (p : AuthParser) (u w rest : List ℕ)
    → length p.username ≡ max_len
    → length p.password ≡ max_len
    → 0 < length u
    → 0 < length w
    → length u < max_len
    → length w < max_len
    → run (auth_parser_init p) (1 ∷ length u ∷ (u ++ length w ∷ (w ++ rest)))
      ≡ some (parsed p u w, rest)
run_message p [] w rest a b hu hw lu lw = absurd (omega arith)
run_message p (c ∷ cs) [] rest a b hu hw lu lw = absurd (omega arith)
run_message p (c ∷ cs) (d ∷ ds) rest a b hu hw lu lw =
    rw (step_ver, step_ulen p.username p.password (length cs) (omega arith))
      (uname_loop (set p.username (suc (length cs)) 0) p.password (c ∷ cs)
          (suc (length ds) ∷ ((d ∷ ds) ++ rest)) 0 (length cs) refl
          (omega (arith, length-set p.username (suc (length cs)) 0)) (omega arith)
        ∙ rw
            (step_plen (store_all (set p.username (suc (length cs)) 0) 0 (c ∷ cs)) p.password
              (length ds) (omega arith))
            (passwd_loop (store_all (set p.username (suc (length cs)) 0) 0 (c ∷ cs))
              (set p.password (suc (length ds)) 0) (d ∷ ds) rest 0 (length ds) refl
              (omega (arith, length-set p.password (suc (length ds)) 0)) (omega arith)))

-- A buffer that starts with a whole message, version 1, a username `u` and a password `w` of 1 to 254
-- non-zero bytes behind their lengths, is parsed to the end of it. The parser is done, its two arrays
-- hold exactly `u` and `w` as C strings, whatever they held before, and exactly the bytes behind the
-- message stay in the buffer.
pub auth_parse_full-credentials :
    (p : AuthParser) (u w rest : List ℕ) (b : Buffer)
    → length p.username ≡ max_len
    → length p.password ≡ max_len
    → (0 < length u) × (length u < max_len) × All (λ c. 0 < c) u
    → (0 < length w) × (length w < max_len) × All (λ c. 0 < c) w
    → IsValid b
    → contents b ≡ 1 ∷ length u ∷ (u ++ length w ∷ (w ++ rest))
    → (p' : AuthParser) × (b' : Buffer) × (auth_parse_full (auth_parser_init p) b ≡ some (p', b'))
      × (p'.state ≡ auth_done)
      × (c_string p'.username ≡ u)
      × (c_string p'.password ≡ w)
      × IsValid b'
      × (contents b' ≡ rest)
unfolding auth_parse_full
auth_parse_full-credentials p u w rest b lu lw hu hw v e =
    let a = parse_full-Agrees auth_parse_byte (λ p. is_final p.state) (auth_parser_init p) b v in
    let a' = rw (e, run_message p u w rest lu lw hu.0 hw.0 hu.1 hw.1) at a in
    (
      parsed p u w,
      a'.0,
      a'.1,
      refl,
      c_string-store_all p.username u (omega arith) hu.2,
      c_string-store_all p.password w (omega arith) hw.2,
      a'.2,
      a'.4,
    )
