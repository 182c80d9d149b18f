-- ===== src/Parsers/Auth/Safety.antt =====
-- Where the authentication parser of src/parsers/auth_parser.c stores.
use tpe_socks.Prelude.{
  ℕ, ◌<◌, ◌≡◌, refl, true, some, none, List, [], ◌∷◌, arith, inl, inr, All, Bool-cases,
}
use tpe_socks.Buffer.{Buffer}
use tpe_socks.Buffer.Inv.{IsValid}
use tpe_socks.Buffer.Refine.{contents}
use tpe_socks.Buffer.Loop.{consume, parse_full-Agrees}
use tpe_socks.Parsers.Auth.{
  AuthState, AuthParser, Target, null, in_username, in_password, auth_ver, auth_ulen, auth_uname,
  auth_plen, auth_passwd, auth_done, auth_error, auth_parse_byte, auth_parse_full, is_final,
}
use tpe_socks.Parsers.Auth.Aims.{IsSafe, awaits_length, StepSafe}
use tpe_socks.Parsers.Auth.Steps.{
  plain_uname, plain_passwd, length_username, length_password, version,
}

by_state :
    (s : AuthState) (t : Target) (left : ℕ) (un pw : List ℕ) (byte : ℕ)
    → IsSafe (record { state = s; to_parse = left; where_to = t; username = un; password = pw })
    → StepSafe
        (record { state = s; to_parse = left; where_to = t; username = un; password = pw })
        byte
unfolding auth_parse_byte
by_state auth_ver t left un pw byte v = version left t un pw byte v
by_state auth_ulen t left un pw byte v = length_username left t un pw byte v
by_state auth_plen t left un pw byte v = length_password left t un pw byte v
by_state auth_uname null left un pw byte v = absurd v.aims
by_state auth_uname (in_username i) left un pw byte v =
    plain_uname i left un pw byte (omega arith) v
by_state auth_uname (in_password i) left un pw byte v = absurd v.aims
by_state auth_passwd null left un pw byte v = absurd v.aims
by_state auth_passwd (in_username i) left un pw byte v = absurd v.aims
by_state auth_passwd (in_password i) left un pw byte v =
    plain_passwd i left un pw byte (omega arith) v
by_state auth_done t left un pw byte v = inl (
  record { state = auth_done; to_parse = left; where_to = t; username = un; password = pw },
  refl,
  v,
)
by_state auth_error t left un pw byte v = inl (
  record { state = auth_error; to_parse = left; where_to = t; username = un; password = pw },
  refl,
  v,
)

-- In every state that the parser can be in, the next byte is either handled within the two arrays,
-- after which the parser is again in such a state, or it is a length byte of 255 or more: then the
-- terminator is stored one element behind the end of the array.
pub auth_parse_byte-IsSafe : (p : AuthParser) (byte : ℕ) → IsSafe p → StepSafe p byte
auth_parse_byte-IsSafe p byte v =
    by_state p.state p.where_to p.to_parse p.username p.password byte v

-- A length byte of 255 is a store out of bounds in every such state that awaits a length.
pub auth_parse_byte-overflow :
    (p : AuthParser) → IsSafe p → awaits_length p.state ≡ true → auth_parse_byte p 255 ≡ none
unfolding auth_parse_byte
auth_parse_byte-overflow p v h = go p.state p.where_to p.to_parse p.username p.password v h
  where
    go :
        (s : AuthState) (t : Target) (left : ℕ) (un pw : List ℕ)
        → IsSafe (record { state = s; to_parse = left; where_to = t; username = un; password = pw })
        → awaits_length s ≡ true
        → auth_parse_byte
            (record { state = s; to_parse = left; where_to = t; username = un; password = pw })
            255
          ≡ none
    go auth_ulen t left un pw v h = ground arith
    go auth_plen t left un pw v h = ground arith
    go auth_ver t left un pw v h = cc
    go auth_uname t left un pw v h = cc
    go auth_passwd t left un pw v h = cc
    go auth_done t left un pw v h = cc
    go auth_error t left un pw v h = cc

-- Over bytes below 255 the parser never faults.
consume-IsSafe :
    (p : AuthParser) (xs : List ℕ)
    → IsSafe p
    → All (λ x. x < 255) xs
    → (r : AuthParser × List ℕ) × (consume auth_parse_byte (λ q. is_final q.state) p xs ≡ some r)
      × IsSafe r.0
consume-IsSafe p [] v h = ((p, []), refl, v)
consume-IsSafe p (x ∷ xs) v h = elim (auth_parse_byte-IsSafe p x v) [
  | inr (bad, _, big) ↦ absurd (omega (arith, h.0))
  | inl (p', good, v') ↦
      let (r, e, w) = consume-IsSafe p' xs v' h.1 in
      elim (Bool-cases (is_final p'.state)) [
        | inl final ↦ ((p', xs), rw (good, final), v')
        | inr on ↦ (r, rw (good, on) e, w)
      ]
]

-- A buffer that holds no byte 255 is parsed without a fault: the parser stores inside its arrays
-- only, and both it and the buffer are left in a valid state.
pub auth_parse_full-IsSafe :
    (p : AuthParser) (b : Buffer)
    → IsSafe p
    → IsValid b
    → All (λ x. x < 255) (contents b)
    → (p' : AuthParser) × (b' : Buffer) × (auth_parse_full p b ≡ some (p', b'))
      × IsSafe p'
      × IsValid b'
unfolding auth_parse_full
auth_parse_full-IsSafe p b s v h =
    let a = parse_full-Agrees auth_parse_byte (λ q. is_final q.state) p b v in
    let (r, e, s') = consume-IsSafe p (contents b) s h in
    let a' = rw e at a in (r.0, a'.0, a'.1, s', a'.2)
