-- ===== src/Parsers/Conn/Select.antt =====
-- What the greeting's parser selects: the method that the server prefers among those offered.
use tpe_socks.Prelude.{
  ℕ, zero, suc, ◌≡◌, refl, ap, ◌∙◌, Bool, false, not, ◌&&◌, ◌||◌, Option, some, List, [], ◌∷◌, ◌++◌,
  ◌==◌, if◌then◌else◌, arith, length,
}
use tpe_socks.Buffer.{Buffer}
use tpe_socks.Buffer.Inv.{IsValid}
use tpe_socks.Buffer.Refine.{contents}
use tpe_socks.Buffer.Loop.{consume, parse_full-Agrees}
use tpe_socks.Parsers.Conn.{
  ConnParser, conn_nmethods, conn_methods, conn_done, start_connection_parser, conn_parse_byte,
  conn_parse_full, set_new_method, is_final, no_auth, user_pass, no_methods,
}

abbrev pub offers : ℕ → List ℕ → Bool
offers m [] = false
offers m (x ∷ xs) = (x == m) || offers m xs

-- Username and password if the client offers it; else no authentication, if it is offered and the
-- server has no user; else no acceptable method.
abbrev pub preferred : Bool → List ℕ → ℕ
preferred needs_auth methods =
    if offers user_pass methods
    then user_pass
    else if not needs_auth && offers no_auth methods
    then no_auth
    else no_methods

-- The same with a method chosen before.
abbrev prefer_over : Bool → ℕ → List ℕ → ℕ
prefer_over needs_auth auth methods =
    if offers user_pass methods || (auth == user_pass)
    then user_pass
    else if not needs_auth && offers no_auth methods
    then no_auth
    else auth

abbrev run : Bool → ConnParser → List ℕ → Option (ConnParser × List ℕ)
run needs_auth = consume (λ p c. some (conn_parse_byte needs_auth p c)) (λ p. is_final p.state)

-- What one offered method changes.
chosen : Bool → ℕ → ℕ → ℕ
chosen needs_auth auth m =
    if (m == user_pass) || (not needs_auth && (m == no_auth) && not (auth == user_pass))
    then m
    else auth

step_last :
    (n : Bool) (auth m : ℕ)
    → conn_parse_byte n (record { auth = auth; state = conn_methods; to_parse = 1 }) m
      ≡ record { auth = chosen n auth m; state = conn_done; to_parse = 0 }
unfolding conn_parse_byte set_new_method chosen
step_last n auth m = ground arith

step_more :
    (n : Bool) (auth m k : ℕ)
    → conn_parse_byte n (record { auth = auth; state = conn_methods; to_parse = suc (suc k) }) m
      ≡ record { auth = chosen n auth m; state = conn_methods; to_parse = suc k }
unfolding conn_parse_byte set_new_method chosen
step_more n auth m k = ground arith

prefer_over-chosen :
    (n : Bool) (auth m : ℕ) (ms : List ℕ)
    → prefer_over n (chosen n auth m) ms ≡ prefer_over n auth (m ∷ ms)
unfolding chosen
prefer_over-chosen n auth m ms = ground arith

prefer_one : (n : Bool) (auth m : ℕ) → chosen n auth m ≡ prefer_over n auth (m ∷ [])
unfolding chosen
prefer_one n auth m = ground arith

-- The method count.
step_count :
    (n : Bool) (k : ℕ)
    → conn_parse_byte n (record { auth = no_methods; state = conn_nmethods; to_parse = 0 }) (suc k)
      ≡ record { auth = no_methods; state = conn_methods; to_parse = suc k }
unfolding conn_parse_byte
step_count n k = ground arith

step_version :
    (n : Bool)
    → conn_parse_byte n start_connection_parser 5
      ≡ record { auth = no_methods; state = conn_nmethods; to_parse = 0 }
unfolding conn_parse_byte start_connection_parser
step_version n = refl

step_no_methods :
    (n : Bool)
    → conn_parse_byte n (record { auth = no_methods; state = conn_nmethods; to_parse = 0 }) 0
      ≡ record { auth = no_methods; state = conn_done; to_parse = 0 }
unfolding conn_parse_byte
step_no_methods n = refl

methods_loop :
    (n : Bool) (auth : ℕ) (methods rest : List ℕ) (k : ℕ)
    → length methods ≡ suc k
    → run n (record { auth = auth; state = conn_methods; to_parse = suc k }) (methods ++ rest)
      ≡ some (record { auth = prefer_over n auth methods; state = conn_done; to_parse = 0 }, rest)
methods_loop n auth [] rest k h = absurd (omega arith)
methods_loop n auth (m ∷ []) rest zero h = rw step_last (
    ap (λ (a : ℕ). some (record { auth = a; state = conn_done; to_parse = 0 }, rest))
      (prefer_one n auth m))
methods_loop n auth (m ∷ []) rest (suc k) h = absurd (omega arith)
methods_loop n auth (m ∷ m' ∷ ms) rest zero h = absurd (omega arith)
methods_loop n auth (m ∷ m' ∷ ms) rest (suc k) h = rw step_more (
    methods_loop n (chosen n auth m) (m' ∷ ms) rest k (omega arith)
    ∙ ap (λ (a : ℕ). some (record { auth = a; state = conn_done; to_parse = 0 }, rest))
        (prefer_over-chosen n auth m (m' ∷ ms)))

-- On the bytes of a whole greeting: version 5, the number of methods, the methods.
run_greeting :
    (n : Bool) (methods rest : List ℕ)
    → run n start_connection_parser (5 ∷ length methods ∷ methods ++ rest)
      ≡ some (record { auth = preferred n methods; state = conn_done; to_parse = 0 }, rest)
run_greeting n [] rest = rw (step_version, step_no_methods) (ground arith)
run_greeting n (m ∷ ms) rest =
    rw (step_version, step_count n (length ms))
      (methods_loop n no_methods (m ∷ ms) rest (length ms) refl
        ∙ ap (λ (a : ℕ). some (record { auth = a; state = conn_done; to_parse = 0 }, rest))
            (ground arith))

-- A buffer that starts with a whole greeting is parsed to the end of it: the parser is done, it has
-- selected the preferred method among the offered ones (username and password if offered, else no
-- authentication if offered and no user is registered, else 0xFF), and exactly the bytes behind the
-- greeting stay in the buffer, which stays valid.
pub conn_parse_full-greeting :
    (n : Bool) (methods rest : List ℕ) (b : Buffer)
    → IsValid b
    → contents b ≡ 5 ∷ length methods ∷ methods ++ rest
    → (b' : Buffer) × (conn_parse_full n start_connection_parser b
        ≡ some (record { auth = preferred n methods; state = conn_done; to_parse = 0 }, b'))
      × IsValid b'
      × (contents b' ≡ rest)
unfolding conn_parse_full
conn_parse_full-greeting n methods rest b v e =
    let a =
      parse_full-Agrees (λ p c. some (conn_parse_byte n p c)) (λ p. is_final p.state)
        start_connection_parser b v in
    let a' = rw (e, run_greeting n methods rest) at a in (a'.0, a'.1, a'.2, a'.4)
