-- ===== src/Sniffer/Capture.antt =====
-- The credentials that the POP3 automaton reads off a login.
use tpe_socks.Prelude.{
  ℕ, zero, suc, ◌+◌, ◌<◌, ◌≡◌, ◌≢◌, refl, Bool, true, false, Option, some, List, [], ◌∷◌, ◌++◌,
  arith, length, All, store_all, set, length-set, get_or,
}
use tpe_socks.Buffer.For.{consume}
use tpe_socks.Sniffer.{
  Pop3State, Pop3Parser, argument_length, parse_step, is_done, never, to_upper, pop3_user_cmd,
  pop3_pass_cmd,
}

abbrev pub run : Pop3Parser → List ℕ → Option (Pop3Parser × List ℕ)
run = consume parse_step is_done never

abbrev pub at_state : Pop3State → List ℕ → List ℕ → ℕ → Bool → Pop3Parser
at_state s un pw i seen = record {
  state = s;
  user_name = un;
  password = pw;
  read_ptr = 0;
  write_ptr = i;
  user_done = seen;
}

-- The two keywords, in any mix of cases, as five bytes.
abbrev pub SpellsUser : ℕ → ℕ → ℕ → ℕ → ℕ → Type 0
SpellsUser a b c d e =
    (to_upper a ≡ b'U')
    × (to_upper b ≡ b'S')
    × (to_upper c ≡ b'E')
    × (to_upper d ≡ b'R')
    × (to_upper e ≡ 32)

abbrev pub SpellsPass : ℕ → ℕ → ℕ → ℕ → ℕ → Type 0
SpellsPass a b c d e =
    (to_upper a ≡ b'P')
    × (to_upper b ≡ b'A')
    × (to_upper c ≡ b'S')
    × (to_upper d ≡ b'S')
    × (to_upper e ≡ 32)

module _ (un pw : List ℕ) (c : ℕ) where
  user_letter :
      (i : ℕ)
      → i < 4
      → to_upper c ≡ get_or pop3_user_cmd i 0
      → parse_step
          (record {
            state = Pop3State.user_cmd;
            user_name = un;
            password = pw;
            read_ptr = i;
            write_ptr = 0;
            user_done = false;
          })
          c
        ≡ some (record {
          state = Pop3State.user_cmd;
          user_name = un;
          password = pw;
          read_ptr = suc i;
          write_ptr = 0;
          user_done = false;
        })
  unfolding parse_step
  user_letter zero h e = ground arith
  user_letter (suc zero) h e = ground arith
  user_letter (suc (suc zero)) h e = ground arith
  user_letter (suc (suc (suc zero))) h e = ground arith
  user_letter (suc (suc (suc (suc i)))) h e = absurd (omega arith)

  pass_letter :
      (i : ℕ)
      → i < 4
      → to_upper c ≡ get_or pop3_pass_cmd i 0
      → parse_step
          (record {
            state = Pop3State.pass_cmd;
            user_name = un;
            password = pw;
            read_ptr = i;
            write_ptr = 0;
            user_done = true;
          })
          c
        ≡ some (record {
          state = Pop3State.pass_cmd;
          user_name = un;
          password = pw;
          read_ptr = suc i;
          write_ptr = 0;
          user_done = true;
        })
  unfolding parse_step
  pass_letter zero h e = ground arith
  pass_letter (suc zero) h e = ground arith
  pass_letter (suc (suc zero)) h e = ground arith
  pass_letter (suc (suc (suc zero))) h e = ground arith
  pass_letter (suc (suc (suc (suc i)))) h e = absurd (omega arith)

  user_space :
      to_upper c ≡ 32
      → parse_step
          (record {
            state = Pop3State.user_cmd;
            user_name = un;
            password = pw;
            read_ptr = 4;
            write_ptr = 0;
            user_done = false;
          })
          c
        ≡ some (at_state Pop3State.user un pw 0 false)
  unfolding parse_step
  user_space e = ground arith

  pass_space :
      to_upper c ≡ 32
      → parse_step
          (record {
            state = Pop3State.pass_cmd;
            user_name = un;
            password = pw;
            read_ptr = 4;
            write_ptr = 0;
            user_done = true;
          })
          c
        ≡ some (at_state Pop3State.pass un pw 0 true)
  unfolding parse_step
  pass_space e = ground arith

-- One byte of an argument, and the end of its line.
module _ (un pw : List ℕ) (i : ℕ) (l : i < 39) where
  user_byte :
      (c : ℕ)
      → length un ≡ argument_length
      → c ≢ 10
      → parse_step (at_state Pop3State.user un pw i false) c
        ≡ some (at_state Pop3State.user (set un i c) pw (suc i) false)
  unfolding parse_step
  user_byte c h n = ground arith

  user_end :
      length un ≡ argument_length
      → parse_step (at_state Pop3State.user un pw i false) 10
        ≡ some (at_state Pop3State.pass_cmd (set un i 0) pw 0 true)
  unfolding parse_step
  user_end h = ground arith

  pass_byte :
      (c : ℕ)
      → length pw ≡ argument_length
      → c ≢ 10
      → parse_step (at_state Pop3State.pass un pw i true) c
        ≡ some (at_state Pop3State.pass un (set pw i c) (suc i) true)
  unfolding parse_step
  pass_byte c h n = ground arith

  pass_end :
      length pw ≡ argument_length
      → parse_step (at_state Pop3State.pass un pw i true) 10
        ≡ some (at_state Pop3State.done un (set pw i 0) 0 true)
  unfolding parse_step
  pass_end h = ground arith

pub user_line :
    (us rest un pw : List ℕ) (i : ℕ)
    → length un ≡ argument_length
    → i + length us < 39
    → All (λ c. c ≢ 10) us
    → run (at_state Pop3State.user un pw i false) (us ++ 10 ∷ rest)
      ≡ run (at_state Pop3State.pass_cmd (set (store_all un i us) (i + length us) 0) pw 0 true) rest
user_line [] rest un pw i h l n =
    let e : i + 0 ≡ i = omega arith in rw (e, user_end un pw i (omega arith) h)
user_line (c ∷ us) rest un pw i h l n =
    let e : i + suc (length us) ≡ suc i + length us = omega arith in
    rw (e, user_byte un pw i (omega arith) c h n.0)
      (user_line us rest (set un i c) pw (suc i) (omega (arith, length-set un i c)) (omega arith)
        n.1)

stays :
    (un pw rest : List ℕ)
    → run (at_state Pop3State.done un pw 0 true) rest
      ≡ some (at_state Pop3State.done un pw 0 true, rest)
stays un pw [] = refl
stays un pw (x ∷ xs) = refl

pub pass_line :
    (ws rest un pw : List ℕ) (i : ℕ)
    → length pw ≡ argument_length
    → i + length ws < 39
    → All (λ c. c ≢ 10) ws
    → run (at_state Pop3State.pass un pw i true) (ws ++ 10 ∷ rest)
      ≡ some (at_state Pop3State.done un (set (store_all pw i ws) (i + length ws) 0) 0 true, rest)
pass_line [] rest un pw i h l n =
    let e : i + 0 ≡ i = omega arith in
    rw (e, pass_end un pw i (omega arith) h) (stays un (set pw i 0) rest)
pass_line (c ∷ ws) rest un pw i h l n =
    let e : i + suc (length ws) ≡ suc i + length ws = omega arith in
    rw (e, pass_byte un pw i (omega arith) c h n.0)
      (pass_line ws rest un (set pw i c) (suc i) (omega (arith, length-set pw i c)) (omega arith)
        n.1)

-- The keywords.
module _ (a b c d e : ℕ) (un pw xs : List ℕ) where
  pub user_keyword :
      SpellsUser a b c d e
      → run (at_state Pop3State.user_cmd un pw 0 false) (a ∷ b ∷ c ∷ d ∷ e ∷ xs)
        ≡ run (at_state Pop3State.user un pw 0 false) xs
  user_keyword h = rw (
    user_letter un pw a 0 (omega arith) h.0,
    user_letter un pw b 1 (omega arith) h.1,
    user_letter un pw c 2 (omega arith) h.2,
    user_letter un pw d 3 (omega arith) h.3,
    user_space un pw e h.4,
  )

  pub pass_keyword :
      SpellsPass a b c d e
      → run (at_state Pop3State.pass_cmd un pw 0 true) (a ∷ b ∷ c ∷ d ∷ e ∷ xs)
        ≡ run (at_state Pop3State.pass un pw 0 true) xs
  pass_keyword h = rw (
    pass_letter un pw a 0 (omega arith) h.0,
    pass_letter un pw b 1 (omega arith) h.1,
    pass_letter un pw c 2 (omega arith) h.2,
    pass_letter un pw d 3 (omega arith) h.3,
    pass_space un pw e h.4,
  )
