-- ===== src/Client/Session.antt =====
-- The password attempts of src/client/client.c.
use tpe_socks.Prelude.{
  ℕ, Bool, true, false, get_or, drop, codes, zero, suc, ◌+◌, ◌≤◌, ◌<◌, ◌≡◌, ◌≢◌, refl, ap, subst,
  Option, some, none, List, [], ◌∷◌, ◌++◌, arith, length, length-append, ◌>>=◌, >>=-eq-some,
  Option-cases, Bool-cases, inl, inr, ◌==◌,
}
use tpe_socks.Prelude.Int.{ℤ, pos, negsuc}
use tpe_socks.Client.{
  fill, success, failed, closed, received, terminated, Client, Reply, send, print,
  receive_simple_response, next_reply,
}
use tpe_socks.Client.Dialog.{fgets, drop_last}
use tpe_socks.Client.Connect.{
  auth_message, auth_by, admin_auth, auth_next, auth_loop, login_end, greeted, login_by, mng_login,
}

auth_by-sent : (ret : ℕ) (c : Client) → (auth_by (ret, c)).1.sent ≡ c.sent
unfolding auth_by print
auth_by-sent ret c = ground arith

abbrev sent_of : Option (List ℕ × ℤ × Client) → ℕ
sent_of none = 0
sent_of (some r) = length r.2.sent

-- One attempt sends one message.
admin_auth-sent :
    (stack buf : List ℕ) (c : Client) (r : List ℕ × ℤ × Client)
    → admin_auth stack buf c ≡ some r
    → length r.2.sent ≡ suc (length c.sent)
unfolding admin_auth send receive_simple_response
admin_auth-sent stack buf c r e =
    let (buf', rest) = fgets buf c.stdin in
    let (password, _, e₁) = >>=-eq-some (drop_last buf') _ e in
    let (bytes, _, e₂) = >>=-eq-some (auth_message password) _ e₁ in
    let ret : ℕ × Client = receive_simple_response stack (send bytes (record c { stdin = rest })) in
    omega (
      arith,
      ap sent_of e₂,
      ap (λ (l : List (List ℕ)). length l) (auth_by-sent ret.0 ret.1),
      length-append c.sent (bytes ∷ []),
    )

-- At most as many messages as rounds, and just as many if every password was refused.
abbrev Attempted : ℕ → ℕ → Option (ℤ × Client) → Type 0
Attempted before n none = Unit
Attempted before n (some (auth, c)) =
    (before ≤ length c.sent)
    × (length c.sent ≤ before + n)
    × (auth ≡ pos 0 → length c.sent ≡ before + n)
    × (auth ≢ pos 0 → before < length c.sent)

auth_next-Attempted :
    (auth : ℤ) (c : Client) (more : Option (ℤ × Client)) (before n : ℕ)
    → length c.sent ≡ suc before
    → Attempted (suc before) n more
    → Attempted before (suc n) (auth_next auth c more)
unfolding auth_next
auth_next-Attempted (pos zero) c none before n e h = tt
auth_next-Attempted (pos zero) c (some (auth, c')) before n e (low, high, all, _) =
    (omega arith, omega arith, (λ z. omega (arith, all z)), λ _. omega arith)
auth_next-Attempted (pos (suc m)) c more before n e h =
    (omega arith, omega arith, (λ z. ground arith), λ _. omega arith)
auth_next-Attempted (negsuc m) c more before n e h =
    (omega arith, omega arith, (λ z. ground arith), λ _. omega arith)

auth_loop-Attempted :
    (n : ℕ) (stack buf : List ℕ) (c : Client)
    → Attempted (length c.sent) n (auth_loop n stack buf c)
unfolding auth_loop
auth_loop-Attempted zero stack buf c =
    (omega arith, omega arith, (λ z. omega arith), λ n. absurd (n refl))
auth_loop-Attempted (suc n) stack buf c = elim (Option-cases (admin_auth stack buf c)) [
  | inl e ↦ rw e tt
  | inr ((buf', auth, c'), e) ↦
      let one = admin_auth-sent stack buf c (buf', auth, c') e in
      rw e (
        auth_next-Attempted auth c' (auth_loop n stack buf' c') (length c.sent) n one (
          subst (λ (k : ℕ). Attempted k n (auth_loop n stack buf' c')) one
            (auth_loop-Attempted n stack buf' c')))
]

-- What a connection is left with: the messages sent, and whether the dialog begins.
abbrev pub LoggedIn : ℕ → Option (Bool × Client) → Type 0
LoggedIn before none = Unit
LoggedIn before (some (begins, c)) =
    (before ≤ length c.sent)
    × (length c.sent ≤ before + 3)
    × (begins ≡ true → before < length c.sent)

login_end-LoggedIn :
    (before : ℕ) (r : ℤ × Client)
    → Attempted before 3 (some r)
    → LoggedIn before (some (login_end r))
unfolding login_end print
login_end-LoggedIn before (pos (suc n), c) (low, high, all, one) =
    (low, high, λ _. one (λ e. ground arith))
login_end-LoggedIn before (pos zero, c) (low, high, all, one) = (low, high, λ e. ground arith)
login_end-LoggedIn before (negsuc n, c) (low, high, all, one) = (low, high, λ e. ground arith)

ended-LoggedIn :
    (before : ℕ) (o : Option (ℤ × Client))
    → Attempted before 3 o
    → LoggedIn before (o >>= λ r. some (login_end r))
ended-LoggedIn before none h = tt
ended-LoggedIn before (some r) h = login_end-LoggedIn before r h

refused-LoggedIn : (c : Client) → LoggedIn (length c.sent) (some (false, c))
refused-LoggedIn c = (omega arith, omega arith, λ e. ground arith)

greeted-LoggedIn :
    (stack buf : List ℕ) (c : Client) → LoggedIn (length c.sent) (greeted stack buf c)
unfolding greeted
greeted-LoggedIn stack buf c = elim (Bool-cases (get_or buf 0 0 == success)) [
  | inr e ↦ rw e (refused-LoggedIn c)
  | inl e ↦ rw e (elim (Option-cases (terminated (drop 2 buf))) [
    | inl f ↦ rw f tt
    | inr (version, f) ↦ rw f (
        ended-LoggedIn (length c.sent) _ (
          auth_loop-Attempted 3 stack buf (
            print (codes "Password: ") (print (10 ∷ (codes "version: " ++ version ++ 10 ∷ [])) c))))
  ])
]

-- Whatever the server and the terminal give, the client sends at most three messages before it begins
-- the dialog or gives up, and it begins the dialog only after it has sent one.
pub mng_login-LoggedIn :
    (stack buf : List ℕ) (c : Client) → LoggedIn (length c.sent) (mng_login stack buf c)
unfolding mng_login login_by
mng_login-LoggedIn stack buf c =
    let (reply, rest) = next_reply c.replies in by_reply reply (record c { replies = rest })
  where
    by_reply : (reply : Reply) (c : Client) → LoggedIn (length c.sent) (login_by stack buf reply c)
    by_reply failed c = refused-LoggedIn c
    by_reply closed c = refused-LoggedIn c
    by_reply (received []) c = refused-LoggedIn c
    by_reply (received (x ∷ xs)) c = greeted-LoggedIn stack (fill buf (x ∷ xs)) c
