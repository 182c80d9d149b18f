-- ===== src/Client/Terminal.antt =====
-- What a command of src/client/client.c reads of the terminal.
use tpe_socks.Prelude.{
  ℕ, Bool, true, false, get_or, zero, suc, ◌≤◌, ◌<◌, ◌≡◌, refl, sym, ap, subst, ◌∙◌, Option, some,
  none, List, [], ◌∷◌, arith, length, ◌>>=◌, Bool-cases, inl, inr, ◌==◌, if◌then◌else◌,
}
use tpe_socks.Prelude.Int.{ℤ, pos, negsuc}
use tpe_socks.Control.Strtok.{strtok}
use tpe_socks.Client.{
  fill, failure, token, failed, closed, received, command_add_user, command_delete_user,
  command_edit_password, command_list_users, command_obtain_metrics, maxlen, Client, Reply, zeros,
  send, print, receive_simple_response, single_message, double_message, single_arg_command,
  double_arg_command, dissector, send_simple, next_reply,
}
use tpe_socks.Client.Listing.{
  list_users, obtain_metrics, parse_metrics_message, metrics_by, print_metrics, parse_users_message,
  strtok_in,
}
use tpe_socks.Client.Dialog.{
  too_many_args, invalid_command, line_of, fgets, drop_last, new_command, run_line, run_command,
  find_command, command_str, Stack, Args, get_args, double_by, single_by, simple_by, analyzed,
  analyze_return, help,
}

line_of-shorter : (n x : ℕ) (xs : List ℕ) → length (line_of (suc n) (x ∷ xs)).1 ≤ length xs
unfolding line_of
line_of-shorter zero x xs = ground arith
line_of-shorter (suc n) x [] = ground arith
line_of-shorter (suc n) x (y ∷ ys) = ground (arith, line_of-shorter n y ys)

-- A command that keeps the terminal, whatever it does.
abbrev Keeps : List ℕ → Option (ℕ × Client) → Type 0
Keeps i none = Unit
Keeps i (some (done, c)) = c.stdin ≡ i

>>=-Keeps :
    {A : Type 0} (i : List ℕ) (o : Option A) (f : A → Option (ℕ × Client))
    → ((a : A) → Keeps i (f a))
    → Keeps i (o >>= f)
>>=-Keeps i none f k = tt
>>=-Keeps i (some a) f k = k a

if-Keeps :
    (i : List ℕ) (b : Bool) (o o' : Option (ℕ × Client))
    → Keeps i o
    → Keeps i o'
    → Keeps i (if b then o else o')
if-Keeps i true o o' k k' = k
if-Keeps i false o o' k k' = k'

analyze_return-stdin :
    (cmd : ℤ) (ret : ℕ) (c : Client) → (analyze_return cmd ret c).1.stdin ≡ c.stdin
unfolding analyze_return print
analyze_return-stdin (pos n) ret c = ground arith
analyze_return-stdin (negsuc n) ret c = ground arith

analyzed-Keeps :
    (i : List ℕ) (cmd : ℤ) (o : Option (ℕ × Client)) → Keeps i o → Keeps i (analyzed cmd o)
unfolding analyzed
analyzed-Keeps i cmd none k = tt
analyzed-Keeps i cmd (some (ret, c)) k = analyze_return-stdin cmd ret c ∙ k

double_by-Keeps :
    (command : ℕ) (cmd : ℤ) (error : Client → ℕ × Client) (a : Args) (stack : List ℕ) (c : Client)
    → (error c).1.stdin ≡ c.stdin
    → Keeps c.stdin (double_by command cmd error a stack c)
unfolding double_by double_arg_command print send receive_simple_response
double_by-Keeps command cmd error Args.missing stack c h = refl
double_by-Keeps command cmd error Args.extra stack c h = h
double_by-Keeps command cmd error (Args.given []) stack c h = tt
double_by-Keeps command cmd error (Args.given (u ∷ [])) stack c h = tt
double_by-Keeps command cmd error (Args.given (u ∷ p ∷ more)) stack c h =
    analyzed-Keeps c.stdin cmd (double_arg_command command u p stack c)
      (>>=-Keeps c.stdin (double_message command u p) _ (λ bytes. refl))

single_by-Keeps :
    (command : ℕ) (cmd : ℤ) (a : Args) (stack : List ℕ) (c : Client)
    → Keeps c.stdin (single_by command cmd a stack c)
unfolding single_by single_arg_command print send receive_simple_response
single_by-Keeps command cmd Args.missing stack c = refl
single_by-Keeps command cmd Args.extra stack c = refl
single_by-Keeps command cmd (Args.given []) stack c = tt
single_by-Keeps command cmd (Args.given (u ∷ more)) stack c =
    analyzed-Keeps c.stdin cmd (single_arg_command command u stack c)
      (>>=-Keeps c.stdin (single_message command u) _ (λ bytes. refl))

simple_by-Keeps :
    (cmd : ℤ) (a : Args) (c : Client) (r : Option (ℕ × Client))
    → Keeps c.stdin r
    → Keeps c.stdin (simple_by cmd a c r)
unfolding simple_by print
simple_by-Keeps cmd Args.missing c r k = refl
simple_by-Keeps cmd Args.extra c r k = refl
simple_by-Keeps cmd (Args.given words) c r k = analyzed-Keeps c.stdin cmd r k

list_users-Keeps : (command : ℕ) (c : Client) → Keeps c.stdin (list_users command c)
unfolding list_users send_simple
list_users-Keeps command c =
    let c' = send_simple command c in
    >>=-Keeps c.stdin (parse_users_message c'.replies c'.printed) _ (λ m. refl)

metrics_by-Keeps :
    (stack : List ℕ) (reply : Reply) (c : Client) → Keeps c.stdin (metrics_by stack reply c)
unfolding metrics_by print_metrics
metrics_by-Keeps stack failed c = refl
metrics_by-Keeps stack closed c = refl
metrics_by-Keeps stack (received []) c = refl
metrics_by-Keeps stack (received (x ∷ xs)) c =
    elim (Bool-cases (get_or (fill stack (x ∷ xs)) 0 0 == failure)) [
      | inl e ↦ rw e refl
      | inr e ↦ rw e (printed (fill stack (x ∷ xs)) c)
    ]
  where
    printed : (buf : List ℕ) (c : Client) → Keeps c.stdin (print_metrics buf c)
    printed buf c = >>=-Keeps c.stdin (strtok_in token buf 2) _ (λ (title, buf', saved).
        >>=-Keeps c.stdin title _ (λ title'.
          >>=-Keeps c.stdin (strtok_in token buf' saved) _
            (λ (values, _, _). >>=-Keeps c.stdin values _ (λ values'. refl))))

obtain_metrics-Keeps : (stack : List ℕ) (c : Client) → Keeps c.stdin (obtain_metrics stack c)
unfolding obtain_metrics send_simple parse_metrics_message
obtain_metrics-Keeps stack c =
    let c' = send_simple command_obtain_metrics c in
    let (reply, rest) = next_reply c'.replies in
    metrics_by-Keeps stack reply (record c' { replies = rest })

run_command-Keeps :
    (cmd : ℤ) (rest : List ℕ) (stack : Stack) (c : Client)
    → Keeps c.stdin (run_command cmd rest stack c)
unfolding run_command print help dissector send_simple receive_simple_response
run_command-Keeps (negsuc n) rest stack c = refl
run_command-Keeps (pos cmd) rest stack c =
    let i : List ℕ = c.stdin in
    let buf : List ℕ = stack.response_buf in
    if-Keeps i (cmd == 1) _ _ (analyzed-Keeps i (pos 1) (some (stack.ret, help c)) refl) (
      if-Keeps i (cmd == 2) _ _
        (double_by-Keeps command_add_user (pos 2) too_many_args (get_args 2 rest) buf c refl)
        (if-Keeps i (cmd == 3) _ _
          (single_by-Keeps command_delete_user (pos 3) (get_args 1 rest) buf c)
          (if-Keeps i (cmd == 4) _ _
            (double_by-Keeps command_edit_password (pos 4) invalid_command (get_args 2 rest) buf c
              refl)
            (if-Keeps i (cmd == 5) _ _
              (simple_by-Keeps (pos 5) (get_args 0 rest) c _
                (list_users-Keeps command_list_users c))
              (if-Keeps i (cmd == 6) _ _
                (simple_by-Keeps (pos 6) (get_args 0 rest) c _ (obtain_metrics-Keeps buf c))
                (if-Keeps i (cmd == 7) _ _ (simple_by-Keeps (pos 7) (get_args 0 rest) c _ refl) (
                  if-Keeps i (cmd == 8) _ _ (simple_by-Keeps (pos 8) (get_args 0 rest) c _ refl)
                    (if-Keeps i (cmd == 9) _ _ refl refl))))))))

-- A command that goes on has read at least a byte of the terminal.
abbrev pub Shorter : ℕ → Option (ℕ × Client) → Type 0
Shorter n none = Unit
Shorter n (some (done, c)) = length c.stdin < n

Keeps-Shorter :
    (i : List ℕ) (n : ℕ) (o : Option (ℕ × Client)) → length i < n → Keeps i o → Shorter n o
Keeps-Shorter i n none h k = tt
Keeps-Shorter i n (some (done, c)) h k = omega (arith, ap (λ (l : List ℕ). length l) k)

>>=-Shorter :
    {A : Type 0} (n : ℕ) (o : Option A) (f : A → Option (ℕ × Client))
    → ((a : A) → Shorter n (f a))
    → Shorter n (o >>= f)
>>=-Shorter n none f k = tt
>>=-Shorter n (some a) f k = k a

pub nothing_read : drop_last (fgets (zeros maxlen) []).0 ≡ none
unfolding drop_last fgets
nothing_read = refl

le→lt_suc : (a b : ℕ) → a ≤ b → a < suc b
le→lt_suc a b h = omega arith

something_read : (x : ℕ) (xs : List ℕ) → length (fgets (zeros maxlen) (x ∷ xs)).1 < length (x ∷ xs)
unfolding fgets
something_read x xs = le→lt_suc _ (length xs) (line_of-shorter 1022 x xs)

pub new_command-Shorter :
    (stack : Stack) (c : Client) (i : List ℕ)
    → c.stdin ≡ i
    → Shorter (length i) (new_command stack c)
unfolding new_command run_line
new_command-Shorter stack c [] e = rw (e, nothing_read) tt
new_command-Shorter stack c (x ∷ xs) e =
    let (buf, rest) = fgets (zeros maxlen) c.stdin in
    let n : ℕ = length (x ∷ xs) in
    let read : length rest < n =
      subst (λ (i : List ℕ). length (fgets (zeros maxlen) i).1 < n) (sym e) (something_read x xs) in
    >>=-Shorter n (drop_last buf) _ (λ line. >>=-Shorter n (strtok 32 line) _ (λ (name, args).
      Keeps-Shorter rest n _ read (
        run_command-Keeps (find_command command_str 0 name) args stack
          (record c { stdin = rest }))))
