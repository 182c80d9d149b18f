-- ===== src/Client/Ending.antt =====
-- How long the loop of commands of src/client/client.c lasts.
use tpe_socks.Prelude.{
  ℕ, zero, suc, ◌<◌, ◌≡◌, refl, subst, Option, some, none, [], ◌∷◌, arith, length, Option-cases,
  inl, inr, codes, ◌++◌,
}
use tpe_socks.Control.Strtok.{strtok}
use tpe_socks.Client.{Client}
use tpe_socks.Client.Dialog.{say, new_command, run_line, run_command, find_command, Stack}
use tpe_socks.Client.Lines.{new_command-line}
use tpe_socks.Client.Connect.{command_loop, unless_over}
use tpe_socks.Client.Terminal.{Shorter, nothing_read, new_command-Shorter}

-- How the loop goes on and ends: another round after a command that does not end the dialog, the client
-- that a command leaves which ends it, and no client after a fault.
pub data Ends (stacks : ℕ → Stack) : ℕ → Client → Option Client → Type 0 where
  crashed :
      {fuel : ℕ} {c : Client} → new_command (stacks fuel) c ≡ none → Ends stacks (suc fuel) c none
  left :
      {fuel n : ℕ} {c c' : Client}
      → new_command (stacks fuel) c ≡ some (suc n, c')
      → Ends stacks (suc fuel) c (some c')
  again :
      {fuel : ℕ} {c c' : Client} {o : Option Client}
      → new_command (stacks fuel) c ≡ some (0, c')
      → Ends stacks fuel c' o
      → Ends stacks (suc fuel) c o

-- A run of the loop that ends in one of these ways.
abbrev pub Runs : ℕ → (ℕ → Stack) → Client → Type 0
Runs fuel stacks c =
    (o : Option Client) × (command_loop fuel stacks c ≡ some o) × Ends stacks fuel c o

after_command-Runs :
    (fuel : ℕ) (stacks : ℕ → Stack) (c : Client) (done : ℕ) (c' : Client)
    → new_command (stacks fuel) c ≡ some (done, c')
    → Runs fuel stacks c'
    → Runs (suc fuel) stacks c
unfolding unless_over command_loop
after_command-Runs fuel stacks c zero c' e (o, run, ends) =
    (o, rw (command_loop, e) run, again e ends)
after_command-Runs fuel stacks c (suc n) c' e r = (some c', rw (command_loop, e) refl, left e)

exit_line :
    (stack : Stack) (c : Client)
    → new_command stack (record c { stdin = codes "exit" ++ 10 ∷ c.stdin })
      ≡ some (1, say (codes "Bye!") c)
unfolding run_line strtok find_command run_command
exit_line stack c =
    new_command-line stack (record c { stdin = codes "exit" ++ 10 ∷ c.stdin }) (codes "exit")
      c.stdin refl (ground arith) (ground arith) (omega arith)

no_line : (stack : Stack) (c : Client) → new_command stack (record c { stdin = [] }) ≡ none
unfolding new_command
no_line stack c = rw nothing_read refl

-- The two ways out of the dialog that the terminal alone decides.
abbrev pub Leaves : ℕ → (ℕ → Stack) → Client → Type 0
Leaves fuel stacks c =
    (command_loop fuel stacks (record c { stdin = codes "exit" ++ 10 ∷ c.stdin })
      ≡ some (some (say (codes "Bye!") c)))
    × (command_loop fuel stacks (record c { stdin = [] }) ≡ some none)

command_loop-Leaves : (fuel : ℕ) (stacks : ℕ → Stack) (c : Client) → 0 < fuel → Leaves fuel stacks c
unfolding command_loop unless_over
command_loop-Leaves zero stacks c h = absurd (omega arith)
command_loop-Leaves (suc fuel) stacks c h = (
  rw (command_loop, exit_line (stacks fuel) c) refl,
  rw (command_loop, no_line (stacks fuel) c) refl,
)

command_loop-Runs :
    (fuel : ℕ) (stacks : ℕ → Stack) (c : Client) → length c.stdin < fuel → Runs fuel stacks c
unfolding command_loop
command_loop-Runs zero stacks c h = absurd (omega arith)
command_loop-Runs (suc fuel) stacks c h =
    let s = new_command-Shorter (stacks fuel) c c.stdin refl in
    elim (Option-cases (new_command (stacks fuel) c)) [
      | inl e ↦ (none, rw (command_loop, e) refl, crashed e)
      | inr ((done, c'), e) ↦
          let less : length c'.stdin < length c.stdin =
            subst (λ (o : Option (ℕ × Client)). Shorter (length c.stdin) o) e s in
          after_command-Runs fuel stacks c done c' e
            (command_loop-Runs fuel stacks c' (omega arith))
    ]

-- With more fuel than the terminal has bytes, the loop of commands ends: with the first command that
-- sets `done`, and with the client as that command leaves it, or with a fault of the first command that
-- faults. Before that each command was run on what the one before it left, and did not set `done`.
-- With a line `exit` in front of the terminal the loop ends at once, with the farewell printed and the
-- rest not read; with an empty terminal it ends in a fault.
pub command_loop_total :
    (fuel : ℕ) (stacks : ℕ → Stack) (c : Client)
    → length c.stdin < fuel
    → Runs fuel stacks c × Leaves fuel stacks c
command_loop_total fuel stacks c h =
    (command_loop-Runs fuel stacks c h, command_loop-Leaves fuel stacks c (omega arith))
