-- ===== src/Metrics/Account.antt =====
-- What the counters of src/metrics.c say after any sequence of events.
use tpe_socks.Prelude.{ℕ, suc, ◌+◌, ◌≡◌, List, [], ◌∷◌, arith}
use tpe_socks.Prelude.Int.{ℤ, pos, pos_part, neg_part, +ℤ_parts, -ℤ_parts}
use tpe_socks.Metrics.{
  Metrics, start_metrics, add_socks_connection, add_mgmt_connection,
  remove_current_socks_connection, remove_current_mgmt_connection, add_bytes_transferred,
  get_current_total, get_historic_total,
}

-- What the server reports to the counters.
pub data Event : Type 0 where
  socks_opened socks_closed mgmt_opened mgmt_closed : Event
  sent : ℕ → Event

unfoldable pub apply : Event → Metrics → Metrics
apply socks_opened m = add_socks_connection m
apply socks_closed m = remove_current_socks_connection m
apply mgmt_opened m = add_mgmt_connection m
apply mgmt_closed m = remove_current_mgmt_connection m
apply (sent n) m = add_bytes_transferred m (pos n)

unfoldable pub apply_all : List Event → Metrics → Metrics
apply_all [] m = m
apply_all (e ∷ es) m = apply_all es (apply e m)

-- How often each event happened, and how many bytes were sent.
pub record Tally : Type 0 where
  pub socks_opens : ℕ
  pub socks_closes : ℕ
  pub mgmt_opens : ℕ
  pub mgmt_closes : ℕ
  pub bytes : ℕ

abbrev pub tally : List Event → Tally
tally [] = record { socks_opens = 0; socks_closes = 0; mgmt_opens = 0; mgmt_closes = 0; bytes = 0 }
tally (socks_opened ∷ es) = let t = tally es in record t { socks_opens = suc t.socks_opens }
tally (socks_closed ∷ es) = let t = tally es in record t { socks_closes = suc t.socks_closes }
tally (mgmt_opened ∷ es) = let t = tally es in record t { mgmt_opens = suc t.mgmt_opens }
tally (mgmt_closed ∷ es) = let t = tally es in record t { mgmt_closes = suc t.mgmt_closes }
tally (sent n ∷ es) = let t = tally es in record t { bytes = n + t.bytes }

-- `r` is `a` plus `n` less `k`, by the two parts of an integer.
abbrev pub Moved : ℤ → ℤ → ℕ → ℕ → Type 0
Moved a r n k = pos_part r + neg_part a + k ≡ neg_part r + pos_part a + n

-- The counters `r` reached from `m` by the events of `t`.
pub record Accounts (m : Metrics) (t : Tally) (r : Metrics) : Type 0 where
  pub socks_ever : Moved m.historic_socks_connections r.historic_socks_connections t.socks_opens 0
  pub socks_now :
      Moved m.current_socks_connections r.current_socks_connections t.socks_opens t.socks_closes
  pub mgmt_ever : Moved m.historic_mgmt_connections r.historic_mgmt_connections t.mgmt_opens 0
  pub mgmt_now :
      Moved m.current_mgmt_connections r.current_mgmt_connections t.mgmt_opens t.mgmt_closes
  pub bytes : Moved m.bytes_transferred r.bytes_transferred t.bytes 0

ruleset sums = (arith, +ℤ_parts, -ℤ_parts)

-- After any events the counters tell how often each one happened: the historic counts are the
-- connections ever opened, the current ones are those less the ones closed, and the bytes add up.
pub apply_all-Accounts : (es : List Event) (m : Metrics) → Accounts m (tally es) (apply_all es m)
unfolding apply_all apply add_socks_connection add_mgmt_connection remove_current_socks_connection
    remove_current_mgmt_connection add_bytes_transferred
apply_all-Accounts [] m = omega sums
apply_all-Accounts (socks_opened ∷ es) m =
    omega (sums, apply_all-Accounts es (add_socks_connection m))
apply_all-Accounts (socks_closed ∷ es) m =
    omega (sums, apply_all-Accounts es (remove_current_socks_connection m))
apply_all-Accounts (mgmt_opened ∷ es) m =
    omega (sums, apply_all-Accounts es (add_mgmt_connection m))
apply_all-Accounts (mgmt_closed ∷ es) m =
    omega (sums, apply_all-Accounts es (remove_current_mgmt_connection m))
apply_all-Accounts (sent n ∷ es) m =
    omega (sums, apply_all-Accounts es (add_bytes_transferred m (pos n)))

-- The two totals are the sums of their parts, on the counters of a server that has just started and
-- then seen any events.
pub totals-Account :
    (es : List Event)
    → let r = apply_all es start_metrics in
      let t = tally es in
      Moved (pos 0) (get_historic_total r) (t.socks_opens + t.mgmt_opens) 0
      × Moved
          (pos 0)
          (get_current_total r)
          (t.socks_opens + t.mgmt_opens)
          (t.socks_closes + t.mgmt_closes)
unfolding start_metrics get_historic_total get_current_total
totals-Account es = omega (sums, apply_all-Accounts es start_metrics)
