-- ===== src/Tests/Metrics.antt =====
-- The counters of src/metrics.c after some events.
use tpe_socks.Prelude.{List, [], ◌∷◌}
use tpe_socks.Metrics.Account.{Event, socks_opened, socks_closed, mgmt_opened, sent}

abbrev a_day : List Event
a_day = socks_opened ∷ sent 100 ∷ mgmt_opened ∷ socks_closed ∷ sent 20 ∷ []
