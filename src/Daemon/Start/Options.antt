-- ===== src/Daemon/Start/Options.antt =====
-- The loop of `main` (src/main.rs) begins as its rounds need it.
use aether_opt_ext.Base.{◌≤◌, List, arith}
use aether_opt_ext.Base.Text.{Text}
use aether_opt_ext.Daemon.Start.{at_least_one, parse_args}

-- Whatever the arguments are, the interval is at least one second, so the loop never spins.
pub parse_args-interval : (args : List Text) → 1 ≤ (parse_args args).interval
unfolding parse_args at_least_one
parse_args-interval args = ground arith
