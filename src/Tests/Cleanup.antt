-- ===== src/Tests/Cleanup.antt =====
-- The theorem on a round of the firewall, at a concrete input.
use mathlib.Core.List.{reverse}
use frenetic.Base.{ℕ, ◌≡◌, refl, [], ◌∷◌, map, some, any, arith}
use frenetic.Base.Text.{codes, text_eq}
use frenetic.Apps.Firewall.State.{Conn, Allowed, State, contains, same_conn, eq_text, eq_port}
use frenetic.Apps.Firewall.Handlers.{expire}
use frenetic.Apps.Firewall.Cleaning.{answers, run_clean}
use frenetic.Apps.Firewall.Sweep.{used, is_stale, ended, answers-run_clean}

abbrev conn : ℕ → Conn
conn port = record {
  trusted_ip = some (codes "10.0.0.1");
  trusted_port = some port;
  untrusted_ip = some (codes "10.0.0.2");
  untrusted_port = some 80;
}

abbrev allowed_entry : ℕ → ℕ → Allowed
allowed_entry port n = record {
  conn = conn port;
  query_label = codes "0";
  last_count = n;
  time_created = 1;
}

abbrev state : State
state = record {
  version = 3;
  trusted_ips = codes "10.0.0.1" ∷ [];
  allowed = allowed_entry 4000 7 ∷ allowed_entry 4001 5 ∷ [];
  pending = allowed_entry 4002 0 ∷ [];
  lbl = 3;
}

-- Seven bytes of each connection.
abbrev seven : Conn → ℕ
seven c = 7

answers-run_clean_example :
    answers
      (run_clean state 10).0
      (run_clean state 10).1
      (map (λ a. seven a.conn) (reverse state.allowed))
    ≡ ended seven (expire state 10) (used seven state.allowed) (any (is_stale seven) state.allowed)
unfolding same_conn eq_text text_eq eq_port contains
answers-run_clean_example =
    answers-run_clean seven state 10 (refl, (refl, tt)) (omega arith, (omega arith, tt))
