-- ===== src/Tests/Config.antt =====
-- The configuration and the emergency monitor at concrete values.
use apfsds_rs.Base.{
  ℕ, String, ◌+◌, ◌≤◌, max, ◌≡◌, refl, true, false, List, [], ◌∷◌, none, some, and_then, Result, ok,
  err,
}
use apfsds_rs.Daemon.Config.{
  ExitNodeConfig, DaemonConfig, default_daemon, default_raft, contains, merge, merge_nodes,
  merge_node,
}
use apfsds_rs.Daemon.Config.Nodes.{route, named}
use apfsds_rs.Daemon.Config.Merge.{merge-route, merge-default}
use apfsds_rs.Daemon.Emergency.{Round, default_config, new, start, first_warning, due, start-due}

abbrev node : String → String → ExitNodeConfig
node name endpoint = record {
  name = name;
  endpoint = endpoint;
  weight = 1;
  location = none;
  group_id = 0;
}

abbrev old : DaemonConfig
old = record default_daemon {
  exit_nodes = node "n1" "1.1.1.1" ∷ [];
  raft = record default_raft { peers = "p1" ∷ [] };
}

abbrev other : DaemonConfig
other = record default_daemon {
  exit_nodes = node "n1" "2.2.2.2" ∷ node "n2" "3.3.3.3" ∷ [];
  raft = record default_raft { peers = "p2" ∷ "p1" ∷ [] };
}

merge-route_example :
    (route "n1" (merge old other).exit_nodes ≡ some ("2.2.2.2", 1, 0))
    × (named "n1" (merge old other).exit_nodes ≤ max 1 1)
    × (contains "n1" (merge old other).raft.peers ≡ false)
merge-route_example = merge-route old other "n1"

merged : merge_nodes (old.exit_nodes) (other.exit_nodes) ≡ other.exit_nodes
unfolding merge_nodes merge_node
merged = refl

unmerged :
    (merge old default_daemon ≡ old)
    × ((merge old other).storage ≡ old.storage)
    × ((merge old other).raft.election_timeout ≡ (150, 300))
    × ((merge old other).raft.heartbeat_interval ≡ 50)
    × ((merge old other).security.grace_period ≡ 600)
    × ((merge old other).security.fallback_target ≡ "cn.bing.com")
    × ((merge old other).security.enable_reverse_proxy ≡ true)
    × ((merge old other).server.reverse_mode ≡ false)
    × ((merge old other).server.handler_endpoint ≡ none)
    × ((merge old other).server.preferred_group_id ≡ none)
    × ((merge old other).monitoring.prometheus_enabled ≡ true)
unmerged = merge-default old other

abbrev at : ℕ → Result (List ℕ) (List String) → Round
at time versions = record {
  checked_at = time;
  versions = versions;
  triggers_at = time + 1;
  delay = 500;
}

-- A warning in the second round; the check that ends the loop is the fourth.
abbrev rounds : List Round
rounds =
    at 300 (err [])
    ∷ at 600 (ok ("0.1.0" ∷ "0.0.0-EMERGENCY.1" ∷ []))
    ∷ at 900 (ok [])
    ∷ at 1200 (ok [])
    ∷ []

start-due_example :
    (start (new default_config) rounds).1 ≡ and_then (first_warning default_config rounds) due
unfolding new
start-due_example = start-due (new default_config) rounds refl

due_value : and_then (first_warning default_config rounds) due ≡ some 1200
due_value = refl
