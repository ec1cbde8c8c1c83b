-- ===== src/Daemon/Config/Merge.antt =====
-- What a configuration is after another one has been merged into it.
use mathlib.Core.Bool.{false≢true}
use apfsds_rs.Base.{
  String, text_eq, text_eq_iff, ◌≤◌, max, ◌≡◌, refl, ap, sym, ◌∙◌, Bool, true, false, ◌||◌, List,
  [], ◌∷◌, ◌++◌, if◌then◌else◌,
}
use apfsds_rs.Daemon.Config.{
  DaemonConfig, default_daemon, contains, merge_server, merge_peers, merge_raft, merge_nodes,
  merge_security, merge,
}
use apfsds_rs.Daemon.Config.Nodes.{route, last_route, named, route-merge_nodes, named-merge_nodes}

or_assoc : (a b c : Bool) → ((a || b) || c) ≡ (a || (b || c))
or_assoc true b c = refl
or_assoc false b c = refl

contains-append :
    (p q : String) (peers : List String)
    → contains p (peers ++ (q ∷ [])) ≡ (contains p peers || text_eq q p)
contains-append p q [] = by_flag (text_eq q p)
  where
    by_flag : (b : Bool) → (if b then true else false) ≡ b
    by_flag true = refl
    by_flag false = refl
contains-append p q (r ∷ peers) = by_flag (text_eq r p) (contains-append p q peers)
  where
    by_flag :
        (b : Bool)
        → contains p (peers ++ (q ∷ [])) ≡ (contains p peers || text_eq q p)
        → (if b then true else contains p (peers ++ (q ∷ [])))
          ≡ ((if b then true else contains p peers) || text_eq q p)
    by_flag true e = refl
    by_flag false e = e

if_or : (b c : Bool) → (if b then true else c) ≡ (b || c)
if_or true c = refl
if_or false c = refl

absorbed : (b c : Bool) → (c ≡ true → b ≡ true) → b ≡ (b || c)
absorbed true c e = refl
absorbed false true e = e refl
absorbed false false e = refl

contains-merge_peers :
    (p : String) (peers others : List String)
    → contains p (merge_peers peers others) ≡ (contains p peers || contains p others)
unfolding merge_peers
contains-merge_peers p peers [] = absorbed (contains p peers) false (λ e. absurd (false≢true e))
contains-merge_peers p peers (q ∷ others) =
    contains-merge_peers p (if contains q peers then peers else peers ++ (q ∷ [])) others
    ∙ ap (λ (b : Bool). b || contains p others) (added (contains q peers) refl)
    ∙ or_assoc (contains p peers) (text_eq q p) (contains p others)
    ∙ ap (λ (b : Bool). contains p peers || b) (sym (if_or (text_eq q p) (contains p others)))
  where
    added :
        (b : Bool)
        → contains q peers ≡ b
        → contains p (if b then peers else peers ++ (q ∷ [])) ≡ (contains p peers || text_eq q p)
    added true there =
        absorbed (contains p peers) (text_eq q p)
          (λ e. ap (λ (x : String). contains x peers) (sym ((text_eq_iff q p).0 e)) ∙ there)
    added false missing = contains-append p q peers

-- After a merge, a node's endpoint, weight and group are those of the last node of its name in the
-- new configuration, or the old ones where that has none; no name becomes ambiguous that was not;
-- and the peers are those of both.
pub merge-route :
    (c o : DaemonConfig) (name : String)
    → (route name (merge c o).exit_nodes ≡ last_route name o.exit_nodes (route name c.exit_nodes))
      × (named name (merge c o).exit_nodes ≤ max 1 (named name c.exit_nodes))
      × (contains name (merge c o).raft.peers
          ≡ (contains name c.raft.peers || contains name o.raft.peers))
unfolding merge merge_raft
merge-route c o name = (
  route-merge_nodes name c.exit_nodes o.exit_nodes,
  named-merge_nodes name c.exit_nodes o.exit_nodes,
  contains-merge_peers name c.raft.peers o.raft.peers,
)

-- Whatever the new configuration says of the storage, the timeouts of Raft, the grace period, the
-- fallback, the reverse mode or the metrics' switch, the old values stay; and a new configuration
-- that differs from the defaults in nothing else changes nothing.
pub merge-default :
    (c o : DaemonConfig)
    → (merge c default_daemon ≡ c)
      × ((merge c o).storage ≡ c.storage)
      × ((merge c o).raft.election_timeout ≡ c.raft.election_timeout)
      × ((merge c o).raft.heartbeat_interval ≡ c.raft.heartbeat_interval)
      × ((merge c o).security.grace_period ≡ c.security.grace_period)
      × ((merge c o).security.fallback_target ≡ c.security.fallback_target)
      × ((merge c o).security.enable_reverse_proxy ≡ c.security.enable_reverse_proxy)
      × ((merge c o).server.reverse_mode ≡ c.server.reverse_mode)
      × ((merge c o).server.handler_endpoint ≡ c.server.handler_endpoint)
      × ((merge c o).server.preferred_group_id ≡ c.server.preferred_group_id)
      × ((merge c o).monitoring.prometheus_enabled ≡ c.monitoring.prometheus_enabled)
unfolding merge merge_raft merge_server merge_security merge_nodes merge_peers
merge-default c o = (refl, refl, refl, refl, refl, refl, refl, refl, refl, refl, refl)
