-- ===== src/Daemon/Handler/Register/Agreement.antt =====
-- The handler and an exit node agree on the group, daemon/src/handler.rs with
-- daemon/src/exit_node.rs.
use apfsds_rs.Base.{ℕ, Option, none, some, ◌==◌, if◌then◌else◌}
use apfsds_rs.Base.Maps.{nat_eq}
use apfsds_rs.Base.Rkyv.{Rkyv}
use apfsds_rs.Daemon.ExitNodePool.{ExitNodePool}

-- The group of an exit node: its preference among the three groups, and otherwise group 1.
abbrev pub agreed : Option ℕ → ℕ
agreed none = 1
agreed (some id) = if id == 0 then 0 else if id == 2 then 2 else 1
