-- ===== src/Daemon/ExitForwarder.antt =====
-- daemon/src/exit_forwarder.rs: a client's frame on its way to an exit node.
use apfsds_rs.Base.{ℕ, List, Option, none, some, Result, ok, err, if◌then◌else◌}
use apfsds_rs.Protocol.Frame.{ProxyFrame}
use apfsds_rs.Protocol.Packet.{PlainPacket, from_frame}
use apfsds_rs.Transport.ExitPool.{ExitClientError, GroupPool, Reply}
use apfsds_rs.Transport.ExitPool

abbrev pub with_packet :
    PlainPacket → Result ExitClientError ℕ → Result ExitClientError (Option (ℕ × PlainPacket))
with_packet packet (ok index) = ok (some (index, packet))
with_packet packet (err e) = err e

-- The pool after it, and the node of the group that took the packet with the packet.
unfoldable pub forward :
    (ℕ → Reply)
    → ℕ
    → List (ℕ × GroupPool)
    → ProxyFrame
    → ℕ
    → List (ℕ × GroupPool) × Result ExitClientError (Option (ℕ × PlainPacket))
forward replies node_id pool frame group_id =
    let sent : List (ℕ × GroupPool) × Result ExitClientError ℕ =
      ExitPool.forward replies pool group_id in
    if frame.flags.is_control
    then (pool, ok none)
    else (sent.0, with_packet (from_frame frame node_id) sent.1)
