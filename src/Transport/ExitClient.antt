-- ===== src/Transport/ExitClient.antt =====
-- crates/transport/src/exit_client.rs: the packets that `subscribe` takes out of the stream of an exit
-- node. The requests themselves are the package `reqwest`'s; what it delivers is a list of chunks,
-- each with the address at which the buffer starts when the chunk is in it.
pub mod Chunks
pub mod Cuts
pub mod Aligned
use apfsds_rs.Base.{
  ℕ, zero, suc, ◌+◌, ◌≡◌, Bool, true, false, List, [], ◌∷◌, ◌++◌, Option, none, some, and_then,
  length, take, drop, ltb, if◌then◌else◌,
}
use apfsds_rs.Base.Words.{from_le_bytes}
use apfsds_rs.Protocol.Packet.{PlainPacket}

-- One frame off the buffer: its payload and what is left, or `none` to wait for more data.
unfoldable pub next_frame : List ℕ → Option (List ℕ × List ℕ)
next_frame buffer =
    if ltb (length buffer) 4
    then none
    else (let len = from_le_bytes (take 4 buffer) in
        if ltb (length buffer) (4 + len)
        then none
        else some (take len (drop 4 buffer), drop len (drop 4 buffer)))

-- A slice: the address where it starts, and its bytes.
abbrev pub Slice : Type 0
Slice = ℕ × List ℕ

-- The inner loop on a buffer that starts at an address: the payloads in order, which lie where they
-- are in the buffer, since `advance` and `split_to` move nothing; and the bytes that are left. A
-- round takes four bytes at least, so one more round than there are bytes is enough, and `none`
-- otherwise.
unfoldable pub process : ℕ → ℕ → List ℕ → Option (List Slice × List ℕ)
process zero address buffer = none
process (suc fuel) address buffer = elim (next_frame buffer) [
  | none ↦ some ([], buffer)
  | some (payload, rest) ↦
      and_then (process fuel (address + 4 + length payload) rest)
        λ r. some ((address + 4, payload) ∷ r.0, r.1)
]

-- `rkyv::from_bytes`, which looks at the address too: what it reads is dispatched, the rest is only
-- logged.
abbrev pub if_ok : Option PlainPacket → List PlainPacket → List PlainPacket
if_ok none rest = rest
if_ok (some packet) rest = packet ∷ rest

unfoldable pub dispatched : (ℕ → List ℕ → Option PlainPacket) → List Slice → List PlainPacket
dispatched from_bytes [] = []
dispatched from_bytes ((address, payload) ∷ payloads) =
    if_ok (from_bytes address payload) (dispatched from_bytes payloads)

-- A chunk behind the buffer, and the address of the buffer then, which is the allocator's: to make
-- room, `extend_from_slice` may move the buffer.
unfoldable pub receive : List ℕ → Slice → Option (List Slice × List ℕ)
receive buffer (address, chunk) = process (suc (length (buffer ++ chunk))) address (buffer ++ chunk)

-- The loop over the chunks of a response.
unfoldable pub receive_all : List ℕ → List Slice → Option (List Slice × List ℕ)
receive_all buffer [] = some ([], buffer)
receive_all buffer (chunk ∷ chunks) =
    and_then (receive buffer chunk)
      λ r. and_then (receive_all r.1 chunks) λ q. some (r.0 ++ q.0, q.1)

-- A whole response: the packets that are dispatched, and the bytes that are left.
unfoldable pub stream :
    (ℕ → List ℕ → Option PlainPacket) → List Slice → Option (List PlainPacket × List ℕ)
stream from_bytes chunks =
    and_then (receive_all [] chunks) λ r. some (dispatched from_bytes r.0, r.1)
