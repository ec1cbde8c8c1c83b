-- ===== src/Daemon/ExitNode/Delivery.antt =====
-- The stream of an exit node and the handler that reads it, daemon/src/exit_node.rs with
-- crates/transport/src/exit_client.rs.
use apfsds_rs.Base.{
  All-append, ℕ, ◌^◌, ◌<◌, ◌≡◌, refl, sym, ◌∙◌, ap, ap₂, some_injective, none_ne_some, Bool, true,
  false, List, [], ◌∷◌, ◌++◌, Option, none, some, ok, and_then, arith, length, All, ◌==◌,
  if◌then◌else◌,
}
use mathlib.Core.Path.{subst}
use native.Mathlib.Nat.{mod-eq_of_lt}
use apfsds_rs.Base.Maps.{DashMap, bytes_eq, nat_eq}
use apfsds_rs.Base.Rkyv.{Rkyv, AlignsTo}
use apfsds_rs.Base.Words.{to_le_bytes}
use apfsds_rs.Protocol.Packet.{PlainPacket, response}
use apfsds_rs.Transport.ExitClient.{Slice, dispatched, receive_all, stream}
use apfsds_rs.Transport.ExitClient.Chunks.{
  concat, frame, frames, placed, receive-frames, bytes_of, nothing_waits,
}
use apfsds_rs.Transport.ExitClient.Aligned.{
  kept, readable, Archives, Archives-append, length-Archives, dispatched-placed, dispatched_behind,
  dispatched-kept,
}
use apfsds_rs.Transport.ExitClient.Cuts.{payloads_of, receive_all-frames, frames-append}
use apfsds_rs.Daemon.ExitNode.{RouteEntry, Etherparse, Service, wrap, return_packet}

-- One batch after another: the address at which the handler's buffer starts when the frames of the
-- batch are in it, and the packets of the TUN device.
abbrev pub Batch : Type 0
Batch = ℕ × List (List ℕ)

-- The frames that a channel gets, of all that is sent.
abbrev pub on_channel : ℕ → List (Option (ℕ × List ℕ)) → List (List ℕ)
on_channel channel [] = []
on_channel channel (none ∷ sent) = on_channel channel sent
on_channel channel (some (c, f) ∷ sent) =
    let rest = on_channel channel sent in if c == channel then f ∷ rest else rest

module _ (routes : DashMap (List ℕ) RouteEntry) (streams : DashMap ℕ ℕ) (parse : Etherparse)
    (crc32 : List ℕ → ℕ) (rkyv : Rkyv PlainPacket) (s : Service routes streams) where
  -- What the TUN device delivers, one packet after another: all that is sent.
  abbrev pub return_all : List (List ℕ) → List (Option (ℕ × List ℕ))
  return_all [] = []
  return_all (p ∷ ps) = return_packet routes streams parse crc32 rkyv s p ∷ return_all ps

  -- The channel and the response that a packet from the TUN device is for.
  abbrev pub routed : List ℕ → Option (ℕ × PlainPacket)
  routed p = and_then (parse.destination p) λ dst. and_then (routes.get dst s.route_map) λ route.
      and_then (streams.get route.handler_id s.handler_streams)
        λ sender. some (sender, response crc32 route.conn_id route.handler_id p)

  abbrev onto : ℕ → Option (ℕ × PlainPacket) → List PlainPacket → List PlainPacket
  onto channel none rest = rest
  onto channel (some (c, p)) rest = if c == channel then p ∷ rest else rest

  abbrev pub responses : ℕ → List (List ℕ) → List PlainPacket
  responses channel [] = []
  responses channel (p ∷ ps) = onto channel (routed p) (responses channel ps)

  -- A packet that is serialised to less than 4 GiB.
  abbrev pub Fits : PlainPacket → Type 0
  Fits p = (bytes : List ℕ) × (rkyv.to_bytes p ≡ ok bytes) × (length bytes < 2 ^ 32)

  return_packet-routed :
      (p : List ℕ)
      → return_packet routes streams parse crc32 rkyv s p
        ≡ and_then (routed p) λ r. and_then (wrap (rkyv.to_bytes (r.1))) λ f. some (r.0, f)
  unfolding return_packet
  return_packet-routed p = ground arith

  -- Payloads that, framed, are the bytes `sent`, and that hold `packets`.
  abbrev Carries : List ℕ → List PlainPacket → Type 0
  Carries sent packets =
      (payloads : List (List ℕ)) × (sent ≡ frames payloads)
      × All (λ (p : List ℕ). length p < 2 ^ 32) payloads
      × Archives rkyv payloads packets

  carried_once :
      (p : PlainPacket) (f sent : List ℕ) (rest : List PlainPacket)
      → Fits p
      → wrap (rkyv.to_bytes p) ≡ some f
      → Carries sent rest
      → Carries (f ++ sent) (p ∷ rest)
  unfolding wrap
  carried_once p f sent rest (bytes, written, small) wrapped (payloads, e, smalls, held) =
      let whole : frame bytes ≡ f =
        ap (λ (n : ℕ). to_le_bytes 4 n ++ bytes) (sym (mod-eq_of_lt small))
        ∙ some_injective _ f (ap wrap (sym written) ∙ wrapped) in
      (bytes ∷ payloads, ap₂ (◌++◌) (sym whole) e, (small, smalls), (written, held))

  -- `o` is what is routed, and `w` its frame.
  abbrev sent_by : Option (ℕ × PlainPacket) → Option (ℕ × List ℕ)
  sent_by o = and_then o λ r. and_then (wrap (rkyv.to_bytes (r.1))) λ f. some (r.0, f)

  carried_next :
      (channel : ℕ) (sent : List (Option (ℕ × List ℕ))) (rest : List PlainPacket)
      (o : Option (ℕ × PlainPacket))
      → All Fits (onto channel o rest)
      → (All Fits rest → Carries (concat (on_channel channel sent)) rest)
      → Carries (concat (on_channel channel (sent_by o ∷ sent))) (onto channel o rest)
  unfolding wrap
  carried_next channel sent rest none fits later = later fits
  carried_next channel sent rest (some (c, q)) fits later =
      by_case (wrap (rkyv.to_bytes q)) (c == channel) refl refl fits
    where
      by_case :
          (w : Option (List ℕ)) (b : Bool)
          → wrap (rkyv.to_bytes q) ≡ w
          → (c == channel) ≡ b
          → All Fits (if b then q ∷ rest else rest)
          → Carries
              (concat (on_channel channel (and_then w (λ (f : List ℕ). some (c, f)) ∷ sent)))
              (if c == channel then q ∷ rest else rest)
      by_case none true e t (((bytes, written, small), fits)) =
          absurd (none_ne_some _ (sym e ∙ ap wrap written))
      by_case none false e t fits = rw t (later fits)
      by_case (some f) true e t (fit, fits) =
          rw t (carried_once q f (concat (on_channel channel sent)) rest fit e (later fits))
      by_case (some f) false e t fits = rw t (later fits)

  carries :
      (channel : ℕ) (ps : List (List ℕ))
      → All Fits (responses channel ps)
      → Carries (concat (on_channel channel (return_all ps))) (responses channel ps)
  carries channel [] fits = ([], refl, tt, tt)
  carries channel (p ∷ ps) fits = rw (return_packet-routed p) (
      carried_next channel (return_all ps) (responses channel ps) (routed p) fits
        (carries channel ps))

  abbrev pub chunks_of : ℕ → List Batch → List Slice
  chunks_of channel [] = []
  chunks_of channel ((address, ps) ∷ batches) =
      (address, concat (on_channel channel (return_all ps))) ∷ chunks_of channel batches

  abbrev pub read_of : ℕ → List Batch → List PlainPacket
  read_of channel [] = []
  read_of channel ((address, ps) ∷ batches) =
      readable address (responses channel ps) ++ read_of channel batches

  abbrev pub responses_of : ℕ → List Batch → List PlainPacket
  responses_of channel [] = []
  responses_of channel ((address, ps) ∷ batches) =
      responses channel ps ++ responses_of channel batches

  Carries-all :
      (channel : ℕ) (batches : List Batch)
      → All (λ (batch : Batch). All Fits (responses channel batch.1)) batches
      → Carries (bytes_of (chunks_of channel batches)) (responses_of channel batches)
  Carries-all channel [] fits = ([], refl, tt, tt)
  Carries-all channel ((address, ps) ∷ batches) (fit, fits) =
      let (bs, e, small, held) = carries channel ps fit in
      let (cs, e', small', held') = Carries-all channel batches fits in
      (
        bs ++ cs,
        ap₂ (◌++◌) e e' ∙ sym (frames-append bs cs),
        All-append (λ (p : List ℕ). length p < 2 ^ 32) bs cs small small',
        Archives-append rkyv bs cs (responses channel ps) (responses_of channel batches) held held',
      )

  module _ (from_bytes : ℕ → List ℕ → Option PlainPacket)
      (aligned : AlignsTo 8 rkyv from_bytes) where
    stream-batches :
        (channel : ℕ) (batches : List Batch)
        → All (λ (batch : Batch). All Fits (responses channel batch.1)) batches
        → stream from_bytes (chunks_of channel batches) ≡ some (read_of channel batches, [])
    unfolding stream receive_all dispatched
    stream-batches channel [] fits = refl
    stream-batches channel ((address, ps) ∷ batches) (fit, fits) =
        let (payloads, framed, small, held) = carries channel ps fit in
        rw (framed, receive-frames address payloads small)
          (dispatched_behind rkyv from_bytes aligned (placed address payloads)
              (receive_all [] (chunks_of channel batches))
            ∙ rw
                (
                  stream-batches channel batches fits,
                  dispatched-placed rkyv from_bytes aligned address payloads (responses channel ps)
                      held,
                )
                refl)

    -- The handler reads a stream of an exit node, where the responses are serialised to less than
    -- 4 GiB each, and rkyv reads an archive exactly where it starts at a multiple of 8. However the
    -- network cuts the stream into chunks, and wherever the buffer is, a slice is taken out for each
    -- packet whose route leads to this stream, in the order in which the packets came, and no byte is
    -- left; but the responses that are dispatched are those whose slice starts at a multiple of 8, and
    -- the others are lost. Of frames that arrive together, in a buffer that starts at a multiple of
    -- 8, that is every second one, from the second on; in one that starts 4 behind a multiple of 8
    -- every second one, from the first on; and in any other none.
    pub stream-responses :
        (channel : ℕ) (batches : List Batch) (chunks : List Slice)
        → All (λ (batch : Batch). All Fits (responses channel batch.1)) batches
        → bytes_of chunks ≡ bytes_of (chunks_of channel batches)
        → ((slices : List Slice) × (receive_all [] chunks ≡ some (slices, []))
            × (length slices ≡ length (responses_of channel batches))
            × (stream from_bytes chunks ≡ some (kept slices (responses_of channel batches), [])))
          × (stream from_bytes (chunks_of channel batches) ≡ some (read_of channel batches, []))
    unfolding stream
    stream-responses channel batches chunks fits cut =
        let (payloads, framed, small, held) = Carries-all channel batches fits in
        let (slices, taken, same) =
          receive_all-frames [] chunks payloads nothing_waits (cut ∙ framed) small in
        let held' : Archives rkyv (payloads_of slices) (responses_of channel batches) =
          subst (λ (bs : List (List ℕ)). Archives rkyv bs (responses_of channel batches)) (sym same)
            held in
        (
          (
            slices,
            taken,
            length-Archives rkyv slices (responses_of channel batches) held',
            rw taken (
                ap (λ (rs : List PlainPacket). some (rs, []))
                  (dispatched-kept rkyv from_bytes aligned slices (responses_of channel batches)
                    held')),
          ),
          stream-batches channel batches fits,
        )
