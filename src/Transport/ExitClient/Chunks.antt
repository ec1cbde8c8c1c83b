-- ===== src/Transport/ExitClient/Chunks.antt =====
-- What the frames of a stream become, where the buffer starts and however the network cuts them.
use apfsds_rs.Base.{
  ℕ, zero, suc, ◌+◌, ◌^◌, ◌<◌, ◌≡◌, refl, ap, sym, ◌∙◌, List, [], ◌∷◌, ◌++◌, append-nil,
  append_assoc, none, some, some_injective, and_then, arith, All, length, length-append,
  length-drop, take, drop, take-append, drop-append, take-append_short, drop-append_short,
  Option-cases, inl, inr,
}
use apfsds_rs.Base.Words.{to_le_bytes, from_le_bytes, length-to_le_bytes, from_le_bytes-to_le_bytes}
use apfsds_rs.Transport.ExitClient.{Slice, next_frame, process, receive, receive_all}

pub next_frame-append :
    (b c p rest : List ℕ)
    → next_frame b ≡ some (p, rest)
    → next_frame (b ++ c) ≡ some (p, rest ++ c)
unfolding next_frame
next_frame-append b c p rest e = ground (
  arith,
  length-append b c,
  length-drop 4 b,
  take-append_short 4 b c,
  drop-append_short 4 b c,
  take-append_short (from_le_bytes (take 4 b)) (drop 4 b) c,
  drop-append_short (from_le_bytes (take 4 b)) (drop 4 b) c,
)

pub nothing_waits : next_frame [] ≡ none
unfolding next_frame
nothing_waits = refl

pub process_waits :
    (n address : ℕ) (b : List ℕ) → next_frame b ≡ none → process (suc n) address b ≡ some ([], b)
unfolding process
process_waits n address b e = rw (e, process)

pub process_next :
    (n address : ℕ) (b p rest : List ℕ)
    → next_frame b ≡ some (p, rest)
    → process (suc n) address b
      ≡ and_then (process n (address + 4 + length p) rest) λ r. some ((address + 4, p) ∷ r.0, r.1)
unfolding process
process_next n address b p rest e = rw (e, process)

abbrev pub concat : List (List ℕ) → List ℕ
concat [] = []
concat (chunk ∷ chunks) = chunk ++ concat chunks

abbrev pub frame : List ℕ → List ℕ
frame payload = to_le_bytes 4 (length payload) ++ payload

abbrev pub frames : List (List ℕ) → List ℕ
frames [] = []
frames (payload ∷ payloads) = frame payload ++ frames payloads

next_frame_form :
    (header p rest : List ℕ)
    → length header ≡ 4
    → from_le_bytes header ≡ length p
    → next_frame (header ++ (p ++ rest)) ≡ some (p, rest)
unfolding next_frame
next_frame_form header p rest four len = ground (
  arith,
  length-append header (p ++ rest),
  length-append p rest,
  take-append 4 header (p ++ rest) (sym four),
  drop-append 4 header (p ++ rest) (sym four),
  take-append (length p) p rest refl,
  drop-append (length p) p rest refl,
)

pub next_frame-frame :
    (p rest : List ℕ) → length p < 2 ^ 32 → next_frame (frame p ++ rest) ≡ some (p, rest)
next_frame-frame p rest small =
    ap next_frame (append_assoc (to_le_bytes 4 (length p)) p rest)
    ∙ next_frame_form (to_le_bytes 4 (length p)) p rest (length-to_le_bytes 4 (length p))
        (from_le_bytes-to_le_bytes 4 (length p) (omega arith))

-- Where the payloads of frames lie, in a buffer that starts at an address.
abbrev pub placed : ℕ → List (List ℕ) → List Slice
placed address [] = []
placed address (p ∷ ps) = (address + 4, p) ∷ placed (address + 4 + length p) ps

length-frame : (p : List ℕ) → length (frame p) ≡ 4 + length p
length-frame p =
    length-append (to_le_bytes 4 (length p)) p
    ∙ ap (λ (n : ℕ). n + length p) (length-to_le_bytes 4 (length p))

process-frames :
    (n address : ℕ) (ps : List (List ℕ))
    → length (frames ps) < n
    → All (λ p. length p < 2 ^ 32) ps
    → process n address (frames ps) ≡ some (placed address ps, [])
process-frames zero address ps h small = absurd (omega arith)
process-frames (suc n) address [] h small = process_waits n address [] nothing_waits
process-frames (suc n) address (p ∷ ps) h (s, small) =
    let len : length (frames (p ∷ ps)) ≡ 4 + length p + length (frames ps) =
      length-append (frame p) (frames ps)
      ∙ ap (λ (n : ℕ). n + length (frames ps)) (length-frame p) in
    process_next n address (frame p ++ frames ps) p (frames ps) (next_frame-frame p (frames ps) s)
    ∙ rw (process-frames n (address + 4 + length p) ps (omega arith) small) refl

-- One chunk of whole frames.
pub receive-frames :
    (address : ℕ) (ps : List (List ℕ))
    → All (λ p. length p < 2 ^ 32) ps
    → receive [] (address, frames ps) ≡ some (placed address ps, [])
unfolding receive
receive-frames address ps small =
    process-frames (suc (length (frames ps))) address ps (omega arith) small

longer : (rest c : List ℕ) → length (rest ++ c) ≡ 0 → 0 < length c → ⊥
longer rest c left more = ground (arith, length-append rest c)

-- The bytes of a chunk that is not the last of a frame.
frame_waits :
    (b c p : List ℕ) → b ++ c ≡ frame p → 0 < length c → length p < 2 ^ 32 → next_frame b ≡ none
frame_waits b c p cut more small = elim (Option-cases (next_frame b)) [
  | inl waits ↦ waits
  | inr ((q, rest), e) ↦
      let whole : some (q, rest ++ c) ≡ some (p, []) =
        sym (next_frame-append b c q rest e)
        ∙ ap next_frame (cut ∙ sym (append-nil (frame p)))
        ∙ next_frame-frame p [] small in
      let left : length (rest ++ c) ≡ 0 =
        ap (λ (x : List ℕ × List ℕ). length (x.1)) (some_injective (q, rest ++ c) (p, []) whole) in
      absurd (longer rest c left more)
]

-- The bytes of chunks, one behind the other.
abbrev pub bytes_of : List Slice → List ℕ
bytes_of [] = []
bytes_of ((address, chunk) ∷ chunks) = chunk ++ bytes_of chunks

-- One frame, cut into pieces: its payload lies behind the four bytes of its length, where the buffer
-- starts when the last piece is in it.
pub receive_all-pieces :
    (b p : List ℕ) (pieces : List Slice) (address : ℕ) (last : List ℕ)
    → b ++ (bytes_of pieces ++ last) ≡ frame p
    → 0 < length last
    → length p < 2 ^ 32
    → receive_all b (pieces ++ ((address, last) ∷ [])) ≡ some ((address + 4, p) ∷ [], [])
unfolding receive_all receive
receive_all-pieces b p [] address last cut more small =
    let one : process (suc (length (frame p))) address (frame p)
        ≡ some ((address + 4, p) ∷ [], []) =
      ap (λ (x : List ℕ). process (suc (length x)) address x) (sym (append-nil (frame p)))
      ∙ process-frames (suc (length (frames (p ∷ [])))) address (p ∷ []) (omega arith)
          (small, tt) in
    rw (cut, one) refl
receive_all-pieces b p ((a, piece) ∷ pieces) address last cut more small =
    let cut' : (b ++ piece) ++ (bytes_of pieces ++ last) ≡ frame p =
      append_assoc b piece (bytes_of pieces ++ last)
      ∙ ap (◌++◌ b) (sym (append_assoc piece (bytes_of pieces) last))
      ∙ cut in
    let waits : next_frame (b ++ piece) ≡ none =
      frame_waits (b ++ piece) (bytes_of pieces ++ last) p cut'
        (ground (arith, length-append (bytes_of pieces) last)) small in
    rw
      (
        process_waits (length (b ++ piece)) a (b ++ piece) waits,
        receive_all-pieces (b ++ piece) p pieces address last cut' more small,
      )
      refl
