-- ===== src/Transport/ExitClient/Cuts.antt =====
-- How the network cuts a stream does not change the payloads that come out of it.
use apfsds_rs.Base.{
  ℕ, zero, suc, ◌+◌, ◌^◌, ◌≤◌, ◌<◌, ◌≡◌, refl, ap, ap₂, sym, ◌∙◌, List, [], ◌∷◌, ◌++◌, append-nil,
  append_assoc, none, some, some_injective, none_ne_some, arith, All, length, length-drop, take,
  drop, Option-cases, inl, inr,
}
use apfsds_rs.Base.Words.{from_le_bytes}
use apfsds_rs.Transport.ExitClient.{Slice, next_frame, process, receive, receive_all}
use apfsds_rs.Transport.ExitClient.Chunks.{
  next_frame-append, nothing_waits, process_waits, process_next, frame, frames, next_frame-frame,
  bytes_of,
}

next_frame-shorter :
    (b p rest : List ℕ) → next_frame b ≡ some (p, rest) → length rest + 4 ≤ length b
unfolding next_frame
next_frame-shorter b p rest e =
    ground (arith, length-drop 4 b, length-drop (from_le_bytes (take 4 b)) (drop 4 b))

-- The payloads of slices.
abbrev pub payloads_of : List Slice → List (List ℕ)
payloads_of [] = []
payloads_of ((address, payload) ∷ slices) = payload ∷ payloads_of slices

payloads_of-append :
    (xs ys : List Slice) → payloads_of (xs ++ ys) ≡ payloads_of xs ++ payloads_of ys
payloads_of-append [] ys = refl
payloads_of-append ((address, payload) ∷ xs) ys = ap (◌∷◌ payload) (payloads_of-append xs ys)

-- What a buffer `x` gives that is, with `y` behind it, some frames: the first of them, whole.
abbrev Front : ℕ → ℕ → List ℕ → List ℕ → List (List ℕ) → Type 0
Front n address x y ps =
    (slices : List Slice) × (rest : List ℕ) × (later : List (List ℕ)) × (process n address x
      ≡ some (slices, rest))
    × (ps ≡ payloads_of slices ++ later)
    × (rest ++ y ≡ frames later)
    × (next_frame rest ≡ none)
    × All (λ p. length p < 2 ^ 32) later

Front-next :
    (n address : ℕ) (x y q r p : List ℕ) (ps : List (List ℕ))
    → next_frame x ≡ some (q, r)
    → q ≡ p
    → Front n (address + 4 + length q) r y ps
    → Front (suc n) address x y (p ∷ ps)
Front-next n address x y q r p ps e same (slices, rest, later, done, split, left, waits, small) = (
  (address + 4, q) ∷ slices,
  rest,
  later,
  process_next n address x q r e ∙ rw done refl,
  ap₂ (◌∷◌) (sym same) split,
  left,
  waits,
  small,
)

process-Front :
    (n address : ℕ) (x y : List ℕ) (ps : List (List ℕ))
    → length x < n
    → x ++ y ≡ frames ps
    → All (λ p. length p < 2 ^ 32) ps
    → Front n address x y ps
process-Front zero address x y ps h cut small = absurd (omega arith)
process-Front (suc n) address x y [] h cut small = elim (Option-cases (next_frame x)) [
  | inl waits ↦ ([], x, [], process_waits n address x waits, refl, cut, waits, tt)
  | inr ((q, r), e) ↦ absurd (
      none_ne_some (q, r ++ y)
        (sym nothing_waits ∙ ap next_frame (sym cut) ∙ next_frame-append x y q r e))
]
process-Front (suc n) address x y (p ∷ ps) h cut (s, small) = elim (Option-cases (next_frame x)) [
  | inl waits ↦ ([], x, p ∷ ps, process_waits n address x waits, refl, cut, waits, (s, small))
  | inr ((q, r), e) ↦
      let shorter : length r + 4 ≤ length x = next_frame-shorter x q r e in
      let whole : (q, r ++ y) ≡ (p, frames ps) =
        some_injective (q, r ++ y) (p, frames ps)
          (sym (next_frame-append x y q r e)
            ∙ ap next_frame cut
            ∙ next_frame-frame p (frames ps) s) in
      Front-next n address x y q r p ps e (ap (λ (t : List ℕ × List ℕ). t.0) whole) (
        process-Front n (address + 4 + length q) r y ps (omega arith)
          (ap (λ (t : List ℕ × List ℕ). t.1) whole) small)
]

-- However frames are cut into chunks, and wherever the buffer is: what comes out are their payloads.
pub receive_all-frames :
    (b : List ℕ) (chunks : List Slice) (ps : List (List ℕ))
    → next_frame b ≡ none
    → b ++ bytes_of chunks ≡ frames ps
    → All (λ p. length p < 2 ^ 32) ps
    → (slices : List Slice) × (receive_all b chunks ≡ some (slices, [])) × (payloads_of slices ≡ ps)
unfolding receive_all receive
receive_all-frames b [] [] waits cut small =
    ([], ap (λ (x : List ℕ). some ([], x)) (sym (append-nil b) ∙ cut), refl)
receive_all-frames b [] (p ∷ ps) waits cut (s, small) = absurd (
    none_ne_some _
      (sym waits ∙ ap next_frame (sym (append-nil b) ∙ cut) ∙ next_frame-frame p (frames ps) s))
receive_all-frames b ((address, chunk) ∷ chunks) ps waits cut small =
    let (slices, rest, later, done, split, left, waits', small') =
      process-Front (suc (length (b ++ chunk))) address (b ++ chunk) (bytes_of chunks) ps
        (omega arith) (append_assoc b chunk (bytes_of chunks) ∙ cut) small in
    let (slices', done', held) = receive_all-frames rest chunks later waits' left small' in
    (
      slices ++ slices',
      rw (done, done') refl,
      payloads_of-append slices slices' ∙ ap (◌++◌ (payloads_of slices)) held ∙ sym split,
    )

pub frames-append : (ps qs : List (List ℕ)) → frames (ps ++ qs) ≡ frames ps ++ frames qs
frames-append [] qs = refl
frames-append (p ∷ ps) qs =
    ap (◌++◌ (frame p)) (frames-append ps qs) ∙ sym (append_assoc (frame p) (frames ps) (frames qs))
