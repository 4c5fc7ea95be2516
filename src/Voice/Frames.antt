-- ===== src/Voice/Frames.antt =====
-- The length-prefixed frames of the CELT and Speex payloads.
use rust_mumble_protocol.Base.{ℕ, zero, suc, ◌+◌, ◌%◌, ◌^◌, ◌<◌, ◌≡◌, sym, ap, ap₂, ◌∙◌, arith}
use rust_mumble_protocol.Base.{
  bit_or, bit_or-shift, List, [], ◌∷◌, ◌++◌, append_assoc, append-nil, All, Bytes, IsBytes,
}
use rust_mumble_protocol.Base.{
  length, length-append, take, drop, take-append_length, drop-append_length, take-append-drop,
  length-take, length-drop,
}
use rust_mumble_protocol.Base.{Result, ok, err, IoError, unexpected_eof, IsBytes-drop}
use rust_mumble_protocol.Varint.Masks.{low_seven, top_bits}
use rust_mumble_protocol.Voice.{read_frames, put_frames}
use mathlib.Core.Path.{subst}
use native.Mathlib.Decide.{dec_lt}
use native.Mathlib.Nat.{zero-add}

-- The length of a frame must fit the seven bits that its header has for it.
abbrev pub IsFrame : Bytes → Type 0
IsFrame frame = length frame < 128

abbrev continues : List Bytes → ℕ
continues [] = 0
continues (f ∷ fs) = 128

-- The frames as bytes: each behind its length, plus 128 where another one follows.
abbrev pub frames_bytes : List Bytes → Bytes
frames_bytes [] = []
frames_bytes (f ∷ fs) = (continues fs + length f) ∷ (f ++ frames_bytes fs)

header-eq :
    (f : Bytes) (fs : List Bytes)
    → IsFrame f
    → bit_or (continues fs) (length f % 2 ^ 8) ≡ continues fs + length f
header-eq f [] h = bit_or-shift 7 0 (length f % 2 ^ 8) (omega arith) ∙ omega arith
header-eq f (g ∷ fs) h = bit_or-shift 7 1 (length f % 2 ^ 8) (omega arith) ∙ omega arith

pub put_frames-frames_bytes :
    (fs : List Bytes) (dst : Bytes) → All IsFrame fs → put_frames fs dst ≡ dst ++ frames_bytes fs
unfolding put_frames
put_frames-frames_bytes [] dst h = sym (append-nil dst)
put_frames-frames_bytes (f ∷ fs) dst (hf, h) =
    put_frames-frames_bytes fs _ h
    ∙ append_assoc dst (bit_or (continues fs) (length f % 2 ^ 8) ∷ f) (frames_bytes fs)
    ∙ ap (λ t. dst ++ (t ∷ (f ++ frames_bytes fs))) (header-eq f fs hf)

-- One round on a header `c + length f`, `c` being 0 or 128.
read_frames-last :
    (fuel : ℕ) (acc : List Bytes) (f rest : Bytes)
    → IsFrame f
    → read_frames (suc fuel) acc (length f ∷ (f ++ rest)) ≡ (ok (acc ++ (f ∷ [])), rest)
unfolding read_frames
read_frames-last fuel acc f rest h = ground (
  arith,
  low_seven (length f),
  top_bits (length f),
  length-append f rest,
  take-append_length f rest,
  drop-append_length f rest,
)

read_frames-next :
    (fuel : ℕ) (acc : List Bytes) (f rest : Bytes)
    → IsFrame f
    → read_frames (suc fuel) acc ((128 + length f) ∷ (f ++ rest))
      ≡ read_frames fuel (acc ++ (f ∷ [])) rest
unfolding read_frames
read_frames-next fuel acc f rest h = ground (
  arith,
  low_seven (128 + length f),
  top_bits (128 + length f),
  length-append f rest,
  take-append_length f rest,
  drop-append_length f rest,
)

-- The loop reads frames back from their bytes and leaves what follows.
pub read_frames-frames_bytes :
    (f : Bytes) (fs : List Bytes) (fuel : ℕ) (acc : List Bytes) (rest : Bytes)
    → All IsFrame (f ∷ fs)
    → length fs < fuel
    → read_frames fuel acc (frames_bytes (f ∷ fs) ++ rest) ≡ (ok (acc ++ (f ∷ fs)), rest)
read_frames-frames_bytes f fs zero acc rest h enough = absurd (omega arith)
read_frames-frames_bytes f [] (suc fuel) acc rest (hf, h) enough =
    ap (λ t. read_frames (suc fuel) acc (t ∷ ((f ++ []) ++ rest))) (omega arith)
    ∙ ap (λ t. read_frames (suc fuel) acc (length f ∷ t)) (append_assoc f [] rest)
    ∙ read_frames-last fuel acc f rest hf
read_frames-frames_bytes f (g ∷ fs) (suc fuel) acc rest (hf, h) enough =
    ap (λ t. read_frames (suc fuel) acc ((128 + length f) ∷ t))
      (append_assoc f (frames_bytes (g ∷ fs)) rest)
    ∙ read_frames-next fuel acc f (frames_bytes (g ∷ fs) ++ rest) hf
    ∙ read_frames-frames_bytes g fs fuel (acc ++ (f ∷ [])) rest h (omega arith)
    ∙ ap (λ t. (ok t, rest)) (append_assoc acc (f ∷ []) (g ∷ fs))

-- What the loop does on any source: it reads frames that are there, or finds the source cut.
pub data Framed (acc : List Bytes) (src : Bytes)
    : Result (List Bytes) IoError × Bytes → Type 0 where
  complete :
      (f : Bytes) (fs : List Bytes) {rest : Bytes}
      → All IsFrame (f ∷ fs)
      → src ≡ frames_bytes (f ∷ fs) ++ rest
      → Framed acc src (ok (acc ++ (f ∷ fs)), rest)
  cut : {rest : Bytes} → Framed acc src (err unexpected_eof, rest)

read_frames_short :
    (fuel : ℕ) (acc : List Bytes) (b : ℕ) (src : Bytes)
    → length src < b % 128
    → read_frames (suc fuel) acc (b ∷ src) ≡ (err unexpected_eof, src)
unfolding read_frames
read_frames_short fuel acc b src h = ground (arith, low_seven b)

Framed-cons :
    {acc : List Bytes} (f : Bytes) {src rest : Bytes} {r : Result (List Bytes) IoError × Bytes}
    → IsFrame f
    → src ≡ (128 + length f) ∷ (f ++ rest)
    → Framed (acc ++ (f ∷ [])) rest r
    → Framed acc src r
Framed-cons {acc} f {src} {rest} hf e (complete g gs {rest = left} h split) =
    subst (λ t. Framed acc src (ok t, left)) (sym (append_assoc acc (f ∷ []) (g ∷ gs)))
      (complete f (g ∷ gs) (hf, h) (e ∙ ap (λ t. (128 + length f) ∷ t) regrouped))
  where
    regrouped : f ++ rest ≡ (f ++ frames_bytes (g ∷ gs)) ++ left
    regrouped = ap (◌++◌ f) split ∙ sym (append_assoc f (frames_bytes (g ∷ gs)) left)
Framed-cons f hf e cut = cut

pub read_frames-Framed :
    (fuel : ℕ) (acc : List Bytes) (src : Bytes)
    → IsBytes src
    → length src < fuel
    → Framed acc src (read_frames fuel acc src)
read_frames-Framed zero acc src h enough = absurd (omega arith)
read_frames-Framed (suc fuel) acc [] h enough = unfold read_frames in cut
read_frames-Framed (suc fuel) acc (b ∷ src) (hb, h) enough =
    let n = b % 128 in
    let f = take n src in
    let rest = drop n src in
    let later =
      read_frames-Framed fuel (acc ++ (f ∷ [])) rest (IsBytes-drop n src h)
        (omega (arith, length-drop n src)) in
    elim (dec_lt (length src) n) [
      | yes short ↦ subst (Framed acc (b ∷ src)) (sym (read_frames_short fuel acc b src short)) cut
      | no whole ↦ elim (dec_lt b 128) [
        | yes last ↦
            let size : length f ≡ b = omega (arith, length-take n src) in
            let split : b ∷ src ≡ length f ∷ (f ++ rest) =
              ap₂ ◌∷◌ (sym size) (sym (take-append-drop n src)) in
            subst (Framed acc (b ∷ src))
              (sym (
                ap (read_frames (suc fuel) acc) split
                ∙ read_frames-last fuel acc f rest (omega arith)))
              (complete f [] (omega arith, tt)
                (split
                  ∙ ap₂ (λ t u. t ∷ (u ++ rest)) (sym (zero-add (length f))) (sym (append-nil f))))
        | no more ↦
            let size : 128 + length f ≡ b = omega (arith, length-take n src) in
            let split : b ∷ src ≡ (128 + length f) ∷ (f ++ rest) =
              ap₂ ◌∷◌ (sym size) (sym (take-append-drop n src)) in
            subst (Framed acc (b ∷ src))
              (sym (
                ap (read_frames (suc fuel) acc) split
                ∙ read_frames-next fuel acc f rest (omega arith)))
              (Framed-cons f (omega arith) split later)
      ]
    ]
