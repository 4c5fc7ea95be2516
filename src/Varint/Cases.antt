-- ===== src/Varint/Cases.antt =====
-- src/varint.rs, `read_varint`: for each first byte, what a read takes and leaves, or that it ends early.
use rust_mumble_protocol.Base.{ℕ, ◌≤◌, ◌<◌, ◌≡◌, refl, ap, ◌∙◌, arith, ◌⊎◌, inl, inr}
use rust_mumble_protocol.Base.{[], ◌∷◌, ◌++◌, Bytes, IsBytes, not64}
use rust_mumble_protocol.Base.{ok, err, unexpected_eof}
use rust_mumble_protocol.Varint.{read_varint, negate}
use rust_mumble_protocol.Varint.Format.{Encodes, fourteen, twenty_one, twenty_eight}
use rust_mumble_protocol.Varint.Format.{thirty_two, sixty_four, complement}
use rust_mumble_protocol.Varint.Read.{read_varint-wide, read-complement}
use rust_mumble_protocol.Varint.Read.{read-fourteen, fourteen_cut}
use rust_mumble_protocol.Varint.Read.{read-twenty_one, twenty_one_cut}
use rust_mumble_protocol.Varint.Read.{read-twenty_eight, twenty_eight_cut}
use rust_mumble_protocol.Varint.Read.{read-thirty_two, thirty_two_cut}
use rust_mumble_protocol.Varint.Read.{read-sixty_four, sixty_four_cut}
use native.Mathlib.Decide.{dec_lt}

-- A read that succeeded: what it took and what it left.
pub record Reads (src : Bytes) : Type 0 where
  pub value : ℕ
  pub rest : Bytes
  pub taken : Bytes
  pub reads : read_varint src ≡ ok (value, rest)
  pub splits : src ≡ taken ++ rest
  pub encodes : Encodes taken value

abbrev pub Outcome : Bytes → Type 0
Outcome src = Reads src ⊎ (read_varint src ≡ err unexpected_eof)

fourteen_cases : (b0 : ℕ) (buf : Bytes) → 128 ≤ b0 → b0 < 192 → IsBytes buf → Outcome (b0 ∷ buf)
fourteen_cases b0 [] lo hi h =
    inr (read_varint-wide b0 _ (omega arith) (omega arith) ∙ fourteen_cut b0 _ lo hi (omega arith))
fourteen_cases b0 (b1 ∷ rest) lo hi h = inl (record {
  value = _;
  rest = rest;
  taken = b0 ∷ b1 ∷ [];
  reads =
      read_varint-wide b0 _ (omega arith) (omega arith)
      ∙ read-fourteen b0 b1 rest lo hi (omega arith);
  splits = refl;
  encodes = fourteen lo hi;
})

twenty_one_cases : (b0 : ℕ) (buf : Bytes) → 192 ≤ b0 → b0 < 224 → IsBytes buf → Outcome (b0 ∷ buf)
twenty_one_cases b0 [] lo hi h =
    inr
      (read_varint-wide b0 _ (omega arith) (omega arith) ∙ twenty_one_cut b0 _ lo hi (omega arith))
twenty_one_cases b0 (b1 ∷ []) lo hi h =
    inr
      (read_varint-wide b0 _ (omega arith) (omega arith) ∙ twenty_one_cut b0 _ lo hi (omega arith))
twenty_one_cases b0 (b1 ∷ b2 ∷ rest) lo hi h = inl (record {
  value = _;
  rest = rest;
  taken = b0 ∷ b1 ∷ b2 ∷ [];
  reads =
      read_varint-wide b0 _ (omega arith) (omega arith)
      ∙ read-twenty_one b0 b1 b2 rest lo hi (omega arith);
  splits = refl;
  encodes = twenty_one lo hi;
})

twenty_eight_cases : (b0 : ℕ) (buf : Bytes) → 224 ≤ b0 → b0 < 240 → IsBytes buf → Outcome (b0 ∷ buf)
twenty_eight_cases b0 [] lo hi h =
    inr (
      read_varint-wide b0 _ (omega arith) (omega arith) ∙ twenty_eight_cut b0 _ lo hi (omega arith))
twenty_eight_cases b0 (b1 ∷ []) lo hi h =
    inr (
      read_varint-wide b0 _ (omega arith) (omega arith) ∙ twenty_eight_cut b0 _ lo hi (omega arith))
twenty_eight_cases b0 (b1 ∷ b2 ∷ []) lo hi h =
    inr (
      read_varint-wide b0 _ (omega arith) (omega arith) ∙ twenty_eight_cut b0 _ lo hi (omega arith))
twenty_eight_cases b0 (b1 ∷ b2 ∷ b3 ∷ rest) lo hi h = inl (record {
  value = _;
  rest = rest;
  taken = b0 ∷ b1 ∷ b2 ∷ b3 ∷ [];
  reads =
      read_varint-wide b0 _ (omega arith) (omega arith)
      ∙ read-twenty_eight b0 b1 b2 b3 rest lo hi (omega arith);
  splits = refl;
  encodes = twenty_eight lo hi;
})

thirty_two_cases : (b0 : ℕ) (buf : Bytes) → 240 ≤ b0 → b0 < 244 → IsBytes buf → Outcome (b0 ∷ buf)
thirty_two_cases b0 [] lo hi h =
    inr
      (read_varint-wide b0 _ (omega arith) (omega arith) ∙ thirty_two_cut b0 _ lo hi (omega arith))
thirty_two_cases b0 (b1 ∷ []) lo hi h =
    inr
      (read_varint-wide b0 _ (omega arith) (omega arith) ∙ thirty_two_cut b0 _ lo hi (omega arith))
thirty_two_cases b0 (b1 ∷ b2 ∷ []) lo hi h =
    inr
      (read_varint-wide b0 _ (omega arith) (omega arith) ∙ thirty_two_cut b0 _ lo hi (omega arith))
thirty_two_cases b0 (b1 ∷ b2 ∷ b3 ∷ []) lo hi h =
    inr
      (read_varint-wide b0 _ (omega arith) (omega arith) ∙ thirty_two_cut b0 _ lo hi (omega arith))
thirty_two_cases b0 (b1 ∷ b2 ∷ b3 ∷ b4 ∷ rest) lo hi h = inl (record {
  value = _;
  rest = rest;
  taken = b0 ∷ b1 ∷ b2 ∷ b3 ∷ b4 ∷ [];
  reads =
      read_varint-wide b0 _ (omega arith) (omega arith)
      ∙ read-thirty_two b0 b1 b2 b3 b4 rest lo hi (omega arith);
  splits = refl;
  encodes = thirty_two lo hi;
})

sixty_four_cases : (b0 : ℕ) (buf : Bytes) → 244 ≤ b0 → b0 < 248 → IsBytes buf → Outcome (b0 ∷ buf)
sixty_four_cases b0 [] lo hi h =
    inr
      (read_varint-wide b0 _ (omega arith) (omega arith) ∙ sixty_four_cut b0 _ lo hi (omega arith))
sixty_four_cases b0 (b1 ∷ []) lo hi h =
    inr
      (read_varint-wide b0 _ (omega arith) (omega arith) ∙ sixty_four_cut b0 _ lo hi (omega arith))
sixty_four_cases b0 (b1 ∷ b2 ∷ []) lo hi h =
    inr
      (read_varint-wide b0 _ (omega arith) (omega arith) ∙ sixty_four_cut b0 _ lo hi (omega arith))
sixty_four_cases b0 (b1 ∷ b2 ∷ b3 ∷ []) lo hi h =
    inr
      (read_varint-wide b0 _ (omega arith) (omega arith) ∙ sixty_four_cut b0 _ lo hi (omega arith))
sixty_four_cases b0 (b1 ∷ b2 ∷ b3 ∷ b4 ∷ []) lo hi h =
    inr
      (read_varint-wide b0 _ (omega arith) (omega arith) ∙ sixty_four_cut b0 _ lo hi (omega arith))
sixty_four_cases b0 (b1 ∷ b2 ∷ b3 ∷ b4 ∷ b5 ∷ []) lo hi h =
    inr
      (read_varint-wide b0 _ (omega arith) (omega arith) ∙ sixty_four_cut b0 _ lo hi (omega arith))
sixty_four_cases b0 (b1 ∷ b2 ∷ b3 ∷ b4 ∷ b5 ∷ b6 ∷ []) lo hi h =
    inr
      (read_varint-wide b0 _ (omega arith) (omega arith) ∙ sixty_four_cut b0 _ lo hi (omega arith))
sixty_four_cases b0 (b1 ∷ b2 ∷ b3 ∷ b4 ∷ b5 ∷ b6 ∷ b7 ∷ []) lo hi h =
    inr
      (read_varint-wide b0 _ (omega arith) (omega arith) ∙ sixty_four_cut b0 _ lo hi (omega arith))
sixty_four_cases b0 (b1 ∷ b2 ∷ b3 ∷ b4 ∷ b5 ∷ b6 ∷ b7 ∷ b8 ∷ rest) lo hi h = inl (record {
  value = _;
  rest = rest;
  taken = b0 ∷ b1 ∷ b2 ∷ b3 ∷ b4 ∷ b5 ∷ b6 ∷ b7 ∷ b8 ∷ [];
  reads =
      read_varint-wide b0 _ (omega arith) (omega arith)
      ∙ read-sixty_four b0 b1 b2 b3 b4 b5 b6 b7 b8 rest lo hi (omega arith);
  splits = refl;
  encodes = sixty_four lo hi;
})

pub negate_cases : (b0 : ℕ) (buf : Bytes) → 248 ≤ b0 → b0 < 252 → Outcome buf → Outcome (b0 ∷ buf)
negate_cases b0 buf lo hi (inl r) = inl (record {
  value = not64 r.value;
  rest = r.rest;
  taken = b0 ∷ r.taken;
  reads = read-complement b0 buf lo hi ∙ ap negate r.reads;
  splits = ap (◌∷◌ b0) r.splits;
  encodes = complement lo hi r.encodes;
})
negate_cases b0 buf lo hi (inr e) = inr (read-complement b0 buf lo hi ∙ ap negate e)

pub wide_cases : (b0 : ℕ) (buf : Bytes) → 128 ≤ b0 → b0 < 248 → IsBytes buf → Outcome (b0 ∷ buf)
wide_cases b0 buf lo hi h = elim (dec_lt b0 192) [
  | yes p ↦ fourteen_cases b0 buf lo p h
  | no p ↦ elim (dec_lt b0 224) [
    | yes q ↦ twenty_one_cases b0 buf (omega arith) q h
    | no q ↦ elim (dec_lt b0 240) [
      | yes r ↦ twenty_eight_cases b0 buf (omega arith) r h
      | no r ↦ elim (dec_lt b0 244) [
        | yes s ↦ thirty_two_cases b0 buf (omega arith) s h
        | no s ↦ sixty_four_cases b0 buf (omega arith) hi h
      ]
    ]
  ]
]
