-- ===== src/Ping/Laws.antt =====
-- Parsing accepts exactly what printing writes, and each error has its own inputs.
use rust_mumble_protocol.Base.{
  ◌≡◌, ◌≢◌, refl, sym, ap, ap₂, ◌∙◌, subst, arith, ◌↔◌, Bool-cases, inl, inr, true, false,
}
use rust_mumble_protocol.Base.{
  [], ◌∷◌, ◌++◌, ◌==◌, ==_iff, Bytes, IsBytes, IsU32, IsU64, ==_ne, bytes_eq, bytes_eq_iff,
  bytes_eq_ne, slice, slice-append-drop, slice_to_end, slice_number,
}
use rust_mumble_protocol.Base.{length, from_be_bytes, from_be_bytes-to_be_bytes, ok, err}
use rust_mumble_protocol.Ping.{
  PingPacket, PongPacket, ParsePingError, ParsePongError, invalid_header, ping_try_from,
  array_from_ping, pong_try_from, array_from_pong,
}

-- The three results of parsing a ping.
ping_size :
    (buf : Bytes) → (length buf == 12) ≡ false → ping_try_from buf ≡ err ParsePingError.invalid_size
unfolding ping_try_from
ping_size buf e = rw e

ping_header :
    (buf : Bytes)
    → (length buf == 12) ≡ true
    → bytes_eq (slice 0 4 buf) (0 ∷ 0 ∷ 0 ∷ 0 ∷ []) ≡ false
    → ping_try_from buf ≡ err invalid_header
unfolding ping_try_from
ping_header buf e z = rw (e, z)

ping_parsed :
    (buf : Bytes)
    → (length buf == 12) ≡ true
    → bytes_eq (slice 0 4 buf) (0 ∷ 0 ∷ 0 ∷ 0 ∷ []) ≡ true
    → ping_try_from buf ≡ ok (record { id = from_be_bytes (slice 4 12 buf) })
unfolding ping_try_from
ping_parsed buf e z = rw (e, z)

ping-round : (p : PingPacket) → IsU64 p.id → ping_try_from (array_from_ping p) ≡ ok p
unfolding array_from_ping
ping-round p h =
    ping_parsed _ refl ((bytes_eq_iff _ _).1 refl)
    ∙ ap (λ t. ok (record { id = t })) (from_be_bytes-to_be_bytes 8 p.id h)

-- Parsing bytes as a ping succeeds exactly on what printing a ping with a 64-bit id writes, with
-- that ping.
pub ping_try_from_iff :
    (buf : Bytes) (p : PingPacket)
    → IsBytes buf
    → (ping_try_from buf ≡ ok p) ↔ (IsU64 p.id × (buf ≡ array_from_ping p))
unfolding array_from_ping
ping_try_from_iff buf p h = (there, λ e. ap ping_try_from e.1 ∙ ping-round p e.0)
  where
    there : ping_try_from buf ≡ ok p → IsU64 p.id × (buf ≡ array_from_ping p)
    there e = elim (Bool-cases (length buf == 12)) [
      | inr size ↦ absurd (cc (e, ping_size buf size))
      | inl size ↦ elim (Bool-cases (bytes_eq (slice 0 4 buf) (0 ∷ 0 ∷ 0 ∷ 0 ∷ []))) [
        | inr z ↦ absurd (cc (e, ping_header buf size z))
        | inl z ↦
            let n : length buf ≡ 12 = (==_iff (length buf) 12).0 size in
            let q : PingPacket = record { id = from_be_bytes (slice 4 12 buf) } in
            let same : q ≡ p = cc (e, ping_parsed buf size z) in
            let number = slice_number 4 12 8 buf h (omega arith) (omega arith) refl in
            let printed : buf ≡ array_from_ping q =
              sym (slice-append-drop 0 4 buf (omega arith))
              ∙ ap₂ ◌++◌ ((bytes_eq_iff _ _).0 z)
                  (sym (number.1 ∙ slice_to_end 4 12 buf (omega arith))) in
            subst (λ p. IsU64 p.id × (buf ≡ array_from_ping p)) same (number.0, printed)
      ]
    ]

-- Parsing a ping fails with `InvalidSize` exactly if there are not 12 bytes, and with
-- `InvalidHeader` exactly if there are 12 and the first four are not zero.
pub ping_try_from_errors :
    (buf : Bytes)
    → ((ping_try_from buf ≡ err ParsePingError.invalid_size) ↔ (length buf ≢ 12))
      × ((ping_try_from buf ≡ err invalid_header)
          ↔ ((length buf ≡ 12) × (slice 0 4 buf ≢ 0 ∷ 0 ∷ 0 ∷ 0 ∷ [])))
ping_try_from_errors buf = (
  (not_short, λ ne. ping_size buf (==_ne (length buf) 12 ne)),
  (not_zero, λ h. ping_header buf ((==_iff (length buf) 12).1 h.0) (bytes_eq_ne _ _ h.1)),
)
  where
    not_short : ping_try_from buf ≡ err ParsePingError.invalid_size → length buf ≢ 12
    not_short e n =
        let size = (==_iff (length buf) 12).1 n in
        elim (Bool-cases (bytes_eq (slice 0 4 buf) (0 ∷ 0 ∷ 0 ∷ 0 ∷ []))) [
          | inl z ↦ cc (e, ping_parsed buf size z)
          | inr z ↦ cc (e, ping_header buf size z)
        ]

    not_zero :
        ping_try_from buf ≡ err invalid_header
        → (length buf ≡ 12) × (slice 0 4 buf ≢ 0 ∷ 0 ∷ 0 ∷ 0 ∷ [])
    not_zero e = elim (Bool-cases (length buf == 12)) [
      | inr size ↦ absurd (cc (e, ping_size buf size))
      | inl size ↦ (
        (==_iff (length buf) 12).0 size,
        λ z. cc (e, ping_parsed buf size ((bytes_eq_iff _ _).1 z)),
      )
    ]

pub pong-round :
    (p : PongPacket)
    → IsU64 p.id
    → IsU32 p.version
    → IsU32 p.users
    → IsU32 p.max_users
    → IsU32 p.bandwidth
    → pong_try_from (array_from_pong p) ≡ ok p
unfolding pong_try_from array_from_pong
pong-round p hi hv hu hm hb = λ i. ok (record {
  id = from_be_bytes-to_be_bytes 8 p.id hi i;
  version = from_be_bytes-to_be_bytes 4 p.version hv i;
  users = from_be_bytes-to_be_bytes 4 p.users hu i;
  max_users = from_be_bytes-to_be_bytes 4 p.max_users hm i;
  bandwidth = from_be_bytes-to_be_bytes 4 p.bandwidth hb i;
})

abbrev pub IsPong : PongPacket → Type 0
IsPong p = IsU64 p.id × IsU32 p.version × IsU32 p.users × IsU32 p.max_users × IsU32 p.bandwidth

pong_size :
    (buf : Bytes) → (length buf == 24) ≡ false → pong_try_from buf ≡ err ParsePongError.invalid_size
unfolding pong_try_from
pong_size buf e = rw e

abbrev parsed_pong : Bytes → PongPacket
parsed_pong buf = record {
  version = from_be_bytes (slice 0 4 buf);
  id = from_be_bytes (slice 4 12 buf);
  users = from_be_bytes (slice 12 16 buf);
  max_users = from_be_bytes (slice 16 20 buf);
  bandwidth = from_be_bytes (slice 20 24 buf);
}

pong_parsed : (buf : Bytes) → (length buf == 24) ≡ true → pong_try_from buf ≡ ok (parsed_pong buf)
unfolding pong_try_from
pong_parsed buf e = rw e

printed-IsPong :
    (buf : Bytes)
    → IsBytes buf
    → length buf ≡ 24
    → IsPong (parsed_pong buf) × (buf ≡ array_from_pong (parsed_pong buf))
unfolding array_from_pong
printed-IsPong buf h n =
    let version = slice_number 0 4 4 buf h (omega arith) (omega arith) refl in
    let id = slice_number 4 12 8 buf h (omega arith) (omega arith) refl in
    let users = slice_number 12 16 4 buf h (omega arith) (omega arith) refl in
    let max_users = slice_number 16 20 4 buf h (omega arith) (omega arith) refl in
    let bandwidth = slice_number 20 24 4 buf h (omega arith) (omega arith) refl in
    (
      (id.0, version.0, users.0, max_users.0, bandwidth.0),
      sym (slice-append-drop 0 4 buf (omega arith))
          ∙ ap₂ ◌++◌ (sym version.1) (
              sym (slice-append-drop 4 12 buf (omega arith))
              ∙ ap₂ ◌++◌ (sym id.1) (
                  sym (slice-append-drop 12 16 buf (omega arith))
                  ∙ ap₂ ◌++◌ (sym users.1) (
                      sym (slice-append-drop 16 20 buf (omega arith))
                      ∙ ap₂ ◌++◌ (sym max_users.1)
                          (sym (bandwidth.1 ∙ slice_to_end 20 24 buf (omega arith)))))),
    )

-- Parsing a pong succeeds exactly on what printing fields in range writes, and fails with
-- `InvalidSize` exactly on the other sizes.
pub pong_try_from_iff :
    (buf : Bytes) (p : PongPacket)
    → IsBytes buf
    → ((pong_try_from buf ≡ ok p) ↔ (IsPong p × (buf ≡ array_from_pong p)))
      × ((pong_try_from buf ≡ err ParsePongError.invalid_size) ↔ (length buf ≢ 24))
pong_try_from_iff buf p h = (
  (there, λ ((hi, hv, hu, hm, hb), e). ap pong_try_from e ∙ pong-round p hi hv hu hm hb),
  (
    λ e n. cc (e, pong_parsed buf ((==_iff (length buf) 24).1 n)),
    λ ne. pong_size buf (==_ne (length buf) 24 ne),
  ),
)
  where
    there : pong_try_from buf ≡ ok p → IsPong p × (buf ≡ array_from_pong p)
    there e = elim (Bool-cases (length buf == 24)) [
      | inr size ↦ absurd (cc (e, pong_size buf size))
      | inl size ↦
          let same : parsed_pong buf ≡ p = cc (e, pong_parsed buf size) in
          subst (λ p. IsPong p × (buf ≡ array_from_pong p)) same
            (printed-IsPong buf h ((==_iff (length buf) 24).0 size))
    ]
