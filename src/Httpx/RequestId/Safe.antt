-- ===== src/Httpx/RequestId/Safe.antt =====
-- RequestID of internal/httpx/middleware.go: what reaches the logs.
use go_tunnels.Shared.{
  ℕ, ◌*◌, ◌/◌, ◌%◌, ◌≤◌, ◌<◌, ◌≡◌, ◌≢◌, refl, ap, inl, inr, true, [], ◌∷◌, some, Text, codes, ok,
  ltb, length, all, All, nat_eq, text_eq, text_beq, text_beq_self, arith, Bool-cases, Option-cases,
  pure,
}
use go_tunnels.Text.{hex_encode, hex_digit}
use go_tunnels.Store.{World}
use go_tunnels.Httpx.RequestId.{
  max_request_id_len, is_id_byte, valid_request_id, new_id, request_id,
}

-- A text that may stand in a header and in a log line.
pub record IsSafe (id : Text) : Type 0 where
  pub given : id ≢ []
  pub short : length id ≤ 128
  pub clean : all is_id_byte id ≡ true

valid-IsSafe : (id : Text) → valid_request_id id ≡ true → IsSafe id
unfolding valid_request_id
valid-IsSafe id h = elim (Bool-cases (text_beq id [])) [
  | inl blank ↦ absurd (ground (arith, rw (valid_request_id, blank) at h))
  | inr given ↦ elim (Bool-cases (ltb max_request_id_len (length id))) [
    | inl long ↦ absurd (ground (arith, rw (valid_request_id, given, long) at h))
    | inr short ↦ record {
      given = λ e. absurd (ground (arith, rw (e, text_beq_self) at given));
      short = ground (arith, short);
      clean = rw (valid_request_id, given, short) at h;
    }
  ]
]

hex_digit-is_id_byte : (n : ℕ) → n < 16 → is_id_byte (hex_digit n) ≡ true
unfolding hex_digit is_id_byte
hex_digit-is_id_byte n h = ground arith

hex_encode-clean : (s : Text) → All (λ b. b < 256) s → all is_id_byte (hex_encode s) ≡ true
unfolding hex_encode all
hex_encode-clean [] h = refl
hex_encode-clean (b ∷ s) h =
    let high : b / 16 < 16 = omega (arith, h.0) in
    let low : b % 16 < 16 = omega arith in
    rw
      (
        hex_digit-is_id_byte (b / 16) high,
        hex_digit-is_id_byte (b % 16) low,
        hex_encode-clean s h.1,
      )
      refl

length-hex_encode : (s : Text) → length (hex_encode s) ≡ 2 * length s
unfolding hex_encode
length-hex_encode [] = omega arith
length-hex_encode (b ∷ s) = omega (arith, length-hex_encode s)

hex_encode-IsSafe : (s : Text) → length s ≡ 16 → All (λ b. b < 256) s → IsSafe (hex_encode s)
hex_encode-IsSafe s n bytes = record {
  given = λ e. absurd (omega (arith, length-hex_encode s, n, ap length e));
  short = omega (arith, length-hex_encode s, n);
  clean = hex_encode-clean s bytes;
}

unknown-IsSafe : IsSafe (codes "unknown")
unfolding all is_id_byte
unknown-IsSafe = record { given = λ e. ground arith; short = omega arith; clean = refl }

-- Whatever X-Request-Id a client sends, the identifier of the request, which the response header and the logs
-- carry, is not empty, has at most 128 bytes, and holds only letters, digits and the bytes `._:-`,
-- where a read of 16 random bytes gives 16 bytes or fails; and a client's identifier of that form is kept.
pub request_id-IsSafe :
    (inbound : Text) (w : World)
    → ((bytes : Text)
        → w.entropy w.reads 16 ≡ some bytes
        → (length bytes ≡ 16) × All (λ b. b < 256) bytes)
    → (id : Text) × ((request_id {E = Unit {0}} inbound w).0 ≡ ok id)
      × IsSafe id
      × (valid_request_id inbound ≡ true → id ≡ inbound)
unfolding request_id new_id pure
request_id-IsSafe inbound w reads = elim (Bool-cases (valid_request_id inbound)) [
  | inl valid ↦ (inbound, rw valid refl, valid-IsSafe inbound valid, λ _. refl)
  | inr other ↦ elim (Option-cases (w.entropy w.reads 16)) [
    | inl failed ↦ (
      codes "unknown",
      rw (other, failed) refl,
      unknown-IsSafe,
      λ v. absurd (ground (arith, other, v)),
    )
    | inr (bytes, drawn) ↦
        let (n, small) = reads bytes drawn in
        (
          hex_encode bytes,
          rw (other, drawn) refl,
          hex_encode-IsSafe bytes n small,
          λ v. absurd (ground (arith, other, v)),
        )
  ]
]
