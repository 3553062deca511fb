-- ===== src/Wire/Codec.antt =====
-- The protobuf library as the program uses it, and htonl and ntohl on the bytes of a uint32_t.
use distray.Base.{
  ℕ, ◌+◌, ◌*◌, ◌/◌, ◌%◌, ◌^◌, ◌<◌, ◌≡◌, refl, [], ◌∷◌, Option, some, arith, Bytes, length,
}

-- SerializeToArray and ParseFromArray of one message type. protobuf documents that a parser reads
-- back what a serializer of the same type wrote.
pub record Codec {ℓ} (Message : Type ℓ) : Type ℓ where
  pub serialize : Message → Bytes
  pub parse : Bytes → Option Message
  pub parse-serialize : (m : Message) → parse (serialize m) ≡ some m

-- The bytes in memory of htonl(n).
unfoldable pub be32 : ℕ → Bytes
be32 n = (n / 2 ^ 24 % 256) ∷ (n / 2 ^ 16 % 256) ∷ (n / 2 ^ 8 % 256) ∷ (n % 256) ∷ []

-- ntohl of the uint32_t with these bytes in memory.
unfoldable pub ntohl : Bytes → ℕ
ntohl (a ∷ b ∷ c ∷ d ∷ []) = a * 2 ^ 24 + b * 2 ^ 16 + c * 2 ^ 8 + d
ntohl _ = 0

-- sizeof(uint32_t)
abbrev pub size_bytes : ℕ
size_bytes = 4

pub ntohl-be32 : (n : ℕ) → n < 2 ^ 32 → ntohl (be32 n) ≡ n
unfolding ntohl be32
ntohl-be32 n h = omega arith

pub length-be32 : (n : ℕ) → length (be32 n) ≡ 4
unfolding be32
length-be32 n = refl
