-- ===== src/MessageBroker/Identifier.antt =====
-- The identifiers of messages: Message::createIdentifier
-- (libs/MessageBroker/include/MessageBroker/Message.hpp) over the hash Fnv1a<uint32_t>
-- (libs/Common/include/Common/Hash.hpp). A string is the list of its bytes.
use sugo_machine_application.Prelude.{
  ℕ, zero, suc, ◌+◌, ◌-◌, ◌*◌, ◌/◌, ◌%◌, ◌^◌, List, [], ◌∷◌, ltb, ◌==◌, if◌then◌else◌,
}

-- The bytes of a std::string.
abbrev pub Bytes : Type 0
Bytes = List ℕ

-- The bitwise exclusive or of the lowest bits, as many as the first argument says.
unfoldable pub xor_bits : ℕ → ℕ → ℕ → ℕ
xor_bits zero a b = 0
xor_bits (suc n) a b =
    let rest = xor_bits n (a / 2) (b / 2) in (if a % 2 == b % 2 then 0 else 1) + 2 * rest

abbrev pub default_offset_basis : ℕ
default_offset_basis = 2166136261

abbrev pub prime : ℕ
prime = 16777619

-- `static_cast<uint32_t>` of a char, which is signed.
abbrev pub cast_char : ℕ → ℕ
cast_char c = if ltb c 128 then c else c + (2 ^ 32 - 2 ^ 8)

-- One byte of the hash.
unfoldable pub mix : ℕ → ℕ → ℕ
unfolding xor_bits
mix value c = (xor_bits 32 value (cast_char c) * prime) % 2 ^ 32

-- `Fnv1a::hash`: it ends at the string's end or at a byte 0.
unfoldable pub hash : Bytes → ℕ → ℕ
unfolding mix
hash [] value = value
hash (c ∷ cs) value = let rest = hash cs (mix value c) in if c == 0 then value else rest

-- `Fnv1a::combine`.
unfoldable pub combine : ℕ → ℕ → ℕ
combine hash_a hash_b = (hash_a * prime + hash_b) % 2 ^ 32

unfoldable pub create_identifier : Bytes → Bytes → ℕ
unfolding hash combine
create_identifier address topic =
    combine (hash address default_offset_basis) (hash topic default_offset_basis)
