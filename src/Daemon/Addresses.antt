-- ===== src/Daemon/Addresses.antt =====
-- `is_public_ip` of crates/quickmaild/src/daemon.rs: which addresses pictures are fetched from.
use quick_mail.Prelude.{
  ℕ, ◌+◌, ◌*◌, ◌/◌, ◌%◌, ◌^◌, ◌-◌, ◌<◌, Bool, true, false, not, ◌&&◌, ◌||◌, ◌≡◌, refl, ◌∙◌, arith,
  leb, nat_beq, if◌then◌else◌,
}

unfoldable pub is_public_ipv4 : ℕ → ℕ → ℕ → Bool
is_public_ipv4 first second third = not (
    nat_beq first 0
    || (nat_beq first 10
        || (nat_beq first 127
            || (nat_beq first 100 && (leb 64 second && leb second 127)
                || (nat_beq first 169 && nat_beq second 254
                    || (nat_beq first 172 && (leb 16 second && leb second 31)
                        || (nat_beq first 192 && (nat_beq second 0 && nat_beq third 0)
                            || (nat_beq first 192 && (nat_beq second 0 && nat_beq third 2)
                                || (nat_beq first 192 && (nat_beq second 88 && nat_beq third 99)
                                    || (nat_beq first 192 && nat_beq second 168
                                        || (nat_beq first 198
                                              && (nat_beq second 18 || nat_beq second 19)
                                            || (nat_beq first 198
                                                  && (nat_beq second 51 && nat_beq third 100)
                                                || (nat_beq first 203
                                                      && (nat_beq second 0 && nat_beq third 113)
                                                    || leb 224 first)))))))))))))

-- The bytes of version 4 and the segments of version 6.
pub data IpAddr : Type 0 where
  v4 : (first second third fourth : ℕ) → IpAddr
  v6 : (s₀ s₁ s₂ s₃ s₄ s₅ s₆ s₇ : ℕ) → IpAddr

-- `to_ipv4_mapped` of the standard library is some address.
abbrev is_mapped : ℕ → ℕ → ℕ → ℕ → ℕ → ℕ → Bool
is_mapped s₀ s₁ s₂ s₃ s₄ s₅ =
    nat_beq s₀ 0
    && (nat_beq s₁ 0 && (nat_beq s₂ 0 && (nat_beq s₃ 0 && (nat_beq s₄ 0 && nat_beq s₅ 65535))))

-- The mask 0xe000 keeps the three leading bits of the first segment.
unfoldable pub is_public_ipv6 : ℕ → ℕ → ℕ → ℕ → ℕ → ℕ → ℕ → ℕ → Bool
unfolding is_public_ipv4
is_public_ipv6 s₀ s₁ s₂ s₃ s₄ s₅ s₆ s₇ =
    if is_mapped s₀ s₁ s₂ s₃ s₄ s₅
    then is_public_ipv4 (s₆ / 256) (s₆ % 256) (s₇ / 256)
    else nat_beq (s₀ / 2 ^ 13) 1 && not (nat_beq s₀ 0x2001 && nat_beq s₁ 0x0db8)

unfoldable pub is_public_ip : IpAddr → Bool
unfolding is_public_ipv4 is_public_ipv6
is_public_ip (v4 a b c d) = is_public_ipv4 a b c
is_public_ip (v6 s₀ s₁ s₂ s₃ s₄ s₅ s₆ s₇) = is_public_ipv6 s₀ s₁ s₂ s₃ s₄ s₅ s₆ s₇

-- 2002:7f00:1::, the 6to4 form of 127.0.0.1.
loopback_6to4 : is_public_ip (v6 0x2002 0x7f00 1 0 0 0 0 0) ≡ true
unfolding is_public_ip
loopback_6to4 = refl

-- ::ffff:127.0.0.1
loopback_mapped : is_public_ip (v6 0 0 0 0 0 0xffff 0x7f00 1) ≡ false
unfolding is_public_ip
loopback_mapped = refl

-- An address of version 4 as a number of 32 bits.
abbrev pub address_of : ℕ → ℕ → ℕ → ℕ → ℕ
address_of a b c d = a * 2 ^ 24 + b * 2 ^ 16 + c * 2 ^ 8 + d

-- A block `a.b.c.0/length` of the registry of RFC 6890: the leading bits of its addresses agree.
abbrev pub in_block : ℕ → ℕ → ℕ → ℕ → ℕ → Bool
in_block address a b c length =
    nat_beq (address / 2 ^ (32 - length)) (address_of a b c 0 / 2 ^ (32 - length))

-- This network, private use, loopback, shared space, link-local, protocol assignments,
-- documentation, 6to4 relays, benchmarking, multicast and reserved.
abbrev pub is_special : ℕ → Bool
is_special address =
    in_block address 0 0 0 8
    || (in_block address 10 0 0 8
        || (in_block address 127 0 0 8
            || (in_block address 100 64 0 10
                || (in_block address 169 254 0 16
                    || (in_block address 172 16 0 12
                        || (in_block address 192 0 0 24
                            || (in_block address 192 0 2 24
                                || (in_block address 192 88 99 24
                                    || (in_block address 192 168 0 16
                                        || (in_block address 198 18 0 15
                                            || (in_block address 198 51 100 24
                                                || (in_block address 203 0 113 24
                                                    || (in_block address 224 0 0 4
                                                        || in_block address 240 0 0 4)))))))))))))

module _ (a b c d : ℕ) (ha : a < 256) (hb : b < 256) (hc : c < 256) (hd : d < 256) where
  abbrev address : ℕ
  address = address_of a b c d

  block_8 : (n : ℕ) → n < 256 → in_block address n 0 0 8 ≡ nat_beq a n
  block_8 n h = ground arith

  block_16 : (m n : ℕ) → n < 256 → in_block address m n 0 16 ≡ (nat_beq a m && nat_beq b n)
  block_16 m n h = ground arith

  block_24 :
      (m n o : ℕ)
      → n < 256
      → o < 256
      → in_block address m n o 24 ≡ (nat_beq a m && (nat_beq b n && nat_beq c o))
  block_24 m n o h k = ground arith

  shared_block : in_block address 100 64 0 10 ≡ (nat_beq a 100 && (leb 64 b && leb b 127))
  shared_block = ground arith

  private_block : in_block address 172 16 0 12 ≡ (nat_beq a 172 && (leb 16 b && leb b 31))
  private_block = ground arith

  benchmark_block : in_block address 198 18 0 15 ≡ (nat_beq a 198 && (nat_beq b 18 || nat_beq b 19))
  benchmark_block = ground arith

  last_blocks : (in_block address 224 0 0 4 || in_block address 240 0 0 4) ≡ leb 224 a
  last_blocks = ground arith

  is_public_ipv4_exact : is_public_ipv4 a b c ≡ not (is_special (address_of a b c d))
  unfolding is_public_ipv4
  is_public_ipv4_exact =
      rw
        (
          is_public_ipv4,
          block_8 0 (omega arith),
          block_8 10 (omega arith),
          block_8 127 (omega arith),
          shared_block,
          block_16 169 254 (omega arith),
          private_block,
          block_24 192 0 0 (omega arith) (omega arith),
          block_24 192 0 2 (omega arith) (omega arith),
          block_24 192 88 99 (omega arith) (omega arith),
          block_16 192 168 (omega arith),
          benchmark_block,
          block_24 198 51 100 (omega arith) (omega arith),
          block_24 203 0 113 (omega arith) (omega arith),
          last_blocks,
        )
        refl

  high_byte : (x y : ℕ) → y < 256 → (x * 256 + y) / 256 ≡ x
  high_byte x y h = omega arith

  low_byte : (x y : ℕ) → y < 256 → (x * 256 + y) % 256 ≡ y
  low_byte x y h = omega arith

  mapped_public :
      is_public_ip (v6 0 0 0 0 0 0xffff (a * 256 + b) (c * 256 + d)) ≡ is_public_ipv4 a b c
  unfolding is_public_ip is_public_ipv6
  mapped_public = rw (high_byte a b hb, low_byte a b hb, high_byte c d hd) refl

  -- An address of version 4 is public for the daemon if and only if it lies in none of the blocks
  -- for special purposes, whatever its four bytes are, and the address of version 6 that it is
  -- mapped to is judged in the same way.
  pub is_public_ip_exact :
      (is_public_ip (v4 a b c d) ≡ not (is_special (address_of a b c d)))
      × (is_public_ip (v6 0 0 0 0 0 0xffff (a * 256 + b) (c * 256 + d))
          ≡ not (is_special (address_of a b c d)))
  unfolding is_public_ip
  is_public_ip_exact = (is_public_ipv4_exact, mapped_public ∙ is_public_ipv4_exact)
