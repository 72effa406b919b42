-- ===== src/L3fwd/Em/Keys.antt =====
-- l3fwd/l3fwd_em.c: the masked key of a packet is the key that its five-tuple is converted to.
use dpdk_practice.Base.{
  ℕ, zero, suc, ◌+◌, ◌*◌, ◌/◌, ◌%◌, ◌^◌, ◌<◌, ◌≡◌, refl, sym, ap, ◌∙◌, arith, bit_and,
}
use dpdk_practice.Base.Bits.{bit_and_step, bit_and-zero}
use native.Mathlib.Nat.{pow-suc}
use dpdk_practice.L3fwd.Rfc1812.{Frame, load16, swap16}
use dpdk_practice.L3fwd.Routes.{ntohl}
use dpdk_practice.L3fwd.Routes.Em.{FiveTuple}
use dpdk_practice.L3fwd.Lpm.{load32}
use dpdk_practice.L3fwd.Em.{em_mask_key, get_ipv4_5tuple, get_ipv6_5tuple}
use dpdk_practice.L3fwd.Em.Populate.{convert_ipv4_5tuple, convert_ipv6_5tuple}

bit_and_even : (w m : ℕ) → bit_and w (2 * m) ≡ 2 * bit_and (w / 2) m
bit_and_even w m =
    (let same : bit_and (w / 2) (2 * m / 2) ≡ bit_and (w / 2) m =
        ap (bit_and (w / 2)) {x = 2 * m / 2} {y = m} (omega arith) in
      omega (arith, same, bit_and_step w (2 * m)))

-- The conjunction with bits that are all set, of a number that fits them.
bit_and-all : (n w m : ℕ) → m + 1 ≡ 2 ^ n → w < 2 ^ n → bit_and w m ≡ w
bit_and-all zero w m e lt =
    ap (bit_and w) {x = m} {y = 0} (omega (arith, e)) ∙ bit_and-zero w ∙ omega (arith, lt)
bit_and-all (suc n) w m e lt = omega (
  arith,
  e,
  lt,
  pow-suc 2 n,
  bit_and_step w m,
  bit_and-all n (w / 2) (m / 2) (omega (arith, e, pow-suc 2 n)) (omega (arith, lt, pow-suc 2 n)),
)

bit_and_odd : (w m : ℕ) → bit_and w (2 * m + 1) ≡ 2 * bit_and (w / 2) m + w % 2
bit_and_odd w m =
    (let same : bit_and (w / 2) ((2 * m + 1) / 2) ≡ bit_and (w / 2) m =
        ap (bit_and (w / 2)) {x = (2 * m + 1) / 2} {y = m} (omega arith) in
      omega (arith, same, bit_and_step w (2 * m + 1)))

low4 : (w : ℕ) → bit_and w 15 ≡ w % 16
low4 w = omega (
  arith,
  bit_and_odd w 7,
  bit_and_odd (w / 2) 3,
  bit_and_odd (w / 2 / 2) 1,
  bit_and_odd (w / 2 / 2 / 2) 0,
  bit_and-zero (w / 2 / 2 / 2 / 2),
)

low8 : (w : ℕ) → bit_and w 255 ≡ w % 256
low8 w = omega (
  arith,
  bit_and_odd w 127,
  bit_and_odd (w / 2) 63,
  bit_and_odd (w / 2 / 2) 31,
  bit_and_odd (w / 2 / 2 / 2) 15,
  low4 (w / 2 / 2 / 2 / 2),
)

-- The conjunction with a mask that starts at the digit of weight `a`.
abbrev Shifts : ℕ → Type 0
Shifts a = (w m : ℕ) → bit_and w (a * m) ≡ a * bit_and (w / a) m

Shifts-twice :
    (a b : ℕ)
    → Shifts a
    → ((m : ℕ) → b * m ≡ a * (a * m))
    → ((w : ℕ) → w / a / a ≡ w / b)
    → Shifts b
Shifts-twice a b s times over w m =
    ap (bit_and w) (times m)
    ∙ s w (a * m)
    ∙ ap (λ v. a * v) (s (w / a) m)
    ∙ sym (times (bit_and (w / a / a) m))
    ∙ ap (λ v. b * bit_and v m) (over w)

shifts8 : Shifts 256
shifts8 =
    Shifts-twice 16 256
      (Shifts-twice 4 16 (Shifts-twice 2 4 bit_and_even (λ m. omega arith) (λ w. omega arith))
        (λ m. omega arith) (λ w. omega arith))
      (λ m. omega arith) (λ w. omega arith)

-- A frame holds bytes.
abbrev pub IsBytes : Frame → Type 0
IsBytes f = (i : ℕ) → f i < 256

-- The five-tuple of a packet in host order, by where the fields stand in its headers.
abbrev pub ipv4_5tuple : Frame → FiveTuple ℕ
ipv4_5tuple f = record {
  ip_dst = ntohl (load32 f 30);
  ip_src = ntohl (load32 f 26);
  port_dst = swap16 (load16 f 36);
  port_src = swap16 (load16 f 34);
  proto = f 23;
}

abbrev pub ipv6_5tuple : Frame → FiveTuple Frame
ipv6_5tuple f = record {
  ip_dst = λ i. f (38 + i);
  ip_src = λ i. f (22 + i);
  port_dst = swap16 (load16 f 56);
  port_src = swap16 (load16 f 54);
  proto = f 20;
}

module _ (f : Frame) (bytes : IsBytes f) where
  whole_word : (at : ℕ) → bit_and (load32 f at) 4294967295 ≡ load32 f at
  whole_word at =
      bit_and-all 32 (load32 f at) 4294967295 refl
        (omega (arith, bytes at, bytes (at + 1), bytes (at + 2), bytes (at + 3)))

  second_byte : (at : ℕ) → bit_and (load32 f at) 65280 ≡ f (at + 1) * 256
  second_byte at =
      shifts8 (load32 f at) 255
      ∙ omega (
        arith,
        low8 (load32 f at / 256),
        bytes at,
        bytes (at + 1),
        bytes (at + 2),
        bytes (at + 3),
      )

  third_byte : (at : ℕ) → bit_and (load32 f at) 16711680 ≡ f (at + 2) * 65536
  third_byte at =
      Shifts-twice 256 65536 shifts8 (λ m. omega arith) (λ w. omega arith) (load32 f at) 255
      ∙ omega (
        arith,
        low8 (load32 f at / 65536),
        bytes at,
        bytes (at + 1),
        bytes (at + 2),
        bytes (at + 3),
      )

  swapped_twice : (at : ℕ) → ntohl (ntohl (load32 f at)) ≡ load32 f at
  swapped_twice at = omega (arith, bytes at, bytes (at + 1), bytes (at + 2), bytes (at + 3))

  two_ports :
      (at : ℕ)
      → load32 f at ≡ swap16 (swap16 (load16 f at)) + swap16 (swap16 (load16 f (at + 2))) * 65536
  two_ports at =
      (let last : f (at + 3) ≡ f (at + 2 + 1) = ap f {x = at + 3} {y = at + 2 + 1} (omega arith) in
        omega (arith, last, bytes at, bytes (at + 1), bytes (at + 2), bytes (at + 3)))

  -- The masked key of a packet is the key of its five-tuple.
  pub get_ipv4_5tuple-eq : get_ipv4_5tuple f ≡ convert_ipv4_5tuple (ipv4_5tuple f)
  unfolding em_mask_key convert_ipv4_5tuple
  get_ipv4_5tuple-eq =
      rw
        (
          second_byte 22,
          whole_word 26,
          whole_word 30,
          whole_word 34,
          swapped_twice 26,
          swapped_twice 30,
          ← two_ports 34,
        )
        refl

  pub get_ipv6_5tuple-eq : get_ipv6_5tuple f ≡ convert_ipv6_5tuple (ipv6_5tuple f)
  unfolding em_mask_key convert_ipv6_5tuple
  get_ipv6_5tuple-eq =
      rw
        (
          third_byte 18,
          whole_word 22,
          whole_word 26,
          whole_word 30,
          whole_word 50,
          whole_word 54,
          bit_and-zero (load32 f 58),
          bit_and-zero (load32 f 62),
          ← two_ports 54,
        )
        refl
