-- ===== src/L3fwd/Em/Kinds.antt =====
-- l3fwd/l3fwd_em.c and l3fwd_em_hlm.h: what the conjunction of eight packet types says of each.
use dpdk_practice.Base.{
  ℕ, zero, suc, ◌+◌, ◌-◌, ◌*◌, ◌%◌, ◌≤◌, ◌<◌, Bool, true, false, ◌&&◌, ◌||◌, not, ◌==◌,
  if◌then◌else◌, ◌≡◌, refl, sym, ap, ◌∙◌, arith, ◌⊎◌, inl, inr, Bool-cases, ==_iff, and_left,
  and_right, bit_and, bit_or, ap₂,
}
use dpdk_practice.Base.Bits.{
  test_bit, test_bit-bit_and, test_bit-bit_or, test_bit-pow, bit_and-eq-zero,
}
use dpdk_practice.L3fwd.Rfc1812.{Frame, load16, swap16}
use dpdk_practice.L3fwd.Tx.Copy.{Table}
use dpdk_practice.L3fwd.Em.{
  and_types, is_kind, ptype_ipv4, ptype_ipv6, ptype_l3_mask, ptype_tcp_or_udp, em_parse_ptype,
}

-- A bit of the conjunction is a bit of each type.
and_types-bit :
    (types pkts : Table) (n j acc p : ℕ)
    → test_bit (and_types types pkts n j acc) p ≡ true
    → (test_bit acc p ≡ true) × ((i : ℕ) → i < n → test_bit (types (pkts (j + i))) p ≡ true)
unfolding and_types
and_types-bit types pkts zero j acc p h = (h, λ i lt. absurd (omega arith))
and_types-bit types pkts (suc n) j acc p h =
    (let t = types (pkts j) in
      let (mine, rest) = and_types-bit types pkts n (j + 1) (bit_and acc t) p h in
      let both : (test_bit acc p && test_bit t p) ≡ true = sym (test_bit-bit_and acc t p) ∙ mine in
      (
        and_left _ _ both,
        λ i lt. elim (first_or_later i) [
          | inl e ↦
              ap (λ k. test_bit (types (pkts k)) p) {x = j + i} {y = j} (omega (arith, e))
              ∙ and_right _ _ both
          | inr pos ↦
              ap (λ k. test_bit (types (pkts k)) p) {x = j + i} {y = j + 1 + (i - 1)}
                (omega (arith, pos))
              ∙ rest (i - 1) (omega (arith, pos))
        ],
      ))
  where
    first_or_later : (i : ℕ) → (i ≡ 0) ⊎ (1 ≤ i)
    first_or_later i = ground arith

or_left : (a b : Bool) → (a || b) ≡ false → a ≡ false
or_left false b h = refl
or_left true b h = h

or_right : (a b : Bool) → (a || b) ≡ false → b ≡ false
or_right false b h = h
or_right true b h = absurd (ground (arith, h))

l4_bits : (p : ℕ) → test_bit ptype_tcp_or_udp p ≡ ((p == 8) || (p == 9))
l4_bits p = test_bit-bit_or 256 512 p ∙ ap₂ (λ a b. a || b) (test_bit-pow 8 p) (test_bit-pow 9 p)

other_bit : (t p q : ℕ) → test_bit t q ≡ false → test_bit t p ≡ true → (p == q) ≡ false
other_bit t p q off on = elim (Bool-cases (p == q)) [
  | inl e ↦ absurd (ground (arith, sym on ∙ ap (test_bit t) ((==_iff p q).0 e) ∙ off))
  | inr ne ↦ ne
]

no_l4 : (t : ℕ) → (test_bit t 8 || test_bit t 9) ≡ false → bit_and t ptype_tcp_or_udp ≡ 0
no_l4 t h = bit_and-eq-zero t t ptype_tcp_or_udp (omega arith) (λ p.
    elim (Bool-cases (test_bit t p)) [
      | inl on ↦
          (let ne8 = other_bit t p 8 (or_left _ _ h) on in
            let ne9 = other_bit t p 9 (or_right _ _ h) on in rw (on, l4_bits p, ne8, ne9) refl)
      | inr off ↦ rw off refl
    ])

-- A kind says that its bit `b` is set, and one of the bits for TCP and UDP.
kind-bits :
    (l3 b t : ℕ)
    → test_bit l3 b ≡ true
    → is_kind l3 t ≡ true
    → (test_bit t b ≡ true) × ((test_bit t 8 || test_bit t 9) ≡ true)
kind-bits l3 b t set h = (
  and_left _ _ (sym (test_bit-bit_and t ptype_l3_mask b) ∙ ap (λ v. test_bit v b) l3-eq ∙ set),
  elim (Bool-cases (test_bit t 8 || test_bit t 9)) [
    | inl some_l4 ↦ some_l4
    | inr none_l4 ↦
        absurd
          (ground (arith, no_l4 t none_l4, and_left (not (bit_and t ptype_tcp_or_udp == 0)) _ h))
  ],
)
  where
    l3-eq : bit_and t ptype_l3_mask ≡ l3
    l3-eq =
        (==_iff (bit_and t ptype_l3_mask) l3).0
          (and_right (not (bit_and t ptype_tcp_or_udp == 0)) (bit_and t ptype_l3_mask == l3) h)

-- A type with the bits of a kind is of this kind.
abbrev pub is_plain : ℕ → Bool
is_plain t =
    (not (test_bit t 4 && (test_bit t 8 || test_bit t 9)) || is_kind ptype_ipv4 t)
    && (not (test_bit t 6 && (test_bit t 8 || test_bit t 9)) || is_kind ptype_ipv6 t)

-- Of the types that em_parse_ptype can choose.
chosen-plain :
    (v4 short tcp udp v6 tcp6 udp6 : Bool)
    → is_plain (
        if v4
        then if short then if tcp then 272 else if udp then 528 else 16 else 48
        else if v6
        then if tcp6 then 320 else if udp6 then 576 else 224
        else 0)
      ≡ true
unfolding test_bit
chosen-plain true true true udp v6 tcp6 udp6 = refl
chosen-plain true true false true v6 tcp6 udp6 = refl
chosen-plain true true false false v6 tcp6 udp6 = refl
chosen-plain true false tcp udp v6 tcp6 udp6 = refl
chosen-plain false short tcp udp true true udp6 = refl
chosen-plain false short tcp udp true false true = refl
chosen-plain false short tcp udp true false false = refl
chosen-plain false short tcp udp false tcp6 udp6 = refl

pub em_parse_ptype-plain : (f : Frame) → is_plain (em_parse_ptype f) ≡ true
unfolding em_parse_ptype
em_parse_ptype-plain f =
    chosen-plain (load16 f 12 == swap16 0x0800) (f 14 % 16 * 4 == 20) (f 23 == 6) (f 23 == 17)
      (load16 f 12 == swap16 0x86dd) (f 20 == 6) (f 20 == 17)

implied : (a b c : Bool) → (not (a && b) || c) ≡ true → a ≡ true → b ≡ true → c ≡ true
implied true true c h ha hb = h
implied true false c h ha hb = absurd (ground (arith, hb))
implied false b c h ha hb = absurd (ground (arith, ha))

pub plain_ipv4 :
    (t : ℕ)
    → is_plain t ≡ true
    → test_bit t 4 ≡ true
    → (test_bit t 8 || test_bit t 9) ≡ true
    → is_kind ptype_ipv4 t ≡ true
plain_ipv4 t h = implied (test_bit t 4) (test_bit t 8 || test_bit t 9) _ (and_left _ _ h)

pub plain_ipv6 :
    (t : ℕ)
    → is_plain t ≡ true
    → test_bit t 6 ≡ true
    → (test_bit t 8 || test_bit t 9) ≡ true
    → is_kind ptype_ipv6 t ≡ true
plain_ipv6 t h = implied (test_bit t 6) (test_bit t 8 || test_bit t 9) _ (and_right _ _ h)

or_cases : (a b : Bool) → (a || b) ≡ true → (a ≡ true) ⊎ (b ≡ true)
or_cases true b h = inl h
or_cases false b h = inr h

-- The type that the conjunction of eight types stands for.
abbrev pub block_type : Table → Table → ℕ → ℕ
block_type types pkts j = and_types types pkts 8 j (bit_or ptype_l3_mask ptype_tcp_or_udp)

-- Where the conjunction is of a kind, each type has the kind's bits.
pub block-bits :
    (types pkts : Table) (l3 b j : ℕ)
    → test_bit l3 b ≡ true
    → is_kind l3 (block_type types pkts j) ≡ true
    → (i : ℕ) → i < 8
    → let t = types (pkts (j + i)) in
      (test_bit t b ≡ true) × ((test_bit t 8 || test_bit t 9) ≡ true)
block-bits types pkts l3 b j set h i lt =
    (let (mine, l4) = kind-bits l3 b (block_type types pkts j) set h in
      let all = λ (p : ℕ) (q : test_bit (block_type types pkts j) p ≡ true).
        (and_types-bit types pkts 8 j (bit_or ptype_l3_mask ptype_tcp_or_udp) p q).1 i lt in
      (
        all b mine,
        elim (or_cases _ _ l4) [
          | inl eight ↦ rw (all 8 eight) refl
          | inr nine ↦ or_true _ _ (all 9 nine)
        ],
      ))
  where
    or_true : (a c : Bool) → c ≡ true → (a || c) ≡ true
    or_true true c e = refl
    or_true false c e = e
