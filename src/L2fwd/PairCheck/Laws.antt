-- ===== src/L2fwd/PairCheck/Laws.antt =====
-- What an accepted pair list satisfies.
use dpdk_practice.Base.{
  ℕ, ◌^◌, Bool, true, false, ◌&&◌, ◌||◌, List, [], ◌∷◌, ◌≡◌, refl, arith, bit_and, bit_or, ◌==◌,
  Bool-cases, ◌⊎◌, inl, inr, ap, ◌∙◌,
}
use dpdk_practice.Base.Bits.{
  has_bit, test_bit, has_bit-eq-test_bit, test_bit-bit_or, test_bit-bit_and, test_bit-zero,
  test_bit-pow, test_bit-of_bit_and_zero, bit_and-eq-zero,
}
use dpdk_practice.L2fwd.PairCheck.{
  PortPair, PairError, Checked, ok, err, check_port, check_pair, check_pairs,
  check_port_pair_config,
}

abbrev pub in_pair : ℕ → PortPair → Bool
in_pair p pair = p == pair.port0 || p == pair.port1

abbrev pub in_pairs : ℕ → List PortPair → Bool
in_pairs p [] = false
in_pairs p (pair ∷ pairs) = in_pair p pair || in_pairs p pairs

Checked-cases :
    {A : Type 0} (c : Checked A) → ((a : A) × (c ≡ ok a)) ⊎ ((e : PairError) × (c ≡ err e))
Checked-cases (ok a) = inl (a, refl)
Checked-cases (err e) = inr (e, refl)

err-ne-ok : {A : Type 0} {e : PairError} {a : A} → ¬ (err e ≡ ok a)
err-ne-ok h = cc

ok-injective : {A : Type 0} {a b : A} → ok a ≡ ok b → a ≡ b
ok-injective h = cc

-- Equal ports stand in the same pairs.
==_at : (p q : ℕ) (pairs : List PortPair) → (p == q) ≡ true → in_pairs p pairs ≡ in_pairs q pairs
==_at p q pairs h = ap (λ (x : ℕ). in_pairs x pairs) (ground arith)

module _ (valid : ℕ → Bool) (mask : ℕ) where
  -- Both ports are enabled and present.
  abbrev pub IsUsable : PortPair → Type 0
  IsUsable pair =
      (has_bit mask pair.port0 ≡ true)
      × (valid pair.port0 ≡ true)
      × (has_bit mask pair.port1 ≡ true)
      × (valid pair.port1 ≡ true)

  -- Every pair is usable, and no port stands in two pairs.
  abbrev pub ArePaired : List PortPair → Type 0
  ArePaired [] = Unit {0}
  ArePaired (pair ∷ pairs) =
      IsUsable pair
      × (in_pairs pair.port0 pairs ≡ false)
      × (in_pairs pair.port1 pairs ≡ false)
      × ArePaired pairs

  check_pair-ok :
      (pair : PortPair) (m : ℕ)
      → check_pair valid mask pair ≡ ok m
      → IsUsable pair × (m ≡ bit_or (bit_or 0 (2 ^ pair.port0)) (2 ^ pair.port1))
  unfolding check_pair check_port
  check_pair-ok pair m h = ground arith

  pair_mask-bit :
      (pair : PortPair) (p : ℕ)
      → test_bit (bit_or (bit_or 0 (2 ^ pair.port0)) (2 ^ pair.port1)) p ≡ in_pair p pair
  pair_mask-bit pair p = ground (
    arith,
    test_bit-bit_or (bit_or 0 (2 ^ pair.port0)) (2 ^ pair.port1) p,
    test_bit-bit_or 0 (2 ^ pair.port0) p,
    test_bit-zero p,
    test_bit-pow pair.port0 p,
    test_bit-pow pair.port1 p,
  )

  check_pairs-cons :
      (pair : PortPair) (pairs : List PortPair) (cm cm' : ℕ)
      → check_pairs valid mask cm (pair ∷ pairs) ≡ ok cm'
      → (m : ℕ) × (check_pair valid mask pair ≡ ok m)
        × (bit_and cm m ≡ 0)
        × (check_pairs valid mask (bit_or cm m) pairs ≡ ok cm')
  unfolding check_pairs
  check_pairs-cons pair pairs cm cm' h = elim (Checked-cases (check_pair valid mask pair)) [
    | inr (e, r) ↦ absurd (err-ne-ok (rw r at h))
    | inl (m, r) ↦ elim (Bool-cases (bit_and cm m == 0)) [
      | inl z ↦ (m, r, ground arith, rw z at (rw r at h))
      | inr z ↦ absurd (err-ne-ok (rw z at (rw r at h)))
    ]
  ]

  -- One accepted pair in front of accepted pairs, at one port.
  private_ports :
      (pair : PortPair) (pairs : List PortPair) (cm m p : ℕ)
      → m ≡ bit_or (bit_or 0 (2 ^ pair.port0)) (2 ^ pair.port1)
      → (test_bit (bit_or cm m) p && in_pairs p pairs) ≡ false
      → in_pair p pair ≡ true
      → in_pairs p pairs ≡ false
  private_ports pair pairs cm m p e h own =
      ground (arith, test_bit-bit_or cm m p, ap (λ (x : ℕ). test_bit x p) e, pair_mask-bit pair p)

  check_pairs-ok :
      (pairs : List PortPair) (cm cm' : ℕ)
      → check_pairs valid mask cm pairs ≡ ok cm'
      → ArePaired pairs
        × ((p : ℕ) → test_bit cm' p ≡ (test_bit cm p || in_pairs p pairs))
        × ((p : ℕ) → (test_bit cm p && in_pairs p pairs) ≡ false)
  unfolding check_pairs
  check_pairs-ok [] cm cm' h = (tt, (λ p. ground arith), (λ p. ground arith))
  check_pairs-ok (pair ∷ pairs) cm cm' h =
      let (m, made, apart, rest) = check_pairs-cons pair pairs cm cm' h in
      let (usable, is_mask) = check_pair-ok pair m made in
      let (tail_paired, bits, free) = check_pairs-ok pairs (bit_or cm m) cm' rest in
      let bit = λ (p : ℕ). ap (λ (x : ℕ). test_bit x p) is_mask ∙ pair_mask-bit pair p in
      (
        (
          usable,
          private_ports pair pairs cm m pair.port0 is_mask (free pair.port0) (ground arith),
          private_ports pair pairs cm m pair.port1 is_mask (free pair.port1) (ground arith),
          tail_paired,
        ),
        (λ p. ground (arith, bits p, bit p, test_bit-bit_or cm m p)),
        (λ p.
            ground (
              arith,
              free p,
              bit p,
              test_bit-bit_or cm m p,
              test_bit-of_bit_and_zero cm m p apart,
            )),
      )

  -- Each port of an accepted list is enabled.
  pub ArePaired-enabled :
      (pairs : List PortPair) (p : ℕ)
      → ArePaired pairs
      → in_pairs p pairs ≡ true
      → has_bit mask p ≡ true
  ArePaired-enabled [] p a h = cc
  ArePaired-enabled (pair ∷ pairs) p a h = elim (Bool-cases (in_pair p pair)) [
    | inl own ↦ ground arith
    | inr other ↦ ArePaired-enabled pairs p a.3 (ground arith)
  ]

  config_mask-ok :
      (pairs : List PortPair) (new : ℕ)
      → check_port_pair_config valid mask pairs ≡ ok new
      → (cm : ℕ) × (check_pairs valid mask 0 pairs ≡ ok cm) × (bit_and mask cm ≡ new)
  unfolding check_port_pair_config
  config_mask-ok pairs new h = elim (Checked-cases (check_pairs valid mask 0 pairs)) [
    | inl (cm, r) ↦ (cm, r, ok-injective (rw r at h))
    | inr (e, r) ↦ absurd (err-ne-ok (rw r at h))
  ]

  -- An accepted list pairs enabled, present ports, none of them twice in different pairs, and the
  -- new port mask holds exactly the ports of the list.
  pub check_port_pair_config-ok :
      (pairs : List PortPair) (new : ℕ)
      → check_port_pair_config valid mask pairs ≡ ok new
      → ArePaired pairs × ((p : ℕ) → has_bit new p ≡ in_pairs p pairs)
  check_port_pair_config-ok pairs new h =
      let (cm, r, e) = config_mask-ok pairs new h in
      let (paired, bits, _) = check_pairs-ok pairs 0 cm r in
      (
        paired,
        λ p. ground (
          arith,
          has_bit-eq-test_bit new p,
          ap (λ (x : ℕ). test_bit x p) e,
          test_bit-bit_and mask cm p,
          bits p,
          test_bit-zero p,
          has_bit-eq-test_bit mask p,
          ArePaired-enabled pairs p paired,
        ),
      )

  check_pair_accepts :
      (pair : PortPair)
      → IsUsable pair
      → check_pair valid mask pair ≡ ok (bit_or (bit_or 0 (2 ^ pair.port0)) (2 ^ pair.port1))
  unfolding check_pair check_port
  check_pair_accepts pair u = ground arith

  check_pairs_accepts :
      (pairs : List PortPair) (cm : ℕ)
      → ArePaired pairs
      → ((p : ℕ) → (test_bit cm p && in_pairs p pairs) ≡ false)
      → (cm' : ℕ) × (check_pairs valid mask cm pairs ≡ ok cm')
  unfolding check_pairs
  check_pairs_accepts [] cm a free = (cm, refl)
  check_pairs_accepts (pair ∷ pairs) cm a free =
      let m = bit_or (bit_or 0 (2 ^ pair.port0)) (2 ^ pair.port1) in
      let apart : bit_and cm m ≡ 0 =
        bit_and-eq-zero cm cm m (omega arith) (λ p. ground (arith, pair_mask-bit pair p, free p)) in
      let (cm', r) = check_pairs_accepts pairs (bit_or cm m) a.3 (λ p. ground (
        arith,
        free p,
        test_bit-bit_or cm m p,
        pair_mask-bit pair p,
        ==_at p pair.port0 pairs,
        ==_at p pair.port1 pairs,
      )) in
      (cm', rw (check_pair_accepts pair a.0, apart) r)

  -- A list of enabled, present ports, no two pairs of which share a port, is never refused.
  pub check_port_pair_config_accepts :
      (pairs : List PortPair)
      → ArePaired pairs
      → (new : ℕ) × (check_port_pair_config valid mask pairs ≡ ok new)
  unfolding check_port_pair_config
  check_port_pair_config_accepts pairs a =
      let (cm, r) = check_pairs_accepts pairs 0 a (λ p. ground (arith, test_bit-zero p)) in
      (bit_and mask cm, rw r)
