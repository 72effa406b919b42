-- ===== src/L2fwd/DstPorts/Laws.antt =====
-- The destination table is an involution on the ports that it serves.
use dpdk_practice.Base.{
  ℕ, zero, suc, ◌+◌, ◌*◌, ◌/◌, ◌%◌, Bool, true, false, List, [], ◌∷◌, length, update, not, ◌==◌,
  ◌&&◌, ◌||◌, ◌≡◌, refl, arith, mem, Distinct, Bool-cases, ==_iff, ◌⊎◌, inl, inr, subst, ap, ◌∙◌,
  sym,
}
use dpdk_practice.Base.Bits.{has_bit}
use dpdk_practice.L2fwd.PairCheck.{PortPair, ok, check_port_pair_config}
use dpdk_practice.L2fwd.PairCheck.Laws.{in_pair, in_pairs, ArePaired, check_port_pair_config-ok}
use dpdk_practice.L2fwd.DstPorts.{
  DstPorts, reset, set_from_pair, fill_from_pairs, dst_from_pairs, Walk, visit, visit_all,
  walk_start, close_odd, dst_from_neighbours,
}

-- Equal ports stand in the same pairs.
at_port : (p q : ℕ) (pairs : List PortPair) → (p == q) ≡ true → in_pairs p pairs ≡ in_pairs q pairs
at_port p q pairs h = ap (λ (x : ℕ). in_pairs x pairs) ((==_iff p q).0 h)

at_number : (f : ℕ → Bool) (p q : ℕ) → (p == q) ≡ true → f p ≡ f q
at_number f p q h = ap f ((==_iff p q).0 h)

true-ne-false : ¬ (true ≡ false)
true-ne-false h = cc

-- Each port of `served` sends to a port of `served`, which sends back to it.
abbrev pub IsPaired : DstPorts → (ℕ → Bool) → Type 0
IsPaired dst served = (q : ℕ) → served q ≡ true → (served (dst q) ≡ true) × (dst (dst q) ≡ q)

abbrev link : DstPorts → ℕ → ℕ → DstPorts
link dst a b = update (update dst a b) b a

told_apart : (served : ℕ → Bool) (x y : ℕ) → served x ≡ true → served y ≡ false → (x == y) ≡ false
told_apart served x y hx hy = elim (Bool-cases (x == y)) [
  | inl e ↦ absurd (true-ne-false (sym hx ∙ ap served ((==_iff x y).0 e) ∙ hy))
  | inr n ↦ n
]

-- Two ports that nobody else serves are linked.
link-IsPaired :
    (dst : DstPorts) (served more : ℕ → Bool) (a b : ℕ)
    → IsPaired dst served
    → served a ≡ false
    → served b ≡ false
    → ((q : ℕ) → more q ≡ (served q || (q == a || q == b)))
    → IsPaired (link dst a b) more
link-IsPaired dst served more a b h fa fb extends q s = elim (Bool-cases (q == a || q == b)) [
  | inl own ↦ ground (arith, extends a, extends b)
  | inr other ↦
      let old : served q ≡ true = ground (arith, extends q) in
      ground (
        arith,
        h q old,
        extends (dst q),
        told_apart served (dst q) a (h q old).0 fa,
        told_apart served (dst q) b (h q old).0 fb,
      )
]

fill-cons :
    (pair : PortPair) (pairs : List PortPair) (rounds idx : ℕ) (dst : DstPorts)
    → fill_from_pairs (pair ∷ pairs) rounds (idx + 2) dst ≡ fill_from_pairs pairs rounds idx dst
unfolding fill_from_pairs set_from_pair
fill-cons pair pairs zero idx dst = refl
fill-cons pair pairs (suc rounds) idx dst =
    rw (halved, parity, shifted) (fill-cons pair pairs rounds (idx + 1) _)
  where
    halved : (idx + 2) / 2 ≡ suc (idx / 2)
    halved = omega arith

    parity : (idx + 2) % 2 ≡ idx % 2
    parity = omega arith

    shifted : idx + 2 + 1 ≡ idx + 1 + 2
    shifted = omega arith

fill-pair :
    (pair : PortPair) (pairs : List PortPair) (rounds : ℕ) (dst : DstPorts)
    → fill_from_pairs (pair ∷ pairs) (suc (suc rounds)) 0 dst
      ≡ fill_from_pairs pairs rounds 0 (link dst pair.port0 pair.port1)
unfolding fill_from_pairs set_from_pair
fill-pair pair pairs rounds dst = fill-cons pair pairs rounds 0 _

IsPaired-ext :
    (dst : DstPorts) (served more : ℕ → Bool)
    → IsPaired dst served
    → ((q : ℕ) → more q ≡ served q)
    → IsPaired dst more
IsPaired-ext dst served more h e q s =
    let old : served q ≡ true = sym (e q) ∙ s in (e (dst q) ∙ (h q old).0, (h q old).1)

fill-IsPaired :
    (pairs : List PortPair) (dst : DstPorts) (served more : ℕ → Bool) (valid : ℕ → Bool) (mask : ℕ)
    → ArePaired valid mask pairs
    → IsPaired dst served
    → ((p : ℕ) → (served p && in_pairs p pairs) ≡ false)
    → ((q : ℕ) → more q ≡ (served q || in_pairs q pairs))
    → IsPaired (fill_from_pairs pairs (length pairs * 2) 0 dst) more
unfolding fill_from_pairs
fill-IsPaired [] dst served more valid mask a h free e =
    IsPaired-ext dst served more h (λ q. ground (arith, e q))
fill-IsPaired (pair ∷ pairs) dst served more valid mask a h free e =
    let grown : ℕ → Bool = λ q. served q || in_pair q pair in
    let linked : IsPaired (link dst pair.port0 pair.port1) grown =
      link-IsPaired dst served grown pair.port0 pair.port1 h (ground (arith, free pair.port0))
        (ground (arith, free pair.port1)) (λ q. refl) in
    rw (twice (length pairs)) (
      rw fill-pair (
        fill-IsPaired pairs (link dst pair.port0 pair.port1) grown more valid mask a.3 linked
          (λ p.
            ground
              (arith, free p, at_port p pair.port0 pairs, at_port p pair.port1 pairs, a.1, a.2))
          (λ q. ground (arith, e q))))
  where
    twice : (n : ℕ) → suc n * 2 ≡ suc (suc (n * 2))
    twice n = omega arith

-- After --portmap has been accepted with a new port mask, each port of that mask sends to a port of
-- the mask, and that port sends back to it.
pub dst_from_pairs-IsPaired :
    (valid : ℕ → Bool) (mask new : ℕ) (pairs : List PortPair)
    → check_port_pair_config valid mask pairs ≡ ok new
    → IsPaired (dst_from_pairs pairs) (has_bit new)
unfolding dst_from_pairs
dst_from_pairs-IsPaired valid mask new pairs h =
    let (paired, bits) = check_port_pair_config-ok valid mask pairs new h in
    fill-IsPaired pairs reset (λ q. false) (has_bit new) valid mask paired
      (λ q s. absurd (true-ne-false (sym s))) (λ p. refl) bits

-- What the loop over the ports knows, by the parity of the ports in the mask: after an odd number
-- of them `last_port` is seen, and all the others are paired.
abbrev WalkInv : Bool → Walk → (ℕ → Bool) → Type 0
WalkInv false w seen = IsPaired w.dst seen
WalkInv true w seen =
    (seen w.last_port ≡ true) × IsPaired w.dst (λ q. seen q && not (q == w.last_port))

abbrev is_odd : Walk → Bool
is_odd w = w.nb_ports_in_mask % 2 == 1

WalkInv-ext :
    (odd : Bool) (w : Walk) (seen more : ℕ → Bool)
    → WalkInv odd w seen
    → ((q : ℕ) → more q ≡ seen q)
    → WalkInv odd w more
WalkInv-ext false w seen more h e = IsPaired-ext w.dst seen more h e
WalkInv-ext true w seen more (s, h) e =
    (e w.last_port ∙ s, IsPaired-ext w.dst _ _ h (λ q. ap (λ b. b && not (q == w.last_port)) (e q)))

abbrev closed : Walk → ℕ → Walk
closed w p = record w { dst = link w.dst p w.last_port; nb_ports_in_mask = w.nb_ports_in_mask + 1 }

abbrev opened : Walk → ℕ → Walk
opened w p = record w { last_port = p; nb_ports_in_mask = w.nb_ports_in_mask + 1 }

visit_cases :
    (mask p : ℕ) (w : Walk)
    → ((has_bit mask p ≡ false) × (visit mask w p ≡ w))
      ⊎ ((has_bit mask p ≡ true)
          × (is_odd w ≡ true)
          × (visit mask w p ≡ closed w p)
          × (is_odd (closed w p) ≡ false))
      ⊎ ((has_bit mask p ≡ true)
          × (is_odd w ≡ false)
          × (visit mask w p ≡ opened w p)
          × (is_odd (opened w p) ≡ true))
unfolding visit
visit_cases mask p w = ground arith

visit-WalkInv :
    (mask p : ℕ) (w : Walk) (seen more : ℕ → Bool)
    → WalkInv (is_odd w) w seen
    → seen p ≡ false
    → ((q : ℕ) → more q ≡ (seen q || (has_bit mask p && (q == p))))
    → WalkInv (is_odd (visit mask w p)) (visit mask w p) more
visit-WalkInv mask p w seen more h new e = elim (visit_cases mask p w) [
  | inl (off, same) ↦ rw same (WalkInv-ext (is_odd w) w seen more h (λ q. ground (arith, e q)))
  | inr (inl (on, odd, done, even)) ↦
      rw (done, even)
        (let h' : WalkInv true w seen = subst (λ b. WalkInv b w seen) odd h in
          link-IsPaired w.dst _ more p w.last_port h'.1 (ground arith) (ground arith)
            (λ q. ground (arith, e q, h'.0, at_number seen q w.last_port)))
  | inr (inr (on, even, done, odd)) ↦
      rw (done, odd)
        (let h' : WalkInv false w seen = subst (λ b. WalkInv b w seen) even h in
          (
            ground (arith, e p),
            IsPaired-ext w.dst seen _ h' (λ q. ground (arith, e q, new, at_number seen q p)),
          ))
]

visit_all-WalkInv :
    (mask : ℕ) (devs : List ℕ) (w : Walk) (seen more : ℕ → Bool)
    → WalkInv (is_odd w) w seen
    → Distinct devs
    → ((q : ℕ) → (seen q && mem q devs) ≡ false)
    → ((q : ℕ) → more q ≡ (seen q || (has_bit mask q && mem q devs)))
    → WalkInv (is_odd (visit_all mask w devs)) (visit_all mask w devs) more
unfolding visit_all
visit_all-WalkInv mask [] w seen more h d free e =
    WalkInv-ext (is_odd w) w seen more h (λ q. ground (arith, e q))
visit_all-WalkInv mask (p ∷ devs) w seen more h (fresh, d) free e =
    let grown : ℕ → Bool = λ q. seen q || (has_bit mask p && (q == p)) in
    visit_all-WalkInv mask devs (visit mask w p) grown more
      (visit-WalkInv mask p w seen grown h (ground (arith, free p)) (λ q. refl)) d
      (λ q. ground (arith, free q, fresh, at_number (λ x. mem x devs) q p))
      (λ q. ground (arith, e q, at_number (has_bit mask) q p))

close_odd-IsPaired :
    (w : Walk) (seen : ℕ → Bool) → WalkInv (is_odd w) w seen → IsPaired (close_odd w) seen
unfolding close_odd
close_odd-IsPaired w seen h = elim (Bool-cases (is_odd w)) [
  | inl odd ↦
      let (s, rest) : WalkInv true w seen = subst (λ b. WalkInv b w seen) odd h in
      rw odd (λ q s'. elim (Bool-cases (q == w.last_port)) [
        | inl own ↦ ground arith
        | inr other ↦ ground (arith, rest q (ground arith))
      ])
  | inr even ↦ rw even (subst (λ b. WalkInv b w seen) even h)
]

-- With no --portmap, and the devices listed once each, each enabled port of the board sends to an
-- enabled port of the board, and that port sends back to it.
pub dst_from_neighbours-IsPaired :
    (mask : ℕ) (devs : List ℕ)
    → Distinct devs
    → IsPaired (dst_from_neighbours mask devs) (λ q. has_bit mask q && mem q devs)
unfolding dst_from_neighbours
dst_from_neighbours-IsPaired mask devs d =
    close_odd-IsPaired _ _
      (visit_all-WalkInv mask devs walk_start (λ q. false) _ (λ q s. cc) d (λ q. refl) (λ q. refl))
