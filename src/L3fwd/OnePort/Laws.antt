-- ===== src/L3fwd/OnePort/Laws.antt =====
-- The loops against one comparison of all ports.
use dpdk_practice.Base.{
  ℕ, zero, suc, ◌+◌, ◌*◌, ◌/◌, ◌%◌, Bool, ◌&&◌, ◌==◌, if◌then◌else◌, ◌≡◌, refl, sym, ap, ap₂, ◌∙◌,
  arith, Bool-cases, inl, inr,
}
use dpdk_practice.L3fwd.Rfc1812.{bad_port}
use dpdk_practice.L3fwd.OnePort.{all_same, compare_rounds, process_dst_port}

module _ (dst_ports : ℕ → ℕ) where
  abbrev same : ℕ → ℕ → Bool
  same i n = all_same dst_ports i n

  all_same-add : (i a b : ℕ) → same i (a + b) ≡ (same i a && same (i + a) b)
  all_same-add i zero b = ap₂ same (omega arith) (omega arith)
  all_same-add i (suc a) b =
      ap same_from (more a b) ∙ elim (Bool-cases (dst_ports i == dst_ports 0)) [
        | inl e ↦ rw e (all_same-add (i + 1) a b ∙ ap (λ k. same (i + 1) a && same k b) (shift i a))
        | inr e ↦ rw e refl
      ]
    where
      same_from : ℕ → Bool
      same_from n = same i n

      more : (a b : ℕ) → suc a + b ≡ suc (a + b)
      more a b = omega arith

      shift : (i a : ℕ) → i + 1 + a ≡ i + suc a
      shift i a = omega arith

  compare_rounds-lem :
      (width rounds i : ℕ) → compare_rounds dst_ports width rounds i ≡ same i (width * rounds)
  unfolding compare_rounds
  compare_rounds-lem width zero i = ap (λ n. same i n) {x = 0} (omega arith)
  compare_rounds-lem width (suc rounds) i = elim (Bool-cases (same i width)) [
    | inl e ↦ rw e (compare_rounds-lem width rounds (i + width) ∙ sym (split ∙ rw e refl))
    | inr e ↦ rw e (sym (split ∙ rw e refl))
  ]
    where
      split : same i (width * suc rounds) ≡ (same i width && same (i + width) (width * rounds))
      split = ap (λ n. same i n) (omega arith) ∙ all_same-add i width (width * rounds)

  -- process_dst_port, which compares by eights, by fours and one by one, gives the first port if
  -- all the ports of the vector are equal to it, and BAD_PORT otherwise.
  pub process_dst_port-lem :
      (nb_elem : ℕ)
      → process_dst_port dst_ports nb_elem ≡ (if same 0 nb_elem then dst_ports 0 else bad_port)
  unfolding process_dst_port
  process_dst_port-lem nb_elem =
      rw
        (
          compare_rounds-lem 8 (nb_elem / 8) 0,
          compare_rounds-lem 4 (nb_elem % 8 / 4) (nb_elem / 8 * 8),
          compare_rounds-lem 1 (nb_elem % 4) (nb_elem / 4 * 4),
          split,
        )
        (nested (same 0 eights) (same (nb_elem / 8 * 8) four) (same (nb_elem / 4 * 4) ones))
    where
      eights : ℕ
      eights = 8 * (nb_elem / 8)

      four : ℕ
      four = 4 * (nb_elem % 8 / 4)

      ones : ℕ
      ones = 1 * (nb_elem % 4)

      nested :
          (p q r : Bool)
          → (if p then if q then if r then dst_ports 0 else bad_port else bad_port else bad_port)
            ≡ (if p && (q && r) then dst_ports 0 else bad_port)
      nested p q r = ground arith

      split :
          same 0 nb_elem
          ≡ (same 0 eights && (same (nb_elem / 8 * 8) four && same (nb_elem / 4 * 4) ones))
      split =
          ap (λ n. same 0 n) (omega arith)
          ∙ all_same-add 0 eights (four + ones)
          ∙ ap (λ x. same 0 eights && x)
              (ap (λ i. same i (four + ones)) (omega arith)
                ∙ all_same-add (nb_elem / 8 * 8) four ones
                ∙ ap (λ i. same (nb_elem / 8 * 8) four && same i ones) (omega arith))
