-- ===== src/L3fwd/Group/Laws.antt =====
-- l3fwd/l3fwd_sse.h: the grouping of send_packets_multi meets its specification, `Grouped`.
use dpdk_practice.Base.{
  ℕ, zero, suc, ◌+◌, ◌-◌, ◌*◌, ◌/◌, ◌≤◌, ◌<◌, ◌%◌, Bool, true, false, ◌==◌, if◌then◌else◌, update,
  ◌≡◌, ◌≢◌, refl, sym, ap, ◌∙◌, arith, subst, ==_iff, ==_refl, ==_ne, ◌⊎◌, inl, inr, Bool-cases,
  update_self, update_ne,
}
use dpdk_practice.L3fwd.Group.Runs.{Run, Chain, done, link, Chain-ext, Chain-snoc}
use dpdk_practice.L3fwd.Group.Blocks.{lane}
use dpdk_practice.L3fwd.Group.Steps.{Head, port_groupx4-Head}
use dpdk_practice.L3fwd.Group.{
  Groups, same, full_block, last_block, full_blocks, vector_part, group_port_step, tail_steps,
  group_ports,
}

-- From packet `a` on, `pnum` splits the packets in front of `b` into groups: each has a packet, and
-- all of its packets have the port of the first one.
pub data Grouped (dst_port pnum : ℕ → ℕ) : ℕ → ℕ → Type 0 where
  group_end : {b : ℕ} → Grouped dst_port pnum b b
  group :
      {a b : ℕ}
      → 0 < pnum a
      → ((i : ℕ) → i < pnum a → dst_port (a + i) ≡ dst_port a)
      → Grouped dst_port pnum (a + pnum a) b
      → Grouped dst_port pnum a b

-- The groups of the packets in front of `j` are closed off; the last one may go on.
record At (e : ℕ → Bool) (dst_port : ℕ → ℕ) (j : ℕ) (g : Groups) (dlp : ℕ) : Type 0 where
  chain : Chain e g.pnum 0 g.lp
  last : Run e g.lp (g.pnum g.lp)
  ends : g.lp + g.pnum g.lp ≡ j
  last_port : dlp ≡ dst_port (j - 1)

lane_of :
    (e : ℕ → Bool) (pn : ℕ) (a b c d : Bool)
    → e pn ≡ a
    → e (pn + 1) ≡ b
    → e (pn + 2) ≡ c
    → e (pn + 3) ≡ d
    → (r : ℕ) → r < 4
    → e (pn + r) ≡ lane a b c d r
lane_of e pn a b c d p q s t zero lt = ap e {x = pn + 0} (omega arith) ∙ p
lane_of e pn a b c d p q s t (suc zero) lt = q
lane_of e pn a b c d p q s t (suc (suc zero)) lt = s
lane_of e pn a b c d p q s t (suc (suc (suc zero))) lt = t
lane_of e pn a b c d p q s t (suc (suc (suc (suc r)))) lt = absurd (omega arith)

module _ (dst_port : ℕ → ℕ) where
  abbrev next_same : ℕ → Bool
  next_same i = same dst_port i (i + 1)

  -- The last comparison of the blocks is one of a port with itself.
  abbrev closed_at : ℕ → ℕ → Bool
  closed_at k i = if i == k then true else next_same i

  full_block-Head :
      (pn : ℕ) (g : Groups)
      → pn + 5 < 65536
      → Head next_same pn g
      → Head next_same (pn + 4) (full_block dst_port pn g)
  unfolding full_block
  full_block-Head pn g small h =
      (port_groupx4-Head next_same next_same pn _ _ _ _ g small (λ k lt t. t)
        (lane_of next_same pn _ _ _ _ refl (next 1 2 (omega arith)) (next 2 3 (omega arith))
          (next 3 4 (omega arith)))
        h).0
    where
      next :
          (o o' : ℕ) → pn + o + 1 ≡ pn + o' → next_same (pn + o) ≡ same dst_port (pn + o) (pn + o')
      next o o' q = ap (same dst_port (pn + o)) q

  full_blocks-Head :
      (rounds pn : ℕ) (g : Groups)
      → pn + rounds * 4 + 5 < 65536
      → Head next_same pn g
      → Head next_same (pn + rounds * 4) (full_blocks dst_port rounds pn g)
  unfolding full_blocks
  full_blocks-Head zero pn g small h = subst (λ k. Head next_same k g) {x = pn} (omega arith) h
  full_blocks-Head (suc rounds) pn g small h =
      subst
        (λ k. Head next_same k (full_blocks dst_port rounds (pn + 4) (full_block dst_port pn g)))
        {x = pn + 4 + rounds * 4} (omega arith)
        (full_blocks-Head rounds (pn + 4) _ (omega arith) (full_block-Head pn g (omega arith) h))

  last_block-Head :
      (pn : ℕ) (g : Groups)
      → pn + 5 < 65536
      → Head next_same pn g
      → let g' = last_block dst_port pn g in
        Head (closed_at (pn + 3)) (pn + 4) g' × (g'.lp ≤ pn + 3)
  unfolding last_block
  last_block-Head pn g small h =
      let (h', le) =
        port_groupx4-Head next_same (closed_at (pn + 3)) pn _ _ _ _ g small
          (λ k lt t. closed k (λ q. omega arith) ∙ t)
          (lane_of (closed_at (pn + 3)) pn _ _ _ _ (closed pn (λ q. omega arith))
            (next 1 2 (omega arith) (λ q. omega arith)) (next 2 3 (omega arith) (λ q. omega arith))
            (rw (==_refl (pn + 3)) (sym (==_refl (dst_port (pn + 3))))))
          h in
      (h', le (==_refl (dst_port (pn + 3))))
    where
      closed : (k : ℕ) → k ≢ pn + 3 → closed_at (pn + 3) k ≡ next_same k
      closed k ne = ground arith

      next :
          (o o' : ℕ)
          → pn + o + 1 ≡ pn + o'
          → pn + o ≢ pn + 3
          → closed_at (pn + 3) (pn + o) ≡ same dst_port (pn + o) (pn + o')
      next o o' q ne = closed (pn + o) ne ∙ ap (same dst_port (pn + o)) q

  vector_part-At :
      (junk : ℕ → ℕ) (rounds : ℕ)
      → rounds * 4 + 5 < 65536
      → At next_same dst_port
          (rounds * 4 + 4)
          (vector_part dst_port junk rounds)
          (dst_port (rounds * 4 + 4 - 1))
  unfolding vector_part
  vector_part-At junk rounds small = record {
    chain =
        Chain-ext next_same _ h.chain (λ i lt. opened i (omega (arith, below)))
          (λ i lt. update_ne g.pnum g.lp _ i (λ q. omega arith));
    last = (
      omega (arith, size, below, h.counts),
      λ i lo hi.
          opened i (omega (arith, hi, size, h.counts, below))
            (h.open_run.1 i lo (omega (arith, hi, size, below))),
    );
    ends = omega (arith, size, h.counts, below);
    last_port = refl;
  }
    where
      start : Groups
      start = record { pnum = update junk 0 1; lp = 0 }

      started : Head next_same 0 start
      started = record {
        inside = omega arith;
        counts = refl;
        open_run = (omega arith, λ i lo hi. absurd (omega arith));
        chain = done refl;
      }

      g : Groups
      g = last_block dst_port (rounds * 4) (full_blocks dst_port rounds 0 start)

      both : Head (closed_at (rounds * 4 + 3)) (rounds * 4 + 4) g × (g.lp ≤ rounds * 4 + 3)
      both = last_block-Head (rounds * 4) _ small (
          subst (λ k. Head next_same k (full_blocks dst_port rounds 0 start)) {x = 0 + rounds * 4}
            (omega arith) (full_blocks-Head rounds 0 start (omega (arith, small)) started))

      h : Head (closed_at (rounds * 4 + 3)) (rounds * 4 + 4) g
      h = both.0

      below : g.lp ≤ rounds * 4 + 3
      below = both.1

      size : update g.pnum g.lp ((g.pnum g.lp + 65535) % 65536) g.lp ≡ g.pnum g.lp - 1
      size = update_self g.pnum g.lp _ ∙ omega (arith, h.counts, below, small)

      opened :
          (i : ℕ) → i < rounds * 4 + 3 → closed_at (rounds * 4 + 3) i ≡ true → next_same i ≡ true
      opened i lt t = ground arith

  -- The first packet of a group, whatever came before.
  starts-At :
      (j dlp : ℕ) (g : Groups)
      → dlp ≢ dst_port j
      → Chain next_same g.pnum 0 j
      → let (g', dlp') = group_port_step dst_port j (g, dlp) in
        At next_same dst_port (j + 1) g' dlp'
  unfolding group_port_step
  starts-At j dlp g ne c = rw (other) (record {
    chain =
        Chain-ext next_same _ c (λ i lt t. t) (λ i lt. update_ne g.pnum j 1 i (λ q. omega arith));
    last = (omega (arith, one), λ i lo hi. absurd (omega (arith, one)));
    ends = omega (arith, one);
    last_port = ap dst_port (omega arith);
  })
    where
      other : (dlp == dst_port j) ≡ false
      other = ground (arith, ne)

      one : update g.pnum j 1 j ≡ 1
      one = update_self g.pnum j 1

  goes_on-At :
      (j dlp : ℕ) (g : Groups)
      → j < 65535
      → dlp ≡ dst_port j
      → At next_same dst_port j g dlp
      → let (g', dlp') = group_port_step dst_port j (g, dlp) in
        At next_same dst_port (j + 1) g' dlp'
  unfolding group_port_step
  goes_on-At j dlp g small e h = rw ((==_iff _ _).1 e) (record {
    chain =
        Chain-ext next_same _ h.chain (λ i lt t. t)
          (λ i lt. update_ne g.pnum g.lp _ i (λ q. omega arith));
    last = (
      omega (arith, size),
      λ i lo hi. elim (inner i (omega (arith, hi, size, h.ends))) [
        | inl q ↦ h.last.1 i lo (omega (arith, q, h.ends))
        | inr q ↦
            (==_iff _ _).1 (
              ap dst_port (omega (arith, q)) ∙ sym h.last_port ∙ e ∙ ap dst_port (omega (arith, q)))
      ],
    );
    ends = omega (arith, size, h.ends);
    last_port = e ∙ ap dst_port (omega arith);
  })
    where
      size : update g.pnum g.lp ((g.pnum g.lp + 1) % 65536) g.lp ≡ g.pnum g.lp + 1
      size = update_self g.pnum g.lp _ ∙ omega (arith, h.ends, small)

      inner : (i : ℕ) → i < j → (i + 1 < j) ⊎ (i + 1 ≡ j)
      inner i lt = ground arith

  step-At :
      (j dlp : ℕ) (g : Groups)
      → j < 65535
      → At next_same dst_port j g dlp
      → let (g', dlp') = group_port_step dst_port j (g, dlp) in
        At next_same dst_port (j + 1) g' dlp'
  step-At j dlp g small h = elim (Bool-cases (dlp == dst_port j)) [
    | inl more ↦ goes_on-At j dlp g small ((==_iff _ _).0 more) h
    | inr other ↦ starts-At j dlp g (==_ne _ _ other) (Chain-snoc j h.chain h.last h.ends)
  ]

  tail_steps-At :
      (left j dlp : ℕ) (g : Groups)
      → j + left ≤ 65535
      → At next_same dst_port j g dlp
      → let (g', dlp') = tail_steps dst_port left j (g, dlp) in
        At next_same dst_port (j + left) g' dlp'
  unfolding tail_steps
  tail_steps-At zero j dlp g small h =
      subst (λ k. At next_same dst_port k g dlp) {x = j} (omega arith) h
  tail_steps-At (suc left) j dlp g small h =
      let (g1, dlp1) = group_port_step dst_port j (g, dlp) in
      let (g', dlp') = tail_steps dst_port left (j + 1) (g1, dlp1) in
      subst (λ k. At next_same dst_port k g' dlp') {x = j + 1 + left} (omega arith)
        (tail_steps-At left (j + 1) dlp1 g1 (omega arith) (step-At j dlp g (omega arith) h))

  same_port :
      (a n i : ℕ)
      → ((k : ℕ) → a ≤ k → k + 1 < a + n → next_same k ≡ true)
      → i < n
      → dst_port (a + i) ≡ dst_port a
  same_port a n zero h lt = ap dst_port {x = a + 0} (omega arith)
  same_port a n (suc i) h lt =
      ap dst_port {x = a + suc i} (omega arith)
      ∙ sym ((==_iff _ _).0 (h (a + i) (omega arith) (omega arith)))
      ∙ same_port a n i h (omega arith)

  Chain-Grouped : {pnum : ℕ → ℕ} {a b : ℕ} → Chain next_same pnum a b → Grouped dst_port pnum a b
  Chain-Grouped {pnum} {a} (done p) = subst (Grouped dst_port pnum a) p group_end
  Chain-Grouped {pnum} {a} (link (pos, run) c) =
      group pos (λ i lt. same_port a (pnum a) i run lt) (Chain-Grouped c)

  At-Grouped :
      {j dlp : ℕ} {g : Groups} → At next_same dst_port j g dlp → Grouped dst_port g.pnum 0 j
  At-Grouped {j} h = Chain-Grouped (Chain-snoc j h.chain h.last h.ends)

  first_steps-At :
      (n lp : ℕ) (junk : ℕ → ℕ)
      → n < 65535
      → dst_port 0 ≢ 65534
      → let (g', dlp') = tail_steps dst_port (suc n) 0 (record { pnum = junk; lp = lp }, 65534) in
        At next_same dst_port (1 + n) g' dlp'
  unfolding tail_steps
  first_steps-At n lp junk small no_port =
      tail_steps-At n 1 _ _ (omega arith)
        (starts-At 0 65534 (record { pnum = junk; lp = lp }) (λ q. no_port (sym q)) (done refl))

  -- For a burst of 1 to 65000 packets whose first destination is not the value 65534 that the code
  -- takes for none, whatever pnum held before, group_ports splits the burst into groups: from
  -- packet 0 on, each group has a packet, all of its packets have the port of its first one, and
  -- the groups end with the burst.
  pub group_ports-Grouped :
      (junk : ℕ → ℕ) (max_burst nb_rx : ℕ)
      → 0 < nb_rx
      → nb_rx ≤ 65000
      → dst_port 0 ≢ 65534
      → Grouped dst_port (group_ports dst_port junk max_burst nb_rx) 0 nb_rx
  unfolding group_ports
  group_ports-Grouped junk max_burst nb_rx pos most no_port =
      elim (Bool-cases (nb_rx / 4 * 4 == 0)) [
        | inl few ↦
            rw (group_ports, few, (==_iff _ _).0 few)
              (subst
                (λ n.
                  Grouped dst_port
                    (tail_steps dst_port n 0 (record { pnum = junk; lp = max_burst }, 65534)).0.pnum
                    0 nb_rx)
                {x = suc (nb_rx - 1)} (omega (arith, (==_iff _ _).0 few))
                (subst (Grouped dst_port _ 0) {x = 1 + (nb_rx - 1)} (omega arith)
                  (At-Grouped (first_steps-At (nb_rx - 1) max_burst junk (omega arith) no_port))))
        | inr blocks ↦
            rw (group_ports, blocks)
              (let some_block : 0 < nb_rx / 4 = ground (arith, ==_ne _ _ blocks) in
                let k : (nb_rx / 4 - 1) * 4 + 4 ≡ nb_rx / 4 * 4 = omega (arith, some_block) in
                subst (Grouped dst_port _ 0) {x = nb_rx / 4 * 4 + nb_rx % 4} (omega arith) (
                  At-Grouped (
                    tail_steps-At (nb_rx % 4) (nb_rx / 4 * 4) _ _ (omega arith) (
                      subst
                        (λ j.
                          At next_same dst_port j (vector_part dst_port junk (nb_rx / 4 - 1))
                            (dst_port (j - 1)))
                        k (vector_part-At junk (nb_rx / 4 - 1) (omega arith))))))
      ]
