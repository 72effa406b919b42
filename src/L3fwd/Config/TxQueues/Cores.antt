-- ===== src/L3fwd/Config/TxQueues/Cores.antt =====
-- l3fwd/main.c: the loop over the cores for one port.
use dpdk_practice.Base.{
  ℕ, zero, suc, ◌+◌, ◌≤◌, ◌<◌, Bool, true, false, [], ◌∷◌, ◌++◌, some, ◌==◌, ==_iff, ◌≡◌, ◌≢◌, sym,
  ap, subst, ◌∙◌, arith, ◌⊎◌, inl, inr, Bool-cases, update, update_self, update_ne, rank, rank_lt,
  rank_fails, rank_passes,
}
use dpdk_practice.L3fwd.Config.TxQueues.{TxQueues, add_tx_queue, add_tx_queues}

module _ (lcore_enabled : ℕ → Bool) (tx_queue_setup : ℕ → ℕ → ℕ → Bool) where
  -- From `s` to `t`, the cores below `n` have got a queue on the port.
  pub record Given (portid n : ℕ) (s t : TxQueues) : Type 0 where
    pub ports :
        (lcore : ℕ)
        → lcore < n
        → lcore_enabled lcore ≡ true
        → t.tx_port_id lcore ≡ s.tx_port_id lcore ++ (portid ∷ [])
    pub queue :
        (lcore : ℕ)
        → lcore < n
        → lcore_enabled lcore ≡ true
        → t.tx_queue_id lcore portid ≡ rank lcore_enabled lcore
    pub others : (lcore q : ℕ) → q ≢ portid → t.tx_queue_id lcore q ≡ s.tx_queue_id lcore q
    pub later : (lcore : ℕ) → n ≤ lcore → t.tx_port_id lcore ≡ s.tx_port_id lcore

  last_or_before : (i n : ℕ) → i < n + 1 → (i ≡ n) ⊎ (i < n)
  last_or_before i n lt = ground arith

  skip-Given :
      (portid n : ℕ) (s t : TxQueues)
      → lcore_enabled n ≡ false
      → Given portid n s t
      → Given portid (n + 1) s t
  skip-Given portid n s t off h = record {
    ports = λ lcore lt on. elim (last_or_before lcore n lt) [
      | inl e ↦ absurd (cc (off, on, ap lcore_enabled e))
      | inr less ↦ h.ports lcore less on
    ];
    queue = λ lcore lt on. elim (last_or_before lcore n lt) [
      | inl e ↦ absurd (cc (off, on, ap lcore_enabled e))
      | inr less ↦ h.queue lcore less on
    ];
    others = h.others;
    later = λ lcore le. h.later lcore (omega (arith, le));
  }

  add-Given :
      (portid n queueid : ℕ) (s t : TxQueues)
      → queueid ≡ rank lcore_enabled n
      → Given portid n s t
      → Given portid (n + 1) s (record {
        tx_port_id = update t.tx_port_id n (t.tx_port_id n ++ (portid ∷ []));
        tx_queue_id = update t.tx_queue_id n (update (t.tx_queue_id n) portid queueid);
      })
  add-Given portid n queueid s t k h = record {
    ports = λ lcore lt on. elim (last_or_before lcore n lt) [
      | inl e ↦
          subst
            (λ l.
              update t.tx_port_id n (t.tx_port_id n ++ (portid ∷ [])) l
              ≡ s.tx_port_id l ++ (portid ∷ []))
            (sym e)
            (update_self t.tx_port_id n _
              ∙ ap (λ xs. xs ++ (portid ∷ [])) (h.later n (omega arith)))
      | inr less ↦
          update_ne t.tx_port_id n _ lcore (λ e. omega (arith, e, less)) ∙ h.ports lcore less on
    ];
    queue = λ lcore lt on. elim (last_or_before lcore n lt) [
      | inl e ↦
          subst
            (λ l.
              update t.tx_queue_id n (update (t.tx_queue_id n) portid queueid) l portid
              ≡ rank lcore_enabled l)
            (sym e)
            (ap (λ f. f portid) (update_self t.tx_queue_id n _)
              ∙ update_self (t.tx_queue_id n) portid _
              ∙ k)
      | inr less ↦
          ap (λ f. f portid) (update_ne t.tx_queue_id n _ lcore (λ e. omega (arith, e, less)))
          ∙ h.queue lcore less on
    ];
    others = λ lcore q ne. elim (Bool-cases (lcore == n)) [
      | inl same ↦ rw same (
          update_ne (t.tx_queue_id n) portid _ q ne
          ∙ ap (λ l. t.tx_queue_id l q) (sym ((==_iff lcore n).0 same))
          ∙ h.others lcore q ne)
      | inr other ↦ rw other (h.others lcore q ne)
    ];
    later = λ lcore le.
        update_ne t.tx_port_id n _ lcore (λ e. omega (arith, e, le))
        ∙ h.later lcore (omega (arith, le));
  }

  -- The port has a queue for each core, and takes each number below that.
  module _ (portid n_tx_queue : ℕ)
      (takes : (q : ℕ) → q < n_tx_queue → tx_queue_setup portid n_tx_queue q ≡ true) where
    pub add_tx_queues-Given :
        (rounds n m queueid : ℕ) (s t : TxQueues)
        → rounds + n ≡ m
        → rank lcore_enabled m ≤ n_tx_queue
        → queueid ≡ rank lcore_enabled n
        → Given portid n s t
        → (t' : TxQueues) × (add_tx_queues lcore_enabled tx_queue_setup portid n_tx_queue rounds n
              (queueid, t)
            ≡ some (rank lcore_enabled m, t'))
          × Given portid m s t'
    unfolding add_tx_queues add_tx_queue
    add_tx_queues-Given zero n m queueid s t end few k h =
        let e : n ≡ m = omega (arith, end) in
        (
          t,
          ap (λ q. some (q, t)) (k ∙ ap (rank lcore_enabled) e),
          subst (λ j. Given portid j s t) e h,
        )
    add_tx_queues-Given (suc rounds) n m queueid s t end few k h =
        elim (Bool-cases (lcore_enabled n)) [
          | inr off ↦ rw off (
              add_tx_queues-Given rounds (n + 1) m queueid s t (omega (arith, end)) few
                (k ∙ sym (rank_fails lcore_enabled n off) ∙ next) (skip-Given portid n s t off h))
          | inl on ↦
              rw (on, takes queueid (below on))
                (add_tx_queues-Given rounds (n + 1) m (queueid + 1) s _ (omega (arith, end)) few
                  (omega (arith, k, rank_passes lcore_enabled n on, next))
                  (add-Given portid n queueid s t k h))
        ]
      where
        next : rank lcore_enabled (suc n) ≡ rank lcore_enabled (n + 1)
        next = ap (rank lcore_enabled) {x = suc n} {y = n + 1} (omega arith)

        below : lcore_enabled n ≡ true → queueid < n_tx_queue
        below on = omega (arith, k, few, rank_lt lcore_enabled n m (omega (arith, end)) on)
