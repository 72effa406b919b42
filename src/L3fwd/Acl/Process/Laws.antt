-- ===== src/L3fwd/Acl/Process/Laws.antt =====
-- l3fwd/l3fwd_acl.c: acl_process_pkts finds for each packet what a search for it alone gives.
use dpdk_practice.Base.{
  ℕ, zero, suc, ◌+◌, ◌-◌, ◌%◌, ◌≤◌, ◌<◌, Bool, true, false, ◌&&◌, not, ◌==◌, if◌then◌else◌, bit_and,
  ◌≡◌, refl, sym, ap, ◌∙◌, arith, subst, inl, inr, Bool-cases, rank, rank_passes, rank_fails,
  rank_lt, push_ranked, keep_ranked, push_filled,
}
use dpdk_practice.L3fwd.Rfc1812.{bad_port}
use dpdk_practice.L3fwd.Tx.Copy.{Table}
use dpdk_practice.L3fwd.Acl.Process.{
  PktType, type_none, type_ipv4, type_ipv6, acl_deny_signature, fwd_port_shift, prefetch_offset,
  AclSearch, l3fwd_acl_prepare_one_packet, prepare_packets, l3fwd_acl_prepare_acl_parameter,
  Combined, store_hop, combine_one, combine, Classify, classify_any, acl_process_pkts,
}

module _ (is_ipv4 is_ipv6 : ℕ → Bool) (pkts : Table) where
  abbrev pub v4_at : ℕ → Bool
  v4_at i = is_ipv4 (pkts i)

  abbrev pub v6_at : ℕ → Bool
  v6_at i = not (is_ipv4 (pkts i)) && is_ipv6 (pkts i)

  abbrev pub type_at : ℕ → PktType
  type_at i =
      if is_ipv4 (pkts i) then type_ipv4 else if is_ipv6 (pkts i) then type_ipv6 else type_none

  -- The first `n` packets are split.
  pub record Split (n : ℕ) (s : AclSearch) : Type 0 where
    pub count4 : s.num_ipv4 ≡ rank v4_at n
    pub count6 : s.num_ipv6 ≡ rank v6_at n
    pub typed : (i : ℕ) → i < n → s.types i ≡ type_at i
    pub stored4 : (i : ℕ) → i < n → v4_at i ≡ true → s.data_ipv4 (rank v4_at i) ≡ pkts i
    pub stored6 : (i : ℕ) → i < n → v6_at i ≡ true → s.data_ipv6 (rank v6_at i) ≡ pkts i

  prepare_one-Split :
      (n : ℕ) (s : AclSearch)
      → Split n s
      → Split (suc n) (l3fwd_acl_prepare_one_packet is_ipv4 is_ipv6 pkts n s)
  unfolding l3fwd_acl_prepare_one_packet
  prepare_one-Split n s h = elim (Bool-cases (is_ipv4 (pkts n))) [
    | inl four ↦
        (let no_six : v6_at n ≡ false = rw four refl in
          let is_four : type_ipv4 ≡ type_at n = rw four refl in
          rw (l3fwd_acl_prepare_one_packet, four)
            (record {
              count4 = omega (arith, h.count4, rank_passes v4_at n four);
              count6 = h.count6 ∙ sym (rank_fails v6_at n no_six);
              typed = push_filled type_at n s.types type_ipv4 is_four h.typed;
              stored4 = push_ranked pkts v4_at n _ s.data_ipv4 h.count4 h.stored4;
              stored6 = keep_ranked pkts v6_at n s.data_ipv6 no_six h.stored6;
            }))
    | inr other ↦ elim (Bool-cases (is_ipv6 (pkts n))) [
      | inl six ↦
          (let is_six : v6_at n ≡ true = rw (other, six) refl in
            let six_type : type_ipv6 ≡ type_at n = rw (other, six) refl in
            rw (l3fwd_acl_prepare_one_packet, other, six)
              (record {
                count4 = h.count4 ∙ sym (rank_fails v4_at n other);
                count6 = omega (arith, h.count6, rank_passes v6_at n is_six);
                typed = push_filled type_at n s.types type_ipv6 six_type h.typed;
                stored4 = keep_ranked pkts v4_at n s.data_ipv4 other h.stored4;
                stored6 = push_ranked pkts v6_at n _ s.data_ipv6 h.count6 h.stored6;
              }))
      | inr neither ↦
          (let no_six : v6_at n ≡ false = rw (other, neither) refl in
            let no_type : type_none ≡ type_at n = rw (other, neither) refl in
            rw (l3fwd_acl_prepare_one_packet, other, neither)
              (record {
                count4 = h.count4 ∙ sym (rank_fails v4_at n other);
                count6 = h.count6 ∙ sym (rank_fails v6_at n no_six);
                typed = push_filled type_at n s.types type_none no_type h.typed;
                stored4 = keep_ranked pkts v4_at n s.data_ipv4 other h.stored4;
                stored6 = keep_ranked pkts v6_at n s.data_ipv6 no_six h.stored6;
              }))
    ]
  ]

  prepare_packets-Split :
      (rounds n : ℕ) (s : AclSearch)
      → Split n s
      → Split (n + rounds) (prepare_packets is_ipv4 is_ipv6 pkts rounds n s)
  unfolding prepare_packets
  prepare_packets-Split zero n s h = subst (λ k. Split k s) {x = n} (omega arith) h
  prepare_packets-Split (suc rounds) n s h =
      (let s' = l3fwd_acl_prepare_one_packet is_ipv4 is_ipv6 pkts n s in
        subst (λ k. Split k (prepare_packets is_ipv4 is_ipv6 pkts rounds (n + 1) s'))
          {x = n + 1 + rounds} (omega arith)
          (prepare_packets-Split rounds (n + 1) s'
            (subst (λ k. Split k s') {x = suc n} (omega arith) (prepare_one-Split n s h))))

  none-Split : (s : AclSearch) → Split 0 (record s { num_ipv4 = 0; num_ipv6 = 0 })
  none-Split s = record {
    count4 = refl;
    count6 = refl;
    typed = λ i lt. absurd (omega arith);
    stored4 = λ i lt mine. absurd (omega arith);
    stored6 = λ i lt mine. absurd (omega arith);
  }

  prepare_acl_parameter-Split :
      (nb_rx : ℕ) (s : AclSearch)
      → Split nb_rx (l3fwd_acl_prepare_acl_parameter is_ipv4 is_ipv6 pkts nb_rx s)
  unfolding l3fwd_acl_prepare_acl_parameter
  prepare_acl_parameter-Split nb_rx s =
      (let first = nb_rx - prefetch_offset in
        let s0 : AclSearch = record s { num_ipv4 = 0; num_ipv6 = 0 } in
        let s1 = prepare_packets is_ipv4 is_ipv6 pkts first 0 s0 in
        subst (λ k. Split k (l3fwd_acl_prepare_acl_parameter is_ipv4 is_ipv6 pkts nb_rx s))
          {x = first + (nb_rx - first)} (omega arith)
          (prepare_packets-Split (nb_rx - first) first s1 (
            subst (λ k. Split k s1) {x = 0 + first} (omega arith)
              (prepare_packets-Split first 0 s0 (none-Split s)))))

-- A result that stands for a port.
abbrev pub is_forward : ℕ → Bool
is_forward res = bit_and res acl_deny_signature == 0 && not (res == 0)

abbrev pub hop_of : ℕ → ℕ
hop_of res = if is_forward res then (res - fwd_port_shift) % 65536 else bad_port

-- The documented behaviour of rte_acl_classify: each packet is searched for on its own, and `match`
-- is what is found.
abbrev pub SearchesEach : Classify → (ℕ → ℕ) → Type 0
SearchesEach classify match =
    (pkts : Table) (num : ℕ) (results : Table) (i : ℕ)
    → i < num
    → classify pkts num results i ≡ match (pkts i)

found_by :
    (classify : Classify) (match : ℕ → ℕ)
    → SearchesEach classify match
    → (pkts res : Table) {num i : ℕ} (pkt : ℕ) → i < num
    → pkts i ≡ pkt
    → classify_any classify pkts num res i ≡ match pkt
unfolding classify_any
found_by classify match law pkts res {num} {i} pkt lt e =
    (let some_packet : (num == 0) ≡ false = ground arith in
      rw (classify_any, some_packet) (law pkts num res i lt ∙ ap match e))

module _ (is_ipv4 is_ipv6 : ℕ → Bool) (match4 match6 : ℕ → ℕ) where
  -- What a search for one packet gives.
  abbrev pub result_of : ℕ → ℕ
  result_of pkt = if is_ipv4 pkt then match4 pkt else if is_ipv6 pkt then match6 pkt else 0

  module _ (pkts : Table) where
    abbrev pub drop_at : ℕ → Bool
    drop_at i = not (is_forward (result_of (pkts i)))

    -- The results of `num` packets are ready to be combined.
    record Classified (num : ℕ) (s : AclSearch) : Type 0 where
      typed : (i : ℕ) → i < num → s.types i ≡ type_at is_ipv4 is_ipv6 pkts i
      found4 :
          (i : ℕ)
          → i < num
          → v4_at is_ipv4 is_ipv6 pkts i ≡ true
          → s.res_ipv4 (rank (v4_at is_ipv4 is_ipv6 pkts) i) ≡ match4 (pkts i)
      found6 :
          (i : ℕ)
          → i < num
          → v6_at is_ipv4 is_ipv6 pkts i ≡ true
          → s.res_ipv6 (rank (v6_at is_ipv4 is_ipv6 pkts) i) ≡ match6 (pkts i)

    -- The first `n` packets have their hops.
    record Filled (n : ℕ) (c : Combined) : Type 0 where
      count4 : c.n4 ≡ rank (v4_at is_ipv4 is_ipv6 pkts) n
      count6 : c.n6 ≡ rank (v6_at is_ipv4 is_ipv6 pkts) n
      dropped : c.k ≡ rank drop_at n
      found : (i : ℕ) → i < n → c.hops i ≡ hop_of (result_of (pkts i))

    -- The result `res` of packet `n` is the right one; the counters are `n4` and `n6`.
    store_hop-Filled :
        (n res : ℕ) (c : Combined) (n4 n6 : ℕ)
        → res ≡ result_of (pkts n)
        → n4 ≡ rank (v4_at is_ipv4 is_ipv6 pkts) (suc n)
        → n6 ≡ rank (v6_at is_ipv4 is_ipv6 pkts) (suc n)
        → Filled n c
        → Filled (suc n) (store_hop n res (record c { n4 = n4; n6 = n6 }))
    unfolding store_hop
    store_hop-Filled n res c n4 n6 e e4 e6 h = elim (Bool-cases (is_forward res)) [
      | inl go ↦
          (let forward : is_forward (result_of (pkts n)) ≡ true = sym (ap is_forward e) ∙ go in
            rw (store_hop, go)
              (record {
                count4 = e4;
                count6 = e6;
                dropped = h.dropped ∙ sym (rank_fails drop_at n (ap not forward));
                found =
                    push_filled (λ i. hop_of (result_of (pkts i))) n c.hops _
                      (ap (λ r. (r - fwd_port_shift) % 65536) e ∙ rw forward refl) h.found;
              }))
      | inr bad ↦
          (let denied : is_forward (result_of (pkts n)) ≡ false = sym (ap is_forward e) ∙ bad in
            rw (store_hop, bad)
              (record {
                count4 = e4;
                count6 = e6;
                dropped = omega (arith, h.dropped, rank_passes drop_at n (ap not denied));
                found =
                    push_filled (λ i. hop_of (result_of (pkts i))) n c.hops bad_port
                      (rw denied refl) h.found;
              }))
    ]

    combine_one-Filled :
        (num n : ℕ) (s : AclSearch) (c : Combined)
        → n < num
        → Classified num s
        → Filled n c
        → Filled (suc n) (combine_one s n c)
    unfolding combine_one
    combine_one-Filled num n s c lt r h = elim (Bool-cases (is_ipv4 (pkts n))) [
      | inl four ↦
          (let of_type : s.types n ≡ type_ipv4 = r.typed n lt ∙ rw four refl in
            let res : s.res_ipv4 c.n4 ≡ result_of (pkts n) =
              ap s.res_ipv4 h.count4 ∙ r.found4 n lt four ∙ rw four refl in
            rw (combine_one, of_type)
              (store_hop-Filled n _ c (c.n4 + 1) c.n6 res
                (omega (arith, h.count4, rank_passes (v4_at is_ipv4 is_ipv6 pkts) n four))
                (h.count6 ∙ sym (rank_fails (v6_at is_ipv4 is_ipv6 pkts) n (rw four refl))) h))
      | inr other ↦ elim (Bool-cases (is_ipv6 (pkts n))) [
        | inl six ↦
            (let is_six : v6_at is_ipv4 is_ipv6 pkts n ≡ true = rw (other, six) refl in
              let of_type : s.types n ≡ type_ipv6 = r.typed n lt ∙ rw (other, six) refl in
              let res : s.res_ipv6 c.n6 ≡ result_of (pkts n) =
                ap s.res_ipv6 h.count6 ∙ r.found6 n lt is_six ∙ rw (other, six) refl in
              rw (combine_one, of_type)
                (store_hop-Filled n _ c c.n4 (c.n6 + 1) res
                  (h.count4 ∙ sym (rank_fails (v4_at is_ipv4 is_ipv6 pkts) n other))
                  (omega (arith, h.count6, rank_passes (v6_at is_ipv4 is_ipv6 pkts) n is_six)) h))
        | inr neither ↦
            (let of_type : s.types n ≡ type_none = r.typed n lt ∙ rw (other, neither) refl in
              rw (combine_one, of_type)
                (store_hop-Filled n 0 c c.n4 c.n6 (rw (other, neither) refl)
                  (h.count4 ∙ sym (rank_fails (v4_at is_ipv4 is_ipv6 pkts) n other))
                  (h.count6
                    ∙ sym (rank_fails (v6_at is_ipv4 is_ipv6 pkts) n (rw (other, neither) refl)))
                  h))
      ]
    ]

    combine-Filled :
        (num rounds n : ℕ) (s : AclSearch) (c : Combined)
        → n + rounds ≤ num
        → Classified num s
        → Filled n c
        → Filled (n + rounds) (combine s rounds n c)
    unfolding combine
    combine-Filled num zero n s c le r h = subst (λ k. Filled k c) {x = n} (omega arith) h
    combine-Filled num (suc rounds) n s c le r h =
        (let c' = combine_one s n c in
          subst (λ k. Filled k (combine s rounds (n + 1) c')) {x = n + 1 + rounds} (omega arith)
            (combine-Filled num rounds (n + 1) s c' (omega arith) r (
              subst (λ k. Filled k c') {x = suc n} (omega arith)
                (combine_one-Filled num n s c (omega arith) r h))))

  -- If rte_acl_classify searches for each packet on its own, acl_process_pkts, which splits the
  -- burst by family, classifies in bulk and puts the results together, gives each packet the hop
  -- that the search for it alone gives, BAD_PORT for a result that is 0, denied or of no family,
  -- and returns how many packets have no result that stands for a port.
  pub acl_process_pkts-lem :
      (classify4 classify6 : Classify)
      → SearchesEach classify4 match4
      → SearchesEach classify6 match6
      → (fresh : AclSearch) (pkts hops : Table) (num : ℕ)
      → let (nb_drop, hops') =
          acl_process_pkts is_ipv4 is_ipv6 classify4 classify6 fresh pkts hops num in
        (nb_drop ≡ rank (drop_at pkts) num)
        × ((i : ℕ) → i < num → hops' i ≡ hop_of (result_of (pkts i)))
  unfolding acl_process_pkts
  acl_process_pkts-lem classify4 classify6 law4 law6 fresh pkts hops num =
      (let h =
          subst (λ n. Filled pkts n (combine found num 0 start)) {x = 0 + num} (omega arith)
            (combine-Filled pkts num num 0 found start (omega arith) ready begun) in
        (h.dropped, h.found))
    where
      s : AclSearch
      s = l3fwd_acl_prepare_acl_parameter is_ipv4 is_ipv6 pkts num fresh

      split : Split is_ipv4 is_ipv6 pkts num s
      split = prepare_acl_parameter-Split is_ipv4 is_ipv6 pkts num fresh

      found : AclSearch
      found = record s {
        res_ipv4 = classify_any classify4 s.data_ipv4 s.num_ipv4 s.res_ipv4;
        res_ipv6 = classify_any classify6 s.data_ipv6 s.num_ipv6 s.res_ipv6;
      }

      start : Combined
      start = record { n4 = 0; n6 = 0; k = 0; hops = hops }

      begun : Filled pkts 0 start
      begun = record {
        count4 = refl;
        count6 = refl;
        dropped = refl;
        found = λ i lt. absurd (omega arith);
      }

      ready : Classified pkts num found
      ready = record {
        typed = split.typed;
        found4 = λ i lt mine.
            found_by classify4 match4 law4 s.data_ipv4 s.res_ipv4 (pkts i)
              (subst (λ n. rank (v4_at is_ipv4 is_ipv6 pkts) i < n) (sym split.count4)
                (rank_lt (v4_at is_ipv4 is_ipv6 pkts) i num lt mine))
              (split.stored4 i lt mine);
        found6 = λ i lt mine.
            found_by classify6 match6 law6 s.data_ipv6 s.res_ipv6 (pkts i)
              (subst (λ n. rank (v6_at is_ipv4 is_ipv6 pkts) i < n) (sym split.count6)
                (rank_lt (v6_at is_ipv4 is_ipv6 pkts) i num lt mine))
              (split.stored6 i lt mine);
      }
