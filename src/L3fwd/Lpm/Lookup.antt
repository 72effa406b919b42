-- ===== src/L3fwd/Lpm/Lookup.antt =====
-- l3fwd/l3fwd_lpm_sse.h: the lookup by fours finds the port that lpm_get_dst_port finds.
use dpdk_practice.Base.{
  ℕ, zero, suc, ◌+◌, ◌-◌, ◌*◌, ◌/◌, ◌%◌, ◌≤◌, ◌<◌, Bool, true, false, ◌&&◌, Option, none, some, ltb,
  leb, if◌then◌else◌, update, update_self, update_ne, ◌≡◌, refl, sym, ap, ◌∙◌, arith, subst, ◌⊎◌,
  inl, inr, Bool-cases,
}
use dpdk_practice.L3fwd.Rfc1812.{Frame}
use dpdk_practice.L3fwd.Routes.{ntohl}
use dpdk_practice.L3fwd.Tx.Copy.{Table}
use dpdk_practice.L3fwd.Multi.{Packets}
use dpdk_practice.L3fwd.Lpm.{
  load32, ipv4_dst_at, Tables, hop_or, packs, store4, lpm_get_dst_port, lpm_get_dst_port_with_ipv4,
  Step1, processx4_step1, step1_blocks, processx4_step2, step2_blocks, classify_last,
  l3fwd_lpm_process_packets,
}

store4_in : (t : Table) (j i : ℕ) (v : ℕ → ℕ) → j ≤ i → i < j + 4 → store4 t j v i ≡ v (i - j)
store4_in t j i v lo hi =
    (let inside : (leb j i && ltb i (j + 4)) ≡ true = ground arith in rw inside refl)

store4_before : (t : Table) (j i : ℕ) (v : ℕ → ℕ) → i < j → store4 t j v i ≡ t i
store4_before t j i v lt =
    (let outside : (leb j i && ltb i (j + 4)) ≡ false = ground arith in rw outside refl)

before_or_in : (b i : ℕ) → i < (b + 1) * 4 → (i < b * 4) ⊎ (b * 4 ≤ i)
before_or_in b i lt = ground arith

-- What rte_lpm_lookupx4 is documented to do: each lane is looked up on its own, and has the
-- default where nothing is found.
abbrev pub LooksUpEach : Tables → Type 0
LooksUpEach tables =
    (ips : ℕ → ℕ) (portid i : ℕ)
    → i < 4
    → tables.lookupx4 ips portid i ≡ hop_or (tables.lookup4 (ips i)) portid

-- The next hops in the IPv4 table are below `n`.
abbrev pub HopsBelow4 : ℕ → Tables → Type 0
HopsBelow4 n tables = (ip hop : ℕ) → tables.lookup4 ip ≡ some hop → hop % 65536 < n

pub hop_or-lt :
    (o : Option ℕ) (portid n : ℕ)
    → ((hop : ℕ) → o ≡ some hop → hop % 65536 < n)
    → portid < n
    → hop_or o portid < n
hop_or-lt none portid n h lt = lt
hop_or-lt (some hop) portid n h lt = h hop refl

module _ (p : Packets) (pkts : Table) where
  abbrev address : ℕ → ℕ
  address i = load32 (p.frame (pkts i)) ipv4_dst_at

  abbrev all_ipv4 : ℕ → Bool
  all_ipv4 b =
      p.is_ipv4 (pkts (b * 4 + 0))
      && p.is_ipv4 (pkts (b * 4 + 1))
      && p.is_ipv4 (pkts (b * 4 + 2))
      && p.is_ipv4 (pkts (b * 4 + 3))

  -- The first `n` blocks are read.
  record Read (n : ℕ) (s : Step1) : Type 0 where
    addresses : (i : ℕ) → i < n * 4 → s.dip i ≡ address i
    flags : (b : ℕ) → b < n → s.ipv4_flag b ≡ all_ipv4 b

  processx4_step1-Read : (n : ℕ) (s : Step1) → Read n s → Read (n + 1) (processx4_step1 p pkts n s)
  unfolding processx4_step1
  processx4_step1-Read n s h = record {
    addresses = λ i lt. elim (before_or_in n i lt) [
      | inl q ↦ store4_before s.dip (n * 4) i (λ k. address (n * 4 + k)) q ∙ h.addresses i q
      | inr q ↦
          store4_in s.dip (n * 4) i (λ k. address (n * 4 + k)) q (omega arith)
          ∙ ap address {x = n * 4 + (i - n * 4)} (omega arith)
    ];
    flags = λ b lt. elim (last_or_before b lt) [
      | inl q ↦
          ap (update s.ipv4_flag n (all_ipv4 n)) q
          ∙ update_self s.ipv4_flag n (all_ipv4 n)
          ∙ ap all_ipv4 (sym q)
      | inr q ↦ update_ne s.ipv4_flag n (all_ipv4 n) b (λ e. omega (arith, e, q)) ∙ h.flags b q
    ];
  }
    where
      last_or_before : (b : ℕ) → b < n + 1 → (b ≡ n) ⊎ (b < n)
      last_or_before b lt = ground arith

  step1_blocks-Read :
      (rounds n : ℕ) (s : Step1) → Read n s → Read (n + rounds) (step1_blocks p pkts rounds n s)
  unfolding step1_blocks
  step1_blocks-Read zero n s h = subst (λ k. Read k s) {x = n} (omega arith) h
  step1_blocks-Read (suc rounds) n s h =
      (let s' = processx4_step1 p pkts n s in
        subst (λ k. Read k (step1_blocks p pkts rounds (n + 1) s')) {x = n + 1 + rounds}
          (omega arith) (step1_blocks-Read rounds (n + 1) s' (processx4_step1-Read n s h)))

  all_ipv4-lane : (b i : ℕ) → all_ipv4 b ≡ true → i < 4 → p.is_ipv4 (pkts (b * 4 + i)) ≡ true
  all_ipv4-lane b zero h lt = ground arith
  all_ipv4-lane b (suc zero) h lt = ground arith
  all_ipv4-lane b (suc (suc zero)) h lt = ground arith
  all_ipv4-lane b (suc (suc (suc zero))) h lt = ground arith
  all_ipv4-lane b (suc (suc (suc (suc i)))) h lt = absurd (omega arith)

packs_small : (v : ℕ) → v < 32768 → packs v ≡ v
packs_small v lt = ground arith

module _ (tables : Tables) (each : LooksUpEach tables) (small : HopsBelow4 32768 tables)
    (p : Packets) (pkts : Table) (portid : ℕ) (small_port : portid < 32768) where
  -- What a lookup for the packet with index `i` gives.
  abbrev port_of : ℕ → ℕ
  port_of i = lpm_get_dst_port tables p (pkts i) portid

  with_ipv4-eq :
      (i : ℕ)
      → lpm_get_dst_port_with_ipv4 tables p (pkts i) (ntohl (address p pkts i)) portid ≡ port_of i
  unfolding lpm_get_dst_port_with_ipv4 lpm_get_dst_port
  with_ipv4-eq i = refl

  ipv4-eq :
      (i : ℕ)
      → p.is_ipv4 (pkts i) ≡ true
      → hop_or (tables.lookup4 (ntohl (address p pkts i))) portid ≡ port_of i
  unfolding lpm_get_dst_port
  ipv4-eq i four = rw (lpm_get_dst_port, four) refl

  abbrev lane_ports : Step1 → ℕ → ℕ → ℕ
  lane_ports s b =
      if s.ipv4_flag b
      then (λ i. packs (tables.lookupx4 (λ k. ntohl (s.dip (b * 4 + k))) portid i))
      else λ i.
          lpm_get_dst_port_with_ipv4 tables p (pkts (b * 4 + i)) (ntohl (s.dip (b * 4 + i))) portid

  lane_ports-eq :
      (n b i : ℕ) (s : Step1)
      → Read p pkts n s
      → b < n
      → i < 4
      → lane_ports s b i ≡ port_of (b * 4 + i)
  lane_ports-eq n b i s h lt lane = elim (Bool-cases (all_ipv4 p pkts b)) [
    | inl all ↦
        rw (h.flags b lt, all)
          (ap packs (each (λ k. ntohl (s.dip (b * 4 + k))) portid i lane)
            ∙ packs_small _ (hop_or-lt _ portid 32768 (small _) small_port)
            ∙ ap (λ a. hop_or (tables.lookup4 (ntohl a)) portid)
                (h.addresses (b * 4 + i) (omega arith))
            ∙ ipv4-eq (b * 4 + i) (all_ipv4-lane p pkts b i all lane))
    | inr some_other ↦
        rw (h.flags b lt, some_other)
          (ap (λ a. lpm_get_dst_port_with_ipv4 tables p (pkts (b * 4 + i)) (ntohl a) portid)
              (h.addresses (b * 4 + i) (omega arith))
            ∙ with_ipv4-eq (b * 4 + i))
  ]

  -- The first `n` packets have their ports.
  abbrev Found : ℕ → Table → Type 0
  Found n t = (i : ℕ) → i < n → t i ≡ port_of i

  processx4_step2-Found :
      (n b : ℕ) (s : Step1) (t : Table)
      → Read p pkts n s
      → b < n
      → Found (b * 4) t
      → Found ((b + 1) * 4) (processx4_step2 tables p pkts portid s b t)
  unfolding processx4_step2
  processx4_step2-Found n b s t h lt found i less = elim (before_or_in b i less) [
    | inl q ↦ store4_before t (b * 4) i (lane_ports s b) q ∙ found i q
    | inr q ↦
        store4_in t (b * 4) i (lane_ports s b) q (omega arith)
        ∙ lane_ports-eq n b (i - b * 4) s h lt (omega arith)
        ∙ ap port_of {x = b * 4 + (i - b * 4)} (omega arith)
  ]

  step2_blocks-Found :
      (n rounds b : ℕ) (s : Step1) (t : Table)
      → Read p pkts n s
      → b + rounds ≤ n
      → Found (b * 4) t
      → Found ((b + rounds) * 4) (step2_blocks tables p pkts portid s rounds b t)
  unfolding step2_blocks
  step2_blocks-Found n zero b s t h le found i less = found i (omega arith)
  step2_blocks-Found n (suc rounds) b s t h le found i less =
      step2_blocks-Found n rounds (b + 1) s (processx4_step2 tables p pkts portid s b t) h
        (omega arith) (processx4_step2-Found n b s t h (omega arith) found) i (omega arith)

  classify_last-Found :
      (val_eth : ℕ → Frame) (left j : ℕ) (t : Table)
      → Found j t
      → let (p', t') = classify_last tables val_eth false pkts portid left j (p, t) in
        Found (j + left) t' × (p' ≡ p)
  unfolding classify_last
  classify_last-Found val_eth zero j t found = (λ i lt. found i (omega arith), refl)
  classify_last-Found val_eth (suc left) j t found =
      (let (rest, same) = classify_last-Found val_eth left (j + 1) (update t j (port_of j)) (λ i lt.
          elim (last_or_before i lt) [
            | inl q ↦ ap (update t j (port_of j)) q ∙ update_self t j _ ∙ ap port_of (sym q)
            | inr q ↦ update_ne t j (port_of j) i (λ e. omega (arith, e, q)) ∙ found i q
          ]) in
        (λ i lt. rest i (omega arith), same))
    where
      last_or_before : (i : ℕ) → i < j + 1 → (i ≡ j) ⊎ (i < j)
      last_or_before i lt = ground arith

  -- If rte_lpm_lookupx4 looks up each lane on its own, the next hops of the IPv4 table are below
  -- 32768 and so is the incoming port, then l3fwd_lpm_process_packets without its third step, by
  -- fours and then one by one, gives each packet of the burst the port that lpm_get_dst_port gives
  -- it, and leaves the packets alone.
  pub l3fwd_lpm_process_packets-lem :
      (val_eth : ℕ → Frame) (nb_rx : ℕ) (fresh : Step1) (t : Table)
      → let (p', dst_port) =
          l3fwd_lpm_process_packets tables val_eth nb_rx pkts portid fresh false (p, t) in
        ((i : ℕ) → i < nb_rx → dst_port i ≡ lpm_get_dst_port tables p (pkts i) portid) × (p' ≡ p)
  unfolding l3fwd_lpm_process_packets
  l3fwd_lpm_process_packets-lem val_eth nb_rx fresh t =
      (let blocks = nb_rx / 4 in
        let s = step1_blocks p pkts blocks 0 fresh in
        let read : Read p pkts blocks s =
          subst (λ n. Read p pkts n s) {x = 0 + blocks} (omega arith)
            (step1_blocks-Read p pkts blocks 0 fresh (record {
              addresses = λ i lt. absurd (omega arith);
              flags = λ b lt. absurd (omega arith);
            })) in
        let t1 = step2_blocks tables p pkts portid s blocks 0 t in
        let found : Found (blocks * 4) t1 = λ i lt.
          step2_blocks-Found blocks blocks 0 s t read (omega arith) (λ k less. absurd (omega arith))
            i (omega arith) in
        let (rest, same) = classify_last-Found val_eth (nb_rx % 4) (blocks * 4) t1 found in
        (λ i lt. rest i (omega arith), same))
