-- ===== src/L3fwd/Fib/Laws.antt =====
-- l3fwd/l3fwd_fib.c: the lookups in bulk give each packet the hop of its own destination.
use dpdk_practice.Base.{
  ℕ, zero, suc, ◌+◌, ◌-◌, ◌%◌, ◌≤◌, ◌<◌, Bool, true, false, not, ◌==◌, if◌then◌else◌, ◌≡◌, refl,
  sym, ap, ◌∙◌, arith, subst, inl, inr, Bool-cases, rank, rank_passes, rank_fails, rank_lt,
  push_ranked, keep_ranked, push_filled,
}
use dpdk_practice.L3fwd.Tx.Copy.{Table}
use dpdk_practice.L3fwd.Multi.{Packets}
use dpdk_practice.L3fwd.Fib.{
  fib_prefetch_offset, fib_default_hop, FibSearch, ipv4_address, ipv6_address, fib_parse_packet,
  fib_parse_packets, fib_parse_burst, FibTables, Assembled, assemble_one, assemble, fib_hops,
}

-- What the lookups in bulk are documented to do: address by address, where `next4` and `next6` are
-- the next hops in the tables, the default one included.
pub record LooksUpEach (tables : FibTables) (next4 : ℕ → ℕ) (next6 : (ℕ → ℕ) → ℕ) : Type 0 where
  pub each4 : (ips hops : Table) (n i : ℕ) → i < n → tables.lookup_bulk ips hops n i ≡ next4 (ips i)
  pub each6 :
      (ips : ℕ → ℕ → ℕ) (hops : Table) (n i : ℕ)
      → i < n
      → tables.lookup_bulk6 ips hops n i ≡ next6 (ips i)

module _ (p : Packets) (pkts : Table) where
  abbrev four : ℕ → Bool
  four i = p.is_ipv4 (pkts i)

  abbrev six : ℕ → Bool
  six i = not (p.is_ipv4 (pkts i))

  abbrev address4 : ℕ → ℕ
  address4 i = ipv4_address p (pkts i)

  abbrev address6 : ℕ → ℕ → ℕ
  address6 i = ipv6_address p (pkts i)

  -- The first `n` packets are parsed.
  record ParsedBurst (n : ℕ) (s : FibSearch) : Type 0 where
    count4 : s.ipv4_cnt ≡ rank four n
    count6 : s.ipv6_cnt ≡ rank six n
    typed : (i : ℕ) → i < n → s.type_arr i ≡ four i
    stored4 : (i : ℕ) → i < n → four i ≡ true → s.ipv4_arr (rank four i) ≡ address4 i
    stored6 : (i : ℕ) → i < n → six i ≡ true → s.ipv6_arr (rank six i) ≡ address6 i

  fib_parse_packet-ParsedBurst :
      (n : ℕ) (s : FibSearch) → ParsedBurst n s → ParsedBurst (suc n) (fib_parse_packet p pkts n s)
  unfolding fib_parse_packet
  fib_parse_packet-ParsedBurst n s h = elim (Bool-cases (four n)) [
    | inl yes_four ↦
        rw (fib_parse_packet, yes_four)
          (record {
            count4 = omega (arith, h.count4, rank_passes four n yes_four);
            count6 = h.count6 ∙ sym (rank_fails six n (ap not yes_four));
            typed = push_filled four n s.type_arr true (sym yes_four) h.typed;
            stored4 = push_ranked address4 four n _ s.ipv4_arr h.count4 h.stored4;
            stored6 = keep_ranked address6 six n s.ipv6_arr (ap not yes_four) h.stored6;
          })
    | inr no_four ↦
        rw (fib_parse_packet, no_four)
          (record {
            count4 = h.count4 ∙ sym (rank_fails four n no_four);
            count6 = omega (arith, h.count6, rank_passes six n (ap not no_four));
            typed = push_filled four n s.type_arr false (sym no_four) h.typed;
            stored4 = keep_ranked address4 four n s.ipv4_arr no_four h.stored4;
            stored6 = push_ranked address6 six n _ s.ipv6_arr h.count6 h.stored6;
          })
  ]

  fib_parse_packets-ParsedBurst :
      (rounds n : ℕ) (s : FibSearch)
      → ParsedBurst n s
      → ParsedBurst (n + rounds) (fib_parse_packets p pkts rounds n s)
  unfolding fib_parse_packets
  fib_parse_packets-ParsedBurst zero n s h = subst (λ k. ParsedBurst k s) {x = n} (omega arith) h
  fib_parse_packets-ParsedBurst (suc rounds) n s h =
      (let s' = fib_parse_packet p pkts n s in
        subst (λ k. ParsedBurst k (fib_parse_packets p pkts rounds (n + 1) s')) {x = n + 1 + rounds}
          (omega arith)
          (fib_parse_packets-ParsedBurst rounds (n + 1) s' (
            subst (λ k. ParsedBurst k s') {x = suc n} (omega arith)
              (fib_parse_packet-ParsedBurst n s h))))

  fib_parse_burst-ParsedBurst :
      (nb_rx : ℕ) (s : FibSearch) → ParsedBurst nb_rx (fib_parse_burst p pkts nb_rx s)
  unfolding fib_parse_burst
  fib_parse_burst-ParsedBurst nb_rx s =
      (let first = nb_rx - fib_prefetch_offset in
        let s0 : FibSearch = record s { ipv4_cnt = 0; ipv6_cnt = 0 } in
        let s1 = fib_parse_packets p pkts first 0 s0 in
        let none_parsed : ParsedBurst 0 s0 = record {
          count4 = refl;
          count6 = refl;
          typed = λ i lt. absurd (omega arith);
          stored4 = λ i lt mine. absurd (omega arith);
          stored6 = λ i lt mine. absurd (omega arith);
        } in
        subst (λ k. ParsedBurst k (fib_parse_burst p pkts nb_rx s)) {x = first + (nb_rx - first)}
          (omega arith)
          (fib_parse_packets-ParsedBurst (nb_rx - first) first s1 (
            subst (λ k. ParsedBurst k s1) {x = 0 + first} (omega arith)
              (fib_parse_packets-ParsedBurst first 0 s0 none_parsed))))

-- The port for a packet, from the tables or, for FIB_DEFAULT_HOP, the other one.
abbrev pub hop_or_port : ℕ → ℕ → ℕ
hop_or_port next portid =
    let nh = next % 65536 in if not (nh == fib_default_hop) then nh else portid

module _ (next4 : ℕ → ℕ) (next6 : (ℕ → ℕ) → ℕ) (p : Packets) (pkts fallback : Table) where
  -- What a lookup of the packet's own destination gives.
  abbrev pub fib_port : ℕ → ℕ
  fib_port i =
      hop_or_port
        (if p.is_ipv4 (pkts i)
          then next4 (ipv4_address p (pkts i))
          else next6 (ipv6_address p (pkts i)))
        (fallback i)

  -- The first `n` packets have their hops.
  record Filled (n : ℕ) (a : Assembled) : Type 0 where
    count4 : a.ipv4_arr_assem ≡ rank (four p pkts) n
    count6 : a.ipv6_arr_assem ≡ rank (six p pkts) n
    found : (i : ℕ) → i < n → a.hops i ≡ fib_port i

  module _ (num : ℕ) (s : FibSearch) (hopsv4 hopsv6 : Table) (h : ParsedBurst p pkts num s)
      (right4 : (i : ℕ)
        → i < num
        → four p pkts i ≡ true
        → hopsv4 (rank (four p pkts) i) ≡ next4 (address4 p pkts i))
      (right6 : (i : ℕ)
        → i < num
        → six p pkts i ≡ true
        → hopsv6 (rank (six p pkts) i) ≡ next6 (address6 p pkts i)) where
    assemble_one-Filled :
        (n : ℕ) (a : Assembled)
        → n < num
        → Filled n a
        → Filled (suc n) (assemble_one s hopsv4 hopsv6 fallback n a)
    unfolding assemble_one
    assemble_one-Filled n a lt f = elim (Bool-cases (four p pkts n)) [
      | inl yes_four ↦
          rw (assemble_one, h.typed n lt, yes_four)
            (record {
              count4 = omega (arith, f.count4, rank_passes (four p pkts) n yes_four);
              count6 = f.count6 ∙ sym (rank_fails (six p pkts) n (ap not yes_four));
              found =
                  push_filled fib_port n a.hops _
                    (ap (λ v. hop_or_port v (fallback n))
                        (ap hopsv4 f.count4 ∙ right4 n lt yes_four)
                      ∙ rw yes_four refl)
                    f.found;
            })
      | inr no_four ↦
          rw (assemble_one, h.typed n lt, no_four)
            (record {
              count4 = f.count4 ∙ sym (rank_fails (four p pkts) n no_four);
              count6 = omega (arith, f.count6, rank_passes (six p pkts) n (ap not no_four));
              found =
                  push_filled fib_port n a.hops _
                    (ap (λ v. hop_or_port v (fallback n))
                        (ap hopsv6 f.count6 ∙ right6 n lt (ap not no_four))
                      ∙ rw no_four refl)
                    f.found;
            })
    ]

    assemble-Filled :
        (rounds n : ℕ) (a : Assembled)
        → n + rounds ≤ num
        → Filled n a
        → Filled (n + rounds) (assemble s hopsv4 hopsv6 fallback rounds n a)
    unfolding assemble
    assemble-Filled zero n a le f = subst (λ k. Filled k a) {x = n} (omega arith) f
    assemble-Filled (suc rounds) n a le f =
        (let a' = assemble_one s hopsv4 hopsv6 fallback n a in
          subst (λ k. Filled k (assemble s hopsv4 hopsv6 fallback rounds (n + 1) a'))
            {x = n + 1 + rounds} (omega arith)
            (assemble-Filled rounds (n + 1) a' (omega arith) (
              subst (λ k. Filled k a') {x = suc n} (omega arith)
                (assemble_one-Filled n a (omega arith) f))))

-- If the lookups in bulk look up each address on its own, the loops of fib_send_packets and
-- fib_process_event_vector give each packet of the burst the next hop of its own destination, IPv4
-- or IPv6, as a 16-bit word, or the fallback port where it is FIB_DEFAULT_HOP.
pub fib_hops-lem :
    (tables : FibTables) (next4 : ℕ → ℕ) (next6 : (ℕ → ℕ) → ℕ)
    → LooksUpEach tables next4 next6
    → (p : Packets) (pkts : Table) (nb_rx : ℕ) (fallback : Table) (fresh : FibSearch)
      (junk4 junk6 hops : Table) (i : ℕ)
    → i < nb_rx
    → fib_hops tables p pkts nb_rx fallback fresh junk4 junk6 hops i
      ≡ fib_port next4 next6 p pkts fallback i
unfolding fib_hops
fib_hops-lem tables next4 next6 law p pkts nb_rx fallback fresh junk4 junk6 hops i lt =
    (assemble-Filled next4 next6 p pkts fallback nb_rx s hopsv4 hopsv6 parsed right4 right6 nb_rx 0
        (record { ipv4_arr_assem = 0; ipv6_arr_assem = 0; hops = hops }) (omega arith)
        (record { count4 = refl; count6 = refl; found = λ k less. absurd (omega arith) })).found
      i (omega arith)
  where
    s : FibSearch
    s = fib_parse_burst p pkts nb_rx fresh

    parsed : ParsedBurst p pkts nb_rx s
    parsed = fib_parse_burst-ParsedBurst p pkts nb_rx fresh

    hopsv4 : Table
    hopsv4 = if s.ipv4_cnt == 0 then junk4 else tables.lookup_bulk s.ipv4_arr junk4 s.ipv4_cnt

    hopsv6 : Table
    hopsv6 = if s.ipv6_cnt == 0 then junk6 else tables.lookup_bulk6 s.ipv6_arr junk6 s.ipv6_cnt

    some_left : (n k : ℕ) → k < n → (n == 0) ≡ false
    some_left n k less = ground arith

    right4 :
        (k : ℕ)
        → k < nb_rx
        → four p pkts k ≡ true
        → hopsv4 (rank (four p pkts) k) ≡ next4 (address4 p pkts k)
    right4 k less mine =
        (let below =
            subst (λ n. rank (four p pkts) k < n) (sym parsed.count4)
              (rank_lt (four p pkts) k nb_rx less mine) in
          rw (some_left s.ipv4_cnt _ below)
            (law.each4 s.ipv4_arr junk4 s.ipv4_cnt _ below ∙ ap next4 (parsed.stored4 k less mine)))

    right6 :
        (k : ℕ)
        → k < nb_rx
        → six p pkts k ≡ true
        → hopsv6 (rank (six p pkts) k) ≡ next6 (address6 p pkts k)
    right6 k less mine =
        (let below =
            subst (λ n. rank (six p pkts) k < n) (sym parsed.count6)
              (rank_lt (six p pkts) k nb_rx less mine) in
          rw (some_left s.ipv6_cnt _ below)
            (law.each6 s.ipv6_arr junk6 s.ipv6_cnt _ below ∙ ap next6 (parsed.stored6 k less mine)))
