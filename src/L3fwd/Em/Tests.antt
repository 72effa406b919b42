-- ===== src/L3fwd/Em/Tests.antt =====
-- Runs of l3fwd/l3fwd_em.c and l3fwd_em_hlm.h on concrete packets and rules.
use dpdk_practice.Base.{
  ℕ, ◌%◌, ◌+◌, ◌*◌, ◌<◌, true, false, List, [], ◌∷◌, length, Option, none, some, ltb, ◌==◌,
  if◌then◌else◌, ◌≡◌, ◌≢◌, ◌||◌, ◌^◌, leb, refl, sym, ap, ◌∙◌, arith, inl, inr, Bool-cases,
  some_inj,
}
use dpdk_practice.L3fwd.Rfc1812.{Frame}
use dpdk_practice.L3fwd.Routes.Em.{EmRule}
use dpdk_practice.L3fwd.Tx.Copy.{Table}
use dpdk_practice.L3fwd.Em.{
  Key, Hash, em_mask_key, EmTables, EmPackets, em_parse_ptype, em_get_dst_port,
  l3fwd_em_process_packets,
}
use dpdk_practice.L3fwd.Em.Keys.{IsBytes}
use dpdk_practice.L3fwd.Em.Routing.{IsFilled, em_route, l3fwd_em_process_packets-route}
use dpdk_practice.L3fwd.Em.Populate.{
  convert_ipv4_5tuple, add_flow, populate_flow, populate_ipv4_flow_into_table,
  populate_ipv6_flow_into_table,
}
use dpdk_practice.L3fwd.Em.Populate.Laws.{
  same_key, same_key→eq, same_key_refl, HashLaws, Populated, populate_flow-Populated,
}

-- A hash table as the list of its keys, the newest first; a key's position is its age.
abbrev find : List Key → Key → Option ℕ
find [] k = none
find (top ∷ s) k = if same_key k top then some (length s) else find s k

find-lt : (s : List Key) (k : Key) (ret : ℕ) → find s k ≡ some ret → ret < length s
find-lt [] k ret h = absurd (ground (arith, h))
find-lt (top ∷ s) k ret h = elim (Bool-cases (same_key k top)) [
  | inl same ↦ omega (arith, some_inj (rw same at h))
  | inr other ↦ omega (arith, find-lt s k ret (rw other at h))
]

find-injective :
    (s : List Key) (k l : Key) (ret : ℕ) → find s k ≡ some ret → find s l ≡ some ret → k ≡ l
find-injective [] k l ret h g = absurd (ground (arith, h))
find-injective (top ∷ s) k l ret h g = elim (Bool-cases (same_key k top)) [
  | inl k_top ↦ elim (Bool-cases (same_key l top)) [
    | inl l_top ↦ same_key→eq k top k_top ∙ sym (same_key→eq l top l_top)
    | inr other ↦ absurd (omega (arith, some_inj (rw k_top at h), find-lt s l ret (rw other at g)))
  ]
  | inr k_other ↦ elim (Bool-cases (same_key l top)) [
    | inl l_top ↦
        absurd (omega (arith, some_inj (rw l_top at g), find-lt s k ret (rw k_other at h)))
    | inr l_other ↦ find-injective s k l ret (rw k_other at h) (rw l_other at g)
  ]
]

abbrev hash : Hash
hash = record {
  State = List Key;
  add_key = λ s k. some (length s, k ∷ s);
  lookup = find;
  lookup_bulk = λ s keys n i. find s (keys i);
}

newer : (s : List Key) (k l : Key) → l ≢ k → find (k ∷ s) l ≡ find s l
newer s k l ne = elim (Bool-cases (same_key l k)) [
  | inl same ↦ absurd (ne (same_key→eq l k same))
  | inr other ↦ rw other refl
]

hash-laws : HashLaws hash
hash-laws = record {
  lookup-added = λ s s' k ret e.
      (let q : Path (ℕ × List Key) (length s, k ∷ s) (ret, s') = some_inj e in
        ap (λ t. find t k) (sym (ap (λ p. p.1) q))
        ∙ (rw (same_key_refl k) (ap (λ n. some n) (ap (λ p. p.0) q))));
  lookup-others = λ s s' k l ret e ne.
      (let q : Path (ℕ × List Key) (length s, k ∷ s) (ret, s') = some_inj e in
        ap (λ t. find t l) (sym (ap (λ p. p.1) q)) ∙ newer s k l ne);
  lookup-injective = find-injective;
}

-- UDP packets whose other bytes are the packet's number: nine of IPv4, and then IPv6.
abbrev frame : ℕ → Frame
frame pkt i =
    if i == 12
    then if ltb pkt 9 then 8 else 134
    else if i == 13
    then if ltb pkt 9 then 0 else 221
    else if i == 14
    then 69
    else if i == 20 || i == 23
    then 17
    else pkt % 256

abbrev packets : EmPackets
packets = record {
  packets = record { frame = frame; is_ipv4 = λ pkt. ltb pkt 9; is_ipv6 = λ pkt. leb 9 pkt };
  packet_type = λ pkt. em_parse_ptype (frame pkt);
  port = λ pkt. 5;
}

-- Two rules for packet 3, the first for a port that is not enabled, and one for packet 4.
abbrev rule : ℕ → ℕ → EmRule ℕ
rule pkt if_out = record {
  key = record {
    ip_dst = pkt * 16843009;
    ip_src = pkt * 16843009;
    port_dst = pkt * 257;
    port_src = pkt * 257;
    proto = 17;
  };
  if_out = if_out;
}

abbrev rules : List (EmRule ℕ)
rules = rule 3 1 ∷ rule 3 4 ∷ rule 3 2 ∷ rule 4 0 ∷ []

abbrev populated : Option (List Key × Table)
populated = populate_flow hash (λ n. 2 ^ n) 21 (λ port. true) convert_ipv4_5tuple rules ([], λ i. 9)

abbrev table : List Key × Table
table = elim populated [ none ↦ ([], λ i. 9) | some s ↦ s ]

abbrev tables : EmTables hash
tables = record {
  ipv4_lookup_struct = table.0;
  ipv6_lookup_struct = [];
  ipv4_l3fwd_out_if = table.1;
  ipv6_l3fwd_out_if = λ i. 9;
}

abbrev port_found : ℕ → ℕ
port_found pkt = em_get_dst_port hash (λ n. 2 ^ n) 21 32 tables packets pkt 5

ports_found : port_found 3 ∷ port_found 4 ∷ port_found 7 ∷ [] ≡ 2 ∷ 0 ∷ 5 ∷ []
unfolding em_get_dst_port em_parse_ptype em_mask_key populate_flow add_flow convert_ipv4_5tuple
ports_found = refl

bytes : (pkt : ℕ) → IsBytes (frame pkt)
bytes pkt i = ground arith

filled :
    IsFilled hash
      (λ s keys n i lt. refl)
      hash-laws
      (λ n. 2 ^ n)
      21
      32
      (λ port. true)
      rules
      []
      tables
unfolding populate_ipv4_flow_into_table populate_ipv6_flow_into_table populate_flow add_flow
filled = record {
  empty4 = [];
  empty6 = [];
  fresh4 = λ i. 9;
  fresh6 = λ i. 9;
  nothing4 = λ key. refl;
  nothing6 = λ key. refl;
  filled4 = refl;
  filled6 = refl;
}

l3fwd_em_process_packets-route_example :
    let (m', dst_port) =
      l3fwd_em_process_packets hash
        (λ n. 2 ^ n)
        21
        32
        (λ port i. port + i)
        11
        (λ i. i)
        5
        tables
        false
        (packets, λ i. 7) in
    ((i : ℕ)
      → i < 11
      → dst_port i
        ≡ em_route hash
            (λ s keys n i lt. refl)
            hash-laws
            (λ n. 2 ^ n)
            21
            32
            (λ port. true)
            rules
            []
            (frame i)
            5)
    × (m' ≡ packets)
l3fwd_em_process_packets-route_example =
    l3fwd_em_process_packets-route hash (λ s keys n i lt. refl) hash-laws (λ n. 2 ^ n) 21 32
      (λ port. true) rules [] tables filled packets (λ i. i) (λ i. refl) bytes 5
      (λ port i. port + i) 11 (λ i. 7)

populate_flow-Populated_example :
    Populated hash hash-laws
      (λ n. 2 ^ n)
      21
      (λ port. true)
      convert_ipv4_5tuple
      rules
      ([], λ i. 9)
      (populate_flow hash (λ n. 2 ^ n) 21 (λ port. true) convert_ipv4_5tuple rules ([], λ i. 9))
populate_flow-Populated_example =
    populate_flow-Populated hash hash-laws (λ n. 2 ^ n) 21 (λ port. true) convert_ipv4_5tuple rules
      ([], λ i. 9)
