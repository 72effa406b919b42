-- ===== src/L3fwd/Event/Vector/Laws.antt =====
-- l3fwd/l3fwd_event.h: filter_bad_packets keeps the good packets in their order.
use dpdk_practice.Base.{
  ℕ, zero, suc, ◌+◌, ◌-◌, ◌≤◌, true, false, List, [], ◌∷◌, ◌++◌, ◌==◌, if◌then◌else◌, update,
  update_ne, ◌≡◌, ◌≢◌, refl, sym, ap, ap₂, subst, ◌∙◌, arith, inl, inr, Bool-cases, ==_iff, ==_ne,
  replicate,
}
use dpdk_practice.L3fwd.Rfc1812.{bad_port}
use dpdk_practice.L3fwd.Tx.Copy.{Table, slice, slice-snoc, slice-write}
use dpdk_practice.L3fwd.OnePort.Laws.{process_dst_port-lem}
use dpdk_practice.L3fwd.OnePort.{all_same, process_dst_port}
use dpdk_practice.L3fwd.Event.{EventMemory}
use dpdk_practice.L3fwd.Event.Vector.{
  Filter, filter_one, filter_from, filter_bad_packets, EventVector, process_event_vector,
}

module _ (dst_port : Table) where
  -- The entries of `t`, of the first `n`, whose destination is BAD_PORT, and those of the others.
  abbrev pub bad_of : Table → ℕ → List ℕ
  bad_of t zero = []
  bad_of t (suc n) = if dst_port n == bad_port then bad_of t n ++ (t n ∷ []) else bad_of t n

  abbrev pub good_of : Table → ℕ → List ℕ
  good_of t zero = []
  good_of t (suc n) = if dst_port n == bad_port then good_of t n else good_of t n ++ (t n ∷ [])

  module _ (mbufs : Table) where
    -- Behind the first `n` packets.
    record Filtered (n : ℕ) (s : Filter) : Type 0 where
      few : s.free ≤ n
      at_end : (s.free == 0) ≡ false → s.pos ≡ n - s.free
      kept : slice s.mbufs 0 (n - s.free) ≡ good_of mbufs n
      kept_ports : slice s.dst_port 0 (n - s.free) ≡ good_of dst_port n
      freed : s.freed ≡ bad_of mbufs n
      rest : (k : ℕ) → n ≤ k → s.mbufs k ≡ mbufs k
      rest_ports : (k : ℕ) → n ≤ k → s.dst_port k ≡ dst_port k

    -- A kept packet: the entries up to it.
    kept_behind :
        (t orig : Table) (n free : ℕ) (xs : List ℕ)
        → free ≡ 0
        → slice t 0 (n - free) ≡ xs
        → t n ≡ orig n
        → slice t 0 (suc n - free) ≡ xs ++ (orig n ∷ [])
    kept_behind t orig n free xs none before same =
        ap (slice t 0) {x = suc n - free} {y = suc n} (omega (arith, none))
        ∙ slice-snoc t 0 n
        ∙ ap₂ (λ ys y. ys ++ (y ∷ []))
            (ap (slice t 0) {x = n} {y = n - free} (omega (arith, none)) ∙ before)
            (ap t {x = 0 + n} {y = n} (omega arith) ∙ same)

    -- A packet that is moved to `pos`.
    moved_to :
        (t orig : Table) (n free pos : ℕ) (xs : List ℕ)
        → pos ≡ n - free
        → free ≤ n
        → slice t 0 (n - free) ≡ xs
        → t n ≡ orig n
        → slice (update t pos (t n)) 0 (suc n - free) ≡ xs ++ (orig n ∷ [])
    moved_to t orig n free pos xs at_end few before same =
        slice-write t pos (t n) (omega (arith, at_end, few))
        ∙ ap₂ (λ ys y. ys ++ (y ∷ [])) (ap (slice t 0) at_end ∙ before) same

    first_gap :
        (n free pos : ℕ)
        → ((free == 0) ≡ false → pos ≡ n - free)
        → (if free == 0 then n else pos) ≡ suc n - (free + 1)
    first_gap n free pos at_end = elim (Bool-cases (free == 0)) [
      | inl none ↦ rw none (omega (arith, (==_iff free 0).0 none))
      | inr gap ↦ rw gap (omega (arith, at_end gap))
    ]

    filter_one-Filtered : (n : ℕ) (s : Filter) → Filtered n s → Filtered (suc n) (filter_one n s)
    unfolding filter_one
    filter_one-Filtered n s h = elim (Bool-cases (dst_port n == bad_port)) [
      | inl bad ↦
          rw (filter_one, h.rest_ports n (omega arith), bad)
            (record {
              few = omega (arith, h.few);
              at_end = λ gap. first_gap n s.free s.pos h.at_end;
              kept = rw bad (
                  ap (slice s.mbufs 0) {x = suc n - (s.free + 1)} {y = n - s.free} (omega arith)
                  ∙ h.kept);
              kept_ports = rw bad (
                  ap (slice s.dst_port 0) {x = suc n - (s.free + 1)} {y = n - s.free} (omega arith)
                  ∙ h.kept_ports);
              freed = rw bad (ap₂ (λ xs x. xs ++ (x ∷ [])) h.freed (h.rest n (omega arith)));
              rest = λ k le. h.rest k (omega (arith, le));
              rest_ports = λ k le. h.rest_ports k (omega (arith, le));
            })
      | inr good ↦ elim (Bool-cases (s.free == 0)) [
        | inl none ↦
            rw (filter_one, h.rest_ports n (omega arith), good, none)
              (record {
                few = omega (arith, h.few);
                at_end = λ gap. absurd (cc);
                kept = rw good (
                    kept_behind s.mbufs mbufs n s.free _ ((==_iff s.free 0).0 none) h.kept
                      (h.rest n (omega arith)));
                kept_ports = rw good (
                    kept_behind s.dst_port dst_port n s.free _ ((==_iff s.free 0).0 none)
                      h.kept_ports (h.rest_ports n (omega arith)));
                freed = rw good h.freed;
                rest = λ k le. h.rest k (omega (arith, le));
                rest_ports = λ k le. h.rest_ports k (omega (arith, le));
              })
        | inr gap ↦
            let at = h.at_end gap in
            let same = h.rest_ports n (omega arith) in
            rw (filter_one, ap (λ v. v == bad_port) same ∙ good, gap)
              (record {
                few = omega (arith, h.few);
                at_end = λ e. omega (arith, at, h.few);
                kept = rw good (
                    moved_to s.mbufs mbufs n s.free s.pos _ at h.few h.kept
                      (h.rest n (omega arith)));
                kept_ports =
                    rw good
                      (moved_to s.dst_port dst_port n s.free s.pos _ at h.few h.kept_ports same);
                freed = rw good h.freed;
                rest = λ k le.
                    update_ne s.mbufs s.pos _ k (λ e. omega (arith, e, at, le))
                    ∙ h.rest k (omega (arith, le));
                rest_ports = λ k le.
                    update_ne s.dst_port s.pos _ k (λ e. omega (arith, e, at, le))
                    ∙ h.rest_ports k (omega (arith, le));
              })
      ]
    ]

    filter_from-Filtered :
        (rounds n : ℕ) (s : Filter) → Filtered n s → Filtered (n + rounds) (filter_from rounds n s)
    unfolding filter_from
    filter_from-Filtered zero n s h = subst (λ k. Filtered k s) {x = n} (omega arith) h
    filter_from-Filtered (suc rounds) n s h =
        subst (λ k. Filtered k (filter_from rounds (n + 1) (filter_one n s))) {x = n + 1 + rounds}
          (omega arith)
          (filter_from-Filtered rounds (n + 1) (filter_one n s) (
            subst (λ k. Filtered k (filter_one n s)) {x = suc n} (omega arith)
              (filter_one-Filtered n s h)))

    -- Both arrays, and what is freed.
    pub filter_bad_packets-lem :
        (junk nb_pkts : ℕ)
        → let (left, s) = filter_bad_packets junk mbufs dst_port nb_pkts in
          (slice s.mbufs 0 left ≡ good_of mbufs nb_pkts)
          × (slice s.dst_port 0 left ≡ good_of dst_port nb_pkts)
          × (s.freed ≡ bad_of mbufs nb_pkts)
    unfolding filter_bad_packets
    filter_bad_packets-lem junk nb_pkts =
        let h =
          subst (λ k. Filtered k (filter_from nb_pkts 0 start)) {x = 0 + nb_pkts} (omega arith)
            (filter_from-Filtered nb_pkts 0 start begun) in
        (h.kept, h.kept_ports, h.freed)
      where
        start : Filter
        start = record { mbufs = mbufs; dst_port = dst_port; pos = junk; free = 0; freed = [] }

        begun : Filtered 0 start
        begun = record {
          few = omega arith;
          at_end = λ e. absurd (ground (arith, e));
          kept = refl;
          kept_ports = refl;
          freed = refl;
          rest = λ k le. refl;
          rest_ports = λ k le. refl;
        }

-- Ports that all agree with the first one.
slice-same : (t : Table) (i n : ℕ) → all_same t i n ≡ true → slice t i n ≡ replicate n (t 0)
slice-same t i zero same = refl
slice-same t i (suc n) same = elim (Bool-cases (t i == t 0)) [
  | inl e ↦ ap₂ ◌∷◌ ((==_iff (t i) (t 0)).0 e) (slice-same t (i + 1) n (rw e at same))
  | inr ne ↦ let impossible : false ≡ true = rw ne at same in absurd (cc)
]

module _ (junk : ℕ) (vec : EventVector) (dst_port : Table) (m : EventMemory) where
  -- What a vector with one port holds.
  one_port :
      (n port : ℕ) (t : Table) (xs : List ℕ)
      → process_dst_port t n ≡ port
      → port ≢ bad_port
      → slice t 0 n ≡ xs
      → xs ≡ replicate n port
  one_port n port t xs e good before = elim (Bool-cases (all_same t 0 n)) [
    | inl same ↦
        sym before
        ∙ slice-same t 0 n same
        ∙ ap (replicate n) (sym (process_dst_port-lem t n ∙ rw same refl) ∙ e)
    | inr differ ↦ absurd (good (sym e ∙ process_dst_port-lem t n ∙ rw differ refl))
  ]

  -- For every vector of packets with their destinations, process_event_vector, which compacts both
  -- arrays in place, leaves in the vector the packets whose destination is not BAD_PORT, in their
  -- order, and frees the others, in theirs; and where it makes the attributes of the vector valid,
  -- the destinations of all the packets left are the port of the vector.
  pub process_event_vector-lem :
      let (vec', freed, m') = process_event_vector junk vec dst_port m in
      (slice vec'.mbufs 0 vec'.nb_elem ≡ good_of dst_port vec.mbufs vec.nb_elem)
      × (freed ≡ bad_of dst_port vec.mbufs vec.nb_elem)
      × (vec'.attr_valid ≡ true
          → good_of dst_port dst_port vec.nb_elem ≡ replicate vec'.nb_elem vec'.port)
  unfolding process_event_vector
  process_event_vector-lem =
      let (left, s) = filter_bad_packets junk vec.mbufs dst_port vec.nb_elem in
      let (kept, ports, freed) = filter_bad_packets-lem dst_port vec.mbufs junk vec.nb_elem in
      elim (Bool-cases (process_dst_port s.dst_port left == bad_port)) [
        | inl several ↦ rw (process_event_vector, several) (kept, freed, λ e. absurd (cc))
        | inr one ↦
            rw (process_event_vector, one)
              (kept, freed, λ e. one_port left _ s.dst_port _ refl (==_ne _ _ one) ports)
      ]
