-- ===== src/L2fwd/Args/PortPairs.antt =====
-- What l2fwd_parse_port_pair_config stores.
use dpdk_practice.Base.{
  ℕ, zero, suc, ◌≤◌, ◌<◌, false, ◌||◌, not, List, [], ◌∷◌, ◌++◌, Option, none, some, length, drop,
  length-append, leb, if◌then◌else◌, ◌≡◌, ◌≢◌, refl, ap, arith, inl, inr, Bool-cases, Option-cases,
  unless-some, subst, some_inj, ◌/◌,
}
use dpdk_practice.Clib.Search.{strchr_twice}
use dpdk_practice.Clib.{Str, strtoul, strchr, before, Number}
use dpdk_practice.L2fwd.PairCheck.{PortPair}
use dpdk_practice.L2fwd.Args.{parse_pair, parse_pairs, Settings, l2fwd_parse_port_pair_config}

module _ (rte_max_ethports : ℕ) (rte_strsplit : Str → ℕ → ℕ → List Str) where
  -- Every pair names ports below RTE_MAX_ETHPORTS.
  abbrev pub InRange : List PortPair → Type 0
  InRange [] = Unit {0}
  InRange (p ∷ ps) = ((p.port0 < rte_max_ethports) × (p.port1 < rte_max_ethports)) × InRange ps

  InRange-snoc :
      (ps : List PortPair) (p : PortPair)
      → InRange ps
      → p.port0 < rte_max_ethports
      → p.port1 < rte_max_ethports
      → InRange (ps ++ (p ∷ []))
  InRange-snoc [] p h a b = ((a, b), tt)
  InRange-snoc (q ∷ ps) p (r, h) a b = (r, InRange-snoc ps p h a b)

  in_range :
      (a b : Number) (p : PortPair)
      → (if a.range || not a.converted || leb rte_max_ethports a.value
          then none
          else if b.range || not b.converted || leb rte_max_ethports b.value
          then none
          else some (record { port0 = a.value; port1 = b.value }))
        ≡ some p
      → (p.port0 < rte_max_ethports) × (p.port1 < rte_max_ethports)
  in_range a b p h =
      (let (f, h1) =
          unless-some (a.range || not a.converted || leb rte_max_ethports a.value) _ p h in
        let (g, h2) =
          unless-some (b.range || not b.converted || leb rte_max_ethports b.value) _ p h1 in
        let q = some_inj h2 in
        (
          subst (λ x. x < rte_max_ethports) (ap (λ r. r.port0) q) (low a f),
          subst (λ x. x < rte_max_ethports) (ap (λ r. r.port1) q) (low b g),
        ))
    where
      low :
          (n : Number)
          → (n.range || not n.converted || leb rte_max_ethports n.value) ≡ false
          → n.value < rte_max_ethports
      low n h = ground arith

  parse_pair-InRange :
      (s : Str) (p : PortPair)
      → parse_pair rte_max_ethports rte_strsplit s ≡ some p
      → (p.port0 < rte_max_ethports) × (p.port1 < rte_max_ethports)
  unfolding parse_pair
  parse_pair-InRange s p h = two (rte_strsplit s 2 44) h
    where
      Goal : List Str → Type 0
      Goal fs =
          ◌≡◌ {A = Option PortPair}
            (elim fs [
              | (f0 ∷ f1 ∷ []) ↦
                  (let a = strtoul f0 0 in
                    let b = strtoul f1 0 in
                    if a.range || not a.converted || leb rte_max_ethports a.value
                    then none
                    else if b.range || not b.converted || leb rte_max_ethports b.value
                    then none
                    else some (record { port0 = a.value; port1 = b.value }))
              | _ ↦ none
            ])
            (some p)

      no : none ≢ some p
      no e = ground arith

      two : (fs : List Str) → Goal fs → (p.port0 < rte_max_ethports) × (p.port1 < rte_max_ethports)
      two [] h = absurd (no h)
      two (a ∷ []) h = absurd (no h)
      two (a ∷ b ∷ []) h = in_range (strtoul a 0) (strtoul b 0) p h
      two (a ∷ b ∷ c ∷ cs) h = absurd (no h)

  -- What the array may hold.
  abbrev pub Fits : List PortPair → Type 0
  Fits ps = (length ps ≤ rte_max_ethports / 2) × InRange ps

  parse_pairs-Fits :
      (left : ℕ) (p0 : Str) (stored : List PortPair)
      → Fits stored
      → Fits (parse_pairs rte_max_ethports rte_strsplit left p0 stored).1
  unfolding parse_pairs
  parse_pairs-Fits zero p0 stored h = h
  parse_pairs-Fits (suc left) p0 stored h = elim (Option-cases (strchr p0 40)) [
    | inl e ↦ rw (e, parse_pairs) h
    | inr (p, e) ↦ elim (Option-cases (strchr (drop 1 p) 41)) [
      | inl e2 ↦ rw (e, parse_pairs, e2) h
      | inr (next, e2) ↦ elim (Bool-cases (leb 256 (length (before (drop 1 p) 41)))) [
        | inl t ↦ rw (e, parse_pairs, e2, t) h
        | inr f ↦
            elim (Option-cases (parse_pair rte_max_ethports rte_strsplit (before (drop 1 p) 41))) [
              | inl e3 ↦ rw (e, parse_pairs, e2, f, e3) h
              | inr (pair, e3) ↦ elim (Bool-cases (leb (rte_max_ethports / 2) (length stored))) [
                | inl full ↦ rw (e, parse_pairs, e2, f, e3, full) h
                | inr room ↦
                    rw (e, parse_pairs, e2, f, e3, room)
                      (parse_pairs-Fits left next (stored ++ (pair ∷ [])) (
                        snoc stored pair h room
                          (parse_pair-InRange (before (drop 1 p) 41) pair e3)))
              ]
            ]
      ]
    ]
  ]
    where
      snoc :
          (ps : List PortPair) (p : PortPair)
          → Fits ps
          → leb (rte_max_ethports / 2) (length ps) ≡ false
          → (p.port0 < rte_max_ethports) × (p.port1 < rte_max_ethports)
          → Fits (ps ++ (p ∷ []))
      snoc ps p (l, r) room (a, b) =
          (rw (length-append ps (p ∷ [])) (ground arith), InRange-snoc ps p r a b)

  -- Whatever the argument, and whether it is accepted or not, the array then holds at most
  -- RTE_MAX_ETHPORTS / 2 pairs, every port in it is below RTE_MAX_ETHPORTS, and nb_port_pair_params
  -- is their number.
  pub l2fwd_parse_port_pair_config-Fits :
      (q_arg : Str) (c : Settings)
      → (let r = (l2fwd_parse_port_pair_config rte_max_ethports rte_strsplit q_arg c).1 in
          Fits r.port_pair_params_array × (r.nb_port_pair_params ≡ length r.port_pair_params_array))
  unfolding l2fwd_parse_port_pair_config
  l2fwd_parse_port_pair_config-Fits q_arg c =
      (let r = parse_pairs rte_max_ethports rte_strsplit (suc (length q_arg)) q_arg [] in
        let fits = parse_pairs-Fits (suc (length q_arg)) q_arg [] (omega arith, tt) in
        elim (Bool-cases r.0) [ inl t ↦ rw t (fits, refl) | inr f ↦ rw f (fits, refl) ])

  -- The loop of l2fwd_parse_port_pair_config has ended within more rounds than the text has bytes:
  -- any two such numbers of rounds give one result.
  pub parse_pairs-rounds :
      (a b : ℕ) (p0 : Str) (stored : List PortPair)
      → length p0 < a
      → length p0 < b
      → parse_pairs rte_max_ethports rte_strsplit a p0 stored
        ≡ parse_pairs rte_max_ethports rte_strsplit b p0 stored
  unfolding parse_pairs
  parse_pairs-rounds zero b p0 stored ha hb = absurd (omega arith)
  parse_pairs-rounds (suc a) zero p0 stored ha hb = absurd (omega arith)
  parse_pairs-rounds (suc a) (suc b) p0 stored ha hb = elim (Option-cases (strchr p0 40)) [
    | inl e ↦ rw (e, parse_pairs) refl
    | inr (p, e) ↦ elim (Option-cases (strchr (drop 1 p) 41)) [
      | inl e2 ↦ rw (e, parse_pairs, e2) refl
      | inr (next, e2) ↦
          elim (Option-cases (parse_pair rte_max_ethports rte_strsplit (before (drop 1 p) 41))) [
            | inl e3 ↦ rw (e, parse_pairs, e2, e3) refl
            | inr (x, e3) ↦
                (let less = strchr_twice p0 40 41 p next e e2 in
                  let rest =
                    parse_pairs-rounds a b next (stored ++ (x ∷ [])) (omega arith) (omega arith) in
                  rw (e, parse_pairs, e2, e3, rest) refl)
          ]
    ]
  ]
