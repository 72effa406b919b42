-- ===== src/L3fwd/Config/Triples.antt =====
-- What parse_config stores.
use dpdk_practice.Base.{
  refl, ◌<◌, ℕ, zero, suc, ◌≤◌, false, ◌||◌, not, List, [], ◌∷◌, ◌++◌, Option, none, some, length,
  length-append, drop, ltb, leb, ◌≡◌, ◌≢◌, ap, subst, arith, inl, inr, Bool-cases, Option-cases,
  unless-some, some_inj, bind-some, ◌>>=◌,
}
use dpdk_practice.Clib.Search.{strchr_twice}
use dpdk_practice.Clib.{Str, strtoul, strchr, before}
use dpdk_practice.L3fwd.Config.{
  LcoreParams, parse_field, parse_triple, parse_triples, parse_config, max_lcore_params,
}

parse_field-le : (s : Str) (max_fld v : ℕ) → parse_field s max_fld ≡ some v → v ≤ max_fld
parse_field-le s max_fld v h =
    (let n = strtoul s 0 in
      let (f, e) = unless-some (n.range || not n.converted || ltb max_fld n.value) _ v h in
      let q : n.value ≡ v = some_inj e in
      let f' : ltb max_fld n.value ≡ false = ground arith in ground arith)

module _ (rte_max_ethports rte_max_queues_per_port rte_max_lcore : ℕ)
    (rte_strsplit : Str → ℕ → ℕ → List Str) where
  -- The limits that parse_config puts on a triple.
  pub record IsTriple (p : LcoreParams) : Type 0 where
    pub port_id-le : p.port_id ≤ rte_max_ethports
    pub queue_id-le : p.queue_id ≤ rte_max_queues_per_port
    pub lcore_id-le : p.lcore_id ≤ rte_max_lcore

  abbrev pub AreTriples : List LcoreParams → Type 0
  AreTriples [] = Unit {0}
  AreTriples (p ∷ ps) = IsTriple p × AreTriples ps

  AreTriples-snoc :
      (ps : List LcoreParams) (p : LcoreParams)
      → AreTriples ps
      → IsTriple p
      → AreTriples (ps ++ (p ∷ []))
  AreTriples-snoc [] p h a = (a, tt)
  AreTriples-snoc (q ∷ ps) p (r, h) a = (r, AreTriples-snoc ps p h a)

  three :
      (f0 f1 f2 : Str) (p : LcoreParams)
      → (parse_field f0 rte_max_ethports >>= λ port.
          parse_field f1 rte_max_queues_per_port >>= λ queue.
          parse_field f2 rte_max_lcore >>= λ lcore.
          some (record { port_id = port; queue_id = queue; lcore_id = lcore }))
        ≡ some p
      → IsTriple p
  three f0 f1 f2 p h =
      (let (port, (e0, h0)) = bind-some _ _ p h in
        let (queue, (e1, h1)) = bind-some _ _ p h0 in
        let (lcore, (e2, h2)) = bind-some _ _ p h1 in
        let q = some_inj h2 in
        record {
          port_id-le =
              subst (λ v. v ≤ rte_max_ethports) (ap (λ r. r.port_id) q)
                (parse_field-le f0 _ port e0);
          queue_id-le =
              subst (λ v. v ≤ rte_max_queues_per_port) (ap (λ r. r.queue_id) q)
                (parse_field-le f1 _ queue e1);
          lcore_id-le =
              subst (λ v. v ≤ rte_max_lcore) (ap (λ r. r.lcore_id) q)
                (parse_field-le f2 _ lcore e2);
        })

  parse_triple-IsTriple :
      (s : Str) (p : LcoreParams)
      → parse_triple rte_max_ethports rte_max_queues_per_port rte_max_lcore rte_strsplit s ≡ some p
      → IsTriple p
  unfolding parse_triple
  parse_triple-IsTriple s p h = fields (rte_strsplit s 3 44) h
    where
      Goal : List Str → Type 0
      Goal fs =
          ◌≡◌ {A = Option LcoreParams}
            (elim fs [
              | (f0 ∷ f1 ∷ f2 ∷ []) ↦ (do
                port ← parse_field f0 rte_max_ethports
                queue ← parse_field f1 rte_max_queues_per_port
                lcore ← parse_field f2 rte_max_lcore
                some (record { port_id = port; queue_id = queue; lcore_id = lcore }))
              | _ ↦ none
            ])
            (some p)

      no : none ≢ some p
      no e = ground arith

      fields : (fs : List Str) → Goal fs → IsTriple p
      fields [] h = absurd (no h)
      fields (a ∷ []) h = absurd (no h)
      fields (a ∷ b ∷ []) h = absurd (no h)
      fields (a ∷ b ∷ c ∷ []) h = three a b c p h
      fields (a ∷ b ∷ c ∷ d ∷ ds) h = absurd (no h)

  -- What the array may hold.
  abbrev pub Fits : List LcoreParams → Type 0
  Fits ps = (length ps ≤ max_lcore_params) × AreTriples ps

  parse_triples-Fits :
      (left : ℕ) (p0 : Str) (stored : List LcoreParams)
      → Fits stored
      → Fits
          (parse_triples rte_max_ethports rte_max_queues_per_port rte_max_lcore rte_strsplit left p0
            stored).1
  unfolding parse_triples
  parse_triples-Fits zero p0 stored h = h
  parse_triples-Fits (suc left) p0 stored h = elim (Option-cases (strchr p0 40)) [
    | inl e ↦ rw (e, parse_triples) h
    | inr (p, e) ↦ elim (Option-cases (strchr (drop 1 p) 41)) [
      | inl e2 ↦ rw (e, parse_triples, e2) h
      | inr (next, e2) ↦ elim (Bool-cases (leb 256 (length (before (drop 1 p) 41)))) [
        | inl t ↦ rw (e, parse_triples, e2, t) h
        | inr f ↦ elim (Option-cases (triple (before (drop 1 p) 41))) [
          | inl e3 ↦ rw (e, parse_triples, e2, f, e3) h
          | inr (t, e3) ↦ elim (Bool-cases (leb max_lcore_params (length stored))) [
            | inl full ↦ rw (e, parse_triples, e2, f, e3, full) h
            | inr room ↦
                rw (e, parse_triples, e2, f, e3, room)
                  (parse_triples-Fits left next (stored ++ (t ∷ []))
                    (snoc stored t h room (parse_triple-IsTriple (before (drop 1 p) 41) t e3)))
          ]
        ]
      ]
    ]
  ]
    where
      triple : Str → Option LcoreParams
      triple = parse_triple rte_max_ethports rte_max_queues_per_port rte_max_lcore rte_strsplit

      snoc :
          (ps : List LcoreParams) (p : LcoreParams)
          → Fits ps
          → leb max_lcore_params (length ps) ≡ false
          → IsTriple p
          → Fits (ps ++ (p ∷ []))
      snoc ps p (l, r) room t =
          (rw (length-append ps (p ∷ [])) (ground arith), AreTriples-snoc ps p r t)

  -- Whatever the argument, and whether it is accepted or not, parse_config has stored at most
  -- MAX_LCORE_PARAMS triples, each with a port up to and including RTE_MAX_ETHPORTS, a queue up to
  -- RTE_MAX_QUEUES_PER_PORT and a core up to RTE_MAX_LCORE.
  pub parse_config-Fits :
      (q_arg : Str)
      → Fits
          (parse_config rte_max_ethports rte_max_queues_per_port rte_max_lcore rte_strsplit q_arg).1
  unfolding parse_config
  parse_config-Fits q_arg = parse_triples-Fits (suc (length q_arg)) q_arg [] (omega arith, tt)

  -- The loop of parse_config has ended within more rounds than the text has bytes: any two such
  -- numbers of rounds give one result.
  parse_triples-rounds :
      (a b : ℕ) (p0 : Str) (stored : List LcoreParams)
      → length p0 < a
      → length p0 < b
      → parse_triples rte_max_ethports rte_max_queues_per_port rte_max_lcore rte_strsplit a p0
          stored
        ≡ parse_triples rte_max_ethports rte_max_queues_per_port rte_max_lcore rte_strsplit b p0
            stored
  unfolding parse_triples
  parse_triples-rounds zero b p0 stored ha hb = absurd (omega arith)
  parse_triples-rounds (suc a) zero p0 stored ha hb = absurd (omega arith)
  parse_triples-rounds (suc a) (suc b) p0 stored ha hb = elim (Option-cases (strchr p0 40)) [
    | inl e ↦ rw (e, parse_triples) refl
    | inr (p, e) ↦ elim (Option-cases (strchr (drop 1 p) 41)) [
      | inl e2 ↦ rw (e, parse_triples, e2) refl
      | inr (next, e2) ↦
          elim (Option-cases (
            parse_triple rte_max_ethports rte_max_queues_per_port rte_max_lcore rte_strsplit
              (before (drop 1 p) 41))) [
                | inl e3 ↦ rw (e, parse_triples, e2, e3) refl
                | inr (x, e3) ↦
                    (let less = strchr_twice p0 40 41 p next e e2 in
                      let rest =
                        parse_triples-rounds a b next (stored ++ (x ∷ [])) (omega arith)
                          (omega arith) in
                      rw (e, parse_triples, e2, e3, rest) refl)
              ]
    ]
  ]
