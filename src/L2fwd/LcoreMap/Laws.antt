-- ===== src/L2fwd/LcoreMap/Laws.antt =====
-- The assignment of ports to cores: every enabled port once, within the limit of each core.
use dpdk_practice.Base.{
  ℕ, zero, suc, ◌+◌, ◌-◌, ◌*◌, ◌≤◌, ◌<◌, Bool, true, false, List, [], ◌∷◌, ◌++◌, length,
  length-append, leb, if◌then◌else◌, ◌≡◌, ◌≢◌, refl, sym, ap, subst, ◌∙◌, ◌⊎◌, inl, inr, arith,
  Bool-cases,
}
use mathlib.Core.Path.{subst₂}
use native.Mathlib.Decide.{dec_lt}
use mathlib.Core.List.{append-nil, append_assoc}
use dpdk_practice.Base.Bits.{has_bit}
use dpdk_practice.L2fwd.LcoreMap.{
  LcoreConf, idle, Found, lcore, not_enough_cores, stuck, Assigned, assigned, failed, is_busy,
  find_lcore, add_port, assign_port, assign_ports, assign_all,
}
use dpdk_practice.L2fwd.LcoreMap.Polled.{
  same_core, Found-cases, full_ne, polled, enabled_ports, polled_past, polled-add_port,
}

module _ (enabled : ℕ → Bool) (max_lcore per_lcore mask : ℕ) where
  -- Between two rounds: `rx_lcore_id` is `id`, and `done` are the ports given out.
  record Inv (id : ℕ) (conf : LcoreConf) (done : List ℕ) : Type 0 where
    in_range : id < max_lcore
    above : (l : ℕ) → id < l → conf l ≡ []
    limit : (l : ℕ) → length (conf l) ≤ per_lcore
    on_enabled : (l : ℕ) → (conf l ≡ []) ⊎ (enabled l ≡ true)
    below : (l : ℕ) → l < id → is_busy enabled per_lcore conf l ≡ true
    given : polled (suc id) conf ≡ done

  abbrev busy : LcoreConf → ℕ → Bool
  busy = is_busy enabled per_lcore

  abbrev search : ℕ → LcoreConf → ℕ → Found
  search = find_lcore enabled max_lcore per_lcore mask

  -- What a search tells of the cores that it passed.
  abbrev Outcome : LcoreConf → ℕ → Found → Type 0
  Outcome conf id (lcore r) =
      (id ≤ r)
      × (r < max_lcore)
      × (busy conf r ≡ false)
      × ((l : ℕ) → id ≤ l → l < r → busy conf l ≡ true)
  Outcome conf id not_enough_cores = (l : ℕ) → id ≤ l → l < max_lcore → busy conf l ≡ true
  Outcome conf id stuck = ⊥

  from_next :
      (conf : LcoreConf) (id l : ℕ)
      → busy conf id ≡ true
      → id ≤ l
      → (id + 1 ≤ l → busy conf l ≡ true)
      → busy conf l ≡ true
  from_next conf id l b le next = elim (dec_lt id l) [
    | yes lt ↦ next (omega arith)
    | no top ↦ let e : id ≡ l = omega arith in subst (λ x. busy conf x ≡ true) e b
  ]

  widen :
      (conf : LcoreConf) (id : ℕ) (f : Found)
      → busy conf id ≡ true
      → Outcome conf (id + 1) f
      → Outcome conf id f
  widen conf id (lcore r) b (le, lt, free, passed) =
      (omega arith, lt, free, λ l a c. from_next conf id l b a (λ h. passed l h c))
  widen conf id not_enough_cores b passed = λ l a c. from_next conf id l b a (λ h. passed l h c)
  widen conf id stuck b o = o

  find_lcore-Outcome :
      (k id : ℕ) (conf : LcoreConf)
      → id < max_lcore
      → max_lcore ≤ id + k
      → Outcome conf id (search k conf id)
  unfolding find_lcore
  find_lcore-Outcome zero id conf lt le = absurd (omega arith)
  find_lcore-Outcome (suc k) id conf lt le = elim (Bool-cases (busy conf id)) [
    | inr free ↦ rw free (omega arith, lt, free, λ l a c. absurd (omega arith))
    | inl b ↦ rw b (elim (Bool-cases (leb max_lcore (id + 1))) [
      | inl last ↦ rw last (λ l a c. from_next conf id l b a (λ h. absurd (ground arith)))
      | inr more ↦
          rw more
            (widen conf id _ b (find_lcore-Outcome k (id + 1) conf (ground arith) (omega arith)))
    ])
  ]

  abbrev add : LcoreConf → ℕ → ℕ → LcoreConf
  add = add_port

  free_below :
      (conf : LcoreConf) (r : ℕ)
      → busy conf r ≡ false
      → (enabled r ≡ true) × (length (conf r) ≢ per_lcore)
  unfolding is_busy
  free_below conf r h = (ground arith, λ e. full_ne (sym h ∙ ground arith))

  busy-add : (conf : LcoreConf) (r p l : ℕ) → l ≢ r → busy (add conf r p) l ≡ busy conf l
  unfolding is_busy add_port
  busy-add conf r p l ne = ground arith

  add-Inv :
      (conf : LcoreConf) (id r p : ℕ) (done : List ℕ)
      → Inv id conf done
      → Outcome conf id (lcore r)
      → Inv r (add conf r p) (done ++ (p ∷ []))
  unfolding add_port
  add-Inv conf id r p done v (le, lt, free, passed) = record {
    in_range = lt;
    above = λ l h. ground (arith, v.above l);
    limit = λ l.
        ground (
          arith,
          v.limit l,
          v.limit r,
          (free_below conf r free).1,
          length-append (conf r) (p ∷ []),
        );
    on_enabled =
        λ l. ground (arith, v.on_enabled l, (free_below conf r free).0, same_core enabled l r);
    below = λ l h.
        busy-add conf r p l (omega arith)
        ∙ (elim (dec_lt l id) [ yes a ↦ v.below l a | no a ↦ passed l (omega arith) h ]);
    given = polled-add_port id r p conf v.above le ∙ ap (λ xs. xs ++ (p ∷ [])) v.given;
  }

  -- The cores that may poll, among 0 .. n - 1.
  abbrev pub cores : ℕ → ℕ
  cores zero = 0
  cores (suc n) = cores n + (if enabled n then 1 else 0)

  one_full :
      (n : ℕ) (conf : LcoreConf)
      → (conf n ≡ []) ⊎ (enabled n ≡ true)
      → busy conf n ≡ true
      → length (conf n) ≡ (if enabled n then 1 else 0) * per_lcore
  unfolding is_busy
  one_full n conf (inl e) full = rw (ap (length {A = ℕ}) e) (ground (arith, ap (length {A = ℕ}) e))
  one_full n conf (inr e) full = ground arith

  distrib : (a b : ℕ) → (a + b) * per_lcore ≡ a * per_lcore + b * per_lcore
  distrib a b = omega arith

  polled_full :
      (n : ℕ) (conf : LcoreConf)
      → ((l : ℕ) → (conf l ≡ []) ⊎ (enabled l ≡ true))
      → ((l : ℕ) → l < n → busy conf l ≡ true)
      → length (polled n conf) ≡ cores n * per_lcore
  unfolding is_busy
  polled_full zero conf on full = omega arith
  polled_full (suc n) conf on full = omega (
    arith,
    length-append (polled n conf) (conf n),
    one_full n conf (on n) (full n (omega arith)),
    polled_full n conf on (λ l h. full l (omega arith)),
    distrib (cores n) (if enabled n then 1 else 0),
  )

  -- `target` lists what has been given out once the devices are through.
  abbrev Report : List ℕ → Assigned → Type 0
  Report target (assigned id conf) = Inv id conf target
  Report target (failed not_enough_cores) = cores max_lcore * per_lcore < length target
  Report target (failed _) = ⊥

  exhausted :
      (portid id : ℕ) (conf : LcoreConf) (done rest : List ℕ)
      → Inv id conf done
      → Outcome conf id not_enough_cores
      → cores max_lcore * per_lcore < length (done ++ portid ∷ rest)
  exhausted portid id conf done rest v passed =
      let full =
        polled_full max_lcore conf v.on_enabled
          (λ l h. elim (dec_lt l id) [ yes a ↦ v.below l a | no a ↦ passed l (omega arith) h ]) in
      omega (
        arith,
        full,
        length-append done (portid ∷ rest),
        ap (length {A = ℕ}) (polled_past max_lcore id conf v.above v.in_range ∙ v.given),
      )

  abbrev assign : List ℕ → ℕ → LcoreConf → Assigned
  assign = assign_ports enabled max_lcore per_lcore mask

  assign_off :
      (portid : ℕ) (devs : List ℕ) (id : ℕ) (conf : LcoreConf)
      → has_bit mask portid ≡ false
      → assign (portid ∷ devs) id conf ≡ assign devs id conf
  unfolding assign_ports
  assign_off portid devs id conf off = ground arith

  assign_found :
      (portid : ℕ) (devs : List ℕ) (id r : ℕ) (conf : LcoreConf)
      → has_bit mask portid ≡ true
      → search (max_lcore - id) conf id ≡ lcore r
      → assign (portid ∷ devs) id conf ≡ assign devs r (add_port conf r portid)
  unfolding assign_ports assign_port
  assign_found portid devs id r conf on e = ground arith

  assign_fails :
      (portid : ℕ) (devs : List ℕ) (id : ℕ) (conf : LcoreConf)
      → has_bit mask portid ≡ true
      → search (max_lcore - id) conf id ≡ not_enough_cores
      → assign (portid ∷ devs) id conf ≡ failed not_enough_cores
  unfolding assign_ports assign_port
  assign_fails portid devs id conf on e = ground arith

  listed_off :
      (portid : ℕ) (devs : List ℕ)
      → has_bit mask portid ≡ false
      → enabled_ports mask (portid ∷ devs) ≡ enabled_ports mask devs
  listed_off portid devs off = rw off

  listed_on :
      (portid : ℕ) (devs : List ℕ)
      → has_bit mask portid ≡ true
      → enabled_ports mask (portid ∷ devs) ≡ portid ∷ enabled_ports mask devs
  listed_on portid devs on = rw on

  assign_ports-Report :
      (devs : List ℕ) (id : ℕ) (conf : LcoreConf) (done : List ℕ)
      → Inv id conf done
      → Report (done ++ enabled_ports mask devs) (assign devs id conf)
  unfolding assign_ports
  assign_ports-Report [] id conf done v = rw append-nil v
  assign_ports-Report (portid ∷ devs) id conf done v = elim (Bool-cases (has_bit mask portid)) [
    | inr off ↦
        subst₂ Report (sym (ap (◌++◌ done) (listed_off portid devs off)))
          (sym (assign_off portid devs id conf off)) (assign_ports-Report devs id conf done v)
    | inl on ↦
        let outcome = find_lcore-Outcome (max_lcore - id) id conf v.in_range (omega arith) in
        let target = sym (ap (◌++◌ done) (listed_on portid devs on)) in
        elim (Found-cases (search (max_lcore - id) conf id)) [
          | inl (r, e) ↦
              subst₂ Report (append_assoc done (portid ∷ []) (enabled_ports mask devs) ∙ target)
                (sym (assign_found portid devs id r conf on e))
                (assign_ports-Report devs r (add_port conf r portid) (done ++ portid ∷ [])
                  (add-Inv conf id r portid done v (subst (Outcome conf id) e outcome)))
          | inr (inl e) ↦ subst₂ Report target (sym (assign_fails portid devs id conf on e)) (
              exhausted portid id conf done (enabled_ports mask devs) v
                (subst (Outcome conf id) e outcome))
          | inr (inr e) ↦ absurd (subst (Outcome conf id) e outcome)
        ]
  ]

  start : 0 < max_lcore → Inv 0 idle []
  start h = record {
    in_range = h;
    above = λ l _. refl;
    limit = λ l. omega arith;
    on_enabled = λ l. inl refl;
    below = λ l h. elim h [ ];
    given = refl;
  }

  -- With at least one possible core, if main finds a core for every port, then the ports that the
  -- cores poll, in the order of the cores, are the enabled ports in the order of the devices, each
  -- as often as it is listed; no core has more ports than l2fwd_rx_queue_per_lcore, and only
  -- enabled cores have any.
  pub assign_all-ok :
      (devs : List ℕ) (id : ℕ) (conf : LcoreConf)
      → 0 < max_lcore
      → assign_all enabled max_lcore per_lcore mask devs ≡ assigned id conf
      → (polled max_lcore conf ≡ enabled_ports mask devs)
        × ((l : ℕ) → length (conf l) ≤ per_lcore)
        × ((l : ℕ) → (conf l ≡ []) ⊎ (enabled l ≡ true))
  unfolding assign_all
  assign_all-ok devs id conf h e =
      let v : Inv id conf (enabled_ports mask devs) =
        subst (Report (enabled_ports mask devs)) e (assign_ports-Report devs 0 idle [] (start h)) in
      (polled_past max_lcore id conf v.above v.in_range ∙ v.given, v.limit, v.on_enabled)

  -- With at least one possible core, if main gives up, it says "Not enough cores" (the search for a
  -- core always ends within its rounds), and the enabled ports are more than the enabled cores may
  -- poll.
  pub assign_all-failed :
      (devs : List ℕ) (why : Found)
      → 0 < max_lcore
      → assign_all enabled max_lcore per_lcore mask devs ≡ failed why
      → (why ≡ not_enough_cores) × (cores max_lcore * per_lcore < length (enabled_ports mask devs))
  unfolding assign_all
  assign_all-failed devs not_enough_cores h e = (
    refl,
    subst (Report (enabled_ports mask devs)) e (assign_ports-Report devs 0 idle [] (start h)),
  )
  assign_all-failed devs (lcore r) h e =
      absurd
        (subst (Report (enabled_ports mask devs)) e (assign_ports-Report devs 0 idle [] (start h)))
  assign_all-failed devs stuck h e =
      absurd
        (subst (Report (enabled_ports mask devs)) e (assign_ports-Report devs 0 idle [] (start h)))
