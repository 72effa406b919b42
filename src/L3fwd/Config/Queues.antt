-- ===== src/L3fwd/Config/Queues.antt =====
-- The receive queues of a port and of a core.
use dpdk_practice.Base.{
  get_or, drop, ℕ, zero, suc, ◌+◌, ◌-◌, ◌≤◌, true, false, List, [], ◌∷◌, ◌++◌, append_assoc,
  append-nil, none, some, length, length-append, leb, ◌==◌, if◌then◌else◌, ◌≡◌, ◌≢◌, refl, sym, ap,
  ap₂, ◌∙◌, arith, inl, inr, Bool-cases, update, ==_iff, some_inj,
}
use dpdk_practice.L3fwd.Config.{
  LcoreParams, count_rx_queues, get_port_n_rx_queues, RxQueues, init_lcore_rx_queues,
  max_rx_queue_per_lcore,
}

-- The queue ids of a port, in the order of the triples.
abbrev pub queues_of : ℕ → List LcoreParams → List ℕ
queues_of port [] = []
queues_of port (p ∷ params) =
    let rest = queues_of port params in if p.port_id == port then p.queue_id ∷ rest else rest

abbrev pub count_from : ℕ → ℕ → List ℕ
count_from next zero = []
count_from next (suc n) = next ∷ count_from (next + 1) n

-- What a core polls, in the order of the triples.
abbrev pub polled_by : ℕ → List LcoreParams → List (ℕ × ℕ)
polled_by lcore [] = []
polled_by lcore (p ∷ params) =
    let rest = polled_by lcore params in
    if p.lcore_id == lcore then (p.port_id, p.queue_id) ∷ rest else rest

count_rx_queues-lem :
    (port next n : ℕ) (params : List LcoreParams)
    → count_rx_queues port next params ≡ some n
    → (next ≤ n) × (queues_of port params ≡ count_from next (n - next))
unfolding count_rx_queues
count_rx_queues-lem port next n [] h =
    (let e = some_inj h in
      let none_left : n - next ≡ 0 = omega arith in (omega arith, rw none_left refl))
count_rx_queues-lem port next n (p ∷ params) h = elim (Bool-cases (p.port_id == port)) [
  | inr skip ↦ rw skip (count_rx_queues-lem port next n params (rw skip at h))
  | inl mine ↦ elim (Bool-cases (p.queue_id == next)) [
    | inr out ↦ absurd (no (rw (mine, out) at h))
    | inl good ↦
        (let (le, q) = count_rx_queues-lem port (next + 1) n params (rw (mine, good) at h) in
          (
            omega arith,
            rw mine (
                ap₂ ◌∷◌ ((==_iff p.queue_id next).0 good) q
                ∙ ap (λ k. count_from next k) (suc_sub next n le)),
          ))
  ]
]
  where
    no : none ≢ some n
    no e = ground arith

    suc_sub : (a b : ℕ) → a + 1 ≤ b → suc (b - (a + 1)) ≡ b - a
    suc_sub a b h = omega arith

-- If get_port_n_rx_queues does not exit, its result is `n` such that the queue ids of the port, in
-- the order of the triples, are 0, 1, ... up to n - 1.
pub get_port_n_rx_queues-lem :
    (port n : ℕ) (params : List LcoreParams)
    → get_port_n_rx_queues port params ≡ some n
    → queues_of port params ≡ count_from 0 n
unfolding get_port_n_rx_queues
get_port_n_rx_queues-lem port n params h =
    (count_rx_queues-lem port 0 n params h).1 ∙ ap (λ k. count_from 0 k) (minus_zero n)
  where
    minus_zero : (k : ℕ) → k - 0 ≡ k
    minus_zero k = omega arith

eq_sym : (a b : ℕ) → (a == b) ≡ true → (b == a) ≡ true
eq_sym a b h = ground arith

ne_sym : (a b : ℕ) → (a == b) ≡ false → (b == a) ≡ false
ne_sym a b h = ground arith

-- If init_lcore_rx_queues returns 0 and no core had more than 16 queues before, then each core
-- polls what it polled before and then the queues of its own triples in their order, and these are
-- at most 16.
pub init_lcore_rx_queues-lem :
    (params : List LcoreParams) (conf : RxQueues)
    → ((l : ℕ) → length (conf l) ≤ max_rx_queue_per_lcore)
    → (init_lcore_rx_queues params conf).0 ≡ true
    → (lcore : ℕ)
    → ((init_lcore_rx_queues params conf).1 lcore ≡ conf lcore ++ polled_by lcore params)
      × (length ((init_lcore_rx_queues params conf).1 lcore) ≤ max_rx_queue_per_lcore)
unfolding init_lcore_rx_queues
init_lcore_rx_queues-lem [] conf small h lcore = (sym (append-nil (conf lcore)), small lcore)
init_lcore_rx_queues-lem (p ∷ params) conf small h lcore =
    elim (Bool-cases (leb max_rx_queue_per_lcore (length (conf p.lcore_id)))) [
      | inl full ↦ absurd (no (rw full at h))
      | inr room ↦
          (let mine : List (ℕ × ℕ) = (p.port_id, p.queue_id) ∷ [] in
            let conf' = update conf p.lcore_id (conf p.lcore_id ++ mine) in
            let (polls, le) =
              init_lcore_rx_queues-lem params conf' (small' room) (rw room at h) lcore in
            rw room (polls ∙ added lcore, le))
    ]
  where
    no : false ≢ true
    no e = ground arith

    small' :
        leb max_rx_queue_per_lcore (length (conf p.lcore_id)) ≡ false
        → (l : ℕ)
        → length (update conf p.lcore_id (conf p.lcore_id ++ ((p.port_id, p.queue_id) ∷ [])) l)
          ≤ max_rx_queue_per_lcore
    small' room l =
        (let mine : List (ℕ × ℕ) = (p.port_id, p.queue_id) ∷ [] in
          elim (Bool-cases (l == p.lcore_id)) [
            | inl e ↦ rw (e, length-append (conf p.lcore_id) mine) (ground arith)
            | inr e ↦ rw e (small l)
          ])

    added :
        (l : ℕ)
        → update conf p.lcore_id (conf p.lcore_id ++ ((p.port_id, p.queue_id) ∷ [])) l
            ++ polled_by l params
          ≡ conf l ++ polled_by l (p ∷ params)
    added l =
        (let mine : List (ℕ × ℕ) = (p.port_id, p.queue_id) ∷ [] in
          elim (Bool-cases (l == p.lcore_id)) [
            | inl e ↦
                rw (e, eq_sym l p.lcore_id e)
                  (append_assoc (conf p.lcore_id) mine (polled_by l params)
                    ∙ ap (λ k. conf k ++ ((p.port_id, p.queue_id) ∷ polled_by l params))
                        (sym ((==_iff l p.lcore_id).0 e)))
            | inr e ↦ rw (e, ne_sym l p.lcore_id e) refl
          ])

count_rx_queues-accepts :
    (port next n : ℕ) (params : List LcoreParams)
    → queues_of port params ≡ count_from next n
    → count_rx_queues port next params ≡ some (next + n)
unfolding count_rx_queues
count_rx_queues-accepts port next zero [] h = ap some (omega arith)
count_rx_queues-accepts port next (suc n) [] h = absurd (no h)
  where
    no : [] ≢ next ∷ count_from (next + 1) n
    no e = ground arith
count_rx_queues-accepts port next zero (p ∷ params) h = elim (Bool-cases (p.port_id == port)) [
  | inr skip ↦ rw skip (count_rx_queues-accepts port next zero params (rw skip at h))
  | inl mine ↦ absurd (no (rw mine at h))
]
  where
    no : p.queue_id ∷ queues_of port params ≢ []
    no e = ground arith
count_rx_queues-accepts port next (suc n) (p ∷ params) h = elim (Bool-cases (p.port_id == port)) [
  | inr skip ↦ rw skip (count_rx_queues-accepts port next (suc n) params (rw skip at h))
  | inl mine ↦
      (let h' : p.queue_id ∷ queues_of port params ≡ next ∷ count_from (next + 1) n =
          rw mine at h in
        rw
          (
            mine,
            (==_iff p.queue_id next).1 (ap (λ xs. get_or xs 0 0) h'),
            count_rx_queues-accepts port (next + 1) n params (ap (λ xs. drop 1 xs) h'),
          )
          (ap some (omega arith)))
]

-- If the queue ids of a port, in the order of the triples, are 0, 1, ... up to n - 1, then
-- get_port_n_rx_queues does not exit and returns n.
get_port_n_rx_queues_accepts :
    (port n : ℕ) (params : List LcoreParams)
    → queues_of port params ≡ count_from 0 n
    → get_port_n_rx_queues port params ≡ some n
unfolding get_port_n_rx_queues
get_port_n_rx_queues_accepts port n params h =
    count_rx_queues-accepts port 0 n params h ∙ ap some (omega arith)
