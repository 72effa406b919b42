-- ===== src/L2fwd/LcoreMap/Polled.antt =====
-- l2fwd/main.c: the ports that the cores poll, core by core.
use dpdk_practice.Base.{
  ℕ, zero, suc, ◌≤◌, ◌<◌, Bool, true, false, List, [], ◌∷◌, ◌++◌, update, ◌==◌, if◌then◌else◌, ◌≡◌,
  refl, sym, ap, ap₂, ◌∙◌, ◌⊎◌, inl, inr, arith, ==_iff,
}
use native.Mathlib.Decide.{dec_lt}
use mathlib.Core.List.{append-nil, append_assoc}
use dpdk_practice.Base.Bits.{has_bit}
use dpdk_practice.L2fwd.LcoreMap.{LcoreConf, Found, lcore, not_enough_cores, stuck, add_port}

pub same_core : (f : ℕ → Bool) (p q : ℕ) → (p == q) ≡ true → f p ≡ f q
same_core f p q h = ap f ((==_iff p q).0 h)

pub Found-cases : (f : Found) → ((r : ℕ) × (f ≡ lcore r)) ⊎ (f ≡ not_enough_cores) ⊎ (f ≡ stuck)
Found-cases (lcore r) = inl (r, refl)
Found-cases not_enough_cores = inr (inl refl)
Found-cases stuck = inr (inr refl)

pub full_ne : ¬ (false ≡ true)
full_ne h = cc

-- The ports of cores 0 .. n - 1, in order.
abbrev pub polled : ℕ → LcoreConf → List ℕ
polled zero conf = []
polled (suc n) conf = polled n conf ++ conf n

-- The enabled ports, in order.
abbrev pub enabled_ports : ℕ → List ℕ → List ℕ
enabled_ports mask [] = []
enabled_ports mask (portid ∷ devs) =
    if has_bit mask portid then portid ∷ enabled_ports mask devs else enabled_ports mask devs

pub polled-update :
    (n l : ℕ) (conf : LcoreConf) (v : List ℕ) → n ≤ l → polled n (update conf l v) ≡ polled n conf
polled-update zero l conf v h = refl
polled-update (suc n) l conf v h =
    ap₂ (◌++◌) (polled-update n l conf v (omega arith)) (ground arith)

pub polled_past :
    (m id : ℕ) (conf : LcoreConf)
    → ((l : ℕ) → id < l → conf l ≡ [])
    → id < m
    → polled m conf ≡ polled (suc id) conf
polled_past zero id conf h lt = elim lt [ ]
polled_past (suc m) id conf h lt = elim (dec_lt id m) [
  | yes below ↦ ap₂ (◌++◌) (polled_past m id conf h below) (h m below) ∙ append-nil _
  | no top ↦ let e : id ≡ m = omega arith in ap (λ k. polled (suc k) conf) (sym e)
]

pub polled-add_port :
    (id r p : ℕ) (conf : LcoreConf)
    → ((l : ℕ) → id < l → conf l ≡ [])
    → id ≤ r
    → polled (suc r) (add_port conf r p) ≡ polled (suc id) conf ++ (p ∷ [])
unfolding add_port
polled-add_port id r p conf h le =
    ap₂ (◌++◌) (polled-update r r conf _ (omega arith)) (ground arith)
    ∙ sym (append_assoc (polled r conf) (conf r) (p ∷ []))
    ∙ ap (λ xs. xs ++ (p ∷ [])) (polled_past (suc r) id conf h (omega arith))
