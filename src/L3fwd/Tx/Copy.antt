-- ===== src/L3fwd/Tx/Copy.antt =====
-- l3fwd/l3fwd_common.h, send_packetsx4: the copying loops, unrolled by four and entered in the
-- middle.
use dpdk_practice.Base.{
  ℕ, zero, suc, ◌+◌, ◌-◌, ◌*◌, ◌/◌, ◌%◌, ◌≤◌, ◌<◌, ◌≡◌, refl, sym, ap, ◌∙◌, List, [], ◌∷◌, ◌++◌,
  update, ltb, ◌==◌, if◌then◌else◌, arith, length, true, Bool-cases, inl, inr, ap₂,
}
use mathlib.Core.List.{append-nil, append_assoc}

abbrev pub Table : Type 0
Table = ℕ → ℕ

-- The `n` entries from index `i` on.
abbrev pub slice : Table → ℕ → ℕ → List ℕ
slice m i zero = []
slice m i (suc n) = m i ∷ slice m (i + 1) n

-- The copies of one pass behind each label; `to` is where the first packet goes.
module _ (to : ℕ) (m : Table) (from : ℕ) where
  copy_one : Table → ℕ → Table
  copy_one t j = update t (to + j) (m (from + j))

  copy_two : Table → ℕ → Table
  copy_two t j = copy_one (copy_one t j) (j + 1)

  copy_three : Table → ℕ → Table
  copy_three t j = copy_two (copy_one t j) (j + 1)

  copy_four : Table → ℕ → Table
  copy_four t j = copy_three (copy_one t j) (j + 1)

  -- `while (j < n)`, on fuel.
  duff_loop : ℕ → ℕ → ℕ → Table → Table
  duff_loop zero n j t = t
  duff_loop (suc fuel) n j t =
      let rest = duff_loop fuel n (j + 4) (copy_four t j) in if ltb j n then rest else t

-- `switch (n % FWDSTEP) { while (j < n) { case 0: ... } }`
unfoldable pub duff_copy : Table → ℕ → Table → ℕ → ℕ → Table
unfolding duff_loop copy_four copy_three copy_two copy_one
duff_copy t to m from n =
    if n % 4 == 0
    then duff_loop to m from n n 4 (copy_four to m from t 0)
    else if n % 4 == 3
    then duff_loop to m from n n 3 (copy_three to m from t 0)
    else if n % 4 == 2
    then duff_loop to m from n n 2 (copy_two to m from t 0)
    else duff_loop to m from n n 1 (copy_one to m from t 0)

-- The loop that is not unrolled: entries `j`, `j + 1`, ... in turn.
abbrev pub copy_from : ℕ → Table → ℕ → ℕ → ℕ → Table → Table
copy_from to m from j zero t = t
copy_from to m from j (suc k) t = copy_from to m from (j + 1) k (update t (to + j) (m (from + j)))

abbrev quads : ℕ → ℕ
quads zero = 0
quads (suc k) = suc (suc (suc (suc (quads k))))

quads-mul : (k : ℕ) → quads k ≡ 4 * k
quads-mul zero = refl
quads-mul (suc k) = omega (arith, quads-mul k)

next_four : (j : ℕ) → j + 1 + 1 + 1 + 1 ≡ j + 4
next_four j = omega arith

module _ (to : ℕ) (m : Table) (from : ℕ) where
  duff_loop_lem :
      (k fuel n j : ℕ) (t : Table)
      → n ≡ j + quads k
      → k ≤ fuel
      → duff_loop to m from fuel n j t ≡ copy_from to m from j (quads k) t
  unfolding duff_loop copy_four copy_three copy_two copy_one
  duff_loop_lem zero zero n j t e f = refl
  duff_loop_lem zero (suc fuel) n j t e f = ground arith
  duff_loop_lem (suc k) zero n j t e f = absurd (omega arith)
  duff_loop_lem (suc k) (suc fuel) n j t e f = rw (entered) (
      duff_loop_lem k fuel n (j + 4) _ (omega arith) (omega arith)
      ∙ sym (ap (λ x. copy_from to m from x (quads k) (copy_four to m from t j)) (next_four j)))
    where
      entered : ltb j n ≡ true
      entered = ground arith

  -- Behind the entry pass, which copies `r` entries, whole passes are left.
  finish_copies :
      (r n : ℕ) (t t' : Table)
      → r ≤ n
      → (n - r) % 4 ≡ 0
      → ((k : ℕ) → copy_from to m from 0 (r + k) t ≡ copy_from to m from r k t')
      → duff_loop to m from n n r t' ≡ copy_from to m from 0 n t
  finish_copies r n t t' le whole entry =
      let k = (n - r) / 4 in
      let rest : n ≡ r + quads k = omega (arith, quads-mul k) in
      duff_loop_lem k n n r t' rest (omega arith)
      ∙ sym (entry (quads k))
      ∙ ap (λ x. copy_from to m from 0 x t) (sym rest)

  same_count : (x y : ℕ) (t : Table) → x ≡ y → copy_from to m from 0 x t ≡ copy_from to m from 0 y t
  same_count x y t e = ap (λ z. copy_from to m from 0 z t) e

  -- The unrolled loops copy as the plain loop does.
  pub duff_copy_lem :
      (n : ℕ) (t : Table) → 0 < n → duff_copy t to m from n ≡ copy_from to m from 0 n t
  unfolding duff_copy copy_four copy_three copy_two copy_one
  duff_copy_lem n t h = elim (Bool-cases (n % 4 == 0)) [
    | inl a ↦ rw a (
        finish_copies 4 n t _ (ground arith) (ground arith)
          (λ k. same_count (4 + k) (suc (suc (suc (suc k)))) t (omega arith)))
    | inr a ↦ rw a (elim (Bool-cases (n % 4 == 3)) [
      | inl b ↦ rw b (
          finish_copies 3 n t _ (ground arith) (ground arith)
            (λ k. same_count (3 + k) (suc (suc (suc k))) t (omega arith)))
      | inr b ↦ rw b (elim (Bool-cases (n % 4 == 2)) [
        | inl c ↦ rw c (
            finish_copies 2 n t _ (ground arith) (ground arith)
              (λ k. same_count (2 + k) (suc (suc k)) t (omega arith)))
        | inr c ↦ rw c (
            finish_copies 1 n t _ (ground arith) (ground arith)
              (λ k. same_count (1 + k) (suc k) t (omega arith)))
      ])
    ])
  ]

  -- They enter at the first label when nothing is left over, so at `n` = 0 they copy four entries.
  pub duff_copy-zero : (t : Table) → duff_copy t to m from 0 ≡ copy_from to m from 0 4 t
  unfolding duff_copy copy_four copy_three copy_two copy_one duff_loop
  duff_copy-zero t = refl

slice-update : (t : Table) (i n k v : ℕ) → i + n ≤ k → slice (update t k v) i n ≡ slice t i n
slice-update t i zero k v h = refl
slice-update t i (suc n) k v h = ap₂ ◌∷◌ (ground arith) (slice-update t (i + 1) n k v (omega arith))

pub slice-snoc : (t : Table) (i n : ℕ) → slice t i (suc n) ≡ slice t i n ++ (t (i + n) ∷ [])
slice-snoc t i zero = ap (λ x. t x ∷ []) (omega arith)
slice-snoc t i (suc n) =
    ap (◌∷◌ (t i))
      (slice-snoc t (i + 1) n ∙ ap (λ x. slice t (i + 1) n ++ (t x ∷ [])) (omega arith))

pub length-slice : (t : Table) (i n : ℕ) → length (slice t i n) ≡ n
length-slice t i zero = refl
length-slice t i (suc n) = ap suc (length-slice t (i + 1) n)

pub slice-add : (t : Table) (i a b : ℕ) → slice t i (a + b) ≡ slice t i a ++ slice t (i + a) b
slice-add t i zero b = ap₂ (λ x y. slice t x y) (omega arith) (omega arith)
slice-add t i (suc a) b =
    ap (slice t i) {y = suc (a + b)} (omega arith)
    ∙ ap (◌∷◌ (t i))
        (slice-add t (i + 1) a b ∙ ap (λ x. slice t (i + 1) a ++ slice t x b) (omega arith))

pub slice-write :
    (t : Table) (k v : ℕ) {n : ℕ} → n ≡ suc k → slice (update t k v) 0 n ≡ slice t 0 k ++ (v ∷ [])
slice-write t k v {n} e =
    ap (slice (update t k v) 0) e
    ∙ slice-snoc (update t k v) 0 k
    ∙ ap₂ (λ xs y. xs ++ (y ∷ [])) (slice-update t 0 k k v (omega arith)) (ground arith)

-- A table into which `k` packets are copied holds what it held, and then them.
copied :
    (to : ℕ) (m : Table) (from j k : ℕ) (t : Table)
    → slice (copy_from to m from j k t) 0 (to + j + k) ≡ slice t 0 (to + j) ++ slice m (from + j) k
copied to m from j zero t = ap (slice t 0) (omega arith) ∙ sym (append-nil _)
copied to m from j (suc k) t =
    ap (slice (copy_from to m from j (suc k) t) 0) (omega arith)
    ∙ copied to m from (j + 1) k (update t (to + j) (m (from + j)))
    ∙ ap₂ ◌++◌ (slice-write t (to + j) (m (from + j)) (omega arith))
        (ap (λ x. slice m x k) (omega arith))
    ∙ append_assoc (slice t 0 (to + j)) (m (from + j) ∷ []) (slice m (from + j + 1) k)

-- What duff_copy leaves in a buffer of `len` packets.
pub slice-duff_copy :
    (t : Table) (len : ℕ) (m : Table) (from n : ℕ)
    → 0 < n
    → slice (duff_copy t len m from n) 0 (len + n) ≡ slice t 0 len ++ slice m from n
slice-duff_copy t len m from n h = rw (duff_copy_lem len m from n t h) (
    ap (slice (copy_from len m from 0 n t) 0) (omega arith)
    ∙ copied len m from 0 n t
    ∙ ap₂ (λ x y. slice t 0 x ++ slice m y n) (omega arith) (omega arith))

pub slice-duff_copy_front :
    (t : Table) (m : Table) (from n : ℕ)
    → 0 < n
    → slice (duff_copy t 0 m from n) 0 n ≡ slice m from n
slice-duff_copy_front t m from n h =
    ap (slice (duff_copy t 0 m from n) 0) (omega arith) ∙ slice-duff_copy t 0 m from n h
