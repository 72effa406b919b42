-- ===== src/Base/Ranks.antt =====
-- Counting the members of an array that pass a test.
use Prim.Native.Nat.{ℕ, zero, suc, ◌≤◌, ◌<◌}
use mathlib.Core.Path.{◌≡◌, refl, sym, ap, ◌∙◌}
use mathlib.Core.Logic.{◌⊎◌, inl, inr, ◌≢◌}
use mathlib.Core.Bool.{Bool, true, false}
use native.Mathlib.Omega.{arith}
use dpdk_practice.Base.Tests.{if◌then◌else◌}
use dpdk_practice.Base.Tables.{update, update_self, update_ne}

-- How many of the first `n` numbers pass.
abbrev pub rank : (ℕ → Bool) → ℕ → ℕ
rank p zero = 0
rank p (suc n) = if p n then suc (rank p n) else rank p n

pub rank_passes : (p : ℕ → Bool) (n : ℕ) → p n ≡ true → rank p (suc n) ≡ suc (rank p n)
rank_passes p n h = rw h refl

pub rank_fails : (p : ℕ → Bool) (n : ℕ) → p n ≡ false → rank p (suc n) ≡ rank p n
rank_fails p n h = rw h refl

pub rank_lt : (p : ℕ → Bool) (j n : ℕ) → j < n → p j ≡ true → rank p j < rank p n
rank_lt p j zero lt h = absurd (omega arith)
rank_lt p j (suc n) lt h = elim (last_or_less) [
  | inl e ↦ ground (arith, h, e)
  | inr less ↦ ground (arith, rank_lt p j n less h)
]
  where
    last_or_less : (j ≡ n) ⊎ (j < n)
    last_or_less = ground arith

pub rank_le : (p : ℕ → Bool) (n : ℕ) → rank p n ≤ n
rank_le p zero = omega arith
rank_le p (suc n) = ground (arith, rank_le p n)

last_or_before : (i n : ℕ) → i < suc n → (i ≡ n) ⊎ (i < n)
last_or_before i n lt = ground arith

-- The members `value i` that pass are stored at their ranks, here and with one more behind them.
module _ {ℓ} {A : Type ℓ} (value : ℕ → A) (p : ℕ → Bool) (n : ℕ) where
  pub push_ranked :
      (k : ℕ) (t : ℕ → A)
      → k ≡ rank p n
      → ((i : ℕ) → i < n → p i ≡ true → t (rank p i) ≡ value i)
      → (i : ℕ) → i < suc n
      → p i ≡ true
      → update t k (value n) (rank p i) ≡ value i
  push_ranked k t e h i lt mine = elim (last_or_before i n lt) [
    | inl q ↦
        ap (update t k (value n)) (ap (rank p) q ∙ sym e)
        ∙ update_self t k (value n)
        ∙ ap value (sym q)
    | inr less ↦
        (let below = rank_lt p i n less mine in
          update_ne t k (value n) (rank p i) (λ q. omega (arith, q, e, below)) ∙ h i less mine)
  ]

  pub keep_ranked :
      (t : ℕ → A)
      → p n ≡ false
      → ((i : ℕ) → i < n → p i ≡ true → t (rank p i) ≡ value i)
      → (i : ℕ) → i < suc n
      → p i ≡ true
      → t (rank p i) ≡ value i
  keep_ranked t other h i lt mine = elim (last_or_before i n lt) [
    | inl q ↦ absurd (differ (sym (ap p q ∙ other) ∙ mine))
    | inr less ↦ h i less mine
  ]
    where
      differ : false ≢ true
      differ e = ground arith

-- An array that is filled from the front, with one more behind.
pub push_filled {ℓ} :
    {A : Type ℓ} (value : ℕ → A) (n : ℕ) (t : ℕ → A) (v : A)
    → v ≡ value n
    → ((i : ℕ) → i < n → t i ≡ value i)
    → (i : ℕ) → i < suc n
    → update t n v i ≡ value i
push_filled value n t v e h i lt = elim (last_or_before i n lt) [
  | inl q ↦ ap (update t n v) q ∙ update_self t n v ∙ e ∙ ap value (sym q)
  | inr less ↦ update_ne t n v i (λ q. omega (arith, q, less)) ∙ h i less
]
