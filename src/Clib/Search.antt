-- ===== src/Clib/Search.antt =====
-- How far strchr goes.
use dpdk_practice.Base.{
  ℕ, suc, ◌≤◌, ◌<◌, [], ◌∷◌, some, length, drop, ◌==◌, ◌≡◌, arith, inl, inr, Bool-cases, some_inj,
  subst,
}
use dpdk_practice.Clib.{Str, strchr}

-- What strchr points to is not empty, and no longer than the string.
pub strchr-length :
    (s : Str) (c : ℕ) (p : Str) → strchr s c ≡ some p → (0 < length p) × (length p ≤ length s)
strchr-length [] c p h = ground arith
strchr-length (a ∷ s) c p h = elim (Bool-cases (a == c)) [
  | inl e ↦
      subst (λ q. (0 < length q) × (length q ≤ suc (length s))) (some_inj (rw e at h))
        (omega arith, omega arith)
  | inr e ↦ (let (pos, le) = strchr-length s c p (rw e at h) in (pos, omega arith))
]

pub length-drop_one : (p : Str) → 0 < length p → length (drop 1 p) < length p
length-drop_one [] h = h
length-drop_one (c ∷ p) h = omega arith

-- Behind the opening and the closing character there is less left.
pub strchr_twice :
    (s : Str) (c d : ℕ) (p q : Str)
    → strchr s c ≡ some p
    → strchr (drop 1 p) d ≡ some q
    → length q < length s
strchr_twice s c d p q h k =
    (let (pos, le) = strchr-length s c p h in
      let (_, less) = strchr-length (drop 1 p) d q k in omega (arith, length-drop_one p pos))
