-- ===== src/L3fwd/Group/Blocks.antt =====
-- common/pkt_group.h: what the entries of `gptbl` say of a block of four comparisons, found by
-- evaluation over the sixteen masks.
use dpdk_practice.Base.{
  ℕ, zero, suc, ◌+◌, ◌≤◌, ◌<◌, Bool, true, false, not, ◌&&◌, ◌||◌, ltb, leb, ◌==◌, if◌then◌else◌,
  get_or, ◌≡◌, refl, sym, arith, subst, ==_iff, and_left, and_right, ltb→lt, leb→le, ◌⊎◌, inl, inr,
}
use dpdk_practice.L3fwd.Group.Table.{Entry, gptbl, no_entry, u16_at}
use dpdk_practice.L3fwd.Group.{lanes}

-- The test holds at each number below `n`.
abbrev pub every : ℕ → (ℕ → Bool) → Bool
every zero p = true
every (suc n) p = p n && every n p

every-at : (n : ℕ) (p : ℕ → Bool) → every n p ≡ true → (i : ℕ) → i < n → p i ≡ true
every-at zero p h i lt = absurd (omega arith)
every-at (suc n) p h i lt = elim (last_or_less) [
  | inl q ↦ subst (λ k. p k ≡ true) (sym q) (and_left (p n) _ h)
  | inr q ↦ every-at n p (and_right (p n) _ h) i q
]
  where
    last_or_less : (i ≡ n) ⊎ (i < n)
    last_or_less = ground arith

-- The comparison in lane `r`.
abbrev pub lane : Bool → Bool → Bool → Bool → ℕ → Bool
lane a b c d zero = a
lane a b c d (suc zero) = b
lane a b c d (suc (suc zero)) = c
lane a b c d (suc (suc (suc r))) = d

-- The entry `o` of the five that a block writes.
abbrev pub written : Entry → ℕ → ℕ
written e o = if o == 4 then 1 else u16_at e.pnum o

abbrev implies : Bool → Bool → Bool
implies a b = not a || b

abbrev run_ok : (ℕ → Bool) → ℕ → ℕ → Bool
run_ok l s n = ltb 0 n && every 4 (λ r. implies (leb s r && ltb (r + 1) (s + n)) (l r))

abbrev entry_ok : (ℕ → Bool) → Entry → Bool
entry_ok l e =
    leb (e.lpv + 1) e.idx
    && (leb e.idx 4
        && (written e 0 == e.lpv + 1
            && (e.idx + written e e.idx == 5
                && (implies (l 3) (leb e.idx 3)
                    && (run_ok l 0 (e.lpv + 1)
                        && (run_ok l e.idx (written e e.idx)
                            && every e.idx
                                (λ i. leb (i + written e i) e.idx && run_ok l i (written e i))))))))

abbrev pub entry : Bool → Bool → Bool → Bool → Entry
entry a b c d = get_or gptbl (lanes a b c d) no_entry

entry_ok_lem :
    (a b c d : Bool)
    → (lanes a b c d == 15) ≡ false
    → entry_ok (lane a b c d) (entry a b c d) ≡ true
entry_ok_lem true true true true h = ground arith
entry_ok_lem true true true false h = refl
entry_ok_lem true true false true h = refl
entry_ok_lem true true false false h = refl
entry_ok_lem true false true true h = refl
entry_ok_lem true false true false h = refl
entry_ok_lem true false false true h = refl
entry_ok_lem true false false false h = refl
entry_ok_lem false true true true h = refl
entry_ok_lem false true true false h = refl
entry_ok_lem false true false true h = refl
entry_ok_lem false true false false h = refl
entry_ok_lem false false true true h = refl
entry_ok_lem false false true false h = refl
entry_ok_lem false false false true h = refl
entry_ok_lem false false false false h = refl

-- A run within the block.
abbrev pub RunIn : (ℕ → Bool) → ℕ → ℕ → Type 0
RunIn l s n = (0 < n) × ((r : ℕ) → r < 4 → s ≤ r → r + 1 < s + n → l r ≡ true)

run_ok-RunIn : (l : ℕ → Bool) (s n : ℕ) → run_ok l s n ≡ true → RunIn l s n
run_ok-RunIn l s n h = (
  ltb→lt 0 n (and_left (ltb 0 n) _ h),
  λ r lt lo hi. meets r lo hi (
      every-at 4 (λ r. implies (leb s r && ltb (r + 1) (s + n)) (l r)) (and_right (ltb 0 n) _ h) r
        lt),
)
  where
    meets :
        (r : ℕ)
        → s ≤ r
        → r + 1 < s + n
        → implies (leb s r && ltb (r + 1) (s + n)) (l r) ≡ true
        → l r ≡ true
    meets r lo hi k = ground arith

-- An entry of the table: the block adds `lpv` comparisons to the run in front of it, its own runs
-- lead from there to `idx`, and the last one stays open.
pub record Fits (l : ℕ → Bool) (e : Entry) : Type 0 where
  pub starts : e.lpv + 1 ≤ e.idx
  pub ends : e.idx ≤ 4
  pub first : written e 0 ≡ e.lpv + 1
  pub last : e.idx + written e e.idx ≡ 5
  pub not_behind : l 3 ≡ true → e.idx ≤ 3
  pub front : RunIn l 0 (e.lpv + 1)
  pub back : RunIn l e.idx (written e e.idx)
  pub within : (i : ℕ) → i < e.idx → RunIn l i (written e i) × (i + written e i ≤ e.idx)

pub entry-Fits :
    (a b c d : Bool) → (lanes a b c d == 15) ≡ false → Fits (lane a b c d) (entry a b c d)
entry-Fits a b c d h = fits (entry a b c d) (entry_ok_lem a b c d h)
  where
    l : ℕ → Bool
    l = lane a b c d

    both : (x y : Bool) → (x && y) ≡ true → (x ≡ true) × (y ≡ true)
    both x y k = (and_left x y k, and_right x y k)

    fits : (e : Entry) → entry_ok l e ≡ true → Fits l e
    fits e ok =
        let (c1, r1) = both (leb (e.lpv + 1) e.idx) _ ok in
        let (c2, r2) = both (leb e.idx 4) _ r1 in
        let (c3, r3) = both (written e 0 == e.lpv + 1) _ r2 in
        let (c4, r4) = both (e.idx + written e e.idx == 5) _ r3 in
        let (c5, r5) = both (implies (l 3) (leb e.idx 3)) _ r4 in
        let (c6, r6) = both (run_ok l 0 (e.lpv + 1)) _ r5 in
        let (c7, r7) = both (run_ok l e.idx (written e e.idx)) _ r6 in
        record {
          starts = leb→le _ _ c1;
          ends = leb→le _ _ c2;
          first = (==_iff _ _).0 c3;
          last = (==_iff _ _).0 c4;
          not_behind = λ t. leb→le _ _ (subst (λ x. implies x (leb e.idx 3) ≡ true) t c5);
          front = run_ok-RunIn l _ _ c6;
          back = run_ok-RunIn l _ _ c7;
          within = λ i lt.
              let k = both (leb (i + written e i) e.idx) _ (
                every-at e.idx (λ i. leb (i + written e i) e.idx && run_ok l i (written e i)) r7 i
                  lt) in
              (run_ok-RunIn l i _ k.1, leb→le _ _ k.0);
        }
