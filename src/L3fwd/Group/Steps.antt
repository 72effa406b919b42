-- ===== src/L3fwd/Group/Steps.antt =====
-- common/sse/port_group.h: one call of port_groupx4 carries the groups four packets further.
use dpdk_practice.Base.{
  ℕ, zero, suc, ◌+◌, ◌-◌, ◌≤◌, ◌<◌, ◌%◌, Bool, true, false, ◌==◌, ◌≡◌, refl, sym, ap, ◌∙◌, arith,
  subst, ==_iff, ◌⊎◌, inl, inr, Bool-cases, update_self, update_ne,
}
use dpdk_practice.L3fwd.Group.Table.{Entry}
use dpdk_practice.L3fwd.Group.Runs.{Run, Chain, Chain-ext, Chain-snoc, Chain-trans, Chain-of}
use dpdk_practice.L3fwd.Group.Blocks.{lane, written, RunIn, Fits, entry, entry-Fits}
use dpdk_practice.L3fwd.Group.{Groups, add_last, lanes, store_entry, port_groupx4}

-- The packets up to `c` are in groups; the last group, which `lp` points to, may go on.
pub record Head (e : ℕ → Bool) (c : ℕ) (g : Groups) : Type 0 where
  pub inside : g.lp ≤ c
  pub counts : g.lp + g.pnum g.lp ≡ c + 1
  pub open_run : Run e g.lp (g.pnum g.lp)
  pub chain : Chain e g.pnum 0 g.lp

store_entry-at :
    (f : ℕ → ℕ) (pn : ℕ) (e : Entry) (o : ℕ)
    → o ≤ 4
    → store_entry f pn e.pnum (pn + o) ≡ written e o
unfolding store_entry
store_entry-at f pn e zero h = ground arith
store_entry-at f pn e (suc zero) h = ground arith
store_entry-at f pn e (suc (suc zero)) h = ground arith
store_entry-at f pn e (suc (suc (suc zero))) h = ground arith
store_entry-at f pn e (suc (suc (suc (suc zero)))) h = ground arith
store_entry-at f pn e (suc (suc (suc (suc (suc o))))) h = absurd (omega arith)

store_entry-front : (f : ℕ → ℕ) (pn p i : ℕ) → i < pn → store_entry f pn p i ≡ f i
unfolding store_entry
store_entry-front f pn p i lt = ground arith

module _ (e e' : ℕ → Bool) (c : ℕ) (small : c + 5 < 65536)
    (kept : (i : ℕ) → i < c → e i ≡ true → e' i ≡ true) where
  add_last-counts :
      (g : Groups) (n : ℕ) → n ≤ 4 → Head e c g → (g.pnum g.lp + n) % 65536 ≡ g.pnum g.lp + n
  add_last-counts g n le h = omega (arith, h.counts, small)

  -- All five ports are one: the open group grows.
  grows-Head :
      (g : Groups)
      → ((i : ℕ) → c ≤ i → i < c + 4 → e' i ≡ true)
      → Head e c g
      → Head e' (c + 4) (add_last g 4)
  grows-Head g all h = record {
    inside = omega (arith, h.inside);
    counts = omega (arith, h.counts, size);
    open_run = (
      omega (arith, size),
      λ i lo hi. elim (side i) [
        | inl q ↦ kept i q (h.open_run.1 i lo (omega (arith, h.counts)))
        | inr q ↦ all i q (omega (arith, hi, size, h.counts))
      ],
    );
    chain =
        Chain-ext e' _ h.chain (λ i lt. kept i (omega (arith, h.inside)))
          (λ i lt. update_ne g.pnum g.lp _ i (λ q. omega arith));
  }
    where
      size : (add_last g 4).pnum g.lp ≡ g.pnum g.lp + 4
      size = update_self g.pnum g.lp _ ∙ add_last-counts g 4 (omega arith) h

      side : (i : ℕ) → (i < c) ⊎ (c ≤ i)
      side i = ground arith

  module _ (l : ℕ → Bool) (lanes_of : (r : ℕ) → r < 4 → e' (c + r) ≡ l r) where
    RunIn-Run : (s n : ℕ) → s + n ≤ 5 → RunIn l s n → Run e' (c + s) n
    RunIn-Run s n le (pos, h) = (
      pos,
      λ i lo hi.
          subst (λ k. e' k ≡ true) {x = c + (i - c)} (omega arith)
            (lanes_of (i - c) (omega arith) ∙ h (i - c) (omega arith) (omega arith) (omega arith)),
    )

    -- The block starts new groups.
    moves-Head :
        (g : Groups) (x : Entry)
        → Fits l x
        → Head e c g
        → Head e'
            (c + 4)
            (record { pnum = store_entry (add_last g x.lpv).pnum c x.pnum; lp = c + x.idx })
    moves-Head g x f h = record {
      inside = omega (arith, f.ends);
      counts = omega (arith, at x.idx f.ends, f.last);
      open_run =
          subst (Run e' (c + x.idx)) (sym (at x.idx f.ends))
            (RunIn-Run x.idx _ (omega (arith, f.last)) f.back);
      chain = Chain-trans (Chain-snoc (c + 1 + x.lpv) in_front joined joined_size) inside_block;
    }
      where
        p : ℕ → ℕ
        p = store_entry (add_last g x.lpv).pnum c x.pnum

        at : (o : ℕ) → o ≤ 4 → p (c + o) ≡ written x o
        at o le = store_entry-at _ c x o le

        where_lp : (g.lp < c) ⊎ (g.lp ≡ c)
        where_lp = ground (arith, h.inside)

        side : (i : ℕ) → (i < c) ⊎ (c ≤ i)
        side i = ground arith

        in_front : Chain e' p 0 g.lp
        in_front =
            Chain-ext e' p h.chain (λ i lt. kept i (omega (arith, h.inside)))
              (λ i lt.
                store_entry-front _ c x.pnum i (omega (arith, h.inside))
                ∙ update_ne g.pnum g.lp _ i (λ q. omega arith))

        joined_size : g.lp + p g.lp ≡ c + 1 + x.lpv
        joined_size = elim (where_lp) [
          | inl q ↦
              (let v =
                  store_entry-front (add_last g x.lpv).pnum c x.pnum g.lp q
                  ∙ update_self g.pnum g.lp _
                  ∙ add_last-counts g x.lpv (omega (arith, f.starts, f.ends)) h in
                omega (arith, v, h.counts))
          | inr q ↦
              (let v = ap p {x = g.lp} {y = c + 0} (omega arith) ∙ at 0 (omega arith) ∙ f.first in
                omega (arith, v, q))
        ]

        joined : Run e' g.lp (p g.lp)
        joined = (
          omega (arith, joined_size, h.inside),
          λ i lo hi. elim (side i) [
            | inl q ↦ kept i q (h.open_run.1 i lo (omega (arith, h.counts)))
            | inr q ↦
                subst (λ k. e' k ≡ true) {x = c + (i - c)} (omega arith)
                  (lanes_of (i - c) (below i hi)
                    ∙ f.front.1 (i - c) (below i hi) (omega arith)
                        (omega (arith, hi, joined_size, q)))
          ],
        )
          where
            below : (i : ℕ) → i + 1 < g.lp + p g.lp → i - c < 4
            below i hi = omega (arith, joined_size, f.starts, f.ends)

        inside_block : Chain e' p (c + 1 + x.lpv) (c + x.idx)
        inside_block =
            Chain-of e' p 5 _ _ (omega (arith, f.ends)) (omega (arith, f.starts)) (λ i lo hi.
              (let w = f.within (i - c) (omega arith) in
                let v =
                  ap p {x = i} {y = c + (i - c)} (omega arith)
                  ∙ at (i - c) (omega (arith, f.ends)) in
                (
                  subst (λ k. Run e' k (p i)) {x = c + (i - c)} (omega arith)
                      (subst (Run e' (c + (i - c))) (sym v)
                        (RunIn-Run (i - c) _ (omega (arith, w.1, f.ends)) w.0)),
                  omega (arith, v, w.1),
                )))

full_mask : (a b c d : Bool) → (lanes a b c d == 15) ≡ true → (r : ℕ) → lane a b c d r ≡ true
full_mask true true true true h zero = refl
full_mask true true true true h (suc zero) = refl
full_mask true true true true h (suc (suc zero)) = refl
full_mask true true true true h (suc (suc (suc r))) = refl
full_mask true true true false h r = ground arith
full_mask true true false true h r = ground arith
full_mask true true false false h r = ground arith
full_mask true false true true h r = ground arith
full_mask true false true false h r = ground arith
full_mask true false false true h r = ground arith
full_mask true false false false h r = ground arith
full_mask false true true true h r = ground arith
full_mask false true true false h r = ground arith
full_mask false true false true h r = ground arith
full_mask false true false false h r = ground arith
full_mask false false true true h r = ground arith
full_mask false false true false h r = ground arith
full_mask false false false true h r = ground arith
full_mask false false false false h r = ground arith

-- One block, whose comparisons are those of `e'`. Where its last comparison holds, the open group
-- does not start behind it.
pub port_groupx4-Head :
    (e e' : ℕ → Bool) (i : ℕ) (a b c d : Bool) (g : Groups)
    → i + 5 < 65536
    → ((k : ℕ) → k < i → e k ≡ true → e' k ≡ true)
    → ((r : ℕ) → r < 4 → e' (i + r) ≡ lane a b c d r)
    → Head e i g
    → let g' = port_groupx4 i g (lanes a b c d) in Head e' (i + 4) g' × (d ≡ true → g'.lp ≤ i + 3)
unfolding port_groupx4
port_groupx4-Head e e' i a b c d g small kept of h = elim (Bool-cases (lanes a b c d == 15)) [
  | inl full ↦ rw full (
      rw ((==_iff _ 15).0 full) (
        grows-Head e e' i small kept g
            (λ k lo hi.
              subst (λ j. e' j ≡ true) {x = i + (k - i)} (omega arith)
                (of (k - i) (omega arith) ∙ full_mask a b c d full (k - i)))
            h,
        λ t. omega (arith, h.inside),
      ))
  | inr part ↦ rw part (
      let f = entry-Fits a b c d part in
      (
        moves-Head e e' i small kept (lane a b c d) of g (entry a b c d) f h,
        λ t. omega (arith, f.not_behind t),
      ))
]
