-- ===== src/L3fwd/Group/Runs.antt =====
-- l3fwd/l3fwd_sse.h, what the grouping of send_packets_multi is to give: runs of packets with one
-- port, one behind the other.
use dpdk_practice.Base.{
  ℕ, zero, suc, ◌+◌, ◌≤◌, ◌<◌, Bool, true, ◌≡◌, sym, arith, subst, ◌⊎◌, inl, inr,
}

-- `e i` says that packets `i` and `i + 1` have one port. The `n` packets from `s` on have one, and
-- they are not none.
abbrev pub Run : (ℕ → Bool) → ℕ → ℕ → Type 0
Run e s n = (0 < n) × ((i : ℕ) → s ≤ i → i + 1 < s + n → e i ≡ true)

-- Steps of `pnum` lead from `a` to `b`, over packets that have one port each.
pub data Chain (e : ℕ → Bool) (pnum : ℕ → ℕ) : ℕ → ℕ → Type 0 where
  done : {a b : ℕ} → a ≡ b → Chain e pnum a b
  link : {a b : ℕ} → Run e a (pnum a) → Chain e pnum (a + pnum a) b → Chain e pnum a b

pub Chain-le : {e : ℕ → Bool} {pnum : ℕ → ℕ} {a b : ℕ} → Chain e pnum a b → a ≤ b
Chain-le (done p) = omega arith
Chain-le (link o c) = omega (arith, Chain-le c)

-- Only the entries and the comparisons in front of `b` matter.
pub Chain-ext :
    {e : ℕ → Bool} {pnum : ℕ → ℕ} {a b : ℕ} (e' : ℕ → Bool) (pnum' : ℕ → ℕ)
    → Chain e pnum a b
    → ((i : ℕ) → i + 1 < b → e i ≡ true → e' i ≡ true)
    → ((i : ℕ) → i < b → pnum' i ≡ pnum i)
    → Chain e' pnum' a b
Chain-ext e' pnum' (done p) h k = done p
Chain-ext {e} {pnum} e' pnum' (link {a} {b} (pos, o) c) h k =
    let le = Chain-le c in
    let same : pnum' a ≡ pnum a = k a (omega (arith, pos, le)) in
    link
      (
        omega (arith, same, pos),
        λ i lo hi. h i (omega (arith, same, hi, le)) (o i lo (omega (arith, same, hi))),
      )
      (subst (λ n. Chain e' pnum' (a + n) b) (sym same) (Chain-ext e' pnum' c h k))

pub Chain-trans :
    {e : ℕ → Bool} {pnum : ℕ → ℕ} {a b c : ℕ}
    → Chain e pnum a b
    → Chain e pnum b c
    → Chain e pnum a c
Chain-trans {e} {pnum} {a} {b} {c} (done p) k = subst (λ i. Chain e pnum i c) (sym p) k
Chain-trans (link o r) k = link o (Chain-trans r k)

-- One more run at the end.
pub Chain-snoc :
    {e : ℕ → Bool} {pnum : ℕ → ℕ} {a b : ℕ} (c : ℕ)
    → Chain e pnum a b
    → Run e b (pnum b)
    → b + pnum b ≡ c
    → Chain e pnum a c
Chain-snoc c k r q = Chain-trans k (link r (done q))

-- A stretch in which every entry is that of a run that ends in it.
pub Chain-of :
    (e : ℕ → Bool) (pnum : ℕ → ℕ) (fuel a b : ℕ)
    → b ≤ a + fuel
    → a ≤ b
    → ((i : ℕ) → a ≤ i → i < b → Run e i (pnum i) × (i + pnum i ≤ b))
    → Chain e pnum a b
Chain-of e pnum zero a b enough le h = done (omega arith)
Chain-of e pnum (suc fuel) a b enough le h = elim (a_or_more) [
  | inl q ↦ done q
  | inr q ↦
      (let (r, most) = h a (omega arith) q in
        link r (
          Chain-of e pnum fuel (a + pnum a) b (omega (arith, r.0)) most
            (λ i lo hi. h i (omega arith) hi)))
]
  where
    a_or_more : (a ≡ b) ⊎ (a < b)
    a_or_more = ground arith
