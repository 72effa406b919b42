-- ===== src/L3fwd/Setup/Best.antt =====
-- l3fwd/l3fwd_lpm.c and l3fwd/l3fwd_fib.c: the route that the tables should find for an address.
use mathlib.Core.List.{Memᴰ}
use mathlib.Core.List.Memᴰ.{append_cases, cases_cons, eq_of_singleton}
use dpdk_practice.Base.{
  ℕ, ◌≤◌, ◌<◌, Bool, true, false, ◌&&◌, List, [], ◌∷◌, ◌++◌, Option, none, some, leb, ◌≡◌, refl,
  sym, ap, subst, ◌∙◌, arith, inl, inr, Bool-cases, append_assoc, if◌then◌else◌,
}
use dpdk_practice.L3fwd.Routes.Lpm.{LpmRouteRule}
use dpdk_practice.L3fwd.Setup.{RouteLibrary, if_out_enabled}

-- The depth and the next hop of the best entry, with one more: a prefix that covers the address and
-- is no shorter takes its place.
abbrev pub better : Bool → ℕ → ℕ → Option (ℕ × ℕ) → Option (ℕ × ℕ)
better covered depth hop none = if covered then some (depth, hop) else none
better covered depth hop (some (n, old)) =
    if covered && leb n depth then some (depth, hop) else some (n, old)

abbrev pub hop_of : Option (ℕ × ℕ) → Option ℕ
hop_of none = none
hop_of (some (_, hop)) = some hop

-- What the library says of its tables: a new table is empty, and a lookup gives the next hop of the
-- longest prefix that covers the address, the last one added if there are several. `covers` compares
-- the first bits. A next hop has at least eight bits.
pub record LongestPrefix {A : Type 0} (lib : RouteLibrary A) : Type 0 where
  pub covers : A → ℕ → A → Bool
  pub found : lib.State → A → Option (ℕ × ℕ)
  pub create-found : (s : lib.State) (x : A) → lib.create ≡ some s → found s x ≡ none
  pub add-found :
      (s s' : lib.State) (ip : A) (depth hop : ℕ) (x : A)
      → hop ≤ 255
      → lib.add s ip depth hop ≡ some s'
      → found s' x ≡ better (covers ip depth x) depth hop (found s x)
  pub lookup-found : (s : lib.State) (x : A) → lib.lookup s x ≡ hop_of (found s x)

module _ (shift : ℕ → ℕ) (enabled_port_mask : ℕ) (has_info : ℕ → Bool) where
  module _ {A : Type 0} {lib : RouteLibrary A} (law : LongestPrefix lib) where
    -- The port is enabled and the prefix covers the address.
    abbrev pub applies : A → LpmRouteRule A → Bool
    applies x route =
        if_out_enabled shift enabled_port_mask has_info route.if_out
        && law.covers route.ip route.depth x

    -- No route applies, or `route` does, none in front of it is longer and all behind it are shorter.
    pub data Best (x : A) (routes : List (LpmRouteRule A)) : Option (ℕ × ℕ) → Type 0 where
      no_match : ((r : LpmRouteRule A) → Memᴰ r routes → applies x r ≡ false) → Best x routes none
      longest :
          (before : List (LpmRouteRule A)) (route : LpmRouteRule A) (after : List (LpmRouteRule A))
          → routes ≡ before ++ route ∷ after
          → applies x route ≡ true
          → ((r : LpmRouteRule A) → Memᴰ r before → applies x r ≡ true → r.depth ≤ route.depth)
          → ((r : LpmRouteRule A) → Memᴰ r after → applies x r ≡ true → r.depth < route.depth)
          → Best x routes (some (route.depth, route.if_out))

    -- A route that does not apply changes nothing.
    pub Best-skip :
        (x : A) (routes : List (LpmRouteRule A)) (route : LpmRouteRule A) (b : Option (ℕ × ℕ))
        → applies x route ≡ false
        → Best x routes b
        → Best x (routes ++ (route ∷ [])) b
    Best-skip x routes route b off (no_match none_of) = no_match (λ r m.
        elim (append_cases routes m) [
          | inl m' ↦ none_of r m'
          | inr m' ↦ ap (applies x) (eq_of_singleton m') ∙ off
        ])
    Best-skip x routes route b off (longest before best after e on front back) =
        longest before best (after ++ (route ∷ []))
          (ap (λ rs. rs ++ (route ∷ [])) e ∙ append_assoc before (best ∷ after) (route ∷ [])) on
          front
          (λ r m is. elim (append_cases after m) [
            | inl m' ↦ back r m' is
            | inr m' ↦ absurd (cc (off, is, ap (applies x) (eq_of_singleton m')))
          ])

    -- A route that applies and is shorter changes nothing.
    Best-shorter :
        (x : A) (routes : List (LpmRouteRule A)) (route : LpmRouteRule A) (n hop : ℕ)
        → route.depth < n
        → Best x routes (some (n, hop))
        → Best x (routes ++ (route ∷ [])) (some (n, hop))
    Best-shorter x routes route n hop less (longest before best after e on front back) =
        longest before best (after ++ (route ∷ []))
          (ap (λ rs. rs ++ (route ∷ [])) e ∙ append_assoc before (best ∷ after) (route ∷ [])) on
          front
          (λ r m is. elim (append_cases after m) [
            | inl m' ↦ back r m' is
            | inr m' ↦ subst (λ q. q.depth < best.depth) (sym (eq_of_singleton m')) less
          ])

    -- A route that applies and is no shorter than any that does is the best.
    Best-takes :
        (x : A) (routes : List (LpmRouteRule A)) (route : LpmRouteRule A)
        → applies x route ≡ true
        → ((r : LpmRouteRule A) → Memᴰ r routes → applies x r ≡ true → r.depth ≤ route.depth)
        → Best x (routes ++ (route ∷ [])) (some (route.depth, route.if_out))
    Best-takes x routes route on most = longest routes route [] refl on most (λ r m. elim m [ ])

    Best-bound :
        (x : A) (routes : List (LpmRouteRule A)) (n hop : ℕ)
        → Best x routes (some (n, hop))
        → (r : LpmRouteRule A) → Memᴰ r routes
        → applies x r ≡ true
        → r.depth ≤ n
    Best-bound x routes n hop (longest before best after e on front back) r m is =
        elim (append_cases before (subst (Memᴰ r) e m)) [
          | inl m' ↦ front r m' is
          | inr m' ↦ elim (cases_cons m') [
            | inl same ↦ subst (λ q. q.depth ≤ best.depth) (sym same) (omega arith)
            | inr m'' ↦ (let less = back r m'' is in omega (arith, less))
          ]
        ]

    none_apply :
        (x : A) (routes : List (LpmRouteRule A))
        → Best x routes none
        → (r : LpmRouteRule A) → Memᴰ r routes
        → applies x r ≡ false
    none_apply x routes (no_match none_of) = none_of

    -- One more route, added where its port is enabled.
    pub Best-better :
        (x : A) (routes : List (LpmRouteRule A)) (route : LpmRouteRule A) (b : Option (ℕ × ℕ))
        → if_out_enabled shift enabled_port_mask has_info route.if_out ≡ true
        → Best x routes b
        → Best x
            (routes ++ (route ∷ []))
            (better (law.covers route.ip route.depth x) route.depth route.if_out b)
    Best-better x routes route none on h = elim (Bool-cases (law.covers route.ip route.depth x)) [
      | inl covered ↦ rw covered (
          Best-takes x routes route (rw (on, covered) refl)
            (λ r m is. let off = none_apply x routes h r m in absurd (cc (off, is))))
      | inr apart ↦ rw apart (Best-skip x routes route none (rw (on, apart) refl) h)
    ]
    Best-better x routes route (some (n, hop)) on h =
        elim (Bool-cases (law.covers route.ip route.depth x)) [
          | inl covered ↦ elim (Bool-cases (leb n route.depth)) [
            | inl le ↦
                rw (covered, le)
                  (Best-takes x routes route (rw (on, covered) refl) (λ r m is.
                    let most = Best-bound x routes n hop h r m is in ground (arith, most, le)))
            | inr gt ↦ rw (covered, gt) (Best-shorter x routes route n hop (ground (arith, gt)) h)
          ]
          | inr apart ↦ rw apart (Best-skip x routes route (some (n, hop)) (rw (on, apart) refl) h)
        ]

    -- The next hop that a lookup gives is that of the best route.
    unfoldable pub Routed : A → List (LpmRouteRule A) → Option ℕ → Type 0
    Routed x routes hop = (b : Option (ℕ × ℕ)) × Best x routes b × (hop ≡ hop_of b)

    pub Best-Routed :
        (x : A) (routes : List (LpmRouteRule A)) (s : lib.State)
        → Best x routes (law.found s x)
        → Routed x routes (lib.lookup s x)
    unfolding Routed
    Best-Routed x routes s h = (law.found s x, h, law.lookup-found s x)
