-- ===== src/L3fwd/Setup/Laws.antt =====
-- l3fwd/l3fwd_lpm.c and l3fwd/l3fwd_fib.c: what the tables that are set up find, or why the program
-- exits.
use mathlib.Core.List.{Memᴰ}
use mathlib.Core.List.Memᴰ.{append_right}
use dpdk_practice.Base.{
  ℕ, ◌+◌, ◌≤◌, Bool, true, false, List, [], ◌∷◌, ◌++◌, length, Option, none, some, ◌≡◌, refl, sym,
  subst, inl, inr, Bool-cases, Option-cases, length-append, append-nil, append_assoc,
}
use dpdk_practice.L3fwd.Routes.Lpm.{LpmRouteRule}
use dpdk_practice.L3fwd.Setup.{
  RouteLibrary, Failure, no_table, no_info, no_entry, PopulateResult, populated, stopped, Freed,
  lpm_freed4, lpm_freed6, fib_freed4, fib_freed6, Setup, ready, exits4, exits6, if_out_enabled,
  add_route_rule, populate, finish6, setup6, finish4, setup4, setup_lpm, setup_fib,
}
use dpdk_practice.L3fwd.Setup.Best.{
  LongestPrefix, Best, no_match, Best-skip, Best-better, Routed, Best-Routed,
}

module _ (shift : ℕ → ℕ) (enabled_port_mask : ℕ) (has_info : ℕ → Bool) where
  module _ {A : Type 0} {lib : RouteLibrary A} (law : LongestPrefix lib) where
    -- The result of the loop over the routes, on each of its ways out. A route is refused by a table
    -- with the routes before it.
    pub data Explained (routes : List (LpmRouteRule A)) : PopulateResult lib.State → Type 0 where
      all_added :
          (s : lib.State)
          → ((x : A) → Best shift enabled_port_mask has_info law x routes (law.found s x))
          → Explained routes (populated s)
      info_missing :
          (route : LpmRouteRule A)
          → Memᴰ route routes
          → if_out_enabled shift enabled_port_mask has_info route.if_out ≡ true
          → has_info route.if_out ≡ false
          → Explained routes (stopped (no_info route.if_out))
      add_refused :
          (before : List (LpmRouteRule A)) (route : LpmRouteRule A) (after : List (LpmRouteRule A))
          → routes ≡ before ++ route ∷ after
          → if_out_enabled shift enabled_port_mask has_info route.if_out ≡ true
          → (s : lib.State)
          → ((x : A) → Best shift enabled_port_mask has_info law x before (law.found s x))
          → lib.add s route.ip route.depth route.if_out ≡ none
          → Explained routes (stopped (no_entry (length before)))

    -- The loop goes on behind `route`.
    behind :
        (route : LpmRouteRule A) (routes before : List (LpmRouteRule A)) (s : lib.State)
        → Explained ((before ++ (route ∷ [])) ++ routes) (
            populate shift enabled_port_mask has_info lib routes
              (length (before ++ (route ∷ [])))
              s)
        → Explained
            (before ++ route ∷ routes)
            (populate shift enabled_port_mask has_info lib routes (length before + 1) s)
    behind route routes before s h =
        let loop = populate shift enabled_port_mask has_info lib routes in
        subst (λ rs. Explained rs (loop (length before + 1) s))
          (append_assoc before (route ∷ []) routes)
          (subst (λ n. Explained ((before ++ (route ∷ [])) ++ routes) (loop n s))
            (length-append before (route ∷ [])) h)

    populate-Explained :
        (routes before : List (LpmRouteRule A)) (s : lib.State)
        → ((r : LpmRouteRule A) → Memᴰ r routes → r.if_out ≤ 255)
        → ((x : A) → Best shift enabled_port_mask has_info law x before (law.found s x))
        → Explained
            (before ++ routes)
            (populate shift enabled_port_mask has_info lib routes (length before) s)
    unfolding populate add_route_rule
    populate-Explained [] before s small h =
        subst (λ rs. Explained rs (populated s)) (sym (append-nil before)) (all_added s h)
    populate-Explained (route ∷ routes) before s small h =
        let next = λ (s' : lib.State).
          λ (h' : (x : A)
              → Best shift enabled_port_mask has_info law x (before ++ (route ∷ []))
                  (law.found s' x)).
            behind route routes before s' (
              populate-Explained routes (before ++ (route ∷ [])) s' (λ r m. small r (Memᴰ.tail m))
                h') in
        elim (Bool-cases (if_out_enabled shift enabled_port_mask has_info route.if_out)) [
          | inr off ↦ rw off (
              next s (λ x.
                Best-skip shift enabled_port_mask has_info law x before route _ (rw off refl)
                  (h x)))
          | inl on ↦ rw on (elim (Bool-cases (has_info route.if_out)) [
            | inr missing ↦
                rw missing (info_missing route (append_right before (Memᴰ.head refl)) on missing)
            | inl known ↦
                rw known (elim (Option-cases (lib.add s route.ip route.depth route.if_out)) [
                  | inl refused ↦ rw refused (add_refused before route routes refl on s h refused)
                  | inr (s', added) ↦ rw added (
                      next s' (λ x.
                        subst (Best shift enabled_port_mask has_info law x (before ++ (route ∷ [])))
                          (sym (
                            law.add-found s s' route.ip route.depth route.if_out x
                              (small route (Memᴰ.head refl)) added))
                          (Best-better shift enabled_port_mask has_info law x before route
                            (law.found s x) on (h x))))
                ])
          ])
        ]

  module _ {Ip6 : Type 0} {lib4 : RouteLibrary ℕ} {lib6 : RouteLibrary Ip6}
      (law4 : LongestPrefix lib4) (law6 : LongestPrefix lib6) (routes4 : List (LpmRouteRule ℕ))
      (routes6 : List (LpmRouteRule Ip6)) (freed4 freed6 : Failure → Freed) where
    -- The result of the set-up, on each of its ways out.
    pub data SetUp : Setup lib4.State lib6.State → Type 0 where
      tables_filled :
          (t4 : lib4.State) (t6 : lib6.State)
          → ((x : ℕ) → Routed shift enabled_port_mask has_info law4 x routes4 (lib4.lookup t4 x))
          → ((x : Ip6) → Routed shift enabled_port_mask has_info law6 x routes6 (lib6.lookup t6 x))
          → SetUp (ready t4 t6)
      table4_missing : lib4.create ≡ none → SetUp (exits4 (freed4 no_table) no_table)
      table6_missing : lib6.create ≡ none → SetUp (exits6 (freed6 no_table) no_table)
      stopped4 :
          (why : Failure) → Explained law4 routes4 (stopped why) → SetUp (exits4 (freed4 why) why)
      stopped6 :
          (why : Failure) → Explained law6 routes6 (stopped why) → SetUp (exits6 (freed6 why) why)

    Filled4 : lib4.State → Type 0
    Filled4 t4 = (x : ℕ) → Routed shift enabled_port_mask has_info law4 x routes4 (lib4.lookup t4 x)

    finish6-SetUp :
        (t4 : lib4.State)
        → Filled4 t4
        → (p : PopulateResult lib6.State) → Explained law6 routes6 p
        → SetUp
            (finish6 shift enabled_port_mask has_info lib4 lib6 freed4 freed6 routes4 routes6 t4 p)
    unfolding finish6 Filled4
    finish6-SetUp t4 filled (populated t6) (all_added _ h) =
        tables_filled t4 t6 filled
          (λ x. Best-Routed shift enabled_port_mask has_info law6 x routes6 t6 (h x))
    finish6-SetUp t4 filled (stopped why) h = stopped6 why h

    module _ (small4 : (r : LpmRouteRule ℕ) → Memᴰ r routes4 → r.if_out ≤ 255)
        (small6 : (r : LpmRouteRule Ip6) → Memᴰ r routes6 → r.if_out ≤ 255) where
      setup6-SetUp :
          (t4 : lib4.State)
          → Filled4 t4
          → (o : Option lib6.State) → lib6.create ≡ o
          → SetUp
              (setup6 shift enabled_port_mask has_info lib4 lib6 freed4 freed6 routes4 routes6 t4 o)
      unfolding setup6
      setup6-SetUp t4 filled none e = table6_missing e
      setup6-SetUp t4 filled (some s6) e = finish6-SetUp t4 filled _ (
          populate-Explained law6 routes6 [] s6 small6 (λ x.
            subst (Best shift enabled_port_mask has_info law6 x []) (sym (law6.create-found s6 x e))
              (no_match (λ r m. elim m [ ]))))

      finish4-SetUp :
          (p : PopulateResult lib4.State)
          → Explained law4 routes4 p
          → SetUp
              (finish4 shift enabled_port_mask has_info lib4 lib6 freed4 freed6 routes4 routes6 p)
      unfolding finish4 Filled4
      finish4-SetUp (populated t4) (all_added _ h) =
          setup6-SetUp t4
            (λ x. Best-Routed shift enabled_port_mask has_info law4 x routes4 t4 (h x)) lib6.create
            refl
      finish4-SetUp (stopped why) h = stopped4 why h

      setup4-SetUp :
          (o : Option lib4.State)
          → lib4.create ≡ o
          → SetUp
              (setup4 shift enabled_port_mask has_info lib4 lib6 freed4 freed6 routes4 routes6 o)
      unfolding setup4
      setup4-SetUp none e = table4_missing e
      setup4-SetUp (some s4) e = finish4-SetUp _ (
          populate-Explained law4 routes4 [] s4 small4 (λ x.
            subst (Best shift enabled_port_mask has_info law4 x []) (sym (law4.create-found s4 x e))
              (no_match (λ r m. elim m [ ]))))

  module _ {Ip6 : Type 0} {lib4 : RouteLibrary ℕ} {lib6 : RouteLibrary Ip6}
      (law4 : LongestPrefix lib4) (law6 : LongestPrefix lib6) (routes4 : List (LpmRouteRule ℕ))
      (routes6 : List (LpmRouteRule Ip6))
      (small4 : (r : LpmRouteRule ℕ) → Memᴰ r routes4 → r.if_out ≤ 255)
      (small6 : (r : LpmRouteRule Ip6) → Memᴰ r routes6 → r.if_out ≤ 255) where
    -- Let the libraries keep prefix tables (a new one is empty, and a lookup finds the longest
    -- prefix that covers the address, the last added if there are several) and the routes name
    -- ports up to 255. If setup_lpm ends with both tables, then a lookup in either finds the route
    -- that is the longest of those that are enabled and cover the address, the last of the array if
    -- there are several, or none if no such route is; otherwise the program exits because a table
    -- could not be created, or for an enabled route whose port, which it names, has no device
    -- information, or for one, by its index, that the library refused to add to a table with the
    -- routes before it.
    pub setup_lpm-SetUp :
        SetUp law4 law6 routes4 routes6 lpm_freed4 lpm_freed6
          (setup_lpm shift enabled_port_mask has_info lib4 lib6 routes4 routes6)
    unfolding setup_lpm
    setup_lpm-SetUp =
        setup4-SetUp law4 law6 routes4 routes6 lpm_freed4 lpm_freed6 small4 small6 lib4.create refl

    pub setup_fib-SetUp :
        SetUp law4 law6 routes4 routes6 fib_freed4 fib_freed6
          (setup_fib shift enabled_port_mask has_info lib4 lib6 routes4 routes6)
    unfolding setup_fib
    setup_fib-SetUp =
        setup4-SetUp law4 law6 routes4 routes6 fib_freed4 fib_freed6 small4 small6 lib4.create refl
