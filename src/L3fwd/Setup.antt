-- ===== src/L3fwd/Setup.antt =====
-- l3fwd/l3fwd_lpm.c (setup_lpm) and l3fwd/l3fwd_fib.c (setup_fib): the routes of the enabled ports
-- are put into the tables. The two loops over the routes have the same steps.
pub mod Best
pub mod Laws
pub mod Routing
mod Tests
use dpdk_practice.Base.{
  ℕ, suc, ◌+◌, Bool, true, false, not, List, [], ◌∷◌, Option, none, some, bit_and, ◌==◌,
  if◌then◌else◌,
}
use dpdk_practice.L3fwd.Routes.Lpm.{LpmRouteRule}

-- rte_lpm, rte_lpm6, rte_fib or rte_fib6: the call that creates a table for the socket, none where it
-- returns NULL; the call that adds a prefix, its depth and its next hop, none where it returns a
-- negative number; the next hop that a lookup finds.
pub record RouteLibrary (A : Type 0) : Type 1 where
  pub State : Type 0
  pub create : Option State
  pub add : State → A → ℕ → ℕ → Option State
  pub lookup : State → A → Option ℕ

-- What rte_exit says: no table, the port without device information, or the route that was not
-- added.
pub data Failure : Type 0 where
  no_table : Failure
  no_info : ℕ → Failure
  no_entry : ℕ → Failure

pub data PopulateResult (S : Type 0) : Type 0 where
  populated : S → PopulateResult S
  stopped : Failure → PopulateResult S

-- The arrays that are freed before rte_exit: none, that of IPv4, or both.
pub data Freed : Type 0 where
  nothing_freed v4_freed both_freed : Freed

-- setup_lpm calls lpm_free_routes, setup_fib calls free.
abbrev pub lpm_freed4 : Failure → Freed
lpm_freed4 (no_entry _) = both_freed
lpm_freed4 _ = nothing_freed

abbrev pub lpm_freed6 : Failure → Freed
lpm_freed6 (no_info _) = nothing_freed
lpm_freed6 _ = both_freed

abbrev pub fib_freed4 : Failure → Freed
fib_freed4 (no_entry _) = v4_freed
fib_freed4 _ = nothing_freed

abbrev pub fib_freed6 : Failure → Freed
fib_freed6 no_table = v4_freed
fib_freed6 (no_info _) = nothing_freed
fib_freed6 (no_entry _) = both_freed

-- Both tables, or the end of the program in the part of a family.
pub data Setup (S4 S6 : Type 0) : Type 0 where
  ready : S4 → S6 → Setup S4 S6
  exits4 : Freed → Failure → Setup S4 S6
  exits6 : Freed → Failure → Setup S4 S6

-- `shift n` is `1 << n`, which C only says for small `n`; `has_info` says where
-- rte_eth_dev_info_get succeeds.
module _ (shift : ℕ → ℕ) (enabled_port_mask : ℕ) (has_info : ℕ → Bool) where
  abbrev pub if_out_enabled : ℕ → Bool
  if_out_enabled if_out = not (bit_and (shift if_out) enabled_port_mask == 0)

  module _ {A : Type 0} (lib : RouteLibrary A) where
    pub add_route_rule : LpmRouteRule A → ℕ → lib.State → PopulateResult lib.State
    add_route_rule route i s =
        if has_info route.if_out
        then elim (lib.add s route.ip route.depth route.if_out) [
          | none ↦ stopped (no_entry i)
          | some s' ↦ populated s'
        ]
        else stopped (no_info route.if_out)

    -- The loop over the routes from index `i`.
    pub populate : List (LpmRouteRule A) → ℕ → lib.State → PopulateResult lib.State
    populate [] i s = populated s
    populate (route ∷ routes) i s =
        if if_out_enabled route.if_out
        then elim (add_route_rule route i s) [
          | stopped why ↦ stopped why
          | populated s' ↦ populate routes (i + 1) s'
        ]
        else populate routes (i + 1) s

  module _ {Ip6 : Type 0} (lib4 : RouteLibrary ℕ) (lib6 : RouteLibrary Ip6)
      (freed4 freed6 : Failure → Freed) (route_base_v4 : List (LpmRouteRule ℕ))
      (route_base_v6 : List (LpmRouteRule Ip6)) where
    pub finish6 : lib4.State → PopulateResult lib6.State → Setup lib4.State lib6.State
    finish6 t4 (populated t6) = ready t4 t6
    finish6 t4 (stopped why) = exits6 (freed6 why) why

    pub setup6 : lib4.State → Option lib6.State → Setup lib4.State lib6.State
    setup6 t4 none = exits6 (freed6 no_table) no_table
    setup6 t4 (some s6) = finish6 t4 (populate lib6 route_base_v6 0 s6)

    pub finish4 : PopulateResult lib4.State → Setup lib4.State lib6.State
    finish4 (populated t4) = setup6 t4 lib6.create
    finish4 (stopped why) = exits4 (freed4 why) why

    pub setup4 : Option lib4.State → Setup lib4.State lib6.State
    setup4 none = exits4 (freed4 no_table) no_table
    setup4 (some s4) = finish4 (populate lib4 route_base_v4 0 s4)

  pub setup_lpm :
      {Ip6 : Type 0} (lib4 : RouteLibrary ℕ) (lib6 : RouteLibrary Ip6)
      → List (LpmRouteRule ℕ)
      → List (LpmRouteRule Ip6)
      → Setup lib4.State lib6.State
  setup_lpm lib4 lib6 route_base_v4 route_base_v6 =
      setup4 lib4 lib6 lpm_freed4 lpm_freed6 route_base_v4 route_base_v6 lib4.create

  pub setup_fib :
      {Ip6 : Type 0} (lib4 : RouteLibrary ℕ) (lib6 : RouteLibrary Ip6)
      → List (LpmRouteRule ℕ)
      → List (LpmRouteRule Ip6)
      → Setup lib4.State lib6.State
  setup_fib lib4 lib6 route_base_v4 route_base_v6 =
      setup4 lib4 lib6 fib_freed4 fib_freed6 route_base_v4 route_base_v6 lib4.create
