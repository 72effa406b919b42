-- ===== src/L3fwd/Setup/Tests.antt =====
-- Routes by longest prefix on tables that keep the best entry of each address.
use mathlib.Core.List.{Memᴰ}
use dpdk_practice.Base.{
  ℕ, ◌-◌, ◌/◌, ◌^◌, ◌≤◌, ◌<◌, ◌+◌, Bool, true, false, List, [], ◌∷◌, map, Option, none, some, ◌==◌,
  if◌then◌else◌, ◌≡◌, refl, sym, ap, arith, inl, inr, Bool-cases,
}
use dpdk_practice.L3fwd.Routes.Lpm.{LpmRouteRule}
use dpdk_practice.L3fwd.Multi.{Packets}
use dpdk_practice.L3fwd.Lpm.{Tables, hop_or, Step1, l3fwd_lpm_process_packets}
use dpdk_practice.L3fwd.Setup.Routing.{RoutesTo, l3fwd_lpm_process_packets-RoutesTo}
use dpdk_practice.L3fwd.Setup.{
  RouteLibrary, Setup, ready, add_route_rule, populate, lpm_freed4, lpm_freed6, setup_lpm, setup4,
  finish4, setup6, finish6,
}
use dpdk_practice.L3fwd.Setup.Best.{better, LongestPrefix, hop_of}
use dpdk_practice.L3fwd.Setup.Laws.{SetUp, setup_lpm-SetUp}

abbrev same_bits : ℕ → ℕ → ℕ → Bool
same_bits ip depth x = ip / 2 ^ (32 - depth) == x / 2 ^ (32 - depth)

-- IPv6 routes by the first byte alone.
abbrev same_byte : (ℕ → ℕ) → ℕ → (ℕ → ℕ) → Bool
same_byte ip depth x = same_bits (ip 0) (depth + 24) (x 0)

module _ {A : Type 0} (covers : A → ℕ → A → Bool) where
  abbrev best_entries : RouteLibrary A
  best_entries = record {
    State = A → Option (ℕ × ℕ);
    create = some (λ x. none);
    add = λ s ip depth hop.
        if depth == 0 then none else some (λ x. better (covers ip depth x) depth hop (s x));
    lookup = λ s x. hop_of (s x);
  }

  abbrev at : A → Option (A → Option (ℕ × ℕ)) → Option (ℕ × ℕ)
  at x none = none
  at x (some s) = s x

  best_entries-LongestPrefix : LongestPrefix best_entries
  best_entries-LongestPrefix = record {
    covers = covers;
    found = λ s x. s x;
    create-found = λ s x e. sym (ap (at x) e);
    add-found = λ s s' ip depth hop x le e. elim (Bool-cases (depth == 0)) [
      | inl z ↦ absurd (cc (rw z at e))
      | inr deep ↦ sym (ap (at x) (rw deep at e))
    ];
    lookup-found = λ s x. refl;
  }

abbrev law4 : LongestPrefix (best_entries same_bits)
law4 = best_entries-LongestPrefix same_bits

abbrev law6 : LongestPrefix (best_entries same_byte)
law6 = best_entries-LongestPrefix same_byte

-- 10.0.0.0/8 to port 1, 10.1.0.0/16 to port 2, and 10.1.2.0/24 to port 3, which is not enabled.
abbrev routes : List (LpmRouteRule ℕ)
routes =
    record { ip = 167772160; depth = 8; if_out = 1 }
    ∷ record { ip = 167837696; depth = 16; if_out = 2 }
    ∷ record { ip = 167838208; depth = 24; if_out = 3 }
    ∷ []

routes-small : (r : LpmRouteRule ℕ) → Memᴰ r routes → r.if_out ≤ 255
routes-small r (Memᴰ.head e) = rw e (omega arith)
routes-small r (Memᴰ.tail (Memᴰ.head e)) = rw e (omega arith)
routes-small r (Memᴰ.tail (Memᴰ.tail (Memᴰ.head e))) = rw e (omega arith)
routes-small r (Memᴰ.tail (Memᴰ.tail (Memᴰ.tail m))) = elim m [ ]

abbrev shift : ℕ → ℕ
shift n = 2 ^ n

setup_lpm-SetUp_example :
    SetUp shift 7
      (λ port. true)
      law4
      law6
      routes
      []
      lpm_freed4
      lpm_freed6
      (setup_lpm shift 7 (λ port. true) (best_entries same_bits) (best_entries same_byte) routes [])
setup_lpm-SetUp_example =
    setup_lpm-SetUp shift 7 (λ port. true) law4 law6 routes [] routes-small (λ r m. elim m [ ])

-- The next hops of some addresses, or none where setup_lpm has exited.
abbrev hops : List ℕ → Setup (ℕ → Option (ℕ × ℕ)) ((ℕ → ℕ) → Option (ℕ × ℕ)) → List (Option ℕ)
hops xs (ready t4 t6) = map (λ x. hop_of (t4 x)) xs
hops xs _ = []

-- 10.1.2.3, 10.2.0.0 and 0.0.0.5
longest_wins :
    hops
      (167838211 ∷ 167903232 ∷ 5 ∷ [])
      (setup_lpm shift 7 (λ port. true) (best_entries same_bits) (best_entries same_byte) routes [])
    ≡ some 2 ∷ some 1 ∷ none ∷ []
unfolding setup_lpm setup4 finish4 setup6 finish6 populate add_route_rule
longest_wins = refl

-- What setup_lpm leaves.
abbrev t4 : ℕ → Option (ℕ × ℕ)
t4 x = better (same_bits 167837696 16 x) 16 2 (better (same_bits 167772160 8 x) 8 1 none)

set_up :
    setup_lpm shift 7 (λ port. true) (best_entries same_bits) (best_entries same_byte) routes []
    ≡ ready t4 (λ x. none)
unfolding setup_lpm setup4 finish4 setup6 finish6 populate add_route_rule
set_up = refl

abbrev lanes : (ℕ → ℕ) → ℕ → ℕ → ℕ
lanes ips portid i = hop_or (hop_of (t4 (ips i))) portid

abbrev packets : Packets
packets = record {
  frame = λ pkt i. if i == 30 then 10 else pkt + i;
  is_ipv4 = λ pkt. true;
  is_ipv6 = λ pkt. false;
}

abbrev table : Tables
table = record { lookup4 = λ x. hop_of (t4 x); lookup6 = λ x. none; lookupx4 = lanes }

abbrev fresh : Step1
fresh = record { dip = λ i. 0; ipv4_flag = λ b. false }

l3fwd_lpm_process_packets-RoutesTo_example :
    let (p', dst_port) =
      l3fwd_lpm_process_packets table (λ port i. port) 6 (λ i. i) 3 fresh false (packets, λ i. 0) in
    ((i : ℕ) → i < 6 → RoutesTo shift 7 (λ port. true) law4 law6 routes [] packets i 3 (dst_port i))
    × (p' ≡ packets)
l3fwd_lpm_process_packets-RoutesTo_example =
    l3fwd_lpm_process_packets-RoutesTo shift 7 (λ port. true) law4 law6 routes [] routes-small
      (λ r m. elim m [ ]) t4 (λ x. none) set_up lanes (λ ips portid i lt. refl) packets (λ i. i) 3
      (omega arith) (λ port i. port) 6 fresh (λ i. 0)
