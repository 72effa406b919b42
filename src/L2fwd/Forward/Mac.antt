-- ===== src/L2fwd/Forward/Mac.antt =====
-- What l2fwd_mac_updating leaves in a frame.
use dpdk_practice.Base.{ℕ, ◌+◌, ◌-◌, ◌≤◌, ◌<◌, true, false, ◌&&◌, ltb, leb, ◌≡◌, refl, arith}
use dpdk_practice.L2fwd.Forward.{Frame, l2fwd_mac_updating}

inside : (i : ℕ) → i < 6 → (leb 6 (6 + i) && ltb (6 + i) 12) ≡ true
inside i lt = ground arith

back : (i : ℕ) → 6 + i - 6 ≡ i
back i = omega arith

outside : (i : ℕ) → 12 ≤ i → (leb 6 i && ltb i 12) ≡ false
outside i le = ground arith

behind : (i : ℕ) → 12 ≤ i → (leb 0 i && ltb i 8) ≡ false
behind i le = ground arith

-- For a port below 256, l2fwd_mac_updating makes the first six bytes 02:00:00:00:00 and the port,
-- the next six the address of the port, and leaves every later byte as it was.
l2fwd_mac_updating-lem :
    (ports_eth_addr : ℕ → ℕ → ℕ) (f : Frame) (port : ℕ)
    → port < 256
    → (let g = l2fwd_mac_updating ports_eth_addr f port in
        ((g 0 ≡ 2) × ((g 1 ≡ 0) × ((g 2 ≡ 0) × ((g 3 ≡ 0) × ((g 4 ≡ 0) × (g 5 ≡ port))))))
        × (((i : ℕ) → i < 6 → g (6 + i) ≡ ports_eth_addr port i) × ((i : ℕ) → 12 ≤ i → g i ≡ f i)))
unfolding l2fwd_mac_updating
l2fwd_mac_updating-lem ports_eth_addr f port h = (
  (omega arith, (omega arith, (omega arith, (omega arith, (omega arith, omega arith))))),
  (λ i lt. source i lt, λ i le. later i le),
)
  where
    source :
        (i : ℕ) → i < 6 → l2fwd_mac_updating ports_eth_addr f port (6 + i) ≡ ports_eth_addr port i
    source i lt = rw (inside i lt, back i) refl

    later : (i : ℕ) → 12 ≤ i → l2fwd_mac_updating ports_eth_addr f port i ≡ f i
    later i le = rw (outside i le, behind i le) refl
