-- ===== src/Links.antt =====
-- l2fwd/main.c and l3fwd/main.c: check_all_ports_link_status, which is the same in both programs.
mod Tests
pub mod Scan
pub mod Laws
use dpdk_practice.Base.{
  ℕ, zero, suc, ◌+◌, ◌-◌, Bool, true, false, not, ◌||◌, List, [], ◌∷◌, ◌++◌, Option, none, some,
  ltb, ◌==◌, if◌then◌else◌, bit_and,
}

-- MAX_CHECK_TIME, CHECK_INTERVAL
abbrev pub max_check_time : ℕ
max_check_time = 90

abbrev pub check_interval : ℕ
check_interval = 100

-- What rte_eth_link_get_nowait tells: an error, or the link's status.
pub data Link : Type 0 where
  get_failed link_down link_up : Link

-- What the function prints, and its calls of rte_delay_ms.
pub data Output : Type 0 where
  checking dot done : Output
  delay : ℕ → Output
  link_get_failed : ℕ → Output
  link_status : ℕ → Link → Output

-- What happens outside: the reads of `force_quit`, which a signal sets, and the links of the ports.
pub record Outside : Type 1 where
  pub State : Type 0
  pub force_quit : State → Bool × State
  pub link_get : State → ℕ → Link × State

-- `shift n` is `1 << n`.
module _ (o : Outside) (shift : ℕ → ℕ) (port_mask : ℕ) where
  open o use {State, force_quit, link_get}

  pub record Watch : Type 0 where
    pub outside : State
    pub log : List Output

  abbrev pub say : Output → Watch → Watch
  say e w = record w { log = w.log ++ (e ∷ []) }

  abbrev pub port_enabled : ℕ → Bool
  port_enabled portid = not (bit_and port_mask (shift portid) == 0)

  -- Whether to leave the loop over the ports, and whether `all_ports_up` stays.
  pub data Seen : Type 0 where
    next_port no_link stop : Seen

  -- Behind rte_eth_link_get_nowait.
  pub report : Bool → ℕ → Link → Watch → Seen × Watch
  report print_flag portid get_failed w =
      (no_link, if print_flag then say (link_get_failed portid) w else w)
  report true portid link_down w = (next_port, say (link_status portid link_down) w)
  report true portid link_up w = (next_port, say (link_status portid link_up) w)
  report false portid link_down w = (stop, w)
  report false portid link_up w = (next_port, w)

  -- `scan` goes on with the ports behind this one.
  pub go_on : (Bool → Watch → Option Bool × Watch) → Bool → Seen × Watch → Option Bool × Watch
  go_on scan all_ports_up (next_port, w) = scan all_ports_up w
  go_on scan all_ports_up (no_link, w) = scan false w
  go_on scan all_ports_up (stop, w) = (some false, w)

  -- `none` where force_quit ends the function, `all_ports_up` otherwise.
  pub scan_ports : Bool → List ℕ → Bool → Watch → Option Bool × Watch
  scan_ports print_flag [] all_ports_up w = (some all_ports_up, w)
  scan_ports print_flag (portid ∷ ports) all_ports_up w =
      let (quit, outside) = force_quit w.outside in
      let w1 : Watch = record w { outside = outside } in
      let (link, outside2) = link_get outside portid in
      let skipped = scan_ports print_flag ports all_ports_up w1 in
      let seen =
        go_on (scan_ports print_flag ports) all_ports_up
          (report print_flag portid link (record w { outside = outside2 })) in
      if quit then (none, w1) else if not (port_enabled portid) then skipped else seen

  -- Behind the loop over the ports, but for the last round: a dot and a delay where not all links
  -- are up, and `print_flag` for the next round.
  pub wait_or_done : ℕ → Bool → Watch → Bool × Watch
  wait_or_done count all_ports_up w =
      let waited = if all_ports_up then w else say (delay check_interval) (say dot w) in
      if all_ports_up || count == max_check_time - 1
      then (true, say done waited)
      else (false, waited)

  -- The rounds of the outer loop that are left; `next` goes on behind a round.
  pub end_round : (Bool → Watch → Watch) → ℕ → Bool → Option Bool × Watch → Watch
  end_round next count print_flag (none, w) = w
  end_round next count true (some all_ports_up, w) = w
  end_round next count false (some all_ports_up, w) =
      let (print_flag, w1) = wait_or_done count all_ports_up w in next print_flag w1

  pub check_rounds : List ℕ → ℕ → ℕ → Bool → Watch → Watch
  check_rounds ports zero count print_flag w = w
  check_rounds ports (suc rounds) count print_flag w =
      let (quit, outside) = force_quit w.outside in
      let w1 : Watch = record w { outside = outside } in
      let scanned =
        end_round (check_rounds ports rounds (count + 1)) count print_flag
          (scan_ports print_flag ports true w1) in
      if quit then w1 else scanned

  -- `for (count = 0; count <= MAX_CHECK_TIME; count++)` over the ports of RTE_ETH_FOREACH_DEV.
  pub check_all_ports_link_status : List ℕ → Watch → Watch
  check_all_ports_link_status ports w =
      check_rounds ports (max_check_time + 1) 0 false (say checking w)
