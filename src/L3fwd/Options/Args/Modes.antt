-- ===== src/L3fwd/Options/Args/Modes.antt =====
-- l3fwd/main.c: which command lines parse_args accepts, and which lookup it selects.
use dpdk_practice.Base.{
  length, Bool, true, false, ◌&&◌, not, List, [], ◌∷◌, Option, none, some, leb, if◌then◌else◌, ◌≡◌,
}
use dpdk_practice.L3fwd.Options.{LookupMode, lookup_default, Options}
use dpdk_practice.L3fwd.Options.Args.{Opt, Parsed, quit, failed, parsed, Dpdk, selected}
use dpdk_practice.L3fwd.Options.Args.Spec.{
  View, is_config, is_eventq_sync, is_event_eth_rx_queues, modes, enabled_after, given, is_valid,
}
use dpdk_practice.L3fwd.Options.Args.Tracking.{track_all}

-- Whether these modes can be selected behind another.
abbrev fits : List LookupMode → LookupMode → Bool
fits [] old = true
fits (m ∷ []) lookup_default = true
fits (m ∷ []) old = false
fits (m ∷ n ∷ ms) old = false

abbrev pub first_or : List LookupMode → LookupMode → LookupMode
first_or [] old = old
first_or (m ∷ ms) old = m

-- The tests behind the loop.
abbrev pub event_fits : Bool → Bool → Bool → Bool → Bool
event_fits enabled configured synced counted =
    not (enabled && configured) && not (not enabled && counted) && not (not enabled && synced)

abbrev pub mode_result : Parsed → Option LookupMode
mode_result quit = none
mode_result failed = none
mode_result (parsed c) = some c.lookup_mode

module _ (d : Dpdk) where
  abbrev pub all_valid : List Opt → Bool
  all_valid [] = true
  all_valid (o ∷ opts) = is_valid d o && all_valid opts

  abbrev closed : List Opt → List LookupMode → View → LookupMode → Option View
  closed opts ms v old =
      if all_valid opts && fits ms old
      then some (record {
        lookup_mode = first_or ms old;
        enabled = enabled_after opts v.enabled;
        configured = given is_config opts v.configured;
        synced = given is_eventq_sync opts v.synced;
        counted = given is_event_eth_rx_queues opts v.counted;
      })
      else none

  Closed : List Opt → Type 0
  unfolding track_all
  Closed opts = (v : View) → track_all d opts v ≡ closed opts (modes opts) v v.lookup_mode

  abbrev verdict : View → Option LookupMode
  verdict v =
      if event_fits v.enabled v.configured v.synced v.counted
      then some (selected d v.lookup_mode)
      else none

  -- Whether parse_args accepts the options.
  abbrev pub accepts : List Opt → Bool → Bool
  accepts opts enabled =
      all_valid opts
      && leb (length (modes opts)) 1
      && event_fits (enabled_after opts enabled) (given is_config opts false)
          (given is_eventq_sync opts false) (given is_event_eth_rx_queues opts false)
