-- ===== src/L3fwd/Rfc1812.antt =====
-- l3fwd/l3fwd.h, l3fwd_common.h and l3fwd_sse.h: the RFC 1812 checks of an IPv4 header and the
-- rewriting of a frame before it is sent. A frame is its bytes by index, each below 256; the host
-- is little-endian, as the vector code for x86 and Arm supposes.
pub mod Laws
use dpdk_practice.Base.{
  ℕ, ◌+◌, ◌-◌, ◌*◌, ◌/◌, ◌%◌, Bool, ◌&&◌, ◌||◌, not, update, ltb, ◌==◌, if◌then◌else◌, List, [],
  ◌∷◌,
}

abbrev pub Frame : Type 0
Frame = ℕ → ℕ

-- `BAD_PORT`
abbrev pub bad_port : ℕ
bad_port = 65535

-- Where the fields of `struct rte_ipv4_hdr` stand, behind 14 bytes of Ethernet header.
abbrev pub version_ihl_at : ℕ
version_ihl_at = 14

abbrev pub total_length_at : ℕ
total_length_at = 16

abbrev pub time_to_live_at : ℕ
time_to_live_at = 22

abbrev pub hdr_checksum_at : ℕ
hdr_checksum_at = 24

-- A uint16_t as the host reads and writes it.
abbrev pub load16 : Frame → ℕ → ℕ
load16 f at = f at + f (at + 1) * 256

abbrev pub store16 : Frame → ℕ → ℕ → Frame
store16 f at v = update (update f at (v % 256)) (at + 1) (v / 256)

-- rte_cpu_to_be_16 on a little-endian host.
abbrev pub swap16 : ℕ → ℕ
swap16 v = v % 256 * 256 + v / 256

-- `time_to_live--` and `hdr_checksum++`
pub decrement_ttl : Frame → Frame
decrement_ttl f =
    let aged = update f time_to_live_at ((f time_to_live_at + 255) % 256) in
    store16 aged hdr_checksum_at ((load16 f hdr_checksum_at + 1) % 65536)

-- The test of rfc1812_process; `ihl` wraps as a uint8_t does.
unfoldable pub is_bad_header : Frame → Bool
is_bad_header f =
    let ihl = (f version_ihl_at + 256 - 0x45) % 256 in
    let total_length = load16 f total_length_at in
    ltb (0x4f - 0x45) ihl || total_length % 256 == 0 && ltb total_length (20 * 256)

-- `is_ipv4` is RTE_ETH_IS_IPV4_HDR of the packet's type; the new frame and `dp[0]`.
unfoldable pub rfc1812_process : Bool → Frame → ℕ → Frame × ℕ
rfc1812_process is_ipv4 f dp =
    if is_ipv4 then (decrement_ttl f, if is_bad_header f then bad_port else dp) else (f, dp)

-- What is_valid_ipv4_pkt returns: 0, or -1 to -5 in this order.
pub data Verdict : Type 0 where
  valid short_link bad_checksum bad_version bad_header_length bad_total_length : Verdict

-- `cksum` is rte_ipv4_cksum; `unchecked` says that the device has not checked the checksum. The
-- function clears the checksum field before it computes the sum.
module _ (cksum : Frame → ℕ) where
  unfoldable pub header_verdict : Frame → Verdict
  header_verdict f =
      if not (f version_ihl_at / 16 == 4)
      then bad_version
      else if ltb (f version_ihl_at % 16) 5
      then bad_header_length
      else if ltb (swap16 (load16 f total_length_at)) 20
      then bad_total_length
      else valid

  unfoldable pub is_valid_ipv4_pkt : ℕ → Bool → Frame → Verdict × Frame
  unfolding header_verdict
  is_valid_ipv4_pkt link_len unchecked f =
      let cleared = store16 f hdr_checksum_at 0 in
      if ltb link_len 20
      then (short_link, f)
      else if unchecked
      then (if not (load16 f hdr_checksum_at == cksum cleared)
          then (bad_checksum, cleared)
          else (header_verdict cleared, cleared))
      else (header_verdict f, f)

-- The first 12 bytes from `ve`, the rest from `te`: _mm_blend_epi16 with MASK_ETH.
abbrev pub blend : Frame → Frame → Frame
blend te ve i = if ltb i 12 then ve i else te i

-- A 16-byte store at the start of the frame.
abbrev pub store128 : Frame → Frame → Frame
store128 f te i = if ltb i 16 then te i else f i

-- `val_eth` holds the 16 bytes to write for each port.
module _ (val_eth : ℕ → Frame) where
  -- One lane of processx4_step3: the addresses first, then the checks.
  unfoldable pub step3_lane : Bool → Frame → ℕ → Frame × ℕ
  step3_lane is_ipv4 f dst_port =
      rfc1812_process is_ipv4 (store128 f (blend f (val_eth dst_port))) dst_port

  -- process_packet loads the first 16 bytes, makes the checks, and then stores the bytes that it
  -- loaded with the addresses blended in.
  unfoldable pub process_packet : Bool → Frame → ℕ → Frame × ℕ
  process_packet is_ipv4 f dst_port =
      let (checked, dp) = rfc1812_process is_ipv4 f dst_port in
      (store128 checked (blend f (val_eth dst_port)), dp)

  -- processx4_step3 on the four packets.
  pub processx4_step3 : List (Bool × Frame × ℕ) → List (Frame × ℕ)
  processx4_step3 [] = []
  processx4_step3 ((is_ipv4, f, dst_port) ∷ rest) =
      step3_lane is_ipv4 f dst_port ∷ processx4_step3 rest
