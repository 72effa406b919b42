-- ===== src/L3fwd/Rfc1812/Laws.antt =====
-- The header checks against the fields of the header, and the incremental checksum.
use dpdk_practice.Base.{
  ltb, ℕ, ◌+◌, ◌*◌, ◌/◌, ◌%◌, ◌≤◌, ◌<◌, Bool, true, false, ◌&&◌, not, leb, ◌==◌, if◌then◌else◌, ◌≡◌,
  ◌≢◌, ◌↔◌, refl, arith, Bool-cases, ==_iff, ==_ne, inl, inr,
}
use mathlib.Core.Path.{fun_ext}
use dpdk_practice.L3fwd.Rfc1812.{
  Frame, bad_port, version_ihl_at, total_length_at, time_to_live_at, hdr_checksum_at, load16,
  store16, decrement_ttl, is_bad_header, rfc1812_process, valid, short_link, is_valid_ipv4_pkt,
  step3_lane, process_packet,
}

-- Every entry of a frame is a byte.
abbrev pub AreBytes : Frame → Type 0
AreBytes f = (i : ℕ) → f i < 256

-- Version 4, at least five words of header, and a total length of at least 20 bytes.
abbrev pub is_good_header : Frame → Bool
is_good_header f =
    f version_ihl_at / 16 == 4
    && leb 5 (f version_ihl_at % 16)
    && leb 20 (f total_length_at * 256 + f (total_length_at + 1))

-- For a frame of bytes, the subtraction that wraps and the comparison in network order refuse
-- exactly the headers that are not version 4, have less than five words or give a total length
-- below 20.
pub is_bad_header-eq-not-is_good_header :
    (f : Frame) → AreBytes f → is_bad_header f ≡ not (is_good_header f)
unfolding is_bad_header
is_bad_header-eq-not-is_good_header f b = ground (arith, b 14, b 16, b 17)

-- For a frame of bytes, a link length of at least 20, a checksum that the device has checked and a
-- destination other than BAD_PORT, the scalar path (is_valid_ipv4_pkt) finds the header valid
-- exactly when the vector path (rfc1812_process) keeps the destination.
pub is_valid-rfc1812_process :
    (cksum : Frame → ℕ) (link_len dp : ℕ) (f : Frame)
    → AreBytes f
    → 20 ≤ link_len
    → dp ≢ bad_port
    → ((is_valid_ipv4_pkt cksum link_len false f).0 ≡ valid) ↔ ((rfc1812_process true f dp).1 ≡ dp)
unfolding is_valid_ipv4_pkt rfc1812_process is_bad_header
is_valid-rfc1812_process cksum link_len dp f b long ne = ground (arith, b 14, b 16, b 17)

-- The 16-bit sum of the header words, as a little-endian host reads them.
abbrev pub header_sum : Frame → ℕ
header_sum f =
    load16 f 14
    + load16 f 16
    + load16 f 18
    + load16 f 20
    + load16 f 22
    + load16 f 24
    + load16 f 26
    + load16 f 28
    + load16 f 30
    + load16 f 32

abbrev wraps : Frame → Bool
wraps f = load16 f hdr_checksum_at == 65535

-- For a frame of bytes with a time to live above 0, `hdr_checksum++` makes up for `time_to_live--`:
-- modulo 65535 the words of the header sum to what they did, but for a checksum field of 0xffff,
-- where one is missing.
pub header_sum-decrement_ttl :
    (f : Frame)
    → AreBytes f
    → 0 < f time_to_live_at
    → (header_sum (decrement_ttl f) + (if wraps f then 1 else 0)) % 65535 ≡ header_sum f % 65535
unfolding decrement_ttl
header_sum-decrement_ttl f b h = elim (Bool-cases (wraps f)) [
  | inl w ↦ rw w (omega (arith, b 22, b 24, b 25, (==_iff _ _).0 w))
  | inr n ↦ rw n (omega (arith, b 22, b 24, b 25, ==_ne _ _ n))
]

-- process_packet writes back 16 bytes that it loaded before the checks, and still leaves the frame
-- and the port that one lane of processx4_step3 leaves.
pub process_packet-eq-step3_lane :
    (val_eth : ℕ → Frame) (is_ipv4 : Bool) (f : Frame) (dst_port : ℕ)
    → process_packet val_eth is_ipv4 f dst_port ≡ step3_lane val_eth is_ipv4 f dst_port
unfolding process_packet step3_lane rfc1812_process decrement_ttl is_bad_header
process_packet-eq-step3_lane val_eth false f dst_port = refl
process_packet-eq-step3_lane val_eth true f dst_port = λ j. (fun_ext (λ i. frames i) j, ports j)
  where
    ports : (process_packet val_eth true f dst_port).1 ≡ (step3_lane val_eth true f dst_port).1
    ports = ground arith

    frames :
        (i : ℕ)
        → (process_packet val_eth true f dst_port).0 i ≡ (step3_lane val_eth true f dst_port).0 i
    frames i = ground arith

-- If is_valid_ipv4_pkt has to verify the checksum itself and finds the packet valid, the packet
-- leaves decrement_ttl with checksum 1, since the field that was cleared for the verification is
-- not restored.
is_valid_ipv4_pkt-decrement_ttl :
    (cksum : Frame → ℕ) (link_len : ℕ) (f : Frame)
    → (is_valid_ipv4_pkt cksum link_len true f).0 ≡ valid
    → load16 (decrement_ttl (is_valid_ipv4_pkt cksum link_len true f).1) hdr_checksum_at ≡ 1
unfolding is_valid_ipv4_pkt decrement_ttl
is_valid_ipv4_pkt-decrement_ttl cksum link_len f h = elim (Bool-cases (ltb link_len 20)) [
  | inl short ↦ absurd (no_short (rw short at h))
  | inr long ↦
      elim (Bool-cases (not (load16 f hdr_checksum_at == cksum (store16 f hdr_checksum_at 0)))) [
        | inl bad ↦ rw (long, bad) refl
        | inr good ↦ rw (long, good) refl
      ]
]
  where
    no_short : short_link ≢ valid
    no_short e = ground arith
