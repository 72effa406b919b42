-- ===== src/L3fwd/Group/Table.antt =====
-- common/pkt_group.h: the prebuilt table `gptbl`.
use dpdk_practice.Base.{ℕ, ◌/◌, ◌%◌, ◌^◌, List, [], ◌∷◌}

pub record Entry : Type 0 where
  pub pnum : ℕ
  pub idx : ℕ
  pub lpv : ℕ

abbrev row : ℕ → ℕ → ℕ → Entry
row pnum idx lpv = record { pnum = pnum; idx = idx; lpv = lpv }

abbrev pub no_entry : Entry
no_entry = row 0 0 0

abbrev pub gptbl : List Entry
gptbl =
    row 0x0001000100010001 4 0
    ∷ row 0x0001000100010002 4 1
    ∷ row 0x0001000100020001 4 0
    ∷ row 0x0001000100020003 4 2
    ∷ row 0x0001000200010001 4 0
    ∷ row 0x0001000200010002 4 1
    ∷ row 0x0001000200030001 4 0
    ∷ row 0x0001000200030004 4 3
    ∷ row 0x0002000100010001 3 0
    ∷ row 0x0002000100010002 3 1
    ∷ row 0x0002000100020001 3 0
    ∷ row 0x0002000100020003 3 2
    ∷ row 0x0002000300010001 2 0
    ∷ row 0x0002000300010002 2 1
    ∷ row 0x0002000300040001 1 0
    ∷ row 0x0002000300040005 0 4
    ∷ []

-- `u16[i]` of the 64-bit word, lowest half-word first.
abbrev pub u16_at : ℕ → ℕ → ℕ
u16_at p i = p / 65536 ^ i % 65536
