-- ===== src/L3fwd/Acl/Alg.antt =====
-- l3fwd/l3fwd_acl.c: the names of the classification algorithms.
use dpdk_practice.Base.{ℕ, List, [], ◌∷◌, if◌then◌else◌}
use dpdk_practice.Clib.{Str, streq}

-- `enum rte_acl_classify_alg`, as far as the program names it.
pub data AclAlg : Type 0 where
  default_alg scalar sse avx2 neon altivec avx512x16 avx512x32 : AclAlg

-- An entry of `acl_alg`.
pub record AclAlgorithm : Type 0 where
  pub name : Str
  pub alg : AclAlg

abbrev avx512x : ℕ → ℕ → Str
avx512x tens ones = b'a' ∷ b'v' ∷ b'x' ∷ b'5' ∷ b'1' ∷ b'2' ∷ b'x' ∷ tens ∷ ones ∷ []

abbrev pub acl_alg : List AclAlgorithm
acl_alg =
    record { name = b's' ∷ b'c' ∷ b'a' ∷ b'l' ∷ b'a' ∷ b'r' ∷ []; alg = scalar }
    ∷ record { name = b's' ∷ b's' ∷ b'e' ∷ []; alg = sse }
    ∷ record { name = b'a' ∷ b'v' ∷ b'x' ∷ b'2' ∷ []; alg = avx2 }
    ∷ record { name = b'n' ∷ b'e' ∷ b'o' ∷ b'n' ∷ []; alg = neon }
    ∷ record { name = b'a' ∷ b'l' ∷ b't' ∷ b'i' ∷ b'v' ∷ b'e' ∷ b'c' ∷ []; alg = altivec }
    ∷ record { name = avx512x b'1' b'6'; alg = avx512x16 }
    ∷ record { name = avx512x b'3' b'2'; alg = avx512x32 }
    ∷ []

-- The loop of parse_acl_alg over the entries.
abbrev pub find_alg : Str → List AclAlgorithm → AclAlg
find_alg text [] = default_alg
find_alg text (a ∷ algs) =
    let rest = find_alg text algs in if streq text a.name then a.alg else rest

pub parse_acl_alg : Str → AclAlg
parse_acl_alg text = find_alg text acl_alg
