-- ===== src/L3fwd/Routes/Lpm/Fields.antt =====
-- What GET_CB_FIELD of l3fwd/l3fwd_route.h accepts.
use dpdk_practice.Base.{
  ℕ, ◌≤◌, false, ◌||◌, not, some, drop, ltb, ◌==◌, ◌≡◌, ap, arith, some_inj, unless-some,
}
use dpdk_practice.Clib.{Str, strtoul, char_at}
use dpdk_practice.L3fwd.Routes.{get_cb_field}

pub get_cb_field-le :
    (s : Str) (base lim dlm v : ℕ) (rest : Str)
    → get_cb_field s base lim dlm ≡ some (v, rest)
    → v ≤ lim
unfolding get_cb_field
get_cb_field-le s base lim dlm v rest h =
    (let n = strtoul s base in
      let (f, e) =
        unless-some (n.range || not (char_at n.rest == dlm) || ltb lim n.value)
          (some (n.value, drop 1 n.rest)) (v, rest) h in
      let e0 : n.value ≡ v = ap (λ p. p.0) (some_inj e) in
      let f0 : ltb lim n.value ≡ false = ground arith in ground arith)
