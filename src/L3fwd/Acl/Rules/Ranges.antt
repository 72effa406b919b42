-- ===== src/L3fwd/Acl/Rules/Ranges.antt =====
-- l3fwd/l3fwd_acl.c: what an accepted rule for IPv6 holds.
use dpdk_practice.Base.{
  ◌>>=◌, ℕ, zero, suc, ◌+◌, ◌*◌, ◌≤◌, ◌<◌, Bool, true, false, ◌||◌, none, some, ltb, if◌then◌else◌,
  ◌≡◌, refl, sym, ap, ◌∙◌, arith, subst, bind-some, unless-some, some_inj,
}
use dpdk_practice.Clib.{Str}
use dpdk_practice.L3fwd.Routes.{get_cb_field}
use dpdk_practice.L3fwd.Routes.Lpm.Fields.{get_cb_field-le}
use dpdk_practice.L3fwd.Acl.Rules.{
  AclField, AclRule, FieldIndexes, ipv6_fields, put, CbFields, cb_fields, is_port_delim,
  parse_range, parse_rest, parse_word, parse_ipv6_addr, word_mask, parse_ipv6_net,
  parse_cb_ipv6_rule,
}

-- Four fields from index `at` on are the words of an address and of one prefix mask: 32 bits at
-- most to a word, and none behind a word that is not full.
pub record IsPrefix (field : ℕ → AclField) (at : ℕ) : Type 0 where
  pub words : (i : ℕ) → i < 4 → (field (at + i)).value < 4294967296
  pub masks : (i : ℕ) → i < 4 → (field (at + i)).mask_range ≤ 32
  pub full :
      (i : ℕ) → i < 3 → (field (at + i)).mask_range < 32 → (field (at + suc i)).mask_range ≡ 0

-- A field with the two ends of a port range.
pub record IsRange (f : AclField) : Type 0 where
  pub ordered : f.value ≤ f.mask_range
  pub most : f.mask_range ≤ 65535

pub record IsAclRule (w : AclRule) : Type 0 where
  pub src : IsPrefix w.field 1
  pub dst : IsPrefix w.field 5
  pub src_ports : IsRange (w.field 9)
  pub dst_ports : IsRange (w.field 10)
  pub proto-le : (w.field 0).value ≤ 255
  pub proto_mask-le : (w.field 0).mask_range ≤ 255
  pub userdata-le : w.userdata ≤ 4294967295

when-some : (b : Bool) (n q : ℕ × ℕ) → (if b then some n else none) ≡ some q → n ≡ q
when-some true n q h = some_inj h
when-some false n q h = ground arith

parse_range-le :
    (low_text dlm high_text : Str) (low high : ℕ)
    → parse_range low_text dlm high_text ≡ some (low, high)
    → high ≤ 65535
unfolding parse_range
parse_range-le low_text dlm high_text low high h =
    (let (a, (_, h1)) = bind-some (get_cb_field low_text 0 65535 0) _ (low, high) h in
      let ((b, behind), (e, h2)) = bind-some (get_cb_field high_text 0 65535 0) _ (low, high) h1 in
      let q : b ≡ high = ap (λ p. p.1) (when-some (is_port_delim dlm) (a.0, b) (low, high) h2) in
      subst (λ n. n ≤ 65535) q (get_cb_field-le high_text 0 65535 0 b behind e))

parse_word-lt :
    (text : Str) (dlm v : ℕ) (rest : Str) → parse_word text dlm ≡ some (v, rest) → v < 4294967296
unfolding parse_word
parse_word-lt text dlm v rest h =
    (let ((a, behind), (ea, h1)) = bind-some (get_cb_field text 16 65535 58) _ (v, rest) h in
      let ((b, behind'), (eb, h2)) = bind-some (get_cb_field behind 16 65535 dlm) _ (v, rest) h1 in
      let e : a * 65536 + b ≡ v = ap (λ p. p.0) (some_inj h2) in
      omega (
        arith,
        e,
        get_cb_field-le text 16 65535 58 a behind ea,
        get_cb_field-le behind 16 65535 dlm b behind' eb,
      ))

-- The words of an address that parse_ipv6_addr has read.
parse_ipv6_addr-lt :
    (text : Str) (dlm v0 v1 v2 v3 : ℕ) (rest : Str)
    → parse_ipv6_addr text dlm ≡ some ((v0, v1, v2, v3), rest)
    → (v0 < 4294967296) × (v1 < 4294967296) × (v2 < 4294967296) × (v3 < 4294967296)
unfolding parse_ipv6_addr
parse_ipv6_addr-lt text dlm v0 v1 v2 v3 rest h =
    (let ((a, ra), (ea, h1)) = bind-some (parse_word text 58) _ _ h in
      let ((b, rb), (eb, h2)) = bind-some (parse_word ra 58) _ _ h1 in
      let ((c, rc), (ec, h3)) = bind-some (parse_word rb 58) _ _ h2 in
      let ((d, rd), (ed, h4)) = bind-some (parse_word rc dlm) _ _ h3 in
      let q = some_inj h4 in
      (
        subst (λ n. n < 4294967296) (ap (λ p. p.0.0) q) (parse_word-lt text 58 a ra ea),
        subst (λ n. n < 4294967296) (ap (λ p. p.0.1) q) (parse_word-lt ra 58 b rb eb),
        subst (λ n. n < 4294967296) (ap (λ p. p.0.2) q) (parse_word-lt rb 58 c rc ec),
        subst (λ n. n < 4294967296) (ap (λ p. p.0.3) q) (parse_word-lt rc dlm d rd ed),
      ))

-- What parse_ipv6_net has written.
record IsNet (at : ℕ) (rule w : AclRule) : Type 0 where
  word : ℕ → ℕ
  m : ℕ
  word-lt : (i : ℕ) → i < 4 → word i < 4294967296
  written :
      w
      ≡ put (at + 3) (word 3) (word_mask m 3) (
          put
            (at + 2)
            (word 2)
            (word_mask m 2)
            (put (at + 1) (word 1) (word_mask m 1) (put at (word 0) (word_mask m 0) rule)))

abbrev four_words : ℕ → ℕ → ℕ → ℕ → ℕ → ℕ
four_words a b c d zero = a
four_words a b c d (suc zero) = b
four_words a b c d (suc (suc zero)) = c
four_words a b c d (suc (suc (suc i))) = d

four_words-lt :
    (a b c d n : ℕ) → (a < n) × (b < n) × (c < n) × (d < n) → (i : ℕ) → four_words a b c d i < n
four_words-lt a b c d n (p, q, r, s) zero = p
four_words-lt a b c d n (p, q, r, s) (suc zero) = q
four_words-lt a b c d n (p, q, r, s) (suc (suc zero)) = r
four_words-lt a b c d n (p, q, r, s) (suc (suc (suc i))) = s

parse_ipv6_net-IsNet :
    (text : Str) (at : ℕ) (rule w : AclRule)
    → parse_ipv6_net text at rule ≡ some w
    → IsNet at rule w
unfolding parse_ipv6_net
parse_ipv6_net-IsNet text at rule w h =
    (let (((v0, v1, v2, v3), mp), (ea, h1)) = bind-some (parse_ipv6_addr text 47) _ w h in
      let ((m, rest), (em, h2)) = bind-some (get_cb_field mp 0 128 0) _ w h1 in
      record {
        word = four_words v0 v1 v2 v3;
        m = m;
        word-lt = λ i lt.
            four_words-lt v0 v1 v2 v3 4294967296 (parse_ipv6_addr-lt text 47 v0 v1 v2 v3 mp ea) i;
        written = sym (some_inj h2);
      })

word_mask-le : (m i : ℕ) → word_mask m i ≤ 32
word_mask-le m i = ground arith

word_mask-full : (m i : ℕ) → word_mask m i < 32 → word_mask m (suc i) ≡ 0
word_mask-full m i lt = ground arith

-- What parse_rest has written.
record IsRest (at : FieldIndexes) (v w : AclRule) : Type 0 where
  proto : AclField
  src_ports : AclField
  dst_ports : AclField
  userdata : ℕ
  src : IsRange src_ports
  dst : IsRange dst_ports
  proto-le : proto.value ≤ 255
  proto_mask-le : proto.mask_range ≤ 255
  userdata-le : userdata ≤ 4294967295
  written :
      w
      ≡ record (put at.proto_field proto.value proto.mask_range (
          put at.dstp_field dst_ports.value dst_ports.mask_range
            (put at.srcp_field src_ports.value src_ports.mask_range v))) { userdata = userdata }

read_userdata :
    (text : Str) (has_userdata : Bool) (v : AclRule) (n : ℕ)
    → v.userdata ≤ 4294967295
    → (if has_userdata
        then (get_cb_field text 0 4294967295 0 >>= λ p. some p.0)
        else some v.userdata)
      ≡ some n
    → n ≤ 4294967295
read_userdata text true v n le h =
    (let ((a, rest), (e, q)) = bind-some (get_cb_field text 0 4294967295 0) _ n h in
      subst (λ k. k ≤ 4294967295) (some_inj q) (get_cb_field-le text 0 4294967295 0 a rest e))
read_userdata text false v n le h = subst (λ k. k ≤ 4294967295) (some_inj h) le

parse_rest-IsRest :
    (at : FieldIndexes) (ins : CbFields) (has_userdata : Bool) (v w : AclRule)
    → v.userdata ≤ 4294967295
    → parse_rest at ins has_userdata v ≡ some w
    → IsRest at v w
unfolding parse_rest
parse_rest-IsRest at ins has_userdata v w le h =
    (let ((sl, sh), (es, h1)) =
        bind-some (parse_range ins.src_port_low ins.src_port_dlm ins.src_port_high) _ w h in
      let ((dl, dh), (ed, h2)) =
        bind-some (parse_range ins.dst_port_low ins.dst_port_dlm ins.dst_port_high) _ w h1 in
      let (ordered, (eo, h3)) =
        bind-some (if ltb sh sl || ltb dh dl then none else some true) _ w h2 in
      let (in_order, _) = unless-some (ltb sh sl || ltb dh dl) (some true) ordered eo in
      let ((p, rest), (ep, h4)) = bind-some (get_cb_field ins.proto 0 255 47) _ w h3 in
      let ((pm, rest'), (em, h5)) = bind-some (get_cb_field rest 0 255 0) _ w h4 in
      let (u, (eu, h6)) =
        bind-some
          (if has_userdata
            then (get_cb_field ins.userdata 0 4294967295 0 >>= λ n. some n.0)
            else some v.userdata)
          _ w h5 in
      record {
        proto = record { value = p; mask_range = pm };
        src_ports = record { value = sl; mask_range = sh };
        dst_ports = record { value = dl; mask_range = dh };
        userdata = u;
        src = record { ordered = ground (arith, in_order); most = parse_range-le _ _ _ sl sh es };
        dst = record { ordered = ground (arith, in_order); most = parse_range-le _ _ _ dl dh ed };
        proto-le = get_cb_field-le ins.proto 0 255 47 p rest ep;
        proto_mask-le = get_cb_field-le rest 0 255 0 pm rest' em;
        userdata-le = read_userdata ins.userdata has_userdata v u le eu;
        written = sym (some_inj h6);
      })

four_cases : (P : ℕ → Type 0) → P 0 → P 1 → P 2 → P 3 → (i : ℕ) → i < 4 → P i
four_cases P a b c d zero lt = a
four_cases P a b c d (suc zero) lt = b
four_cases P a b c d (suc (suc zero)) lt = c
four_cases P a b c d (suc (suc (suc zero))) lt = d
four_cases P a b c d (suc (suc (suc (suc i)))) lt = absurd (omega arith)

abbrev net_field : (ℕ → ℕ) → ℕ → ℕ → AclField
net_field word m i = record { value = word i; mask_range = word_mask m i }

net-IsPrefix :
    (field : ℕ → AclField) (at : ℕ) (word : ℕ → ℕ) (m : ℕ)
    → ((i : ℕ) → i < 4 → word i < 4294967296)
    → ((i : ℕ) → i < 4 → field (at + i) ≡ net_field word m i)
    → IsPrefix field at
net-IsPrefix field at word m small e = record {
  words = λ i lt. subst (λ f. f.value < 4294967296) (sym (e i lt)) (small i lt);
  masks = λ i lt. subst (λ f. f.mask_range ≤ 32) (sym (e i lt)) (word_mask-le m i);
  full = λ i lt part.
      ap (λ f. f.mask_range) (e (suc i) (omega arith))
      ∙ word_mask-full m i (subst (λ f. f.mask_range < 32) (e i (omega arith)) part);
}

abbrev with_net : ℕ → (ℕ → ℕ) → ℕ → AclRule → AclRule
with_net at word m rule = put (at + 3) (word 3) (word_mask m 3) (
    put (at + 2) (word 2) (word_mask m 2)
      (put (at + 1) (word 1) (word_mask m 1) (put at (word 0) (word_mask m 0) rule)))

abbrev with_rest : AclField → AclField → AclField → ℕ → AclRule → AclRule
with_rest proto src_ports dst_ports userdata v =
    record (put 0 proto.value proto.mask_range (
      put 10 dst_ports.value dst_ports.mask_range (put 9 src_ports.value src_ports.mask_range v))) {
        userdata = userdata;
      }

-- If parse_cb_ipv6_rule accepts a line, whatever the rule held before but for 32 bits of data, then
-- both addresses are 32-bit words with a prefix mask over the four words (at most 32 bits to a
-- word, and none behind a word that is not full), both port ranges are ordered and at most 65535,
-- the protocol and its mask at most 255, and the data fits 32 bits.
pub parse_cb_ipv6_rule-IsAclRule :
    (str : Str) (has_userdata : Bool) (v w : AclRule)
    → v.userdata ≤ 4294967295
    → parse_cb_ipv6_rule str has_userdata v ≡ some w
    → IsAclRule w
unfolding parse_cb_ipv6_rule
parse_cb_ipv6_rule-IsAclRule str has_userdata v w le h =
    (let (ins, (ei, h1)) = bind-some (cb_fields str has_userdata) _ w h in
      let (w1, (e1, h2)) = bind-some (parse_ipv6_net ins.src_addr 1 v) _ w h1 in
      let (w2, (e2, h3)) = bind-some (parse_ipv6_net ins.dst_addr 5 w1) _ w h2 in
      let s = parse_ipv6_net-IsNet ins.src_addr 1 v w1 e1 in
      let d = parse_ipv6_net-IsNet ins.dst_addr 5 w1 w2 e2 in
      let kept : w2.userdata ≡ v.userdata =
        ap (λ x. x.userdata) d.written ∙ ap (λ x. x.userdata) s.written in
      let r =
        parse_rest-IsRest ipv6_fields ins has_userdata w2 w
          (subst (λ n. n ≤ 4294967295) (sym kept) le) h3 in
      let rest = with_rest r.proto r.src_ports r.dst_ports r.userdata in
      let whole : w ≡ rest (with_net 5 d.word d.m (with_net 1 s.word s.m v)) =
        r.written ∙ ap rest (d.written ∙ ap (with_net 5 d.word d.m) s.written) in
      subst IsAclRule (sym whole) (record {
        src = net-IsPrefix _ 1 s.word s.m s.word-lt (
            four_cases
              (λ i.
                (rest (with_net 5 d.word d.m (with_net 1 s.word s.m v))).field (1 + i)
                ≡ net_field s.word s.m i)
              refl refl refl refl);
        dst = net-IsPrefix _ 5 d.word d.m d.word-lt (
            four_cases
              (λ i.
                (rest (with_net 5 d.word d.m (with_net 1 s.word s.m v))).field (5 + i)
                ≡ net_field d.word d.m i)
              refl refl refl refl);
        src_ports = r.src;
        dst_ports = r.dst;
        proto-le = r.proto-le;
        proto_mask-le = r.proto_mask-le;
        userdata-le = r.userdata-le;
      }))
