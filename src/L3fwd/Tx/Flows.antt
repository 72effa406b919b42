-- ===== src/L3fwd/Tx/Flows.antt =====
-- What one port sees of the calls of rte_eth_tx_burst that the transmit functions of l3fwd/l3fwd.h
-- and l3fwd/l3fwd_common.h make.
use mathlib.Core.List.{Sublist}
use mathlib.Core.List.Sublist
use dpdk_practice.Base.{
  ℕ, zero, suc, ◌==◌, List, [], ◌∷◌, ◌++◌, ◌≡◌, ◌≢◌, refl, sym, ap, ◌∙◌, subst, Bool-cases, ==_iff,
  ==_ne, inl, inr, take, drop, append-nil, append_assoc,
}
use dpdk_practice.L3fwd.Tx.Laws.{buffered, Call, no_call, one_call, Delivers}
use dpdk_practice.L3fwd.Tx.{TxDevice, Core}

-- A run of calls of rte_eth_tx_burst, the queue of each port being `queue_of port`: the packets
-- `offered` are those of the calls on port `q`, `taken` the first packets of each such call that the
-- device took, and `refused` the rest of each.
pub data Runs (d : TxDevice) (queue_of : ℕ → ℕ) (q : ℕ)
    : d.State → d.State → List ℕ → List ℕ → List ℕ → Type 0 where
  no_more : {s : d.State} → Runs d queue_of q s s [] [] []
  elsewhere :
      {s s' : d.State} {offered taken refused : List ℕ} (port : ℕ) (pkts : List ℕ)
      → port ≢ q
      → Runs d queue_of q (d.tx_burst s port (queue_of port) pkts).1 s' offered taken refused
      → Runs d queue_of q s s' offered taken refused
  here :
      {s s' : d.State} {offered taken refused : List ℕ} (pkts : List ℕ)
      → Runs d queue_of q (d.tx_burst s q (queue_of q) pkts).1 s' offered taken refused
      → Runs d queue_of q s s'
          (pkts ++ offered)
          (take (d.tx_burst s q (queue_of q) pkts).0 pkts ++ taken)
          (drop (d.tx_burst s q (queue_of q) pkts).0 pkts ++ refused)

-- First in, first out for port `q`: the packets that waited for it and then `pkts` are those
-- offered to the device by the calls for the port and then those that wait now; on the wire are, in
-- addition, the packets that the device took; and those that it refused are freed, in their order,
-- among the packets `dropped` that are freed on the way.
pub record Flows (d : TxDevice) (c c' : Core d) (q : ℕ) (pkts : List ℕ) : Type 0 where
  pub offered : List ℕ
  pub taken : List ℕ
  pub refused : List ℕ
  pub dropped : List ℕ
  pub calls : Runs d c.tx_queue_id q c.dev c'.dev offered taken refused
  pub same_queues : c'.tx_queue_id ≡ c.tx_queue_id
  pub in_order : buffered d c q ++ pkts ≡ offered ++ buffered d c' q
  pub on_wire : c'.wire q ≡ c.wire q ++ taken
  pub freed : c'.freed ≡ c.freed ++ dropped
  pub among : Sublist refused dropped

empty-Sublist : (xs : List ℕ) → Sublist [] xs
empty-Sublist [] = Sublist.refl []
empty-Sublist (x ∷ xs) = Sublist.cons x (empty-Sublist xs)

module _ (d : TxDevice) where
  Runs-eq :
      {queue_of : ℕ → ℕ} {q : ℕ} {s s1 s' : d.State} {o o' t t' r r' : List ℕ}
      → s1 ≡ s'
      → o ≡ o'
      → t ≡ t'
      → r ≡ r'
      → Runs d queue_of q s s1 o t r
      → Runs d queue_of q s s' o' t' r'
  Runs-eq {queue_of} {q} {s} {s' = s'} {o} {o' = o'} {t} {t' = t'} {r} es eo et er run =
      subst (λ z. Runs d queue_of q s s' o' t' z) er
        (subst (λ z. Runs d queue_of q s s' o' z r) et
          (subst (λ z. Runs d queue_of q s s' z t r) eo
            (subst (λ z. Runs d queue_of q s z o t r) es run)))

  pub Runs-trans :
      {queue_of : ℕ → ℕ} {q : ℕ} {s s1 s' : d.State} {o t r o' t' r' : List ℕ}
      → Runs d queue_of q s s1 o t r
      → Runs d queue_of q s1 s' o' t' r'
      → Runs d queue_of q s s' (o ++ o') (t ++ t') (r ++ r')
  Runs-trans no_more more = more
  Runs-trans (elsewhere port pkts ne run) more = elsewhere port pkts ne (Runs-trans run more)
  Runs-trans {queue_of} {q} {s} {o' = o'} {t' = t'} {r' = r'}
        (here {offered = o} {taken = t} {refused = r} pkts run) more =
      let n = (d.tx_burst s q (queue_of q) pkts).0 in
      Runs-eq refl (sym (append_assoc pkts o o')) (sym (append_assoc (take n pkts) t t'))
        (sym (append_assoc (drop n pkts) r r')) (here pkts (Runs-trans run more))

  -- No call: the packets `dropped` are freed.
  pub Flows-none :
      {c c' : Core d} {q : ℕ} (dropped : List ℕ)
      → c'.wire q ≡ c.wire q
      → buffered d c' q ≡ buffered d c q
      → c'.dev ≡ c.dev
      → c'.tx_queue_id ≡ c.tx_queue_id
      → c'.freed ≡ c.freed ++ dropped
      → Flows d c c' q []
  Flows-none {c} {c'} {q} dropped w b dev queues f = record {
    offered = [];
    taken = [];
    refused = [];
    dropped = dropped;
    calls = Runs-eq (sym dev) refl refl refl no_more;
    same_queues = queues;
    in_order = append-nil _ ∙ sym b;
    on_wire = w ∙ sym (append-nil _);
    freed = f;
    among = empty-Sublist dropped;
  }

  pub Flows-refl : {c : Core d} {q : ℕ} → Flows d c c q []
  Flows-refl = Flows-none [] refl refl refl refl (sym (append-nil _))

  abbrev pub Flows-trans :
      {c c1 c' : Core d} {q : ℕ} {xs ys : List ℕ}
      → Flows d c c1 q xs
      → Flows d c1 c' q ys
      → Flows d c c' q (xs ++ ys)
  Flows-trans {c} {c1} {c'} {q} {xs} {ys} f g = record {
    offered = f.offered ++ g.offered;
    taken = f.taken ++ g.taken;
    refused = f.refused ++ g.refused;
    dropped = f.dropped ++ g.dropped;
    calls =
        Runs-trans f.calls
          (subst (λ k. Runs d k q c1.dev c'.dev g.offered g.taken g.refused) f.same_queues g.calls);
    same_queues = g.same_queues ∙ f.same_queues;
    in_order =
        sym (append_assoc (buffered d c q) xs ys)
        ∙ ap (λ zs. zs ++ ys) f.in_order
        ∙ append_assoc f.offered (buffered d c1 q) ys
        ∙ ap (◌++◌ f.offered) g.in_order
        ∙ sym (append_assoc f.offered g.offered (buffered d c' q));
    on_wire =
        g.on_wire ∙ ap (λ zs. zs ++ g.taken) f.on_wire ∙ append_assoc (c.wire q) f.taken g.taken;
    freed = g.freed ∙ ap (λ zs. zs ++ g.dropped) f.freed ∙ append_assoc c.freed f.dropped g.dropped;
    among = Sublist.append f.among g.among;
  }

  -- The same, of equal packets.
  abbrev pub Flows-eq :
      {c c' : Core d} {q : ℕ} {xs ys : List ℕ} → xs ≡ ys → Flows d c c' q xs → Flows d c c' q ys
  Flows-eq {c} {c'} {q} e f = record {
    offered = f.offered;
    taken = f.taken;
    refused = f.refused;
    dropped = f.dropped;
    calls = f.calls;
    same_queues = f.same_queues;
    in_order = ap (◌++◌ (buffered d c q)) (sym e) ∙ f.in_order;
    on_wire = f.on_wire;
    freed = f.freed;
    among = f.among;
  }

  Call-Runs :
      {queue_of : ℕ → ℕ} {q sent : ℕ} {s s' : d.State} {offered : List ℕ}
      → Call d s s' q (queue_of q) sent offered
      → Runs d queue_of q s s' offered (take sent offered) (drop sent offered)
  Call-Runs {sent} (no_call same none) =
      Runs-eq (sym same) (sym none) (sym (ap (take sent) none ∙ take_none sent))
        (sym (ap (drop sent) none ∙ drop_none sent)) no_more
    where
      take_none : (n : ℕ) → take {A = ℕ} n [] ≡ []
      take_none zero = refl
      take_none (suc n) = refl

      drop_none : (n : ℕ) → drop {A = ℕ} n [] ≡ []
      drop_none zero = refl
      drop_none (suc n) = refl
  Call-Runs {offered} (one_call after taken) =
      Runs-eq (sym after) (append-nil _) (append-nil _ ∙ ap (λ n. take n offered) (sym taken))
        (append-nil _ ∙ ap (λ n. drop n offered) (sym taken)) (here offered no_more)

  Call-Runs-other :
      {queue_of : ℕ → ℕ} {q port sent : ℕ} {s s' : d.State} {offered : List ℕ}
      → port ≢ q
      → Call d s s' port (queue_of port) sent offered
      → Runs d queue_of q s s' [] [] []
  Call-Runs-other ne (no_call same none) = Runs-eq (sym same) refl refl refl no_more
  Call-Runs-other {port} {offered} ne (one_call after taken) =
      Runs-eq (sym after) refl refl refl (elsewhere port offered ne no_more)

  pub Delivers-Flows :
      {c c' : Core d} {q sent dropped : ℕ} {xs : List ℕ}
      → Delivers d c c' q xs sent dropped
      → Flows d c c' q xs
  Delivers-Flows {sent} del = record {
    offered = del.offered;
    taken = take sent del.offered;
    refused = drop sent del.offered;
    dropped = drop sent del.offered;
    calls = Call-Runs del.called;
    same_queues = del.same_queues;
    in_order = del.in_order;
    on_wire = del.on_wire;
    freed = del.freed;
    among = Sublist.refl _;
  }

  pub Delivers-Flows-other :
      {c c' : Core d} {port sent dropped : ℕ} {xs : List ℕ} (q : ℕ)
      → q ≢ port
      → Delivers d c c' port xs sent dropped
      → Flows d c c' q []
  Delivers-Flows-other {sent} q ne del =
      let (w, b, l) = del.others q ne in
      record {
        offered = [];
        taken = [];
        refused = [];
        dropped = drop sent del.offered;
        calls = Call-Runs-other (λ e. ne (sym e)) del.called;
        same_queues = del.same_queues;
        in_order = append-nil _ ∙ sym b;
        on_wire = w ∙ sym (append-nil _);
        freed = del.freed;
        among = empty-Sublist _;
      }

  -- A call without packets, for any port.
  pub Delivers-Flows-all :
      {c c' : Core d} {port sent dropped : ℕ}
      → Delivers d c c' port [] sent dropped
      → (q : ℕ) → Flows d c c' q []
  Delivers-Flows-all {c} {c'} {port} {sent} {dropped} del q = elim (Bool-cases (q == port)) [
    | inl e ↦ subst (λ p. Flows d c c' p []) (sym ((==_iff q port).0 e)) (Delivers-Flows del)
    | inr ne ↦ Delivers-Flows-other q (==_ne q port ne) del
  ]
