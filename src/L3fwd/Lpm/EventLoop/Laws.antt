-- ===== src/L3fwd/Lpm/EventLoop/Laws.antt =====
-- l3fwd/l3fwd_lpm.c: what becomes of the packets of lpm_event_loop_single.
use dpdk_practice.Base.{
  ℕ, zero, suc, ◌+◌, ◌≤◌, true, false, List, [], ◌∷◌, ◌++◌, length, take, drop, ◌==◌, ==_iff, ==_ne,
  ◌≡◌, ◌≢◌, ◌⊎◌, refl, sym, ap, subst, ◌∙◌, update_self, arith, inl, inr, Bool-cases, if◌then◌else◌,
}
use dpdk_practice.L3fwd.Rfc1812.{Frame, bad_port}
use dpdk_practice.L3fwd.Tx.Copy.{Table}
use dpdk_practice.L3fwd.Event.{
  RteEvent, event_mbufs, TxFlag, EventDevice, set_tx, EventMemory, txq_set, Phase, polling,
  enqueueing, finished,
}
use dpdk_practice.L3fwd.Event.Laws.{
  drop_all, take_then_drop, held, l3fwd_event_worker_cleanup-lem, port-txq_set, mbuf-set_tx,
}
use dpdk_practice.L3fwd.Lpm.{Tables}
use dpdk_practice.L3fwd.Lpm.EventLoop.{
  lpm_process_event_pkt, lpm_process_events, SingleWorker, enqueue_single, process_single,
  dequeue_single, single_step_in, single_steps, lpm_event_loop_single,
}

-- How often a packet is in a list.
pub copies : ℕ → List ℕ → ℕ
copies mbuf [] = 0
copies mbuf (x ∷ xs) = (if x == mbuf then 1 else 0) + copies mbuf xs

copies-append :
    (mbuf : ℕ) (xs ys : List ℕ) → copies mbuf (xs ++ ys) ≡ copies mbuf xs + copies mbuf ys
unfolding copies
copies-append mbuf [] ys = omega arith
copies-append mbuf (x ∷ xs) ys = omega (arith, copies-append mbuf xs ys)

taken_or_kept :
    (mbuf n : ℕ) (xs : List RteEvent)
    → copies mbuf (event_mbufs (take n xs)) + copies mbuf (event_mbufs (drop n xs))
      ≡ copies mbuf (event_mbufs xs)
taken_or_kept mbuf n xs =
    sym (copies-append mbuf (event_mbufs (take n xs)) (event_mbufs (drop n xs)))
    ∙ ap (copies mbuf) (take_then_drop n xs)

port-lpm_process_event_pkt :
    (tables : Tables) (val_eth : ℕ → Frame) (mbuf : ℕ) (m : EventMemory)
    → let (port, m') = lpm_process_event_pkt tables val_eth mbuf m in m'.port mbuf ≡ port
unfolding lpm_process_event_pkt
port-lpm_process_event_pkt tables val_eth mbuf m = update_self m.port mbuf _

-- The packets whose `port` is BAD_PORT.
pub bad_ones : Table → List ℕ → List ℕ
bad_ones port [] = []
bad_ones port (x ∷ xs) = if port x == bad_port then x ∷ bad_ones port xs else bad_ones port xs

module _ (tables : Tables) (val_eth : ℕ → Frame) (d : EventDevice) (flag : TxFlag)
    (tx_q_id : ℕ) where
  abbrev Single : Type 0
  Single = SingleWorker tables val_eth d flag tx_q_id

  -- The last event, if it was received, its packet is bad and `enq` is still 0.
  pub freed_twice : Single → List ℕ
  freed_twice w =
      if w.nb_deq == 0
      then []
      else if w.nb_enq == 0
      then bad_ones w.memory.port (event_mbufs w.events)
      else []

  -- The packets handed on, those freed and those in `rest` are those received.
  abbrev Accounts : Single → List ℕ → List ℕ → Type 0
  Accounts w rest again =
      (mbuf : ℕ)
      → copies mbuf w.taken + copies mbuf w.freed + copies mbuf rest
        ≡ copies mbuf w.dequeued + copies mbuf again

  data Last (w : Single) : Type 0 where
    no_event : w.nb_deq ≡ 0 → Last w
    last_event :
        (ev : RteEvent)
        → w.nb_deq ≡ 1
        → w.events ≡ ev ∷ []
        → (w.nb_enq ≡ 0 → w.memory.port ev.mbuf ≡ bad_port)
        → Last w

  -- Between two events: every packet is accounted for, and if `enq` is 0, the last was bad.
  record AtHead (w : Single) : Type 0 where
    polls : w.phase ≡ polling
    accounts : Accounts w [] []
    enq : w.nb_enq ≤ 1
    last : Last w

  -- In the loop that enqueues an event, whose packet is good.
  record Enqueues (w : Single) : Type 0 where
    tries : w.phase ≡ enqueueing
    ev : RteEvent
    one : w.nb_deq ≡ 1
    event : w.events ≡ ev ∷ []
    good : w.memory.port ev.mbuf ≢ bad_port
    enq : w.nb_enq ≤ 1
    accounts : Accounts w (event_mbufs (drop w.nb_enq w.events)) []

  enqueue_single-Enqueues :
      (w : Single) (ev : RteEvent)
      → w.nb_deq ≡ 1
      → w.events ≡ ev ∷ []
      → w.memory.port ev.mbuf ≢ bad_port
      → Accounts w (event_mbufs w.events) []
      → Enqueues (enqueue_single tables val_eth d flag tx_q_id w)
  unfolding enqueue_single
  enqueue_single-Enqueues w ev one event good accounts = record {
    tries = refl;
    ev = ev;
    one = one;
    event = event;
    good = good;
    enq = subst (λ xs. n ≤ length xs) event (d.enqueue_burst-le flag w.device w.events);
    accounts = λ mbuf. omega (
      arith,
      accounts mbuf,
      taken_or_kept mbuf n w.events,
      copies-append mbuf w.taken (event_mbufs (take n w.events)),
    );
  }
    where
      n : ℕ
      n = (d.enqueue_burst flag w.device w.events).0

  process_single-Goes :
      (events : List RteEvent) (device : d.State) (w : Single)
      → AtHead w
      → let w' = process_single tables val_eth d flag tx_q_id events device w in
        AtHead w' ⊎ Enqueues w'
  unfolding process_single copies
  process_single-Goes [] device w h =
      inl (record { polls = h.polls; accounts = h.accounts; enq = h.enq; last = no_event refl })
  process_single-Goes (ev ∷ _) device w h = elim (Bool-cases (found.0 == bad_port)) [
    | inl bad ↦
        rw (process_single, bad)
          (inl (record {
            polls = h.polls;
            accounts = λ mbuf. omega (
              arith,
              h.accounts mbuf,
              copies-append mbuf w.dequeued (ev.mbuf ∷ []),
              copies-append mbuf w.freed (ev.mbuf ∷ []),
            );
            enq = h.enq;
            last = last_event ev refl refl (λ _. stored ∙ ((==_iff found.0 bad_port).0 bad));
          }))
    | inr good ↦
        rw (process_single, good)
          (inr (
            enqueue_single-Enqueues _ (set_tx flag tx_q_id ev) refl refl
              (λ e. absurd (==_ne found.0 bad_port good (sym stored ∙ sym kept ∙ e)))
              (λ mbuf.
                rw (mbuf-set_tx flag tx_q_id ev)
                  (omega (arith, h.accounts mbuf, copies-append mbuf w.dequeued (ev.mbuf ∷ []))))))
  ]
    where
      found : ℕ × EventMemory
      found = lpm_process_event_pkt tables val_eth ev.mbuf w.memory

      stored : found.1.port ev.mbuf ≡ found.0
      stored = port-lpm_process_event_pkt tables val_eth ev.mbuf w.memory

      kept :
          (txq_set flag ev.mbuf found.1).port (set_tx flag tx_q_id ev).mbuf ≡ found.1.port ev.mbuf
      kept = rw (port-txq_set flag ev.mbuf found.1, mbuf-set_tx flag tx_q_id ev) refl

  all_dropped :
      (w : Single) (ev : RteEvent)
      → w.events ≡ ev ∷ []
      → (w.nb_enq == 0) ≡ false
      → drop w.nb_enq w.events ≡ []
  all_dropped w ev event some_taken =
      drop_all w.nb_enq w.events
        (subst (λ xs. length xs ≤ w.nb_enq) (sym event) (ground (arith, some_taken)))

  -- Until the signal.
  abbrev Goes : Single → Type 0
  Goes w = AtHead w ⊎ Enqueues w

  step-Goes :
      (w : Single)
      → Goes w
      → (p : Phase) → w.phase ≡ p
      → Goes (single_step_in tables val_eth d flag tx_q_id p false w)
  unfolding single_step_in dequeue_single copies
  step-Goes w (inl h) polling e =
      process_single-Goes (d.dequeue_burst w.device 1).0 (d.dequeue_burst w.device 1).1 w h
  step-Goes w (inl h) enqueueing e = absurd (cc (h.polls))
  step-Goes w h finished e = h
  step-Goes w (inr h) polling e = absurd (cc (h.tries))
  step-Goes w (inr h) enqueueing e = elim (Bool-cases (w.nb_enq == 0)) [
    | inl none ↦ rw none (
        inr (
          enqueue_single-Enqueues w h.ev h.one h.event h.good (
            subst (λ n. Accounts w (event_mbufs (drop n w.events)) []) ((==_iff w.nb_enq 0).0 none)
              h.accounts)))
    | inr some_taken ↦ rw some_taken (
        inl (record {
          polls = refl;
          accounts =
              subst (λ xs. Accounts w (event_mbufs xs) []) (all_dropped w h.ev h.event some_taken)
                h.accounts;
          enq = h.enq;
          last = last_event h.ev h.one h.event (λ z. absurd (ground (arith, some_taken, z)));
        }))
  ]

  steps-Goes :
      (n : ℕ) (w : Single) → Goes w → Goes (single_steps tables val_eth d flag tx_q_id false n w)
  unfolding single_steps
  steps-Goes zero w h = h
  steps-Goes (suc n) w h = steps-Goes n _ (step-Goes w h w.phase refl)

  abbrev held_by : Single → List ℕ
  held_by w = held d EventMemory (lpm_process_events tables val_eth flag) flag tx_q_id 1 w

  AtHead-held : (w : Single) → AtHead w → held_by w ≡ freed_twice w
  unfolding freed_twice bad_ones
  AtHead-held w h = elim h.last [
    | no_event none ↦ rw none refl
    | last_event ev one event bad ↦ elim (Bool-cases (w.nb_enq == 0)) [
      | inl first ↦
          let zero_enq : w.nb_enq ≡ 0 = (==_iff w.nb_enq 0).0 first in
          rw (one, zero_enq, event, bad zero_enq) refl
      | inr some_taken ↦ rw (one, all_dropped w ev event some_taken, some_taken) refl
    ]
  ]

  Enqueues-freed_twice : (w : Single) → Enqueues w → freed_twice w ≡ []
  unfolding freed_twice bad_ones
  Enqueues-freed_twice w h = elim (Bool-cases (w.memory.port h.ev.mbuf == bad_port)) [
    | inl bad ↦ absurd (h.good ((==_iff (w.memory.port h.ev.mbuf) bad_port).0 bad))
    | inr good ↦ elim (Bool-cases (w.nb_enq == 0)) [
      | inl first ↦ rw (h.one, first, h.event, good) refl
      | inr some_taken ↦ rw (h.one, some_taken) refl
    ]
  ]

  record Ended (w : Single) : Type 0 where
    ended : w.phase ≡ finished
    accounts : Accounts w [] (freed_twice w)

  cleanup-Ended :
      (w : Single)
      → Accounts w (held_by w) (freed_twice w)
      → Ended (single_step_in tables val_eth d flag tx_q_id polling true w)
  unfolding single_step_in freed_twice copies
  cleanup-Ended w accounts =
      subst Ended
        (sym (
          l3fwd_event_worker_cleanup-lem d EventMemory (lpm_process_events tables val_eth flag) flag
            tx_q_id 1 w))
        (record {
          ended = refl;
          accounts = λ mbuf. omega (arith, accounts mbuf, copies-append mbuf w.freed (held_by w));
        })

  stays :
      (w : Single) (p : Phase)
      → p ≡ finished
      → single_step_in tables val_eth d flag tx_q_id p true w ≡ w
  unfolding single_step_in
  stays w finished e = refl
  stays w polling e = absurd (cc)
  stays w enqueueing e = absurd (cc)

  finished-Ended :
      (n : ℕ) (w : Single) → Ended w → Ended (single_steps tables val_eth d flag tx_q_id true n w)
  unfolding single_steps
  finished-Ended zero w h = h
  finished-Ended (suc n) w h =
      subst (λ v. Ended (single_steps tables val_eth d flag tx_q_id true n v))
        (sym (stays w w.phase h.ended)) (finished-Ended n w h)

  two_steps :
      (n : ℕ) (w : Single)
      → Goes w
      → (p : Phase) → w.phase ≡ p
      → Ended (
          single_steps tables val_eth d flag tx_q_id true
            (suc n)
            (single_step_in tables val_eth d flag tx_q_id p true w))
  unfolding single_steps single_step_in freed_twice copies
  two_steps n w (inl h) polling e = finished-Ended (suc n) _ (
      cleanup-Ended w
        (subst (Accounts w (held_by w)) (AtHead-held w h) (λ mbuf. omega (arith, h.accounts mbuf))))
  two_steps n w (inl h) enqueueing e = absurd (cc (h.polls))
  two_steps n w (inl h) finished e = absurd (cc (h.polls))
  two_steps n w (inr h) enqueueing e = finished-Ended n _ (
      cleanup-Ended (record w { phase = polling })
        (λ mbuf.
          subst (λ xs. rest mbuf ≡ copies mbuf w.dequeued + copies mbuf xs)
            (sym (Enqueues-freed_twice w h)) (rw h.one (h.accounts mbuf))))
    where
      rest : ℕ → ℕ
      rest mbuf = copies mbuf w.taken + copies mbuf w.freed + copies mbuf (held_by w)
  two_steps n w (inr h) polling e = absurd (cc (h.tries))
  two_steps n w (inr h) finished e = absurd (cc (h.tries))

  -- Let a worker start lpm_event_loop_single with no event taken, handed on or freed and `enq` and
  -- `deq` at 0. If the signal comes behind any number of steps and stays, then two steps later, or
  -- any number more, the worker has finished, and each packet has been handed on and freed,
  -- together, as often as it was received; but once more, so that it is freed twice, if its event
  -- was the last one received, no poll came back empty after it, so that `deq` is not 0, its
  -- destination is BAD_PORT and `enq` is still 0.
  pub lpm_event_loop_single-frees :
      (before behind : ℕ) (w : Single)
      → 2 ≤ behind
      → w.phase ≡ polling
      → w.nb_deq ≡ 0
      → w.nb_enq ≡ 0
      → w.taken ≡ []
      → w.freed ≡ []
      → w.dequeued ≡ []
      → let w' = lpm_event_loop_single tables val_eth d flag tx_q_id before behind w in
        (w'.phase ≡ finished)
        × ((mbuf : ℕ)
            → copies mbuf w'.taken + copies mbuf w'.freed
              ≡ copies mbuf w'.dequeued + copies mbuf (freed_twice w'))
  unfolding lpm_event_loop_single single_steps copies
  lpm_event_loop_single-frees before zero w two e0 e1 e2 e3 e4 e5 = absurd (omega arith)
  lpm_event_loop_single-frees before (suc zero) w two e0 e1 e2 e3 e4 e5 = absurd (omega arith)
  lpm_event_loop_single-frees before (suc (suc n)) w two e0 e1 e2 e3 e4 e5 =
      let w1 = single_steps tables val_eth d flag tx_q_id false before w in
      let s = two_steps n w1 (steps-Goes before w (inl start)) w1.phase refl in
      (s.ended, λ mbuf. omega (arith, s.accounts mbuf))
    where
      start : AtHead w
      start = record {
        polls = e0;
        accounts = λ mbuf. rw (e3, e4, e5) refl;
        enq = rw e2 (omega arith);
        last = no_event e1;
      }
