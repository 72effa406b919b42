-- ===== src/L3fwd/Event/Laws.antt =====
-- l3fwd/l3fwd_lpm.c, l3fwd/l3fwd_fib.c, l3fwd/l3fwd_event.c: a worker of the event mode loses no packet.
use dpdk_practice.Base.{
  ℕ, zero, suc, ◌+◌, ◌≤◌, true, false, List, [], ◌∷◌, ◌++◌, length, map, take, drop, ltb, ◌==◌, ◌≡◌,
  ◌≢◌, refl, sym, ap, subst, ◌∙◌, arith, inl, inr, Bool-cases, append-nil, append_assoc,
  take-append-drop, length-map, if◌then◌else◌,
}
use dpdk_practice.L3fwd.Event.{
  RteEvent, TxFlag, tx_enq, tx_direct, EventDevice, EventMemory, event_mbufs, set_tx, txq_set,
  Phase, polling, enqueueing, finished, Worker, enqueue_more, l3fwd_event_worker_cleanup,
  start_burst, dequeue, step_in, step, steps, event_loop,
}

event_mbufs-append :
    (xs ys : List RteEvent) → event_mbufs (xs ++ ys) ≡ event_mbufs xs ++ event_mbufs ys
event_mbufs-append [] ys = refl
event_mbufs-append (x ∷ xs) ys = ap (◌∷◌ x.mbuf) (event_mbufs-append xs ys)

event_mbufs-set_tx :
    (flag : TxFlag) (tx_q_id : ℕ) (xs : List RteEvent)
    → event_mbufs (map (set_tx flag tx_q_id) xs) ≡ event_mbufs xs
unfolding set_tx
event_mbufs-set_tx flag tx_q_id [] = refl
event_mbufs-set_tx tx_enq tx_q_id (x ∷ xs) = ap (◌∷◌ x.mbuf) (event_mbufs-set_tx tx_enq tx_q_id xs)
event_mbufs-set_tx tx_direct tx_q_id (x ∷ xs) =
    ap (◌∷◌ x.mbuf) (event_mbufs-set_tx tx_direct tx_q_id xs)

drop-drop : (a b : ℕ) (xs : List RteEvent) → drop b (drop a xs) ≡ drop (a + b) xs
drop-drop zero b xs = ap (λ n. drop n xs) {x = b} {y = zero + b} (omega arith)
drop-drop (suc a) zero [] =
    ap (λ n. drop n []) {x = suc (a + zero)} {y = suc a + zero} (omega arith)
drop-drop (suc a) (suc b) [] =
    ap (λ n. drop n []) {x = suc (a + suc b)} {y = suc a + suc b} (omega arith)
drop-drop (suc a) b (x ∷ xs) =
    drop-drop a b xs ∙ ap (λ n. drop n (x ∷ xs)) {x = suc (a + b)} {y = suc a + b} (omega arith)

pub drop_all : (n : ℕ) (xs : List RteEvent) → length xs ≤ n → drop n xs ≡ []
drop_all zero [] le = refl
drop_all (suc n) [] le = refl
drop_all zero (x ∷ xs) le = absurd (omega arith)
drop_all (suc n) (x ∷ xs) le = drop_all n xs (omega arith)

pub take_then_drop :
    (n : ℕ) (xs : List RteEvent)
    → event_mbufs (take n xs) ++ event_mbufs (drop n xs) ≡ event_mbufs xs
take_then_drop n xs =
    sym (event_mbufs-append (take n xs) (drop n xs)) ∙ ap event_mbufs (take-append-drop n xs)

pub port-txq_set :
    (flag : TxFlag) (mbuf : ℕ) (m : EventMemory) → (txq_set flag mbuf m).port ≡ m.port
unfolding txq_set
port-txq_set tx_enq mbuf m = refl
port-txq_set tx_direct mbuf m = refl

pub mbuf-set_tx :
    (flag : TxFlag) (tx_q_id : ℕ) (ev : RteEvent) → (set_tx flag tx_q_id ev).mbuf ≡ ev.mbuf
unfolding set_tx
mbuf-set_tx tx_enq tx_q_id ev = refl
mbuf-set_tx tx_direct tx_q_id ev = refl

module _ (d : EventDevice) (M : Type 0) (process : List RteEvent → M → M) (flag : TxFlag)
    (tx_q_id deq_len : ℕ) where
  -- The packets that the worker holds: those that are not enqueued.
  abbrev pub held : Worker d M process flag tx_q_id deq_len → List ℕ
  held w = if w.nb_deq == 0 then [] else event_mbufs (drop w.nb_enq w.events)

  -- The packets handed on, those freed and those in `rest` are those dequeued, in their order.
  abbrev pub Accounts : Worker d M process flag tx_q_id deq_len → List ℕ → Type 0
  Accounts w rest = w.taken ++ w.freed ++ rest ≡ w.dequeued

  -- Before the signal.
  record Working (w : Worker d M process flag tx_q_id deq_len) : Type 0 where
    accounts : Accounts w (held w)
    none_freed : w.freed ≡ []
    sized : (w.nb_deq == 0) ≡ false → w.nb_deq ≡ length w.events
    idle : w.phase ≡ polling → held w ≡ []
    busy : w.phase ≡ enqueueing → (w.nb_deq == 0) ≡ false
    running : w.phase ≢ finished

  no_freed : (xs f ys : List ℕ) → f ≡ [] → xs ++ f ++ ys ≡ xs ++ ys
  no_freed xs f ys e = ap (λ g. xs ++ g ++ ys) e ∙ ap (λ zs. zs ++ ys) (append-nil xs)

  enqueue_more-Working :
      (w : Worker d M process flag tx_q_id deq_len)
      → w.taken ++ event_mbufs (drop w.nb_enq w.events) ≡ w.dequeued
      → w.freed ≡ []
      → (w.nb_deq == 0) ≡ false
      → w.nb_deq ≡ length w.events
      → Working (enqueue_more d M process flag tx_q_id deq_len w)
  unfolding enqueue_more
  enqueue_more-Working w account none some_events sized =
      let rest = drop w.nb_enq w.events in
      let n = (d.enqueue_burst flag w.device rest).0 in
      record {
        accounts =
            no_freed (w.taken ++ event_mbufs (take n rest)) w.freed _ none
            ∙ rw some_events (
                ap (λ ys. w.taken ++ event_mbufs (take n rest) ++ event_mbufs ys)
                  (sym (drop-drop w.nb_enq n w.events))
                ∙ append_assoc w.taken (event_mbufs (take n rest)) (event_mbufs (drop n rest))
                ∙ ap (◌++◌ w.taken) (take_then_drop n rest)
                ∙ account);
        none_freed = none;
        sized = λ e. sized;
        idle = λ e. absurd (cc);
        busy = λ e. some_events;
        running = λ e. absurd (cc);
      }

  dequeue-Working :
      (w : Worker d M process flag tx_q_id deq_len)
      → Working w
      → w.phase ≡ polling
      → Working (dequeue d M process flag tx_q_id deq_len w)
  unfolding dequeue start_burst
  dequeue-Working w h at_head = elim (Bool-cases (length events == 0)) [
    | inl none ↦
        rw (dequeue, none)
          (record {
            accounts = ap (λ ys. w.taken ++ w.freed ++ ys) (sym (h.idle at_head)) ∙ h.accounts;
            none_freed = h.none_freed;
            sized = λ e. absurd (cc);
            idle = λ e. refl;
            busy = λ e. absurd (cc);
            running = h.running;
          })
    | inr some_events ↦
        rw (dequeue, some_events)
          (enqueue_more-Working _
            (ap (◌++◌ w.taken) (event_mbufs-set_tx flag tx_q_id events)
              ∙ ap (λ xs. xs ++ event_mbufs events) (all_taken))
            h.none_freed some_events (sym (length-map events (set_tx flag tx_q_id))))
  ]
    where
      events : List RteEvent
      events = (d.dequeue_burst w.device deq_len).0

      all_taken : w.taken ≡ w.dequeued
      all_taken =
          sym (
            no_freed w.taken w.freed (held w) h.none_freed
            ∙ ap (◌++◌ w.taken) (h.idle at_head)
            ∙ append-nil w.taken)
          ∙ h.accounts

  step-Working :
      (w : Worker d M process flag tx_q_id deq_len)
      → Working w
      → (p : Phase) → w.phase ≡ p
      → Working (step_in d M process flag tx_q_id deq_len p false w)
  unfolding step_in
  step-Working w h polling e = dequeue-Working w h e
  step-Working w h finished e = h
  step-Working w h enqueueing e = elim (Bool-cases (ltb w.nb_enq w.nb_deq)) [
    | inl more ↦ rw more (
        enqueue_more-Working w
          (sym (no_freed w.taken w.freed _ h.none_freed)
            ∙ ap (λ ys. w.taken ++ w.freed ++ ys) (sym all_held)
            ∙ h.accounts)
          h.none_freed (h.busy e) (h.sized (h.busy e)))
    | inr done ↦ rw done (record {
      accounts = h.accounts;
      none_freed = h.none_freed;
      sized = h.sized;
      idle = λ p.
          all_held
          ∙ ap event_mbufs (drop_all w.nb_enq w.events (ground (arith, done, h.sized (h.busy e))));
      busy = λ p. absurd (cc);
      running = λ p. absurd (cc);
    })
  ]
    where
      all_held : held w ≡ event_mbufs (drop w.nb_enq w.events)
      all_held = rw (h.busy e) refl

  steps-Working :
      (n : ℕ) (w : Worker d M process flag tx_q_id deq_len)
      → Working w
      → Working (steps d M process flag tx_q_id deq_len false n w)
  unfolding steps step
  steps-Working zero w h = h
  steps-Working (suc n) w h = steps-Working n _ (step-Working w h w.phase refl)

  pub l3fwd_event_worker_cleanup-lem :
      (w : Worker d M process flag tx_q_id deq_len)
      → let w' = l3fwd_event_worker_cleanup d M process flag tx_q_id deq_len w in
        w' ≡ record w { device = w'.device; freed = w.freed ++ held w; phase = finished }
  unfolding l3fwd_event_worker_cleanup
  l3fwd_event_worker_cleanup-lem w = elim (Bool-cases (w.nb_deq == 0)) [
    | inl none ↦
        rw (l3fwd_event_worker_cleanup, none)
          (ap (λ freed. record w { freed = freed; phase = finished }) (sym (append-nil w.freed)))
    | inr some_events ↦ rw (l3fwd_event_worker_cleanup, some_events) refl
  ]

  -- Behind the signal, or at the end.
  record Stopped (w : Worker d M process flag tx_q_id deq_len) : Type 0 where
    ended : w.phase ≡ finished
    accounts : w.taken ++ w.freed ≡ w.dequeued

  cleanup-Stopped :
      (w : Worker d M process flag tx_q_id deq_len)
      → Accounts w (held w)
      → Stopped (l3fwd_event_worker_cleanup d M process flag tx_q_id deq_len w)
  unfolding l3fwd_event_worker_cleanup
  cleanup-Stopped w accounts = elim (Bool-cases (w.nb_deq == 0)) [
    | inl none ↦
        rw (l3fwd_event_worker_cleanup, none)
          (record { ended = refl; accounts = sym (append-nil _) ∙ (rw none at accounts) })
    | inr some_events ↦
        rw (l3fwd_event_worker_cleanup, some_events)
          (record {
            ended = refl;
            accounts = sym (append_assoc w.taken w.freed _) ∙ (rw some_events at accounts);
          })
  ]

  stays :
      (w : Worker d M process flag tx_q_id deq_len) (p : Phase)
      → p ≡ finished
      → step_in d M process flag tx_q_id deq_len p true w ≡ w
  unfolding step_in
  stays w finished e = refl
  stays w polling e = absurd (cc)
  stays w enqueueing e = absurd (cc)

  signal-Stopped :
      (n : ℕ) (w : Worker d M process flag tx_q_id deq_len)
      → Stopped w
      → Stopped (steps d M process flag tx_q_id deq_len true n w)
  unfolding steps step
  signal-Stopped zero w h = h
  signal-Stopped (suc n) w h =
      subst (λ v. Stopped (steps d M process flag tx_q_id deq_len true n v))
        (sym (stays w w.phase h.ended)) (signal-Stopped n w h)

  two_steps :
      (n : ℕ) (w : Worker d M process flag tx_q_id deq_len)
      → Working w
      → (p : Phase) → w.phase ≡ p
      → Stopped (
          steps d M process flag tx_q_id deq_len true
            (suc n)
            (step_in d M process flag tx_q_id deq_len p true w))
  unfolding steps step step_in
  two_steps n w h polling e = signal-Stopped (suc n) _ (cleanup-Stopped w h.accounts)
  two_steps n w h enqueueing e = signal-Stopped n _ (cleanup-Stopped _ h.accounts)
  two_steps n w h finished e = absurd (h.running e)

  -- Let a worker of the event mode start at the head of its loop with no event in hand and every
  -- packet that it was given handed on. If the signal comes behind any number of steps and stays,
  -- then two steps later, or any number more, the worker has finished, however many events the
  -- device took at a time, and the packets handed on followed by those freed are all that it was
  -- given, in their order.
  pub event_loop-stops :
      (before behind : ℕ) (w : Worker d M process flag tx_q_id deq_len)
      → 2 ≤ behind
      → w.phase ≡ polling
      → w.nb_deq ≡ 0
      → w.taken ≡ w.dequeued
      → w.freed ≡ []
      → let w' = event_loop d M process flag tx_q_id deq_len before behind w in
        (w'.phase ≡ finished) × (w'.taken ++ w'.freed ≡ w'.dequeued)
  unfolding event_loop steps step
  event_loop-stops before zero w two at_head empty same none = absurd (omega arith)
  event_loop-stops before (suc zero) w two at_head empty same none = absurd (omega arith)
  event_loop-stops before (suc (suc behind)) w two at_head empty same none =
      let w1 = steps d M process flag tx_q_id deq_len false before w in
      let s = two_steps behind w1 (steps-Working before w start) w1.phase refl in
      (s.ended, s.accounts)
    where
      start : Working w
      start = record {
        accounts = no_freed w.taken w.freed _ none ∙ rw empty (append-nil w.taken ∙ same);
        none_freed = none;
        sized = λ e. absurd (ground (arith, empty));
        idle = λ p. rw empty refl;
        busy = λ p. absurd (cc);
        running = λ p. absurd (cc);
      }
