-- ===== src/App/Queue/Laws.antt =====
-- The order of the work of one address, and its sleepers, in src/app/device-queue.ts.
use bluetti_mqtt_node.Common.{
  ℕ, zero, suc, ◌<◌, ◌≡◌, refl, ap, sym, subst, true, false, [], ◌==◌, arith, Bool-cases,
  Option-cases, inl, inr,
}
use bluetti_mqtt_node.App.Queue.{
  waiting, finished, Queue, begin, sleep, delete, Resolved, at_once, chained, Step, enqueues,
  begins, releases, resets, stops, sleeps, wakes, Reach, initial, step,
}
use bluetti_mqtt_node.App.Queue.Phases.{Follows, AllBefore, Inv}
use bluetti_mqtt_node.App.Queue.Chain.{Reach-chain}

-- First come, first served: when the work of a call has begun, that of every call before it has
-- ended; so no two pieces of work of one address run at a time.
pub work_in_order :
    {q : Queue} (i j : ℕ)
    → Reach q
    → i < j
    → j < q.calls
    → (q.phase j ≡ waiting → ⊥)
    → q.phase i ≡ finished
work_in_order i j reach lt j_lt begun = (Reach-chain reach).order j j_lt begun i lt

begin_lem :
    (q : Queue) (n fuel : ℕ)
    → Inv q
    → n < fuel
    → n < q.calls
    → AllBefore q.phase n
    → Resolved q (q.previous n)
begin_lem q n zero inv enough lt before = absurd (omega arith)
begin_lem q n (suc fuel) inv enough lt before = elim (Option-cases (q.previous n)) [
  | inl e ↦ subst (Resolved q) (sym e) at_once
  | inr (i, e) ↦
      let follows : suc i ≡ n = subst (λ p. Follows p q.phase n) e (inv.chain n lt) in
      subst (Resolved q) (sym e) (
        chained i (before i (omega arith))
          (begin_lem q i fuel inv (omega arith) (omega arith) (λ k k_lt. before k (omega arith))))
]

-- A call waits for nothing but the work before it: once that has ended, its own may begin.
pub work_begins :
    {q : Queue} (n : ℕ)
    → Reach q
    → n < q.calls
    → q.phase n ≡ waiting
    → AllBefore q.phase n
    → Step q (begin n q)
work_begins {q = q} n reach lt h before =
    begins n lt h (begin_lem q n (suc n) (Reach-chain reach) (omega arith) lt before)

sleep-stopped :
    (waiter ms : ℕ) (q : Queue)
    → (q.stop_requested ≡ true → q.sleep_waiters ≡ [])
    → (sleep waiter ms q).stop_requested ≡ true
    → (sleep waiter ms q).sleep_waiters ≡ []
sleep-stopped waiter ms q quiet h = elim (Bool-cases (q.stop_requested)) [
  | inl e ↦ rw e (quiet e)
  | inr e ↦ elim (Bool-cases (ms == 0)) [
    | inl z ↦ let same : (sleep waiter ms q).stop_requested ≡ false = rw (e, z) in absurd (cc)
    | inr z ↦ let same : (sleep waiter ms q).stop_requested ≡ false = rw (e, z) in absurd (cc)
  ]
]

-- While a stop is requested, nobody sleeps: it has woken those who did, and no sleep begins.
pub stopped_sleeps_nobody : {q : Queue} → Reach q → q.stop_requested ≡ true → q.sleep_waiters ≡ []
stopped_sleeps_nobody initial h = refl
stopped_sleeps_nobody (step reach enqueues) h = stopped_sleeps_nobody reach h
stopped_sleeps_nobody (step reach (begins call lt p r)) h = stopped_sleeps_nobody reach h
stopped_sleeps_nobody (step reach (releases call lt p)) h = stopped_sleeps_nobody reach h
stopped_sleeps_nobody (step reach resets) h = cc
stopped_sleeps_nobody (step reach stops) h = refl
stopped_sleeps_nobody (step {q = q} reach (sleeps waiter ms)) h =
    sleep-stopped waiter ms q (stopped_sleeps_nobody reach) h
stopped_sleeps_nobody (step reach (wakes waiter)) h =
    ap (delete waiter) (stopped_sleeps_nobody reach h)
