-- ===== src/App/Queue/Chain.antt =====
-- Every step of src/app/device-queue.ts keeps the chain of promises in order.
use bluetti_mqtt_node.Common.{
  ℕ, suc, ◌≤◌, ◌<◌, ◌≡◌, refl, ap, ◌∙◌, sym, subst, true, false, ◌||◌, ◌==◌, ==_iff, Option, none,
  some, arith, Bool-cases, Option-cases, inl, inr,
}
use bluetti_mqtt_node.App.Queue.{
  Phase, waiting, running, finished, Queue, update, enqueue, begin, is_latest, release, sleep,
  Resolved, at_once, chained, Step, enqueues, begins, releases, resets, stops, sleeps, wakes, Reach,
  initial, step,
}
use bluetti_mqtt_node.App.Queue.Phases.{
  update_same, update_other, Follows, Keeps, Follows-Keeps, lt_of_unequal, eq_or_not,
  lt_irreflexive, waiting-finished, running-waiting, finished-waiting, AllBefore-suc, AllBefore,
  Inv,
}

Resolved-AllBefore :
    (q : Queue) (n : ℕ) (p : Option ℕ)
    → Inv q
    → n ≤ q.calls
    → Follows p q.phase n
    → Resolved q p
    → AllBefore q.phase n
Resolved-AllBefore q n _ inv le follows at_once = follows
Resolved-AllBefore q n _ inv le follows (chained i done rest) = subst (AllBefore q.phase) follows (
    AllBefore-suc q.phase i (inv.order i (omega arith) (λ w. finished-waiting (sym done ∙ w))) done)

enqueue-AllBefore :
    (q : Queue) (n : ℕ)
    → n ≤ q.calls
    → AllBefore q.phase n
    → AllBefore (update q.calls waiting q.phase) n
enqueue-AllBefore q n le before k lt =
    update_other q.calls k waiting q.phase (λ e. absurd (lt_irreflexive k n q.calls lt le e))
    ∙ before k lt

enqueue-Follows :
    (q : Queue) (p : Option ℕ) (n : ℕ)
    → n ≤ q.calls
    → Follows p q.phase n
    → Follows p (update q.calls waiting q.phase) n
enqueue-Follows q none n le before = enqueue-AllBefore q n le before
enqueue-Follows q (some i) n le h = h

enqueue-Inv : (q : Queue) → Inv q → Inv (enqueue q)
enqueue-Inv q inv = record {
  last = refl;
  chain = λ n n_lt. elim (eq_or_not n q.calls) [
    | inl same ↦
        subst (λ p. Follows p (update q.calls waiting q.phase) n)
          (sym (update_same q.calls n q.queued q.previous same))
          (enqueue-Follows q q.queued n (omega arith)
            (subst (Follows q.queued q.phase) (sym same) inv.last))
    | inr differs ↦
        let lt = lt_of_unequal n q.calls n_lt differs in
        subst (λ p. Follows p (update q.calls waiting q.phase) n)
          (sym (update_other q.calls n q.queued q.previous differs))
          (enqueue-Follows q (q.previous n) n (omega arith) (inv.chain n lt))
  ];
  order = λ n n_lt begun. elim (eq_or_not n q.calls) [
    | inl same ↦ absurd (begun (update_same q.calls n waiting q.phase same))
    | inr differs ↦
        let lt = lt_of_unequal n q.calls n_lt differs in
        enqueue-AllBefore q n (omega arith)
          (inv.order n lt (λ w. begun (update_other q.calls n waiting q.phase differs ∙ w)))
  ];
}

begin-Keeps : (call : ℕ) (f : ℕ → Phase) → f call ≡ waiting → Keeps f (update call running f)
begin-Keeps call f h k done =
    update_other call k running f (λ e. waiting-finished (sym h ∙ ap f (sym e) ∙ done)) ∙ done

release-Keeps : (call : ℕ) (f : ℕ → Phase) → Keeps f (update call finished f)
release-Keeps call f k done = elim (eq_or_not k call) [
  | inl same ↦ update_same call k finished f same
  | inr differs ↦ update_other call k finished f differs ∙ done
]

begin-Inv :
    (call : ℕ) (q : Queue)
    → call < q.calls
    → q.phase call ≡ waiting
    → Resolved q (q.previous call)
    → Inv q
    → Inv (begin call q)
begin-Inv call q lt h resolved inv =
    let keeps = begin-Keeps call q.phase h in
    let g = update call running q.phase in
    record {
      last = Follows-Keeps q.queued q.phase g q.calls keeps inv.last;
      chain = λ n n_lt. Follows-Keeps (q.previous n) q.phase g n keeps (inv.chain n n_lt);
      order = λ n n_lt begun k k_lt. keeps k (elim (eq_or_not n call) [
        | inl same ↦
            Resolved-AllBefore q call (q.previous call) inv (omega arith) (inv.chain call lt)
              resolved k (omega arith)
        | inr differs ↦
            inv.order n n_lt (λ w. begun (update_other call n running q.phase differs ∙ w)) k k_lt
      ]);
    }

-- The last call is done: so are all.
last-AllBefore :
    (call : ℕ) (q : Queue)
    → call < q.calls
    → q.phase call ≡ running
    → Inv q
    → is_latest call q.queued ≡ true
    → AllBefore (update call finished q.phase) q.calls
last-AllBefore call q lt h inv latest = elim (Option-cases q.queued) [
  | inl e ↦ let never : is_latest call q.queued ≡ false = rw e in absurd (cc)
  | inr (other, e) ↦
      let test : is_latest call q.queued ≡ (other == call) = rw e in
      let (equal, _) = ==_iff other call in
      let same : other ≡ call = equal (sym test ∙ latest) in
      let follows : Follows (some other) q.phase q.calls =
        subst (λ p. Follows p q.phase q.calls) e inv.last in
      let end : suc call ≡ q.calls = ap suc (sym same) ∙ follows in
      subst (AllBefore (update call finished q.phase)) end (
        AllBefore-suc (update call finished q.phase) call
          (λ k k_lt.
            release-Keeps call q.phase k
              (inv.order call lt (λ w. running-waiting (sym h ∙ w)) k k_lt))
          (update_same call call finished q.phase refl))
]

release-Inv :
    (call : ℕ) (q : Queue) → call < q.calls → q.phase call ≡ running → Inv q → Inv (release call q)
release-Inv call q lt h inv =
    let keeps = release-Keeps call q.phase in
    let g = update call finished q.phase in
    record {
      last = elim (Bool-cases (is_latest call q.queued)) [
        | inl latest ↦ rw latest (last-AllBefore call q lt h inv latest)
        | inr other ↦ rw other (Follows-Keeps q.queued q.phase g q.calls keeps inv.last)
      ];
      chain = λ n n_lt. Follows-Keeps (q.previous n) q.phase g n keeps (inv.chain n n_lt);
      order = λ n n_lt begun k k_lt. keeps k (elim (eq_or_not n call) [
        | inl same ↦
            inv.order n n_lt (λ w. running-waiting (sym h ∙ ap q.phase (sym same) ∙ w)) k k_lt
        | inr differs ↦
            inv.order n n_lt (λ w. begun (update_other call n finished q.phase differs ∙ w)) k k_lt
      ]);
    }

sleep-Inv : (waiter ms : ℕ) (q : Queue) → Inv q → Inv (sleep waiter ms q)
sleep-Inv waiter ms q inv = elim (Bool-cases (q.stop_requested || ms == 0)) [
  | inl e ↦ rw e inv
  | inr e ↦ rw e (record { last = inv.last; chain = inv.chain; order = inv.order })
]

Step-Inv : {q q' : Queue} → Step q q' → Inv q → Inv q'
Step-Inv {q = q} enqueues inv = enqueue-Inv q inv
Step-Inv {q = q} (begins call lt h resolved) inv = begin-Inv call q lt h resolved inv
Step-Inv {q = q} (releases call lt h) inv = release-Inv call q lt h inv
Step-Inv resets inv = record { last = inv.last; chain = inv.chain; order = inv.order }
Step-Inv stops inv = record { last = inv.last; chain = inv.chain; order = inv.order }
Step-Inv {q = q} (sleeps waiter ms) inv = sleep-Inv waiter ms q inv
Step-Inv (wakes waiter) inv = record { last = inv.last; chain = inv.chain; order = inv.order }

pub Reach-chain : {q : Queue} → Reach q → Inv q
Reach-chain initial = record {
  last = λ k lt. refl;
  chain = λ n n_lt. absurd (omega arith);
  order = λ n n_lt. absurd (omega arith);
}
Reach-chain (step reach s) = Step-Inv s (Reach-chain reach)
