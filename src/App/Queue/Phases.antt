-- ===== src/App/Queue/Phases.antt =====
-- The phases of the calls in src/app/device-queue.ts, and when their chain is in order.
use bluetti_mqtt_node.Common.{
  ℕ, suc, ◌≤◌, ◌<◌, ◌≡◌, ap, ◌∙◌, sym, true, false, ◌==◌, ==_iff, Option, none, some, arith,
  Bool-cases, inl, inr, ◌⊎◌,
}
use bluetti_mqtt_node.App.Queue.{Phase, waiting, running, finished, Queue, update}

pub update_same {ℓ} :
    {A : Type ℓ} (n m : ℕ) (value : A) (f : ℕ → A) → m ≡ n → update n value f m ≡ value
update_same n m value f h = let (_, equal) = ==_iff m n in let e = equal h in rw e

pub update_other {ℓ} :
    {A : Type ℓ} (n m : ℕ) (value : A) (f : ℕ → A) → (m ≡ n → ⊥) → update n value f m ≡ f m
update_other n m value f differs = elim (Bool-cases (m == n)) [
  | inl e ↦ let (equal, _) = ==_iff m n in absurd (differs (equal e))
  | inr e ↦ rw e
]

true-false : true ≡ false → ⊥
true-false h = cc

-- Every call before the n-th has released its promise.
abbrev pub AllBefore : (ℕ → Phase) → ℕ → Type 0
AllBefore phase n = (k : ℕ) → k < n → phase k ≡ finished

-- What `previous` says of a call: it is the call before it, or all before it are done.
abbrev pub Follows : Option ℕ → (ℕ → Phase) → ℕ → Type 0
Follows none phase n = AllBefore phase n
Follows (some i) phase n = suc i ≡ n

-- The chain is in order: the map has the last call, or all are done; and a call has begun only
-- when all before it are done.
pub record Inv (q : Queue) : Type 0 where
  pub last : Follows q.queued q.phase q.calls
  pub chain : (n : ℕ) → n < q.calls → Follows (q.previous n) q.phase n
  pub order : (n : ℕ) → n < q.calls → (q.phase n ≡ waiting → ⊥) → AllBefore q.phase n

-- What a step may do to the phases: no finished call starts again.
abbrev pub Keeps : (ℕ → Phase) → (ℕ → Phase) → Type 0
Keeps f g = (k : ℕ) → f k ≡ finished → g k ≡ finished

pub Follows-Keeps :
    (p : Option ℕ) (f g : ℕ → Phase) (n : ℕ) → Keeps f g → Follows p f n → Follows p g n
Follows-Keeps none f g n keeps h = λ k lt. keeps k (h k lt)
Follows-Keeps (some i) f g n keeps h = h

pub lt_of_unequal : (k n : ℕ) → k < suc n → (k ≡ n → ⊥) → k < n
lt_of_unequal k n lt differs = elim (Bool-cases (k == n)) [
  | inl e ↦ let (equal, _) = ==_iff k n in absurd (differs (equal e))
  | inr e ↦ ground arith
]

pub eq_or_not : (k n : ℕ) → (k ≡ n) ⊎ (k ≡ n → ⊥)
eq_or_not k n = elim (Bool-cases (k == n)) [
  | inl e ↦ let (equal, _) = ==_iff k n in inl (equal e)
  | inr e ↦ inr (λ h. let (_, equal) = ==_iff k n in true-false (sym (equal h) ∙ e))
]

pub lt_irreflexive : (k n m : ℕ) → k < n → n ≤ m → k ≡ m → ⊥
lt_irreflexive k n m lt le e = omega arith

pub waiting-finished : waiting ≡ finished → ⊥
waiting-finished h = cc

pub running-waiting : running ≡ waiting → ⊥
running-waiting h = cc

pub finished-waiting : finished ≡ waiting → ⊥
finished-waiting h = cc

running-finished : running ≡ finished → ⊥
running-finished h = cc

-- All before a call that has begun, and the call itself once it is done.
pub AllBefore-suc : (f : ℕ → Phase) (n : ℕ) → AllBefore f n → f n ≡ finished → AllBefore f (suc n)
AllBefore-suc f n before done k lt = elim (eq_or_not k n) [
  | inl same ↦ ap f same ∙ done
  | inr differs ↦ before k (lt_of_unequal k n lt differs)
]
