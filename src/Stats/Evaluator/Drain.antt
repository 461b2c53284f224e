-- ===== src/Stats/Evaluator/Drain.antt =====
-- The drainer of an `Evaluator` (`drain` of pkg/stats/evaluator.go), left alone.
use casa_os_common.Common.{
  ℕ, suc, ◌+◌, ◌≡◌, refl, ◌⊎◌, inl, inr, ◌∙◌, sym, ap, Bool, true, false, List, [], ◌∷◌, ◌++◌,
  arith,
}
use mathlib.Core.Path.{subst}
use mathlib.Core.List.{append-nil, append_assoc}
use casa_os_common.Stats.Evaluator.Queue.{
  Drainer, idle, locking, emitting, Queue, empty_queue, draining, in_hand, Step, call, take_batch,
  leave, emit, next_batch, panic, Run, Ordered, Step-Ordered, Run-changed,
}

module _ {E : Type 0} where
  -- The steps of the drainer itself, where `emit` does not panic.
  abbrev pub is_own : {q r : Queue E} → Step q r → Bool
  is_own (call q now) = false
  is_own (take_batch x p c e) = true
  is_own (leave c e) = true
  is_own (emit x b p c e) = true
  is_own (next_batch p c e) = true
  is_own (panic x b p c e) = false

  -- A number of such steps, and no other.
  pub data Alone : ℕ → Queue E → Queue E → Type 0 where
    halt : (q : Queue E) → Alone 0 q q
    next :
        (n : ℕ) (q r s : Queue E) (step : Step q r)
        → is_own step ≡ true
        → Alone n r s
        → Alone (suc n) q s

  -- The steps that emit a batch, before others.
  abbrev emit_steps : List E → ℕ → ℕ
  emit_steps [] k = suc k
  emit_steps (x ∷ b) k = suc (emit_steps b k)

  -- The steps on a queue that holds events, from the lock on.
  abbrev lock_steps : List E → ℕ
  lock_steps [] = 1
  lock_steps (x ∷ p) = suc (emit_steps (x ∷ p) 1)

  -- The number of steps that the drainer has left.
  abbrev pub steps_from : Drainer E → List E → ℕ
  steps_from idle p = 0
  steps_from locking p = lock_steps p
  steps_from (emitting b) p = emit_steps b (lock_steps p)

  abbrev pub steps_left : Queue E → ℕ
  steps_left q = steps_from q.drainer q.pending

  abbrev pub drained : List E → List E → Queue E
  drained c e = record { pending = []; drainer = idle; changed = c; emitted = e }

  emit_batch :
      (b p c e : List E) (k : ℕ) (t : Queue E)
      → Alone k (record { pending = p; drainer = locking; changed = c; emitted = e ++ b }) t
      → Alone
          (emit_steps b k)
          (record { pending = p; drainer = emitting b; changed = c; emitted = e })
          t
  emit_batch [] p c e k t rest = next _ _ _ _ (next_batch p c e) refl (
      subst (λ l. Alone k (record { pending = p; drainer = locking; changed = c; emitted = l }) t)
        (append-nil e) rest)
  emit_batch (x ∷ b) p c e k t rest = next _ _ _ _ (emit x b p c e) refl (
      emit_batch b p c (e ++ x ∷ []) k t (
        subst (λ l. Alone k (record { pending = p; drainer = locking; changed = c; emitted = l }) t)
          (sym (append_assoc e (x ∷ []) b)) rest))

  finish_pending :
      (p c e : List E)
      → Alone
          (steps_from locking p)
          (record { pending = p; drainer = locking; changed = c; emitted = e })
          (drained c (e ++ p))
  finish_pending [] c e =
      next _ _ _ _ (leave c e) refl
        (subst (λ l. Alone 0 (drained c e) (drained c l)) (sym (append-nil e)) (halt _))
  finish_pending (x ∷ p) c e =
      next _ _ _ _ (take_batch x p c e) refl
        (emit_batch (x ∷ p) [] c e 1 _ (next _ _ _ _ (leave c (e ++ (x ∷ p))) refl (halt _)))

  finish_from :
      (p c e : List E) (d : Drainer E)
      → draining d ≡ true
      → Alone
          (steps_from d p)
          (record { pending = p; drainer = d; changed = c; emitted = e })
          (drained c (e ++ in_hand d ++ p))
  finish_from p c e idle h = ground arith
  finish_from p c e locking h =
      subst
        (λ l.
          Alone (lock_steps p) (record { pending = p; drainer = locking; changed = c; emitted = e })
            (drained c (l ++ p)))
        (sym (append-nil e)) (finish_pending p c e)
  finish_from p c e (emitting b) h =
      emit_batch b p c e (lock_steps p) _ (finish_pending p c (e ++ b))

  -- There is a drainer, or nothing is left for one.
  abbrev Settled : Queue E → Type 0
  Settled q = (draining q.drainer ≡ true) ⊎ (q ≡ drained q.changed q.emitted)

  Step-steps_left :
      (q r : Queue E) (step : Step q r)
      → is_own step ≡ true
      → (steps_left q ≡ suc (steps_left r)) × (q.changed ≡ r.changed) × Settled r
  Step-steps_left _ _ (call q now) h = ground (arith, h)
  Step-steps_left _ _ (take_batch x p c e) h = (refl, refl, inl refl)
  Step-steps_left _ _ (leave c e) h = (refl, refl, inr refl)
  Step-steps_left _ _ (emit x b p c e) h = (refl, refl, inl refl)
  Step-steps_left _ _ (next_batch p c e) h = (refl, refl, inl refl)
  Step-steps_left _ _ (panic x b p c e) h = ground (arith, h)

  finish-Settled :
      (q : Queue E) → Ordered q → Settled q → Alone (steps_left q) q (drained q.changed q.changed)
  finish-Settled q o (inl h) =
      subst (λ l. Alone (steps_left q) q (drained q.changed l)) (sym o)
        (finish_from q.pending q.changed q.emitted q.drainer h)
  finish-Settled q o (inr h) =
      let left : steps_left q ≡ 0 = ap (λ x. steps_left x) h in
      let all : q.changed ≡ q.emitted =
        (o
          ∙ ap (λ x. q.emitted ++ in_hand x.drainer ++ x.pending) h
          ∙ ap (λ l. l ++ []) (append-nil q.emitted)
          ∙ append-nil q.emitted) in
      subst (λ k. Alone k q (drained q.changed q.changed)) (sym left)
        (subst (λ t. Alone 0 q t) (h ∙ ap (λ l. drained q.changed l) (sym all)) (halt q))

  Alone-steps_left :
      (n : ℕ) (q s : Queue E)
      → Ordered q
      → Settled q
      → Alone n q s
      → (n + steps_left s ≡ steps_left q) × Alone (steps_left s) s (drained q.changed q.changed)
  Alone-steps_left _ _ _ o d (halt q) = (omega arith, finish-Settled q o d)
  Alone-steps_left _ _ _ o d (next n q r s step own path) =
      let (less, same, d') = Step-steps_left q r step own in
      let (sum, rest) = Alone-steps_left n r s (Step-Ordered q r step o) d' path in
      (omega (arith, less, sum), subst (λ c. Alone (steps_left s) s (drained c c)) (sym same) rest)

  -- From any queue that a new one leads to and that has a drainer, let the drainer go on alone, with an
  -- `emit` that does not panic: after any number of its steps it has exactly the rest of `steps_left` to
  -- do, and these lead to the queue with no drainer, with nothing pending and with all events emitted.
  -- So it always ends there, and never goes idle before.
  pub drain_of_empty :
      (n : ℕ) (r s : Queue E)
      → Run empty_queue r
      → draining r.drainer ≡ true
      → Alone n r s
      → (n + steps_left s ≡ steps_left r) × Alone (steps_left s) s (drained r.changed r.changed)
  drain_of_empty n r s path h alone = Alone-steps_left n r s (Run-changed r path) (inl h) alone
