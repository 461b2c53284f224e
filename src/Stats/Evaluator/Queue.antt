-- ===== src/Stats/Evaluator/Queue.antt =====
-- The event queue of an `Evaluator`: `do` and `drain` of pkg/stats/evaluator.go.
-- Each section under the lock is one step of one goroutine, and so is each call of `emit`; the steps of
-- different goroutines come in any order. `changed` and `emitted` are ghosts: the events in the order of
-- the state changes, and those given to `emit`.
use casa_os_common.Common.{◌≡◌, refl, ◌∙◌, sym, ap, Bool, true, false, List, [], ◌∷◌, ◌++◌}
use mathlib.Core.List.{append-nil, append_assoc}

-- The drainer is between two batches, or has the rest of one; `idle` is no drainer.
pub data Drainer (E : Type 0) : Type 0 where
  idle : Drainer E
  locking : Drainer E
  emitting : List E → Drainer E

pub record Queue (E : Type 0) : Type 0 where
  pub pending : List E
  pub drainer : Drainer E
  pub changed : List E
  pub emitted : List E

abbrev pub empty_queue : {E : Type 0} → Queue E
empty_queue = record { pending = []; drainer = idle; changed = []; emitted = [] }

module _ {E : Type 0} where
  abbrev pub draining : Drainer E → Bool
  draining idle = false
  draining _ = true

  -- The batch that the drainer holds, which is no more in `pending`.
  abbrev pub in_hand : Drainer E → List E
  in_hand (emitting b) = b
  in_hand _ = []

  -- The drainer after `do` has queued `now`, on a queue that holds `q` then.
  abbrev pub elect : Drainer E → List E → Drainer E
  elect idle [] = idle
  elect idle (x ∷ q) = locking
  elect d q = d

  -- `do`: the state change and the queueing of its events are one section.
  unfoldable pub enqueue : List E → Queue E → Queue E
  enqueue now q =
      let p = q.pending ++ now in
      record q { pending = p; drainer = elect q.drainer p; changed = q.changed ++ now }

  pub data Step : Queue E → Queue E → Type 0 where
    call : (q : Queue E) (now : List E) → Step q (enqueue now q)
    take_batch :
        (x : E) (p c e : List E)
        → Step
            (record { pending = x ∷ p; drainer = locking; changed = c; emitted = e })
            (record { pending = []; drainer = emitting (x ∷ p); changed = c; emitted = e })
    leave :
        (c e : List E)
        → Step
            (record { pending = []; drainer = locking; changed = c; emitted = e })
            (record { pending = []; drainer = idle; changed = c; emitted = e })
    emit :
        (x : E) (b p c e : List E)
        → Step
            (record { pending = p; drainer = emitting (x ∷ b); changed = c; emitted = e })
            (record { pending = p; drainer = emitting b; changed = c; emitted = e ++ x ∷ [] })
    next_batch :
        (p c e : List E)
        → Step
            (record { pending = p; drainer = emitting []; changed = c; emitted = e })
            (record { pending = p; drainer = locking; changed = c; emitted = e })
    -- `emit` panics: the event counts as emitted, and the rest goes back to the front.
    panic :
        (x : E) (b p c e : List E)
        → Step
            (record { pending = p; drainer = emitting (x ∷ b); changed = c; emitted = e })
            (record { pending = b ++ p; drainer = idle; changed = c; emitted = e ++ x ∷ [] })

  pub data Run : Queue E → Queue E → Type 0 where
    stop : (q : Queue E) → Run q q
    go : (q r s : Queue E) → Step q r → Run r s → Run q s

  -- Every event is emitted, in hand or pending, in the order of the state changes.
  abbrev pub Ordered : Queue E → Type 0
  Ordered q = q.changed ≡ q.emitted ++ in_hand q.drainer ++ q.pending

  in_hand-elect : (d : Drainer E) (q : List E) → in_hand (elect d q) ≡ in_hand d
  in_hand-elect idle [] = refl
  in_hand-elect idle (x ∷ q) = refl
  in_hand-elect locking q = refl
  in_hand-elect (emitting b) q = refl

  pub Step-Ordered : (q r : Queue E) → Step q r → Ordered q → Ordered r
  unfolding enqueue
  Step-Ordered _ _ (call q now) o =
      ap (λ l. l ++ now) o
      ∙ append_assoc (q.emitted ++ in_hand q.drainer) q.pending now
      ∙ ap (λ b. q.emitted ++ b ++ (q.pending ++ now))
          (sym (in_hand-elect q.drainer (q.pending ++ now)))
  Step-Ordered _ _ (take_batch x p c e) o =
      o ∙ ap (λ l. l ++ (x ∷ p)) (append-nil e) ∙ sym (append-nil (e ++ (x ∷ p)))
  Step-Ordered _ _ (leave c e) o = o
  Step-Ordered _ _ (emit x b p c e) o = o ∙ ap (λ l. l ++ p) (sym (append_assoc e (x ∷ []) b))
  Step-Ordered _ _ (next_batch p c e) o = o
  Step-Ordered _ _ (panic x b p c e) o =
      o
      ∙ append_assoc e (x ∷ b) p
      ∙ sym (append_assoc e (x ∷ []) (b ++ p))
      ∙ ap (λ l. l ++ (b ++ p)) (sym (append-nil (e ++ x ∷ [])))

  Run-Ordered : (q r : Queue E) → Run q r → Ordered q → Ordered r
  Run-Ordered _ _ (stop q) o = o
  Run-Ordered _ _ (go q r s step path) o = Run-Ordered r s path (Step-Ordered q r step o)

  -- From a new queue, any steps of any number of goroutines lead to a queue where the events emitted,
  -- then those the drainer holds, then those pending are the events of all state changes, in their
  -- order: none is lost, doubled or overtaken, even if `emit` panics.
  pub Run-changed :
      (r : Queue E) → Run empty_queue r → r.changed ≡ r.emitted ++ in_hand r.drainer ++ r.pending
  Run-changed r path = Run-Ordered empty_queue r path refl
