-- ===== src/SafeQueue/Fifo.antt =====
-- A `SafeQueue` hands out its elements in the order of `push`, and a stopped one drains.
use dragonradio.Prelude.{
  ◌≡◌, ◌↔◌, refl, ◌∙◌, Bool, true, none, some, List, [], ◌∷◌, ◌++◌, ℕ, zero, suc, length,
}
use mathlib.Core.List.{append-nil, append_assoc}
use dragonradio.SafeQueue.{SafeQueue, push, pop, stop, ready, take_front}

module _ {ℓ} {A : Type ℓ} where
  -- `push` of each element, first to last.
  abbrev pub push_all : List A → SafeQueue A → SafeQueue A
  unfolding push
  push_all [] s = s
  push_all (x ∷ xs) s = push_all xs (push x s)

  -- `n` calls of `pop`: the values that they return.
  abbrev pub pop_all : ℕ → SafeQueue A → List A × SafeQueue A
  unfolding pop
  pop_all zero s = ([], s)
  pop_all (suc n) s =
      let (v, s') = pop s in
      let (vs, s'') = pop_all n s' in (elim v [ none ↦ vs | some x ↦ x ∷ vs ], s'')

  push_all_lem : (xs : List A) (s : SafeQueue A) → push_all xs s ≡ record s { q = s.q ++ xs }
  unfolding push
  push_all_lem [] s = rw (append-nil s.q) refl
  push_all_lem (x ∷ xs) s = push_all_lem xs (push x s) ∙ rw (append_assoc s.q (x ∷ []) xs) refl

  pop_all_lem :
      (b : Bool) (xs : List A)
      → pop_all (length xs) (record { done = b; q = xs }) ≡ (xs, record { done = b; q = [] })
  unfolding pop
  pop_all_lem b [] = refl
  pop_all_lem b (x ∷ xs) = rw (pop_all_lem b xs) refl

  -- After any pushes, popping as often as there are elements returns those that were there before
  -- and then those pushed, in order, and leaves the queue empty.
  pub pop_all-push_all :
      (xs : List A) (s : SafeQueue A)
      → pop_all (length (s.q ++ xs)) (push_all xs s) ≡ (s.q ++ xs, record s { q = [] })
  pop_all-push_all xs s = rw (push_all_lem xs s) (pop_all_lem s.done (s.q ++ xs))

  -- A stopped queue never makes a reader wait, and its `pop` fails only when nothing is left.
  pub pop-stop :
      (s : SafeQueue A) → (ready (stop s) ≡ true) × (((pop (stop s)).0 ≡ none) ↔ (s.q ≡ []))
  unfolding ready stop pop
  pop-stop s = (refl, pop_none s.q s.done)
    where
      pop_none :
          (xs : List A) (b : Bool)
          → ((take_front (record { done = true; q = s.q }) xs).0 ≡ none) ↔ (xs ≡ [])
      pop_none [] b = (λ _. refl, λ _. refl)
      pop_none (x ∷ xs) b = (λ e. absurd (cc e), λ e. absurd (cc e))
