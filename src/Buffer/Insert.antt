-- ===== src/Buffer/Insert.antt =====
-- base.hpp: `insert` of one element.
pub mod Loop
pub mod Room
pub mod Before
pub mod Full
pub mod Refine
use circular_buffer.Common.{
  ℕ, zero, suc, ◌+◌, Bool, true, false, not, ◌&&◌, Option, none, some, ◌==◌, if◌then◌else◌,
}
use circular_buffer.Common.Outcome.{
  Error, Outcome, ok, fault, Action, pure, ◌>>=◌, ◌>>◌, try_rethrow, at_locals,
}
use circular_buffer.Element.{Element}
use circular_buffer.Buffer.{
  Buffer, Iterator, Method, empty, full, begin, end, decrement, construct_or_replace, replace,
  move_item, increment_last, first_to_last, grow,
}

-- Equality of iterators, which is that of their pointers.
abbrev pub same_iterator : Iterator → Iterator → Bool
same_iterator none none = true
same_iterator (some p) (some q) = p == q
same_iterator _ _ = false

module _ {ℓ} {A : Type ℓ} ⦃t : Element A⦄ where
  -- `while (src != p) { decrement(src); construct_or_replace(construct, dest, *src); ... }`, which
  -- answers with the flag `construct`. The fuel bounds the rounds.
  unfoldable pub insert_loop : ℕ → (p src dest : ℕ) → Bool → Action (Error × Bool) (Buffer A) Bool
  insert_loop zero p src dest fresh b = fault
  insert_loop (suc n) p src dest fresh b = elim (src == p) [
    | true ↦ ok fresh b
    | false ↦
        (do
          at_locals fresh (move_item fresh (decrement b src) dest)
          insert_loop n p (decrement b src) (decrement b dest) false)
          b
  ]

  -- The handler: what has been built behind the last element becomes one.
  unfoldable pub insert_unwind : Bool → Method A (Unit {0})
  unfolding full increment_last grow
  insert_unwind fresh b =
      (if not fresh && not (full b) then (do increment_last; grow 1) else pure tt) b

  -- The guarded block: it makes room at `p`, and assigns the item to it.
  unfoldable pub insert_block :
      ℕ → (p last : ℕ) → Bool → A → Action (Error × Bool) (Buffer A) (Unit {0})
  insert_block n p last fresh item = do
    fresh' ← insert_loop n p last last fresh
    at_locals fresh' (replace p item)

  unfoldable pub insert_before : ℕ → A → Method A (Unit {0})
  insert_before p item b =
      try_rethrow (insert_block (suc b.cap) p b.last (not (full b)) item) insert_unwind b

  -- The end of `insert_item`, common to its two branches.
  unfoldable pub insert_finish : ℕ → Method A Iterator
  unfolding increment_last first_to_last grow
  insert_finish p = do
    increment_last
    (λ b. (if full b then first_to_last else grow 1) b)
    pure (some p)

  unfoldable pub insert_item : Iterator → A → Method A Iterator
  unfolding insert_before insert_finish
  insert_item none item b =
      (do construct_or_replace (not (full b)) b.last item; insert_finish b.last) b
  insert_item (some p) item b = (do insert_before p item; insert_finish p) b

  -- `insert_impl`, which every `insert` of one element calls.
  unfoldable pub insert : Iterator → A → Method A Iterator
  unfolding insert_item begin full
  insert pos item b =
      (if full b && same_iterator pos (begin b) then pure (begin b) else insert_item pos item) b
