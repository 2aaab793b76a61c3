-- ===== src/Buffer/Rinsert.antt =====
-- base.hpp: `rinsert` of one element.
pub mod Begin
use circular_buffer.Common.{
  ℕ, zero, suc, ◌+◌, Bool, true, false, not, ◌&&◌, Option, none, some, ◌==◌, if◌then◌else◌,
}
use circular_buffer.Common.Outcome.{
  Error, Outcome, ok, fault, Action, pure, ◌>>=◌, ◌>>◌, try_rethrow, at_locals,
}
use circular_buffer.Element.{Element}
use circular_buffer.Buffer.{
  Buffer, Iterator, Method, full, begin, end, increment, decrement, map_pointer,
  construct_or_replace, replace, move_item, increment_first, decrement_first, last_to_first, grow,
}
use circular_buffer.Buffer.Insert.{same_iterator}

module _ {ℓ} {A : Type ℓ} ⦃t : Element A⦄ where
  -- The loop of `rinsert_impl`: the elements before `p` move one place to the front. It answers with
  -- the flag `construct`. The fuel bounds the rounds.
  unfoldable pub rinsert_loop : ℕ → (p src dest : ℕ) → Bool → Action (Error × Bool) (Buffer A) Bool
  rinsert_loop zero p src dest fresh b = fault
  rinsert_loop (suc n) p src dest fresh b = elim (src == p) [
    | true ↦ ok fresh b
    | false ↦
        (do
          at_locals fresh (move_item fresh src dest)
          rinsert_loop n p (increment b src) (increment b dest) false)
          b
  ]

  -- The handler: what has been built before the first element becomes one.
  unfoldable pub rinsert_unwind : Bool → Method A (Unit {0})
  unfolding full decrement_first grow
  rinsert_unwind fresh b =
      (if not fresh && not (full b) then (do decrement_first; grow 1) else pure tt) b

  -- The guarded block, which assigns the item to the place before `p`.
  unfoldable pub rinsert_block :
      ℕ → (p first : ℕ) → Bool → A → Action (Error × Bool) (Buffer A) (Unit {0})
  rinsert_block n p first fresh item b =
      (do
        fresh' ← rinsert_loop n p first (decrement b first) fresh
        at_locals fresh' (replace (decrement b p) item))
        b

  -- The branch of `rinsert_impl` behind `begin()`
  unfoldable pub rinsert_behind : ℕ → A → Method A ℕ
  unfolding decrement_first
  rinsert_behind p item b =
      (do
        (λ b.
            try_rethrow (rinsert_block (suc b.cap) p b.first (not (full b)) item) rinsert_unwind b)
        decrement_first
        pure (decrement b p))
        b

  -- The branch of `rinsert_impl` at `begin()`
  unfoldable pub rinsert_begin : A → Method A ℕ
  unfolding increment_first decrement_first
  rinsert_begin item b =
      (do
        try_rethrow
            (do
              at_locals tt decrement_first
              at_locals tt (λ b. construct_or_replace (not (full b)) b.first item b))
            (λ (_ : Unit {0}). increment_first)
        (λ b. ok b.first b))
        b

  -- `rinsert_impl`, which every `rinsert` of one element calls.
  unfoldable pub rinsert : Iterator → A → Method A Iterator
  unfolding rinsert_begin rinsert_behind last_to_first grow
  rinsert pos item b =
      (if full b && same_iterator pos none then pure (end b) else do
        p ←
            if same_iterator pos (begin b)
            then rinsert_begin item
            else rinsert_behind (map_pointer b pos) item
        (λ b. (if full b then last_to_first else grow 1) b)
        pure (some p))
        b
