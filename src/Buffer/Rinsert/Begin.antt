-- ===== src/Buffer/Rinsert/Begin.antt =====
-- base.hpp: `rinsert` at `begin()`, against `push_front`.
use circular_buffer.Common.{
  ◌+◌, ◌<◌, ◌≡◌, refl, inl, inr, true, false, none, some, List, ==_of_ne, ==_of_eq, ==-refl,
  Bool-cases, arith,
}
use circular_buffer.Common.Outcome.{element_error, ok, thrown, and_then}
use circular_buffer.Element.{Element}
use circular_buffer.Buffer.{
  Buffer, Iterator, begin, decrement, increment, full, construct_or_replace, empty,
}
use circular_buffer.Buffer.Memory.{
  ticked, written, construct-ok, construct-throws, replace-ok, replace-throws,
}
use circular_buffer.Buffer.Represents.{Represents}
use circular_buffer.Buffer.Push.{push_front}
use circular_buffer.Buffer.Push.Front.{front_lt, stepped, stepped_first, vacant_front, live_front}
use circular_buffer.Buffer.Insert.{same_iterator}
use circular_buffer.Buffer.Rinsert.{rinsert, rinsert_begin}
use native.Mathlib.Decide.{ℕ_discrete}

same_iterator_refl : (it : Iterator) → same_iterator it it ≡ true
same_iterator_refl none = refl
same_iterator_refl (some p) = ==-refl p

module _ {ℓ} {A : Type ℓ} ⦃t : Element A⦄ {b : Buffer A} {xs : List A} (item : A)
    (r : Represents b xs) (some_cells : 0 < b.cap) where
  begin_room_throws :
      b.size < b.cap
      → t.throws_at b.clock ≡ true
      → rinsert_begin item b
        ≡ thrown element_error (record b {
          first = increment (ticked (stepped item r some_cells)) (decrement b b.first);
          clock = b.clock + 1;
        })
  unfolding rinsert_begin full construct_or_replace
  begin_room_throws room storm =
      rw (==_of_ne b.cap b.size (omega arith))
        (rw (construct-throws (stepped item r some_cells) (decrement b b.first) item storm) refl)

  begin_room_ok :
      b.size < b.cap
      → t.throws_at b.clock ≡ false
      → rinsert_begin item b
        ≡ ok
            (decrement b b.first)
            (written (stepped item r some_cells) (decrement b b.first) (some item))
  unfolding rinsert_begin full construct_or_replace
  begin_room_ok room calm = rw (==_of_ne b.cap b.size (omega arith)) (
      rw
        (construct-ok (stepped item r some_cells) (decrement b b.first) item
          (omega (arith, stepped_first item r some_cells, front_lt r item some_cells))
          (vacant_front item r some_cells room) calm)
        refl)

  rinsert_room :
      b.size < b.cap
      → rinsert (begin b) item b ≡ and_then (push_front item b) (λ _ b'. ok (some b'.first) b')
  unfolding rinsert push_front full
  rinsert_room room =
      let first_in : decrement b b.first < b.cap =
        omega (arith, stepped_first item r some_cells, front_lt r item some_cells) in
      rw (==_of_ne b.cap b.size (omega arith), same_iterator_refl (begin b))
        (elim (Bool-cases (t.throws_at b.clock)) [
          | inl storm ↦
              rw
                (
                  begin_room_throws room storm,
                  construct-throws (stepped item r some_cells) (decrement b b.first) item storm,
                )
                refl
          | inr calm ↦
              rw
                (
                  begin_room_ok room calm,
                  construct-ok (stepped item r some_cells) (decrement b b.first) item first_in
                      (vacant_front item r some_cells room) calm,
                )
                (rw (==_of_ne b.cap b.size (omega arith)) refl)
        ])

  begin_full_throws :
      (w : A)
      → b.cell (decrement b b.first) ≡ some w
      → b.size ≡ b.cap
      → t.throws_at b.clock ≡ true
      → rinsert_begin item b
        ≡ thrown element_error (
            let c =
              written (stepped item r some_cells) (decrement b b.first) (some (t.torn w item)) in
            record c { first = increment c (decrement b b.first) })
  unfolding rinsert_begin full construct_or_replace
  begin_full_throws w held none_free storm =
      rw (==_of_eq b.cap b.size (omega arith)) (
        rw (replace-throws (stepped item r some_cells) (decrement b b.first) item w held storm)
          refl)

  begin_full_ok :
      b.size ≡ b.cap
      → t.throws_at b.clock ≡ false
      → rinsert_begin item b
        ≡ ok
            (decrement b b.first)
            (written (stepped item r some_cells) (decrement b b.first) (some item))
  unfolding rinsert_begin full construct_or_replace
  begin_full_ok none_free calm =
      let (w, held) = live_front item r some_cells none_free in
      rw (==_of_eq b.cap b.size (omega arith))
        (rw (replace-ok (stepped item r some_cells) (decrement b b.first) item w held calm) refl)

  rinsert_full :
      b.size ≡ b.cap
      → rinsert (begin b) item b ≡ and_then (push_front item b) (λ _ b'. ok (some b'.first) b')
  unfolding rinsert push_front full empty begin
  rinsert_full none_free =
      let (w, held) = live_front item r some_cells none_free in
      rw (==_of_eq b.cap b.size (omega arith), ==_of_ne b.size 0 (omega arith), ==-refl b.first)
        (elim (Bool-cases (t.throws_at b.clock)) [
          | inl storm ↦
              rw
                (
                  begin_full_throws w held none_free storm,
                  replace-throws (stepped item r some_cells) (decrement b b.first) item w held
                      storm,
                )
                refl
          | inr calm ↦
              rw
                (
                  begin_full_ok none_free calm,
                  replace-ok (stepped item r some_cells) (decrement b b.first) item w held calm,
                )
                (rw (==_of_eq b.cap b.size (omega arith)) refl)
        ])

  -- In a buffer that represents a list and has at least one cell, rinsert at begin() does what
  -- push_front does, exceptions and their unwinding included, and answers with an iterator to the
  -- first element of the result.
  pub rinsert-push_front :
      rinsert (begin b) item b ≡ and_then (push_front item b) (λ _ b'. ok (some b'.first) b')
  rinsert-push_front = elim (ℕ_discrete b.size b.cap) [
    | yes e ↦ rinsert_full e
    | no ne ↦ rinsert_room (omega (arith, r.size_le))
  ]
