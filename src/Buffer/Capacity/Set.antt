-- ===== src/Buffer/Capacity/Set.antt =====
-- base.hpp: `set_capacity` and `rset_capacity`.
use circular_buffer.Common.{
  ℕ, ◌-◌, ◌≤◌, ◌≡◌, refl, sym, ap, ◌∙◌, subst, min, List, ==_of_eq, ==_of_ne, drop, slice,
  slice-take, slice-drop, length-slice, arith,
}
use circular_buffer.Common.Outcome.{Ensures, returns, Ensures-mono, ◌>>=◌}
use circular_buffer.Element.{Element}
use circular_buffer.Spec.{keep_first, keep_last, keep_first_all, keep_last_all}
use circular_buffer.Buffer.{Buffer, Iterator, begin, end, capacity}
use circular_buffer.Buffer.Represents.{Represents, position, begin-position}
use circular_buffer.Buffer.Iterate.Counted.{advance-begin, retreat-end, end-position}
use circular_buffer.Buffer.Block.{uninitialized_move_if_noexcept, reset}
use circular_buffer.Buffer.Block.Copy.{Undone}
use circular_buffer.Buffer.Block.Walk.{uninitialized_move_if_noexcept-Ensures}
use circular_buffer.Buffer.Block.Replace.{Untouched, allocated, reallocate-Ensures, reset-Loaded}
use circular_buffer.Buffer.Capacity.{keep_first_items, keep_last_items, set_capacity, rset_capacity}
use native.Mathlib.Decide.{ℕ_discrete}

module _ {ℓ} {A : Type ℓ} ⦃t : Element A⦄ {b : Buffer A} {xs : List A} (r : Represents b xs) where
  -- The loop and the replacement of the storage, from the index `j` up to `m`.
  moved_and_reset :
      (j m n : ℕ) (first last : Iterator)
      → first ≡ position b j
      → last ≡ position b m
      → j ≤ m
      → m ≤ b.size
      → m - j ≤ n
      → Ensures
          (λ _ s'. Represents s'.own (slice j m xs) × (s'.own.cap ≡ n))
          (Undone (allocated n b) 0)
          ((do dest ← uninitialized_move_if_noexcept first last 0; reset dest n) (allocated n b))
  moved_and_reset j m n first last e e' h l fits =
      let moved =
        uninitialized_move_if_noexcept-Ensures j m 0 (allocated n b) xs r h l (λ p k. refl)
          (omega arith) in
      subst
        (λ it.
          Ensures (λ _ s'. Represents s'.own (slice j m xs) × (s'.own.cap ≡ n))
            (Undone (allocated n b) 0)
            ((do dest ← uninitialized_move_if_noexcept it last 0; reset dest n) (allocated n b)))
        (sym e)
        (subst
          (λ it.
            Ensures (λ _ s'. Represents s'.own (slice j m xs) × (s'.own.cap ≡ n))
              (Undone (allocated n b) 0)
              ((do dest ← uninitialized_move_if_noexcept (position b j) it 0; reset dest n)
                (allocated n b)))
          (sym e')
          (reset-Loaded moved (omega (arith, length-slice j m xs (omega (arith, r.length_eq))))))

  keep_first_items-Ensures :
      (n : ℕ)
      → Ensures
          (λ _ s'. Represents s'.own (keep_first n xs) × (s'.own.cap ≡ n))
          (Undone (allocated n b) 0)
          (keep_first_items n (allocated n b))
  unfolding keep_first_items begin
  keep_first_items-Ensures n =
      let k : min n b.size ≤ b.size = omega arith in
      let kept : slice 0 (min n b.size) xs ≡ keep_first n xs =
        slice-take n (min n b.size) xs (ap (min n) (sym r.length_eq)) in
      rw (advance-begin r (min n b.size) k) (
        Ensures-mono
          (moved_and_reset 0 (min n b.size) n (begin b) _ (begin-position r) refl (omega arith) k
            (omega arith))
          (λ _ s' q. (subst (Represents s'.own) kept q.0, q.1)) (λ e s' q. q))

  keep_last_items-Ensures :
      (n : ℕ)
      → Ensures
          (λ _ s'. Represents s'.own (keep_last n xs) × (s'.own.cap ≡ n))
          (Undone (allocated n b) 0)
          (keep_last_items n (allocated n b))
  unfolding keep_last_items end
  keep_last_items-Ensures n =
      let k : min n b.size ≤ b.size = omega arith in
      let kept : slice (b.size - min n b.size) b.size xs ≡ keep_last n xs =
        slice-drop (b.size - min n b.size) b.size xs (omega (arith, r.length_eq))
        ∙ ap (λ j. drop j xs) (omega (arith, r.length_eq)) in
      rw (retreat-end r (min n b.size) k) (
        Ensures-mono
          (moved_and_reset (b.size - min n b.size) b.size n _ (end b) refl (end-position r)
            (omega arith) (omega arith) (omega arith))
          (λ _ s' q. (subst (Represents s'.own) kept q.0, q.1)) (λ e s' q. q))

  -- In a buffer that represents the list xs, set_capacity returns or throws, whether the elements
  -- are copied or moved. If it returns, the capacity is the new one n and the buffer represents
  -- the first n elements of xs. If the allocator or an element throws, the buffer is as it was but
  -- for its clock, and the error is no out_of_range.
  pub set_capacity_refines :
      (n : ℕ)
      → Ensures
          (λ _ b'. Represents b' (keep_first n xs) × (b'.cap ≡ n))
          (Untouched b)
          (set_capacity n b)
  unfolding set_capacity capacity
  set_capacity_refines n = elim (ℕ_discrete n b.cap) [
    | yes e ↦ rw (==_of_eq n b.cap e) (
        returns (
          subst (Represents b) (sym (keep_first_all n xs (omega (arith, r.length_eq, r.size_le))))
              r,
          sym e,
        ))
    | no ne ↦
        rw (==_of_ne n b.cap ne)
          (reallocate-Ensures n (keep_first_items n) b (keep_first_items-Ensures n))
  ]

  -- In a buffer that represents the list xs, rset_capacity returns or throws. If it returns, the
  -- capacity is the new one n and the buffer represents the last n elements of xs; otherwise the
  -- buffer is as it was but for its clock.
  pub rset_capacity_refines :
      (n : ℕ)
      → Ensures
          (λ _ b'. Represents b' (keep_last n xs) × (b'.cap ≡ n))
          (Untouched b)
          (rset_capacity n b)
  unfolding rset_capacity capacity
  rset_capacity_refines n = elim (ℕ_discrete n b.cap) [
    | yes e ↦ rw (==_of_eq n b.cap e) (
        returns (
          subst (Represents b) (sym (keep_last_all n xs (omega (arith, r.length_eq, r.size_le)))) r,
          sym e,
        ))
    | no ne ↦
        rw (==_of_ne n b.cap ne)
          (reallocate-Ensures n (keep_last_items n) b (keep_last_items-Ensures n))
  ]
