-- ===== src/Buffer/Push.antt =====
-- base.hpp: `push_back`, `push_front`, `pop_back` and `pop_front`.
pub mod Back
pub mod Front
pub mod Pop
pub mod Undo
use circular_buffer.Common.{ℕ, not, if◌then◌else◌}
use circular_buffer.Common.Outcome.{Outcome, pure, ◌>>=◌, ◌>>◌, try_rethrow, at_locals, ok}
use circular_buffer.Element.{Element}
use circular_buffer.Buffer.{
  Buffer, Method, empty, full, assert, construct, replace, destroy_item, increment_first,
  increment_last, decrement_first, decrement_last, first_to_last, last_to_first, grow, shrink,
}

module _ {ℓ} {A : Type ℓ} ⦃t : Element A⦄ where
  unfoldable pub push_back_impl : A → Method A (Unit {0})
  unfolding empty full increment_last first_to_last grow
  push_back_impl item b =
      (if full b
          then (if empty b then pure tt else do replace b.last item; increment_last; first_to_last)
          else do construct b.last item; increment_last; grow 1)
        b

  -- `push_back(param_value_type)` and `push_back(rvalue_type)`
  unfoldable pub push_back : A → Method A (Unit {0})
  unfolding push_back_impl
  push_back item = push_back_impl item

  -- The statement of the guarded block at `m_first`.
  unfoldable pub replace_first : A → Method A (Unit {0})
  replace_first item b = replace b.first item b

  unfoldable pub construct_first : A → Method A (Unit {0})
  construct_first item b = construct b.first item b

  unfoldable pub push_front_impl : A → Method A (Unit {0})
  unfolding empty full increment_first decrement_first last_to_first grow replace_first
      construct_first
  push_front_impl item b =
      try_rethrow
        (if full b
          then (if empty b then pure tt else do
            at_locals tt decrement_first
            at_locals tt (replace_first item)
            at_locals tt last_to_first)
          else do
            at_locals tt decrement_first
            at_locals tt (construct_first item)
            at_locals tt (grow 1))
        (λ (_ : Unit {0}). increment_first) b

  unfoldable pub push_front : A → Method A (Unit {0})
  unfolding push_front_impl
  push_front item = push_front_impl item

module _ {ℓ} {A : Type ℓ} where
  unfoldable pub pop_back : Method A (Unit {0})
  unfolding empty assert decrement_last destroy_item shrink
  pop_back b =
      (do assert (not (empty b)); decrement_last; (λ b'. destroy_item b'.last b'); shrink 1) b

  unfoldable pub pop_front : Method A (Unit {0})
  unfolding empty assert increment_first destroy_item shrink
  pop_front b = (do assert (not (empty b)); destroy_item b.first; increment_first; shrink 1) b
