-- ===== src/Buffer/Push/Undo.antt =====
-- base.hpp: a pop undoes a push at the same end.
use circular_buffer.Common.{
  ◌+◌, ◌-◌, ◌<◌, ◌≡◌, ap, ◌∙◌, subst, List, [], ◌∷◌, ◌++◌, length, take, length-append, take-append,
  arith,
}
use circular_buffer.Common.Outcome.{Ensures, returns, Ensures-and_then, ◌>>◌}
use circular_buffer.Element.{Element}
use circular_buffer.Spec.{keep_first_all, keep_last_all}
use circular_buffer.Buffer.{Buffer}
use circular_buffer.Buffer.Represents.{spoilt-room, Represents, Becomes, Unwinds}
use circular_buffer.Buffer.Push.{push_back, push_front, pop_back, pop_front}
use circular_buffer.Buffer.Push.Back.{push_back_refines}
use circular_buffer.Buffer.Push.Front.{push_front_refines}
use circular_buffer.Buffer.Push.Pop.{pop_back_refines, pop_front_refines}

module _ {ℓ} {A : Type ℓ} ⦃t : Element A⦄ {b : Buffer A} {xs : List A} (r : Represents b xs)
    (item : A) (room : b.size < b.cap) where
  -- In a buffer that represents the list xs and is not full, a push_back followed by a pop_back
  -- returns or throws. If it returns, the buffer represents xs again, in the same capacity; if the
  -- element throws, it represents xs as well.
  pub push_back-pop_back : Ensures (Becomes b xs) (Unwinds b xs) ((do push_back item; pop_back) b)
  push_back-pop_back =
      let len : length (xs ++ item ∷ []) ≡ b.size + 1 =
        omega (arith, length-append xs (item ∷ []), r.length_eq) in
      let all = keep_last_all b.cap (xs ++ item ∷ []) (omega (arith, len)) in
      Ensures-and_then (push_back_refines item r)
        (λ _ b' (r', cap_eq).
          let s : Represents b' (xs ++ item ∷ []) = subst (Represents b') all r' in
          let (b'', ran, r'', cap_eq') = pop_back_refines s (omega (arith, s.length_eq, len)) in
          let count : b'.size - 1 ≡ length xs = omega (arith, s.length_eq, len, r.length_eq) in
          rw ran (
            returns (
              subst (Represents b'')
                  (ap (λ n. take n (xs ++ item ∷ [])) count ∙ take-append xs (item ∷ [])) r'',
              cap_eq' ∙ cap_eq,
            )))
        (λ e b' (q, c, h). (subst (Represents b') (spoilt-room b 0 item xs room) q, c, h))

  -- `pop_front` undoes `push_front` on a buffer that is not full.
  pub push_front-pop_front :
      Ensures (Becomes b xs) (Unwinds b xs) ((do push_front item; pop_front) b)
  push_front-pop_front =
      let all = keep_first_all b.cap (item ∷ xs) (omega (arith, r.length_eq)) in
      Ensures-and_then (push_front_refines item r)
        (λ _ b' (r', cap_eq).
          let s : Represents b' (item ∷ xs) = subst (Represents b') all r' in
          let (b'', ran, r'', cap_eq') = pop_front_refines s (omega (arith, s.length_eq)) in
          rw ran (returns (r'', cap_eq' ∙ cap_eq)))
        (λ e b' (q, c, h).
          (subst (Represents b') (spoilt-room b (b.size - 1) item xs room) q, c, h))
