-- ===== src/Tests/Registries.antt =====
-- debug.hpp: the theorems on the registry of iterators, at a concrete store.
use circular_buffer.Common.{◌≡◌, refl, ap, not, none, some, [], ◌∷◌, arith}
use circular_buffer.Debug.{
  Store, set_at, same, unregister_iterator, assign, invalidate_iterators,
  invalidate_iterators_except,
}
use circular_buffer.Debug.Registry.{Registers, Unregistered, unregister_refines, assign_refines}
use circular_buffer.Debug.Invalid.{Invalidated, invalidate_refines}
use native.Mathlib.Decide.{ℕ_discrete}

-- The registry 0 with the iterators 1 and 2, which point to the cells 4 and 5, and the registry 9
-- with the iterator 3.
abbrev store : Store
store = record {
  registry = set_at (set_at (set_at (λ i. none) 1 (some 0)) 2 (some 0)) 3 (some 9);
  next = set_at (λ i. none) 1 (some 2);
  head = set_at (set_at (λ g. none) 0 (some 1)) 9 (some 3);
  pointee = set_at (set_at (λ i. none) 1 (some 4)) 2 (some 5);
}

zero-Registers : Registers store 0 (1 ∷ 2 ∷ [])
zero-Registers = record {
  chain = (refl, (refl, refl));
  distinct = (((λ e. omega arith), tt), (tt, tt));
  valid = λ i h. elim (ℕ_discrete i 1) [
    | yes e ↦ ap store.registry e
    | no n ↦ elim (ℕ_discrete i 2) [ yes e ↦ ap store.registry e | no m ↦ absurd (h (n, (m, tt))) ]
  ];
}

nine-Registers : Registers store 9 (3 ∷ [])
nine-Registers = record {
  chain = (refl, refl);
  distinct = (tt, tt);
  valid = λ i h. elim (ℕ_discrete i 3) [ yes e ↦ ap store.registry e | no n ↦ absurd (h (n, tt)) ];
}

unregister_refines_example :
    (s' : Store) × (unregister_iterator 2 0 2 store ≡ some s') × Unregistered zero-Registers 2 s'
unregister_refines_example = unregister_refines zero-Registers 2 2 (λ f. f.1.0 refl) (omega arith)

assign_refines_example :
    (s' : Store) × (assign 2 2 3 store ≡ some s')
    × Registers s' 0 (1 ∷ [])
    × Registers s' 9 (2 ∷ 3 ∷ [])
assign_refines_example =
    assign_refines 2 2 3 zero-Registers nine-Registers (λ e. omega arith) (λ f. f.1.0 refl)
      (λ f. f.0 refl) (omega arith)

invalidate_refines_example :
    Invalidated store 0 (1 ∷ 2 ∷ []) (same (some 4)) (invalidate_iterators 2 0 (some 4) store)
    × Invalidated store 0
        (1 ∷ 2 ∷ [])
        (λ q. not (same (some 4) q))
        (invalidate_iterators_except 2 0 (some 4) store)
invalidate_refines_example = invalidate_refines zero-Registers 2 (omega arith) (some 4)
