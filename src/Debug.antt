-- ===== src/Debug.antt =====
-- include/boost/circular_buffer/debug.hpp: the registry of the valid iterators of a container, a
-- chain through the iterators themselves.
pub mod Chain
pub mod Registry
pub mod Invalid
use circular_buffer.Common.{
  ℕ, zero, suc, Bool, true, false, Option, none, some, ◌==◌, if◌then◌else◌, not,
}

-- A step that follows a null pointer, or outruns its fuel, has no result.
infixl 5 ◌>>=◌
abbrev ◌>>=◌ {ℓ κ} : {A : Type ℓ} {B : Type κ} → Option A → (A → Option B) → Option B
some a >>= f = f a
none >>= f = none

-- The iterators and the registries by their addresses. `registry` is `m_registry` and `next` is
-- `m_next` of an iterator, `pointee` its `m_it`, and `head` is `m_iterators` of a registry.
pub record Store : Type 0 where
  pub registry : ℕ → Option ℕ
  pub next : ℕ → Option ℕ
  pub head : ℕ → Option ℕ
  pub pointee : ℕ → Option ℕ

abbrev pub set_at {ℓ} : {A : Type ℓ} → (ℕ → A) → ℕ → A → ℕ → A
set_at f i v j = if i == j then v else f j

-- Equality of pointers that may be null
abbrev pub same : Option ℕ → Option ℕ → Bool
same none none = true
same (some i) (some j) = i == j
same _ _ = false

unfoldable pub set_next : ℕ → Option ℕ → Store → Store
set_next it p s = record s { next = set_at s.next it p }

unfoldable pub invalidate : ℕ → Store → Store
invalidate it s = record s { registry = set_at s.registry it none }

unfoldable pub is_valid : Store → (it g : ℕ) → Bool
is_valid s it g = same (s.registry it) (some g)

unfoldable pub register_iterator : (g it : ℕ) → Store → Store
unfolding set_next
register_iterator g it s =
    let s' = set_next it (s.head g) s in record s' { head = set_at s'.head g (some it) }

-- `remove(current, previous)`; none where the head is null and is followed.
unfoldable pub remove : (g current : ℕ) → Option ℕ → Store → Option Store
unfolding set_next
remove g current none s = do h ← s.head g; some (record s { head = set_at s.head g (s.next h) })
remove g current (some q) s = some (set_next q (s.next current) s)

-- `for (p = m_iterators; p != it; previous = p, p = p->next()) {}`, which answers with `previous`.
-- It follows no null pointer; the fuel bounds the rounds.
unfoldable pub find_previous : ℕ → (it : ℕ) → (p previous : Option ℕ) → Store → Option (Option ℕ)
find_previous zero it p previous s = none
find_previous (suc n) it none previous s = none
find_previous (suc n) it (some p) previous s =
    let rest = find_previous n it (s.next p) (some p) s in if p == it then some previous else rest

unfoldable pub unregister_iterator : ℕ → (g it : ℕ) → Store → Option Store
unfolding find_previous remove
unregister_iterator n g it s = do
  previous ← find_previous n it (s.head g) none s
  remove g it previous s

-- The loop of `invalidate_iterators` and `invalidate_iterators_except`: the test tells which
-- iterators are invalidated.
unfoldable pub invalidate_loop :
    ℕ → (g : ℕ) → (Option ℕ → Bool) → (p previous : Option ℕ) → Store → Option Store
unfolding invalidate remove
invalidate_loop n g test none previous s = some s
invalidate_loop zero g test (some p) previous s = none
invalidate_loop (suc n) g test (some p) previous s = elim (test (s.pointee p)) [
  | true ↦ do
    s' ← remove g p previous (invalidate p s)
    invalidate_loop n g test (s'.next p) previous s'
  | false ↦ invalidate_loop n g test (s.next p) (some p) s
]

-- `invalidate_iterators`: the iterators to the element that `p` points to
unfoldable pub invalidate_iterators : ℕ → (g : ℕ) → Option ℕ → Store → Option Store
unfolding invalidate_loop
invalidate_iterators n g p s = invalidate_loop n g (same p) (s.head g) none s

unfoldable pub invalidate_iterators_except : ℕ → (g : ℕ) → Option ℕ → Store → Option Store
unfolding invalidate_loop
invalidate_iterators_except n g p s = invalidate_loop n g (λ q. not (same p q)) (s.head g) none s

-- The loop of `invalidate_all_iterators`
unfoldable pub invalidate_each : ℕ → Option ℕ → Store → Option Store
unfolding invalidate
invalidate_each n none s = some s
invalidate_each zero (some p) s = none
invalidate_each (suc n) (some p) s = invalidate_each n (s.next p) (invalidate p s)

unfoldable pub invalidate_all_iterators : ℕ → (g : ℕ) → Store → Option Store
unfolding invalidate_each
invalidate_all_iterators n g s = do
  s' ← invalidate_each n (s.head g) s
  some (record s' { head = set_at s'.head g none })

unfoldable pub register_self : (it : ℕ) → Store → Store
unfolding register_iterator
register_self it s = elim (s.registry it) [ none ↦ s | some g ↦ register_iterator g it s ]

unfoldable pub unregister_self : ℕ → (it : ℕ) → Store → Option Store
unfolding unregister_iterator
unregister_self n it s = elim (s.registry it) [
  | none ↦ some s
  | some g ↦ unregister_iterator n g it s
]

-- The constructors, of a new iterator: from the registry `g`, and of a copy of `rhs`.
unfoldable pub create : (it : ℕ) → Option ℕ → Store → Store
unfolding register_self
create it g s =
    register_self it (record s { registry = set_at s.registry it g; next = set_at s.next it none })

unfoldable pub copy : (it rhs : ℕ) → Store → Store
unfolding create
copy it rhs s = create it (s.registry rhs) s

-- `operator =`
unfoldable pub assign : ℕ → (it rhs : ℕ) → Store → Option Store
unfolding unregister_self register_self
assign n it rhs s = if same (s.registry it) (s.registry rhs) then some s else do
  s' ← unregister_self n it s
  some (register_self it (record s' { registry = set_at s'.registry it (s'.registry rhs) }))
