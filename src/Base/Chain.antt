-- ===== src/Base/Chain.antt =====
-- Lists linked through a `next` field: the free list of a memory pool, the task list of the kernel, the
-- wait queues and the list of active timers.
pub mod Unlink
use smart_os.Base.Tests.{Bool-cases, ◌==◌, ==_refl, ==_ne, if◌then◌else◌}
use smart_os.Base.Lists.{length}
use smart_os.Base.Words.{Ptr, null}
use Prim.Native.Nat.{ℕ, suc, ◌+◌, ◌<◌}
use mathlib.Core.Path.{◌≡◌, refl, ap, ap₂, ◌∙◌, sym}
use mathlib.Core.Logic.{◌≢◌, inl, inr}
use mathlib.Core.Bool.{Bool, true, false, ◌||◌}
use mathlib.Core.List.{List, [], ◌∷◌, ◌++◌}
use native.Mathlib.Omega.{arith}

-- A memory with one place changed.
abbrev pub update {ℓ} : {V : Type ℓ} → (Ptr → V) → Ptr → V → Ptr → V
update f p v q = if p == q then v else f q

abbrev pub has : Ptr → List Ptr → Bool
has a [] = false
has a (x ∷ xs) = a == x || has a xs

abbrev pub Distinct : List Ptr → Type 0
Distinct [] = Unit
Distinct (x ∷ xs) = (has x xs ≡ false) × Distinct xs

-- From `p` the links lead through the nodes `xs`, none of them `NULL`, to `NULL`.
abbrev pub Chain : (Ptr → Ptr) → Ptr → List Ptr → Type 0
Chain next p [] = p ≡ null
Chain next p (x ∷ xs) = (p ≡ x) × (x ≢ null) × Chain next (next x) xs

-- A chain depends only on the links of its own nodes.
pub Chain-frame :
    (f g : Ptr → Ptr) (p : Ptr) (xs : List Ptr)
    → ((a : Ptr) → has a xs ≡ true → g a ≡ f a)
    → Chain f p xs
    → Chain g p xs
Chain-frame f g p [] same c = c
Chain-frame f g p (x ∷ xs) same c = (
  c.0,
  c.1,
  rw (same x (ground arith)) (Chain-frame f g (f x) xs (λ a h. same a (ground arith)) c.2),
)

pub Chain-update :
    (f : Ptr → Ptr) (p a v : Ptr) (xs : List Ptr)
    → has a xs ≡ false
    → Chain f p xs
    → Chain (update f a v) p xs
Chain-update f p a v xs out c = Chain-frame f (update f a v) p xs (λ b h. apart b h) c
  where
    apart : (b : Ptr) → has b xs ≡ true → update f a v b ≡ f b
    apart b h = ground (arith, ap (λ c. has c xs) {x = a} {y = b})

-- The first node decides the rest.
pub Chain-unique :
    (f : Ptr → Ptr) (p : Ptr) (xs ys : List Ptr) → Chain f p xs → Chain f p ys → xs ≡ ys
Chain-unique f p [] [] c d = refl
Chain-unique f p [] (y ∷ ys) c d = absurd (d.1 (omega (arith, c, d.0)))
Chain-unique f p (x ∷ xs) [] c d = absurd (c.1 (omega (arith, d, c.0)))
Chain-unique f p (x ∷ xs) (y ∷ ys) c d =
    ap₂ ◌∷◌ e (Chain-unique f (f x) xs ys c.2 (rw (ap f e) d.2))
  where
    e : x ≡ y
    e = sym c.0 ∙ d.0

pub has-append : (a : Ptr) (xs ys : List Ptr) → has a (xs ++ ys) ≡ (has a xs || has a ys)
has-append a [] ys = refl
has-append a (x ∷ xs) ys = ground (arith, has-append a xs ys)

-- Dropping the first occurrence of a node.
abbrev pub remove : Ptr → List Ptr → List Ptr
remove a [] = []
remove a (x ∷ xs) = if a == x then xs else x ∷ remove a xs

pub has-remove_ne : (a b : Ptr) (xs : List Ptr) → a ≢ b → has b (remove a xs) ≡ has b xs
has-remove_ne a b [] h = refl
has-remove_ne a b (x ∷ xs) h = ground (arith, has-remove_ne a b xs)

pub has-remove : (a b : Ptr) (xs : List Ptr) → has b xs ≡ false → has b (remove a xs) ≡ false
has-remove a b [] h = refl
has-remove a b (x ∷ xs) h = ground (arith, has-remove a b xs)

pub has-remove_self : (a : Ptr) (xs : List Ptr) → Distinct xs → has a (remove a xs) ≡ false
has-remove_self a [] d = refl
has-remove_self a (x ∷ xs) d =
    ground (arith, has-remove_self a xs, ap (λ c. has c xs) {x = a} {y = x})

pub remove-Distinct : (a : Ptr) (xs : List Ptr) → Distinct xs → Distinct (remove a xs)
remove-Distinct a [] d = d
remove-Distinct a (x ∷ xs) d = elim (Bool-cases (a == x)) [
  | inl e ↦ rw e d.1
  | inr e ↦ rw e (has-remove a x xs d.0, remove-Distinct a xs d.1)
]

pub length-remove :
    (a : Ptr) (xs : List Ptr) → has a xs ≡ true → suc (length (remove a xs)) ≡ length xs
length-remove a [] h = ground arith
length-remove a (x ∷ xs) h = ground (arith, length-remove a xs)

-- No node of a chain is `NULL`.
pub Chain-ne_null :
    (f : Ptr → Ptr) (p a : Ptr) (xs : List Ptr) → Chain f p xs → has a xs ≡ true → a ≢ null
Chain-ne_null f p a [] c h = absurd (ground arith)
Chain-ne_null f p a (x ∷ xs) c h = elim (Bool-cases (a == x)) [
  | inl e ↦ λ z. c.1 (ground arith)
  | inr e ↦ Chain-ne_null f (f x) a xs c.2 (ground arith)
]

pub update_at {ℓ} :
    {V : Type ℓ} → (f : Ptr → V) (p : Ptr) (v : V) (q : Ptr) → p ≡ q → update f p v q ≡ v
update_at f p v q e = rw (e, ==_refl q) refl

pub update_ne {ℓ} :
    {V : Type ℓ} → (f : Ptr → V) (p : Ptr) (v : V) (q : Ptr) → p ≢ q → update f p v q ≡ f q
update_ne f p v q n = rw (==_ne p q n) refl

pub remove_out : (a : Ptr) (xs : List Ptr) → has a xs ≡ false → remove a xs ≡ xs
remove_out a [] h = refl
remove_out a (x ∷ xs) h = ground (arith, remove_out a xs)
