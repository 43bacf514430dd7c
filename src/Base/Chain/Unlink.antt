-- ===== src/Base/Chain/Unlink.antt =====
-- Taking a node out of a chain by redirecting the link of the node before it.
use mathlib.Core.Path.{◌≡◌, refl, ap, ◌∙◌, sym}
use mathlib.Core.Logic.{◌≢◌}
use mathlib.Core.Bool.{true, false}
use mathlib.Core.List.{List, [], ◌∷◌}
use native.Mathlib.Omega.{arith}
use smart_os.Base.Tests.{==_refl}
use smart_os.Base.Words.{Ptr}
use smart_os.Base.Chain.{update, has, Distinct, Chain, Chain-update, remove}

pub has_ne : (a b : Ptr) (xs : List Ptr) → has a xs ≡ false → has b xs ≡ true → a ≢ b
has_ne a b xs out i e = ground (arith, ap (λ c. has c xs) e)

pub remove_ne : (a x : Ptr) (xs : List Ptr) → a ≢ x → remove a (x ∷ xs) ≡ x ∷ remove a xs
remove_ne a x xs n = ground arith

pub remove_eq : (a x : Ptr) (xs : List Ptr) → a ≡ x → remove a (x ∷ xs) ≡ xs
remove_eq a x xs e = ground arith

-- The node before `a` in a chain that begins at `x`.
pub record Before (f : Ptr → Ptr) (a x : Ptr) (xs : List Ptr) (prev : Ptr) : Type 0 where
  pub links : f prev ≡ a
  pub among : has prev (x ∷ xs) ≡ true
  pub redirected : Chain (update f prev (f a)) x (x ∷ remove a xs)

-- If the first node links to `a`, redirecting it takes `a` out.
pub Before-here :
    (f : Ptr → Ptr) (a x : Ptr) (xs : List Ptr)
    → Chain f x (x ∷ xs)
    → Distinct (x ∷ xs)
    → has a xs ≡ true
    → f x ≡ a
    → Before f a x xs x
Before-here f a x [] c d h e = absurd (ground arith)
Before-here f a x (y ∷ ys) c d h e = record {
  links = e;
  among = ground arith;
  redirected = (
    refl,
    c.1,
    rw (==_refl x, remove_eq a y ys a_y)
        (Chain-update f (f a) x (f a) ys (ground (arith, d.0)) (rw a_y c.2.2)),
  );
}
  where
    a_y : a ≡ y
    a_y = sym e ∙ c.2.0

-- If it does not, the node before `a` comes later, and stays before `a` with the first node in front.
pub Before-later :
    (f : Ptr → Ptr) (a x y : Ptr) (ys : List Ptr) (prev : Ptr)
    → Chain f x (x ∷ y ∷ ys)
    → Distinct (x ∷ y ∷ ys)
    → y ≢ a
    → Before f a y ys prev
    → Before f a x (y ∷ ys) prev
Before-later f a x y ys prev c d n b = record {
  links = b.links;
  among = ground (arith, b.among);
  redirected =
      (refl, c.1, rw (skipped, remove_ne a y ys (λ z. n (sym z))) (c.2.0, c.2.1, b.redirected.2));
}
  where
    skipped : update f prev (f a) x ≡ f x
    skipped = ground (arith, has_ne x prev (y ∷ ys) d.0 b.among)
