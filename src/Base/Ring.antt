-- ===== src/Base/Ring.antt =====
-- What a ring buffer holds: `n` items from index `h` on, going round at `cap`. The message queue and
-- the UART's receive buffer share these facts.
use Prim.Native.Nat.{ℕ, zero, suc, ◌+◌, ◌-◌, ◌%◌, ◌≤◌, ◌<◌}
use mathlib.Core.Path.{◌≡◌, refl, ap, ap₂, ◌∙◌}
use mathlib.Core.Logic.{◌≢◌}
use mathlib.Core.List.{List, [], ◌∷◌, ◌++◌}
use native.Mathlib.Nat.{mod-add-mod, mod-eq_of_lt, mod-eq-sub-mod}
use native.Mathlib.Decide.{dec_lt}
use native.Mathlib.Omega.{arith}
use smart_os.Base.Lists.{length, get_or, set, get_or-set_self, get_or-set_ne}

module _ {ℓ} {A : Type ℓ} where
  -- `f 0`, `f 1`, ... `f (n - 1)`
  abbrev pub tabulate : ℕ → (ℕ → A) → List A
  tabulate zero f = []
  tabulate (suc n) f = f 0 ∷ tabulate n (λ k. f (suc k))

  pub tabulate_snoc : (n : ℕ) (f : ℕ → A) → tabulate (suc n) f ≡ tabulate n f ++ (f n ∷ [])
  tabulate_snoc zero f = refl
  tabulate_snoc (suc n) f = ap (λ r. f 0 ∷ r) (tabulate_snoc n (λ k. f (suc k)))

  pub tabulate_ext :
      (n : ℕ) (f g : ℕ → A) → ((k : ℕ) → k < n → f k ≡ g k) → tabulate n f ≡ tabulate n g
  tabulate_ext zero f g h = refl
  tabulate_ext (suc n) f g h =
      ap₂ ◌∷◌ (h 0 (omega arith)) (tabulate_ext n _ _ (λ k l. h (suc k) (omega arith)))

  pub length-tabulate : (n : ℕ) (f : ℕ → A) → length (tabulate n f) ≡ n
  length-tabulate zero f = refl
  length-tabulate (suc n) f = ap suc (length-tabulate n (λ k. f (suc k)))

  -- The default `d` is never met when the storage has `cap` places.
  abbrev pub slots : List A → (cap head count : ℕ) → A → List A
  slots buf cap head count d = tabulate count (λ k. get_or buf ((head + k) % cap) d)

-- Two places of the window are apart while the window is no longer than the ring.
place-ne : (cap h j k : ℕ) → h < cap → j < k → k < cap → (h + k) % cap ≢ (h + j) % cap
place-ne cap h j k hh hjk hk e = elim (dec_lt (h + k) cap) [
  | yes p ↦ omega (
    arith,
    mod-eq_of_lt {n = h + k} {m = cap} p,
    mod-eq_of_lt {n = h + j} {m = cap} (omega arith),
  )
  | no p ↦ elim (dec_lt (h + j) cap) [
    | yes q ↦ omega (
      arith,
      mod-eq-sub-mod {n = h + k} {m = cap} (omega arith),
      mod-eq_of_lt {n = h + k - cap} {m = cap} (omega arith),
      mod-eq_of_lt {n = h + j} {m = cap} q,
    )
    | no q ↦ omega (
      arith,
      mod-eq-sub-mod {n = h + k} {m = cap} (omega arith),
      mod-eq_of_lt {n = h + k - cap} {m = cap} (omega arith),
      mod-eq-sub-mod {n = h + j} {m = cap} (omega arith),
      mod-eq_of_lt {n = h + j - cap} {m = cap} (omega arith),
    )
  ]
]

module _ {ℓ} {A : Type ℓ} (buf : List A) (cap head count : ℕ) (d : A) where
  -- A write at the free place behind the window extends it at the back.
  pub slots-set :
      (x : A)
      → cap ≤ length buf
      → head < cap
      → count < cap
      → slots (set buf ((head + count) % cap) x) cap head (suc count) d
        ≡ slots buf cap head count d ++ (x ∷ [])
  slots-set x room hh hc =
      tabulate_snoc count _
      ∙ ap₂ (λ a b. a ++ (b ∷ []))
          (tabulate_ext count _ _
            λ k l. get_or-set_ne buf _ _ x d (place-ne cap head k count hh l hc))
          (get_or-set_self buf ((head + count) % cap) x d (omega arith))

  -- Moving the head on by one drops the front of the window.
  pub slots_advance :
      head < cap
      → slots buf cap head (suc count) d
        ≡ get_or buf head d ∷ slots buf cap ((head + 1) % cap) count d
  slots_advance hh =
      ap₂ ◌∷◌
        (ap (λ i. get_or buf i d)
          (omega (arith, mod-eq_of_lt {n = head + 0} {m = cap} (omega arith))))
        (tabulate_ext count _ _ λ k l. ap (λ i. get_or buf i d) (shift k))
    where
      shift : (k : ℕ) → (head + suc k) % cap ≡ ((head + 1) % cap + k) % cap
      shift k = rw mod-add-mod (ap (λ m. m % cap) (omega arith))
