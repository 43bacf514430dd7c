-- ===== src/Fs/Dir/Search.antt =====
-- Searches of the directory: where one stops, and when another stops at the same entry.
use smart_os.Base.{
  ℕ, zero, suc, ◌+◌, ◌*◌, ◌≤◌, ◌<◌, ◌≡◌, ◌≢◌, refl, sym, ap, ap₂, ◌∙◌, List, ◌∷◌, arith, ◌⊎◌, inl,
  inr, Bool-cases, ◌==◌, ==_iff,
}
use smart_os.Fs.Dir.{bytes, Verdict, go_on, leave, quit, here, Scan, at, over, stop, follow, slots}

-- Two buffers hold the same `n` bytes from `i` on.
pub bytes_same :
    (n i : ℕ) (f g : ℕ → ℕ) → ((x : ℕ) → i ≤ x → x < i + n → f x ≡ g x) → bytes n f i ≡ bytes n g i
unfolding bytes
bytes_same zero i f g h = refl
bytes_same (suc n) i f g h =
    ap₂ ◌∷◌ (h i (omega arith) (omega arith))
      (bytes_same n (i + 1) f g (λ x a b. h x (omega arith) (omega arith)))

abbrev pub name_at : (ℕ → ℕ) → ℕ → List ℕ
name_at buffer j = bytes 11 buffer (j * 32)

abbrev pub Same : (ℕ → ℕ) → (ℕ → ℕ) → Type 0
Same f g = (x : ℕ) → x < 512 → f x ≡ g x

pub name_at-Same : (f g : ℕ → ℕ) (j : ℕ) → Same f g → j < 16 → name_at f j ≡ name_at g j
name_at-Same f g j h l = bytes_same 11 (j * 32) f g (λ x a b. h x (omega arith))

pub slots-suc :
    (A : List ℕ → Verdict) (n j : ℕ) (f : ℕ → ℕ)
    → slots A (suc n) j f ≡ follow (A (name_at f j)) j (slots A n (j + 1) f)
unfolding slots
slots-suc A n j f = refl

pub slots_zero : (A : List ℕ → Verdict) (j : ℕ) (f : ℕ → ℕ) → slots A 0 j f ≡ over
unfolding slots
slots_zero A j f = refl

follow-at :
    (v : Verdict) (j m : ℕ) (r : Scan)
    → follow v j r ≡ at m
    → ((v ≡ go_on) × (r ≡ at m)) ⊎ ((v ≡ here) × (j ≡ m))
follow-at go_on j m r h = inl (refl, h)
follow-at leave j m r h = absurd (cc h)
follow-at quit j m r h = absurd (cc h)
follow-at here j m r h = inr (refl, cc h)

follow-over :
    (v : Verdict) (j : ℕ) (r : Scan)
    → follow v j r ≡ over
    → ((v ≡ go_on) × (r ≡ over)) ⊎ (v ≡ leave)
follow-over go_on j r h = inl (refl, h)
follow-over leave j r h = inr refl
follow-over quit j r h = absurd (cc h)
follow-over here j r h = absurd (cc h)

module _ (A : List ℕ → Verdict) where
  pub slots-Same : (n j : ℕ) (f g : ℕ → ℕ) → Same f g → j + n ≤ 16 → slots A n j f ≡ slots A n j g
  slots-Same zero j f g h l = slots_zero A j f ∙ sym (slots_zero A j g)
  slots-Same (suc n) j f g h l =
      slots-suc A n j f
      ∙ ap₂ (λ v r. follow (A v) j r) (name_at-Same f g j h (omega arith))
          (slots-Same n (j + 1) f g h (omega arith))
      ∙ sym (slots-suc A n j g)

  -- The entry where a scan stops passes the test, and lies in the range.
  pub slots-at :
      (n j : ℕ) (f : ℕ → ℕ) (m : ℕ)
      → slots A n j f ≡ at m
      → (j ≤ m) × (m < j + n) × (A (name_at f m) ≡ here)
  slots-at zero j f m h = absurd (cc (h, slots_zero A j f))
  slots-at (suc n) j f m h =
      elim (follow-at (A (name_at f j)) j m (slots A n (j + 1) f) (sym (slots-suc A n j f) ∙ h)) [
        | inl (v, r) ↦ let (a, b, c) = slots-at n (j + 1) f m r in (omega arith, omega arith, c)
        | inr (v, e) ↦ (omega arith, omega arith, ap (λ i. A (name_at f i)) (sym e) ∙ v)
      ]

  -- A scan by another test of another buffer stops at the same entry, if it goes on wherever the first does.
  pub slots_follow :
      (C : List ℕ → Verdict) (f g : ℕ → ℕ) (n j m : ℕ)
      → slots A n j f ≡ at m
      → ((i : ℕ) → j ≤ i → i < m → A (name_at f i) ≡ go_on → C (name_at g i) ≡ go_on)
      → C (name_at g m) ≡ here
      → slots C n j g ≡ at m
  slots_follow C f g zero j m h go e = absurd (cc (h, slots_zero A j f))
  slots_follow C f g (suc n) j m h go e =
      elim (follow-at (A (name_at f j)) j m (slots A n (j + 1) f) (sym (slots-suc A n j f) ∙ h)) [
        | inl (v, r) ↦
            let (a, b, c) = slots-at n (j + 1) f m r in
            slots-suc C n j g
            ∙ ap₂ (λ w s. follow w j s) (go j (omega arith) (omega arith) v)
                (slots_follow C f g n (j + 1) m r (λ i x y. go i (omega arith) y) e)
        | inr (v, q) ↦
            slots-suc C n j g
            ∙ ap (λ w. follow w j (slots C n (j + 1) g)) (ap (λ i. C (name_at g i)) q ∙ e)
            ∙ ap at q
      ]

  -- A scan that runs through, and one by another test that goes on wherever the first does.
  pub slots_pass :
      (C : List ℕ → Verdict) (f g : ℕ → ℕ) (n j : ℕ)
      → slots A n j f ≡ over
      → ((l : List ℕ) → A l ≢ leave)
      → ((i : ℕ) → j ≤ i → i < j + n → A (name_at f i) ≡ go_on → C (name_at g i) ≡ go_on)
      → slots C n j g ≡ over
  slots_pass C f g zero j h never go = slots_zero C j g
  slots_pass C f g (suc n) j h never go =
      elim (follow-over (A (name_at f j)) j (slots A n (j + 1) f) (sym (slots-suc A n j f) ∙ h)) [
        | inl (v, r) ↦
            slots-suc C n j g
            ∙ ap₂ (λ w s. follow w j s) (go j (omega arith) (omega arith) v)
                (slots_pass C f g n (j + 1) r never (λ i x y. go i (omega arith) (omega arith)))
        | inr v ↦ absurd (never (name_at f j) v)
      ]

  -- Before the entry where one scan stops, another that runs through has gone on at each.
  pub slots_clear :
      (C : List ℕ → Verdict) (f : ℕ → ℕ) (n j m : ℕ)
      → slots A n j f ≡ at m
      → slots C n j f ≡ over
      → ((l : List ℕ) → A l ≡ go_on → C l ≢ leave)
      → (i : ℕ) → j ≤ i
      → i < m
      → C (name_at f i) ≡ go_on
  slots_clear C f zero j m h o never i a b = absurd (cc (h, slots_zero A j f))
  slots_clear C f (suc n) j m h o never i a b =
      elim (follow-at (A (name_at f j)) j m (slots A n (j + 1) f) (sym (slots-suc A n j f) ∙ h)) [
        | inl (v, r) ↦
            elim (follow-over (C (name_at f j)) j (slots C n (j + 1) f)
              (sym (slots-suc C n j f) ∙ o)) [
                | inl (w, q) ↦ elim (Bool-cases (i == j)) [
                  | inl e ↦ ap (λ k. C (name_at f k)) ((==_iff i j).0 e) ∙ w
                  | inr e ↦ slots_clear C f n (j + 1) m r q never i (ground arith) b
                ]
                | inr w ↦ absurd (never (name_at f j) v w)
              ]
        | inr (v, e) ↦ absurd (omega (arith, e, a, b))
      ]

  -- A test that never returns at an entry does not stop a scan.
  pub slots-stop : (n j : ℕ) (f : ℕ → ℕ) → ((l : List ℕ) → A l ≢ quit) → slots A n j f ≢ stop
  slots-stop zero j f never h = cc (h, slots_zero A j f)
  slots-stop (suc n) j f never h =
      ground (arith, slots-suc A n j f, slots-stop n (j + 1) f never, never (name_at f j))
