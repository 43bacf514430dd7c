-- ===== src/Fs/Dir/Entries.antt =====
-- Writing an entry of the directory back, and what the sector holds then.
use smart_os.Base.{
  ℕ, suc, ◌+◌, ◌-◌, ◌≤◌, ◌<◌, ◌≡◌, ◌≢◌, refl, sym, ap, ap₂, ◌∙◌, subst, true, ◌&&◌, List, [], ◌∷◌,
  ◌++◌, some, arith, ltb, leb, if◌then◌else◌, length, get_or, ◌⊎◌, ==_refl,
}
use smart_os.Block.{BlockDevice, IsLawful, block_write}
use smart_os.Fs.{ok, Fs}
use smart_os.Fs.Dir.{bytes, put_bytes, write_entry}
use smart_os.Fs.Dir.Search.{Same, bytes_same}
use smart_os.Fs.Dir.Sectors.{sector_of, Mounted}

pub put_bytes_lem :
    (cs : List ℕ) (i : ℕ) (f : ℕ → ℕ) (x : ℕ)
    → put_bytes cs i f x ≡ (if leb i x && ltb x (i + length cs) then get_or cs (x - i) 0 else f x)
unfolding put_bytes
put_bytes_lem [] i f x = ground arith
put_bytes_lem (c ∷ cs) i f x =
    ground (arith, put_bytes_lem cs (i + 1) f x, step c cs (x - (i + 1)) (x - i))
  where
    step : (c : ℕ) (cs : List ℕ) (a b : ℕ) → b ≡ suc a → get_or (c ∷ cs) b 0 ≡ get_or cs a 0
    step c cs a b e = ap (λ k. get_or (c ∷ cs) k 0) e

-- Outside the bytes put in, nothing changes.
pub put_bytes_ne :
    (cs : List ℕ) (i : ℕ) (f : ℕ → ℕ) (x n : ℕ)
    → length cs ≤ n
    → (ltb x i ≡ true) ⊎ (leb (i + n) x ≡ true)
    → put_bytes cs i f x ≡ f x
put_bytes_ne cs i f x n l h = put_bytes_lem cs i f x ∙ ground arith

-- What was put in is read.
pub bytes-put_bytes :
    (cs ds : List ℕ) (i : ℕ) (f : ℕ → ℕ) → bytes (length cs) (put_bytes (cs ++ ds) i f) i ≡ cs
unfolding bytes put_bytes
bytes-put_bytes [] ds i f = refl
bytes-put_bytes (c ∷ cs) ds i f = ap₂ ◌∷◌ (rw (==_refl i) refl) (
    bytes_same (length cs) (i + 1) (put_bytes (c ∷ (cs ++ ds)) i f) (put_bytes (cs ++ ds) (i + 1) f)
      (λ x a b. ground arith)
    ∙ bytes-put_bytes cs ds (i + 1) f)

module _ (B : BlockDevice) (L : IsLawful B) where
  open L use {sectors, byte, write_ok, write_byte, write_sectors}

  pub write_entry_lem :
      (s : Fs B) (d : B.Dev) (m : ℕ) (buffer : ℕ → ℕ)
      → Mounted B L s d
      → m < 14
      → (d' : B.Dev) × (write_entry B s (sector_of B s m) buffer
          ≡ (ok, record s { fs_device = some d' }))
        × Mounted B L (record s { fs_device = some d' }) d'
        × Same (byte d' (sector_of B s m)) buffer
        × ((p : ℕ) → p < 14 → p ≢ m → Same (byte d' (sector_of B s p)) (byte d (sector_of B s p)))
  unfolding block_write Mounted
  write_entry_lem s d m buffer (e, reach) l =
      let k : ℕ = sector_of B s m in
      let w = write_byte d k buffer in
      (
        (B.write d k buffer).1,
        rw (e, block_write, write_ok d k buffer (reach m l)) refl,
        (refl, λ i h. rw (write_sectors d k buffer) (reach i h)),
        λ x h. w k x (reach m l) h ∙ rw (==_refl k) refl,
        λ p a n x h. w (sector_of B s p) x (reach m l) h ∙ ground arith,
      )

  -- The state after bytes were put into the sector that a search found: only those bytes have changed.
  pub written :
      (s s' : Fs B) (d : B.Dev) (m k : ℕ) (b : ℕ → ℕ) (cs : List ℕ) (i : ℕ)
      → Mounted B L s d
      → m < 14
      → k ≡ sector_of B s m
      → Same b (byte d k)
      → write_entry B s k (put_bytes cs i b) ≡ (ok, s')
      → (d' : B.Dev) × Mounted B L s' d'
        × ((p : ℕ) → sector_of B s' p ≡ sector_of B s p)
        × Same (byte d' (sector_of B s m)) (put_bytes cs i (byte d (sector_of B s m)))
        × ((p : ℕ) → p < 14 → p ≢ m → Same (byte d' (sector_of B s p)) (byte d (sector_of B s p)))
  written s s' d m k b cs i M l e same w =
      let (d', w', M', mine, rest) = write_entry_lem s d m (put_bytes cs i b) M l in
      let q : record s { fs_device = some d' } ≡ s' =
        ap (λ r. r.1) (sym w' ∙ ap (λ k. write_entry B s k (put_bytes cs i b)) (sym e) ∙ w) in
      (
        d',
        subst (λ t. Mounted B L t d') q M',
        λ p. ap (λ t. sector_of B t p) (sym q),
        λ x h.
            mine x h
            ∙ put_bytes_lem cs i b x
            ∙ ap (λ v. if leb i x && ltb x (i + length cs) then get_or cs (x - i) 0 else v)
                (same x h ∙ ap (λ k. byte d k x) e)
            ∙ sym (put_bytes_lem cs i (byte d (sector_of B s m)) x),
        rest,
      )
