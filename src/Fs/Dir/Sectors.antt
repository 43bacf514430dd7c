-- ===== src/Fs/Dir/Sectors.antt =====
-- Searches of the directory on a device that keeps its promises: the sector where one stops.
use smart_os.Base.{
  ℕ, zero, suc, ◌+◌, ◌≤◌, ◌<◌, ◌≡◌, ◌≢◌, refl, sym, ap, ◌∙◌, List, some, u32, arith, ◌⊎◌, inl, inr,
  Bool-cases, ◌==◌, ==_iff,
}
use smart_os.Block.{BlockDevice, IsLawful, block_read}
use smart_os.Fs.{Fs}
use smart_os.Fs.Fat.Entries.{block_read_lem}
use smart_os.Fs.Dir.{
  Verdict, Scan, at, over, stop, slots, Outcome, found, missing, failed, proceed, search,
}
use smart_os.Fs.Dir.Search.{Same, slots-Same}

module _ (B : BlockDevice) where
  abbrev pub sector_of : Fs B → ℕ → ℕ
  sector_of s i = u32 (s.root_dir_start_sector + i)

module _ (B : BlockDevice) (L : IsLawful B) where
  open L use {sectors, byte}

  -- The file system is on the device, and the sectors of the root directory lie on it.
  unfoldable pub Mounted : Fs B → B.Dev → Type 0
  Mounted s d = (s.fs_device ≡ some d) × ((i : ℕ) → i < 14 → sector_of B s i < sectors d)

  pub search_zero :
      (C : List ℕ → Verdict) (i : ℕ) (s : Fs B) (buffer : ℕ → ℕ) → search B C 0 i s buffer ≡ missing
  unfolding search
  search_zero C i s buffer = refl

  pub search-suc :
      (C : List ℕ → Verdict) (n i : ℕ) (s : Fs B) (d : B.Dev) (buffer : ℕ → ℕ)
      → Mounted s d
      → i < 14
      → (b : ℕ → ℕ) × Same b (byte d (sector_of B s i))
        × (search B C (suc n) i s buffer
            ≡ proceed
                (slots C 16 0 (byte d (sector_of B s i)))
                (sector_of B s i)
                b
                (search B C n (i + 1) s b))
  unfolding search Mounted
  search-suc C n i s d buffer (e, reach) l =
      let (ready, read) =
        block_read_lem B L (record s { fat_cache = buffer }) d (sector_of B s i) e (reach i l) in
      let b : ℕ → ℕ = (block_read B s.fs_device (sector_of B s i) buffer).1 in
      let same : Same b (byte d (sector_of B s i)) = λ x h. read x ∙ ground arith in
      (
        b,
        same,
        rw (search, ready)
            (ap (λ c. proceed c (sector_of B s i) b (search B C n (i + 1) s b))
              (slots-Same C 16 0 b (byte d (sector_of B s i)) same (omega arith))),
      )

  proceed-found :
      (c : Scan) (k : ℕ) (b : ℕ → ℕ) (r : Outcome) (k' j : ℕ) (b' : ℕ → ℕ)
      → proceed c k b r ≡ found k' j b'
      → ((c ≡ at j) × (found k j b ≡ found k' j b')) ⊎ ((c ≡ over) × (r ≡ found k' j b'))
  proceed-found (at m) k b r k' j b' h = inl (ap at (cc h), ap (λ x. found k x b) (sym (cc h)) ∙ h)
  proceed-found over k b r k' j b' h = inr (refl, h)
  proceed-found stop k b r k' j b' h = absurd (cc h)

  found-inj : (k k' j : ℕ) (b b' : ℕ → ℕ) → found k j b ≡ found k' j b' → (k ≡ k') × (b ≡ b')
  found-inj k k' j b b' e = (cc e, cc e)

  proceed-failed :
      (c : Scan) (k : ℕ) (b : ℕ → ℕ) (r : Outcome) → r ≢ failed → proceed c k b r ≢ failed
  proceed-failed (at m) k b r n h = cc h
  proceed-failed over k b r n h = n h
  proceed-failed stop k b r n h = cc h

  proceed-missing :
      (c : Scan) (k : ℕ) (b : ℕ → ℕ) (r : Outcome)
      → c ≢ stop
      → proceed c k b r ≡ missing
      → (c ≡ over) × (r ≡ missing)
  proceed-missing (at m) k b r n h = absurd (cc h)
  proceed-missing over k b r n h = (refl, h)
  proceed-missing stop k b r n h = absurd (n refl)

  -- Where a search acts: the sector, what the buffer holds, and that the scans of the sectors before ran through.
  pub search-found :
      (C : List ℕ → Verdict) (n i : ℕ) (s : Fs B) (d : B.Dev) (buffer : ℕ → ℕ) (k j : ℕ) (b : ℕ → ℕ)
      → Mounted s d
      → i + n ≤ 14
      → search B C n i s buffer ≡ found k j b
      → (m : ℕ) × (i ≤ m)
        × (m < i + n)
        × (k ≡ sector_of B s m)
        × Same b (byte d k)
        × (slots C 16 0 (byte d k) ≡ at j)
        × ((p : ℕ) → i ≤ p → p < m → slots C 16 0 (byte d (sector_of B s p)) ≡ over)
  search-found C zero i s d buffer k j b M l h = absurd (cc (h, search_zero C i s buffer))
  search-found C (suc n) i s d buffer k j b M l h =
      let (b', same, step) = search-suc C n i s d buffer M (omega arith) in
      let c : Scan = slots C 16 0 (byte d (sector_of B s i)) in
      elim (proceed-found c (sector_of B s i) b' (search B C n (i + 1) s b') k j b (sym step ∙ h)) [
        | inl (v, e) ↦
            let (ek, eb) = found-inj (sector_of B s i) k j b' b e in
            (
              i,
              omega arith,
              omega arith,
              sym ek,
              λ x q. ap (λ (f : ℕ → ℕ). f x) (sym eb) ∙ same x q ∙ ap (λ k. byte d k x) ek,
              ap (λ k. slots C 16 0 (byte d k)) (sym ek) ∙ v,
              λ p a q. absurd (omega (arith, a, q)),
            )
        | inr (v, r) ↦
            let (m, lo, hi, ek, sb, sl, before) =
              search-found C n (i + 1) s d b' k j b M (omega arith) r in
            (
              m,
              omega arith,
              omega arith,
              ek,
              sb,
              sl,
              λ p a q. elim (Bool-cases (p == i)) [
                | inl e ↦ ap (λ t. slots C 16 0 (byte d (sector_of B s t))) ((==_iff p i).0 e) ∙ v
                | inr e ↦ before p (ground arith) q
              ],
            )
      ]

  -- A search reaches an entry when the scans of the sectors before run through.
  pub search_reach :
      (C : List ℕ → Verdict) (n i : ℕ) (s : Fs B) (d : B.Dev) (buffer : ℕ → ℕ) (m j : ℕ)
      → Mounted s d
      → i + n ≤ 14
      → i ≤ m
      → m < i + n
      → ((p : ℕ) → i ≤ p → p < m → slots C 16 0 (byte d (sector_of B s p)) ≡ over)
      → slots C 16 0 (byte d (sector_of B s m)) ≡ at j
      → (b : ℕ → ℕ) × Same b (byte d (sector_of B s m))
        × (search B C n i s buffer ≡ found (sector_of B s m) j b)
  search_reach C zero i s d buffer m j M l lo hi before h = absurd (omega (arith, lo, hi))
  search_reach C (suc n) i s d buffer m j M l lo hi before h =
      let (b', same, step) = search-suc C n i s d buffer M (omega arith) in
      elim (Bool-cases (m == i)) [
        | inl e ↦
            let q : m ≡ i = (==_iff m i).0 e in
            (
              b',
              λ x r. same x r ∙ ap (λ t. byte d (sector_of B s t) x) (sym q),
              step
                  ∙ ap (λ c. proceed c (sector_of B s i) b' (search B C n (i + 1) s b'))
                      (ap (λ t. slots C 16 0 (byte d (sector_of B s t))) (sym q) ∙ h)
                  ∙ ap (λ t. found (sector_of B s t) j b') (sym q),
            )
        | inr e ↦
            let (b, sb, r) =
              search_reach C n (i + 1) s d b' m j M (omega arith) (ground arith) (omega arith)
                (λ p a q. before p (omega (arith, a)) q) h in
            (
              b,
              sb,
              step
                  ∙ ap (λ c. proceed c (sector_of B s i) b' (search B C n (i + 1) s b'))
                      (before i (omega arith) (ground arith))
                  ∙ r,
            )
      ]

  -- A search that runs through, by a test that never stops one, has run through every sector.
  pub search-missing :
      (C : List ℕ → Verdict) (n i : ℕ) (s : Fs B) (d : B.Dev) (buffer : ℕ → ℕ)
      → Mounted s d
      → i + n ≤ 14
      → ((f : ℕ → ℕ) → slots C 16 0 f ≢ stop)
      → search B C n i s buffer ≡ missing
      → (p : ℕ) → i ≤ p
      → p < i + n
      → slots C 16 0 (byte d (sector_of B s p)) ≡ over
  search-missing C zero i s d buffer M l never h p a q = absurd (omega (arith, a, q))
  search-missing C (suc n) i s d buffer M l never h p a q =
      let (b', same, step) = search-suc C n i s d buffer M (omega arith) in
      let c : Scan = slots C 16 0 (byte d (sector_of B s i)) in
      let (v, r) =
        proceed-missing c (sector_of B s i) b' (search B C n (i + 1) s b')
          (never (byte d (sector_of B s i))) (sym step ∙ h) in
      elim (Bool-cases (p == i)) [
        | inl e ↦ ap (λ t. slots C 16 0 (byte d (sector_of B s t))) ((==_iff p i).0 e) ∙ v
        | inr e ↦
            search-missing C n (i + 1) s d b' M (omega arith) never r p (ground arith) (omega arith)
      ]

  -- No sector fails to be read.
  pub search-failed :
      (C : List ℕ → Verdict) (n i : ℕ) (s : Fs B) (d : B.Dev) (buffer : ℕ → ℕ)
      → Mounted s d
      → i + n ≤ 14
      → search B C n i s buffer ≢ failed
  search-failed C zero i s d buffer M l h = cc (h, search_zero C i s buffer)
  search-failed C (suc n) i s d buffer M l h =
      let (b', same, step) = search-suc C n i s d buffer M (omega arith) in
      proceed-failed (slots C 16 0 (byte d (sector_of B s i))) (sector_of B s i) b'
        (search B C n (i + 1) s b') (search-failed C n (i + 1) s d b' M (omega arith))
        (sym step ∙ h)
