-- ===== src/Fs/Dir/Reopen.antt =====
-- What a later look-up brings of an entry that was updated or created.
use smart_os.Base.{
  ℕ, ◌+◌, ◌*◌, ◌%◌, ◌^◌, ◌≤◌, ◌<◌, ◌≡◌, ◌≢◌, refl, sym, ap, ◌∙◌, true, ◌⊎◌, List, ◌++◌, some, arith,
  ltb, leb, length,
}
use smart_os.Block.{BlockDevice, IsLawful}
use smart_os.Fs.{Status, ok, not_found, Fs, File}
use smart_os.Fs.Names.{filename_to_83}
use smart_os.Fs.Dir.{
  put_bytes, go_on, leave, here, find_test, update_test, slots, Outcome, found, missing, failed,
  search, le16, le32, get16, get32, act, write_entry, found_file, opened, open_file,
  update_file_info,
}
use smart_os.Fs.Dir.Search.{
  name_at, Same, name_at-Same, bytes_same, slots-at, slots_follow, slots_pass,
}
use smart_os.Fs.Dir.Sectors.{sector_of, Mounted, search-found, search_reach}
use smart_os.Fs.Dir.Entries.{put_bytes_ne, written}

-- Looking a name up and updating its entry go on at the same entries, and stop at the same.
find_update_go_on : (n l : List ℕ) → update_test n l ≡ go_on → find_test n l ≡ go_on
find_update_go_on n l h = ground arith

find_update_here : (n l : List ℕ) → update_test n l ≡ here → find_test n l ≡ here
find_update_here n l h = ground arith

update_never_leaves : (n l : List ℕ) → update_test n l ≢ leave
update_never_leaves n l h = ground arith

-- The bytes that an update changes are in no name.
names_stay :
    (f g : ℕ → ℕ) (cs : List ℕ) (i j : ℕ)
    → length cs ≤ 6
    → i < 16
    → Same g (put_bytes cs (j * 32 + 26) f)
    → name_at g i ≡ name_at f i
names_stay f g cs i j l h same =
    bytes_same 11 (i * 32) g f
      (λ x a b. same x (omega arith) ∙ put_bytes_ne cs (j * 32 + 26) f x 6 l (away i j x a b))
  where
    away :
        (i j x : ℕ)
        → i * 32 ≤ x
        → x < i * 32 + 11
        → (ltb x (j * 32 + 26) ≡ true) ⊎ (leb (j * 32 + 26 + 6) x ≡ true)
    away i j x a b = ground arith

pub lt_ne : (p m : ℕ) → p < m → p ≢ m
lt_ne p m h e = omega (arith, h, e)

pub get16-Same : (f g : ℕ → ℕ) (i : ℕ) → Same f g → i + 1 < 512 → get16 f i ≡ get16 g i
get16-Same f g i h l = rw (h i (omega arith), h (i + 1) (omega arith)) refl

pub get32-Same : (f g : ℕ → ℕ) (i : ℕ) → Same f g → i + 3 < 512 → get32 f i ≡ get32 g i
get32-Same f g i h l =
    rw
      (h i (omega arith), h (i + 1) (omega arith), h (i + 2) (omega arith), h (i + 3) (omega arith))
      refl

get-put :
    (f : ℕ → ℕ) (v w i : ℕ)
    → (get16 (put_bytes (le16 v ++ le32 w) i f) i ≡ v % 65536)
      × (get32 (put_bytes (le16 v ++ le32 w) i f) (i + 2) ≡ w % 2 ^ 32)
unfolding put_bytes
get-put f v w i = (ground arith, ground arith)

-- The handle that an updated entry gives.
entry_read :
    (filename : List ℕ) (f g : ℕ → ℕ) (v w j : ℕ)
    → j < 16
    → w < 2 ^ 32
    → Same f (put_bytes (le16 v ++ le32 w) (j * 32 + 26) g)
    → ((found_file filename j f).first_cluster ≡ v % 65536)
      × ((found_file filename j f).file_size ≡ w)
entry_read filename f g v w j h small same =
    let (first, size) = get-put g v w (j * 32 + 26) in
    let new : ℕ → ℕ = put_bytes (le16 v ++ le32 w) (j * 32 + 26) g in
    (
      get16-Same f new (j * 32 + 26) same (omega arith) ∙ first,
      get32-Same f new (j * 32 + 28) same (omega arith)
          ∙ ap (get32 new) {x = j * 32 + 28} {y = j * 32 + 26 + 2} (omega arith)
          ∙ size
          ∙ omega (arith, small),
    )

module _ (B : BlockDevice) (L : IsLawful B) where
  open L use {sectors, byte}

  pub act-found :
      (s s' : Fs B) (miss : Status) (write : ℕ → ℕ → (ℕ → ℕ) → Status × Fs B) (r : Outcome)
      → miss ≢ ok
      → act B s miss write r ≡ (ok, s')
      → (k j : ℕ) × (b : ℕ → ℕ) × (r ≡ found k j b) × (write k j b ≡ (ok, s'))
  act-found s s' miss write (found k j b) n h = (k, j, b, refl, h)
  act-found s s' miss write missing n h = absurd (n (ap (λ p. p.0) h))
  act-found s s' miss write failed n h = absurd (cc (ap (λ p. p.0) h))

  pub open_file-found :
      (s : Fs B) (filename : List ℕ) (buffer : ℕ → ℕ) (k j : ℕ) (b : ℕ → ℕ)
      → search B (find_test (filename_to_83 filename)) 14 0 s buffer ≡ found k j b
      → open_file B s (some filename) true buffer ≡ (ok, some (found_file filename j b))
  unfolding open_file
  open_file-found s filename buffer k j b h = ap (opened filename) h

  -- After an entry is updated with success, the file opens with the new first cluster, cut to 16 bits,
  -- and with the new size, at position 0.
  pub open_file-update_file_info :
      (s s' : Fs B) (d : B.Dev) (filename : List ℕ) (first_cluster file_size : ℕ)
      (buffer buffer' : ℕ → ℕ)
      → Mounted B L s d
      → file_size < 2 ^ 32
      → update_file_info B s filename first_cluster file_size buffer ≡ (ok, s')
      → (file : File) × (open_file B s' (some filename) true buffer' ≡ (ok, some file))
        × (file.first_cluster ≡ first_cluster % 65536)
        × (file.file_size ≡ file_size)
        × (file.position ≡ 0)
  unfolding update_file_info
  open_file-update_file_info s s' d filename first_cluster file_size buffer buffer' M small h =
      let n : List ℕ = filename_to_83 filename in
      let cs : List ℕ = le16 first_cluster ++ le32 file_size in
      let (k, j, b, e, w) =
        act-found s s' not_found (λ k j b. write_entry B s k (put_bytes cs (j * 32 + 26) b))
          (search B (update_test n) 14 0 s buffer) (λ q. cc q) h in
      let (m, _, hi, ek, sb, sl, before) =
        search-found B L (update_test n) 14 0 s d buffer k j b M (omega arith) e in
      let (d', M', place, mine, rest) = written B L s s' d m k b cs (j * 32 + 26) M hi ek sb w in
      let (_, hj, hu) =
        slots-at (update_test n) 16 0 (byte d (sector_of B s m)) j
          (ap (λ k. slots (update_test n) 16 0 (byte d k)) (sym ek) ∙ sl) in
      let same_names = λ (i : ℕ) (l : i < 16).
        names_stay (byte d (sector_of B s m)) (byte d' (sector_of B s m)) cs i j (omega arith) l
          mine in
      let (b', sb', e') =
        search_reach B L (find_test n) 14 0 s' d' buffer' m j M' (omega arith) (omega arith) hi
          (λ p _ q.
            ap (λ k. slots (find_test n) 16 0 (byte d' k)) (place p)
            ∙ slots_pass (update_test n) (find_test n) (byte d (sector_of B s p))
                (byte d' (sector_of B s p)) 16 0 (before p (omega arith) q) (update_never_leaves n)
                (λ i _ l g.
                  ap (find_test n) (
                    name_at-Same (byte d' (sector_of B s p)) (byte d (sector_of B s p)) i
                      (rest p (omega arith) (lt_ne p m q)) l)
                  ∙ find_update_go_on n (name_at (byte d (sector_of B s p)) i) g))
          (ap (λ k. slots (find_test n) 16 0 (byte d' k)) (place m)
            ∙ slots_follow (update_test n) (find_test n) (byte d (sector_of B s m))
                (byte d' (sector_of B s m)) 16 0 j
                (ap (λ k. slots (update_test n) 16 0 (byte d k)) (sym ek) ∙ sl)
                (λ i _ l g.
                  ap (find_test n) (same_names i (omega arith))
                  ∙ find_update_go_on n (name_at (byte d (sector_of B s m)) i) g)
                (ap (find_test n) (same_names j hj)
                  ∙ find_update_here n (name_at (byte d (sector_of B s m)) j) hu)) in
      let (first, size) =
        entry_read filename b' (byte d (sector_of B s m)) first_cluster file_size j hj small
          (λ x l. sb' x l ∙ ap (λ k. byte d' k x) (place m) ∙ mine x l) in
      (
        found_file filename j b',
        open_file-found s' filename buffer' (sector_of B s' m) j b' e',
        first,
        size,
        refl,
      )
