-- ===== src/Fs/Dir/Created.antt =====
-- What a look-up brings after a file was created.
use smart_os.Base.{
  ℕ, zero, suc, ◌+◌, ◌-◌, ◌*◌, ◌≤◌, ◌<◌, ◌≡◌, ◌≢◌, refl, sym, ap, ◌∙◌, Bool, true, false, ◌&&◌,
  ◌||◌, inl, List, [], ◌∷◌, ◌++◌, none, some, arith, ◌==◌, ltb, leb, if◌then◌else◌, length, get_or,
  length-append, replicate, ==_refl,
}
use smart_os.Block.{BlockDevice, IsLawful}
use smart_os.Fs.{Status, ok, error, not_found, invalid, full, Fs, File}
use smart_os.Fs.Names.{filename_to_83, create_name}
use smart_os.Fs.Names.Agree.{create_name-filename_to_83, length-filename_to_83}
use smart_os.Fs.Dir.{
  bytes, put_bytes, first_byte, eq_bytes, go_on, leave, quit, here, find_test, create_test, at,
  slots, Outcome, found, missing, failed, search, new_entry, get16, get32, write_entry, found_file,
  opened, open_file, create_file, not_ready,
}
use smart_os.Fs.Dir.Search.{
  name_at, Same, name_at-Same, bytes_same, slots-at, slots_follow, slots_clear, slots-Same,
  slots-stop,
}
use smart_os.Fs.Dir.Sectors.{
  sector_of, Mounted, search-found, search_reach, search-missing, search-failed,
}
use smart_os.Fs.Dir.Entries.{put_bytes_lem, put_bytes_ne, bytes-put_bytes, written}
use smart_os.Fs.Dir.Reopen.{lt_ne, act-found, open_file-found}

eq_bytes_refl : (l : List ℕ) → eq_bytes l l ≡ true
eq_bytes_refl [] = refl
eq_bytes_refl (c ∷ cs) = rw (==_refl c) (eq_bytes_refl cs)

find_here : (n : List ℕ) → first_byte n ≢ 0x00 → first_byte n ≢ 0xe5 → find_test n n ≡ here
find_here n a b = ground (arith, eq_bytes_refl n)

-- Where creating a file goes on, looking one up does not come to the end of the directory.
find_create : (n l : List ℕ) → create_test l ≡ go_on → find_test n l ≢ leave
find_create n l h = ground arith

find_never_quits : (n l : List ℕ) → find_test n l ≢ quit
find_never_quits n l h = ground arith

length-new_entry : (n : List ℕ) → length n ≡ 11 → length (new_entry n) ≡ 32
length-new_entry n l = length-append n (0x20 ∷ replicate 20 0) ∙ omega (arith, l)

get_or-append : (xs ys : List ℕ) (i : ℕ) → get_or (xs ++ ys) (length xs + i) 0 ≡ get_or ys i 0
get_or-append [] ys i = ap (λ k. get_or ys k 0) {x = 0 + i} {y = i} (omega arith)
get_or-append (x ∷ xs) ys i =
    ap (λ k. get_or (x ∷ (xs ++ ys)) k 0) {x = suc (length xs) + i} {y = suc (length xs + i)}
      (omega arith)
    ∙ get_or-append xs ys i

-- A name of eleven bytes, put in as the beginning of an entry, is what the entry's name is.
new_name :
    (n : List ℕ) (i : ℕ) (f : ℕ → ℕ) → length n ≡ 11 → bytes 11 (put_bytes (new_entry n) i f) i ≡ n
new_name n i f l =
    ap (λ k. bytes k (put_bytes (new_entry n) i f) i) {x = 11} {y = length n} (sym l)
    ∙ bytes-put_bytes n (0x20 ∷ replicate 20 0) i f

-- Behind the name and the attribute, the new entry is zero.
new_zero :
    (n : List ℕ) (i : ℕ) (f : ℕ → ℕ) (x : ℕ)
    → length n ≡ 11
    → x < 6
    → put_bytes (new_entry n) i f (i + 26 + x) ≡ 0
new_zero n i f x l h =
    put_bytes_lem (new_entry n) i f (i + 26 + x)
    ∙ inside (leb i (i + 26 + x) && ltb (i + 26 + x) (i + length (new_entry n)))
        (get_or (new_entry n) (i + 26 + x - i) 0) (f (i + 26 + x))
        (ground (arith, length-new_entry n l))
    ∙ ap (λ k. get_or (new_entry n) k 0) {x = i + 26 + x - i} {y = length n + (15 + x)}
        (omega (arith, l, h))
    ∙ get_or-append n (0x20 ∷ replicate 20 0) (15 + x)
    ∙ zeros x h
  where
    inside : (b : Bool) (x y : ℕ) → b ≡ true → (if b then x else y) ≡ x
    inside b x y e = rw e refl

    zeros : (x : ℕ) → x < 6 → get_or {A = ℕ} (0x20 ∷ replicate 20 0) (15 + x) 0 ≡ 0
    zeros zero h = refl
    zeros (suc zero) h = refl
    zeros (suc (suc zero)) h = refl
    zeros (suc (suc (suc zero))) h = refl
    zeros (suc (suc (suc (suc zero)))) h = refl
    zeros (suc (suc (suc (suc (suc zero))))) h = refl
    zeros (suc (suc (suc (suc (suc (suc x)))))) h = absurd (omega (arith, h))

-- The names of the other entries stay.
other_names :
    (f g : ℕ → ℕ) (cs : List ℕ) (i j : ℕ)
    → length cs ≡ 32
    → i < j
    → j < 16
    → Same g (put_bytes cs (j * 32) f)
    → name_at g i ≡ name_at f i
other_names f g cs i j l h hj same = bytes_same 11 (i * 32) g f (λ x a b.
    same x (omega arith) ∙ put_bytes_ne cs (j * 32) f x 32 (omega arith) (inl (before i j x a b h)))
  where
    before : (i j x : ℕ) → i * 32 ≤ x → x < i * 32 + 11 → i < j → ltb x (j * 32) ≡ true
    before i j x a b h = ground arith

in_sector : (j x : ℕ) → j < 16 → x < 6 → j * 32 + 26 + x < 512
in_sector j x h l = omega (arith, h, l)

get_zero :
    (f : ℕ → ℕ) (i : ℕ)
    → ((x : ℕ) → x < 6 → f (i + x) ≡ 0)
    → (get16 f i ≡ 0) × (get32 f (i + 2) ≡ 0)
get_zero f i z = (
  rw (ap f {x = i} {y = i + 0} (omega arith) ∙ z 0 (omega arith), z 1 (omega arith)) refl,
  rw
      (
        z 2 (omega arith),
        ap f {x = i + 2 + 1} {y = i + 3} (omega arith) ∙ z 3 (omega arith),
        ap f {x = i + 2 + 2} {y = i + 4} (omega arith) ∙ z 4 (omega arith),
        ap f {x = i + 2 + 3} {y = i + 5} (omega arith) ∙ z 5 (omega arith),
      )
      refl,
)

opened-not_found :
    (filename : List ℕ) (r : Outcome)
    → r ≢ failed
    → opened filename r ≡ (not_found, none)
    → r ≡ missing
opened-not_found filename (found k j b) n h = absurd (cc (ap (λ p. p.0) h))
opened-not_found filename missing n h = refl
opened-not_found filename failed n h = absurd (n refl)

module _ (B : BlockDevice) (L : IsLawful B) where
  open L use {sectors, byte}

  passed :
      (s s' : Fs B) (status : Status) (b : Bool) (r : Status × Fs B)
      → status ≢ ok
      → (if b then (status, s) else r) ≡ (ok, s')
      → r ≡ (ok, s')
  passed s s' status true r n h = absurd (n (ap (λ p. p.0) h))
  passed s s' status false r n h = h

  -- A look-up that answers "not found" has run through the directory.
  open_file-not_found :
      (s : Fs B) (d : B.Dev) (filename : List ℕ) (buffer : ℕ → ℕ)
      → Mounted B L s d
      → open_file B s (some filename) true buffer ≡ (not_found, none)
      → search B (find_test (filename_to_83 filename)) 14 0 s buffer ≡ missing
  unfolding open_file
  open_file-not_found s d filename buffer M h =
      opened-not_found filename (search B (find_test (filename_to_83 filename)) 14 0 s buffer)
        (search-failed B L (find_test (filename_to_83 filename)) 14 0 s d buffer M (omega arith)) h

  create-found :
      (s s' : Fs B) (filename : List ℕ) (buffer : ℕ → ℕ)
      → create_file B s (some filename) buffer ≡ (ok, s')
      → (k j : ℕ) × (b : ℕ → ℕ) × (search B create_test 14 0 s buffer ≡ found k j b)
        × (write_entry B s k (put_bytes (new_entry (create_name filename)) (j * 32) b) ≡ (ok, s'))
  unfolding create_file
  create-found s s' filename buffer h =
      act-found B L s s' full
        (λ k j b. write_entry B s k (put_bytes (new_entry (create_name filename)) (j * 32) b))
        (search B create_test 14 0 s buffer) (λ e. cc e)
        (passed s s' invalid (length filename == 0 || ltb 12 (length filename)) _ (λ e. cc e)
          (passed s s' error (not_ready B s) _ (λ e. cc e) h))

  -- A file that was not found and is then created with success opens: with no cluster, of size 0, at
  -- position 0. Its 8.3 name begins with neither of the two marks of a free entry.
  pub open_file-create_file :
      (s s' : Fs B) (d : B.Dev) (filename : List ℕ) (buffer buffer' buffer'' : ℕ → ℕ)
      → Mounted B L s d
      → first_byte (filename_to_83 filename) ≢ 0x00
      → first_byte (filename_to_83 filename) ≢ 0xe5
      → open_file B s (some filename) true buffer ≡ (not_found, none)
      → create_file B s (some filename) buffer' ≡ (ok, s')
      → (file : File) × (open_file B s' (some filename) true buffer'' ≡ (ok, some file))
        × (file.first_cluster ≡ 0)
        × (file.file_size ≡ 0)
        × (file.position ≡ 0)
  open_file-create_file s s' d filename buffer buffer' buffer'' M n0 ne5 gone h =
      let n : List ℕ = filename_to_83 filename in
      let same_name : create_name filename ≡ n = create_name-filename_to_83 filename in
      let (k, j, b, e, w) = create-found s s' filename buffer' h in
      let w' =
        ap (λ c. write_entry B s k (put_bytes (new_entry c) (j * 32) b)) (sym same_name) ∙ w in
      let (m, _, hi, ek, sb, sl', before) =
        search-found B L create_test 14 0 s d buffer' k j b M (omega arith) e in
      let (d', M', place, mine, rest) =
        written B L s s' d m k b (new_entry n) (j * 32) M hi ek sb w' in
      let old : ℕ → ℕ = byte d (sector_of B s m) in
      let new : ℕ → ℕ = put_bytes (new_entry n) (j * 32) old in
      let sl : slots create_test 16 0 old ≡ at j =
        ap (λ k. slots create_test 16 0 (byte d k)) (sym ek) ∙ sl' in
      let clear =
        search-missing B L (find_test n) 14 0 s d buffer M (omega arith)
          (λ f. slots-stop (find_test n) 16 0 f (find_never_quits n))
          (open_file-not_found s d filename buffer M gone) in
      let here_now : find_test n (name_at (byte d' (sector_of B s m)) j) ≡ here =
        ap (find_test n) (
          name_at-Same (byte d' (sector_of B s m)) new j mine (slots-at create_test 16 0 old j sl).1
          ∙ new_name n (j * 32) old (length-filename_to_83 filename))
        ∙ find_here n n0 ne5 in
      let (b', sb', e') =
        search_reach B L (find_test n) 14 0 s' d' buffer'' m j M' (omega arith) (omega arith) hi
          (λ p _ q.
            ap (λ k. slots (find_test n) 16 0 (byte d' k)) (place p)
            ∙ slots-Same (find_test n) 16 0 (byte d' (sector_of B s p)) (byte d (sector_of B s p))
                (rest p (omega arith) (lt_ne p m q)) (omega arith)
            ∙ clear p (omega arith) (omega arith))
          (ap (λ k. slots (find_test n) 16 0 (byte d' k)) (place m)
            ∙ slots_follow create_test (find_test n) old (byte d' (sector_of B s m)) 16 0 j sl
                (λ i _ l g.
                  ap (find_test n) (
                    other_names old (byte d' (sector_of B s m)) (new_entry n) i j
                      (length-new_entry n (length-filename_to_83 filename)) l
                      (slots-at create_test 16 0 old j sl).1 mine)
                  ∙ slots_clear create_test (find_test n) old 16 0 j sl
                      (clear m (omega arith) (omega arith)) (find_create n) i (omega arith) l)
                here_now) in
      let zero_at : (x : ℕ) → x < 6 → b' (j * 32 + 26 + x) ≡ 0 = λ x l.
        sb' (j * 32 + 26 + x) (in_sector j x (slots-at create_test 16 0 old j sl).1 l)
        ∙ ap (λ k. byte d' k (j * 32 + 26 + x)) (place m)
        ∙ mine (j * 32 + 26 + x) (in_sector j x (slots-at create_test 16 0 old j sl).1 l)
        ∙ new_zero n (j * 32) old x (length-filename_to_83 filename) l in
      (
        found_file filename j b',
        open_file-found B L s' filename buffer'' (sector_of B s' m) j b' e',
        (get_zero b' (j * 32 + 26) zero_at).0,
        ap (get32 b') {x = j * 32 + 28} {y = j * 32 + 26 + 2} (omega arith)
            ∙ (get_zero b' (j * 32 + 26) zero_at).1,
        refl,
      )
