-- ===== src/Fs/Listing/Live.antt =====
-- The listing has a line for each live entry, in their order, across the sectors.
use smart_os.Base.{
  ℕ, zero, suc, ◌+◌, ◌*◌, ◌/◌, ◌%◌, ◌≤◌, ◌≡◌, refl, sym, ap, ap₂, ◌∙◌, Bool, true, false, List, [],
  ◌∷◌, ◌++◌, ◌==◌, if◌then◌else◌, arith, Bool-cases, inl, inr,
}
use smart_os.Block.{BlockDevice, IsLawful, block_read}
use smart_os.Fs.{ok, Fs}
use smart_os.Fs.Fat.Entries.{block_read_lem}
use smart_os.Fs.Dir.{bytes, get32, not_ready}
use smart_os.Fs.Dir.Search.{Same, bytes_same}
use smart_os.Fs.Dir.Sectors.{sector_of, Mounted}
use smart_os.Fs.Listing.{entry_text, entry_line, list_slots, list_sectors, list_dir}
use smart_os.Shell.Console.{Output, for_each, print}

-- The live entries among `n` from the entry `m` on, up to the first that is free for ever; `f` gives the bytes of the
-- sectors of the directory.
unfoldable pub live : ℕ → ℕ → (ℕ → ℕ → ℕ) → List ℕ
live zero m f = []
live (suc n) m f =
    let rest = live n (m + 1) f in
    if f (m / 16) (m % 16 * 32) == 0x00
    then []
    else if f (m / 16) (m % 16 * 32) == 0xe5
    then rest
    else m ∷ rest

abbrev pub line_of : (ℕ → ℕ → ℕ) → ℕ → List Output
line_of f m = entry_line (f (m / 16)) (m % 16 * 32)

append_assoc : {A : Type 0} → (xs ys zs : List A) → (xs ++ ys) ++ zs ≡ xs ++ (ys ++ zs)
append_assoc [] ys zs = refl
append_assoc (x ∷ xs) ys zs = ap (λ r. x ∷ r) (append_assoc xs ys zs)

entry_line-Same : (b g : ℕ → ℕ) (e : ℕ) → Same b g → e + 32 ≤ 512 → entry_line b e ≡ entry_line g e
entry_line-Same b g e h l =
    let name : bytes 8 b e ≡ bytes 8 g e =
      bytes_same 8 e b g (λ x p q. h x (omega (arith, q, l))) in
    let ext : bytes 3 b (e + 8) ≡ bytes 3 g (e + 8) =
      bytes_same 3 (e + 8) b g (λ x p q. h x (omega (arith, q, l))) in
    let size : get32 b (e + 28) ≡ get32 g (e + 28) = omega (
      arith,
      h (e + 28) (omega (arith, l)),
      h (e + 28 + 1) (omega (arith, l)),
      h (e + 28 + 2) (omega (arith, l)),
      h (e + 28 + 3) (omega (arith, l)),
    ) in
    ap (λ t. entry_text t (bytes 3 b (e + 8)) (get32 b (e + 28))) name
    ∙ ap (λ t. entry_text (bytes 8 g e) t (get32 b (e + 28))) ext
    ∙ ap (λ t. entry_text (bytes 8 g e) (bytes 3 g (e + 8)) t) size

glue :
    (x lines tail : List Output) (ended : Bool)
    → x ++ (if ended then lines else lines ++ tail)
      ≡ (if ended then x ++ lines else (x ++ lines) ++ tail)
glue x lines tail true = refl
glue x lines tail false = sym (append_assoc x lines tail)

-- The loop over a sector and what follows.
list_slots-live :
    (n j k i : ℕ) (b : ℕ → ℕ) (f : ℕ → ℕ → ℕ)
    → Same b (f i)
    → j + n ≡ 16
    → for_each (line_of f) (live (n + k) (i * 16 + j) f) ≡ (
        let (lines, ended) = list_slots n j b in
        if ended then lines else lines ++ for_each (line_of f) (live k ((i + 1) * 16) f))
unfolding list_slots live for_each
list_slots-live zero j k i b f h l =
    let e : 0 + k ≡ k = omega arith in
    let m : i * 16 + j ≡ (i + 1) * 16 = omega (arith, l) in rw (e, m) refl
list_slots-live (suc n) j k i b f h l =
    let e : suc n + k ≡ suc (n + k) = omega arith in
    let q : (i * 16 + j) / 16 ≡ i = omega (arith, l) in
    let o : (i * 16 + j) % 16 ≡ j = omega (arith, l) in
    let next : i * 16 + j + 1 ≡ i * 16 + (j + 1) = omega arith in
    let same : b (j * 32) ≡ f i (j * 32) = h (j * 32) (omega (arith, l)) in
    let rest = list_slots-live n (j + 1) k i b f h (omega (arith, l)) in
    elim (Bool-cases (f i (j * 32) == 0x00)) [
      | inl end ↦ rw (e, live, q, o, list_slots, same, end) refl
      | inr used ↦ elim (Bool-cases (f i (j * 32) == 0xe5)) [
        | inl deleted ↦ rw (e, live, q, o, list_slots, same, used, deleted, next) rest
        | inr kept ↦
            rw (e, live, q, o, list_slots, same, used, kept, next, for_each, q, o)
              (ap₂ ◌++◌ (sym (entry_line-Same b (f i) (j * 32) h (omega (arith, l)))) rest
                ∙ glue (entry_line b (j * 32)) (list_slots n (j + 1) b).0
                    (for_each (line_of f) (live k ((i + 1) * 16) f)) (list_slots n (j + 1) b).1)
      ]
    ]

module _ (B : BlockDevice) (L : IsLawful B) where
  open L use {byte}

  -- The bytes of the directory's sectors.
  abbrev pub directory : Fs B → B.Dev → ℕ → ℕ → ℕ
  directory s d i = byte d (sector_of B s i)

  list_sectors-live :
      (n i : ℕ) (s : Fs B) (d : B.Dev) (buffer : ℕ → ℕ)
      → Mounted B L s d
      → i + n ≤ 14
      → list_sectors B n i s buffer
        ≡ for_each (line_of (directory s d)) (live (n * 16) (i * 16) (directory s d))
  unfolding list_sectors live for_each Mounted
  list_sectors-live zero i s d buffer M l = refl
  list_sectors-live (suc n) i s d buffer (e, reach) l =
      let f : ℕ → ℕ → ℕ = directory s d in
      let (good, read) =
        block_read_lem B L (record s { fat_cache = buffer }) d (sector_of B s i) e
          (reach i (omega (arith, l))) in
      let b : ℕ → ℕ = (block_read B s.fs_device (sector_of B s i) buffer).1 in
      let rest : list_sectors B n (i + 1) s b
          ≡ for_each (line_of f) (live (n * 16) ((i + 1) * 16) f) =
        list_sectors-live n (i + 1) s d b (e, reach) (omega (arith, l)) in
      let slots = list_slots-live 16 0 (n * 16) i b f (λ x h. read x ∙ ground arith) refl in
      let q : suc n * 16 ≡ 16 + n * 16 = omega arith in
      let o : i * 16 ≡ i * 16 + 0 = omega arith in
      rw (list_sectors, good, rest)
        (sym slots ∙ ap₂ (λ k m. for_each (line_of f) (live k m f)) (sym q) (sym o))

  -- For a file system whose directory lies on a device that keeps its promises, and does not begin at
  -- sector 0: `smart_fs_list_dir` succeeds and prints, under its heading, a line for each live entry of the
  -- directory's 224 up to the first whose name begins with 0, in their order.
  pub list_dir_lem :
      (s : Fs B) (d : B.Dev) (stack : ℕ → ℕ)
      → Mounted B L s d
      → not_ready B s ≡ false
      → list_dir B s stack ≡ (
        ok,
        print "[FS] Root directory:\n"
            ∷ for_each (line_of (directory s d)) (live 224 0 (directory s d)),
      )
  unfolding list_dir
  list_dir_lem s d stack M ready =
      rw (list_dir, ready)
        (ap (λ r. (ok, print "[FS] Root directory:\n" ∷ r))
          (list_sectors-live 14 0 s d stack M (omega arith)))
