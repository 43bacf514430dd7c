-- ===== src/Shell/Files/Cat.antt =====
-- What `cmd_cat` prints of a file whose bytes lie in its first cluster.
use smart_os.Base.{
  ℕ, zero, suc, ◌+◌, ◌-◌, ◌*◌, ◌/◌, ◌%◌, ◌≤◌, ◌<◌, ◌≡◌, ◌≢◌, refl, sym, ap, ap₂, ◌∙◌, true, false,
  some, List, [], ◌∷◌, ◌++◌, length, ◌==◌, arith, Bool-cases, inl, inr,
}
use smart_os.Base.Chain.{update}
use smart_os.Block.{BlockDevice, IsLawful}
use smart_os.Fs.{Fs, File}
use smart_os.Fs.Dir.{bytes}
use smart_os.Fs.Files.{cut_size, read_file}
use smart_os.Fs.Files.Brought.{read_file-content}
use smart_os.Fs.Files.Content.{content, first_sector, Placed}
use smart_os.Shell.{c_string}
use smart_os.Shell.Console.{Output, print, print_bytes, hex, putc}
use smart_os.Shell.Files.{cat_loop}

-- The characters of the calls that print what is not a text of the source.
unfoldable pub printed : List Output → List ℕ
printed [] = []
printed (print_bytes cs ∷ out) = cs ++ printed out
printed (print text ∷ out) = printed out
printed (hex n ∷ out) = printed out
printed (putc c ∷ out) = printed out

bytes_add : (a b i : ℕ) (f : ℕ → ℕ) → bytes (a + b) f i ≡ bytes a f i ++ bytes b f (i + a)
unfolding bytes
bytes_add zero b i f =
    let e : 0 + b ≡ b = omega arith in let k : i + 0 ≡ i = omega arith in rw (e, k) refl
bytes_add (suc a) b i f =
    let e : suc a + b ≡ suc (a + b) = omega arith in
    rw e (
      ap (λ r. f i ∷ r)
        (bytes_add a b (i + 1) f ∙ ap (λ k. bytes a f (i + 1) ++ bytes b f k) (omega arith)))

c_string_lem :
    (n m i j : ℕ) (buffer f : ℕ → ℕ)
    → m < n
    → ((x : ℕ) → x < m → (buffer (i + x) ≡ f (j + x)) × (f (j + x) ≢ 0))
    → buffer (i + m) ≡ 0
    → c_string n i buffer ≡ bytes m f j
unfolding c_string bytes
c_string_lem zero m i j buffer f l h e = absurd (omega (arith, l))
c_string_lem (suc n) zero i j buffer f l h e =
    let z : (buffer i == 0) ≡ true = ground (arith, e, ap buffer {x = i + 0} {y = i}) in rw z refl
c_string_lem (suc n) (suc m) i j buffer f l h e =
    let (q, ne) = h 0 (omega arith) in
    let p : buffer i ≡ f j =
      ground (arith, q, ap buffer {x = i + 0} {y = i}, ap f {x = j + 0} {y = j}) in
    let nz : (buffer i == 0) ≡ false = ground (arith, p, ne, ap f {x = j + 0} {y = j}) in
    let rest : c_string n (i + 1) buffer ≡ bytes m f (j + 1) =
      c_string_lem n m (i + 1) (j + 1) buffer f (omega (arith, l))
        (λ x k.
          let e₁ : i + 1 + x ≡ i + suc x = omega arith in
          let e₂ : j + 1 + x ≡ j + suc x = omega arith in
          rw (e₁, e₂) (h (suc x) (omega (arith, k))))
        (let e₁ : i + 1 + m ≡ i + suc m = omega arith in rw e₁ e) in
    rw (c_string, nz) (ap₂ ◌∷◌ p rest)

-- A round that brings something takes one of the pieces of 127 bytes that are left.
one_more :
    (file : File)
    → file.position ≤ file.file_size
    → (cut_size file 127 == 0) ≡ false
    → suc ((file.file_size - (file.position + cut_size file 127) + 126) / 127)
      ≡ (file.file_size - file.position + 126) / 127
one_more file within more = ground arith

module _ (B : BlockDevice) (L : IsLawful B) where
  open L use {byte}

  content_same :
      (s t : Fs B) (d : B.Dev) (c c' : ℕ)
      → c' ≡ c
      → t.data_start_sector ≡ s.data_start_sector
      → t.sectors_per_cluster ≡ s.sectors_per_cluster
      → content B L t d c' ≡ content B L s d c
  content_same s t d c c' first p q =
      let e : first_sector B L t c' ≡ first_sector B L s c = rw (first, p, q) refl in
      ap (λ k x. byte d (k + x / 512) (x % 512)) e

  Placed-same :
      (s t : Fs B) (d : B.Dev) (c c' : ℕ)
      → c' ≡ c
      → t.fs_device ≡ s.fs_device
      → t.data_start_sector ≡ s.data_start_sector
      → t.sectors_per_cluster ≡ s.sectors_per_cluster
      → Placed B L s d c
      → Placed B L t d c'
  Placed-same s t d c c' first k p q (dev, low, high, word, on, size) =
      (k ∙ dev, rw first low, rw first high, rw q word, rw (first, p, q) on, size)

  next_round :
      (fuel : ℕ) (s : Fs B) (file : File) (buffer stack : ℕ → ℕ) (n : ℕ)
      → let r = read_file B s file buffer 127 true stack in
        let ended = update r.buffer n 0 in
        r.bytes_read ≡ some n
        → n ≢ 0
        → (cat_loop B (suc fuel) s file buffer stack).0
          ≡ print_bytes (c_string 128 0 ended) ∷ (cat_loop B fuel r.state r.handle ended stack).0
  unfolding cat_loop
  next_round fuel s file buffer stack n e h =
      let z : (n == 0) ≡ false = ground (arith, h) in rw (cat_loop, e, z) refl

  last_round :
      (fuel : ℕ) (s : Fs B) (file : File) (buffer stack : ℕ → ℕ)
      → (read_file B s file buffer 127 true stack).bytes_read ≡ some 0
      → (cat_loop B (suc fuel) s file buffer stack).0 ≡ []
  unfolding cat_loop
  last_round fuel s file buffer stack e = rw (cat_loop, e) refl

  -- For a file whose first cluster lies on the device and holds all its bytes, none of them 0, and a position
  -- within the file: the loop of `cmd_cat`, with more rounds than there are bytes behind the position, prints the
  -- bytes from the position to the end of the file, in their order. It ends by itself: it prints as often as
  -- there are pieces of 127 bytes, the last one perhaps shorter, however many rounds it is given.
  pub cat_loop_lem :
      (fuel : ℕ) (s : Fs B) (d : B.Dev) (file : File) (buffer stack : ℕ → ℕ)
      → Placed B L s d file.first_cluster
      → file.file_size ≤ s.sectors_per_cluster * 512
      → file.position ≤ file.file_size
      → ((x : ℕ) → x < file.file_size → content B L s d file.first_cluster x ≢ 0)
      → file.file_size - file.position < fuel
      → let left = file.file_size - file.position in
        let out = (cat_loop B fuel s file buffer stack).0 in
        (printed out ≡ bytes left (content B L s d file.first_cluster) file.position)
        × (length out ≡ (left + 126) / 127)
  unfolding bytes printed
  cat_loop_lem zero s d file buffer stack P fits within full enough = absurd (omega (arith, enough))
  cat_loop_lem (suc fuel) s d file buffer stack P fits within full enough =
      let n : ℕ = cut_size file 127 in
      let f : ℕ → ℕ = content B L s d file.first_cluster in
      let (_, count, moved, now, (k, l, m, first, fsize)) =
        read_file-content B L s d file buffer 127 stack P fits within in
      elim (Bool-cases (n == 0)) [
        | inl over ↦
            let e : n ≡ 0 = ground (arith, over) in
            let z : file.file_size - file.position ≡ 0 = ground (arith, e) in
            let none_left : (cat_loop B (suc fuel) s file buffer stack).0 ≡ [] =
              last_round fuel s file buffer stack (count ∙ ap some e) in
            (ap printed none_left ∙ rw z refl, ap length none_left ∙ rw z refl)
        | inr more ↦
            let ended : ℕ → ℕ = update (read_file B s file buffer 127 true stack).buffer n 0 in
            let t : Fs B = (read_file B s file buffer 127 true stack).state in
            let g : File = (read_file B s file buffer 127 true stack).handle in
            let small : n < 128 = ground arith in
            let reach : file.position + n ≤ file.file_size = ground (arith, within) in
            let same : content B L t d g.first_cluster ≡ f =
              content_same s t d file.first_cluster g.first_cluster first l m in
            let (rest, pieces) =
              cat_loop_lem fuel t d g ended stack
                (Placed-same s t d file.first_cluster g.first_cluster first k l m P)
                (rw (fsize, m) fits) (rw (fsize, moved) reach)
                (λ x h. rw same (full x (rw (sym fsize) h)))
                (rw (fsize, moved) (ground (arith, enough, reach, more))) in
            let shown : c_string 128 0 ended ≡ bytes n f file.position =
              c_string_lem 128 n 0 file.position ended f small
                (λ x h.
                  (ground (arith, h, now x h), full (file.position + x) (omega (arith, h, reach))))
                (ground arith) in
            let total : file.file_size - file.position
                ≡ n + (file.file_size - (file.position + n)) =
              omega (arith, reach) in
            let round =
              next_round fuel s file buffer stack n count (λ e. ground (arith, more, e)) in
            let fewer : length (cat_loop B fuel t g ended stack).0
                ≡ (file.file_size - (file.position + n) + 126) / 127 =
              pieces ∙ rw (fsize, moved) refl in
            (
              ap printed round
                  ∙ ap₂ ◌++◌ shown (rest ∙ rw (same, fsize, moved) refl)
                  ∙ sym (bytes_add n (file.file_size - (file.position + n)) file.position f)
                  ∙ ap (λ k. bytes k f file.position) (sym total),
              ap length round ∙ ap suc fewer ∙ one_more file within more,
            )
      ]
