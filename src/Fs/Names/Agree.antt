-- ===== src/Fs/Names/Agree.antt =====
-- The conversions of names agree, and what a file handle keeps of a name.
use mathlib.Core.List.{map}
use smart_os.Base.{
  ℕ, zero, suc, ◌+◌, ◌-◌, ◌≡◌, ◌≢◌, refl, ap, ap₂, ◌∙◌, sym, Bool, false, ◌||◌, Option, none, some,
  List, [], ◌∷◌, ◌++◌, ◌==◌, if◌then◌else◌, length, take, replicate, length-append, arith,
}
use smart_os.Fs.Names.{
  space, upper, split_dot, fill, filename_to_83, parts_to_83, cut_parts, field, create_name,
  stored_name,
}

replicate_all : (n : ℕ) → replicate n space ≡ replicate (n - 0) space
replicate_all n = ap (λ k. replicate k space) (omega arith)

fill-field : (n : ℕ) (cs : List ℕ) → fill n cs ≡ field n (map upper (take n cs))
unfolding fill field
fill-field zero cs = refl
fill-field (suc n) [] = ap (λ r. space ∷ r) (nothing n) ∙ replicate_all (suc n)
  where
    nothing : (n : ℕ) → fill n [] ≡ replicate n space
    nothing zero = refl
    nothing (suc n) = ap (λ r. space ∷ r) (nothing n)
fill-field (suc n) (c ∷ cs) =
    ap₂ ◌∷◌ (ground arith)
      (fill-field n cs ∙ ap (λ k. map upper (take n cs) ++ replicate k space) (omega arith))

named :
    (d : List ℕ × Option (List ℕ))
    → (let (name, ext) = cut_parts d in field 8 name ++ field 3 ext) ≡ parts_to_83 d
unfolding cut_parts parts_to_83
named (n, none) = ap₂ ◌++◌ (sym (fill-field 8 n)) blanks
  where
    blanks : field 3 [] ≡ space ∷ space ∷ space ∷ []
    blanks = sym (fill-field 3 []) ∙ refl
named (n, some ext) = ap₂ ◌++◌ (sym (fill-field 8 n)) (sym (fill-field 3 ext))

-- Looking a file up, creating and deleting it all use the same eleven bytes for its name.
pub create_name-filename_to_83 :
    (filename : List ℕ) → create_name filename ≡ filename_to_83 filename
unfolding create_name filename_to_83
create_name-filename_to_83 filename = named (split_dot filename)

length-fill : (n : ℕ) (cs : List ℕ) → length (fill n cs) ≡ n
unfolding fill
length-fill zero cs = refl
length-fill (suc n) [] = ap suc (length-fill n [])
length-fill (suc n) (c ∷ cs) = ap suc (length-fill n cs)

length-parts_to_83 : (d : List ℕ × Option (List ℕ)) → length (parts_to_83 d) ≡ 11
unfolding parts_to_83
length-parts_to_83 (n, none) =
    length-append (fill 8 n) (space ∷ space ∷ space ∷ []) ∙ rw (length-fill 8 n) refl
length-parts_to_83 (n, some e) =
    length-append (fill 8 n) (fill 3 e) ∙ rw (length-fill 8 n, length-fill 3 e) refl

-- The 8.3 form has eleven bytes.
pub length-filename_to_83 : (filename : List ℕ) → length (filename_to_83 filename) ≡ 11
unfolding filename_to_83
length-filename_to_83 filename = length-parts_to_83 (split_dot filename)

-- No character of a name is a dot.
abbrev pub has_dot : List ℕ → Bool
has_dot [] = false
has_dot (c ∷ cs) = c == b'.' || has_dot cs

split_dot-append : (n e : List ℕ) → has_dot n ≡ false → split_dot (n ++ b'.' ∷ e) ≡ (n, some e)
unfolding split_dot
split_dot-append [] e h = refl
split_dot-append (c ∷ n) e h = ground (arith, split_dot-append n e)

take-append : (n : List ℕ) (k : ℕ) (r : List ℕ) → take (length n + k) (n ++ r) ≡ n ++ take k r
take-append [] k r = ap (λ m. take m r) (omega arith)
take-append (c ∷ n) k r =
    ap (λ m. take m (c ∷ (n ++ r))) {x = suc (length n) + k} {y = suc (length n + k)} (omega arith)
    ∙ ap (λ t. c ∷ t) (take-append n k r)

to_83_dotted :
    (n e : List ℕ) → has_dot n ≡ false → filename_to_83 (n ++ b'.' ∷ e) ≡ fill 8 n ++ fill 3 e
unfolding filename_to_83
to_83_dotted n e h = ap parts_to_83 (split_dot-append n e h)

append_cancel : (n r s : List ℕ) → n ++ r ≡ n ++ s → r ≡ s
append_cancel [] r s e = e
append_cancel (c ∷ n) r s e = append_cancel n r s (cc e)

stored_dotted : (n e : List ℕ) → length n ≡ 8 → stored_name (n ++ b'.' ∷ e) ≡ n ++ b'.' ∷ take 2 e
unfolding stored_name
stored_dotted n e l =
    ap (λ k. take k (n ++ b'.' ∷ e)) {x = 11} {y = length n + 3} (omega (arith, l))
    ∙ take-append n 3 (b'.' ∷ e)

last_place : (a b c d : ℕ) → a ∷ b ∷ c ∷ [] ≡ a ∷ b ∷ d ∷ [] → c ≡ d
last_place a b c d e = cc e

-- A file handle keeps eleven characters of a name, and a full name of eight, a dot and three has twelve:
-- with the name that the handle keeps, another directory entry is looked up.
pub stored_name-ne :
    (n : List ℕ) (a b c : ℕ)
    → length n ≡ 8
    → has_dot n ≡ false
    → c ≢ space
    → filename_to_83 (stored_name (n ++ b'.' ∷ a ∷ b ∷ c ∷ []))
      ≢ filename_to_83 (n ++ b'.' ∷ a ∷ b ∷ c ∷ [])
unfolding fill
stored_name-ne n a b c l h ne e = ground (
  arith,
  last_place (code a) (code b) space (code c) (
      append_cancel (fill 8 n) (code a ∷ code b ∷ space ∷ []) (code a ∷ code b ∷ code c ∷ []) same),
)
  where
    code : ℕ → ℕ
    code x = if x == space then space else upper x

    same : fill 8 n ++ code a ∷ code b ∷ space ∷ [] ≡ fill 8 n ++ code a ∷ code b ∷ code c ∷ []
    same =
        sym (to_83_dotted n (a ∷ b ∷ []) h)
        ∙ ap filename_to_83 (sym (stored_dotted n (a ∷ b ∷ c ∷ []) l))
        ∙ e
        ∙ to_83_dotted n (a ∷ b ∷ c ∷ []) h
