-- ===== src/Shell/Words.antt =====
-- Splitting a line is cutting it at its spaces and leaving out what is empty.
use smart_os.Base.{
  ℕ, zero, suc, ◌≡◌, refl, sym, ap, ap₂, ◌∙◌, List, [], ◌∷◌, ◌++◌, if◌then◌else◌, take, Bool-cases,
  inl, inr,
}
use smart_os.Shell.{is_space, parse_loop, parse_command}

-- What stands between the spaces, empty or not: the first piece and the others.
abbrev pub pieces : List ℕ → List ℕ × List (List ℕ)
pieces [] = ([], [])
pieces (c ∷ cs) = let (p, ps) = pieces cs in if is_space c then ([], p ∷ ps) else (c ∷ p, ps)

abbrev pub nonempty : List (List ℕ) → List (List ℕ)
nonempty [] = []
nonempty ([] ∷ ps) = nonempty ps
nonempty ((c ∷ p) ∷ ps) = (c ∷ p) ∷ nonempty ps

-- The words of a line.
abbrev pub words : List ℕ → List (List ℕ)
words line = let (p, ps) = pieces line in nonempty (p ∷ ps)

append_nil : (p : List ℕ) → p ++ [] ≡ p
append_nil [] = refl
append_nil (c ∷ p) = ap (λ q. c ∷ q) (append_nil p)

append_one : (w : List ℕ) (c : ℕ) (p : List ℕ) → (w ++ c ∷ []) ++ p ≡ w ++ c ∷ p
append_one [] c p = refl
append_one (x ∷ w) c p = ap (λ q. x ∷ q) (append_one w c p)

take_nil : (n : ℕ) → take {A = List ℕ} n [] ≡ []
take_nil zero = refl
take_nil (suc n) = refl

-- With a word begun, the first piece belongs to it.
parse_loop_lem :
    (line : List ℕ) (room : ℕ) (word : List ℕ)
    → parse_loop room word line ≡ take room (nonempty ((word ++ (pieces line).0) ∷ (pieces line).1))
unfolding parse_loop
parse_loop_lem line zero word = refl
parse_loop_lem [] (suc room) [] = refl
parse_loop_lem [] (suc room) (w ∷ word) =
    ap₂ (λ p r. (w ∷ p) ∷ r) (sym (append_nil word)) (sym (take_nil room))
parse_loop_lem (c ∷ line) (suc room) [] = elim (Bool-cases (is_space c)) [
  | inl s ↦ rw (parse_loop, s) (parse_loop_lem line (suc room) [])
  | inr s ↦ rw (parse_loop, s) (parse_loop_lem line (suc room) (c ∷ []))
]
parse_loop_lem (c ∷ line) (suc room) (w ∷ word) = elim (Bool-cases (is_space c)) [
  | inl s ↦
      rw (parse_loop, s)
        (ap₂ (λ p r. (w ∷ p) ∷ r) (sym (append_nil word)) (parse_loop_lem line room []))
  | inr s ↦
      rw (parse_loop, s)
        (parse_loop_lem line (suc room) (w ∷ word ++ c ∷ [])
          ∙ ap (λ p. (w ∷ p) ∷ take room (nonempty (pieces line).1))
              (append_one word c (pieces line).0))
]

-- The arguments are the words of the first 127 characters, as many as there is room for.
pub parse_command_lem :
    (max_args : ℕ) (line : List ℕ)
    → parse_command max_args line ≡ take max_args (words (take 127 line))
unfolding parse_command
parse_command_lem max_args line = parse_loop_lem (take 127 line) max_args []
