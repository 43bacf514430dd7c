-- ===== src/Shell/Editing.antt =====
-- The line editor as an editor of a list.
use smart_os.Base.{
  ℕ, zero, suc, ◌+◌, ◌-◌, ◌≤◌, ◌<◌, ◌≡◌, ◌≢◌, refl, sym, ap, ap₂, ◌∙◌, true, false, ◌||◌, ◌&&◌,
  List, [], ◌∷◌, ◌++◌, ltb, leb, ◌==◌, if◌then◌else◌, length, arith, Bool-cases, inl, inr,
}
use smart_os.Base.Chain.{update}
use smart_os.Shell.{
  Event, newline, prompt, rub_out, buffer_full, echo, Editor, c_string, parse_command, execution,
  process_input,
}

-- The characters of a buffer.
abbrev pub typed : ℕ → ℕ → (ℕ → ℕ) → List ℕ
typed zero i buffer = []
typed (suc n) i buffer = buffer i ∷ typed n (i + 1) buffer

abbrev pub drop_last : List ℕ → List ℕ
drop_last [] = []
drop_last (c ∷ []) = []
drop_last (c ∷ d ∷ cs) = c ∷ drop_last (d ∷ cs)

-- The editor of a list: what it holds after a character, and what it does.
abbrev pub enter_line : List ℕ → List Event
enter_line [] = newline ∷ prompt ∷ []
enter_line (c ∷ cs) = newline ∷ (execution (parse_command 16 (c ∷ cs)) ++ prompt ∷ [])

abbrev pub edit : List ℕ → ℕ → List ℕ × List Event
edit line c =
    if c == 13 || c == 10
    then ([], enter_line line)
    else if c == 8 || c == 127
    then (drop_last line, if ltb 0 (length line) then rub_out ∷ [] else [])
    else if leb 32 c && ltb c 127
    then (if ltb (length line) 127
        then (line ++ c ∷ [], echo c ∷ [])
        else ([], buffer_full ∷ prompt ∷ []))
    else (line, [])

-- The position lies in the buffer, and what was typed can be printed.
abbrev pub IsSound : Editor → Type 0
IsSound s =
    (s.input_pos ≤ 127)
    × ((i : ℕ) → i < s.input_pos → (32 ≤ s.input_buffer i) × (s.input_buffer i < 127))

abbrev pub line_of : Editor → List ℕ
line_of s = typed s.input_pos 0 s.input_buffer

length-typed : (n i : ℕ) (b : ℕ → ℕ) → length (typed n i b) ≡ n
length-typed zero i b = refl
length-typed (suc n) i b = ap suc (length-typed n (i + 1) b)

c_string-typed :
    (n m i p : ℕ) (b : ℕ → ℕ)
    → p ≡ i + m
    → m < n
    → ((k : ℕ) → k < p → b k ≢ 0)
    → c_string n i (update b p 0) ≡ typed m i b
unfolding c_string
c_string-typed zero m i p b e h ne = absurd (omega (arith, h))
c_string-typed (suc n) zero i p b e h ne = rw (c_string, hit) refl
  where
    hit : (update b p 0 i == 0) ≡ true
    hit = ground (arith, e)
c_string-typed (suc n) (suc m) i p b e h ne =
    rw (c_string, miss, place)
      (ap (λ r. b i ∷ r) (c_string-typed n m (i + 1) p b (omega (arith, e)) (omega (arith, h)) ne))
  where
    place : update b p 0 i ≡ b i
    place = ground (arith, e)

    miss : (update b p 0 i == 0) ≡ false
    miss = ground (arith, e, ne i)

typed-update :
    (m i p c : ℕ) (b : ℕ → ℕ) → p ≡ i + m → typed (suc m) i (update b p c) ≡ typed m i b ++ c ∷ []
typed-update zero i p c b e = ap (λ x. x ∷ []) {x = update b p c i} {y = c} (ground (arith, e))
typed-update (suc m) i p c b e =
    ap₂ ◌∷◌ {x = update b p c i} {y = b i} (ground (arith, e))
      (typed-update m (i + 1) p c b (omega (arith, e)))

drop_last-typed : (m i : ℕ) (b : ℕ → ℕ) → drop_last (typed (suc m) i b) ≡ typed m i b
drop_last-typed zero i b = refl
drop_last-typed (suc m) i b = ap (λ r. b i ∷ r) (drop_last-typed m (i + 1) b)

-- What holds of the new state and of what was done.
abbrev pub Agrees : Editor × List Event → List ℕ × List Event → Type 0
Agrees (s, events) (line, expected) = (line_of s ≡ line) × (events ≡ expected) × IsSound s

entered :
    (s : Editor) (m : ℕ)
    → IsSound s
    → s.input_pos ≡ suc m
    → Agrees
        (
          record { input_buffer = update s.input_buffer s.input_pos 0; input_pos = 0 },
          newline
              ∷ (execution (parse_command 16 (c_string 128 0 (update s.input_buffer s.input_pos 0)))
                  ++ prompt ∷ []),
        )
        ([], enter_line (line_of s))
entered s m (short, sound) e = (
  refl,
  ap (λ l. newline ∷ (execution (parse_command 16 l) ++ prompt ∷ []))
        (c_string-typed 128 s.input_pos 0 s.input_pos s.input_buffer (omega arith)
          (omega (arith, short)) (λ k l z. omega (arith, z, (sound k l).0)))
      ∙ ap (λ n. newline ∷ (execution (parse_command 16 (typed n 0 s.input_buffer)) ++ prompt ∷ []))
          e
      ∙ ap (λ n. enter_line (typed n 0 s.input_buffer)) (sym e),
  (omega arith, λ i l. absurd (omega (arith, l))),
)

rubbed :
    (s : Editor) (m : ℕ)
    → IsSound s
    → s.input_pos ≡ suc m
    → Agrees
        (record s { input_pos = s.input_pos - 1 }, rub_out ∷ [])
        (drop_last (line_of s), rub_out ∷ [])
rubbed s m (short, sound) e = (
  ap (λ n. typed n 0 s.input_buffer) {x = s.input_pos - 1} {y = m} (omega (arith, e))
      ∙ sym (ap (λ n. drop_last (typed n 0 s.input_buffer)) e ∙ drop_last-typed m 0 s.input_buffer),
  refl,
  (omega (arith, short), λ i l. sound i (omega (arith, l))),
)

echoed :
    (s : Editor) (c : ℕ)
    → IsSound s
    → s.input_pos < 127
    → 32 ≤ c
    → c < 127
    → Agrees
        (
          record {
            input_buffer = update s.input_buffer s.input_pos c;
            input_pos = s.input_pos + 1;
          },
          echo c ∷ [],
        )
        (line_of s ++ c ∷ [], echo c ∷ [])
echoed s c (short, sound) room low high = (
  ap (λ n. typed n 0 (update s.input_buffer s.input_pos c)) {x = s.input_pos + 1}
        {y = suc s.input_pos} (omega arith)
      ∙ typed-update s.input_pos 0 s.input_pos c s.input_buffer (omega arith),
  refl,
  (
    omega (arith, room),
    λ i l. elim (Bool-cases (s.input_pos == i)) [
      | inl e ↦ rw e (low, high)
      | inr e ↦ rw e (sound i (ground arith))
    ],
  ),
)

-- With nothing typed.
empty_line : (s : Editor) → ltb 0 s.input_pos ≡ false → line_of s ≡ []
empty_line s h = ap (λ n. typed n 0 s.input_buffer) {x = s.input_pos} {y = 0} (ground (arith, h))

shown : (s : Editor) → ltb 0 (length (line_of s)) ≡ ltb 0 s.input_pos
shown s = ap (ltb 0) (length-typed s.input_pos 0 s.input_buffer)

full_line : (s : Editor) → ltb (length (line_of s)) 127 ≡ ltb s.input_pos 127
full_line s = ap (λ n. ltb n 127) (length-typed s.input_pos 0 s.input_buffer)

entering :
    (s : Editor)
    → IsSound s
    → Agrees
        (if ltb 0 s.input_pos
          then (
            record { input_buffer = update s.input_buffer s.input_pos 0; input_pos = 0 },
            newline
                ∷ (execution
                      (parse_command 16 (c_string 128 0 (update s.input_buffer s.input_pos 0)))
                    ++ prompt ∷ []),
          )
          else (s, newline ∷ prompt ∷ []))
        ([], enter_line (line_of s))
entering s v = elim (Bool-cases (ltb 0 s.input_pos)) [
  | inl h ↦ rw h (entered s (s.input_pos - 1) v (ground (arith, h)))
  | inr h ↦ rw h (empty_line s h, sym (ap enter_line (empty_line s h)), v)
]

rubbing :
    (s : Editor)
    → IsSound s
    → Agrees
        (if ltb 0 s.input_pos
          then (record s { input_pos = s.input_pos - 1 }, rub_out ∷ [])
          else (s, []))
        (drop_last (line_of s), if ltb 0 (length (line_of s)) then rub_out ∷ [] else [])
rubbing s v = rw (shown s) (elim (Bool-cases (ltb 0 s.input_pos)) [
  | inl h ↦ rw h (rubbed s (s.input_pos - 1) v (ground (arith, h)))
  | inr h ↦ rw h (empty_line s h ∙ sym (ap drop_last (empty_line s h)), refl, v)
])

echoing :
    (s : Editor) (c : ℕ)
    → IsSound s
    → 32 ≤ c
    → c < 127
    → Agrees
        (if ltb s.input_pos 127
          then (
            record {
              input_buffer = update s.input_buffer s.input_pos c;
              input_pos = s.input_pos + 1;
            },
            echo c ∷ [],
          )
          else (record s { input_pos = 0 }, buffer_full ∷ prompt ∷ []))
        (if ltb (length (line_of s)) 127
          then (line_of s ++ c ∷ [], echo c ∷ [])
          else ([], buffer_full ∷ prompt ∷ []))
echoing s c v low high = rw (full_line s) (elim (Bool-cases (ltb s.input_pos 127)) [
  | inl h ↦ rw h (echoed s c v (ground (arith, h)) low high)
  | inr h ↦ rw h (refl, refl, (omega arith, λ i l. absurd (omega (arith, l))))
])

-- A sound editor does to a character what the editor of the typed line does, and stays sound.
pub process_input_lem :
    (s : Editor) (c : ℕ) → IsSound s → Agrees (process_input s c) (edit (line_of s) c)
unfolding process_input
process_input_lem s c v = elim (Bool-cases (c == 13 || c == 10)) [
  | inl h ↦ rw (process_input, h) (entering s v)
  | inr h ↦ elim (Bool-cases (c == 8 || c == 127)) [
    | inl b ↦ rw (process_input, h, b) (rubbing s v)
    | inr b ↦ elim (Bool-cases (leb 32 c && ltb c 127)) [
      | inl p ↦ rw (process_input, h, b, p) (echoing s c v (ground (arith, p)) (ground (arith, p)))
      | inr p ↦ rw (process_input, h, b, p) (refl, refl, v)
    ]
  ]
]
