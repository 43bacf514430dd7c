-- ===== src/Shell.antt =====
-- core/smart_shell.c: the splitting of a command line, the look-up of a command, and the line editor. A C
-- string is the list of its characters, none of them 0.
pub mod Words
pub mod Editing
pub mod Console
pub mod Reports
pub mod Stats
pub mod MessageTest
pub mod SyncTest
pub mod Files
pub mod Play
mod Tests
use smart_os.Base.{
  ℕ, zero, suc, ◌+◌, ◌-◌, Bool, true, false, not, ◌||◌, ◌&&◌, Option, none, some, List, [], ◌∷◌,
  ◌++◌, ltb, leb, ◌==◌, if◌then◌else◌, take,
}
use smart_os.Base.Chain.{update}

abbrev pub is_space : ℕ → Bool
is_space c = c == 32 || c == 9

-- The loop of `shell_parse_command`: room for `room` more arguments, and the word that has begun, empty
-- where `in_word` is 0.
pub parse_loop : ℕ → List ℕ → List ℕ → List (List ℕ)
parse_loop zero word line = []
parse_loop (suc room) [] [] = []
parse_loop (suc room) (w ∷ word) [] = (w ∷ word) ∷ []
parse_loop (suc room) [] (c ∷ line) = parse_loop (suc room) (if is_space c then [] else c ∷ []) line
parse_loop (suc room) (w ∷ word) (c ∷ line) =
    let ended = (w ∷ word) ∷ parse_loop room [] line in
    let longer = parse_loop (suc room) (w ∷ word ++ c ∷ []) line in
    if is_space c then ended else longer

-- `shell_parse_command`, with the copy that `strncpy` cuts to 127 characters.
pub parse_command : ℕ → List ℕ → List (List ℕ)
parse_command max_args line = parse_loop max_args [] (take 127 line)

-- `strcmp(a, b) == 0`
abbrev pub eq_string : List ℕ → List ℕ → Bool
eq_string [] [] = true
eq_string [] (c ∷ cs) = false
eq_string (b ∷ bs) [] = false
eq_string (b ∷ bs) (c ∷ cs) = b == c && eq_string bs cs

-- The loop of `shell_execute_command` over a table of names: the place of the command.
pub find_command : List (List ℕ) → ℕ → List ℕ → Option ℕ
find_command [] i name = none
find_command (n ∷ names) i name =
    let rest = find_command names (i + 1) name in if eq_string name n then some i else rest

-- What the shell does: it prints, echoes a character, or gives a parsed line to `shell_execute_command`.
pub data Event : Type 0 where
  newline prompt rub_out buffer_full : Event
  echo : ℕ → Event
  execute : List (List ℕ) → Event

-- The fields of `shell_ctx` that the line editor uses.
pub record Editor : Type 0 where
  pub input_buffer : ℕ → ℕ
  pub input_pos : ℕ

-- The string that begins at `i`, of at most `n` characters.
pub c_string : ℕ → ℕ → (ℕ → ℕ) → List ℕ
c_string zero i buffer = []
c_string (suc n) i buffer =
    let rest = c_string n (i + 1) buffer in if buffer i == 0 then [] else buffer i ∷ rest

-- A parsed line with no word in it is not executed.
abbrev pub execution : List (List ℕ) → List Event
execution [] = []
execution (a ∷ argv) = execute (a ∷ argv) ∷ []

-- `shell_process_input`
pub process_input : Editor → ℕ → Editor × List Event
process_input s c =
    if c == 13 || c == 10
    then (if ltb 0 s.input_pos
        then (let buffer = update s.input_buffer s.input_pos 0 in
            (
              record { input_buffer = buffer; input_pos = 0 },
              newline ∷ (execution (parse_command 16 (c_string 128 0 buffer)) ++ prompt ∷ []),
            ))
        else (s, newline ∷ prompt ∷ []))
    else if c == 8 || c == 127
    then (if ltb 0 s.input_pos
        then (record s { input_pos = s.input_pos - 1 }, rub_out ∷ [])
        else (s, []))
    else if leb 32 c && ltb c 127
    then (if ltb s.input_pos 127
        then (
          record {
            input_buffer = update s.input_buffer s.input_pos c;
            input_pos = s.input_pos + 1;
          },
          echo c ∷ [],
        )
        else (record s { input_pos = 0 }, buffer_full ∷ prompt ∷ []))
    else (s, [])
