-- ===== src/Tokenizer/Normalize.antt =====
-- ml/mirage/tokenizer/normalize.py: a command line reduced to its head verb. `lower` is `str.lower`.
pub mod Bare
use Prim.Native.Char.{code}
use text.Mathlib.Text.{starts_with}
use mirage_core.Shared.{
  ℕ, zero, suc, ◌+◌, String, Bool, true, false, not, ◌||◌, ◌&&◌, List, [], ◌∷◌, leb, ◌==◌, nat_eq,
  string_eq, if◌then◌else◌,
}

-- Python's white space
unfoldable pub is_space : ℕ → Bool
is_space c =
    (leb 9 c && leb c 13)
    || (leb 28 c && leb c 32)
    || c == 133
    || c == 160
    || c == 5760
    || (leb 8192 c && leb c 8202)
    || c == 8232
    || c == 8233
    || c == 8239
    || c == 8287
    || c == 12288

-- `_ENV_ASSIGNMENT`, `^[A-Za-z_][A-Za-z0-9_]*=`
is_letter : ℕ → Bool
is_letter c = (leb 65 c && leb c 90) || (leb 97 c && leb c 122) || c == 95

name_then_equals : String → Bool
unfolding is_letter
name_then_equals String.[] = false
name_then_equals (String.◌∷◌ c s) =
    code c == 61
    || ((is_letter (code c) || (leb 48 (code c) && leb (code c) 57)) && name_then_equals s)

pub is_assignment : String → Bool
unfolding name_then_equals is_letter
is_assignment String.[] = false
is_assignment (String.◌∷◌ c s) = is_letter (code c) && name_then_equals s

contains_text : List String → String → Bool
contains_text [] x = false
contains_text (y ∷ ys) x = y == x || contains_text ys x

abbrev wrappers : List String
wrappers =
    "sudo" ∷ "env" ∷ "nohup" ∷ "time" ∷ "exec" ∷ "command" ∷ "doas" ∷ "setsid" ∷ "stdbuf" ∷ []

abbrev pipeline_breaks : List String
pipeline_breaks = "|" ∷ "||" ∷ "&&" ∷ ";" ∷ "&" ∷ ">" ∷ ">>" ∷ "<" ∷ "|&" ∷ []

pub is_wrapper : String → Bool
unfolding contains_text
is_wrapper tok = contains_text wrappers tok

-- Where the loop of `_strip_wrappers` stands: at a word, in the options of a wrapper, or behind one
-- of them, where a value may follow.
pub data Stage : Type 0 where
  at_word : Stage
  in_options : Stage
  after_option : Stage

is_at_word : Stage → Bool
is_at_word at_word = true
is_at_word _ = false

is_after_option : Stage → Bool
is_after_option after_option = true
is_after_option _ = false

strip_from : Stage → List String → List String
unfolding is_assignment is_wrapper is_at_word is_after_option
strip_from stage [] = []
strip_from stage (tok ∷ tokens) =
    let words = strip_from at_word tokens in
    let options = strip_from in_options tokens in
    let value = strip_from after_option tokens in
    if starts_with tok "-" && not (is_at_word stage)
    then value
    else if is_after_option stage && not (is_wrapper tok)
    then options
    else if is_assignment tok
    then words
    else if is_wrapper tok
    then options
    else tok ∷ tokens

-- `_strip_wrappers`
pub strip_wrappers : List String → List String
unfolding strip_from
strip_wrappers tokens = strip_from at_word tokens

flush : String → List String → List String
flush w ws = if w == "" then ws else w ∷ ws

-- The first word, empty at white space, and the words behind it.
split_first : String → String × List String
unfolding is_space flush
split_first String.[] = ("", [])
split_first (String.◌∷◌ c s) =
    let (w, ws) = split_first s in
    if is_space (code c) then ("", flush w ws) else (String.◌∷◌ c w, ws)

-- `text.split()`
pub split : String → List String
unfolding split_first flush
split text = let (w, ws) = split_first text in flush w ws

pub has_slash : String → Bool
has_slash String.[] = false
has_slash (String.◌∷◌ c s) = code c == 47 || has_slash s

-- `head.rsplit("/", 1)[-1]`
pub basename : String → String
unfolding has_slash
basename String.[] = ""
basename (String.◌∷◌ c s) =
    let rest = basename s in
    if has_slash s then rest else if code c == 47 then s else String.◌∷◌ c s

is_quote : ℕ → Bool
is_quote c = c == 39 || c == 34 || c == 96

drop_quotes : String → String
unfolding is_quote
drop_quotes String.[] = ""
drop_quotes (String.◌∷◌ c s) =
    let rest = drop_quotes s in if is_quote (code c) then rest else String.◌∷◌ c s

drop_end_quotes : String → String
unfolding is_quote
drop_end_quotes String.[] = ""
drop_end_quotes (String.◌∷◌ c s) =
    let rest = drop_end_quotes s in
    if rest == "" && is_quote (code c) then "" else String.◌∷◌ c rest

verb : (String → String) → List String → String
unfolding contains_text basename drop_quotes drop_end_quotes
verb lower [] = ""
verb lower (head ∷ _) =
    if contains_text pipeline_breaks head
    then ""
    else lower (drop_end_quotes (drop_quotes (basename head)))

-- `head_command`; a blank line has no words.
unfoldable pub head_command : (String → String) → String → String
unfolding strip_wrappers split verb
head_command lower raw = verb lower (strip_wrappers (split raw))
