-- ===== src/Kernel/CommandLine.antt =====
-- The command line of the terminal: steps 1 to 3 of `execute_user_command` of
-- crates/kernel/src/service.rs. The tokens of a line that is no JavaScript are the work of the shlex
-- package, a parameter.
pub mod Heredoc
pub mod Segments
pub mod Redirects
use nasserver.Base.{
  String, Bool, true, false, ◌||◌, Option, none, some, List, [], ◌∷◌, ◌++◌, any, if◌then◌else◌,
}
use nasserver.Base.Text.{◌<>◌, ◌=s=◌, is_empty, starts_with, strip_prefix}
use nasserver.Base.Text.Space.{trim, word, after_word, lines}
use nasserver.Base.Text.Search.{split_once}

-- Is the marker one of the lines?
unfoldable pub is_ended : String → String → Bool
unfolding lines trim
is_ended marker rest = any (λ l. trim l =s= marker) (lines rest)

-- The command without its heredoc: `before` is what stands before "<<", and `after` what follows it.
-- A marker holds no line feed, so that the first one after "<<" follows the marker. The lines of the
-- content go.
unfoldable pub strip_heredoc : String → String
strip_heredoc command = elim (split_once "<<" command) [
  | none ↦ command
  | some (before, after) ↦
      let marker = word after in
      if is_empty marker then command else elim (split_once "\n" after) [
        | none ↦ command
        | some (line, rest) ↦
            if is_ended marker rest
            then before <> (elim (strip_prefix line marker) [ none ↦ line | some args ↦ args ])
            else command
      ]
]

abbrev pub is_js_command : String → Bool
is_js_command line = line =s= "js" || (starts_with line "js " || starts_with line "js\t")

-- The tokens of a line that starts with "js": the command and the rest, its quotes untouched.
abbrev pub js_tokens : String → List String
js_tokens line =
    let args = after_word line in if is_empty args then line ∷ [] else word line ∷ trim args ∷ []

-- Step 2: none where a quote is not closed.
unfoldable pub tokenize : (String → Option (List String)) → String → Option (List String)
tokenize shlex_split command =
    let line = trim command in
    if is_js_command line then some (js_tokens line) else shlex_split command

-- The loop of step 3; `current` is the segment that is being read.
unfoldable pub segments_from : List String → List String → List (List String)
segments_from [] [] = []
segments_from (a ∷ current) [] = (a ∷ current) ∷ []
segments_from [] (t ∷ tokens) = elim (t =s= "|") [
  | true ↦ segments_from [] tokens
  | false ↦ segments_from (t ∷ []) tokens
]
segments_from (a ∷ current) (t ∷ tokens) = elim (t =s= "|") [
  | true ↦ (a ∷ current) ∷ segments_from [] tokens
  | false ↦ segments_from (a ∷ current ++ (t ∷ [])) tokens
]

-- Step 3: the segments of the pipeline.
unfoldable pub segments : List String → List (List String)
unfolding segments_from
segments tokens = segments_from [] tokens

-- Where the output goes: a file, and whether it is appended.
pub data Redirect : Type 0 where
  screen : Redirect
  file : Bool → String → Redirect

-- `>` and `>>`, and whether the latter appends.
abbrev pub operator : String → Option Bool
operator arg = if arg =s= ">" then some false else if arg =s= ">>" then some true else none

-- The loop over a segment: the arguments and the last redirection, or none where an operator has no
-- file behind it.
unfoldable pub redirects_from :
    List String → Redirect → List String → Option (List String × Redirect)
redirects_from args out [] = some (args, out)
redirects_from args out (arg ∷ []) = elim (operator arg) [
  | none ↦ some (args ++ (arg ∷ []), out)
  | some append ↦ none
]
redirects_from args out (arg ∷ target ∷ rest) = elim (operator arg) [
  | none ↦ redirects_from (args ++ (arg ∷ [])) out (target ∷ rest)
  | some append ↦ redirects_from args (file append target) rest
]

unfoldable pub redirects : List String → Option (List String × Redirect)
unfolding redirects_from
redirects segment = redirects_from [] screen segment
