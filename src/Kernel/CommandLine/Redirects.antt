-- ===== src/Kernel/CommandLine/Redirects.antt =====
-- Reading the redirections of a segment back: `execute_user_command` in
-- crates/kernel/src/service.rs.
use mathlib.Core.List.{append_assoc, append-nil}
use nasserver.Base.{
  String, ◌≡◌, refl, ◌∙◌, Bool, true, false, none, some, List, [], ◌∷◌, ◌++◌, All, if◌then◌else◌,
}
use nasserver.Kernel.CommandLine.{Redirect, screen, file, operator, redirects_from, redirects}

-- A piece of a segment: an argument, or a redirection with its file.
pub data Piece : Type 0 where
  argument : String → Piece
  to_file : Bool → String → Piece

abbrev pub written : List Piece → List String
written [] = []
written (argument arg ∷ ps) = arg ∷ written ps
written (to_file append target ∷ ps) = (if append then ">>" else ">") ∷ target ∷ written ps

abbrev pub arguments : List Piece → List String
arguments [] = []
arguments (argument arg ∷ ps) = arg ∷ arguments ps
arguments (to_file append target ∷ ps) = arguments ps

-- The last redirection, or the one before the pieces.
abbrev pub last_redirect : Redirect → List Piece → Redirect
last_redirect out [] = out
last_redirect out (argument arg ∷ ps) = last_redirect out ps
last_redirect out (to_file append target ∷ ps) = last_redirect (file append target) ps

-- The argument is no operator.
abbrev pub IsPiece : Piece → Type 0
IsPiece (argument arg) = operator arg ≡ none
IsPiece (to_file append target) = Unit

redirects_from-argument :
    (arg : String) (rest args : List String) (out : Redirect)
    → operator arg ≡ none
    → redirects_from args out (arg ∷ rest) ≡ redirects_from (args ++ (arg ∷ [])) out rest
unfolding redirects_from
redirects_from-argument arg [] args out h = rw (h, redirects_from) refl
redirects_from-argument arg (t ∷ rest) args out h = rw (h, redirects_from) refl

redirects_from-nil :
    (args : List String) (out : Redirect) → redirects_from args out [] ≡ some (args ++ [], out)
unfolding redirects_from
redirects_from-nil args out = rw (append-nil args) refl

redirects_from-to_file :
    (append : Bool) (target : String) (rest args : List String) (out : Redirect)
    → redirects_from args out ((if append then ">>" else ">") ∷ target ∷ rest)
      ≡ redirects_from args (file append target) rest
unfolding redirects_from
redirects_from-to_file true target rest args out = refl
redirects_from-to_file false target rest args out = refl

redirects_from-written :
    (ps : List Piece) (args : List String) (out : Redirect)
    → All IsPiece ps
    → redirects_from args out (written ps) ≡ some (args ++ arguments ps, last_redirect out ps)
redirects_from-written [] args out h = redirects_from-nil args out
redirects_from-written (argument arg ∷ ps) args out (p, h) =
    rw
      (
        redirects_from-argument arg (written ps) args out p,
        redirects_from-written ps (args ++ (arg ∷ [])) out h,
        append_assoc args (arg ∷ []) (arguments ps),
      )
      refl
redirects_from-written (to_file append target ∷ ps) args out (p, h) =
    redirects_from-to_file append target (written ps) args out
    ∙ redirects_from-written ps args (file append target) h

-- A segment of arguments that are no operators and of redirections, in any order, is read as those
-- arguments in their order, with the last of the redirections; any earlier one is dropped.
pub redirects-written :
    (ps : List Piece)
    → All IsPiece ps
    → redirects (written ps) ≡ some (arguments ps, last_redirect screen ps)
unfolding redirects
redirects-written ps h = redirects_from-written ps [] screen h
