-- ===== src/Kernel/Completion/Prefixes.antt =====
-- What `complete` of crates/kernel/src/service.rs suggests.
use text.Mathlib.TextLemmas.{append_assoc, nil-append, cons-append}
use mathlib.Core.Path.{subst}
use nasserver.Base.{
  String, ◌≡◌, refl, sym, true, List, [], ◌∷◌, map, keep, All, All-keep, if◌then◌else◌, arith, inl,
  inr, Option-cases, Bool-cases,
}
use nasserver.Base.Text.{◌<>◌, is_empty, starts_with}
use nasserver.Base.Text.Space.{trim}
use nasserver.Base.Text.Prefix.{starts_with_sound, starts_with-append}
use nasserver.Base.Text.Search.{rsplit_once}
use nasserver.Base.Text.Found.{rsplit_once_sound}
use nasserver.Storage.World.{Platform}
use nasserver.Storage.Paths.{slash}
use nasserver.Kernel.Paths.{resolve_path}
use nasserver.Kernel.Session.{Session, Engine}
use nasserver.Kernel.Completion.{
  completed, is_command, all_commands, command_names, parent_and_partial, candidates, complete_path,
  complete,
}

-- The text stands before each of the suggestions.
abbrev pub AllComplete : String → List String → Type 0
AllComplete prefix xs = All (λ x. starts_with x prefix ≡ true) xs

starts_with-append_left :
    (p s q : String) → starts_with s q ≡ true → starts_with (p <> s) (p <> q) ≡ true
starts_with-append_left p s q h =
    let (r, e) = starts_with_sound s q h in
    rw (e, ← append_assoc p q r) (starts_with-append (p <> q) r)

-- The directory and the partial name make the text.
parent_and_partial_sound :
    (prefix : String) → prefix ≡ (parent_and_partial prefix).0 <> (parent_and_partial prefix).1
unfolding parent_and_partial
parent_and_partial_sound prefix = elim (Option-cases (rsplit_once b'/' prefix)) [
  | inl e ↦ ground (arith, nil-append prefix)
  | inr (found, e) ↦ ground (
    arith,
    rsplit_once_sound slash prefix {a = found.0} {b = found.1},
    append_assoc found.0 "/" found.1,
    cons-append slash "" found.1,
    nil-append found.1,
  )
]

parent_or :
    (parent name : String) → (if is_empty parent then name else parent <> name) ≡ parent <> name
parent_or String.[] name = sym (nil-append name)
parent_or (String.◌∷◌ c s) name = refl

names-AllComplete :
    (parent partial : String) (names : List String)
    → AllComplete (parent <> partial) (
        map
          (λ name. if is_empty parent then name else parent <> name)
          (keep (λ name. starts_with name partial) names))
names-AllComplete parent partial [] = tt
names-AllComplete parent partial (x ∷ xs) = elim (Bool-cases (starts_with x partial)) [
  | inl e ↦ rw e (
    rw (parent_or parent x) (starts_with-append_left parent x partial e),
    names-AllComplete parent partial xs,
  )
  | inr e ↦ rw e (names-AllComplete parent partial xs)
]

complete_path-AllComplete :
    (P : Platform) (E : Engine P) (prefix : String) (s : Session P)
    → AllComplete prefix (complete_path P E prefix s).0
unfolding complete_path
complete_path-AllComplete P E prefix s =
    let (parent, partial) = parent_and_partial prefix in
    let dir = resolve_path s.cwd E.user (if is_empty parent then "." else parent) in
    subst (λ p. AllComplete p (complete_path P E prefix s).0)
      (sym (parent_and_partial_sound prefix))
      (names-AllComplete parent partial (candidates P E dir s).0)

-- Every suggestion starts with the text that is completed: the last word of the line, or nothing where the line
-- ends with a space. That holds for the names of commands and for paths, with their directory.
pub complete-AllComplete :
    (P : Platform) (E : Engine P) (line : String) (s : Session P)
    → AllComplete (completed line) (complete P E line s).0
unfolding complete command_names
complete-AllComplete P E line s = elim (Bool-cases (is_empty (trim line))) [
  | inl e ↦ rw e tt
  | inr e ↦ elim (Bool-cases (is_command line)) [
    | inl f ↦
        rw (e, f)
          (All-keep (λ c. starts_with c (completed line) ≡ true)
            (λ c. starts_with c (completed line)) all_commands (λ c h. h))
    | inr f ↦ rw (e, f) (complete_path-AllComplete P E (completed line) s)
  ]
]
