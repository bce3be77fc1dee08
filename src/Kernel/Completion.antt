-- ===== src/Kernel/Completion.antt =====
-- Completion of a line: `complete` of crates/kernel/src/service.rs.
pub mod Prefixes
use Prim.Native.String.{compare}
use Prim.Native.String
use text.Mathlib.Text.{is_le}
use nasserver.Base.{
  ℕ, String, Char, code, ◌≡◌, refl, sym, Bool, true, false, ◌||◌, Option, none, some, List, [], ◌∷◌,
  ◌++◌, map, keep, All, All-keep, if◌then◌else◌, arith, inl, inr, Option-cases, Bool-cases,
}
use nasserver.Base.Text.{◌<>◌, ◌=s=◌, is_empty, starts_with, ends_with_char}
use nasserver.Base.Text.Space.{trim, split_whitespace}
use nasserver.Base.Text.Search.{rsplit_once}
use nasserver.Domain.{Result, ok, err}
use nasserver.Storage.World.{Platform}
use nasserver.Storage.Paths.{last?}
use nasserver.Storage.Listing.{DocsEntry, list}
use nasserver.Kernel.Paths.{resolve_path}
use nasserver.Kernel.Session.{Session, Engine, own_path, storage}
use nasserver.Kernel.Userland.{commands}

insert : String → List String → List String
insert x [] = x ∷ []
insert x (y ∷ ys) = let rest = insert x ys in if is_le (compare x y) then x ∷ y ∷ ys else y ∷ rest

-- `sort`
unfoldable sort : List String → List String
unfolding insert
sort [] = []
sort (x ∷ xs) = insert x (sort xs)

-- `dedup`
unfoldable dedup : List String → List String
dedup [] = []
dedup (x ∷ []) = x ∷ []
dedup (x ∷ y ∷ xs) = let rest = dedup (y ∷ xs) in if x =s= y then rest else x ∷ rest

-- The text that is completed: the last word of the line, or a new one.
unfoldable pub completed : String → String
completed line =
    if ends_with_char b' ' line
    then ""
    else elim (last? (split_whitespace line)) [ none ↦ "" | some word ↦ word ]

-- Is it the command?
unfoldable pub is_command : String → Bool
is_command line =
    if ends_with_char b' ' line
    then false
    else elim (split_whitespace line) [ word ∷ [] ↦ true | _ ↦ false ]

unfoldable pub all_commands : List String
unfolding sort dedup
all_commands = dedup (sort ("clear" ∷ "js" ∷ "help" ∷ commands))

unfoldable pub command_names : String → List String
command_names prefix = keep (λ c. starts_with c prefix) all_commands

-- The directory that is written before the partial name, with its slash.
unfoldable pub parent_and_partial : String → String × String
parent_and_partial prefix = elim (rsplit_once b'/' prefix) [
  | none ↦ ("", prefix)
  | some (dir, partial) ↦ (dir <> "/", partial)
]

module _ (P : Platform) (E : Engine P) where
  -- The names in a directory.
  unfoldable pub names_in : String → Session P → List String × Session P
  names_in path s =
      let (answer, s') = storage P (list P E.user (some path) (some 1000) (some 0)) s in
      elim answer [
        | err e ↦ ([], s')
        | ok resp ↦ (map (λ (e : DocsEntry). e.name) resp.entries, s')
      ]

  unfoldable pub candidates : String → Session P → List String × Session P
  candidates dir s =
      if dir =s= "/"
      then ("AppData" ∷ "User" ∷ [], s)
      else if dir =s= "/User"
      then (E.user ∷ [], s)
      else if starts_with dir "/AppData"
      then names_in dir s
      else if starts_with dir ("/User/" <> E.user)
      then names_in (own_path E.user dir) s
      else ([], s)

  unfoldable pub complete_path : String → Session P → List String × Session P
  complete_path prefix s =
      let (parent, partial) = parent_and_partial prefix in
      let (names, s') =
        candidates (resolve_path s.cwd E.user (if is_empty parent then "." else parent)) s in
      (
        map (λ name. if is_empty parent then name else parent <> name)
            (keep (λ name. starts_with name partial) names),
        s',
      )

  -- `complete`
  unfoldable pub complete : String → Session P → List String × Session P
  complete line s =
      if is_empty (trim line)
      then ([], s)
      else if is_command line
      then (command_names (completed line), s)
      else complete_path (completed line) s
