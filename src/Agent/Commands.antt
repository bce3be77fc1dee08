-- ===== src/Agent/Commands.antt =====
-- Commands and completions of a session: `execute_command` and `complete_command` of
-- crates/agent/src/agent_service.rs. `active_cwds` is an association list from sessions to working
-- directories.
pub mod Desks
use nasserver.Base.{
  String, ◌≡◌, refl, Bool, true, false, Option, none, some, List, [], ◌∷◌, if◌then◌else◌,
}
use nasserver.Base.Text.{◌<>◌, ◌=s=◌}
use nasserver.Domain.{Error, internal, Result, ok, err, Attempt, done, failed}
use nasserver.Storage.World.{Platform, World}
use nasserver.Kernel.Session.{Session, Engine}
use nasserver.Kernel.Service.{Answer, execute_script}
use nasserver.Kernel.Completion.{complete}

-- `cwds.get(key)`
unfoldable pub find_cwd : String → List (String × String) → Option String
find_cwd key [] = none
find_cwd key ((k, cwd) ∷ cwds) = if k =s= key then some cwd else find_cwd key cwds

-- The working directory of a session becomes another, or is entered.
unfoldable pub set_cwd : String → String → List (String × String) → List (String × String)
set_cwd key cwd [] = (key, cwd) ∷ []
set_cwd key cwd ((k, old) ∷ cwds) =
    let rest = set_cwd key cwd cwds in if k =s= key then (k, cwd) ∷ cwds else (k, old) ∷ rest

-- `entry(key).or_insert_with(..)`, as the directory that is then there.
unfoldable pub cwd_or_home : String → String → List (String × String) → String
cwd_or_home key username cwds = elim (find_cwd key cwds) [
  | none ↦ "/User/" <> username
  | some cwd ↦ cwd
]

-- `session_id`, else `user_id`, else "default"
abbrev pub key_of : Option String → Option String → String
key_of user_id (some sid) = sid
key_of (some uid) none = uid
key_of none none = "default"

pub record Desk (P : Platform) : Type 0 where
  pub cwds : List (String × String)
  pub world : World P

-- `username_of` is the account's name, or the text of the error.
module _ (P : Platform) (E : Engine P) (username_of : String → Attempt String) where
  abbrev pub engine_of : String → Engine P
  engine_of username = record E { user = username }

  unfoldable pub username_or_admin : Option String → Result String
  username_or_admin none = ok "admin"
  username_or_admin (some uid) = elim (username_of uid) [
    | done name ↦ ok name
    | failed message ↦ err (internal message)
  ]

  -- The command runs in the directory of its session, which it may leave for another.
  unfoldable pub run_in : String → String → String → Desk P → (Answer × String) × Desk P
  run_in username key command d =
      let (answer, s) =
        execute_script P (engine_of username) command
          (record { cwd = cwd_or_home key username d.cwds; world = d.world }) in
      ((answer, s.cwd), record { cwds = set_cwd key s.cwd d.cwds; world = s.world })

  -- `execute_command`: the answer and the directory.
  unfoldable pub execute_command :
      Option String → Option String → String → Desk P → Result (Answer × String) × Desk P
  execute_command user_id session_id command d = elim (username_or_admin user_id) [
    | err e ↦ (err e, d)
    | ok username ↦
        let (answer, d') = run_in username (key_of user_id session_id) command d in (ok answer, d')
  ]

  -- `complete_command`: an unknown user counts as admin, and a session that is not known is entered
  -- with its home.
  unfoldable pub complete_command :
      Option String → Option String → String → Desk P → List String × Desk P
  complete_command user_id session_id command d =
      let username : String = elim (username_or_admin user_id) [
        | ok name ↦ name
        | err e ↦ "admin"
      ] in
      let cwd : String = elim session_id [
        | none ↦ "/User/" <> username
        | some sid ↦ cwd_or_home sid username d.cwds
      ] in
      let cwds : List (String × String) = elim session_id [
        | none ↦ d.cwds
        | some sid ↦ set_cwd sid cwd d.cwds
      ] in
      let (suggestions, s) =
        complete P (engine_of username) command (record { cwd = cwd; world = d.world }) in
      (suggestions, record { cwds = cwds; world = s.world })
