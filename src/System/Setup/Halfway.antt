-- ===== src/System/Setup/Halfway.antt =====
-- A setup that the database breaks off.
use nasserver.Base.{◌+◌, String, ◌≡◌, refl, none, some, [], ◌∷◌, arith}
use nasserver.Domain.{database, err, done}
use nasserver.System.World.{Libraries, State, query, execute}
use nasserver.System.Setup.{
  InitReq, admin_account, insert_user, get_config, is_initialized, write_setup, init_system,
}

module _ (L : Libraries) where
  -- On a system that is set up for the first time, with no account, a setup whose third statement fails
  -- leaves an administrator's account and an unchanged configuration, in which the setup is not
  -- complete.
  pub init_system-Halfway :
      (req : InitReq) (hash message : String) (w : State)
      → get_config "setup_completed" w ≡ some "false"
      → w.users ≡ []
      → L.hash_password req.password (w.tick + 1) ≡ done hash
      → L.fault w.tick ≡ none
      → L.fault (w.tick + 1) ≡ none
      → L.fault (w.tick + 1 + 1) ≡ some message
      → (v : State) × (init_system L req w ≡ (err (database message), v))
        × (v.users ≡ admin_account req hash (L.new_v4 (w.tick + 1)) ∷ [])
        × (v.system_config ≡ w.system_config)
  unfolding init_system is_initialized write_setup query execute insert_user
  init_system-Halfway req hash message w setup empty hashes f0 f1 f2 = (
    record w {
      users = admin_account req hash (L.new_v4 (w.tick + 1)) ∷ [];
      tick = w.tick + 1 + 1 + 1;
    },
    ground arith,
    refl,
    refl,
  )
