-- ===== src/Kernel/Sample.antt =====
-- A terminal on the small installation of the storage service, for tests.
use nasserver.Base.{refl, arith, true, some, [], ◌∷◌}
use nasserver.Base.Text.{split, join}
use nasserver.Domain.{done}
use nasserver.Storage.Sample.{platform, start}
use nasserver.Kernel.Paths.Laws.{IsNormal}
use nasserver.Kernel.Files.Sound.{IsSound}
use nasserver.Storage.Tables.{keys_unique}
use nasserver.Kernel.Files.{make_dir, chdir}
use nasserver.Kernel.Scripts.{
  Script, ends, calls, making_dir, changing_dir, serve, run, ActsByCalls,
}
use nasserver.Kernel.Session.{Session, Engine}

-- Every script prints "hello".
abbrev pub engine : Engine platform
engine = record {
  root = "/data";
  user = "bob";
  temp_dir = "/tmp";
  shlex_split = λ s. some (split b' ' s);
  script_text = λ name. "print";
  run_js = λ code args s. (done "hello", s);
  exists = λ path fs. true;
  decode = λ bytes. done "text";
  encode = λ s. 104 ∷ [];
  copy = λ from to fs. (done tt, fs);
  append = λ path bytes fs. (done tt, fs);
}

abbrev pub session : Session platform
session = record { cwd = "/User/bob"; world = start }

pub home-IsNormal : IsNormal "/User/bob"
unfolding join
home-IsNormal = (
  "User" ∷ "bob" ∷ [],
  refl,
  (
    (λ e. cc, λ e. cc, λ e. cc, (omega arith, (omega arith, (omega arith, (omega arith, tt))))),
    ((λ e. cc, λ e. cc, λ e. cc, (omega arith, (omega arith, (omega arith, tt)))), tt),
  ),
)

pub session-IsSound : IsSound session
unfolding keys_unique
session-IsSound = record { normal = home-IsNormal; unique = refl }

-- A script that makes a directory and goes there.
abbrev pub roam : Script
roam = calls (making_dir "films") (λ made. calls (changing_dir "films") (λ moved. ends (done "")))

-- Every script does so.
abbrev pub roaming : Engine platform
roaming = record engine { run_js = λ code args s. run platform engine roam s }

pub roaming-ActsByCalls : ActsByCalls platform roaming
unfolding run serve make_dir chdir
roaming-ActsByCalls code args s = ("bob", roam, refl)
