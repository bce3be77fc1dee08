-- ===== src/Container/Operations.antt =====
-- The operations of crates/container/src/container_service.rs that pass one call on to Docker.
use nasserver.Base.{String, Option, none, some}
use nasserver.Domain.{pure, ◌>>=◌}
use nasserver.Container.World.{
  DockerCall, start_call, stop_call, restart_call, remove_call, remove_image_call,
  create_volume_call, remove_volume_call, Host, Op, docker,
}

-- `CreateVolumeReq`, without its labels.
pub record CreateVolumeReq : Type 0 where
  pub name : String
  pub driver : Option String

module _ (H : Host) where
  abbrev pub call : DockerCall → Op (Unit {0})
  call c = docker H c >>= λ _. pure tt

  unfoldable pub start_container : String → Op (Unit {0})
  start_container id = call (start_call id)

  unfoldable pub stop_container : String → Op (Unit {0})
  stop_container id = call (stop_call id)

  unfoldable pub restart_container : String → Op (Unit {0})
  restart_container id = call (restart_call id)

  unfoldable pub remove_container : String → Op (Unit {0})
  remove_container id = call (remove_call id)

  unfoldable pub remove_image : String → Op (Unit {0})
  remove_image id = call (remove_image_call id)

  unfoldable pub create_volume : CreateVolumeReq → Op (Unit {0})
  create_volume req =
      call (create_volume_call req.name (elim req.driver [ none ↦ "local" | some driver ↦ driver ]))

  unfoldable pub remove_volume : String → Op (Unit {0})
  remove_volume name = call (remove_volume_call name)
