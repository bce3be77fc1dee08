-- ===== src/Container/Gpu.antt =====
-- `resolve_gpu_config` and `add_drm_devices` of crates/gpu/src/lib.rs. What lies in /dev and /sys is a
-- parameter.
use nasserver.Base.{String, Bool, Option, none, some, List, [], ◌∷◌, ◌++◌, if◌then◌else◌}
use nasserver.Base.Text.{◌<>◌, ◌=s=◌, strip_prefix}

-- `DeviceMapping`
pub record DeviceMapping : Type 0 where
  pub path_on_host : String
  pub path_in_container : String
  pub cgroup_permissions : String

-- `GpuDockerConfig`; a device request of the driver "cdi" is its device.
pub record GpuDockerConfig : Type 0 where
  pub device_requests : List String
  pub devices : List DeviceMapping
  pub security_opts : List String
  pub env : List String

-- `find_render_node_by_pci`, and whether a device file exists.
pub record Devices : Type 0 where
  pub find_render_node_by_pci : String → Option String
  pub exists : String → Bool

abbrev pub mapping : String → String → DeviceMapping
mapping host container = record {
  path_on_host = host;
  path_in_container = container;
  cgroup_permissions = "rwm";
}

abbrev pub no_gpu : GpuDockerConfig
no_gpu = record { device_requests = []; devices = []; security_opts = []; env = [] }

abbrev pub nvidia : String → GpuDockerConfig
nvidia device = record {
  device_requests = device ∷ [];
  devices = [];
  security_opts = "label=disable" ∷ [];
  env = "NVIDIA_VISIBLE_DEVICES=all" ∷ "NVIDIA_DRIVER_CAPABILITIES=all" ∷ [];
}

module _ (D : Devices) where
  abbrev pub device_if_exists : String → List DeviceMapping
  device_if_exists path = if D.exists path then mapping path path ∷ [] else []

  -- `add_drm_devices`
  unfoldable pub add_drm_devices : Option String → List DeviceMapping
  add_drm_devices none = device_if_exists "/dev/dri/renderD128" ++ device_if_exists "/dev/dri/card0"
  add_drm_devices (some pci) = elim (D.find_render_node_by_pci pci) [
    | none ↦ []
    | some path ↦ mapping path "/dev/dri/renderD128" ∷ []
  ]

  -- The branches on a prefix of the identifier.
  unfoldable pub gpu_by_prefix : String → GpuDockerConfig
  gpu_by_prefix gpu_id = elim (strip_prefix gpu_id "nvidia_uuid_") [
    | some uuid ↦ nvidia ("nvidia.com/gpu=GPU-" <> uuid)
    | none ↦
        if gpu_id =s= "render_device"
        then record no_gpu { devices = add_drm_devices none }
        else elim (strip_prefix gpu_id "drm_pci_") [
          | some pci ↦ record no_gpu { devices = add_drm_devices (some pci) }
          | none ↦ no_gpu
        ]
  ]

  -- `resolve_gpu_config`
  unfoldable pub resolve_gpu_config : String → GpuDockerConfig
  resolve_gpu_config gpu_id =
      if gpu_id =s= "nvidia_all" then nvidia "nvidia.com/gpu=all" else gpu_by_prefix gpu_id
