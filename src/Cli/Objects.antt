-- ===== src/Cli/Objects.antt =====
-- The objects that the command line tool writes: the GPUModel and the GPUPool of internal/cli/up.go
-- and capture.go, and the Node of capture.go, with their kinds.
use ghostgpu.Base.{List, Text, codes, []}
use ghostgpu.Base.Int.{pos}
use ghostgpu.Platform.{Platform}
use ghostgpu.Api.{GpuPoolStatus, GpuPoolSpec, GpuPool, GpuModelSpec, GpuModel, Node}

abbrev pub kind_gpu_model : Text
kind_gpu_model = codes "GPUModel"

abbrev pub kind_gpu_pool : Text
kind_gpu_pool = codes "GPUPool"

-- `corev1.Taint`
pub data TaintEffect : Type 0 where
  no_schedule : TaintEffect

pub record Taint : Type 0 where
  pub key : Text
  pub value : Text
  pub effect : TaintEffect

-- `corev1.NodeSystemInfo`
pub record NodeSystemInfo : Type 0 where
  pub architecture : Text
  pub container_runtime_version : Text
  pub kubelet_version : Text
  pub operating_system : Text

-- The status of an object that was only just made.
abbrev pub new_status : GpuPoolStatus
new_status = record {
  conditions = [];
  observed_generation = pos 0;
  nodes_matched = pos 0;
  devices_published = pos 0;
  gpus_occupied = pos 0;
  gpus_faulted = pos 0;
  mig_profiles_published = pos 0;
}

module _ (P : Platform) where
  -- A Node with what else its manifest says.
  pub record NodeManifest : Type 0 where
    pub node : Node P
    pub taints : List Taint
    pub node_info : NodeSystemInfo
    pub phase : Text

  pub data Object : Type 0 where
    model_object : GpuModel P → Object
    pool_object : GpuPool P → Object
    node_object : NodeManifest → Object

  -- The kind that the code writes into the TypeMeta, and the name.
  unfoldable pub kind_of : Object → Text
  kind_of (model_object m) = kind_gpu_model
  kind_of (pool_object p) = kind_gpu_pool
  kind_of (node_object n) = codes "Node"

  unfoldable pub name_of : Object → Text
  name_of (model_object m) = m.name
  name_of (pool_object p) = p.name
  name_of (node_object n) = n.node.name

  abbrev pub new_model : Text → GpuModelSpec P → GpuModel P
  new_model name spec = record { name = name; spec = spec }

  abbrev pub new_pool : Text → GpuPoolSpec P → GpuPool P
  new_pool name spec = record { name = name; generation = pos 0; spec = spec; status = new_status }
