-- ===== src/Tests/Samples.antt =====
-- A pool, a model, a node and a server, for the tests.
use ghostgpu.Base.{ℕ, ◌*◌, ◌^◌, true, none, some, List, [], ◌∷◌, ok, Text, codes}
use ghostgpu.Base.Int.{ℤ, pos}
use ghostgpu.Platform.Memory.{memory}
use ghostgpu.Api.{
  MigPartitionEntry, OccupancyEntry, FaultEntry, GpuPoolStatus, GpuPool, GpuModel, Node,
  ResourceSlice,
}
use ghostgpu.Mig.{Profile, Table}
use ghostgpu.Gpu.Faults.{NodeState}
use ghostgpu.Controller.Client.{Client}

abbrev pub gib : ℕ → ℤ
gib n = pos (n * 2 ^ 30 * 10 ^ 9)

abbrev pub no_status : GpuPoolStatus
no_status = record {
  conditions = [];
  observed_generation = pos 0;
  nodes_matched = pos 0;
  devices_published = pos 0;
  gpus_occupied = pos 0;
  gpus_faulted = pos 0;
  mig_profiles_published = pos 0;
}

-- A pool of two GPUs on each node.
abbrev pub pool_of :
    Text → List MigPartitionEntry → List OccupancyEntry → List FaultEntry → GpuPool memory
pool_of mode partition occupancy faults = record {
  name = codes "pool";
  generation = pos 3;
  spec = record {
    model_ref = codes "a100";
    node_selector = [];
    gpus_per_node = pos 2;
    advertise = record { dra = none; extended_resource = none };
    mig_partition = partition;
    faults = faults;
    utilization = none;
    occupancy = occupancy;
    sharing_mode = mode;
    topology = record { nvlink_domain_size = pos 2; numa_aware = true };
  };
  status = no_status;
}

abbrev pub busy_entry : ℕ → OccupancyEntry
busy_entry n = record { node_selector = []; busy_per_node = pos n }

abbrev pub fault_entry : ℕ → FaultEntry
fault_entry n = record { node_selector = []; gpus = pos n; effect = []; xid = pos 79 }

-- Whole GPUs, one of the two busy.
abbrev pub whole_pool : GpuPool memory
whole_pool = pool_of [] [] (busy_entry 1 ∷ []) (fault_entry 1 ∷ [])

abbrev pub entry : Text → ℕ → MigPartitionEntry
entry profile count = record { profile = profile; count = pos count }

abbrev pub layout : List MigPartitionEntry
layout = entry (codes "3g.20gb") 1 ∷ entry (codes "1g.5gb") 2 ∷ []

abbrev pub mig_pool : GpuPool memory
mig_pool = pool_of (codes "mig") layout [] []

abbrev pub model : GpuModel memory
model = record {
  name = codes "a100";
  spec = record {
    vendor = codes "NVIDIA";
    product_name = codes "A100-SXM4-40GB";
    memory = gib 40;
    compute_capability = codes "8.0";
    mig_profiles = [];
    mig_budget = none;
  };
}

abbrev pub small : Profile memory
small = record { name = codes "1g.5gb"; memory = gib 5; slices = pos 1 }

abbrev pub large : Profile memory
large = record { name = codes "3g.20gb"; memory = gib 20; slices = pos 3 }

abbrev pub table : Table memory
table = record {
  budget = record { memory = gib 40; slices = pos 7 };
  profiles = small ∷ large ∷ [];
}

abbrev pub state : NodeState
state = record { busy = pos 2; faulted = pos 1; effect = codes "Evict"; xid = pos 79 }

abbrev pub kwok_node : Node memory
kwok_node = record {
  name = codes "kwok-0";
  labels = [];
  annotations = (codes "kwok.x-k8s.io/node", codes "fake") ∷ [];
  capacity = (codes "cpu", gib 1) ∷ (codes "nvidia.com/mig-2g.10gb", gib 1) ∷ [];
  allocatable = [];
}

abbrev pub real_node : Node memory
real_node = record {
  name = codes "worker-0";
  labels = [];
  annotations = [];
  capacity = [];
  allocatable = [];
}

-- A slice that an earlier run left.
abbrev pub old_slice : ResourceSlice memory
old_slice = record {
  name = codes "pool-gone";
  labels = (codes "ghostgpu.dev/pool", codes "pool") ∷ [];
  owner = some (codes "pool");
  spec = record {
    driver = codes "gpu.ghostgpu.dev";
    node_name = some (codes "gone");
    pool_name = codes "gone";
    generation = pos 1;
    resource_slice_count = pos 1;
    shared_counters = [];
    devices = [];
  };
}

-- A server that has one pool, the model, both nodes and the old slice, and accepts every write.
abbrev pub server : GpuPool memory → Client memory
server pool = record {
  Store = List (Node memory);
  get_pool = λ name store. ok pool;
  get_model = λ name store. ok model;
  list_pools = λ store. ok (pool ∷ []);
  list_nodes = λ selector store. ok store;
  list_slices = λ selector store. ok (old_slice ∷ []);
  perform = λ x store. (none, store);
  answer = λ node store. node;
  set_owner = λ owner slice. ok slice;
  set_condition = λ conditions c. c ∷ conditions;
}
