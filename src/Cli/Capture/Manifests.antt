-- ===== src/Cli/Capture/Manifests.antt =====
-- internal/cli/capture.go: the manifests of the grouped shapes (`buildModel`, `buildPool`,
-- `buildNodes`, `assemble`).
use ghostgpu.Base.{
  ℕ, suc, ◌+◌, Bool, Option, none, some, List, [], ◌∷◌, ◌++◌, map, if◌then◌else◌, ltb, Text, codes,
  text_eq, ◌==◌,
}
use ghostgpu.Base.Dict.{Dict, lookup, get_or, insert}
use ghostgpu.Base.Int.{pos}
use ghostgpu.Text.{format_int}
use ghostgpu.Text.Split.{trim_suffix}
use ghostgpu.Platform.{Platform}
use ghostgpu.Api.{GpuModel, GpuPool, ResourceList, sharing_mode_mig}
use ghostgpu.Cli.Names.{base_name, pick}
use ghostgpu.Cli.Objects.{
  Taint, NodeSystemInfo, no_schedule, NodeManifest, Object, model_object, pool_object, node_object,
  new_model, new_pool,
}
use ghostgpu.Cli.Capture.{CaptureOptions, NodeShape, ShapeGroup, model_key, shape_label}

abbrev pub kwok_node_annotation : Text
kwok_node_annotation = codes "kwok.x-k8s.io/node"

abbrev pub kwok_node_value : Text
kwok_node_value = codes "fake"

abbrev pub ttl_annotation : Text
ttl_annotation = codes "node.alpha.kubernetes.io/ttl"

abbrev pub node_type_label : Text
node_type_label = codes "type"

abbrev pub node_type_kwok : Text
node_type_kwok = codes "kwok"

abbrev pub kwok_taint : Taint
kwok_taint = record { key = kwok_node_annotation; value = kwok_node_value; effect = no_schedule }

abbrev pub fake_info : NodeSystemInfo
fake_info = record {
  architecture = codes "amd64";
  container_runtime_version = codes "containerd://fake";
  kubelet_version = codes "fake";
  operating_system = codes "linux";
}

module _ (P : Platform) where
  unfoldable pub build_model : Text → NodeShape P → GpuModel P
  build_model name shape = new_model P name (record {
    vendor = codes "nvidia";
    product_name = shape.product;
    memory = shape.memory;
    compute_capability = shape.compute;
    mig_profiles = shape.profiles;
    mig_budget = none;
  })

  unfoldable pub build_pool : Text → Text → NodeShape P → GpuPool P
  build_pool name model_ref shape = new_pool P name (record {
    model_ref = model_ref;
    node_selector = (shape_label, name) ∷ [];
    gpus_per_node = shape.gpus;
    advertise = record { dra = none; extended_resource = none };
    mig_partition = shape.partition;
    faults = [];
    utilization = none;
    occupancy = [];
    sharing_mode = shape.sharing;
    topology = shape.topology;
  })

  -- One node of a pool.
  unfoldable pub build_node : Text → Text → ResourceList P → NodeManifest P
  build_node pool_name name capacity = record {
    node = record {
      name = name;
      labels =
          (codes "kubernetes.io/arch", codes "amd64")
          ∷ (codes "kubernetes.io/os", codes "linux")
          ∷ (codes "kubernetes.io/hostname", name)
          ∷ (codes "kubernetes.io/role", codes "agent")
          ∷ (node_type_label, node_type_kwok)
          ∷ (shape_label, pool_name)
          ∷ [];
      annotations = (kwok_node_annotation, kwok_node_value) ∷ (ttl_annotation, codes "0") ∷ [];
      capacity = capacity;
      allocatable = capacity;
    };
    taints = kwok_taint ∷ [];
    node_info = fake_info;
    phase = codes "Running";
  }

  -- The loop over the capacities, from index `i` up.
  unfoldable pub build_nodes_from : Text → Text → ℕ → List (ResourceList P) → List (NodeManifest P)
  unfolding build_node format_int
  build_nodes_from pool_name prefix i [] = []
  build_nodes_from pool_name prefix i (capacity ∷ capacities) =
      build_node pool_name (prefix ++ (b'-' ∷ format_int (pos i))) capacity
      ∷ build_nodes_from pool_name prefix (suc i) capacities

  unfoldable pub build_nodes : Text → List (ResourceList P) → List (NodeManifest P)
  unfolding build_nodes_from trim_suffix
  build_nodes pool_name capacities =
      build_nodes_from pool_name (trim_suffix (codes "-pool") pool_name) 0 capacities

  -- `shapesPerModel[modelKey]++`, over the groups in order.
  unfoldable pub count_shapes : List (ShapeGroup P) → Dict Text ℕ → Dict Text ℕ
  unfolding model_key insert lookup
  count_shapes [] counts = counts
  count_shapes (g ∷ groups) counts =
      count_shapes groups
        (insert (model_key P g.shape) (get_or (model_key P g.shape) counts 0 + 1) counts)

  -- What the loop of `assemble` carries: `modelNames`, the two namers, and the three lists.
  pub record Assembly : Type 0 where
    pub model_names : Dict Text Text
    pub model_namer : List Text
    pub pool_namer : List Text
    pub models : List (GpuModel P)
    pub pools : List (GpuPool P)
    pub simulated : List (NodeManifest P)

  abbrev pub nothing_assembled : Assembly
  nothing_assembled = record {
    model_names = [];
    model_namer = [];
    pool_namer = [];
    models = [];
    pools = [];
    simulated = [];
  }

  -- `name, built := modelNames[modelKey]`: the model's name, and the assembly with the model.
  abbrev pub with_model : Option Text → NodeShape P → Assembly → Text × Assembly
  with_model (some name) shape a = (name, a)
  with_model none shape a =
      let (name, taken) = pick a.model_namer (base_name shape.product) in
      (
        name,
        record a {
          model_names = insert (model_key P shape) name a.model_names;
          model_namer = taken;
          models = a.models ++ (build_model name shape ∷ []);
        },
      )

  unfoldable pub pool_base : Text → Bool → NodeShape P → Text
  unfolding format_int
  pool_base name shared shape =
      if shared
      then name
        ++ (b'-'
            ∷ (format_int shape.gpus
                ++ (codes "gpu"
                    ++ (if shape.sharing == sharing_mode_mig then codes "-mig" else []))))
      else name ++ codes "-pool"

  abbrev pub with_pool :
      CaptureOptions → Text → Text → ShapeGroup P → List Text → Assembly → Assembly
  with_pool opts pool_name name g taken a = record a {
    pool_namer = taken;
    pools = a.pools ++ (build_pool pool_name name g.shape ∷ []);
    simulated = a.simulated ++ (if opts.emit_nodes then build_nodes pool_name g.capacities else []);
  }

  -- The body of the loop.
  unfoldable pub assemble_group : Dict Text ℕ → CaptureOptions → ShapeGroup P → Assembly → Assembly
  unfolding lookup insert model_key base_name pick build_model build_pool build_nodes pool_base
  assemble_group counts opts g a =
      let key = model_key P g.shape in
      let (name, named) = with_model (lookup key a.model_names) g.shape a in
      let (pool_name, taken) =
        pick named.pool_namer (pool_base name (ltb 1 (get_or key counts 0)) g.shape) in
      with_pool opts pool_name name g taken named

  unfoldable pub assemble_groups :
      Dict Text ℕ → CaptureOptions → List (ShapeGroup P) → Assembly → Assembly
  unfolding assemble_group
  assemble_groups counts opts [] a = a
  assemble_groups counts opts (g ∷ groups) a =
      assemble_groups counts opts groups (assemble_group counts opts g a)

  abbrev pub objects_of : Assembly → List (Object P)
  objects_of a =
      map model_object a.models ++ (map pool_object a.pools ++ map node_object a.simulated)

  -- `assemble` on the groups in the order of their keys.
  unfoldable pub assemble : List (ShapeGroup P) → CaptureOptions → List (Object P)
  unfolding assemble_groups count_shapes
  assemble groups opts =
      objects_of (assemble_groups (count_shapes groups []) opts groups nothing_assembled)
