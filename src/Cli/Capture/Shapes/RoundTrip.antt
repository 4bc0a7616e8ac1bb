-- ===== src/Cli/Capture/Shapes/RoundTrip.antt =====
-- internal/cli/capture.go on the labels of internal/gpu/nodelabels.go.
use mathlib.Core.Path.{subst}
use ghostgpu.Base.{
  ℕ, ◌^◌, ◌*◌, ◌/◌, ◌≤◌, ◌<◌, true, false, some, List, [], ◌∷◌, ◌++◌, ◌≡◌, refl, sym, ◌∙◌, ap,
  arith, ok, Text, codes, text_eq, text_dec, ◌==◌,
}
use ghostgpu.Base.Dict.{lookup, insert}
use ghostgpu.Base.Int.{ℤ, pos, quot, mul64, leb_ℤ, ltb_ℤ, wrap64, wrap64_id, ◌*ℤ◌}
use ghostgpu.Text.{format_int, cut, decimal, Lacks}
use ghostgpu.Text.Cut.{cut-append}
use ghostgpu.Text.Decimal.{parse_int-decimal}
use ghostgpu.Platform.{Platform, binary_si}
use ghostgpu.Api.{Labels, Node, ResourceSlice, GpuPool, GpuModel, mig_enabled}
use ghostgpu.Gpu.Labels.{
  node_labels, label_gpu_present, label_gpu_count, label_gpu_product, label_gpu_memory,
  label_compute_major, label_compute_minor, label_mig_strategy,
}
use ghostgpu.Cli.Up.{is_compute_capability}
use ghostgpu.Cli.Capture.{CaptureOptions}
use ghostgpu.Cli.Capture.Published.{count_counter_sets, topology_of}
use ghostgpu.Cli.Capture.Labels.{gpu_memory, capability_of, compute_capability, mig_capacity}
use ghostgpu.Cli.Capture.Shapes.{
  Hardware, whole_shape, hardware_of, whole_gpus, physical_gpus, is_partitioned, strategy_warnings,
  shape_from, shape_of, label_of,
}

module _ (P : Platform) where
  -- The labels that the operator gives a node of whole GPUs, in the words of the pool and the model.
  record IsLabelledFor (labels : Labels) (gpus mib : ℕ) (product major minor : Text) : Type 0 where
    present : label_of P label_gpu_present labels ≡ codes "true"
    count : label_of P label_gpu_count labels ≡ decimal gpus
    named : label_of P label_gpu_product labels ≡ product
    memory : label_of P label_gpu_memory labels ≡ decimal mib
    major_lem : label_of P label_compute_major labels ≡ major
    minor_lem : label_of P label_compute_minor labels ≡ minor
    strategy : label_of P label_mig_strategy labels ≡ []

  node_labels-IsLabelledFor :
      (pool : GpuPool P) (model : GpuModel P) (gpus bytes : ℕ) (major minor : Text)
      → mig_enabled P pool.spec ≡ false
      → pool.spec.gpus_per_node ≡ pos gpus
      → P.quantity_value model.spec.memory ≡ pos bytes
      → cut b'.' model.spec.compute_capability ≡ some (major, minor)
      → IsLabelledFor
          (node_labels P pool model)
          gpus
          (bytes / 2 ^ 20)
          model.spec.product_name
          major
          minor
  unfolding node_labels lookup insert text_eq text_dec format_int quot
  node_labels-IsLabelledFor pool model gpus bytes major minor whole g b c = record {
    present = rw (whole, c) refl;
    count = rw (whole, c, g) refl;
    named = rw (whole, c) refl;
    memory = rw (whole, c, b) refl;
    major_lem = rw (whole, c) refl;
    minor_lem = rw (whole, c) refl;
    strategy = rw (whole, c) refl;
  }

  -- What the operator publishes as labels, for a pool of whole GPUs, can be read back: `gpus` GPUs of
  -- `bytes` bytes, with the capability `major.minor`.
  pub record IsReadable (pool : GpuPool P) (model : GpuModel P) (gpus bytes : ℕ)
      (major minor : Text) : Type 0 where
    pub whole : mig_enabled P pool.spec ≡ false
    pub gpus_lem : pool.spec.gpus_per_node ≡ pos gpus
    pub some_gpu : 0 < gpus
    pub gpus_lt : gpus < 2 ^ 31
    pub product_lem : (model.spec.product_name == []) ≡ false
    pub memory_lem : P.quantity_value model.spec.memory ≡ pos bytes
    pub some_memory : 2 ^ 20 ≤ bytes
    pub memory_lt : bytes < 2 ^ 63
    pub capability_lem : model.spec.compute_capability ≡ major ++ (b'.' ∷ minor)
    pub before_dot : Lacks b'.' major
    pub is_capability : is_compute_capability model.spec.compute_capability ≡ true
    pub some_major : (major == []) ≡ false
    pub some_minor : (minor == []) ≡ false

  mul_pos : (a b : ℕ) → pos a *ℤ pos b ≡ pos (a * b)
  unfolding ◌*ℤ◌
  mul_pos a b = ground arith

  mib_bytes :
      (mib : ℕ)
      → mib * 2 ^ 20 < 2 ^ 63
      → mul64 (mul64 (pos mib) (pos 1024)) (pos 1024) ≡ pos (mib * 2 ^ 20)
  mib_bytes mib h =
      let once = ap wrap64 (mul_pos mib 1024) ∙ wrap64_id (pos (mib * 1024)) (ground arith) in
      let twice =
        ap wrap64 (mul_pos (mib * 1024) 1024)
        ∙ wrap64_id (pos (mib * 1024 * 1024)) (ground arith) in
      let whole : mib * 1024 * 1024 ≡ mib * 2 ^ 20 = omega arith in rw (once, twice, whole) refl

  read_memory :
      (labels : Labels) (bytes : ℕ)
      → label_of P label_gpu_memory labels ≡ decimal (bytes / 2 ^ 20)
      → 2 ^ 20 ≤ bytes
      → bytes < 2 ^ 63
      → gpu_memory P labels ≡ some (P.new_quantity (pos (bytes / 2 ^ 20 * 2 ^ 20)) binary_si)
  unfolding gpu_memory
  read_memory labels bytes e h k =
      let mib = bytes / 2 ^ 20 in
      let read = parse_int-decimal (2 ^ 63) mib (ground arith) in
      let some_mib : leb_ℤ (pos mib) (pos 0) ≡ false = ground arith in
      rw (e, read, some_mib, mib_bytes mib (ground arith)) refl

  capability_of_lem :
      (major minor : Text)
      → is_compute_capability (major ++ (b'.' ∷ minor)) ≡ true
      → (major == []) ≡ false
      → (minor == []) ≡ false
      → capability_of major minor ≡ some (major ++ (b'.' ∷ minor))
  unfolding capability_of
  capability_of_lem major minor c a b = rw (a, b, c) refl

  read_capability :
      (labels : Labels) (major minor : Text)
      → label_of P label_compute_major labels ≡ major
      → label_of P label_compute_minor labels ≡ minor
      → compute_capability labels ≡ capability_of major minor
  unfolding compute_capability
  read_capability labels major minor e f = rw (e, f) refl

  read_hardware :
      (labels : Labels) (model : GpuModel P) (gpus bytes : ℕ) (major minor : Text)
      → IsLabelledFor labels gpus (bytes / 2 ^ 20) model.spec.product_name major minor
      → 2 ^ 20 ≤ bytes
      → bytes < 2 ^ 63
      → (model.spec.product_name == []) ≡ false
      → is_compute_capability (major ++ (b'.' ∷ minor)) ≡ true
      → (major == []) ≡ false
      → (minor == []) ≡ false
      → hardware_of P labels
        ≡ ok (record {
          product = model.spec.product_name;
          memory = P.new_quantity (pos (bytes / 2 ^ 20 * 2 ^ 20)) binary_si;
          compute = major ++ (b'.' ∷ minor);
        })
  unfolding hardware_of
  read_hardware labels model gpus bytes major minor l h k p c a b =
      rw
        (
          l.named,
          p,
          read_memory labels bytes l.memory h k,
          read_capability labels major minor l.major_lem l.minor_lem,
          capability_of_lem major minor c a b,
          l.named,
        )
        refl

  read_gpus :
      (node : Node P) (published : List (ResourceSlice P)) (opts : CaptureOptions) (gpus : ℕ)
      → label_of P label_gpu_count node.labels ≡ decimal gpus
      → 0 < gpus
      → gpus < 2 ^ 31
      → count_counter_sets P published ≡ pos 0
      → physical_gpus P node published false opts ≡ ok (pos gpus)
  unfolding physical_gpus whole_gpus
  read_gpus node published opts gpus l h k none_set =
      let positive_lem : ltb_ℤ (pos 0) (pos gpus) ≡ true = ground arith in
      rw (none_set, l, parse_int-decimal (2 ^ 31) gpus k, positive_lem) refl

  is_whole :
      (node : Node P)
      → label_of P label_mig_strategy node.labels ≡ []
      → mig_capacity P node.capacity ≡ []
      → is_partitioned P node ≡ false
  unfolding is_partitioned text_eq text_dec
  is_whole node l no_mig = rw (l, no_mig) refl

  no_strategy_warning :
      (node : Node P)
      → label_of P label_mig_strategy node.labels ≡ []
      → strategy_warnings P node ≡ []
  unfolding text_eq text_dec
  no_strategy_warning node l = rw l refl

  shape_from_lem :
      (node : Node P) (published : List (ResourceSlice P)) (opts : CaptureOptions)
      → (h : Hardware P) (gpus : ℤ) → is_partitioned P node ≡ false
      → physical_gpus P node published false opts ≡ ok gpus
      → strategy_warnings P node ≡ []
      → shape_from P node published opts h ≡ ok (some (whole_shape P h gpus published), [])
  unfolding shape_from
  shape_from_lem node published opts h gpus whole found quiet = rw (whole, found, quiet) refl

  -- Capture reads a simulated node of whole GPUs, one with the labels that the operator computes from
  -- the pool and the model, as what it simulates: the model's product, its capability, its memory in
  -- whole MiB and the pool's number of GPUs, unshared, with no warning. The node offers no MIG resource
  -- and no counter set; the pool has from 1 to 2^31 - 1 GPUs, and the model a product name, a valid
  -- capability, and memory of at least 1 MiB and less than 2^63 bytes.
  pub shape_of-node_labels :
      (node : Node P) (published : List (ResourceSlice P)) (opts : CaptureOptions)
      → (pool : GpuPool P) (model : GpuModel P) (gpus bytes : ℕ) (major minor : Text)
      → IsReadable pool model gpus bytes major minor
      → node.labels ≡ node_labels P pool model
      → mig_capacity P node.capacity ≡ []
      → count_counter_sets P published ≡ pos 0
      → shape_of P node published opts
        ≡ ok (
          some (record {
            product = model.spec.product_name;
            memory = P.new_quantity (pos (bytes / 2 ^ 20 * 2 ^ 20)) binary_si;
            compute = model.spec.compute_capability;
            gpus = pool.spec.gpus_per_node;
            sharing = codes "none";
            partition = [];
            topology = topology_of P published;
            profiles = [];
          }),
          [],
        )
  unfolding shape_of text_eq text_dec
  shape_of-node_labels node published opts pool model gpus bytes major minor r e no_mig no_sets =
      let c = ap (cut b'.') r.capability_lem ∙ cut-append b'.' major minor r.before_dot in
      let l =
        subst
          (λ labels. IsLabelledFor labels gpus (bytes / 2 ^ 20) model.spec.product_name major minor)
          (sym e)
          (node_labels-IsLabelledFor pool model gpus bytes major minor r.whole r.gpus_lem
            r.memory_lem c) in
      let is_one = subst (λ t. is_compute_capability t ≡ true) r.capability_lem r.is_capability in
      let read : Hardware P = record {
        product = model.spec.product_name;
        memory = P.new_quantity (pos (bytes / 2 ^ 20 * 2 ^ 20)) binary_si;
        compute = major ++ (b'.' ∷ minor);
      } in
      let hardware =
        read_hardware node.labels model gpus bytes major minor l r.some_memory r.memory_lt
          r.product_lem is_one r.some_major r.some_minor in
      let found = read_gpus node published opts gpus l.count r.some_gpu r.gpus_lt no_sets in
      let quiet = no_strategy_warning node l.strategy in
      rw (l.present, hardware, r.capability_lem, r.gpus_lem)
        (shape_from_lem node published opts read (pos gpus) (is_whole node l.strategy no_mig) found
          quiet)
