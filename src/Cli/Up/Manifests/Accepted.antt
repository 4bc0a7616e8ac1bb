-- ===== src/Cli/Up/Manifests/Accepted.antt =====
-- What `ghostgpu up` accepts, in the eyes of the operator.
use ghostgpu.Base.{List, ◌≡◌, arith, Result, ok, >>=-eq-ok, >>-eq-ok, Text, text_eq}
use ghostgpu.Platform.{Platform}
use ghostgpu.Api.{MigPartitionEntry, MigProfileSpec, OccupancyEntry, GpuModel, GpuPool, Labels}
use ghostgpu.Cli.Up.{UpOptions, parse_selector}
use ghostgpu.Cli.Up.Manifests.{
  Checks, invalid_selector, wrapped, checked_fields, checked_memory, checked_mode, checked_mig,
  checked_occupancy, up_model, up_pool, build_manifests,
}

ok_pair :
    {E A B : Type 0} (a c : A) (b d : B)
    → ◌≡◌ {A = Result E (A × B)} (ok (a, b)) (ok (c, d))
    → (c ≡ a) × (d ≡ b)
ok_pair a c b d h = ground arith

module _ (P : Platform) (K : Checks P) where
  -- Accepted options, step by step.
  pub record IsAccepted (opts : UpOptions) (model : GpuModel P) (pool : GpuPool P) : Type 0 where
    pub memory : P.Quantity
    pub mode : Text
    pub parts : List (MigProfileSpec P) × List MigPartitionEntry
    pub occupancy : List OccupancyEntry
    pub selector : Labels
    pub fields_lem : checked_fields P K opts ≡ ok tt
    pub memory_lem : checked_memory P K opts.memory ≡ ok memory
    pub mode_lem : checked_mode P K opts.sharing_mode ≡ ok mode
    pub parts_lem : checked_mig P K mode opts ≡ ok parts
    pub occupancy_lem : checked_occupancy P K opts ≡ ok occupancy
    pub model_lem : model ≡ up_model P K opts memory parts.0
    pub pool_lem : pool ≡ up_pool P K opts mode parts.1 occupancy selector

  pub build_manifests-IsAccepted :
      (opts : UpOptions) (model : GpuModel P) (pool : GpuPool P)
      → build_manifests P K opts ≡ ok (model, pool)
      → IsAccepted opts model pool
  unfolding build_manifests
  build_manifests-IsAccepted opts model pool h =
      let (a, e0, h0) = >>-eq-ok (checked_fields P K opts) _ h in
      let (memory, e1, h1) = >>=-eq-ok (checked_memory P K opts.memory) _ h0 in
      let (mode, e2, h2) = >>=-eq-ok (checked_mode P K opts.sharing_mode) _ h1 in
      let (parts, e3, h3) = >>=-eq-ok (checked_mig P K mode opts) _ h2 in
      let (occupancy, e4, h4) = >>=-eq-ok (checked_occupancy P K opts) _ h3 in
      let (selector, e5, h5) =
        >>=-eq-ok (wrapped invalid_selector (parse_selector opts.node_selector)) _ h4 in
      let same =
        ok_pair (up_model P K opts memory parts.0) model
          (up_pool P K opts mode parts.1 occupancy selector) pool h5 in
      record {
        memory = memory;
        mode = mode;
        parts = parts;
        occupancy = occupancy;
        selector = selector;
        fields_lem = e0;
        memory_lem = e1;
        mode_lem = e2;
        parts_lem = e3;
        occupancy_lem = e4;
        model_lem = same.0;
        pool_lem = same.1;
      }
