-- ===== src/Gpu/Resources/Keys.antt =====
-- internal/gpu/migresources.go: which extended resources a node advertises.
use ghostgpu.Base.{Bool, true, false, List, [], ◌∷◌, ◌≡◌, refl, arith, Text, text_eq, if◌then◌else◌}
use ghostgpu.Base.Dict.{Dict, keys, insert}
use ghostgpu.Base.Int.{ℤ, pos, leb_ℤ, mul64}
use ghostgpu.Platform.{Platform, decimal_si}
use ghostgpu.Api.{GpuPool, MigPartitionEntry, ResourceList, mig_enabled}
use ghostgpu.Mig.{Profile, Budget, Table}
use ghostgpu.Gpu.Faults.{NodeState}
use ghostgpu.Gpu.Resources.{
  mig_resources, mig_resource_name, per_card, node_resources_for, node_resources, node_allocatable,
}

module _ {V : Type 0} where
  keys-insert :
      (k : Text) (v w : V) (c d : Dict Text V)
      → keys c ≡ keys d
      → keys (insert k v c) ≡ keys (insert k w d)
  unfolding insert
  keys-insert k v w [] [] e = refl
  keys-insert k v w [] ((j, y) ∷ d) e = cc
  keys-insert k v w ((i, x) ∷ c) [] e = cc
  keys-insert k v w ((i, x) ∷ c) ((j, y) ∷ d) e = ground (arith, keys-insert k v w c d)

  keys-if :
      (t : Bool) (c d e f : Dict Text V)
      → keys c ≡ keys d
      → keys e ≡ keys f
      → keys (if t then c else e) ≡ keys (if t then d else f)
  keys-if true c d e f h k = h
  keys-if false c d e f h k = k

module _ (P : Platform) where
  mig_resources-keys :
      (declared : List MigPartitionEntry) (budget : Budget P) (a b : ℤ) (c d : ResourceList P)
      (ps : List (Profile P))
      → keys c ≡ keys d
      → keys (mig_resources P declared budget a c ps)
        ≡ keys (mig_resources P declared budget b d ps)
  unfolding mig_resources
  mig_resources-keys declared budget a b c d [] e = e
  mig_resources-keys declared budget a b c d (p ∷ ps) e =
      let n = per_card P declared budget p in
      let k = mig_resource_name p.name in
      mig_resources-keys declared budget a b
        (if leb_ℤ n (pos 0) then c else insert k (P.new_quantity (mul64 n a) decimal_si) c)
        (if leb_ℤ n (pos 0) then d else insert k (P.new_quantity (mul64 n b) decimal_si) d) ps
        (keys-if (leb_ℤ (per_card P declared budget p) (pos 0)) c d _ _ e
          (keys-insert (mig_resource_name p.name) _ _ c d e))

  node_resources_for-keys :
      (pool : GpuPool P) (table : Table P) (a b : ℤ)
      → keys (node_resources_for P pool table a) ≡ keys (node_resources_for P pool table b)
  unfolding node_resources_for
  node_resources_for-keys pool table a b =
      keys-if (mig_enabled P pool.spec) _ _ _ _
        (mig_resources-keys pool.spec.mig_partition table.budget a b _ _ table.profiles refl) refl

  -- A node's allocatable resources have the names of its capacity's, in the same order, whatever
  -- GPUs are busy or failed: a resource drops to a smaller number, never out of the list.
  pub node_allocatable-keys :
      (pool : GpuPool P) (table : Table P) (state : NodeState)
      → keys (node_allocatable P pool table state) ≡ keys (node_resources P pool table)
  unfolding node_allocatable node_resources
  node_allocatable-keys pool table state = node_resources_for-keys pool table _ _
