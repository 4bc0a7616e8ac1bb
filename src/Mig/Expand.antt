-- ===== src/Mig/Expand.antt =====
-- internal/mig/expand.go: the MIG instances of dynamic partitioning, and the names that
-- partition.go shares.
pub mod Names
pub mod Ids
use ghostgpu.Base.{
  ℕ, ◌-◌, List, [], ◌∷◌, ◌++◌, map, flat_map, count_from, Text, codes, if◌then◌else◌,
}
use ghostgpu.Base.Int.{ℤ, pos, pos_part, ltb_ℤ, rem, add32, mul32, sub32}
use ghostgpu.Text.{format_int, replace_all}
use ghostgpu.Platform.{Platform}
use ghostgpu.Mig.{Profile, Table}

-- The profile of an instance is copied field by field in the source, so it is the same value.
pub record Instance (P : Platform) : Type 0 where
  pub gpu_index : ℤ
  pub device_name : Text
  pub counter_set : Text
  pub instance_id : ℤ
  pub profile : Profile P

unfoldable pub device_name : ℤ → Text → Text
unfolding format_int replace_all
device_name gpu profile = codes "gpu-" ++ (format_int gpu ++ (b'-' ∷ replace_all b'.' b'-' profile))

unfoldable pub counter_set_name : ℤ → Text
unfolding format_int
counter_set_name gpu = codes "gpu-" ++ format_int gpu

-- The loop over the characters of the name, in `int32`.
unfoldable pub hash : ℤ → Text → ℤ
hash sum [] = sum
hash sum (r ∷ profile) = hash (add32 (mul32 sum (pos 31)) (pos r)) profile

-- `if sum < 0 { sum = -sum }; return sum % 100`
unfoldable pub bounded_id : ℤ → ℤ
unfolding rem
bounded_id sum = rem (if ltb_ℤ sum (pos 0) then sub32 (pos 0) sum else sum) (pos 100)

-- The GPU index is accepted and unused.
unfoldable pub instance_id : ℤ → Text → ℤ
unfolding hash bounded_id
instance_id gpu profile = bounded_id (hash (pos 0) profile)

module _ (P : Platform) where
  unfoldable pub instance_of : ℤ → Profile P → Instance P
  unfolding device_name counter_set_name instance_id
  instance_of gpu p = record {
    gpu_index = gpu;
    device_name = device_name gpu p.name;
    counter_set = counter_set_name gpu;
    instance_id = instance_id gpu p.name;
    profile = p;
  }

  unfoldable pub expand : ℤ → Table P → List (Instance P)
  unfolding instance_of
  expand gpus_per_node table =
      flat_map (λ gpu. map (instance_of (pos gpu)) table.profiles)
        (count_from 0 (pos_part gpus_per_node))
