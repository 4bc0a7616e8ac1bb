-- ===== src/Tests/OfMig.antt =====
-- The theorems on MIG at concrete names, tables and layouts.
use mathlib.Core.List.Perm
use ghostgpu.Base.{
  ◌*◌, ◌^◌, ◌<◌, some, none, [], ◌∷◌, ◌≡◌, ◌≢◌, ◌↔◌, refl, inl, inr, arith, ok, codes, text_eq, All,
  Distinct, ◌∙◌,
}
use ghostgpu.Base.Int.{pos, ◌≤ℤ◌, ◌<ℤ◌}
use ghostgpu.Text.{Lacks, contains}
use ghostgpu.Platform.{binary_si}
use ghostgpu.Platform.Memory.{memory, memory-IsLawful}
use ghostgpu.Mig.Parse.{parse_profile_name, profile_of}
use ghostgpu.Mig.Parse.RoundTrip.{
  profile_name, parse_profile_name_wrapped, parse_profile_name-profile_name, Describes,
  parse_profile_name-Describes, memory-eq-named_iff,
}
use ghostgpu.Mig.Tables.{profiles_for, normalize, a100_40}
use ghostgpu.Mig.Tables.Lookup.{table_of, profiles_for-eq_table_of}
use ghostgpu.Mig.Tables.Shapes.{AgreesWithNames, profiles_for-AgreesWithNames}
use ghostgpu.Mig.Expand.{hash, instance_id}
use ghostgpu.Mig.Expand.Names.{profile_names, device_names}
use ghostgpu.Mig.Expand.Ids.{least32, instance_id_range_iff}
use ghostgpu.Mig.Resolve.{resolve, base_table}
use ghostgpu.Mig.Resolve.Laws.{IsUsable, resolve-ok_iff}
use ghostgpu.Mig.Partition.{validate_partition, expand_partitioned}
use ghostgpu.Mig.Partition.Validate.{demand, FitsCard, validate_partition-none_iff}
use ghostgpu.Mig.Partition.Layout.Names.{expand_partitioned-Distinct}
use ghostgpu.Mig.Partition.Layout.Counts.{expand_partitioned-perm}
use ghostgpu.Tests.Samples.{entry, layout, model, table}

table-Distinct : Distinct (profile_names memory table)
table-Distinct = (λ i. elim i [ inl e ↦ differ e | inr i ↦ i ], (λ i. i, tt))
  where
    differ : codes "1g.5gb" ≢ codes "3g.20gb"
    differ e = ground arith

table-Lacks : All (Lacks b'-') (profile_names memory table)
table-Lacks = ground arith

validate_partition-none_iff_example :
    (validate_partition memory layout table ≡ none)
    ↔ FitsCard memory memory-IsLawful table.budget
        (demand memory memory-IsLawful table.profiles layout)
validate_partition-none_iff_example =
    validate_partition-none_iff memory memory-IsLawful table (entry (codes "3g.20gb") 1)
      (entry (codes "1g.5gb") 2 ∷ []) table-Distinct (ground arith) (ground arith) (omega arith)

resolve-ok_iff_example :
    (resolve memory model ≡ ok table)
    ↔ ((table ≡ base_table memory model) × IsUsable memory memory-IsLawful table)
resolve-ok_iff_example = resolve-ok_iff memory memory-IsLawful model table

parse_profile_name-profile_name_example :
    parse_profile_name memory (profile_name 3 20)
    ≡ some (record {
      name = profile_name 3 20;
      slices = pos 3;
      memory = memory.new_quantity (pos (20 * 2 ^ 30)) binary_si;
    })
parse_profile_name-profile_name_example =
    parse_profile_name-profile_name memory 3 20 (omega arith) (omega arith) (omega arith)
      (omega arith)

three_twenty :
    parse_profile_name memory (profile_name 3 20)
    ≡ some (profile_of memory (profile_name 3 20) (pos 3) (pos 20))
three_twenty =
    parse_profile_name_wrapped memory 3 20 (omega arith) (omega arith) (omega arith) (omega arith)

parse_profile_name-Describes_example :
    Describes memory (profile_name 3 20) (profile_of memory (profile_name 3 20) (pos 3) (pos 20))
parse_profile_name-Describes_example =
    parse_profile_name-Describes memory (profile_name 3 20)
      (profile_of memory (profile_name 3 20) (pos 3) (pos 20)) three_twenty

memory-eq-named_iff_example :
    (memory-IsLawful.amount (profile_of memory (profile_name 3 20) (pos 3) (pos 20)).memory
      ≡ pos (20 * 2 ^ 30 * 10 ^ 9))
    ↔ (20 < 2 ^ 33)
memory-eq-named_iff_example =
    memory-eq-named_iff memory memory-IsLawful 3 20
      (profile_of memory (profile_name 3 20) (pos 3) (pos 20)) (omega arith) (omega arith)
      (omega arith) (omega arith) three_twenty

profiles_for-eq_table_of_example :
    profiles_for memory (codes "NVIDIA A100-SXM4-40GB")
    ≡ table_of memory (normalize (codes "NVIDIA A100-SXM4-40GB"))
profiles_for-eq_table_of_example = profiles_for-eq_table_of memory (codes "NVIDIA A100-SXM4-40GB")

a100-found : profiles_for memory (codes "NVIDIA A100-SXM4-40GB") ≡ some (a100_40 memory)
unfolding normalize contains
a100-found = profiles_for-eq_table_of memory (codes "NVIDIA A100-SXM4-40GB") ∙ refl

profiles_for-AgreesWithNames_example : AgreesWithNames memory memory-IsLawful (a100_40 memory)
profiles_for-AgreesWithNames_example =
    profiles_for-AgreesWithNames memory memory-IsLawful (codes "NVIDIA A100-SXM4-40GB")
      (a100_40 memory) a100-found

expand_partitioned-Distinct_example :
    Distinct (device_names memory (expand_partitioned memory (pos 2) table layout))
expand_partitioned-Distinct_example =
    expand_partitioned-Distinct memory (pos 2) table layout table-Distinct table-Lacks

expand_partitioned-perm_example :
    expand_partitioned memory (pos 2) table layout
    ≡ expand_partitioned memory
        (pos 2)
        table
        (entry (codes "1g.5gb") 2 ∷ entry (codes "3g.20gb") 1 ∷ [])
expand_partitioned-perm_example =
    expand_partitioned-perm memory (pos 2) table layout
      (entry (codes "1g.5gb") 2 ∷ entry (codes "3g.20gb") 1 ∷ [])
      (Perm.swap (entry (codes "1g.5gb") 2) (entry (codes "3g.20gb") 1) [])

instance_id_range_iff_example :
    ((pos 0 ≤ℤ instance_id (pos 1) (codes "3g.20gb"))
      × (instance_id (pos 1) (codes "3g.20gb") <ℤ pos 100))
    ↔ (hash (pos 0) (codes "3g.20gb") ≢ least32)
instance_id_range_iff_example = instance_id_range_iff (pos 1) (codes "3g.20gb")
