-- ===== src/Cli/Capture/Shapes/Gpus.antt =====
-- internal/cli/capture.go: the number of GPUs that `physicalGPUs` finds.
use mathlib.Core.Path.{subst}
use ghostgpu.Base.{
  ◌∷◌, [], length, ◌^◌, Bool, true, false, Option, none, some, List, ◌≡◌, arith, if◌then◌else◌,
  Bool-cases, inl, inr, ok, Option-cases, Text,
}
use ghostgpu.Base.Int.{ℤ, pos, negsuc, ◌+ℤ◌, ltb_ℤ, ◌<ℤ◌, IsInt32, wrap32-IsInt32, add32}
use ghostgpu.Text.{parse_int}
use ghostgpu.Text.Decimal.{parse_int-lt}
use ghostgpu.Platform.{Platform}
use ghostgpu.Api.{Labels, Node, ResourceSlice}
use ghostgpu.Gpu.Labels.{label_gpu_count}
use ghostgpu.Cli.Names.{narrow}
use ghostgpu.Cli.Capture.{CaptureOptions}
use ghostgpu.Cli.Capture.Published.{count_devices, count_devices_from, count_counter_sets}
use ghostgpu.Cli.Capture.Shapes.{
  positive, or_else, whole_gpus, gpus_or_error, physical_gpus, label_of,
}

-- A positive int32.
abbrev pub IsCount : ℤ → Type 0
IsCount n = (pos 0 <ℤ n) × IsInt32 n

abbrev OnSome : Option ℤ → Type 0
OnSome none = Unit
OnSome (some n) = IsCount n

positive-IsCount : (n : ℤ) → IsInt32 n → OnSome (positive (some n))
positive-IsCount n h = elim (Bool-cases (ltb_ℤ (pos 0) n)) [
  | inl yes_pos ↦ let p : pos 0 <ℤ n = ground arith in rw yes_pos (p, h)
  | inr not_pos ↦ rw not_pos tt
]

-- A label that reads as an int32 has the upper bound at once, and a count has no other.
positive_read : (text : Text) → OnSome (positive (parse_int (2 ^ 31) text))
positive_read text = elim (Option-cases (parse_int (2 ^ 31) text)) [
  | inl unread ↦ rw unread tt
  | inr (pos n, e) ↦
      let lt = parse_int-lt (2 ^ 31) text (pos n) (ground arith) e in
      rw e (positive-IsCount (pos n) (ground arith))
  | inr (negsuc n, e) ↦ let no : ltb_ℤ (pos 0) (negsuc n) ≡ false = ground arith in rw (e, no) tt
]

or_else-IsCount : (o p : Option ℤ) → OnSome o → OnSome p → OnSome (or_else o p)
or_else-IsCount none p h k = k
or_else-IsCount (some n) p h k = h

module _ (P : Platform) where
  count_devices_from-IsInt32 :
      (published : List (ResourceSlice P)) (n : ℤ)
      → IsInt32 n
      → IsInt32 (count_devices_from P published n)
  unfolding count_devices_from
  count_devices_from-IsInt32 [] n h = h
  count_devices_from-IsInt32 (s ∷ published) n h =
      count_devices_from-IsInt32 published (add32 n (narrow (length s.spec.devices)))
        (wrap32-IsInt32 (n +ℤ narrow (length s.spec.devices)))

  whole_gpus-OnSome :
      (labels : Labels) (published : List (ResourceSlice P))
      → OnSome (whole_gpus P labels published)
  unfolding whole_gpus count_devices
  whole_gpus-OnSome labels published =
      let text = label_of P label_gpu_count labels in
      or_else-IsCount (positive (parse_int (2 ^ 31) text))
        (positive (some (count_devices P published))) (positive_read text)
        (positive-IsCount (count_devices P published)
          (count_devices_from-IsInt32 published (pos 0) (ground arith)))

  count_counter_sets-IsInt32 :
      (published : List (ResourceSlice P)) → IsInt32 (count_counter_sets P published)
  unfolding count_counter_sets narrow
  count_counter_sets-IsInt32 published = ground arith

  gpus_or_error-ok :
      (name : Text) (partitioned : Bool) (o : Option ℤ) (n : ℤ)
      → gpus_or_error P name partitioned o ≡ ok n
      → o ≡ some n
  gpus_or_error-ok name partitioned (some m) n e = ground arith
  gpus_or_error-ok name true none n e = cc
  gpus_or_error-ok name false none n e = cc

  unless_partitioned :
      (partitioned : Bool) (o : Option ℤ) → OnSome o → OnSome (if partitioned then none else o)
  unless_partitioned true o h = tt
  unless_partitioned false o h = h

  -- However a node's number of GPUs is found, from its counter sets, its label, its devices or the
  -- option, it is a positive int32 if the option is an int32, and it is the number of counter sets if
  -- there is any.
  pub physical_gpus-IsCount :
      (node : Node P) (published : List (ResourceSlice P)) (partitioned : Bool)
      (opts : CaptureOptions)
      → (n : ℤ) → IsInt32 opts.gpus_per_node
      → physical_gpus P node published partitioned opts ≡ ok n
      → IsCount n × (pos 0 <ℤ count_counter_sets P published → n ≡ count_counter_sets P published)
  unfolding physical_gpus
  physical_gpus-IsCount node published partitioned opts n h e =
      let sets = count_counter_sets P published in
      let whole = if partitioned then none else whole_gpus P node.labels published in
      let later = or_else whole (positive (some opts.gpus_per_node)) in
      let found =
        gpus_or_error-ok node.name partitioned (or_else (positive (some sets)) later) n e in
      (
        subst OnSome found (
            or_else-IsCount (positive (some sets)) later
              (positive-IsCount sets (count_counter_sets-IsInt32 published))
              (or_else-IsCount whole (positive (some opts.gpus_per_node))
                (unless_partitioned partitioned (whole_gpus P node.labels published)
                  (whole_gpus-OnSome node.labels published))
                (positive-IsCount opts.gpus_per_node h))),
        λ some_set. ground arith,
      )
