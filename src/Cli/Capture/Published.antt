-- ===== src/Cli/Capture/Published.antt =====
-- internal/cli/capture.go: what is read of the published ResourceSlices (`topologyOf`,
-- `indexSlicesByNode`, `countDevices`, `countCounterSets`). The loops over Go maps do not depend on
-- the order of the entries.
use ghostgpu.Base.{
  Bool, true, false, ◌||◌, Option, none, some, List, [], ◌∷◌, ◌++◌, length, if◌then◌else◌, Text,
  text_eq, ◌==◌, is_in,
}
use ghostgpu.Base.Dict.{Dict, lookup, get_or, insert}
use ghostgpu.Base.Int.{ℤ, pos, add32, max_ℤ}
use ghostgpu.Platform.{Platform}
use ghostgpu.Api.{
  TopologySpec, DeviceAttribute, string_value, int_value, other_value, Device, CounterSet,
  ResourceSlice,
}
use ghostgpu.Gpu.WholeSlice.{attr_numa_node, attr_nvlink_domain, attr_uuid}
use ghostgpu.Cli.Names.{narrow}

-- `ok && attr.IntValue != nil`
abbrev pub is_int : Option DeviceAttribute → Bool
is_int (some (int_value i)) = true
is_int (some (string_value s)) = false
is_int (some other_value) = false
is_int none = false

-- `ok && attr.StringValue != nil`, and the value.
abbrev pub string_of : Option DeviceAttribute → Option Text
string_of (some (string_value s)) = some s
string_of (some (int_value i)) = none
string_of (some other_value) = none
string_of none = none

abbrev pub or_name : Text → Option Text → Text
or_name name none = name
or_name name (some uuid) = uuid

-- The domains, each with the set of its members.
abbrev pub Domains : Type 0
Domains = Dict Text (List Text)

-- `members[identity] = true`
abbrev pub add_member : Text → List Text → List Text
add_member identity members = if is_in identity members then members else identity ∷ members

abbrev pub join_domain : Option Text → Text → Domains → Domains
join_domain none identity domains = domains
join_domain (some domain) identity domains =
    insert domain (add_member identity (get_or domain domains [])) domains

module _ (P : Platform) where
  -- The body of the inner loop.
  unfoldable pub see_device : Device P → Domains × Bool → Domains × Bool
  unfolding lookup insert is_in
  see_device d (domains, numa_aware) = (
    join_domain (string_of (lookup attr_nvlink_domain d.attributes))
        (or_name d.name (string_of (lookup attr_uuid d.attributes))) domains,
    is_int (lookup attr_numa_node d.attributes) || numa_aware,
  )

  unfoldable pub see_devices : List (Device P) → Domains × Bool → Domains × Bool
  unfolding see_device
  see_devices [] seen = seen
  see_devices (d ∷ devices) seen = see_devices devices (see_device d seen)

  unfoldable pub see_slices : List (ResourceSlice P) → Domains × Bool → Domains × Bool
  unfolding see_devices
  see_slices [] seen = seen
  see_slices (s ∷ slices) seen = see_slices slices (see_devices s.spec.devices seen)

  -- The loop over the domains: the size of the largest.
  unfoldable pub largest : Domains → ℤ → ℤ
  unfolding narrow
  largest [] size = size
  largest ((domain, members) ∷ domains) size =
      largest domains (max_ℤ size (narrow (length members)))

  unfoldable pub topology_of : List (ResourceSlice P) → TopologySpec
  unfolding see_slices largest
  topology_of published =
      let (domains, numa_aware) = see_slices published ([], false) in
      record { nvlink_domain_size = largest domains (pos 0); numa_aware = numa_aware }

  abbrev pub ByNode : Type 0
  ByNode = Dict Text (List (ResourceSlice P))

  abbrev pub on_node : Option Text → ResourceSlice P → ByNode → ByNode
  on_node none s by_node = by_node
  on_node (some node) s by_node =
      if node == [] then by_node else insert node (get_or node by_node [] ++ (s ∷ [])) by_node

  unfoldable pub index_onto : List (ResourceSlice P) → ByNode → ByNode
  unfolding insert lookup
  index_onto [] by_node = by_node
  index_onto (s ∷ slices) by_node = index_onto slices (on_node s.spec.node_name s by_node)

  unfoldable pub index_slices_by_node : List (ResourceSlice P) → ByNode
  unfolding index_onto
  index_slices_by_node published = index_onto published []

  unfoldable pub count_devices_from : List (ResourceSlice P) → ℤ → ℤ
  unfolding narrow
  count_devices_from [] total = total
  count_devices_from (s ∷ slices) total =
      count_devices_from slices (add32 total (narrow (length s.spec.devices)))

  unfoldable pub count_devices : List (ResourceSlice P) → ℤ
  unfolding count_devices_from
  count_devices published = count_devices_from published (pos 0)

  unfoldable pub set_names : List (CounterSet P) → List Text → List Text
  unfolding is_in
  set_names [] names = names
  set_names (c ∷ sets) names = set_names sets (add_member c.name names)

  unfoldable pub counter_set_names : List (ResourceSlice P) → List Text → List Text
  unfolding set_names
  counter_set_names [] names = names
  counter_set_names (s ∷ slices) names =
      counter_set_names slices (set_names s.spec.shared_counters names)

  unfoldable pub count_counter_sets : List (ResourceSlice P) → ℤ
  unfolding counter_set_names narrow
  count_counter_sets published = narrow (length (counter_set_names published []))
