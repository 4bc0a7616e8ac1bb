-- ===== src/Gpu/Identity.antt =====
-- internal/gpu/identity.go: names, UUIDs and topology of the simulated devices.
pub mod Topology
use ghostgpu.Base.{
  ℕ, ◌+◌, ◌-◌, ◌/◌, ◌%◌, List, [], ◌∷◌, ◌++◌, Text, codes, take, drop, ltb, flat_map, if◌then◌else◌,
}
use ghostgpu.Base.Int.{ℤ, pos, leb_ℤ, quot}
use ghostgpu.Text.{format_int}
use ghostgpu.Platform.{Platform}

-- The node's name is not used.
unfoldable pub device_name : Text → ℤ → Text
unfolding format_int
device_name node index = codes "gpu-" ++ format_int index

-- `hex.EncodeToString`
abbrev pub hex_digit : ℕ → ℕ
hex_digit n = if ltb n 10 then b'0' + n else b'a' + (n - 10)

abbrev pub hex : Text → Text
hex = flat_map (λ b. hex_digit (b / 16) ∷ hex_digit (b % 16) ∷ [])

-- `s[from:to]`, with the length in place of the end.
abbrev pub slice : ℕ → ℕ → Text → Text
slice from count s = take count (drop from s)

module _ (P : Platform) where
  unfoldable pub device_uuid : Text → ℤ → Text
  unfolding format_int
  device_uuid node index =
      let sum = P.sha256 (codes "ghostgpu/" ++ (node ++ (b'/' ∷ format_int index))) in
      let h = hex (take 16 sum) in
      codes "GPU-"
      ++ (slice 0 8 h
          ++ (b'-'
              ∷ (slice 8 4 h
                  ++ (b'-' ∷ (slice 12 4 h ++ (b'-' ∷ (slice 16 4 h ++ (b'-' ∷ slice 20 12 h))))))))

unfoldable pub nvlink_domain : ℤ → ℤ → Text
unfolding format_int quot
nvlink_domain index domain_size =
    if leb_ℤ domain_size (pos 0) then [] else codes "domain-" ++ format_int (quot index domain_size)

unfoldable pub numa_node : ℤ → ℤ → ℤ
unfolding quot
numa_node index domain_size = if leb_ℤ domain_size (pos 0) then pos 0 else quot index domain_size
