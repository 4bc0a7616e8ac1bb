-- ===== src/Gpu/Identity/Topology.antt =====
-- internal/gpu/identity.go: which GPUs share an NVLink domain and a NUMA node.
use ghostgpu.Base.{ℕ, suc, ◌/◌, ◌++◌, ◌≡◌, ◌↔◌, sym, ap, ◌∙◌, arith, codes, drop}
use ghostgpu.Base.Int.{ℤ, pos, pos_part, quot}
use ghostgpu.Text.{format_int, decimal}
use ghostgpu.Text.Decimal.{decimal_inj}
use ghostgpu.Gpu.Identity.{nvlink_domain, numa_node}

nvlink_domain-suc :
    (i size : ℕ)
    → nvlink_domain (pos i) (pos (suc size)) ≡ codes "domain-" ++ decimal (i / suc size)
unfolding nvlink_domain format_int quot
nvlink_domain-suc i size = ground arith

-- For a domain size above zero, two GPUs are in the same NVLink domain exactly when they are on the
-- same NUMA node.
pub nvlink_domain-numa_node :
    (i j size : ℕ)
    → (nvlink_domain (pos i) (pos (suc size)) ≡ nvlink_domain (pos j) (pos (suc size)))
      ↔ (numa_node (pos i) (pos (suc size)) ≡ numa_node (pos j) (pos (suc size)))
unfolding numa_node quot
nvlink_domain-numa_node i j size =
    rw (nvlink_domain-suc i size, nvlink_domain-suc j size)
      (shared (i / suc size) (j / suc size) (numa_node-suc i) (numa_node-suc j))
  where
    numa_node-suc : (k : ℕ) → numa_node (pos k) (pos (suc size)) ≡ pos (k / suc size)
    numa_node-suc k = ground arith

    shared :
        (a b : ℕ)
        → {x y : ℤ} → x ≡ pos a
        → y ≡ pos b
        → (codes "domain-" ++ decimal a ≡ codes "domain-" ++ decimal b) ↔ (x ≡ y)
    shared a b ex ey = (
      λ e. ex ∙ ap pos (decimal_inj a b (ap (drop 7) e)) ∙ sym ey,
      λ e. ap (λ n. codes "domain-" ++ decimal n) (ap pos_part (sym ex ∙ e ∙ ey)),
    )
