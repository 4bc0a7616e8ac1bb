-- ===== src/Controller/Slices/Prune.antt =====
-- internal/controller/gpupool_controller.go: the deletions of `pruneSlices`.
use mathlib.Core.Path.{subst}
use ghostgpu.Base.{
  true, false, not, none, some, List, [], ◌∷◌, ◌++◌, map, keep, ◌≡◌, ◌⊎◌, ◌↔◌, inl, inr, refl, sym,
  ◌∙◌, arith, Result, ok, Text, text_eq, In, Bool-cases, append-nil, append_assoc,
}
use ghostgpu.Platform.{Platform}
use ghostgpu.Api.{GpuPool, ResourceSlice}
use ghostgpu.Controller.Client.{ApiError, not_found, delete, Client, World, call}
use ghostgpu.Controller.Slices.{pool_label, is_live, unless_missing, delete_stale, prune_slices}

is_live_iff : (name : Text) (live : List Text) → (is_live name live ≡ true) ↔ In name live
unfolding is_live
is_live_iff name [] = ground arith
is_live_iff name (l ∷ live) = ground (arith, is_live_iff name live)

module _ (P : Platform) (C : Client P) where
  -- The slices whose names are not live, in their order.
  abbrev pub stale : List Text → List (ResourceSlice P) → List (ResourceSlice P)
  stale live = keep (λ s. not (is_live s.name live))

  -- The server deletes a slice, or has none to delete.
  abbrev pub Deletes : Type 0
  Deletes =
      (s : ResourceSlice P) (store : C.Store)
      → ((C.perform (delete s) store).0 ≡ none) ⊎ ((C.perform (delete s) store).0 ≡ some not_found)

  stale-live :
      (live : List Text) (s : ResourceSlice P) (slices : List (ResourceSlice P))
      → is_live s.name live ≡ true
      → stale live (s ∷ slices) ≡ stale live slices
  stale-live live s slices e = ground arith

  stale-dead :
      (live : List Text) (s : ResourceSlice P) (slices : List (ResourceSlice P))
      → is_live s.name live ≡ false
      → stale live (s ∷ slices) ≡ s ∷ stale live slices
  stale-dead live s slices e = ground arith

  Deleted : List (ResourceSlice P) → World P C → Result ApiError Unit × World P C → Type 0
  Deleted gone w r = (r.0 ≡ ok tt) × (r.1.writes ≡ w.writes ++ map delete gone)

  -- The world after one deletion.
  abbrev without : ResourceSlice P → World P C → World P C
  without s w = record {
    store = (C.perform (delete s) w.store).1;
    writes = w.writes ++ (delete s ∷ []);
  }

  delete_one :
      Deletes
      → (s : ResourceSlice P) (w : World P C)
      → unless_missing P C (call P C (delete s) w) ≡ (ok tt, without s w)
  unfolding call
  delete_one deletes s w = elim (deletes s w.store) [ inl e ↦ rw e refl | inr e ↦ rw e refl ]

  delete_stale-Deleted :
      Deletes
      → (slices : List (ResourceSlice P)) (live : List Text) (w : World P C)
      → Deleted (stale live slices) w (delete_stale P C slices live w)
  unfolding delete_stale Deleted
  delete_stale-Deleted deletes [] live w = (refl, sym (append-nil w.writes))
  delete_stale-Deleted deletes (s ∷ slices) live w =
      let (done, after) = delete_stale-Deleted deletes slices live (without s w) in
      elim (Bool-cases (is_live s.name live)) [
        | inl e ↦
            subst (λ gone. Deleted gone w (delete_stale P C (s ∷ slices) live w))
              (sym (stale-live live s slices e)) (rw e (delete_stale-Deleted deletes slices live w))
        | inr e ↦
            subst (λ gone. Deleted gone w (delete_stale P C (s ∷ slices) live w))
              (sym (stale-dead live s slices e))
              (rw (e, delete_one deletes s w)
                ((
                  done,
                  after ∙ append_assoc w.writes (delete s ∷ []) (map delete (stale live slices)),
                )))
      ]

  -- If the server has the slices of a pool and deletes those that it is told to, or says that they
  -- are gone, then pruning succeeds and its writes are the deletions of the pool's slices that are
  -- not live, in their order.
  pub prune_slices-stale :
      Deletes
      → (pool : GpuPool P) (live : List Text) (w : World P C) (slices : List (ResourceSlice P))
      → C.list_slices ((pool_label, pool.name) ∷ []) w.store ≡ ok slices
      → ((prune_slices P C pool live w).0 ≡ ok tt)
        × ((prune_slices P C pool live w).1.writes ≡ w.writes ++ map delete (stale live slices))
  unfolding prune_slices Deleted
  prune_slices-stale deletes pool live w slices e =
      rw e (delete_stale-Deleted deletes slices live w)
