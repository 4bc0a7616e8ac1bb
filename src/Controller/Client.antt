-- ===== src/Controller/Client.antt =====
-- What the reconciler takes from controller-runtime: the API client, as a record of the calls that
-- internal/controller/gpupool_controller.go makes, over a store that the program does not see. A run
-- keeps the list of the writes that it attempted.
use ghostgpu.Base.{Option, none, some, List, [], ◌∷◌, ◌++◌, Result, ok, err, Text}
use ghostgpu.Platform.{Platform}
use ghostgpu.Api.{Labels, Condition, GpuPool, GpuModel, Node, ResourceSlice}

-- `apierrors.IsNotFound` tells the first from all others.
pub data ApiError : Type 0 where
  not_found : ApiError
  other_error : Text → ApiError

module _ (P : Platform) where
  -- `r.Status().Update`, the two patches of a node, `controllerutil.CreateOrUpdate` and `r.Delete`.
  pub data Write : Type 0 where
    update_status : (pool : GpuPool P) → Write
    patch_node_status : (patched base : Node P) → Write
    patch_node : (patched base : Node P) → Write
    create_or_update :
        (name : Text) (mutate : ResourceSlice P → Result ApiError (ResourceSlice P)) → Write
    delete : (slice : ResourceSlice P) → Write

  pub record Client : Type 1 where
    pub Store : Type 0
    pub get_pool : Text → Store → Result ApiError (GpuPool P)
    pub get_model : Text → Store → Result ApiError (GpuModel P)
    pub list_pools : Store → Result ApiError (List (GpuPool P))
    pub list_nodes : Labels → Store → Result ApiError (List (Node P))
    pub list_slices : Labels → Store → Result ApiError (List (ResourceSlice P))
    -- The error of a write, and the store after it.
    pub perform : Write → Store → Option ApiError × Store
    -- What a patch of a node leaves in the object that it was given.
    pub answer : Node P → Store → Node P
    -- `controllerutil.SetControllerReference`
    pub set_owner : GpuPool P → ResourceSlice P → Result ApiError (ResourceSlice P)
    -- `meta.SetStatusCondition`
    pub set_condition : List Condition → Condition → List Condition

  module _ (C : Client) where
    pub record World : Type 0 where
      pub store : C.Store
      pub writes : List Write

    -- A function that calls the API: its result or error, and the world after it.
    abbrev pub Action : Type 0 → Type 0
    Action A = World → Result ApiError A × World

    abbrev pub return : {A : Type 0} → A → Action A
    return a w = (ok a, w)

    -- The early return of an error.
    abbrev pub resume :
        {A B : Type 0} → (A → Action B) → Result ApiError A × World → Result ApiError B × World
    resume f (ok a, w) = f a w
    resume f (err e, w) = (err e, w)

    abbrev pub bind : {A B : Type 0} → Action A → (A → Action B) → Action B
    bind m f w = resume f (m w)

    abbrev pub error_result : Option ApiError → Result ApiError Unit
    error_result none = ok tt
    error_result (some e) = err e

    -- One write: it is on the list whether the server accepts it or not.
    unfoldable pub call : Write → Action Unit
    call x w =
        let (e, s) = C.perform x w.store in
        (error_result e, record { store = s; writes = w.writes ++ (x ∷ []) })
