-- ===== src/Cli/Command/Capturing.antt =====
-- cmd/ghostgpu/main.go: the command `capture` (`runCapture`), from its flags on, and the line of
-- `version` (internal/cli/version.go). The client of `capture` has no writes, and what it reads is a
-- parameter.
use ghostgpu.Base.{
  Bool, Option, none, some, List, [], ◌∷◌, ◌++◌, map, if◌then◌else◌, Result, ok, err, Text, codes,
  text_eq, ◌==◌,
}
use ghostgpu.Base.Int.{ℤ, wrap32}
use ghostgpu.Platform.{Platform}
use ghostgpu.Api.{Node, ResourceSlice}
use ghostgpu.Cli.Objects.{Object}
use ghostgpu.Cli.Capture.{CaptureOptions, CaptureError, CaptureResult, Warning}
use ghostgpu.Cli.Capture.Fleet.{capture}

-- `--nodes` and the 64-bit number of `--gpus-per-node`.
pub record CaptureFlags : Type 0 where
  pub nodes : Bool
  pub gpus : ℤ

-- `int32(*gpusPerNode)` wraps.
unfoldable pub capture_options : CaptureFlags → CaptureOptions
unfolding wrap32
capture_options flags = record { gpus_per_node = wrap32 flags.gpus; emit_nodes = flags.nodes }

pub data CaptureFailure : Type 0 where
  nodes_unread : (error : Text) → CaptureFailure
  not_captured : CaptureError → CaptureFailure
  not_rendered : (error : Text) → CaptureFailure

module _ (P : Platform) where
  -- What is printed: warnings, and the manifests.
  pub data Printed : Type 0 where
    slices_unread : (error : Text) → Printed
    warned : Warning P → Printed
    manifests : (yaml : Text) → Printed

  pub record Source : Type 0 where
    pub nodes : Result Text (List (Node P))
    pub published : Result Text (List (ResourceSlice P))
    pub render : List (Object P) → Result Text Text

  abbrev pub Captured : Type 0
  Captured = List Printed × Option CaptureFailure

  -- Slices that cannot be read are a warning only.
  abbrev pub slices_or_warning :
      Result Text (List (ResourceSlice P)) → List (ResourceSlice P) × List Printed
  slices_or_warning (ok published) = (published, [])
  slices_or_warning (err e) = ([], slices_unread e ∷ [])

  abbrev pub rendered : Result Text Text → List Printed → Captured
  rendered (err e) before = (before, some (not_rendered e))
  rendered (ok yaml) before = (before ++ (manifests yaml ∷ []), none)

  abbrev pub with_result : Source → List Printed → Result CaptureError (CaptureResult P) → Captured
  with_result source before (err e) = (before, some (not_captured e))
  with_result source before (ok result) =
      rendered (source.render result.objects) (before ++ map warned result.warnings)

  abbrev pub captured_from : CaptureFlags → Source → Result Text (List (Node P)) → Captured
  captured_from flags source (err e) = ([], some (nodes_unread e))
  captured_from flags source (ok nodes) =
      let (published, before) = slices_or_warning source.published in
      with_result source before (capture P nodes published (capture_options flags))

  unfoldable pub run_capture : CaptureFlags → Source → Captured
  unfolding capture capture_options
  run_capture flags source = captured_from flags source source.nodes

pub record BuildInfo : Type 0 where
  pub version : Text
  pub commit : Text
  pub date : Text

-- `VersionLine`
unfoldable pub version_line : BuildInfo → Text
unfolding text_eq
version_line b =
    codes "ghostgpu "
    ++ ((if b.version == [] then codes "dev" else b.version)
        ++ (codes " ("
            ++ ((if b.commit == [] then codes "unknown commit" else b.commit)
                ++ (codes ", "
                    ++ ((if b.date == []
                          then codes "built at an unknown time"
                          else codes "built " ++ b.date)
                        ++ codes ")")))))
