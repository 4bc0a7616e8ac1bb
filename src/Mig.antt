-- ===== src/Mig.antt =====
-- internal/mig: the types of profiles.go, and one child for each of the other files.
pub mod Parse
pub mod Tables
pub mod Expand
pub mod Resolve
pub mod Partition
use ghostgpu.Base.{List, Text}
use ghostgpu.Base.Int.{ℤ}
use ghostgpu.Platform.{Platform}

module _ (P : Platform) where
  -- One instance shape, and what it draws from the budget of its GPU.
  pub record Profile : Type 0 where
    pub name : Text
    pub memory : P.Quantity
    pub slices : ℤ

  -- What one physical GPU can hand out.
  pub record Budget : Type 0 where
    pub memory : P.Quantity
    pub slices : ℤ

  pub record Table : Type 0 where
    pub budget : Budget
    pub profiles : List (Profile)
