-- ===== src/Model/Floats.antt =====
-- The arithmetic of f32, which antt does not have: the code takes it as a parameter. The
-- constants of the source are written as bit patterns.
use nek.Common.{Bool}
use nek.Model.Roster.{F32}

pub record F32Ops : Type 0 where
  pub add : F32 → F32 → F32
  pub sub : F32 → F32 → F32
  pub mul : F32 → F32 → F32
  pub div : F32 → F32 → F32
  pub sqrt : F32 → F32
  pub abs : F32 → F32
  pub powf : F32 → F32 → F32
  pub clamp : F32 → F32 → F32 → F32
  pub ge : F32 → F32 → Bool
  pub gt : F32 → F32 → Bool
