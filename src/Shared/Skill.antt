-- ===== src/Shared/Skill.antt =====
-- Skill of packages/shared/src/dto/learning-materials.ts.
pub data Skill : Type 0 where
  reading : Skill
  writing : Skill
  listening : Skill
  speaking : Skill
