-- ===== src/Shared/Cefr.antt =====
-- packages/shared/src/dto/learning-materials.ts: the levels and the skills.
use ai_agentic_english.Prelude.{String, List, [], ◌∷◌}

pub data CefrLevel : Type 0 where
  a1 : CefrLevel
  a2 : CefrLevel
  b1 : CefrLevel
  b2 : CefrLevel
  c1 : CefrLevel
  c2 : CefrLevel

abbrev pub cefr_levels : List CefrLevel
cefr_levels = a1 ∷ a2 ∷ b1 ∷ b2 ∷ c1 ∷ c2 ∷ []

-- The text of a level, as the source writes it.
abbrev pub cefr_text : CefrLevel → String
cefr_text a1 = "A1"
cefr_text a2 = "A2"
cefr_text b1 = "B1"
cefr_text b2 = "B2"
cefr_text c1 = "C1"
cefr_text c2 = "C2"
