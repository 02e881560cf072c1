-- ===== src/Practice/HistoryLaws.antt =====
-- The list of spoken sessions and the page of each agree.
use ai_agentic_english.Prelude.{
  String, Option, none, some, List, [], ◌∷◌, ◌≡◌, refl, length-map, find, map, str_eq, Bool-cases,
  inl, inr,
}
use ai_agentic_english.Shared.Json.{Json}
use ai_agentic_english.Practice.History.{
  Dates, Bundle, SpeakingSession, Summary, Detail, summarize, build_conversation_summaries,
  detail_of, build_conversation_detail, detail_if, join_speaking_sessions,
}

abbrev pub summary_of : Option Detail → Option Summary
summary_of none = none
summary_of (some d) = some d.summary

module _ (parse_json : String → Option Json) (dates : Dates) (bundle : Bundle) where
  detail_of-summary :
      (s : SpeakingSession)
      → (detail_of parse_json dates bundle s).summary ≡ summarize parse_json dates bundle s
  unfolding detail_of summarize
  detail_of-summary s = rw length-map refl

  find-summaries :
      (id : String) (ss : List SpeakingSession)
      → summary_of (detail_if parse_json dates bundle (find (λ s. str_eq s.1.conv_id id) ss))
        ≡ find (λ s. str_eq s.id id) (map (summarize parse_json dates bundle) ss)
  unfolding summarize
  find-summaries id [] = refl
  find-summaries id (s ∷ ss) = elim (Bool-cases (str_eq s.1.conv_id id)) [
    | inl e ↦ rw (e, detail_of-summary s) refl
    | inr e ↦ rw (e, find-summaries id ss) refl
  ]

  -- The page of a conversation shows the summary that the list has under its id, and there is none
  -- exactly where the list has no such summary.
  pub build_conversation_detail-summaries :
      (id : String)
      → summary_of (build_conversation_detail parse_json dates bundle id)
        ≡ find (λ s. str_eq s.id id) (build_conversation_summaries parse_json dates bundle)
  unfolding build_conversation_detail build_conversation_summaries
  build_conversation_detail-summaries id = find-summaries id (join_speaking_sessions dates bundle)
