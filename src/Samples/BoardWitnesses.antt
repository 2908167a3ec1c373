-- ===== src/Samples/BoardWitnesses.antt =====
-- The properties of the message board at concrete inputs.
use pane_fleet.Base.{◌≡◌, ok, true, false, some, [], ◌∷◌, codes}
use pane_fleet.Commons.Types.{Message, candidate, tried, agent}
use pane_fleet.Commons.Repository.Recorded.{transits, IsRecorded, Call-IsRecorded}
use pane_fleet.Commons.Inbox.Shown.{IsInbox, agent_commons_inbox-IsInbox}
use pane_fleet.Commons.Validate.{normalized_message}
use pane_fleet.Commons.Inbox.{is_help_request}
use pane_fleet.Commons.Help.Advice.{IsAdvice}
use pane_fleet.Commons.Help.Gated.{help_recommendation-IsAdvice}
use pane_fleet.Samples.Board.{
  board_host, author, lesson_in, board, tried_reply, tries-lesson, inbox, reads-inbox, help_message,
  options, locale_before, advice, advises-help,
}

Call-IsRecorded_example : IsRecorded board_host (some board) tried_reply
Call-IsRecorded_example = Call-IsRecorded board_host (some board) tried_reply (
    transits (codes "commons-aaaaaaaaaaaa") tried (agent author) (codes "commons-op-aaaaaaaa")
      tries-lesson)

agent_commons_inbox-IsInbox_example :
    IsInbox board_host (lesson_in candidate 1 (codes "1") ∷ []) (codes "codex-b") 5 inbox
agent_commons_inbox-IsInbox_example =
    agent_commons_inbox-IsInbox board_host (lesson_in candidate 1 (codes "1") ∷ [])
      (codes "codex-b") [] false 5 inbox reads-inbox

help_recommendation-IsAdvice_example :
    (message : Message) × (normalized_message board_host help_message ≡ ok message)
    × (is_help_request message.category ≡ true)
    × IsAdvice board_host message options advice
help_recommendation-IsAdvice_example =
    help_recommendation-IsAdvice board_host locale_before help_message options advice advises-help
