-- ===== src/Commons/Help/Gated.antt =====
-- What a recommendation of agent-commons.js rests on.
use mathlib.Core.Path.{subst}
use pane_fleet.Base.{
  ◌≡◌, refl, sym, ◌∙◌, arith, Bool, true, false, not, ◌&&◌, if-eq_cases, Option, none, some, List,
  [], ◌∷◌, filter, find, some_of, ℕ, All, All-filter, Text, codes, text_eq, is_empty, Result, ok,
  ◌>>=◌, >>=-ok_cases, guard->>-eq-ok, if◌then◌else◌,
}
use pane_fleet.Commons.Types.{CommonsHost, CommonsError, Message}
use pane_fleet.Commons.Lifecycle.{state_name}
use pane_fleet.Commons.Validate.{normalized_message}
use pane_fleet.Commons.Inbox.{is_help_request}
use pane_fleet.Commons.Help.{
  normalized_workspace, ListedAgent, help_candidate_summary, HelpOptions, Recommendation,
  is_codex_session, is_helper_session, requester_of, is_available, waits_longer, longest_waiting,
  is_full, recommended, block, spawn_or_block, recommend_agent, recommend_open,
  agent_commons_help_recommendation, existing, helper_exists,
}
use pane_fleet.Commons.Help.Advice.{
  is_helper_of, idle_for, has_room, is_asked, IsAdvice, closes, reuses, offers, blocks, spawns,
}

abbrev free : HelpOptions → Message → ListedAgent → Bool
free options message listed =
    is_available options (requester_of message.author) (normalized_workspace options.workspace)
      listed

free-idle :
    (options : HelpOptions) (message : Message) (listed : ListedAgent)
    → free options message listed ≡ idle_for options message listed
unfolding is_available is_codex_session is_helper_session
free-idle options message listed = refl

is_full-room : (percent : Option ℕ) → is_full percent ≡ not (has_room percent)
unfolding is_full
is_full-room none = refl
is_full-room (some percent) = ground arith

advice-inj :
    {a b : Recommendation} → ◌≡◌ {A = Result CommonsError Recommendation} (ok a) (ok b) → a ≡ b
advice-inj h = cc h

some-inj : {a b : ListedAgent} → some a ≡ some b → a ≡ b
some-inj h = cc h

waiting-cases :
    (P : ListedAgent → Type 0) (host : CommonsHost) (locale_before : Text → Text → Bool)
    (x listed : ListedAgent)
    → P x
    → (rest : Option ListedAgent) → ((next : ListedAgent) → rest ≡ some next → P next)
    → (elim rest [
      | none ↦ some x
      | some next ↦ if waits_longer host locale_before next x then some next else some x
    ])
      ≡ some listed
    → P listed
waiting-cases P host locale_before x listed p none later h = subst P (some-inj h) p
waiting-cases P host locale_before x listed p (some next) later h =
    if-eq_cases (waits_longer host locale_before next x) h
      (λ _ k. subst P (some-inj k) (later next refl)) (λ _ k. subst P (some-inj k) p)

waiting-holds :
    (P : ListedAgent → Type 0) (host : CommonsHost) (locale_before : Text → Text → Bool)
    (agents : List ListedAgent) (listed : ListedAgent)
    → All P agents
    → longest_waiting host locale_before agents ≡ some listed
    → P listed
unfolding longest_waiting
waiting-holds P host locale_before [] listed a h = cc
waiting-holds P host locale_before (x ∷ agents) listed (p, a) h =
    waiting-cases P host locale_before x listed p (longest_waiting host locale_before agents)
      (λ next e. waiting-holds P host locale_before agents next a e) h

second : (a b : Bool) → (a && b) ≡ true → b ≡ true
second a b h = ground arith

not-none :
    (host : CommonsHost) (locale_before : Text → Text → Bool) (x : ListedAgent)
    (rest : Option ListedAgent)
    → (elim rest [
      | none ↦ some x
      | some next ↦ if waits_longer host locale_before next x then some next else some x
    ])
      ≡ none
    → ⊥
not-none host locale_before x none h = cc
not-none host locale_before x (some next) h =
    if-eq_cases (waits_longer host locale_before next x) h (λ _ k. cc) (λ _ k. cc)

waiting-none :
    (host : CommonsHost) (locale_before : Text → Text → Bool) (agents : List ListedAgent)
    → longest_waiting host locale_before agents ≡ none
    → agents ≡ []
unfolding longest_waiting
waiting-none host locale_before [] h = refl
waiting-none host locale_before (x ∷ agents) h =
    absurd (not-none host locale_before x (longest_waiting host locale_before agents) h)

filter-none :
    (f g : ListedAgent → Bool)
    → ((x : ListedAgent) → f x ≡ g x)
    → (xs : List ListedAgent) → filter f xs ≡ []
    → some_of g xs ≡ false
filter-none f g same [] h = refl
filter-none f g same (x ∷ xs) h =
    if-eq_cases (f x) h (λ _ k. absurd (cc k)) λ e k. rw (← same x, e) (filter-none f g same xs k)

spawn_or_block-IsAdvice :
    (host : CommonsHost) (message : Message) (options : HelpOptions) (advice : Recommendation)
    → is_asked message ≡ true
    → find (is_helper_of message) options.agents ≡ none
    → some_of (idle_for options message) options.agents ≡ false
    → spawn_or_block message options (normalized_workspace options.workspace) ≡ advice
    → IsAdvice host message options advice
unfolding spawn_or_block block recommended is_helper_session
spawn_or_block-IsAdvice host message options advice opened alone idle h =
    let room-eq = is_full-room options.disk_used_percent in
    if-eq_cases (is_helper_session (requester_of message.author)) h
      (λ e k. blocks opened alone idle (rw e refl) (rw (← k) (refl, refl, refl)))
      λ requester h1.
        if-eq_cases (is_empty (normalized_workspace options.workspace)) h1
          (λ e k. blocks opened alone idle (rw (requester, e) refl) (rw (← k) (refl, refl, refl)))
          λ workspace h2.
            if-eq_cases (not options.control_plane_ready) h2
              (λ e k.
                blocks opened alone idle (ground (arith, requester, workspace, e))
                  (rw (← k) (refl, refl, refl)))
              λ isolated h3.
                if-eq_cases (is_full options.disk_used_percent) h3
                  (λ e k.
                    blocks opened alone idle
                      (ground (arith, requester, workspace, isolated, e, room-eq))
                      (rw (← k) (refl, refl, refl)))
                  λ room h4.
                    if-eq_cases (not options.gate_ok) h4
                      (λ e k.
                        blocks opened alone idle
                          (ground (arith, requester, workspace, isolated, room, room-eq, e))
                          (rw (← k) (refl, refl, refl)))
                      λ gate k.
                        spawns opened alone idle
                          (ground (arith, requester, workspace, isolated, room, room-eq, gate))
                          (rw (← k) (refl, refl, refl))

agent-IsAdvice :
    (host : CommonsHost) (locale_before : Text → Text → Bool) (message : Message)
    (options : HelpOptions) (advice : Recommendation) (found : Option ListedAgent)
    → longest_waiting host locale_before (filter (free options message) options.agents) ≡ found
    → text_eq (state_name message.state) (codes "open") ≡ true
    → find (is_helper_of message) options.agents ≡ none
    → (elim found [
      | some listed ↦ help_candidate_summary host listed >>= λ summary. ok (
          recommended message
            (normalized_workspace options.workspace)
            existing
            (some summary)
            false
            (codes "compatible_idle_agent_available"))
      | none ↦ ok (spawn_or_block message options (normalized_workspace options.workspace))
    ])
      ≡ ok advice
    → IsAdvice host message options advice
unfolding recommended
agent-IsAdvice host locale_before message options advice none e opened alone h =
    spawn_or_block-IsAdvice host message options advice opened alone
      (filter-none (free options message) (idle_for options message) (free-idle options message)
        options.agents (waiting-none host locale_before _ e))
      (advice-inj h)
agent-IsAdvice host locale_before message options advice (some listed) e opened alone h =
    >>=-ok_cases (help_candidate_summary host listed) _ h λ summary s k.
      offers listed summary opened alone
        (sym (free-idle options message listed)
          ∙ waiting-holds (λ l. free options message l ≡ true) host locale_before
              (filter (free options message) options.agents) listed
              (All-filter (λ l. free options message l ≡ true) (free options message) (λ l t. t)
                options.agents)
              e)
        s (rw (← (advice-inj k)) (refl, refl, refl))

helper-IsAdvice :
    (host : CommonsHost) (locale_before : Text → Text → Bool) (message : Message)
    (options : HelpOptions) (advice : Recommendation) (found : Option ListedAgent)
    → find (is_helper_of message) options.agents ≡ found
    → text_eq (state_name message.state) (codes "open") ≡ true
    → (elim found [
      | some listed ↦ help_candidate_summary host listed >>= λ summary. ok (
          recommended message
            (normalized_workspace options.workspace)
            helper_exists
            (some summary)
            false
            (codes "deterministic_helper_already_exists"))
      | none ↦
          recommend_agent host locale_before message options
            (normalized_workspace options.workspace)
    ])
      ≡ ok advice
    → IsAdvice host message options advice
unfolding recommended recommend_agent
helper-IsAdvice host locale_before message options advice none e opened h =
    agent-IsAdvice host locale_before message options advice _ refl opened e h
helper-IsAdvice host locale_before message options advice (some listed) e opened h =
    >>=-ok_cases (help_candidate_summary host listed) _ h
      λ summary s k. reuses listed summary opened e s (rw (← (advice-inj k)) (refl, refl, refl))

open-IsAdvice :
    (host : CommonsHost) (locale_before : Text → Text → Bool) (message : Message)
    (options : HelpOptions) (advice : Recommendation)
    → text_eq (state_name message.state) (codes "open") ≡ true
    → recommend_open host locale_before message options (normalized_workspace options.workspace)
      ≡ ok advice
    → IsAdvice host message options advice
unfolding recommend_open
open-IsAdvice host locale_before message options advice opened h =
    helper-IsAdvice host locale_before message options advice _ refl opened h

-- A recommendation for a help request that is not open allows nothing and names nobody. For an open one
-- it names the request's own helper when that is listed; otherwise, when it names an agent, that is an
-- idle codex session of the workspace that can take a message, is not busy and is neither the requester
-- nor a helper; and only when no listed agent is such, it names nobody, and allows a new helper exactly
-- when every gate is open: the requester is no helper, the workspace is known, the control plane is
-- isolated, the disk is below 90 percent, and the resource gate is open.
pub help_recommendation-IsAdvice :
    (host : CommonsHost) (locale_before : Text → Text → Bool) (value : Message)
    (options : HelpOptions) (advice : Recommendation)
    → agent_commons_help_recommendation host locale_before value options ≡ ok advice
    → (message : Message) × (normalized_message host value ≡ ok message)
      × (is_help_request message.category ≡ true)
      × IsAdvice host message options advice
unfolding agent_commons_help_recommendation recommended
help_recommendation-IsAdvice host locale_before value options advice h =
    >>=-ok_cases (normalized_message host value) _ h λ message e h1.
      let (request, h2) =
        guard->>-eq-ok (is_empty message.parent_id && is_help_request message.category) _ _ h1 in
      (
        message,
        e,
        second (is_empty message.parent_id) _ request,
        if-eq_cases (text_eq (state_name message.state) (codes "open")) h2
            (λ opened k. open-IsAdvice host locale_before message options advice opened k)
            (λ e k. closes e (rw (← (advice-inj k)) (refl, refl, refl))),
      )
