-- ===== src/Agent/Run/Samples.antt =====
-- An agent with one tool, whose model calls it once and then stops.
use Prim.Native.String.{String}
use xoxo.Base.{
  ℕ, zero, suc, ◌≤◌, List, [], ◌∷◌, none, some, Bytes, codes, Result, ok, leb, if◌then◌else◌,
  Bool-cases, inl, inr, ◌≡◌, ◌≢◌, refl, sym, ap, ◌∙◌, arith,
}
use xoxo.Chat.{
  ChatAgent, open_ai_like, Chat, ChatTextMessage, agent, user, LlmStreamEvent, streamed_text,
  streamed_thinking, final, stop, tool_calls_wanted, LlmCompletionResponse, Command,
  send_user_message, shutdown,
}
use xoxo.Chat.Path.{root_path}
use xoxo.Agent.{Tool, Services, AgentRunner, read_stream, complete_with, complete}

-- Ids that are all different: tallies.
unfoldable pub tally : ℕ → String
tally zero = String.[]
tally (suc n) = String.◌∷◌ "x" (tally n)

strokes : String → ℕ
strokes String.[] = 0
strokes (String.◌∷◌ c s) = suc (strokes s)

strokes-tally : (n : ℕ) → strokes (tally n) ≡ n
unfolding strokes tally
strokes-tally zero = refl
strokes-tally (suc n) = ap suc (strokes-tally n)

pub tally-distinct : (i j : ℕ) → tally i ≡ tally j → i ≡ j
tally-distinct i j e = sym (strokes-tally i) ∙ ap strokes e ∙ strokes-tally j

abbrev pub echo : Tool
echo = record {
  execute = λ now arguments. ok (record { output = arguments; observability = none });
  map_to_preview = λ output. output;
}

abbrev pub calls_echo : LlmCompletionResponse
calls_echo = record {
  message = record { role = agent; content = codes "Let me see." };
  tool_calls = record { name = "echo"; arguments = some (codes "1") } ∷ [];
  finish_reason = tool_calls_wanted;
  observability = none;
}

abbrev pub answers : LlmCompletionResponse
answers = record {
  message = record { role = agent; content = codes "One." };
  tool_calls = [];
  finish_reason = stop;
  observability = none;
}

abbrev pub some_stream : ℕ → List ChatTextMessage → List (Result LlmStreamEvent Bytes)
some_stream now messages =
    if leb 3 now
    then ok (streamed_text (codes "One.")) ∷ ok (final answers) ∷ []
    else ok (streamed_thinking (codes "Hm.")) ∷ ok (final calls_echo) ∷ []

abbrev pub some_services : Services
some_services = record {
  new_v4 = tally;
  tool_set = ("echo", echo) ∷ [];
  complete_streaming = some some_stream;
  save_chat = λ now chat. ok tt;
  set_last_used_chat_id = λ now id. ok tt;
}

abbrev pub some_agent : ChatAgent
some_agent = record {
  id = none;
  name = none;
  model = record {
    model_name = "m";
    provider = record { name = "p"; compatibility = open_ai_like };
  };
  base_prompt = codes "Be brief.";
  allowed_tools = "echo" ∷ [];
  allowed_skills = [];
}

abbrev pub new_chat : Chat
new_chat = record {
  title = none;
  id = "chat";
  created_at = none;
  updated_at = none;
  parent_chat_id = none;
  spawned_by_tool_call_id = none;
  path = "chats/chat.json";
  chat_agent = some_agent;
  observability = none;
  active_branch_id = "main";
  branches =
      record {
        id = "main";
        name = "Main";
        parent_branch_id = none;
        forked_from_message_id = none;
        head_message_id = none;
        active_snapshot_id = none;
      }
      ∷ [];
  snapshots = [];
  events = [];
}

abbrev pub some_runner : AgentRunner
some_runner = record {
  history = new_chat;
  blueprint = some_agent;
  path = root_path "chat";
  sent = [];
  stored = some new_chat;
  last_used = none;
  ids_made = 0;
}

abbrev pub some_commands : List Command
some_commands =
    send_user_message (root_path "chat") (record { role = user; content = codes "Which?" })
    ∷ shutdown (root_path "chat")
    ∷ []

pub some-asks :
    (q : AgentRunner)
    → (complete some_services q).1.finish_reason ≡ tool_calls_wanted
    → (complete some_services q).1.tool_calls ≢ []
unfolding complete complete_with read_stream
some-asks q = elim (Bool-cases (leb 3 q.ids_made)) [
  | inl y ↦ rw y (λ e. cc)
  | inr n ↦ rw n (λ e f. cc)
]

pub some-stops :
    (q : AgentRunner) → 3 ≤ q.ids_made → (complete some_services q).1.finish_reason ≡ stop
unfolding complete complete_with read_stream
some-stops q h = elim (Bool-cases (leb 3 q.ids_made)) [
  | inl y ↦ rw y refl
  | inr n ↦ ground (arith, n, h)
]
