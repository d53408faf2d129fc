-- ===== src/Lib.antt =====
-- Verification of xoxo: its agents, the files they edit and the conversation that is shown, and
-- the parts that compute on texts and tables.
--
-- xoxo runs coding agents. When an agent reads a file, read_file sends its text through the noise
-- stripper, which blanks comments but keeps every line where it is, so that the agent can name
-- lines of the original file. When it edits a file, patch_file applies a batch of updates that
-- name those lines. The index behind the search keeps chunks of files with their vectors in a
-- store. read_file calls the stripper, and meets patch_file in the line numbers of a file and in
-- the registry of sums by which patch_file refuses a file that the agent has not seen. An agent is
-- a runner: it takes commands, asks the model for completions, calls tools, appends each event to
-- its chat, stores the chat and sends the event to the bus. The terminal follows the bus, and can
-- load the stored chat instead. Agents form trees, and the agents of a tree share an execution
-- context with a bash session.
--
-- - Strip: crates/agents/nerd/src/coding/noise_stripper. Strip.Dispatch is mod.rs: the language of
--   an extension and the stripper of a language. Strip.CFamily is c_family.rs, and so on for each
--   language: `State` is the enum of the file, `Loop` its further variables where it has any,
--   `step` the body of its loop at the bytes that are left, and strip_x_noise the function of that
--   name.
-- - Strip.Scan runs a step: a turn gives what is pushed, how many bytes it takes and the next
--   state. The run is by recursion on the bytes, not on fuel: it passes over the bytes that a turn
--   has taken beyond the first. Every step takes at least one byte, as every turn of the loops in
--   the source does. Strip.Lines is split_inclusive, for the files that go line by line (yaml.rs,
--   vb_net.rs, fortran.rs).
-- - Strip.Shape, Strip.Lexical and Strip.Again hold the proofs about a run for any step; X.Lexical
--   and X.Again apply them to a language; Strip.Languages, Strip.Grammars and Strip.Rust.Depth
--   collect what holds of the program.
-- - Patch: crates/agents/nerd/src/tools/patch_file, apply.rs and types.rs. Patch.Plan is
--   plan_updates, Patch.Apply apply_updates, Patch.Lines the splitting and joining of lines.
--   Patch.Diff is diff_preview.rs: the rows of a preview, without its texts, and the choice of the
--   rows near a change; right_side and left_side of Patch.Diff.Rows read the two files off the
--   rows. Patch.Spec says what a batch asks for without a plan. A HashMap is an association list
--   and a HashSet a list: the code looks keys up in them, and passes over them only to find
--   whether some line is both removed and replaced. The error for such a line names one of them,
--   and which one depends on the order of the map: the model has one order of many.
-- - Read: crates/agents/nerd/src/tools/read_file.rs, read_file_impl: the lines of a file by
--   number, stripped or not. The file system and the parsing of a number are a parameter, Files.
-- - Store: crates/agents/agentix/src/indexing, brute_force.rs with chunk.rs and vector_store.rs.
--   `f32` with its operations, and sort_by, are a parameter, Floats.
-- - Files: the registry of crates/lib/xoxo-core/src/tooling/execution_context/mod.rs. Files.Tools
--   is what the calls of read_file, write_file and patch_file (crates/agents/nerd/src/tools) do to
--   the files and the registry; Files.Traces, Files.Patches and Files.Fresh prove what holds over
--   any sequence of reads, creations, patches and changes by others, also between the steps of a
--   patch.
-- - Chat: the data of crates/lib/xoxo-core/src/chat/structs.rs, bus.rs and llm/facade/types.rs.
--   Agent: agents/runner.rs there; Agent.Run is its loop, with fuel for the completions of each
--   turn, since the model decides how many there are: Agent.Run.Turns says how much is enough and
--   that more changes nothing, and the other theorems hold for any fuel. Agent.Run.Invariant
--   carries what every push and send keeps over a run. Agent.Tree: agents/handles.rs and
--   spawner.rs, with the starts and ends of agents as a step relation.
-- - Tui: crates/lib/xoxo-tui/src/app, history.rs and sync.rs: the history that the terminal shows.
--   Tui.Restore is about loading a chat, Tui.Follow about following the bus, Tui.Live and
--   Tui.Session about an agent whose events are followed.
-- - Bash: run_command of crates/lib/xoxo-core/src/tooling/execution_context/bash_session.rs, from
--   the lines in the pipes on; the order in which they are read is a list of turns, and each says
--   how much of a line of the other pipe is lost with the read that is dropped.
-- - Skills: crates/agents/agentix/src/skills.rs, parsing and listing skills, and in Skills.Learn
--   reading one; Skills.First says which of two with one name is listed.
-- - Todo: todo_list.rs beside the bash session, and
--   crates/agents/agentix/src/tools/write_todo_list.rs.
--
-- A text is a list of bytes, and what a stripper writes is a list of characters: most strippers
-- push each byte as the character of that number. JavaScript, the comment lines of Fortran, the
-- block scalars of YAML and the files of no known language go by characters: the decoding of UTF-8
-- is a parameter there, and so are is_utf8 for Python and the test for a blank line of YAML.
-- Numbers are unbounded: an index or a line number is at most the length of a text in memory, and
-- the subtractions of the source are guarded, so nothing wraps. Ids, names and paths of files are
-- native texts, other texts of the agents lists of characters; a JSON value is its text. Only
-- Agent.Run has fuel.
--
-- Not modelled: the file system beyond a map from paths to texts, the tools' schemas, the other
-- tools and stores, the parsers of nerd-ast, the models' clients, the databases, the drawing of
-- the user interface and the command line. They are mostly calls of other libraries and of the
-- system.
pub mod Base
pub mod Strip
pub mod Patch
pub mod Store
pub mod Read
pub mod Files
pub mod Chat
pub mod Agent
pub mod Bash
pub mod Skills
pub mod Todo
pub mod Tui
