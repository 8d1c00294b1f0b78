-- ===== src/Prompt.antt =====
-- Prompts for language models from the protocol's data (package prompt).
--
-- Options: options.go. Tools: the tool by which a model reads what a prompt leaves out (tools.go), with
-- Contents.
-- Formatter: formatter.go, with what goes for its references in References and for a task's history
-- in Histories. Builder: builder.go, with Overwrites.
pub mod Options
pub mod Contents
pub mod Tools
pub mod Formatter
pub mod SystemPrompt
pub mod Builder
pub mod References
pub mod Answers
pub mod Optimized
pub mod Notices
pub mod Histories
pub mod Overwrites
pub mod CutHistory
