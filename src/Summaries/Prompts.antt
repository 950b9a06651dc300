-- ===== src/Summaries/Prompts.antt =====
-- The prompts of aeloon_runtime/runtime/summarization.py, line by line.
use aeloon_runtime.Prelude.{String, [], ◌∷◌, concat}

-- `SUMMARIZATION_SYSTEM_PROMPT`
unfoldable pub summarization_system_prompt : String
summarization_system_prompt = concat (
    "You are a context summarization assistant. Your task is to read a conversation between a user and an AI assistant, then produce a structured summary following the exact format specified.\n"
    ∷ "\n"
    ∷ "Do NOT continue the conversation. Do NOT respond to any questions in the conversation. ONLY output the structured summary."
    ∷ [])

-- `SUMMARIZATION_PROMPT`
unfoldable pub summarization_prompt : String
summarization_prompt = concat (
    "The messages above are a conversation to summarize. Create a structured context checkpoint summary that another LLM will use to continue the work.\n"
    ∷ "\n" ∷ "Use this EXACT format:\n" ∷ "\n" ∷ "## Goal\n"
    ∷ "[What is the user trying to accomplish? Can be multiple items if the session covers different tasks.]\n"
    ∷ "\n" ∷ "## Constraints & Preferences\n"
    ∷ "- [Any constraints, preferences, or requirements mentioned by user]\n"
    ∷ "- [Or \"(none)\" if none were mentioned]\n" ∷ "\n" ∷ "## Progress\n" ∷ "### Done\n"
    ∷ "- [x] [Completed tasks/changes]\n" ∷ "\n" ∷ "### In Progress\n" ∷ "- [ ] [Current work]\n"
    ∷ "\n" ∷ "### Blocked\n" ∷ "- [Issues preventing progress, if any]\n" ∷ "\n"
    ∷ "## Key Decisions\n" ∷ "- **[Decision]**: [Brief rationale]\n" ∷ "\n" ∷ "## Next Steps\n"
    ∷ "1. [Ordered list of what should happen next]\n" ∷ "\n" ∷ "## Critical Context\n"
    ∷ "- [Any data, examples, or references needed to continue]\n"
    ∷ "- [Or \"(none)\" if not applicable]\n" ∷ "\n"
    ∷ "Keep each section concise. Preserve exact file paths, function names, and error messages."
    ∷ [])

-- `UPDATE_SUMMARIZATION_PROMPT`
unfoldable pub update_summarization_prompt : String
update_summarization_prompt = concat (
    "The messages above are NEW conversation messages to incorporate into the existing summary provided in <previous-summary> tags.\n"
    ∷ "\n"
    ∷ "Update the existing structured summary with new information. Preserve existing goals, completed work, decisions, exact file paths, function names, and error messages. Add new progress and update next steps. Use the same structured format as the existing summary."
    ∷ [])

-- `BRANCH_SUMMARY_PROMPT`
unfoldable pub branch_summary_prompt : String
branch_summary_prompt = concat (
    "Create a structured summary of this conversation branch for context when returning later.\n"
    ∷ "\n" ∷ "Use this EXACT format:\n" ∷ "\n" ∷ "## Goal\n"
    ∷ "[What was the user trying to accomplish in this branch?]\n" ∷ "\n"
    ∷ "## Constraints & Preferences\n" ∷ "- [Constraints or \"(none)\"]\n" ∷ "\n" ∷ "## Progress\n"
    ∷ "### Done\n" ∷ "- [x] [Completed work]\n" ∷ "### In Progress\n" ∷ "- [ ] [Unfinished work]\n"
    ∷ "### Blocked\n" ∷ "- [Blockers]\n" ∷ "\n" ∷ "## Key Decisions\n"
    ∷ "- **[Decision]**: [Rationale]\n" ∷ "\n" ∷ "## Next Steps\n"
    ∷ "1. [What should happen next]\n" ∷ "\n"
    ∷ "Keep each section concise. Preserve exact file paths, function names, and error messages."
    ∷ [])

-- `TURN_PREFIX_SUMMARIZATION_PROMPT`
unfoldable pub turn_prefix_summarization_prompt : String
turn_prefix_summarization_prompt = concat (
    "This is the PREFIX of a turn that was too large to keep. The SUFFIX (recent work) is retained.\n"
    ∷ "\n" ∷ "Summarize the prefix to provide context for the retained suffix:\n" ∷ "\n"
    ∷ "## Original Request\n" ∷ "[What did the user ask for in this turn?]\n" ∷ "\n"
    ∷ "## Early Progress\n" ∷ "- [Key decisions and work done in the prefix]\n" ∷ "\n"
    ∷ "## Context for Suffix\n" ∷ "- [Information needed to understand the kept suffix]\n" ∷ "\n"
    ∷ "Be concise. Focus on what's needed to understand the kept suffix." ∷ [])

-- `HARD_TRUNCATION_MARKER`
unfoldable pub hard_truncation_marker : String
hard_truncation_marker =
    concat ("\n" ∷ "\n" ∷ "[... content hard-truncated to fit summarization budget]" ∷ [])
