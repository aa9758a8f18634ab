-- ===== src/Workbench/PlanCanvas.antt =====
-- backend/services/workbench_plan_canvas_support.py, and the plan branch of execute_workbench_task.
use goat_ai.Prelude.{
  ℕ, String, Bool, true, false, Option, none, some, List, [], ◌∷◌, ◌++◌, if◌then◌else◌, or_else,
  str_eq,
}
use goat_ai.Prelude.Json.{obj, field, end, str, bool}
use goat_ai.Prelude.Text.{append_text, join}
use goat_ai.Prelude.Text.Strip.{strip, take_text, drop_text, splitlines}
use goat_ai.Authz.{AuthorizationContext}
use goat_ai.Workbench.Store.{option_str}
use goat_ai.Workbench.Calls.{outputs, create_workspace_output, OutputCreated, apply_all}
use goat_ai.Workbench.Sources.{comma_join, has_any}
use goat_ai.Workbench.Runs.{
  Answer, value, raises, other_exception, Citation, ChatContext, Tools, Surroundings, World,
  Attempt, perform, fail_task, complete_task,
}
use goat_ai.Workbench.{TaskRecord, OutputCreatePayload}

-- `names[0] if names else _DEFAULT_PLAN_MODEL`
abbrev pub first_model : List String → String
first_model [] = "gemma4:26b"
first_model (name ∷ names) = name

abbrev pub blank_line : String
blank_line = "\n\n"

abbrev pub join_parts : List String → String
join_parts [] = ""
join_parts (x ∷ []) = x
join_parts (x ∷ y ∷ rest) = append_text x (append_text blank_line (join_parts (y ∷ rest)))

-- `if value: parts.append(prefix + value)`
abbrev pub part_of : String → Option String → List String
part_of prefix none = []
part_of prefix (some s) = if str_eq s "" then [] else append_text prefix s ∷ []

abbrev pub names_part : String → List String → List String
names_part prefix [] = []
names_part prefix (x ∷ xs) = append_text prefix (comma_join (x ∷ xs)) ∷ []

-- The last part: the context, or that the documents gave none.
abbrev pub context_part : String → TaskRecord → String → Bool → List String
context_part noun task context_block has_context =
    if has_context
    then join (
        "Use the retrieved context below as the primary evidence for the " ∷ noun ∷ "." ∷ blank_line
        ∷ context_block ∷ [])
      ∷ []
    else if has_any task.knowledge_document_ids
    then join (
        "No relevant retrieved context was found in the attached knowledge documents. "
        ∷ "Acknowledge that constraint in the " ∷ noun ∷ "." ∷ [])
      ∷ []
    else []

unfoldable pub compose_plan_prompt : TaskRecord → String → Bool → String
compose_plan_prompt task context_block has_context = join_parts (
    "You are generating a concise, actionable markdown plan for a long-running workbench task."
      ∷ "Return markdown only. Use short sections with bullet points where helpful."
      ∷ "Include these sections in order: Goal, Key Questions, Proposed Steps, Risks, Deliverables."
      ∷ append_text "Task kind: " task.task_kind
      ∷ append_text "User request:\n" task.prompt
      ∷ part_of "Project scope: " task.project_id
    ++ part_of "Session affinity: " task.session_id
    ++ names_part "Requested retrieval sources (not fully executed in this phase): " task.source_ids
    ++ names_part "Attached knowledge documents: " task.knowledge_document_ids
    ++ context_part "plan" task context_block has_context)

unfoldable pub compose_canvas_prompt : TaskRecord → String → Bool → String
compose_canvas_prompt task context_block has_context = join_parts (
    "You are drafting an initial editable canvas document for a long-running workbench task."
      ∷ "Return markdown only."
      ∷ "Start with a level-1 heading title."
      ∷ "Then include these sections in order: Objective, Working Draft, Open Questions, Next Steps."
      ∷ "Keep the document concise but useful as a starting point for later editing."
      ∷ append_text "User request:\n" task.prompt
      ∷ part_of "Project scope: " task.project_id
    ++ part_of "Session affinity: " task.session_id
    ++ context_part "document" task context_block has_context)

abbrev pub has_citation : List Citation → Bool
has_citation [] = false
has_citation (c ∷ cs) = true

abbrev pub context_answered : Answer ChatContext → Answer (String × Bool)
context_answered (raises e) = raises e
context_answered (value context) = value (context.context_block, has_citation context.citations)

unfoldable pub build_plan_or_canvas_context :
    Tools → AuthorizationContext → TaskRecord → Answer (String × Bool)
build_plan_or_canvas_context tools ctx task =
    if has_any task.knowledge_document_ids
    then context_answered (tools.context_builder task.prompt task.knowledge_document_ids 5 ctx)
    else value ("", false)

-- `llm.generate_completion(resolve_plan_model(llm), prompt).strip()`
abbrev pub stripped_answer : Answer String → Answer String
stripped_answer (raises e) = raises e
stripped_answer (value s) = value (strip s)

abbrev pub with_model : Tools → String → Answer (List String) → Answer String
with_model tools prompt (raises e) = raises e
with_model tools prompt (value names) =
    stripped_answer (tools.generate_completion (first_model names) prompt)

abbrev pub composed : Tools → (String → Bool → String) → Answer (String × Bool) → Answer String
composed tools compose (raises e) = raises e
composed tools compose (value (context_block, has_context)) =
    with_model tools (compose context_block has_context) tools.list_model_names

unfoldable pub plan_text : Tools → AuthorizationContext → TaskRecord → Answer String
plan_text tools ctx task =
    composed tools (compose_plan_prompt task) (build_plan_or_canvas_context tools ctx task)

unfoldable pub canvas_text : Tools → AuthorizationContext → TaskRecord → Answer String
canvas_text tools ctx task =
    composed tools (compose_canvas_prompt task) (build_plan_or_canvas_context tools ctx task)

-- The branch of a plan, from `if not result_text` on.
unfoldable pub plan_answered : Surroundings → String → Answer String → World → Attempt
plan_answered env task_id (raises e) w = (w, some e)
plan_answered env task_id (value result_text) w =
    if str_eq result_text ""
    then (fail_task env task_id "Plan execution returned an empty result." w, none)
    else (complete_task env task_id result_text none 0 w, none)

-- The title that one line gives, if it is a heading with a text.
abbrev pub heading_title : String → Option String
heading_title line =
    let stripped = strip line in
    let title = strip (drop_text 2 stripped) in
    if str_eq (take_text 2 stripped) "# "
    then if str_eq title "" then none else some (take_text 120 title)
    else none

abbrev pub first_title : List String → Option String
first_title [] = none
first_title (line ∷ lines) =
    let rest = first_title lines in elim (heading_title line) [ none ↦ rest | some t ↦ some t ]

unfoldable pub derive_canvas_title : TaskRecord → String → String
derive_canvas_title task content =
    let prompt = strip task.prompt in
    or_else (first_title (splitlines content))
      (if str_eq prompt "" then "Untitled canvas" else take_text 120 prompt)

abbrev pub canvas_payload : Tools → TaskRecord → String → ℕ → ℕ → OutputCreatePayload
canvas_payload tools task content reading now = record {
  output_id = append_text "wbo-" (tools.new_hex reading);
  task_id = task.id;
  output_kind = "canvas_document";
  title = derive_canvas_title task content;
  content_format = "markdown";
  content_text = content;
  created_at = now;
  updated_at = now;
  metadata = some (
      obj (
        field "editable" (bool true) (
          field "project_id" (option_str task.project_id) (
            field "session_id" (option_str task.session_id)
              (field "task_kind" (str task.task_kind) end)))));
  owner_id = task.owner_id;
  tenant_id = task.tenant_id;
  principal_id = task.principal_id;
}

-- Whether `create_workspace_output` returned.
abbrev pub canvas_stored : Surroundings → TaskRecord → String → OutputCreated → World → Attempt
canvas_stored env task content none w = (w, some other_exception)
canvas_stored env task content (some stored) w = (complete_task env task.id content none 1 w, none)

unfoldable pub canvas_answered : Surroundings → Tools → TaskRecord → Answer String → World → Attempt
canvas_answered env tools task (raises e) w = (w, some e)
canvas_answered env tools task (value content) w =
    if str_eq content ""
    then (fail_task env task.id "Canvas generation returned an empty result." w, none)
    else let payload = canvas_payload tools task content w.readings in
      canvas_stored env task content
        (create_workspace_output (payload (env.clock w.readings))
          (apply_all (env.others w.readings) w.db))
        (perform env (λ now. outputs (payload now)) w)

unfoldable pub execute_canvas_task :
    Surroundings → Tools → AuthorizationContext → TaskRecord → World → Attempt
execute_canvas_task env tools ctx task w =
    canvas_answered env tools task (canvas_text tools ctx task) w
