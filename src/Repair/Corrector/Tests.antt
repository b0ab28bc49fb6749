-- ===== src/Repair/Corrector/Tests.antt =====
-- Corrections of an input.
use agent_orchestrator_go.Base.{◌≡◌, refl, [], pos, txt, text_eq, index, trim_space, contains}
use agent_orchestrator_go.Value.{int, str, Fields, end, field, lookup, insert}
use agent_orchestrator_go.Repair.Corrector.{add_missing_fields, correct_by}

abbrev task_input : Fields
task_input = field (txt "task") (str (txt "t")) end

-- A field right after the colon is added.
close_field :
    add_missing_fields task_input (txt "missing required field:username")
    ≡ insert (txt "username") (str []) task_input
unfolding add_missing_fields index text_eq trim_space lookup
close_field = refl

-- After a space, as in the example of the source, none is added.
spaced_field : add_missing_fields task_input (txt "missing required field: username") ≡ task_input
unfolding add_missing_fields index text_eq trim_space lookup
spaced_field = refl

limited :
    correct_by (txt "page is empty") (field (txt "page") (str []) end)
    ≡ field (txt "page") (int (pos 1)) (
        field
          (txt "limit")
          (int (pos 10))
          (field (txt "offset") (int (pos 0)) (field (txt "id") (str (txt "default")) end)))
unfolding correct_by contains text_eq lookup insert
limited = refl
