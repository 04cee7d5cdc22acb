-- ===== src/Middleware/ToolError.antt =====
-- agent/middleware/tool_error_handler.py: a tool that raises answers with an error message. The
-- handler is a function on the state of everything outside; `json.dumps` is a parameter.
use open_review.Base.{String, Bool, true, Option, none, some, [], ◌∷◌, ◌++◌, ◌==◌, if◌then◌else◌}
use open_review.Base.Dict.{Dict}

-- the `tool_call` of a request, where it is a dictionary
pub record ToolCall : Type 0 where
  pub id : Option String
  pub name : Option String

-- what is read of an exception: `str(e)` and the name of its class
pub record ToolFailure : Type 0 where
  pub message : String
  pub class_name : String

pub record ToolMessage : Type 0 where
  pub content : String
  pub tool_call_id : Option String
  pub is_error : Bool

pub data Reply (A : Type 0) : Type 0 where
  replied : A → Reply A
  raised : ToolFailure → Reply A
  error_message : ToolMessage → Reply A

unfoldable tool_call_id : Option ToolCall → Option String
tool_call_id none = none
tool_call_id (some call) = call.id

abbrev named : Option String → Dict String
named none = []
named (some n) = if n == "" then [] else ("name", n) ∷ []

abbrev name_entry : Option ToolCall → Dict String
name_entry none = []
name_entry (some call) = named call.name

unfoldable pub error_payload : ToolFailure → Option ToolCall → Dict String
error_payload e call =
    (("error", e.message) ∷ ("error_type", e.class_name) ∷ ("status", "error") ∷ [])
    ++ name_entry call

unfoldable pub caught : {A : Type 0} → (Dict String → String) → Option ToolCall → Reply A → Reply A
unfolding error_payload tool_call_id
caught dumps call (raised e) = error_message (record {
  content = dumps (error_payload e call);
  tool_call_id = tool_call_id call;
  is_error = true;
})
caught dumps call reply = reply

unfoldable pub wrap_tool_call :
    {A W : Type 0}
    → (Dict String → String)
    → (Option ToolCall → W → Reply A × W)
    → Option ToolCall
    → W
    → Reply A × W
unfolding caught
wrap_tool_call dumps handler call w = (caught dumps call (handler call w).0, (handler call w).1)
