-- ===== src/Middleware/StructuredRetry.antt =====
-- agent/middleware/structured_output_retry.py: a model that answers in plain text is asked again.
-- The handler is a function on the state of everything outside, and may raise; `wrap_model_call`
-- and `awrap_model_call` differ only in how they wait for it.
pub mod Bounds
pub mod Answered
use Prim.Native.String.{◌++◌ as str_append}
use open_review.Base.{
  ℕ, zero, suc, ◌+◌, String, Bool, true, false, not, ◌&&◌, ◌||◌, Option, none, some, List, [], ◌∷◌,
  ◌++◌, ◌==◌, if◌then◌else◌, is_some, is_empty,
}
use open_review.Base.Text.{join}
use open_review.Base.Result.{Result, ok, err, PyError}
use open_review.Runtime.Models.{show}

-- the content of a model's message: a text, or blocks with the texts they have
pub data Content : Type 0 where
  text : String → Content
  blocks : List (Option String) → Content

pub data Message : Type 0 where
  human : String → Message
  tool : String → Message
  -- the content, and whether it calls tools
  ai : Content → Bool → Message
  other_message : Message

-- a schema: a class with its name, or a JSON schema with its title
pub data Schema : Type 0 where
  class_named : String → Schema
  titled : Option String → Schema

pub data Format : Type 0 where
  -- a ToolStrategy with the names of its schema specs, and `handle_errors is True`
  strategy : List String → Bool → Format
  schema : Schema → Format
  -- any other value, with its `__name__`
  other_format : Option String → Format

pub record ModelRequest : Type 0 where
  pub response_format : Option Format
  pub messages : List Message

pub record ModelResponse (V : Type 0) : Type 0 where
  pub structured_response : Option V
  pub result : List Message

abbrev named : Option String → List String
named none = "structured_response" ∷ []
named (some s) = if s == "" then "structured_response" ∷ [] else s ∷ []

unfoldable pub schema_names : Option Format → List String
schema_names none = "structured_response" ∷ []
schema_names (some (strategy names h)) = names
schema_names (some (schema (class_named s))) = named (some s)
schema_names (some (schema (titled t))) = named t
schema_names (some (other_format n)) = named n

-- `spec_names` are the names that `ToolStrategy` gives the specs of a schema.
unfoldable pub normalize_response_format : (Schema → List String) → Option Format → Option Format
normalize_response_format spec_names none = none
normalize_response_format spec_names (some (strategy names h)) = some (strategy names true)
normalize_response_format spec_names (some (schema s)) = some (strategy (spec_names s) true)
normalize_response_format spec_names (some (other_format n)) = some (other_format n)

unfoldable pub contains_tool_interaction : List Message → Bool
contains_tool_interaction [] = false
contains_tool_interaction (tool s ∷ ms) = true
contains_tool_interaction (ai c calls ∷ ms) = calls || contains_tool_interaction ms
contains_tool_interaction (human s ∷ ms) = contains_tool_interaction ms
contains_tool_interaction (other_message ∷ ms) = contains_tool_interaction ms

unfoldable retry_prompt : List String → ℕ → ℕ → String
unfolding join show
retry_prompt names attempt max_retries =
    str_append
      "Your previous reply did not produce the required structured output.\nExpected schema: "
      (str_append (join ", " names) (
        str_append "\nRetry attempt: " (
          str_append (show attempt) (
            str_append " of " (
              str_append (show max_retries)
                "\nReturn ONLY a valid structured response matching the schema. Do not answer in plain text.")))))

-- the last text of a list, or what stands for none
abbrev last_text : String → List String → String
last_text default [] = default
last_text default (s ∷ ss) = last_text s ss

abbrev block_texts : (String → String) → List (Option String) → List String
block_texts strip [] = []
block_texts strip (none ∷ bs) = block_texts strip bs
block_texts strip (some s ∷ bs) =
    let rest = block_texts strip bs in if strip s == "" then rest else strip s ∷ rest

abbrev message_summary : (String → String) → Message → String
message_summary strip (tool s) = s
message_summary strip (ai (text s) calls) = strip s
message_summary strip (ai (blocks bs) calls) =
    last_text "missing structured_response" (block_texts strip bs)
message_summary strip m = "missing structured_response"

unfoldable pub error_summary : (String → String) → List Message → String
error_summary strip [] = "missing structured_response"
error_summary strip (m ∷ []) = message_summary strip m
error_summary strip (m ∷ n ∷ ms) = error_summary strip (n ∷ ms)

-- the events that are recorded, less the names and the limit, which do not change
pub data Event : Type 0 where
  retry_requested retry_exhausted : ℕ → String → Event
  retry_succeeded : ℕ → Event

pub data Ending (V : Type 0) : Type 0 where
  answered : ModelResponse V → Ending V
  -- StructuredResponseRetryExhausted, with the schema names of its text
  exhausted : List String → Ending V
  raised : PyError → Ending V

unfoldable pub should_retry : {V : Type 0} → ModelRequest → ModelResponse V → Bool
unfolding contains_tool_interaction
should_retry request response =
    is_some request.response_format
    && not (is_some response.structured_response)
    && not (contains_tool_interaction response.result)
    && not (is_empty response.result)

module _ {V W : Type 0} (strip : String → String) (spec_names : Schema → List String)
    (max_retries : ℕ) (handler : ModelRequest → W → Result (ModelResponse V) × W) where
  abbrev pub Run : Type 0
  Run = Ending V × W × List Event

  unfoldable pub retry_request : ModelRequest → ModelResponse V → ℕ → ModelRequest
  unfolding normalize_response_format retry_prompt schema_names
  retry_request request response attempt = record {
    response_format = normalize_response_format spec_names request.response_format;
    messages =
        request.messages
        ++ (response.result
            ++ (human (retry_prompt (schema_names request.response_format) attempt max_retries)
                ∷ []));
  }

  -- the variables of the loop: the request, what the handler made of it, and the state outside
  pub record Turn : Type 0 where
    pub request : ModelRequest
    pub outcome : Result (ModelResponse V)
    pub world : W

  abbrev call : ModelRequest → W → Turn
  call request w = record {
    request = request;
    outcome = (handler request w).0;
    world = (handler request w).1;
  }

  abbrev pub wants_retry : ModelRequest → Result (ModelResponse V) → Bool
  unfolding should_retry
  wants_retry request (err e) = false
  wants_retry request (ok response) = should_retry request response

  unfoldable pub needs_retry : Turn → Bool
  unfolding should_retry
  needs_retry turn = wants_retry turn.request turn.outcome

  abbrev pub again : ℕ → Turn → Result (ModelResponse V) → Turn
  unfolding retry_request
  again attempt turn (err e) = turn
  again attempt turn (ok response) = call (retry_request turn.request response attempt) turn.world

  -- the next call of the handler
  unfoldable pub next : ℕ → Turn → Turn
  unfolding retry_request
  next attempt turn = again attempt turn turn.outcome

  abbrev summary_of : Result (ModelResponse V) → String
  unfolding error_summary
  summary_of (err e) = ""
  summary_of (ok response) = error_summary strip response.result

  abbrev noting : Event → Run → Run
  noting event (r, w, events) = (r, w, event ∷ events)

  -- one retry, and what comes behind it
  unfoldable pub retried : ℕ → Turn → Run → Run
  unfolding error_summary
  retried attempt turn rest = noting (retry_requested attempt (summary_of turn.outcome)) rest

  abbrev success : ℕ → ModelResponse V → List Event
  success zero response = []
  success (suc n) response =
      if is_some response.structured_response then retry_succeeded (suc n) ∷ [] else []

  abbrev pub ending : ℕ → W → Result (ModelResponse V) → Run
  ending attempt w (err e) = (raised e, w, [])
  ending attempt w (ok response) = (answered response, w, success attempt response)

  abbrev give_up : Turn → Run
  unfolding error_summary schema_names
  give_up turn = (
    exhausted (schema_names turn.request.response_format),
    turn.world,
    retry_exhausted max_retries (summary_of turn.outcome) ∷ [],
  )

  -- a turn behind which there is no other
  unfoldable pub last_turn : ℕ → Turn → Run
  unfolding needs_retry error_summary schema_names
  last_turn attempt turn =
      if needs_retry turn then give_up turn else ending attempt turn.world turn.outcome

  -- the loop, with `left` retries left: `max_retries` less the attempts
  unfoldable pub loop : ℕ → ℕ → Turn → Run
  unfolding last_turn retried next
  loop zero attempt turn = last_turn attempt turn
  loop (suc left) attempt turn =
      let rest = loop left (suc attempt) (next (suc attempt) turn) in
      if needs_retry turn then retried (suc attempt) turn rest else last_turn attempt turn

  abbrev pub first_turn : ModelRequest → W → Turn
  unfolding normalize_response_format
  first_turn request w =
      call
        (record request {
          response_format = normalize_response_format spec_names request.response_format;
        })
        w

  unfoldable pub wrap_model_call : ModelRequest → W → Run
  unfolding loop normalize_response_format
  wrap_model_call request w = loop max_retries 0 (first_turn request w)
