-- ===== src/Runtime/World.antt =====
-- What the runtime asks of code outside agent/runtime: the clock's text formats, the project
-- configuration, and `int` of a text.
use open_review.Base.{ℕ, ◌*◌, String, Bool, Option}
use open_review.Runtime.Json.{Json, IntOfText}

-- A `datetime`: whether it has a time zone, and its distance from a fixed moment in microseconds.
pub record Stamp : Type 0 where
  pub aware : Bool
  pub micros : ℕ

pub record World : Type 0 where
  -- `datetime.fromisoformat(value.replace("Z", "+00:00"))`, which the runtime and
  -- agent/utils/timezone.py parse times with; `none` where it raises `ValueError`
  pub fromisoformat : String → Option Stamp
  -- `get_config_service().get_project_agent_config(p).get("MENTION_BATCH_WINDOW_SECONDS")`;
  -- `none` where the service raises
  pub project_window : String → Option Json
  -- the same key of `project_agent_default_config()`
  pub default_window : Json
  pub int_of_text : IntOfText

-- Clock readings are in microseconds, and so is a number of seconds that is added to one.
abbrev pub seconds : ℕ → ℕ
seconds n = n * 1000000
