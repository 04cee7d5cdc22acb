-- ===== src/Base/TextTools.antt =====
-- What Python's library does to texts by tables or algorithms of its own: the code that uses it
-- takes these functions as parameters.
use Prim.Native.String.{String}

pub record TextTools : Type 0 where
  -- `s.strip()`, `s.lower()`
  pub strip : String → String
  pub lower : String → String
  -- `re.sub(r"\s+", " ", s)`
  pub single_spaces : String → String
  -- `re.sub(r"[^a-z0-9]+", "-", s)`, and `s.strip("-")`
  pub dashes : String → String
  pub strip_dashes : String → String
  -- `hashlib.sha256(s.encode("utf-8")).hexdigest()`
  pub sha256_hex : String → String
