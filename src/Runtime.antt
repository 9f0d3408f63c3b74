-- ===== src/Runtime.antt =====
-- What the SDK takes from the Python interpreter and does not implement: readings of numbers, dates
-- and JSON in texts. Times are in microseconds.
use ucloud_sandboxes_sdk.Prelude.{ℕ, String, Option, List, ℤ}
use ucloud_sandboxes_sdk.Json.{Json}

pub record Runtime : Type 0 where
  -- `float(raw)`, or none where it raises
  pub float_of : String → Option ℤ
  -- `parsedate_to_datetime(raw) - now`, or none where it raises
  pub date_delay : String → Option ℤ
  -- `int(raw)`, or none where it raises
  pub int_of : String → Option ℤ
  -- `str(value)` of a value that is no string
  pub text_of : Json → String
  -- `json.loads(raw)`, or none where it raises
  pub json_of : String → Option Json
  -- `base64.b64decode(raw, validate=True)`, or none where it raises
  pub base64_of : String → Option (List ℕ)
  -- `json.loads(json.dumps(value))` and the bytes between, or none where it raises
  pub dumps_of : Json → Option (Json × List ℕ)
