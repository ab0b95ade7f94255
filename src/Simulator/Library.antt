-- ===== src/Simulator/Library.antt =====
-- What backend/downstream_sim/app.py takes from Python's library and from FastAPI, as parameters.
use workato_take_home.Prelude.{ℕ, String, Option, List, Text}
use workato_take_home.Store.Schema.{Uuid}
use workato_take_home.Worker.Settings.{Float}
use workato_take_home.Worker.Downstream.{Json}

pub record Library : Type 0 where
  -- `os.getenv`, and `float`, which raises ValueError on what is no number
  pub getenv : String → Option String
  pub float : String → Option Float
  -- the bytes of `hashlib.sha256(…).digest()`, and `hashlib.md5(…).hexdigest()`
  pub sha256 : String → List ℕ
  pub md5 : String → String
  -- `str` of an order's UUID, as the worker writes it into a request
  pub str : Uuid → String
  -- the JSON of a float in a response; none is the encoder's ValueError
  pub encode : Float → Option Json
  -- Python's `repr` of a decoded body, and the text of the decoder's error on no JSON
  pub repr : List (String × Json) → Text
  pub decode_error : Text
