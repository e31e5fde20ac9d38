-- ===== src/Tests/Api.antt =====
-- An answer of the server with an error in its body.
use open_beanie.Base.{◌≢◌, false, Option, some, Text, codes}
use open_beanie.Base.Json.{Value, undefined, str, obj, field, end}
use open_beanie.Base.Result.{ok}
use open_beanie.Api.{Response, request}
use open_beanie.Api.Answers.{Meaning, request-Meaning}

abbrev too_many : Response
too_many = record {
  status = 429;
  is_ok = false;
  body = some (codes "e");
  retry_after = some (codes "30");
}

abbrev parse : Text → Option Value
parse t = some (obj (field (codes "error") (str (codes "slow down")) end))

never_undefined : (t : Text) → parse t ≢ some undefined
never_undefined t h = cc

request-Meaning_example :
    Meaning parse (ok too_many) (request parse (codes "/api/v1/pay") (ok too_many))
request-Meaning_example = request-Meaning parse (codes "/api/v1/pay") (ok too_many) never_undefined
