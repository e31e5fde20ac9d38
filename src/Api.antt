-- ===== src/Api.antt =====
-- api.js: the one function that all calls go through, and the bodies of three of them. `fetch` and
-- `JSON.parse` are the browser's: what the server answers, and the value of a text, are parameters.
pub mod Answers
use open_beanie.Base.{
  ℕ, Bool, true, false, not, ◌&&◌, ◌==◌, if◌then◌else◌, List, [], ◌∷◌, ◌++◌, map, Option, none,
  some, Text, codes, take,
}
use open_beanie.Base.Json.{
  Value, undefined, null, bool, nat, str, arr, obj, Fields, end, field, of_list, prop, truthy,
  text_of,
}
use open_beanie.Base.Result.{Result, ok, err}
use open_beanie.Base.Strings.{to_string}
use open_beanie.Chains.{api_chain, has_text}
use open_beanie.Lane.Create.{Announced}
use open_beanie.Pay.Checkout.{Payment}

pub record ApiError : Type 0 where
  pub status : ℕ
  pub message : Text
  pub retry_after : Option Text

-- What a call throws: the module's own error, or what `res.text()` throws, which is passed on as it
-- is since the call stands outside the `try`.
pub data CallError : Type 0 where
  api : ApiError → CallError
  unreadable : CallError

-- What `fetch` throws.
pub data FetchError : Type 0 where
  aborted failed : FetchError

-- `body` is the text of the answer, or `none` where it cannot be read, as when the connection breaks
-- off after the headers; `retry_after` is a header.
pub record Response : Type 0 where
  pub status : ℕ
  pub is_ok : Bool
  pub body : Option Text
  pub retry_after : Option Text

abbrev pub no_answer : FetchError → ApiError
no_answer aborted = record {
  status = 0;
  message = codes "The request timed out. Please try again.";
  retry_after = none;
}
no_answer failed = record {
  status = 0;
  message = codes "Could not reach the server. Check your connection.";
  retry_after = none;
}

-- `a ?? b`
abbrev pub or_next : Value → Value → Value
or_next undefined b = b
or_next null b = b
or_next a b = a

abbrev pub is_null : Value → Bool
is_null null = true
is_null _ = false

abbrev pub or_null : Option Value → Value
or_null none = null
or_null (some v) = v

-- A body that is empty or no JSON is `null`.
abbrev pub data_of : (Text → Option Value) → Text → Value
data_of parse [] = null
data_of parse (c ∷ t) = or_null (parse (c ∷ t))

-- `(data && (data.error ?? data.message)) || text || "HTTP …"`
unfoldable pub detail_of : Value → Text → ℕ → Text
unfolding truthy prop text_of to_string
detail_of v body status =
    let found = or_next (prop (codes "error") v) (prop (codes "message") v) in
    if truthy v && truthy found
    then text_of found
    else if has_text (some body)
    then body
    else codes "HTTP " ++ to_string 10 status

unfoldable pub error_message : Text → ℕ → Text
error_message detail status =
    if status == 429 then codes "Rate limit reached: " ++ detail else take 300 detail

-- `data ?? {}`
abbrev pub or_object : Value → Value
or_object v = or_next v (obj end)

-- `text` is the body that was read.
abbrev pub read_answer : (Text → Option Value) → Text → Response → Text → Result CallError Value
unfolding detail_of error_message
read_answer parse path r text =
    let v = data_of parse text in
    if not r.is_ok
    then err (
        api (record {
          status = r.status;
          message = error_message (detail_of v text r.status) r.status;
          retry_after = r.retry_after;
        }))
    else if has_text (some text) && is_null v
    then err (
        api (record {
          status = r.status;
          message = codes "Expected JSON from " ++ path;
          retry_after = none;
        }))
    else ok (or_object v)

abbrev pub read_body :
    (Text → Option Value) → Text → Response → Option Text → Result CallError Value
read_body parse path r none = err unreadable
read_body parse path r (some text) = read_answer parse path r text

unfoldable pub request :
    (Text → Option Value) → Text → Result FetchError Response → Result CallError Value
unfolding detail_of error_message
request parse path (err e) = err (api (no_answer e))
request parse path (ok r) = read_body parse path r r.body

-- A field that is left out where there is no text.
abbrev pub with_text : Text → Option Text → Fields → Fields
with_text k none fs = fs
with_text k (some []) fs = fs
with_text k (some (c ∷ t)) fs = field k (str (c ∷ t)) fs

-- The body of `createLane`.
unfoldable pub create_lane_body : Announced → Value
unfolding api_chain
create_lane_body a = obj (
    field (codes "chain") (str (api_chain a.chain)) (
      field (codes "address") (str a.address) (
        field (codes "lane_id") (str a.lane_id) (
          field (codes "verified_token") (str a.verified_token) (
            field (codes "target_chain") (str (api_chain a.target_chain)) (
              field (codes "target_recipient") (str a.target_recipient)
                (with_text (codes "webhook_url") a.webhook_url end)))))))

-- The body of `submitPayment`, which has no webhook; `signature` is the printed payload.
unfoldable pub payment_body : Payment → Text → Value
unfolding api_chain
payment_body p signature = obj (
    field (codes "chain") (str (api_chain p.chain)) (
      field (codes "merchant_address") (str p.merchant_address) (
        field (codes "receiver_address") (str p.receiver_address) (
          field (codes "destination_chain") (str (api_chain p.destination_chain)) (
            field (codes "tx_hash") (str p.tx_ref) (
              field (codes "from_address") (str p.from_address) (
                field (codes "amount_raw") (str p.amount_raw) (
                  field (codes "webhook_url") null
                    (field (codes "signature") (str signature) end)))))))))
