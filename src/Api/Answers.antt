-- ===== src/Api/Answers.antt =====
-- What a call gives for each answer of the server.
use open_beanie.Base.{
  ℕ, ◌≡◌, ◌≢◌, refl, Bool, true, false, [], ◌∷◌, Option, none, some, Text, ◌++◌, codes,
  if◌then◌else◌, inl, inr, ◌⊎◌,
}
use open_beanie.Base.Json.{Value, undefined, null, bool, nat, number, str, arr, obj, end}
use open_beanie.Base.Result.{Result, ok, err}
use open_beanie.Api.{
  ApiError, CallError, api, unreadable, FetchError, Response, no_answer, is_null, or_null,
  or_object, read_answer, read_body, request,
}

-- The value of an answer: what its body says, or an empty object for an empty body.
abbrev pub Reads : (Text → Option Value) → Text → Value → Type 0
Reads parse body v = ((body ≡ []) × (v ≡ obj end)) ⊎ (body ≢ []) × (parse body ≡ some v)

-- What an error tells of an answer: its status; its header only where it is not a success.
pub record Tells (r : Response) (e : ApiError) : Type 0 where
  pub status : e.status ≡ r.status
  pub retry :
      (r.is_ok ≡ false) × (e.retry_after ≡ r.retry_after)
      ⊎ (r.is_ok ≡ true) × (e.retry_after ≡ none) × (r.body ≢ some [])
  pub has_body : r.body ≢ none

-- Each answer of the server, with what the call makes of it.
abbrev pub Meaning :
    (Text → Option Value) → Result FetchError Response → Result CallError Value → Type 0
Meaning parse (err f) (err (api e)) = (e ≡ no_answer f) × (e.status ≡ 0)
Meaning parse (ok r) (err (api e)) = Tells r e
Meaning parse (ok r) (err unreadable) = r.body ≡ none
Meaning parse (ok r) (ok v) = (r.is_ok ≡ true) × (t : Text) × (r.body ≡ some t) × Reads parse t v
Meaning parse (err f) _ = ⊥

cons-ne-nil : (c : ℕ) (t : Text) → c ∷ t ≢ []
cons-ne-nil c t h = cc

some-ne-none : (t : Text) → some t ≢ none
some-ne-none t h = cc

some_cons-ne-nil : (c : ℕ) (t : Text) → some (c ∷ t) ≢ some []
some_cons-ne-nil c t h = cc

module _ (parse : Text → Option Value) (path : Text) (status : ℕ) (retry_after : Option Text) where
  abbrev response : Bool → Option Text → Response
  response is_ok body = record {
    status = status;
    is_ok = is_ok;
    body = body;
    retry_after = retry_after;
  }

  abbrev no_json : ApiError
  no_json = record {
    status = status;
    message = codes "Expected JSON from " ++ path;
    retry_after = none;
  }

  -- A success with a body, for each value that it may parse to.
  parsed :
      (c : ℕ) (t : Text) (o : Option Value)
      → parse (c ∷ t) ≡ o
      → o ≢ some undefined
      → Meaning parse
          (ok (response true (some (c ∷ t))))
          (if is_null (or_null o) then err (api no_json) else ok (or_object (or_null o)))
  parsed c t none e defined = record {
    status = refl;
    retry = inr (refl, refl, some_cons-ne-nil c t);
    has_body = some-ne-none (c ∷ t);
  }
  parsed c t (some undefined) e defined = absurd (defined refl)
  parsed c t (some null) e defined = record {
    status = refl;
    retry = inr (refl, refl, some_cons-ne-nil c t);
    has_body = some-ne-none (c ∷ t);
  }
  parsed c t (some (bool b)) e defined = (refl, c ∷ t, refl, inr (cons-ne-nil c t, e))
  parsed c t (some (nat n)) e defined = (refl, c ∷ t, refl, inr (cons-ne-nil c t, e))
  parsed c t (some (number x n)) e defined = (refl, c ∷ t, refl, inr (cons-ne-nil c t, e))
  parsed c t (some (str x)) e defined = (refl, c ∷ t, refl, inr (cons-ne-nil c t, e))
  parsed c t (some (arr vs)) e defined = (refl, c ∷ t, refl, inr (cons-ne-nil c t, e))
  parsed c t (some (obj fs)) e defined = (refl, c ∷ t, refl, inr (cons-ne-nil c t, e))

  answered :
      (is_ok : Bool) (body : Option Text)
      → ((t : Text) → parse t ≢ some undefined)
      → Meaning parse (ok (response is_ok body)) (read_body parse path (response is_ok body) body)
  unfolding read_answer
  answered is_ok none defined = refl
  answered false (some t) defined = record {
    status = refl;
    retry = inl (refl, refl);
    has_body = some-ne-none t;
  }
  answered true (some []) defined = (refl, [], refl, inl (refl, refl))
  answered true (some (c ∷ t)) defined = parsed c t (parse (c ∷ t)) refl (defined (c ∷ t))

-- Where parsing never gives undefined: a call throws the module's own error with the status 0
-- where there is no answer; what reading the body throws, with no status, just where there is an
-- answer whose body cannot be read; and else it throws the module's error with the status of the
-- answer, and then with its retry-after header where the answer is an error, or with none where it
-- is a success whose body is not empty; it succeeds only on a success, with the value of its body,
-- or an empty object for an empty body.
pub request-Meaning :
    (parse : Text → Option Value) (path : Text) (answer : Result FetchError Response)
    → ((t : Text) → parse t ≢ some undefined)
    → Meaning parse answer (request parse path answer)
unfolding request
request-Meaning parse path (err FetchError.aborted) defined = (refl, refl)
request-Meaning parse path (err FetchError.failed) defined = (refl, refl)
request-Meaning parse path (ok r) defined =
    answered parse path r.status r.retry_after r.is_ok r.body defined
