-- ===== src/Tests/Identities.antt =====
-- One run of each theorem on the verification of Privy tokens.
use account_abstraction.Base.{
  ◌≡◌, refl, String, true, false, Option, none, some, List, [], ◌∷◌, ◌==◌, Result, ok, err, All,
  length, if◌then◌else◌,
}
use account_abstraction.Js.Value.{Value, int, pos, str, obj, arr, end, field, nil, cons}
use account_abstraction.Js.Text.{trim, split, strip_prefix_ignoring_case, template, to_text}
use account_abstraction.Js.Number.Compare.{at_least}
use account_abstraction.Ethers.{Exn, plain_error}
use account_abstraction.App.Privy.{
  KeyLibrary, JwksAnswer, Token, auth_error, Identity, open_token, check_token, read_claims,
  audience_matches,
}
use account_abstraction.App.Privy.Keys.{
  Verifier, Event, arrives, loaded, new_verifier, step, run, read_keys, load_keys, end_load,
  key_for, proceed, resume, resume_all,
}
use account_abstraction.App.Privy.Trusted.{IsRight}
use account_abstraction.App.Privy.Verified.{run-IsVerified}
use account_abstraction.App.Privy.Fetching.{IsSpaced, step-IsSpaced, failed_load-fetches}
use account_abstraction.App.Privy.Answering.{calls, run-answers}

abbrev header : Value
header = obj (field "alg" (str "ES256") (field "kid" (str "k1") end))

abbrev claims : Value
claims = obj (
    field "iss" (str "privy.io")
      (field "aud" (str "app") (field "exp" (int (pos 100)) (field "sub" (str "did:privy:1") end))))

abbrev decode : String → Option Value
decode s = if s == "h" then some header else if s == "p" then some claims else none

abbrev toy_library : KeyLibrary String
toy_library = record {
  import_key = λ jwk. some "key";
  check_signature = λ key text signature. ok (signature == "s");
  decode_json = decode;
  times_1000 = λ text. int (pos 0);
}

abbrev url : String
url = "https://auth.privy.io/jwks.json"

abbrev jwks : Result Exn JwksAnswer
jwks = ok (record {
  passed = true;
  status = 200;
  body = obj (field "keys" (arr (cons (obj (field "kid" (str "k1") end)) nil)) end);
})

abbrev unreachable : Result Exn JwksAnswer
unreachable = err (plain_error "timeout")

abbrev bearer : Option String
bearer = some "Bearer h.p.s"

abbrev token : Token
token = record { head = "h"; payload = "p"; signature = "s"; kid = str "k1" }

opened : open_token toy_library "app" bearer ≡ ok token
unfolding open_token trim split strip_prefix_ignoring_case
opened = refl

abbrev two_events : List Event
two_events = arrives 1 bearer 60_000 ∷ loaded jwks 60_100 60_200 ∷ []

abbrev identity : Identity
identity = record { sub = "did:privy:1"; sid = none; expires_at = int (pos 100_000) }

-- The run answers the call with the user.
named :
    (run toy_library "app" url two_events (new_verifier String)).answers
    ≡ record { id = 1; authorization = bearer; at = 60_200; result = ok identity } ∷ []
unfolding run step open_token trim split strip_prefix_ignoring_case key_for proceed load_keys
    read_keys end_load resume_all resume check_token read_claims audience_matches at_least template
    to_text
named = refl

run-IsVerified_example :
    All
      (IsRight toy_library "app" url two_events)
      (run toy_library "app" url two_events (new_verifier String)).answers
run-IsVerified_example = run-IsVerified toy_library "app" url two_events

abbrev with_keys : Verifier String
with_keys = record {
  cache = record { keys = (str "k0", "key0") ∷ []; fetched_at = 1000; in_flight = false };
  waiting = [];
  answers = [];
  fetches = [];
}

rotated : (step toy_library "app" url (arrives 1 bearer 32_000) with_keys).fetches ≡ 32_000 ∷ []
unfolding step key_for proceed
rotated = rw opened refl

step-IsSpaced_example :
    IsSpaced toy_library "app" url
      (step toy_library "app" url (arrives 1 bearer 32_000) with_keys).cache
      32_000
step-IsSpaced_example =
    step-IsSpaced toy_library "app" url (arrives 1 bearer 32_000) with_keys 32_000 refl rotated

abbrev loading : Verifier String
loading = record (new_verifier String) {
  cache = record { keys = []; fetched_at = 0; in_flight = true };
  fetches = 60_000 ∷ [];
}

failed :
    load_keys toy_library "app" url unreachable
    ≡ err (auth_error (template ("cannot reach the Privy JWKS at " ∷ url ∷ ": " ∷ "timeout" ∷ [])))
unfolding load_keys
failed = refl

failed_load-fetches_example :
    (step toy_library "app" url
      (arrives 2 bearer 60_002)
      (step toy_library "app" url (loaded unreachable 60_001 60_001) loading)).fetches
    ≡ 60_002 ∷ 60_000 ∷ []
failed_load-fetches_example =
    failed_load-fetches toy_library "app" url unreachable 60_001 60_001 2 60_002 bearer _ token
      loading refl refl failed opened

run-answers_example :
    let v = run toy_library "app" url two_events (new_verifier String) in
    let after =
      step toy_library "app" url
        (loaded jwks 3 4)
        (step toy_library "app" url (loaded unreachable 1 2) v) in
    (after.waiting ≡ []) × (length after.answers ≡ calls two_events)
run-answers_example = run-answers toy_library "app" url two_events unreachable jwks 1 2 3 4
