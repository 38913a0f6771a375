-- ===== src/Api.antt =====
-- internal/api/client.go: the errors of the HTTP client and the shape of its requests. The server
-- is not part of the program: what a request returns is a function of the number of requests made
-- before it, which the operations take as a parameter.
pub mod Retry
pub mod Download
use appcenter_agent_linux.Base.{
  ◌≡◌, refl, ℕ, zero, suc, ◌+◌, ◌++◌, ℤ, pos, is_positive, Bool, true, false, ◌&&◌, ◌||◌, List, [],
  ◌∷◌, if◌then◌else◌, Option, none, some, ltb, leb,
}
use appcenter_agent_linux.Text.{Text, codes, trim_space, itoa, itoa_ℤ, has_prefix, trim_right_slash}

-- A Go `error`: an `*HTTPStatusError`, or any other with its text.
pub data Error : Type 0 where
  http_status : Text → Text → ℕ → Text → Error
  message : Text → Error

-- err.Error()
unfoldable pub error_text : Error → Text
error_text (http_status method path status body) =
    method
    ++ codes " "
    ++ path
    ++ codes " failed: HTTP "
    ++ itoa status
    ++ codes ": "
    ++ trim_space body
error_text (message m) = m

-- IsRetryableError of an error that is not nil
unfoldable pub is_retryable : Error → Bool
is_retryable (http_status method path status body) = leb 500 status
is_retryable (message m) = true

pub data Result {ℓ} (A : Type ℓ) : Type ℓ where
  ok : A → Result A
  err : Error → Result A

abbrev pub is_ok {ℓ} : {A : Type ℓ} → Result A → Bool
is_ok (ok a) = true
is_ok (err e) = false

-- What holds of both outcomes holds of the match, where each branch knows the result.
pub result_split {ℓ κ μ} :
    {A : Type ℓ} {B : Type κ} (P : B → Type μ) (r : Result A) {f : A → B} {g : Error → B}
    → ((a : A) → r ≡ ok a → P (f a))
    → ((e : Error) → r ≡ err e → P (g e))
    → P (elim r [ ok a ↦ f a | err e ↦ g e ])
result_split P (ok a) h k = h a refl
result_split P (err e) h k = k e refl

-- What `c.httpClient.Do(req)` and reading the body give.
pub data Exchange : Type 0 where
  transport_error : Text → Exchange
  response : ℕ → Text → Exchange

-- resp.StatusCode < 200 || resp.StatusCode >= 300
abbrev pub is_failure : ℕ → Bool
is_failure status = ltb status 200 || leb 300 status

-- The end of `postJSON` and `getJSON`; `decode` is `json.Unmarshal` into the caller's struct.
unfoldable pub receive {ℓ} : {A : Type ℓ} → Text → Text → (Text → Result A) → Exchange → Result A
receive method path decode (transport_error m) = err (message m)
receive method path decode (response status body) =
    if is_failure status then err (http_status method path status body) else decode body

-- The wrapping of an error of `json.Unmarshal`.
unfoldable pub decoding {ℓ} : {A : Type ℓ} → (Text → Result A) → Text → Result A
decoding unmarshal body = elim (unmarshal body) [
  | err e ↦ err (message (codes "decode response: " ++ error_text e))
  | ok a ↦ ok a
]

-- postJSON
unfoldable pub post_json {ℓ} : {A : Type ℓ} → Text → (Text → Result A) → Exchange → Result A
unfolding receive decoding
post_json path unmarshal = receive (codes "POST") path (decoding unmarshal)

-- getJSON
unfoldable pub get_json {ℓ} : {A : Type ℓ} → Text → (Text → Result A) → Exchange → Result A
unfolding receive decoding
get_json path unmarshal = receive (codes "GET") path (decoding unmarshal)

pub record RemoteApproveRequest : Type 0 where
  pub approved : Bool
  pub monitor_count : ℤ

pub record RemoteApproveResponse : Type 0 where
  pub vnc_password : Text
  pub guacd_host : Text
  pub guacd_reverse_port : ℤ

pub record RemoteReadyRequest : Type 0 where
  pub vnc_ready : Bool
  pub local_vnc_port : ℤ

pub record RemoteEndedRequest : Type 0 where
  pub ended_by : Text
  pub reason : Text

-- The body of RemoteApprove
unfoldable pub remote_approve_request : Bool → ℤ → RemoteApproveRequest
remote_approve_request approved count = record {
  approved = approved;
  monitor_count = if is_positive count then count else pos 0;
}

-- The body of RemoteReady
unfoldable pub remote_ready_request : ℤ → RemoteReadyRequest
remote_ready_request port = record {
  vnc_ready = true;
  local_vnc_port = if is_positive port then port else pos 0;
}

abbrev pub remote_path : ℤ → Text → Text
remote_path id verb = codes "/api/v1/agent/remote-support/" ++ itoa_ℤ id ++ codes "/" ++ verb

-- The requests about a remote support session, with the session's id.
pub data RemoteCall : Type 0 where
  approve_call : ℤ → RemoteApproveRequest → RemoteCall
  ready_call : ℤ → RemoteReadyRequest → RemoteCall
  ended_call : ℤ → RemoteEndedRequest → RemoteCall
