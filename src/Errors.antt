-- ===== src/Errors.antt =====
-- src/errors.rs: the error taxonomy, and the HTTP answer that each error becomes.
pub mod Answers
pub mod Outcomes
use update_delivery_system.Prelude.{ℕ, String, ◌≡◌, refl, ◌⊎◌, inl, inr, Bool, leb}
use update_delivery_system.Prelude.Text.{◌<>◌}

-- The errors of the libraries that `Io`, `Json`, `TomlDe` and `Semver` wrap are their texts.
pub data UdsError : Type 0 where
  bad_request : String → UdsError
  unauthorized forbidden fleet_unavailable : UdsError
  payload_too_large not_found conflict config storage : String → UdsError
  io json toml_de semver : String → UdsError

pub data Result {ℓ} (A : Type ℓ) : Type ℓ where
  ok : A → Result A
  err : UdsError → Result A

-- The operator `?`: an error returns early.
infixl 5 ◌>>=◌
abbrev pub ◌>>=◌ {ℓ κ} : {A : Type ℓ} {B : Type κ} → Result A → (A → Result B) → Result B
err failure >>= rest = err failure
ok value >>= rest = rest value

-- The same where the value is `()`.
infixl 5 ◌>>◌
abbrev pub ◌>>◌ {κ} : {B : Type κ} → Result (Unit {0}) → Result B → Result B
err failure >> rest = err failure
ok _ >> rest = rest

pub Result-cases {ℓ} :
    {A : Type ℓ} (m : Result A) → ((a : A) × (m ≡ ok a)) ⊎ ((e : UdsError) × (m ≡ err e))
Result-cases (ok a) = inl (a, refl)
Result-cases (err e) = inr (e, refl)

-- The text of an error; that of a library's error is its own.
unfoldable pub show_error : UdsError → String
show_error (bad_request message) = "bad request: " <> message
show_error unauthorized = "unauthorized"
show_error forbidden = "forbidden"
show_error fleet_unavailable = "fleet confirmation unavailable"
show_error (payload_too_large message) = "payload too large: " <> message
show_error (not_found message) = "not found: " <> message
show_error (conflict message) = "conflict: " <> message
show_error (config message) = "configuration error: " <> message
show_error (storage message) = "storage error: " <> message
show_error (io message) = message
show_error (json message) = message
show_error (toml_de message) = message
show_error (semver message) = message

-- The body `ErrorBody` with the status and the `ErrorResponseMetadata` of the response.
pub record ErrorResponse : Type 0 where
  pub status : ℕ
  pub error : String
  pub code : String
  pub error_id : ℕ
  pub internal : Bool

unfoldable pub status_of : UdsError → ℕ
status_of (bad_request message) = 400
status_of unauthorized = 401
status_of forbidden = 403
status_of fleet_unavailable = 503
status_of (payload_too_large message) = 413
status_of (not_found message) = 404
status_of (conflict message) = 409
status_of _ = 500

abbrev error_and_code : UdsError → String × String
error_and_code (bad_request message) = (message, "bad_request")
error_and_code unauthorized = ("unauthorized", "unauthorized")
error_and_code forbidden = ("forbidden", "forbidden")
error_and_code fleet_unavailable =
    ("fleet confirmation unavailable", "fleet_confirmation_unavailable")
error_and_code (payload_too_large message) = (message, "payload_too_large")
error_and_code (not_found message) = (message, "not_found")
error_and_code (conflict message) = (message, "conflict")
error_and_code _ = ("internal server error", "internal_error")

-- `StatusCode::is_server_error`.
abbrev pub is_server_error : ℕ → Bool
is_server_error status = leb 500 status

-- The argument `error_id` is the fresh random identifier of this answer.
unfoldable pub into_response : ℕ → UdsError → ErrorResponse
unfolding status_of
into_response error_id e = record {
  status = status_of e;
  error = (error_and_code e).0;
  code = (error_and_code e).1;
  error_id = error_id;
  internal = is_server_error (status_of e);
}
