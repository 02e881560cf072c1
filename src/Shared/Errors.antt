-- ===== src/Shared/Errors.antt =====
-- packages/shared/src/errors: the errors that handlers throw, and what the error handler answers.
use ai_agentic_english.Prelude.{ℕ, String}

pub record AppError : Type 0 where
  pub message : String
  pub status_code : ℕ
  pub code : String

unfoldable pub not_found_error : String → AppError
not_found_error message = record { message = message; status_code = 404; code = "NOT_FOUND" }

unfoldable pub validation_error : String → AppError
validation_error message = record {
  message = message;
  status_code = 400;
  code = "VALIDATION_ERROR";
}

unfoldable pub unauthorized_error : String → AppError
unauthorized_error message = record { message = message; status_code = 401; code = "UNAUTHORIZED" }

-- What a handler throws: an error of the application, or any other, by its text.
pub data Thrown : Type 0 where
  app : AppError → Thrown
  other : String → Thrown

pub record ErrorResponse : Type 0 where
  pub status : ℕ
  pub code : String
  pub message : String

unfoldable pub error_handler : Thrown → ErrorResponse
error_handler (app e) = record { status = e.status_code; code = e.code; message = e.message }
error_handler (other _) = record {
  status = 500;
  code = "INTERNAL_ERROR";
  message = "Internal server error";
}
