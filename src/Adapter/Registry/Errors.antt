-- ===== src/Adapter/Registry/Errors.antt =====
-- packages/openclaw-adapter/src/client/runtime-error-result.ts: the code of an error that a call of
-- the runtime threw, and whether the call may be tried again. Its message is left out.
use Prim.Native.Char.{code}
use lanxin_claw.Shared.{
  ℕ, zero, suc, String, Bool, true, false, not, ◌&&◌, ◌||◌, [], ◌∷◌, Option, none, some,
  if◌then◌else◌, ◌==◌, any, leb, trim,
}
use lanxin_claw.Adapter.Registry.Keys.{starts_with}

-- What was thrown: the fields of an object that hold a value of the right type, and the message of
-- an `Error`.
pub record Thrown : Type 0 where
  pub code : Option String
  pub retryable : Option Bool
  pub message : Option String

pub record RuntimeError : Type 0 where
  pub code : String
  pub retryable : Bool

-- A character of `[A-Za-z0-9_.:-]`.
abbrev is_code_character : ℕ → Bool
is_code_character c =
    (leb 65 c && leb c 90)
    || (leb 97 c && leb c 122)
    || (leb 48 c && leb c 58)
    || (leb 95 c && leb c 95)
    || (leb 45 c && leb c 46)

abbrev is_code_text : ℕ → String → Bool
is_code_text left String.[] = true
is_code_text zero (String.◌∷◌ c rest) = false
is_code_text (suc left) (String.◌∷◌ c rest) = is_code_character (code c) && is_code_text left rest

unfoldable pub safe_error_code : Option String → Option String
safe_error_code none = none
safe_error_code (some value) =
    let text = trim value in if not (text == "") && is_code_text 80 text then some text else none

unfoldable pub is_retryable_gateway_code : String → Bool
is_retryable_gateway_code text = not (
    any (λ other. other == text)
      ("gateway_url_missing" ∷ "gateway_agent_missing" ∷ "gateway_scope_missing"
        ∷ "gateway_auth_missing" ∷ "gateway_connect_rejected" ∷ "gateway_invalid_run"
        ∷ "gateway_run_not_found" ∷ []))

abbrev retryable_for_code : String → Option Bool → Bool
retryable_for_code text (some value) = value
retryable_for_code text none = starts_with "gateway_" text && is_retryable_gateway_code text

abbrev message_code : Option String → String → RuntimeError
message_code none fallback_code = record { code = fallback_code; retryable = true }
message_code (some message) fallback_code =
    if starts_with "gateway_" message
    then record { code = message; retryable = is_retryable_gateway_code message }
    else record { code = fallback_code; retryable = true }

unfoldable pub runtime_error_result : Thrown → String → RuntimeError
runtime_error_result thrown fallback_code = elim (safe_error_code thrown.code) [
  | some text ↦ record { code = text; retryable = retryable_for_code text thrown.retryable }
  | none ↦ message_code thrown.message fallback_code
]
