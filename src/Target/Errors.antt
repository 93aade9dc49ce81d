-- ===== src/Target/Errors.antt =====
-- internal/server/target.go: how an error of the proxy is answered. An error is the chain that
-- errors.Is and errors.As walk, the outermost first.
mod Tests
use kamal_proxy.Base.{ℕ, Bool, true, false, ◌||◌, List, [], ◌∷◌, if◌then◌else◌}

-- `net_error` is a net.Error, with what its Timeout answers.
pub data ErrorLink : Type 0 where
  max_bytes_error context_canceled error_draining other_error : ErrorLink
  net_error : Bool → ErrorLink

is_request_entity_too_large : List ErrorLink → Bool
is_request_entity_too_large [] = false
is_request_entity_too_large (max_bytes_error ∷ es) = true
is_request_entity_too_large (_ ∷ es) = is_request_entity_too_large es

is_gateway_timeout : List ErrorLink → Bool
is_gateway_timeout [] = false
is_gateway_timeout (net_error timeout ∷ es) = timeout
is_gateway_timeout (_ ∷ es) = is_gateway_timeout es

is_client_cancellation : List ErrorLink → Bool
is_client_cancellation [] = false
is_client_cancellation (context_canceled ∷ es) = true
is_client_cancellation (_ ∷ es) = is_client_cancellation es

is_draining_error : List ErrorLink → Bool
is_draining_error [] = false
is_draining_error (error_draining ∷ es) = true
is_draining_error (_ ∷ es) = is_draining_error es

-- An error page, or a bare status.
pub data Answer : Type 0 where
  error_response write_header : ℕ → Answer

pub handle_proxy_error : List ErrorLink → Answer
unfolding is_request_entity_too_large is_gateway_timeout is_client_cancellation is_draining_error
handle_proxy_error e =
    if is_request_entity_too_large e
    then error_response 413
    else if is_gateway_timeout e
    then error_response 504
    else if is_client_cancellation e
    then write_header 499
    else if is_draining_error e
    then error_response 504
    else error_response 502
