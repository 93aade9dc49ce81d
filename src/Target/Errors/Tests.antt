-- ===== src/Target/Errors/Tests.antt =====
-- Answers to errors at concrete inputs.
use kamal_proxy.Base.{◌≡◌, refl, true, false, [], ◌∷◌}
use kamal_proxy.Target.Errors.{
  max_bytes_error, context_canceled, error_draining, other_error, net_error, error_response,
  write_header, handle_proxy_error,
}

wrapped_body_limit :
    handle_proxy_error (other_error ∷ max_bytes_error ∷ context_canceled ∷ []) ≡ error_response 413
unfolding handle_proxy_error
wrapped_body_limit = refl

first_net_error_counts :
    handle_proxy_error (net_error false ∷ net_error true ∷ []) ≡ error_response 502
unfolding handle_proxy_error
first_net_error_counts = refl

client_left : handle_proxy_error (other_error ∷ context_canceled ∷ []) ≡ write_header 499
unfolding handle_proxy_error
client_left = refl

drained : handle_proxy_error (error_draining ∷ []) ≡ error_response 504
unfolding handle_proxy_error
drained = refl
