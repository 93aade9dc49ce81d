-- ===== src/Buffering/Tests.antt =====
-- Requests and responses of at most 4 bytes, 2 of them in memory.
use kamal_proxy.Base.{
  true, false, ℕ, ◌≡◌, ◌<◌, ◌≤◌, refl, false, List, [], ◌∷◌, none, some, arith, length,
}
use kamal_proxy.Base.Assoc.{same_bytes}
use kamal_proxy.Rollout.{codes}
use kamal_proxy.Buffer
use kamal_proxy.Buffer.{
  Buffer, Disk, new_buffered_write_closer, write_to_memory, new_buffered_read_closer, contents,
}
use kamal_proxy.Buffer.Copy.{body}
use kamal_proxy.Buffering.{
  Client, Action, header, chunk, run, act, new_writer, write_header, write, on_write,
  inner_write_header, inner_write, copy_to, should_switch_to_unbuffered, media_type,
  is_informational, serve_response, serve_request, next_with, refused, send, finish, http_error,
}
use kamal_proxy.Buffering.Outcome.{serve_request_lem}
use kamal_proxy.Buffering.Whole.{takes_over, serve_response-Whole}
use kamal_proxy.Buffering.Informational.{Implicit, serve_response_informational}

abbrev disk : Disk
disk = record {
  create_temp = none;
  write = λ p. (length p, none);
  write_le = λ p. omega arith;
  write_full = λ p _. refl;
}

abbrev fresh : Client
fresh = record { final = none; body = []; failed = false }

abbrev not_found : List Action
not_found = header 404 (codes "text/html; charset=utf-8") ∷ chunk disk (1 ∷ 2 ∷ []) ∷ []

abbrev hints : List Action
hints = header 103 [] ∷ not_found

not_found_sent :
    serve_response 4 2 not_found fresh
    ≡ record { final = some 404; body = 1 ∷ 2 ∷ []; failed = false }
unfolding serve_response finish send new_writer run act write_header write on_write inner_write
    copy_to inner_write_header should_switch_to_unbuffered media_type is_informational same_bytes
    Buffer.write Buffer.send write_to_memory new_buffered_write_closer
not_found_sent = refl

hints_sent :
    serve_response 4 2 hints fresh ≡ record { final = some 200; body = 1 ∷ 2 ∷ []; failed = false }
unfolding serve_response finish send new_writer run act write_header write on_write inner_write
    copy_to inner_write_header should_switch_to_unbuffered media_type is_informational same_bytes
    Buffer.write Buffer.send write_to_memory new_buffered_write_closer
hints_sent = refl

serve_response-Whole_example :
    let c' = serve_response 4 2 not_found fresh in
    (0 < 4 → 4 < 2 → c' ≡ http_error 500 fresh)
    × ((0 < 4 → 2 ≤ 4) → takes_over not_found ≡ true → c' ≡ fresh)
    × ((0 < 4 → 2 ≤ 4)
        → takes_over not_found ≡ false
        → c' ≡ copy_to (1 ∷ 2 ∷ []) (inner_write_header 404 fresh))
unfolding should_switch_to_unbuffered media_type same_bytes
serve_response-Whole_example = serve_response-Whole 4 2 not_found fresh ((refl, λ p. refl), tt) refl

serve_response_informational_example : Implicit (serve_response 4 2 hints fresh)
unfolding new_writer run act write_header write should_switch_to_unbuffered media_type
    is_informational same_bytes Buffer.write write_to_memory new_buffered_write_closer
serve_response_informational_example =
    serve_response_informational 4 2 103 [] not_found fresh refl refl refl refl refl

abbrev upload : List (Disk × List ℕ)
upload = (disk, 1 ∷ 2 ∷ []) ∷ (disk, 3 ∷ 4 ∷ 5 ∷ []) ∷ []

serve_request_lem_example :
    ((0 < 4 → length (body upload) ≤ 4)
      → (b : Buffer) × (serve_request upload none 4 2 ≡ next_with b) × (contents b ≡ body upload))
    × (0 < 4 → 4 < length (body upload) → serve_request upload none 4 2 ≡ refused 413)
serve_request_lem_example =
    serve_request_lem upload 4 2 ((refl, λ p. refl), ((refl, λ p. refl), tt))
