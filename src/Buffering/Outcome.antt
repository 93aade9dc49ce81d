-- ===== src/Buffering/Outcome.antt =====
-- What the client gets of a response that is buffered.
use kamal_proxy.Base.{
  ℕ, ◌<◌, ◌≤◌, ◌≡◌, refl, true, false, List, [], ◌∷◌, none, arith, if◌then◌else◌, length,
}
use std.Path.{subst}
use kamal_proxy.Buffer
use kamal_proxy.Buffer.{Buffer, Disk, maximum_size_exceeded, new_buffered_read_closer, contents}
use kamal_proxy.Buffer.Copy.{
  AllFaultless, body, new_buffered_read_closer_fits, new_buffered_read_closer_exceeds,
}
use kamal_proxy.Buffering.{
  Client, BufferedResponseWriter, inner_write_header, http_error, copy_to, send, write_header,
  switch_to_unbuffered, write, hijack, Action, header, chunk, take_over, act, run, new_writer,
  finish, serve_response, next_with, refused, passed, serve_request,
}

-- The client of a response that has not been switched to unbuffered has got nothing yet.
abbrev Untouched : Client → BufferedResponseWriter → Type 0
Untouched c w = w.bypass ≡ false → w.client ≡ c

pub switch_to_unbuffered-bypass :
    (w : BufferedResponseWriter) → (switch_to_unbuffered w).bypass ≡ true
unfolding switch_to_unbuffered send
switch_to_unbuffered-bypass w = ground arith

act-Untouched :
    (c : Client) (a : Action) (w : BufferedResponseWriter) → Untouched c w → Untouched c (act a w)
unfolding act write_header write hijack
act-Untouched c (header status content_type) w u b =
    ground (
      arith,
      switch_to_unbuffered-bypass (record w { status_code = status; header_written = true }),
    )
act-Untouched c (chunk os p) w u b = ground arith
act-Untouched c (take_over true) w u b = u b
act-Untouched c (take_over false) w u b = u b

run-Untouched :
    (c : Client) (as' : List Action) (w : BufferedResponseWriter)
    → Untouched c w
    → Untouched c (run as' w)
unfolding run
run-Untouched c [] w u = u
run-Untouched c (a ∷ as') w u = run-Untouched c as' (act a w) (act-Untouched c a w u)

-- All of a response that was not switched to unbuffered, or nothing of it.
abbrev pub AllOrNothing : BufferedResponseWriter → Client → Client → Type 0
AllOrNothing w c c' =
    (w.buffer.overflowed ≡ true → c' ≡ http_error 500 c)
    × (w.buffer.overflowed ≡ false → w.hijacked ≡ true → c' ≡ c)
    × (w.buffer.overflowed ≡ false
        → w.hijacked ≡ false
        → c'
          ≡ copy_to (Buffer.send w.buffer).1
              (if w.header_written then inner_write_header w.status_code c else c))

finish-AllOrNothing : (w : BufferedResponseWriter) → AllOrNothing w w.client (finish (send w))
unfolding finish send
finish-AllOrNothing w =
    (λ o. ground (o, arith), λ o h. ground (o, h, arith), λ o h. ground (o, h, arith))

-- Where a response is not switched to unbuffered, the client gets all that was buffered, with the
-- status that was written first; or only an error 500, where the response passed the size limit; or
-- nothing, where the connection was taken over.
pub serve_response-AllOrNothing :
    (max_bytes max_mem_bytes : ℕ) (actions : List Action) (c : Client)
    → let w = run actions (new_writer max_bytes max_mem_bytes c) in
      w.bypass ≡ false → AllOrNothing w c (serve_response max_bytes max_mem_bytes actions c)
unfolding serve_response new_writer
serve_response-AllOrNothing max_bytes max_mem_bytes actions c buffered =
    let w = run actions (new_writer max_bytes max_mem_bytes c) in
    let u = run-Untouched c actions (new_writer max_bytes max_mem_bytes c) (λ _. refl) buffered in
    subst (λ d. AllOrNothing w d (finish (send w))) u (finish-AllOrNothing w)

-- On faultless disks the next handler gets the whole body where it is within the limit, and past the
-- limit the client gets a 413.
pub serve_request_lem :
    (chunks : List (Disk × List ℕ)) (max_bytes max_mem_bytes : ℕ)
    → AllFaultless chunks
    → ((0 < max_bytes → length (body chunks) ≤ max_bytes)
        → (b : Buffer) × (serve_request chunks none max_bytes max_mem_bytes ≡ next_with b)
          × (contents b ≡ body chunks))
      × (0 < max_bytes
          → max_bytes < length (body chunks)
          → serve_request chunks none max_bytes max_mem_bytes ≡ refused 413)
unfolding serve_request passed
serve_request_lem chunks m k f = (
  λ h.
      let (e, whole) = new_buffered_read_closer_fits chunks m k f h in
      ((new_buffered_read_closer chunks none m k).0, rw e refl, whole),
  λ p h. rw (new_buffered_read_closer_exceeds chunks m k f p h) refl,
)
