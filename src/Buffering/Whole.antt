-- ===== src/Buffering/Whole.antt =====
-- The body and the status of a buffered response, from what its handler wrote.

use kamal_proxy.Base.{
  ℕ, ◌<◌, ◌≤◌, ◌≡◌, refl, ap, ◌∙◌, inl, inr, Bool, true, false, ◌||◌, List, [], ◌∷◌, Option, none,
  some, arith, if◌then◌else◌, length, Bool-cases,
}
use kamal_proxy.Paths.{Text}
use kamal_proxy.Buffer
use kamal_proxy.Buffer.{Buffer, Disk, contents, new_buffered_write_closer}
use kamal_proxy.Buffer.Copy.{AllFaultless, body, new-IsValid}
use kamal_proxy.Buffer.Writes.{write_all, write_all_fits, write_all_exceeds, send-contents}
use kamal_proxy.Buffering.{
  Client, BufferedResponseWriter, inner_write_header, http_error, copy_to, send, write_header,
  switch_to_unbuffered, write, hijack, should_switch_to_unbuffered, Action, header, chunk,
  take_over, act, run, new_writer, serve_response,
}
use kamal_proxy.Buffering.Outcome.{serve_response-AllOrNothing, switch_to_unbuffered-bypass}
use kamal_proxy.Buffering.Informational.{Settled, run-Settled, first-Settled}

-- The chunks that the handler writes, with the disk that each finds.
abbrev pub chunks : List Action → List (Disk × List ℕ)
chunks [] = []
chunks (chunk os p ∷ rest) = (os, p) ∷ chunks rest
chunks (header s t ∷ rest) = chunks rest
chunks (take_over b ∷ rest) = chunks rest

-- The status and the content type of the first call of WriteHeader.
abbrev pub first_header : List Action → Option (ℕ × Text)
first_header [] = none
first_header (header s t ∷ rest) = some (s, t)
first_header (chunk os p ∷ rest) = first_header rest
first_header (take_over b ∷ rest) = first_header rest

abbrev pub takes_over : List Action → Bool
takes_over [] = false
takes_over (take_over b ∷ rest) = b || takes_over rest
takes_over (header s t ∷ rest) = takes_over rest
takes_over (chunk os p ∷ rest) = takes_over rest

abbrev pub is_stream : Option (ℕ × Text) → Bool
is_stream none = false
is_stream (some (s, t)) = should_switch_to_unbuffered t

abbrev pub with_status : Option (ℕ × Text) → Client → Client
with_status none c = c
with_status (some (s, t)) c = inner_write_header s c

-- What is known of the writer after the header `h`, if any, was written first.
abbrev HeaderIs : Option (ℕ × Text) → BufferedResponseWriter → Type 0
HeaderIs none w = (w.header_written ≡ false) × (w.bypass ≡ false)
HeaderIs (some (s, t)) w = Settled s w

run-HeaderIs :
    (actions : List Action) (w : BufferedResponseWriter)
    → w.header_written ≡ false
    → w.bypass ≡ false
    → is_stream (first_header actions) ≡ false
    → HeaderIs (first_header actions) (run actions w)
unfolding run act write hijack
run-HeaderIs [] w h b n = (h, b)
run-HeaderIs (header s t ∷ rest) w h b n =
    run-Settled s rest (write_header s t w) (first-Settled s t w h b n)
run-HeaderIs (chunk os p ∷ rest) w h b n =
    run-HeaderIs rest (act (chunk os p) w) (ground (arith, h, b)) (ground (arith, h, b)) n
run-HeaderIs (take_over true ∷ rest) w h b n =
    run-HeaderIs rest (record w { hijacked = true }) h b n
run-HeaderIs (take_over false ∷ rest) w h b n = run-HeaderIs rest w h b n

HeaderIs-bypass :
    (h : Option (ℕ × Text)) (w : BufferedResponseWriter) → HeaderIs h w → w.bypass ≡ false
HeaderIs-bypass none w k = k.1
HeaderIs-bypass (some (s, t)) w k = k.2

HeaderIs-status :
    (h : Option (ℕ × Text)) (w : BufferedResponseWriter) (c : Client)
    → HeaderIs h w
    → (if w.header_written then inner_write_header w.status_code c else c) ≡ with_status h c
HeaderIs-status none w c (k, b) = rw k refl
HeaderIs-status (some (s, t)) w c (k, e, b) = rw (k, e) refl

-- A response that is switched to unbuffered remains so.
act-bypass : (a : Action) (w : BufferedResponseWriter) → w.bypass ≡ true → (act a w).bypass ≡ true
unfolding act write_header write hijack
act-bypass (header s t) w b =
    ground
      (arith, switch_to_unbuffered-bypass (record w { status_code = s; header_written = true }))
act-bypass (chunk os p) w b = ground arith
act-bypass (take_over true) w b = b
act-bypass (take_over false) w b = b

run-bypass :
    (as' : List Action) (w : BufferedResponseWriter) → w.bypass ≡ true → (run as' w).bypass ≡ true
unfolding run
run-bypass [] w b = b
run-bypass (a ∷ as') w b = run-bypass as' (act a w) (act-bypass a w b)

before-bypass :
    (as' : List Action) (w : BufferedResponseWriter) → (run as' w).bypass ≡ false → w.bypass ≡ false
before-bypass as' w e = elim (Bool-cases w.bypass) [
  | inl b ↦ absurd (ground (arith, run-bypass as' w b, e))
  | inr b ↦ b
]

header-buffer :
    (s : ℕ) (t : Text) (w : BufferedResponseWriter)
    → (write_header s t w).bypass ≡ false
    → (write_header s t w).buffer ≡ w.buffer
unfolding write_header
header-buffer s t w b =
    ground
      (arith, switch_to_unbuffered-bypass (record w { status_code = s; header_written = true }))

chunk-buffer :
    (os : Disk) (p : List ℕ) (w : BufferedResponseWriter)
    → w.bypass ≡ false
    → (write os p w).0.buffer ≡ (Buffer.write os w.buffer p).0
unfolding write
chunk-buffer os p w b = rw b refl

run-buffer :
    (as' : List Action) (w : BufferedResponseWriter)
    → (run as' w).bypass ≡ false
    → (run as' w).buffer ≡ write_all (chunks as') w.buffer
unfolding run act hijack write_all
run-buffer [] w b = refl
run-buffer (header s t ∷ rest) w b =
    run-buffer rest (write_header s t w) b
    ∙ ap (write_all (chunks rest)) (header-buffer s t w (before-bypass rest (write_header s t w) b))
run-buffer (chunk os p ∷ rest) w b =
    run-buffer rest (write os p w).0 b
    ∙ ap (write_all (chunks rest)) (
        chunk-buffer os p w
          (before-bypass (chunk os p ∷ []) w (before-bypass rest (write os p w).0 b)))
run-buffer (take_over true ∷ rest) w b = run-buffer rest (record w { hijacked = true }) b
run-buffer (take_over false ∷ rest) w b = run-buffer rest w b

act-hijacked :
    (a : Action) (w : BufferedResponseWriter)
    → (act a w).hijacked ≡ takes_over (a ∷ []) || w.hijacked
unfolding act write_header write hijack switch_to_unbuffered send
act-hijacked (header s t) w = ground arith
act-hijacked (chunk os p) w = ground arith
act-hijacked (take_over true) w = refl
act-hijacked (take_over false) w = refl

run-hijacked :
    (as' : List Action) (w : BufferedResponseWriter)
    → (run as' w).hijacked ≡ takes_over as' || w.hijacked
unfolding run
run-hijacked [] w = refl
run-hijacked (header s t ∷ rest) w =
    run-hijacked rest (act (header s t) w)
    ∙ ap (λ x. takes_over rest || x) (act-hijacked (header s t) w)
run-hijacked (chunk os p ∷ rest) w =
    run-hijacked rest (act (chunk os p) w)
    ∙ ap (λ x. takes_over rest || x) (act-hijacked (chunk os p) w)
run-hijacked (take_over b ∷ rest) w =
    run-hijacked rest (act (take_over b) w)
    ∙ ap (λ x. takes_over rest || x) (act-hijacked (take_over b) w)
    ∙ ground arith

module _ (max_bytes max_mem_bytes : ℕ) (actions : List Action) (c : Client) where
  at_end : BufferedResponseWriter
  at_end = run actions (new_writer max_bytes max_mem_bytes c)

  at_end-buffer :
      at_end.bypass ≡ false
      → at_end.buffer
        ≡ write_all (chunks actions) (new_buffered_write_closer max_bytes max_mem_bytes)
  unfolding at_end new_writer
  at_end-buffer = run-buffer actions (new_writer max_bytes max_mem_bytes c)

  at_end-hijacked : at_end.hijacked ≡ takes_over actions
  unfolding at_end new_writer
  at_end-hijacked = run-hijacked actions (new_writer max_bytes max_mem_bytes c) ∙ ground arith

  at_end-HeaderIs :
      is_stream (first_header actions) ≡ false → HeaderIs (first_header actions) at_end
  unfolding at_end new_writer
  at_end-HeaderIs = run-HeaderIs actions (new_writer max_bytes max_mem_bytes c) refl refl

  -- On faultless disks, where the content type of the first header is not that of an event stream: the
  -- client gets all bytes that the handler wrote, under the status that it wrote first, where they are
  -- within the limit; an error 500 and none of them, where they are past it; and nothing, where the
  -- handler took the connection over and wrote no more than the limit.
  pub serve_response-Whole :
      AllFaultless (chunks actions)
      → is_stream (first_header actions) ≡ false
      → let c' = serve_response max_bytes max_mem_bytes actions c in
        let n = length (body (chunks actions)) in
        (0 < max_bytes → max_bytes < n → c' ≡ http_error 500 c)
        × ((0 < max_bytes → n ≤ max_bytes) → takes_over actions ≡ true → c' ≡ c)
        × ((0 < max_bytes → n ≤ max_bytes)
            → takes_over actions ≡ false
            → c' ≡ copy_to (body (chunks actions)) (with_status (first_header actions) c))
  unfolding at_end new_buffered_write_closer
  serve_response-Whole faultless buffered =
      let known = at_end-HeaderIs buffered in
      let unswitched = HeaderIs-bypass (first_header actions) at_end known in
      let b = new_buffered_write_closer max_bytes max_mem_bytes in
      let v = new-IsValid max_bytes max_mem_bytes in
      let same = at_end-buffer unswitched in
      let overflow = ap (λ (x : Buffer). x.overflowed) same in
      let outcome = serve_response-AllOrNothing max_bytes max_mem_bytes actions c unswitched in
      let fits = λ (h : 0 < max_bytes → length (body (chunks actions)) ≤ max_bytes).
        write_all_fits (chunks actions) b faultless v refl refl (λ p. omega (arith, h p)) in
      (
        λ p l.
            outcome.0 (
              overflow
              ∙ write_all_exceeds (chunks actions) b faultless v refl p (omega (arith, l))),
        λ h t. outcome.1 (overflow ∙ (fits h).1) (at_end-hijacked ∙ t),
        λ h t.
            outcome.2 (overflow ∙ (fits h).1) (at_end-hijacked ∙ t)
            ∙ ap (λ x. copy_to (Buffer.send at_end.buffer).1 x)
                (HeaderIs-status (first_header actions) at_end c known)
            ∙ ap (λ x. copy_to x (with_status (first_header actions) c))
                (send-contents at_end.buffer ∙ ap contents same ∙ (fits h).0),
      )
