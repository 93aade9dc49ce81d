-- ===== src/Buffering/Informational.antt =====
-- A handler that writes an informational status first, as httputil.ReverseProxy does for the 1xx
-- responses of a target (response_buffer_middleware.go).
use kamal_proxy.Base.{
  ℕ, ◌≡◌, refl, ◌⊎◌, if◌then◌else◌, inl, inr, true, false, List, [], ◌∷◌, none, some, arith,
}
use kamal_proxy.Paths.{Text}
use kamal_proxy.Buffer
use kamal_proxy.Buffering.{
  Client, BufferedResponseWriter, is_informational, inner_write_header, inner_write, copy_to,
  write_header, write, hijack, should_switch_to_unbuffered, Action, header, chunk, take_over, act,
  run, new_writer, serve_response,
}
use kamal_proxy.Buffering.Outcome.{serve_response-AllOrNothing}

-- The status is settled and the response is buffered.
abbrev pub Settled : ℕ → BufferedResponseWriter → Type 0
Settled s w = (w.header_written ≡ true) × (w.status_code ≡ s) × (w.bypass ≡ false)

act-Settled : (s : ℕ) (a : Action) (w : BufferedResponseWriter) → Settled s w → Settled s (act a w)
unfolding act write_header write hijack
act-Settled s (header status content_type) w (h, e, b) = rw (h) (refl, e, b)
act-Settled s (chunk os p) w (h, e, b) = rw (b) (h, e, refl)
act-Settled s (take_over true) w k = k
act-Settled s (take_over false) w k = k

pub run-Settled :
    (s : ℕ) (as' : List Action) (w : BufferedResponseWriter) → Settled s w → Settled s (run as' w)
unfolding run
run-Settled s [] w k = k
run-Settled s (a ∷ as') w k = run-Settled s as' (act a w) (act-Settled s a w k)

pub first-Settled :
    (s : ℕ) (content_type : Text) (w : BufferedResponseWriter)
    → w.header_written ≡ false
    → w.bypass ≡ false
    → should_switch_to_unbuffered content_type ≡ false
    → Settled s (write_header s content_type w)
unfolding write_header
first-Settled s content_type w h b n = rw (h, n) (refl, refl, b)

-- A body alone has status 200.
abbrev pub Implicit : Client → Type 0
Implicit c = (c.final ≡ none) ⊎ (c.final ≡ some 200)

copy_to-Implicit :
    (s : ℕ) (bytes : List ℕ) (c : Client)
    → c.final ≡ none
    → is_informational s ≡ true
    → Implicit (copy_to bytes (inner_write_header s c))
unfolding copy_to inner_write inner_write_header
copy_to-Implicit s [] c f i = inl (ground (arith))
copy_to-Implicit s (x ∷ xs) c f i = inr (ground arith)

sent-Implicit :
    (s : ℕ) (w : BufferedResponseWriter) (c : Client) (bytes : List ℕ)
    → Settled s w
    → c.final ≡ none
    → is_informational s ≡ true
    → Implicit (copy_to bytes (if w.header_written then inner_write_header w.status_code c else c))
sent-Implicit s w c bytes (h, e, b) f i = rw (h, e) (copy_to-Implicit s bytes c f i)

-- Where a handler's first status is informational and the response is buffered, within the limit and
-- not taken over, the client never gets the final status that the handler writes later: the response
-- has no status of its own, or 200.
pub serve_response_informational :
    (max_bytes max_mem_bytes s : ℕ) (content_type : Text) (rest : List Action) (c : Client)
    → let w = run (header s content_type ∷ rest) (new_writer max_bytes max_mem_bytes c) in
      is_informational s ≡ true
      → should_switch_to_unbuffered content_type ≡ false
      → c.final ≡ none
      → w.buffer.overflowed ≡ false
      → w.hijacked ≡ false
      → Implicit (serve_response max_bytes max_mem_bytes (header s content_type ∷ rest) c)
unfolding run act new_writer
serve_response_informational m k s content_type rest c i n f o h =
    let w = run (header s content_type ∷ rest) (new_writer m k c) in
    let settled =
      run-Settled s rest (act (header s content_type) (new_writer m k c))
        (first-Settled s content_type (new_writer m k c) refl refl n) in
    rw ((serve_response-AllOrNothing m k (header s content_type ∷ rest) c settled.2).2 o h)
      (sent-Implicit s w c (Buffer.send w.buffer).1 settled f i)
