-- ===== src/Buffering.antt =====
-- internal/server/response_buffer_middleware.go and request_buffer_middleware.go: bodies that are
-- buffered whole before they go on. The inner writer is net/http's: a final status is sent once, and
-- a body without one has status 200.
pub mod Outcome
pub mod Informational
pub mod Whole
mod Tests
use kamal_proxy.Base.{
  ℕ, Bool, true, false, ◌&&◌, not, List, [], ◌∷◌, ◌++◌, Option, none, some, leb, ◌==◌,
  if◌then◌else◌, length,
}
use kamal_proxy.Base.Assoc.{same_bytes}
use kamal_proxy.Paths.{Text}
use kamal_proxy.Rollout.{codes}
use kamal_proxy.Buffer
use kamal_proxy.Buffer.{
  Buffer, Disk, Error, maximum_size_exceeded, new_buffered_write_closer, new_buffered_read_closer,
}

-- What the client has got; `failed` says that the text of http.Error is at the end.
pub record Client : Type 0 where
  pub final : Option ℕ
  pub body : List ℕ
  pub failed : Bool

-- 1xx, but for 101.
pub is_informational : ℕ → Bool
is_informational status = leb 100 status && (leb status 199 && not (status == 101))

-- net/http's WriteHeader, which sends an informational status at once and goes on waiting.
pub inner_write_header : ℕ → Client → Client
unfolding is_informational
inner_write_header status c = elim c.final [
  | some _ ↦ c
  | none ↦ if is_informational status then c else record c { final = some status }
]

-- net/http's Write.
pub inner_write : List ℕ → Client → Client
unfolding inner_write_header
inner_write p c = let c' = inner_write_header 200 c in record c' { body = c'.body ++ p }

pub http_error : ℕ → Client → Client
unfolding inner_write_header
http_error status c = record (inner_write_header status c) { failed = true }

pub record BufferedResponseWriter : Type 0 where
  pub client : Client
  pub status_code : ℕ
  pub buffer : Buffer
  pub hijacked : Bool
  pub header_written : Bool
  pub bypass : Bool

-- io.Copy calls Write only for bytes that there are.
pub copy_to : List ℕ → Client → Client
unfolding inner_write
copy_to [] c = c
copy_to (x ∷ xs) c = inner_write (x ∷ xs) c

pub send : BufferedResponseWriter → BufferedResponseWriter × Option Error
unfolding inner_write_header copy_to
send w =
    let c = if w.header_written then inner_write_header w.status_code w.client else w.client in
    let (b, bytes) = Buffer.send w.buffer in
    if w.buffer.overflowed
    then (w, some maximum_size_exceeded)
    else if w.hijacked
    then (w, none)
    else (record w { client = copy_to bytes c; buffer = b }, none)

-- The part of a content type before the semicolon.
pub media_type : Text → Text
media_type [] = []
media_type (c ∷ cs) = let rest = media_type cs in if c == b';' then [] else c ∷ rest

-- `content_type` is the header Content-Type at the time of the call.
pub should_switch_to_unbuffered : Text → Bool
unfolding media_type
should_switch_to_unbuffered content_type =
    same_bytes (media_type content_type) (codes "text/event-stream")

pub switch_to_unbuffered : BufferedResponseWriter → BufferedResponseWriter
unfolding send
switch_to_unbuffered w = (send (record w { bypass = true })).0

pub write_header : ℕ → Text → BufferedResponseWriter → BufferedResponseWriter
unfolding should_switch_to_unbuffered switch_to_unbuffered
write_header status content_type w =
    let w' = record w { status_code = status; header_written = true } in
    if w.header_written
    then w
    else if should_switch_to_unbuffered content_type
    then switch_to_unbuffered w'
    else w'

-- A write past the limit is reported as done.
pub on_write : ℕ → Buffer × ℕ × Option Error → ℕ × Option Error
on_write asked (b, n, some maximum_size_exceeded) = (asked, none)
on_write asked (b, n, e) = (n, e)

pub write : Disk → List ℕ → BufferedResponseWriter → BufferedResponseWriter × ℕ × Option Error
unfolding inner_write on_write
write os p w =
    let r = Buffer.write os w.buffer p in
    let (n, e) = on_write (length p) r in
    if w.bypass
    then (record w { client = inner_write p w.client }, length p, none)
    else (record w { buffer = r.0 }, n, e)

-- `supported` says whether the inner writer can be hijacked.
pub hijack : Bool → BufferedResponseWriter → BufferedResponseWriter
hijack false w = w
hijack true w = record w { hijacked = true }

-- What the handler behind the middleware does with the writer.
pub data Action : Type 0 where
  header : ℕ → Text → Action
  chunk : Disk → List ℕ → Action
  take_over : Bool → Action

pub act : Action → BufferedResponseWriter → BufferedResponseWriter
unfolding write_header write hijack
act (header status content_type) w = write_header status content_type w
act (chunk os p) w = (write os p w).0
act (take_over supported) w = hijack supported w

pub run : List Action → BufferedResponseWriter → BufferedResponseWriter
unfolding act
run [] w = w
run (a ∷ as') w = run as' (act a w)

pub new_writer : ℕ → ℕ → Client → BufferedResponseWriter
new_writer max_bytes max_mem_bytes c = record {
  client = c;
  status_code = 200;
  buffer = new_buffered_write_closer max_bytes max_mem_bytes;
  hijacked = false;
  header_written = false;
  bypass = false;
}

pub finish : BufferedResponseWriter × Option Error → Client
unfolding http_error
finish (w, none) = w.client
finish (w, some e) = http_error 500 w.client

-- ServeHTTP of the middleware for responses.
pub serve_response : ℕ → ℕ → List Action → Client → Client
unfolding new_writer run finish
serve_response max_bytes max_mem_bytes actions c =
    finish (send (run actions (new_writer max_bytes max_mem_bytes c)))

-- What the middleware for requests does: the next handler gets the buffer as the body.
pub data Passed : Type 0 where
  next_with : Buffer → Passed
  refused : ℕ → Passed

pub passed : Buffer × Option Error → Passed
passed (b, none) = next_with b
passed (b, some maximum_size_exceeded) = refused 413
passed (b, some e) = refused 500

pub serve_request : List (Disk × List ℕ) → Option Error → ℕ → ℕ → Passed
unfolding passed
serve_request chunks final max_bytes max_mem_bytes =
    passed (new_buffered_read_closer chunks final max_bytes max_mem_bytes)
