-- ===== src/LoadBalancer/Response.antt =====
-- internal/server/load_balancer.go, loadBalancerResponseWriter: the writer that sets the cookie
-- kamal-writer. The inner writer is net/http's: what is sent is what its header holds when
-- WriteHeader is called first.
mod Tests
use text.Mathlib.Text.{◌==◌ as str_eq}
use kamal_proxy.Base.{
  ℕ, ◌+◌, ◌/◌, String, ◌≡◌, refl, sym, ◌∙◌, Bool, true, false, ◌&&◌, not, leb, ◌==◌, List, [], ◌∷◌,
  ◌++◌, Option, none, some, arith, if◌then◌else◌, Bool-cases,
}

-- The cookie kamal-writer: its value in milliseconds, and the time at which it expires.
pub record Cookie : Type 0 where
  pub value : ℕ
  pub expires : ℕ

-- `affinity` is the header X-Writer-Affinity; the cookies are those that were added.
pub record Header : Type 0 where
  pub affinity : Option String
  pub cookies : List Cookie

pub record ResponseWriter : Type 0 where
  pub header : Header
  pub sent : Option (ℕ × Header)
  pub body : List ℕ
  pub header_written : Bool
  pub writer_affinity_timeout : ℕ

-- Times are numbers of nanoseconds.
pub writer_cookie : ℕ → ResponseWriter → Cookie
writer_cookie now w = record {
  value = (now + w.writer_affinity_timeout) / 1000000;
  expires = now + w.writer_affinity_timeout + 1000000000;
}

-- `w.Header().Get(LoadBalancerAffinityOptOutHeader) != "false"`
pub opts_out : Header → Bool
opts_out h = elim h.affinity [ none ↦ false | some v ↦ str_eq v "false" ]

pub set_writer_affinity_cookie : ℕ → ResponseWriter → ResponseWriter
unfolding writer_cookie opts_out
set_writer_affinity_cookie now w =
    let cookies =
      if opts_out w.header
      then w.header.cookies
      else w.header.cookies ++ writer_cookie now w ∷ [] in
    record w { header = record { affinity = none; cookies = cookies } }

-- 1xx, but for 101.
pub is_informational : ℕ → Bool
is_informational status = leb 100 status && (leb status 199 && not (status == 101))

-- net/http's own WriteHeader; a second call is superfluous, and an informational one not final.
pub inner_write_header : ℕ → ResponseWriter → ResponseWriter
unfolding is_informational
inner_write_header status w = elim w.sent [
  | some _ ↦ w
  | none ↦ if is_informational status then w else record w { sent = some (status, w.header) }
]

pub write_header : ℕ → ℕ → ResponseWriter → ResponseWriter
unfolding set_writer_affinity_cookie inner_write_header
write_header now status w = record (inner_write_header status (set_writer_affinity_cookie now w)) {
  header_written = true;
}

pub write : ℕ → List ℕ → ResponseWriter → ResponseWriter
unfolding write_header
write now b w =
    let w' = if w.header_written then w else write_header now 200 w in
    let w'' = inner_write_header 200 w' in record w'' { body = w''.body ++ b }

-- What the client gets with the header: the cookie unless the target opted out of it, and never
-- the header by which it did.
pub header_with_cookie : ℕ → ResponseWriter → Header
unfolding opts_out
header_with_cookie now w = record {
  affinity = none;
  cookies =
      if opts_out w.header then w.header.cookies else w.header.cookies ++ writer_cookie now w ∷ [];
}

inner_sent :
    (status : ℕ) (w : ResponseWriter) (s : ℕ × Header)
    → w.sent ≡ some s
    → (inner_write_header status w).sent ≡ some s
unfolding inner_write_header
inner_sent status w s e = ground arith

-- The first status that is not informational goes out with the writer cookie, or without it where
-- the target opted out, never with the header of the opt-out; what is written later changes
-- nothing of it.
pub write_header_sends_cookie :
    (now later status status' : ℕ) (b : List ℕ) (w : ResponseWriter)
    → w.sent ≡ none
    → is_informational status ≡ false
    → let w' = write_header now status w in
      (w'.sent ≡ some (status, header_with_cookie now w))
      × ((write later b w').sent ≡ w'.sent)
      × ((write_header later status' w').sent ≡ w'.sent)
unfolding write_header write inner_write_header set_writer_affinity_cookie header_with_cookie
write_header_sends_cookie now later status status' b w e h =
    let w' = write_header now status w in
    let first : w'.sent ≡ some (status, header_with_cookie now w) = rw (e, h) refl in
    (
      first,
      inner_sent 200 w' (status, header_with_cookie now w) first ∙ sym first,
      inner_sent status' (set_writer_affinity_cookie later w') (status, header_with_cookie now w)
            first
          ∙ sym first,
    )
