-- ===== src/LoadBalancer/Response/Tests.antt =====
-- A response at concrete inputs.
use kamal_proxy.Base.{◌≡◌, refl, false, [], ◌∷◌, some, none}
use kamal_proxy.LoadBalancer.Response.{
  ResponseWriter, is_informational, write_header, write, header_with_cookie,
  write_header_sends_cookie,
}

abbrev opted_out : ResponseWriter
opted_out = record {
  header = record { affinity = some "false"; cookies = [] };
  sent = none;
  body = [];
  header_written = false;
  writer_affinity_timeout = 3000000000;
}

no_cookie : header_with_cookie 5 opted_out ≡ record { affinity = none; cookies = [] }
unfolding header_with_cookie
no_cookie = refl

write_header_sends_cookie_example :
    let w' = write_header 5 201 opted_out in
    (w'.sent ≡ some (201, header_with_cookie 5 opted_out))
    × ((write 9 (1 ∷ []) w').sent ≡ w'.sent)
    × ((write_header 9 500 w').sent ≡ w'.sent)
unfolding is_informational
write_header_sends_cookie_example =
    write_header_sends_cookie 5 9 201 500 (1 ∷ []) opted_out refl refl
