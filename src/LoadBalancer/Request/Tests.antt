-- ===== src/LoadBalancer/Request/Tests.antt =====
-- Requests at concrete inputs.
use kamal_proxy.Base.{◌≡◌, refl, true, false, [], ◌∷◌, some, ◌&&◌, not}
use kamal_proxy.Base.Int.{pos}
use kamal_proxy.Base.Assoc.{same_bytes}
use kamal_proxy.Target.{new_target, healthy}
use kamal_proxy.LoadBalancer.{LoadBalancer, World}
use kamal_proxy.LoadBalancer.Request.{
  Request, is_read_request, has_write_cookie, upgrade_token, claim_target,
}
use kamal_proxy.LoadBalancer.Request.Claims.{Outcome, claim_target-Outcome}

abbrev one_writer : LoadBalancer
one_writer = record {
  all = 0 ∷ [];
  writers = 0 ∷ [];
  readers = [];
  writer_affinity_timeout = 3;
  read_targets_accept_websockets = false;
  writer_index = 0;
  reader_index = 0;
  multi_target = false;
  has_readers = false;
  marked_healthy = true;
}

abbrev world : World
world = record {
  lb = one_writer;
  targets = λ t. record (new_target "a:80" false false) { state = healthy };
}

-- Its header Upgrade is "websocket" with a long s.
abbrev upgrading : Request
upgrading = record {
  method = "GET";
  upgrade = 87 ∷ 101 ∷ 98 ∷ 197 ∷ 191 ∷ 111 ∷ 99 ∷ 107 ∷ 101 ∷ 116 ∷ [];
  connection = upgrade_token;
  write_cookie = some (50 ∷ 48 ∷ []);
  target_header = [];
}

websocket_is_no_read : is_read_request one_writer upgrading ≡ false
unfolding is_read_request same_bytes
websocket_is_no_read = refl

cookie_in_time : has_write_cookie (pos 19) upgrading ≡ true
unfolding has_write_cookie
cookie_in_time = refl

claim_target-Outcome_example :
    Outcome
      (is_read_request one_writer upgrading && not (has_write_cookie (pos 19) upgrading))
      (is_read_request one_writer upgrading)
      world
      (claim_target (pos 19) upgrading world).1
claim_target-Outcome_example = claim_target-Outcome (pos 19) upgrading world
