-- ===== src/Election/Posts.antt =====
-- A message on its way from one framework to another: HttpOverIpv4::send of
-- src/discoverymgr/election_mgr.cpp, the route /api/team/election-msg of
-- src/discoverymgr/discovery_mgr.cpp and the status that handle_error_to_http gives an exception.
use Prim.Native.Char.{code}
use Prim.Native.String.{◌++◌ as str_append}
use ability_framework.Prelude.{ℕ, String, Bool, Option, none, some, List, [], ◌∷◌, if◌then◌else◌}
use ability_framework.Prelude.Int.{ℤ}
use ability_framework.Json.{Json, Failure, invalid_argument, Try, returned, failed}
use ability_framework.Election.Message.{
  ElectionMsg, Answer, empty, message, error_msg, timeout, throws,
}
use ability_framework.Election.Addresses.{HttpOverIpv4, send_address}
use ability_framework.Election.Bully.{Bully, Network, on_election_message}
use ability_framework.Election.Wire.{from_json, to_json, send_payload}

-- A body that is empty, that is no JSON, or a document; an answer of the status 200 with a body, or of
-- another status.
pub data Body : Type 0 where
  no_body : Body
  no_json : Body
  document : Json → Body

pub data HttpAnswer : Type 0 where
  answered : Body → HttpAnswer
  refused : ℕ → HttpAnswer

abbrev pub status_of : Failure → ℕ
status_of invalid_argument = 400
status_of _ = 500

-- The codes of a text.
abbrev pub codes : String → List ℕ
codes String.[] = []
codes (String.◌∷◌ c s) = code c ∷ codes s

module _ (from_string : String → Option ℕ) (to_text : ℕ → String) where
  -- HttpOverIpv4::send, from what `Client::Post` gives; `none` is no answer.
  abbrev pub read_msg : Try ElectionMsg → Answer
  read_msg (returned m) = message m
  read_msg (failed e) = timeout

  abbrev pub read_response : Option HttpAnswer → Answer
  read_response none = timeout
  read_response (some (refused status)) = timeout
  read_response (some (answered no_body)) = empty
  read_response (some (answered no_json)) = timeout
  read_response (some (answered (document j))) = read_msg (from_json from_string to_text j)

  unfoldable pub http_send : (Json → Option HttpAnswer) → ElectionMsg → Answer
  http_send post m = read_response (post (send_payload from_string to_text m))

  -- ElectionMsgResVisitor, and the answer of the route.
  abbrev pub visit_answer : Answer → HttpAnswer
  visit_answer empty = answered no_body
  visit_answer (message m) = answered (document (to_json from_string to_text m))
  visit_answer (error_msg e) = refused 500
  visit_answer timeout = refused 500
  visit_answer throws = refused 500

  -- The regular expressions.
  module _ (is_valid_ipv4 : List ℕ → Bool) (is_valid_ipv6 : List ℕ → Bool) where
    abbrev pub to_multiaddr : String → String
    to_multiaddr s =
        if is_valid_ipv4 (codes s)
        then str_append "/ip4/" s
        else if is_valid_ipv6 (codes s)
        then str_append "/ip6/" s
        else s

    abbrev pub take_msg : String → Try ElectionMsg → Bully → Bully × HttpAnswer
    take_msg remote (failed e) b = (b, refused (status_of e))
    take_msg remote (returned m) b =
        let (b', answer) = on_election_message (record m { source_addr = to_multiaddr remote }) b in
        (b', visit_answer answer)

    -- The route, from the sender's address and the body.
    unfoldable pub on_election_post : String → Option Json → Bully → Bully × HttpAnswer
    on_election_post remote none b = (b, refused 500)
    on_election_post remote (some j) b = take_msg remote (from_json from_string to_text j) b

    -- What answers behind an address: nothing, or a framework, which sees an address of the sender and
    -- takes part in an election or in none.
    abbrev pub World : Type 0
    World = HttpOverIpv4 → Option (String × Option Bully)

    abbrev pub post_to : Option (String × Option Bully) → Json → Option HttpAnswer
    post_to none j = none
    post_to (some (remote, none)) j = some (refused 500)
    post_to (some (remote, some b)) j = some (on_election_post remote (some j) b).1

    -- ElectionInterface::send among frameworks; `from_chars` reads a port.
    unfoldable pub framework_network : (List ℕ → Option ℤ) → World → Network
    framework_network from_chars world address m =
        send_address is_valid_ipv4 from_chars (λ http. http_send (post_to (world http)))
          (codes address) m
