-- ===== src/Election/Split.antt =====
-- What becomes of the messages of an election between frameworks: src/discoverymgr/election_mgr.cpp,
-- src/discoverymgr/discovery_mgr.cpp and src/discoverymgr/election_methods/bully.cpp.
use text.Mathlib.Text.{◌==◌ as str_eq}
use ability_framework.Prelude.{
  ℕ, suc, String, Bool, true, false, Option, none, some, List, [], ◌∷◌, ◌≡◌, refl, ap, ◌∙◌, ◌<◌,
  length,
}
use ability_framework.Prelude.Int.{ℤ}
use ability_framework.Json.{get_field, returned, failed, json_exception, to_int32}
use ability_framework.Election.Message.{Detail, object, unreadable, ElectionMsg, timeout}
use ability_framework.Election.Addresses.{
  HttpOverIpv4, from_segments, multiaddr_segments, send_to, send_address,
}
use ability_framework.Election.Bully.{Bully, Network, self_is_leader, work_round}
use ability_framework.Election.Takeover.{IsKeyed}
use ability_framework.Election.Takeover.{silent, silent_rounds, silent_takeover}
use ability_framework.Election.Wire.{from_json, to_json, send_payload}
use ability_framework.Election.Posts.{
  codes, HttpAnswer, refused, http_send, on_election_post, World, post_to, framework_network,
}

-- A detail as the program makes them: none, or a weight that fits an int.
abbrev pub IsSent : Detail → Type 0
IsSent (object none) = ⊥
IsSent (object (some w)) = to_int32 w ≡ w
IsSent unreadable = Unit

module _ (from_string : String → Option ℕ) (to_text : ℕ → String) where
  from_json_read :
      (read_back : (id : ℕ) → from_string (to_text id) ≡ some id) (id : ℕ) (addr type : String)
      (detail : Detail) (local : Bool)
      → str_eq addr "" ≡ local
      → IsSent detail
      → from_json from_string to_text (
          to_json from_string to_text
            (record { source_id = id; source_addr = addr; type = type; detail = detail }))
        ≡ returned (record { source_id = id; source_addr = ""; type = type; detail = detail })
  unfolding from_json to_json get_field
  from_json_read read_back id addr type (object none) local e s = elim s [ ]
  from_json_read read_back id addr type (object (some w)) true e s = rw (e, read_back id, s) refl
  from_json_read read_back id addr type (object (some w)) false e s = rw (e, read_back id, s) refl
  from_json_read read_back id addr type unreadable true e s = rw (e, read_back id) refl
  from_json_read read_back id addr type unreadable false e s = rw (e, read_back id) refl

  -- A message whose detail is none, or a weight that fits an int, is read back from what to_json writes
  -- of it, but without the address of its sender. It is assumed that a uuid is read back from its text.
  pub from_json-to_json :
      (read_back : (id : ℕ) → from_string (to_text id) ≡ some id) (m : ElectionMsg)
      → IsSent m.detail
      → from_json from_string to_text (to_json from_string to_text m)
        ≡ returned (record m { source_addr = "" })
  from_json-to_json read_back m s =
      from_json_read read_back m.source_id m.source_addr m.type m.detail _ refl s

  -- A list is not read as a message.
  from_json-send_payload :
      (m : ElectionMsg)
      → from_json from_string to_text (send_payload from_string to_text m) ≡ failed json_exception
  unfolding from_json
  from_json-send_payload m = refl

  module _ (is_valid_ipv4 : List ℕ → Bool) (is_valid_ipv6 : List ℕ → Bool) where
    on_election_post-send_payload :
        (remote : String) (m : ElectionMsg) (b : Bully)
        → on_election_post from_string to_text is_valid_ipv4 is_valid_ipv6 remote
            (some (send_payload from_string to_text m))
            b
          ≡ (b, refused 500)
    unfolding on_election_post
    on_election_post-send_payload remote m b = rw (from_json-send_payload m) refl

    http_send-post_to :
        (there : Option (String × Option Bully)) (m : ElectionMsg)
        → http_send from_string to_text
            (post_to from_string to_text is_valid_ipv4 is_valid_ipv6 there)
            m
          ≡ timeout
    unfolding http_send
    http_send-post_to none m = refl
    http_send-post_to (some (remote, none)) m = refl
    http_send-post_to (some (remote, some b)) m = rw (on_election_post-send_payload remote m b) refl

    module _ (from_chars : List ℕ → Option ℤ) where
      send_to-silent :
          (world : World from_string to_text is_valid_ipv4 is_valid_ipv6) (m : ElectionMsg)
          (http : Option HttpOverIpv4)
          → send_to is_valid_ipv4 from_chars
              (λ h.
                http_send from_string to_text
                  (post_to from_string to_text is_valid_ipv4 is_valid_ipv6 (world h)))
              http
              m
            ≡ timeout
      send_to-silent world m none = refl
      send_to-silent world m (some http) = http_send-post_to (world http) m

      framework_network-silent :
          (world : World from_string to_text is_valid_ipv4 is_valid_ipv6)
          → framework_network from_string to_text is_valid_ipv4 is_valid_ipv6 from_chars world
            ≡ silent
      unfolding framework_network send_address
      framework_network-silent world = λ i address m.
          send_to-silent world m
            (from_segments is_valid_ipv4 from_chars (multiaddr_segments (codes address))) i

      -- What happens to a participant among frameworks: a round of its own, with whatever is behind
      -- the addresses then, or a message that another framework sends.
      pub data ElectionEvent : Type 0 where
        round : World from_string to_text is_valid_ipv4 is_valid_ipv6 → ElectionEvent
        arrives : String → ElectionMsg → ElectionEvent

      unfoldable pub on_election_event : ElectionEvent → Bully → Bully
      on_election_event (round world) b =
          (work_round
            (framework_network from_string to_text is_valid_ipv4 is_valid_ipv6 from_chars world)
            b).0
      on_election_event (arrives remote m) b =
          (on_election_post from_string to_text is_valid_ipv4 is_valid_ipv6 remote
            (some (send_payload from_string to_text m)) b).0

      unfoldable pub run_election : List ElectionEvent → Bully → Bully
      run_election [] b = b
      run_election (e ∷ es) b = run_election es (on_election_event e b)

      unfoldable pub rounds_in : List ElectionEvent → ℕ
      rounds_in [] = 0
      rounds_in (round world ∷ es) = suc (rounds_in es)
      rounds_in (arrives remote m ∷ es) = rounds_in es

      run_election-silent_rounds :
          (es : List ElectionEvent) (b : Bully) → run_election es b ≡ silent_rounds (rounds_in es) b
      unfolding run_election rounds_in on_election_event
      run_election-silent_rounds [] b = refl
      run_election-silent_rounds (round world ∷ es) b =
          run_election-silent_rounds es
            (work_round
              (framework_network from_string to_text is_valid_ipv4 is_valid_ipv6 from_chars world)
              b).0
          ∙ ap (λ (send : Network). silent_rounds (rounds_in es) (work_round send b).0)
              (framework_network-silent world)
      run_election-silent_rounds (arrives remote m ∷ es) b =
          run_election-silent_rounds es
            (on_election_post from_string to_text is_valid_ipv4 is_valid_ipv6 remote
              (some (send_payload from_string to_text m)) b).0
          ∙ ap (λ (r : Bully × HttpAnswer). silent_rounds (rounds_in es) r.0)
              (on_election_post-send_payload remote m b)

      -- Whatever frameworks are behind the addresses, and whatever messages of theirs arrive in between,
      -- a participant that keeps its peers under their ids is its own leader after more rounds than it
      -- has peers.
      pub run_election-leads :
          (es : List ElectionEvent) (b : Bully)
          → IsKeyed b.peers
          → length b.peers < rounds_in es
          → self_is_leader (run_election es b) ≡ true
      run_election-leads es b h k =
          ap self_is_leader (run_election-silent_rounds es b) ∙ silent_takeover (rounds_in es) b h k
