-- ===== src/Election/Tests.antt =====
-- Elections among a few participants, and the theorems at them.
use ability_framework.Election.Addresses.{send_address}
use ability_framework.Election.Segments.{IsSegment}
use ability_framework.Election.Peers.{ip4_address, ip6_address, send_address-ip_address}
use ability_framework.Prelude.{
  ℕ, ◌<◌, length, String, true, false, none, some, List, [], ◌∷◌, ◌++◌, ◌≡◌, refl, arith,
}
use ability_framework.Prelude.Int.{pos}
use ability_framework.Uuids.{tally_of, read_tally, read_tally-tally_of}
use ability_framework.Json.{returned}
use ability_framework.Election.Message.{ElectionMsg, object, Answer, message, timeout}
use ability_framework.Election.Bully.{Bully, ExtPeerInfo, self_is_leader}
use ability_framework.Election.Leader.{deliver, deliver-leader_is_max}
use ability_framework.Election.Order.{LeaderIsGe}
use ability_framework.Election.Takeover.{silent_rounds, silent_takeover}
use ability_framework.Election.Wire.{from_json, to_json}
use ability_framework.Election.Posts.{World, codes}
use ability_framework.Election.Split.{
  ElectionEvent, round, arrives, run_election, rounds_in, from_json-to_json, run_election-leads,
}

abbrev peer : ℕ → ℕ → ExtPeerInfo
peer id weight = record {
  pinfo = record { id = id; addresses = "http://host" ∷ [] };
  weight = pos weight;
}

-- Participant 5 of weight 2, which follows 9 and knows 9 and 3.
abbrev five : Bully
five = record {
  key = record { id = 5; weight = pos 2 };
  peers = (9, peer 9 2) ∷ (3, peer 3 2) ∷ [];
  current_leader = some (peer 9 2);
  running = true;
  joinable = true;
}

abbrev says : String → ℕ → ℕ → ElectionMsg
says type id weight = record {
  source_id = id;
  source_addr = "http://other";
  type = type;
  detail = object (some (pos weight));
}

abbrev earlier : List ElectionMsg
earlier = says "bully.ping" 4 7 ∷ []

abbrev later : List ElectionMsg
later = says "bully.ping" 6 3 ∷ []

deliver-leader_is_max_example :
    LeaderIsGe
      (record { id = 8; weight = pos 5 })
      (deliver (earlier ++ says "bully.challange" 8 5 ∷ later) five)
deliver-leader_is_max_example =
    deliver-leader_is_max earlier later (says "bully.challange" 8 5) (pos 5) five refl
      ((pos 7, (refl, refl)), tt) ((pos 3, (refl, refl)), tt) (refl, refl) refl

silent_takeover_example : self_is_leader (silent_rounds 3 five) ≡ true
silent_takeover_example = silent_takeover 3 five (refl, (refl, tt)) (omega arith)

abbrev fifth : ElectionMsg → Answer
fifth m = message (says "bully.pong" 5 2)

seven-IsSegment : IsSegment (codes "7")
seven-IsSegment = ((λ e. cc), ((λ e. absurd (omega arith)), tt))

send_address-ip_address_example :
    (send_address
        (λ s. true)
        (λ s. some (pos 7))
        (λ http. fifth)
        (codes (ip4_address (λ port. "7") "7" (pos 7)))
        (says "bully.ping" 4 7)
      ≡ fifth (says "bully.ping" 4 7))
    × (send_address
          (λ s. true)
          (λ s. some (pos 7))
          (λ http. fifth)
          (codes (ip6_address (λ port. "7") "7" (pos 7)))
          (says "bully.ping" 4 7)
        ≡ timeout)
send_address-ip_address_example =
    send_address-ip_address (λ port. "7") (λ s. true) (λ s. some (pos 7)) (λ http. fifth) "7" "7"
      (pos 7) (says "bully.ping" 4 7) (seven-IsSegment, refl, seven-IsSegment, refl) seven-IsSegment

from_json-to_json_example :
    from_json read_tally tally_of (to_json read_tally tally_of (says "bully.ping" 4 7))
    ≡ returned (record (says "bully.ping" 4 7) { source_addr = "" })
from_json-to_json_example =
    from_json-to_json read_tally tally_of read_tally-tally_of (says "bully.ping" 4 7) refl

-- Behind each address is participant 5, at the port 8080.
abbrev everywhere_five : World read_tally tally_of (λ s. true) (λ s. false)
everywhere_five http = some ("10.0.0.2", some five)

abbrev election : List (ElectionEvent read_tally tally_of (λ s. true) (λ s. false) (λ s. none))
election =
    round everywhere_five
    ∷ arrives "10.0.0.3" (says "bully.victory" 9 9)
    ∷ round everywhere_five
    ∷ round everywhere_five
    ∷ []

three_rounds :
    length five.peers < rounds_in read_tally tally_of (λ s. true) (λ s. false) (λ s. none) election
unfolding rounds_in
three_rounds = omega arith

run_election-leads_example :
    self_is_leader
      (run_election read_tally tally_of (λ s. true) (λ s. false) (λ s. none) election five)
    ≡ true
run_election-leads_example =
    run_election-leads read_tally tally_of (λ s. true) (λ s. false) (λ s. none) election five
      (refl, (refl, tt)) three_rounds
