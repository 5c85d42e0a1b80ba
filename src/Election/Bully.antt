-- ===== src/Election/Bully.antt =====
-- src/discoverymgr/election_methods/bully.cpp: the state of a participant, its handlers of messages and
-- one round of its working thread. The mutex makes each of them one step.
use Prim.Native.String.{◌++◌ as str_append}
use text.Mathlib.Text.{◌==◌ as str_eq}
use ability_framework.Prelude.{
  ℕ, String, Bool, true, false, not, Option, none, some, List, [], ◌∷◌, ◌++◌, ltb, ◌==◌,
  if◌then◌else◌, Map, find, insert, erase, uuid_key,
}
use ability_framework.Prelude.Int.{ℤ, pos, ltb_ℤ, eqb_ℤ}
use ability_framework.Election.Message.{
  PeerInfo, Detail, object, ElectionMsg, Answer, empty, message, error_msg, timeout, throws,
  is_timeout, is_ok, read_weight,
}

pub record Key : Type 0 where
  pub id : ℕ
  pub weight : ℤ

-- operator< : by weight, then by id.
abbrev pub lt_key : Key → Key → Bool
lt_key a b =
    if ltb_ℤ a.weight b.weight
    then true
    else if eqb_ℤ a.weight b.weight
    then ltb a.id b.id
    else false

pub record ExtPeerInfo : Type 0 where
  pub pinfo : PeerInfo
  pub weight : ℤ

abbrev pub key_of : ExtPeerInfo → Key
key_of p = record { id = p.pinfo.id; weight = p.weight }

abbrev pub no_peer : ExtPeerInfo
no_peer = record { pinfo = record { id = 0; addresses = [] }; weight = pos 0 }

pub record Bully : Type 0 where
  pub key : Key
  pub peers : Map ℕ ExtPeerInfo
  pub current_leader : Option ExtPeerInfo
  pub running : Bool
  pub joinable : Bool

-- std::set::insert
unfoldable pub add_address : String → List String → List String
add_address a [] = a ∷ []
add_address a (b ∷ bs) = if str_eq b a then b ∷ bs else b ∷ add_address a bs

abbrev pub or_default : Option ExtPeerInfo → ExtPeerInfo
or_default none = no_peer
or_default (some p) = p

-- peers[id]
abbrev pub peer_at : ℕ → Bully → ExtPeerInfo
peer_at id b = or_default (find id b.peers)

-- Bully::add_peers up to the read of the weight, which may throw.
unfoldable pub note_peer : ElectionMsg → Bully → ExtPeerInfo
unfolding add_address
note_peer m b =
    let p = peer_at m.source_id b in
    record p {
      pinfo = record { id = m.source_id; addresses = add_address m.source_addr p.pinfo.addresses };
    }

abbrev pub store_peer : ElectionMsg → ExtPeerInfo → Bully → Bully
store_peer m p b = record b { peers = insert m.source_id p b.peers }

abbrev pub pong : Bully → Answer
pong b = message (record {
  source_id = b.key.id;
  source_addr = "";
  type = "bully.pong";
  detail = Detail.unreadable;
})

abbrev pub msg_key : ElectionMsg → ℤ → Key
msg_key m w = record { id = m.source_id; weight = w }

-- `current_leader = peers[msg.sourceId]`
abbrev pub follow : ElectionMsg → Bully → Bully
follow m b = record b { current_leader = some (peer_at m.source_id b) }

abbrev pub lt_leader : Option ExtPeerInfo → Key → Bool
lt_leader none k = true
lt_leader (some l) k = lt_key (key_of l) k

-- on_msg_victory
unfoldable pub on_msg_victory : ElectionMsg → ℤ → Bully → Bully × Answer
on_msg_victory m w b = if lt_key (msg_key m w) b.key then (b, empty) else (follow m b, empty)

-- on_msg_ping and on_msg_challange, which are the same code.
unfoldable pub on_msg_ping : ElectionMsg → ℤ → Bully → Bully × Answer
on_msg_ping m w b =
    if lt_key (msg_key m w) b.key
    then (b, empty)
    else if not (lt_leader b.current_leader (msg_key m w))
    then (b, pong b)
    else (follow m b, pong b)

unfoldable pub dispatch : ElectionMsg → ℤ → Bully → Bully × Answer
unfolding on_msg_victory on_msg_ping
dispatch m w b =
    if str_eq m.type "bully.victory"
    then on_msg_victory m w b
    else if str_eq m.type "bully.ping"
    then on_msg_ping m w b
    else if str_eq m.type "bully.challange"
    then on_msg_ping m w b
    else (b, error_msg (str_append "invalid msg type " m.type))

-- What follows the read of the weight; where it throws, the peer's address has been noted already.
unfoldable pub after_read : ElectionMsg → ExtPeerInfo → Option ℤ → Bully → Bully × Answer
unfolding dispatch
after_read m p none b = (store_peer m p b, throws)
after_read m p (some w) b = dispatch m w (store_peer m (record p { weight = w }) b)

-- on_election_message
unfoldable pub on_election_message : ElectionMsg → Bully → Bully × Answer
unfolding after_read note_peer
on_election_message m b =
    if not b.running then (b, timeout) else after_read m (note_peer m b) (read_weight m.detail) b

-- start; the thread that it creates is what makes th_working joinable.
unfoldable pub start : Bully → Bully
start b = if b.joinable then b else record b { running = true; joinable = true }

-- finish
unfoldable pub finish : Bully → Bully
finish b = record b { running = false; joinable = false; current_leader = none; peers = [] }

abbrev pub make_msg : String → Bully → ElectionMsg
make_msg type b = record {
  source_id = b.key.id;
  source_addr = "";
  type = type;
  detail = object (some b.key.weight);
}

-- leader() and self_is_leader
abbrev pub self_is_leader : Bully → Bool
self_is_leader b = elim b.current_leader [ none ↦ false | some l ↦ l.pinfo.id == b.key.id ]

-- is_biggest_in_peers
unfoldable pub is_biggest : Key → Map ℕ ExtPeerInfo → Bool
is_biggest k [] = true
is_biggest k ((id, p) ∷ rest) = if not (lt_key (key_of p) k) then false else is_biggest k rest

-- The loop of max_id_in_peers; the nil uuid, 0, marks that there is no result yet.
unfoldable pub max_id_loop : ℕ → ExtPeerInfo → Map ℕ ExtPeerInfo → ExtPeerInfo
max_id_loop res_id res [] = res
max_id_loop res_id res ((id, p) ∷ rest) =
    let skip = if res_id == 0 then false else ltb id res_id in
    max_id_loop (if skip then res_id else id) (if skip then res else p) rest

unfoldable pub max_id_in_peers : Map ℕ ExtPeerInfo → Option ExtPeerInfo
unfolding max_id_loop
max_id_in_peers [] = none
max_id_in_peers (p ∷ rest) = some (max_id_loop 0 no_peer (p ∷ rest))

-- ElectionInterface::send, as it answers in one round, an address and a message given.
abbrev pub Network : Type 0
Network = String → ElectionMsg → Answer

-- send_victory and send_ping: the addresses of a peer are tried until one answers.
unfoldable pub send_victory : Network → ElectionMsg → List String → Bool
send_victory send m [] = false
send_victory send m (a ∷ rest) =
    if not (is_timeout (send a m)) then true else send_victory send m rest

unfoldable pub send_ping : Network → ElectionMsg → List String → Answer
send_ping send m [] = timeout
send_ping send m (a ∷ rest) =
    if not (is_timeout (send a m)) then send a m else send_ping send m rest

-- The peers that do not answer to a victory are erased.
unfoldable pub reached : Network → ElectionMsg → Map ℕ ExtPeerInfo → Map ℕ ExtPeerInfo
unfolding send_victory
reached send m [] = []
reached send m ((id, p) ∷ rest) =
    let others = reached send m rest in
    if send_victory send m p.pinfo.addresses then (id, p) ∷ others else others

abbrev pub lead : Bully → Bully
lead b = record b {
  current_leader =
      some (record { pinfo = record { id = b.key.id; addresses = [] }; weight = b.key.weight });
}

-- The branch of the round in which the leader `l` did not answer.
unfoldable pub leader_down : ExtPeerInfo → Bully → Bully × List ElectionMsg
unfolding is_biggest max_id_in_peers
leader_down l b =
    let b1 = record b { peers = erase l.pinfo.id b.peers } in
    if is_biggest b.key b1.peers
    then (lead b1, make_msg "bully.ping" b ∷ [])
    else elim (max_id_in_peers b1.peers) [
      | none ↦ (b1, [])
      | some p ↦ (record b1 { current_leader = some p }, [])
    ]

unfoldable pub ping_leader : Network → ExtPeerInfo → Bully → Bully × List ElectionMsg
unfolding leader_down send_ping
ping_leader send l b =
    if not (is_ok (send_ping send (make_msg "bully.ping" b) l.pinfo.addresses))
    then leader_down l b
    else (b, [])

abbrev pub elect : Network → Bully → Option ExtPeerInfo → Bully × List ElectionMsg
elect send b none = (lead b, [])
elect send b (some l) = ping_leader send l b

-- One round of work_working: the new state and the messages broadcast.
unfoldable pub work_round : Network → Bully → Bully × List ElectionMsg
unfolding reached ping_leader
work_round send b =
    let (b1, sent) =
      if self_is_leader b
      then (record b { peers = reached send (make_msg "bully.victory" b) b.peers }, [])
      else elect send b b.current_leader in
    (b1, sent ++ make_msg "bully.ping" b ∷ [])
