-- ===== src/Election/Records.antt =====
-- What every message keeps true of a participant of src/discoverymgr/election_methods/bully.cpp.
use ability_framework.Prelude.{
  ℕ, false, Option, none, some, [], ◌∷◌, ◌≡◌, refl, subst, sym, Bool-cases, ◌⊎◌, inl, inr, Map,
  insert, uuid_key, arith, find-insert, same_refl,
}
use ability_framework.Prelude.Int.{ℤ}
use ability_framework.Election.Message.{ElectionMsg, timeout, read_weight}
use ability_framework.Election.Bully.{
  Bully, ExtPeerInfo, key_of, msg_key, peer_at, store_peer, follow, note_peer, dispatch,
  on_msg_ping, on_msg_victory, after_read, on_election_message,
}
use ability_framework.Election.Order.{IsGe, LeaderIsGe, on_message-after_read, follow-leads}
use ability_framework.Election.Takeover.{IsKeyed}

-- The peers are kept under their ids, and the leader, if one is known, is not below the participant.
abbrev IsSound : Bully → Type 0
IsSound b = IsKeyed b.peers × ((b.current_leader ≡ none) ⊎ LeaderIsGe b.key b)

insert-IsKeyed :
    (i : ℕ) (p : ExtPeerInfo) (m : Map ℕ ExtPeerInfo)
    → p.pinfo.id ≡ i
    → IsKeyed m
    → IsKeyed (insert i p m)
unfolding insert
insert-IsKeyed i p [] e h = (e, tt)
insert-IsKeyed i p ((j, q) ∷ m) e h = ground (arith, e, h, insert-IsKeyed i p m e h.1)

-- The handlers leave everything as it is, or follow a sender that is not below the participant.
dispatch-cases :
    (m : ElectionMsg) (w : ℤ) (b : Bully)
    → let b' = (dispatch m w b).0 in (b' ≡ b) ⊎ ((b' ≡ follow m b) × IsGe (msg_key m w) b.key)
unfolding dispatch on_msg_ping on_msg_victory
dispatch-cases m w b = ground arith

dispatch-IsSound :
    (m : ElectionMsg) (w : ℤ) (b : Bully)
    → key_of (peer_at m.source_id b) ≡ msg_key m w
    → IsSound b
    → IsSound (dispatch m w b).0
dispatch-IsSound m w b e (keyed, fit) = elim (dispatch-cases m w b) [
  | inl same ↦ subst IsSound (sym same) (keyed, fit)
  | inr (moved, ge) ↦ subst IsSound (sym moved) (keyed, inr (follow-leads m w b b.key e ge))
]

after_read-IsSound :
    (m : ElectionMsg) (p : ExtPeerInfo) (o : Option ℤ) (b : Bully)
    → p.pinfo.id ≡ m.source_id
    → IsSound b
    → IsSound (after_read m p o b).0
unfolding after_read
after_read-IsSound m p none b e (keyed, fit) = (insert-IsKeyed m.source_id p b.peers e keyed, fit)
after_read-IsSound m p (some w) b e (keyed, fit) =
    dispatch-IsSound m w stored known (insert-IsKeyed m.source_id q b.peers e keyed, fit)
  where
    q : ExtPeerInfo
    q = record p { weight = w }

    stored : Bully
    stored = store_peer m q b

    known : key_of (peer_at m.source_id stored) ≡ msg_key m w
    known = rw (find-insert m.source_id m.source_id q b.peers, same_refl m.source_id, e)

on_message-stopped :
    (m : ElectionMsg) (b : Bully) → b.running ≡ false → on_election_message m b ≡ (b, timeout)
unfolding on_election_message
on_message-stopped m b off = ground (arith, off)

-- Every message, of whatever type and with whatever detail, keeps the peers under their ids and
-- keeps a known leader from being below the participant itself.
on_message-IsSound : (m : ElectionMsg) (b : Bully) → IsSound b → IsSound (on_election_message m b).0
unfolding note_peer
on_message-IsSound m b h = elim (Bool-cases b.running) [
  | inl on ↦
      subst (λ r. IsSound r.0) (sym (on_message-after_read m b on))
        (after_read-IsSound m (note_peer m b) (read_weight m.detail) b refl h)
  | inr off ↦ subst (λ r. IsSound r.0) (sym (on_message-stopped m b off)) h
]
