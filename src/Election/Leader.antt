-- ===== src/Election/Leader.antt =====
-- Whom a participant of src/discoverymgr/election_methods/bully.cpp follows after a sequence of pings
-- and challenges.
use ability_framework.Prelude.{true, List, [], ◌∷◌, ◌++◌, sym, ◌≡◌, subst, ◌∙◌, All}
use ability_framework.Prelude.Int.{ℤ}
use ability_framework.Election.Message.{ElectionMsg}
use ability_framework.Election.Bully.{Key, Bully, msg_key, on_election_message}
use ability_framework.Election.Order.{IsGe, LeaderIsGe, Bids, on_message-Follows}

-- Messages that arrive one after another.
abbrev pub deliver : List ElectionMsg → Bully → Bully
deliver [] b = b
deliver (m ∷ ms) b = deliver ms (on_election_message m b).0

abbrev pub IsBid : ElectionMsg → Type 0
IsBid m = (w : ℤ) × Bids m w

deliver-keeps :
    (ms : List ElectionMsg) (b : Bully) (j : Key)
    → b.running ≡ true
    → All IsBid ms
    → LeaderIsGe j b
    → LeaderIsGe j (deliver ms b)
deliver-keeps [] b j on all h = h
deliver-keeps (m ∷ ms) b j on ((w, d), rest) h =
    let (k, r, up, keep) = on_message-Follows m w b on d in
    deliver-keeps ms (on_election_message m b).0 j (r ∙ on) rest (keep j h)

-- A running participant that has received pings and challenges, in any order, has a leader, and one
-- not below any of their senders whose key is not below the participant's own.
pub deliver-leader_is_max :
    (before after : List ElectionMsg) (m : ElectionMsg) (w : ℤ) (b : Bully)
    → b.running ≡ true
    → All IsBid before
    → All IsBid after
    → Bids m w
    → IsGe (msg_key m w) b.key
    → LeaderIsGe (msg_key m w) (deliver (before ++ m ∷ after) b)
deliver-leader_is_max [] after m w b on earlier later d ge =
    let (k, r, up, keep) = on_message-Follows m w b on d in
    deliver-keeps after (on_election_message m b).0 (msg_key m w) (r ∙ on) later (up ge)
deliver-leader_is_max (x ∷ before) after m w b on ((v, c), rest) later d ge =
    let (k, r, up, keep) = on_message-Follows x v b on c in
    deliver-leader_is_max before after m w (on_election_message x b).0 (r ∙ on) rest later d
      (subst (λ own. IsGe (msg_key m w) own) (sym k) ge)
