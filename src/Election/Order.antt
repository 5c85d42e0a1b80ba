-- ===== src/Election/Order.antt =====
-- The order of the participants' keys in src/discoverymgr/election_methods/bully.cpp, and what the
-- handlers do with the leader's.
use text.Mathlib.Text.{◌==◌ as str_eq}
use text.Mathlib.TextEquality.{eq_iff}
use ability_framework.Prelude.{
  ap, ◌∙◌, Bool-cases, ◌||◌, String, Bool, true, false, Option, none, some, ◌≡◌, refl, uuid_key,
  find-insert, same_refl, arith, subst, sym, ◌⊎◌, inl, inr,
}
use ability_framework.Prelude.Int.{ℤ}
use ability_framework.Election.Message.{ElectionMsg, read_weight}
use ability_framework.Election.Bully.{
  Key, lt_leader, lt_key, Bully, ExtPeerInfo, key_of, peer_at, store_peer, follow, msg_key,
  on_msg_ping, dispatch, after_read, on_election_message, note_peer,
}

-- `IsGe a b`: a is not smaller than b.
abbrev pub IsGe : Key → Key → Type 0
IsGe a b = lt_key a b ≡ false

pub IsGe-refl : (a : Key) → IsGe a a
IsGe-refl a = ground arith

pub IsGe-trans : (a b c : Key) → IsGe a b → IsGe b c → IsGe a c
IsGe-trans a b c h k = ground (arith, h, k)

pub lt-IsGe : (a b : Key) → lt_key a b ≡ true → IsGe b a
lt-IsGe a b h = ground (arith, h)

-- The leader is known, and its key is not smaller than k.
abbrev pub LeaderIsGe : Key → Bully → Type 0
LeaderIsGe k b = lt_leader b.current_leader k ≡ false

pub follow-leads :
    (m : ElectionMsg) (w : ℤ) (b : Bully) (j : Key)
    → key_of (peer_at m.source_id b) ≡ msg_key m w
    → IsGe (msg_key m w) j
    → LeaderIsGe j (follow m b)
follow-leads m w b j e h = subst (λ k. IsGe k j) (sym e) h

keeps_or_follows :
    (m : ElectionMsg) (w : ℤ) (b : Bully)
    → let b' = (on_msg_ping m w b).0 in
      ((b' ≡ b) × ((lt_key (msg_key m w) b.key ≡ true) ⊎ LeaderIsGe (msg_key m w) b))
      ⊎ ((b' ≡ follow m b) × (lt_leader b.current_leader (msg_key m w) ≡ true))
unfolding on_msg_ping
keeps_or_follows m w b = ground arith

-- How a step treats the leader that k stands for, and every bound on it.
abbrev pub Follows : Key → Bully → Bully → Type 0
Follows k b b' =
    (b'.key ≡ b.key)
    × (b'.running ≡ b.running)
    × (IsGe k b.key → LeaderIsGe k b')
    × ((j : Key) → LeaderIsGe j b → LeaderIsGe j b')

lt_leader-IsGe :
    (o : Option ExtPeerInfo) (k j : Key) → lt_leader o k ≡ true → lt_leader o j ≡ false → IsGe k j
lt_leader-IsGe none k j h d = ground (arith, d)
lt_leader-IsGe (some l) k j h d = IsGe-trans k (key_of l) j (lt-IsGe (key_of l) k h) d

on_msg_ping-Follows :
    (m : ElectionMsg) (w : ℤ) (b : Bully)
    → key_of (peer_at m.source_id b) ≡ msg_key m w
    → Follows (msg_key m w) b (on_msg_ping m w b).0
on_msg_ping-Follows m w b e = elim (keeps_or_follows m w b) [
  | inl (s, inl low) ↦
      subst (Follows k b) (sym s) (refl, refl, λ high. ground (arith, low, high), λ j h. h)
  | inl (s, inr top) ↦ subst (Follows k b) (sym s) (refl, refl, λ high. top, λ j h. h)
  | inr (s, low) ↦ subst (Follows k b) (sym s) (
    refl,
    refl,
    λ high. follow-leads m w b k e (IsGe-refl k),
    λ j h. follow-leads m w b j e (lt_leader-IsGe b.current_leader k j low h),
  )
]
  where
    k : Key
    k = msg_key m w

-- The messages that ask to be followed.
abbrev pub asks : String → Bool
asks type = str_eq type "bully.ping" || str_eq type "bully.challange"

asks-no_victory : (t : String) → asks t ≡ true → str_eq t "bully.victory" ≡ false
asks-no_victory t h = elim (Bool-cases (str_eq t "bully.ping")) [
  | inl e ↦ literal "bully.ping" e refl
  | inr n ↦ literal "bully.challange" (ground (arith, h, n)) refl
]
  where
    literal :
        (s : String)
        → str_eq t s ≡ true
        → str_eq s "bully.victory" ≡ false
        → str_eq t "bully.victory" ≡ false
    literal s e f = ap (λ x. str_eq x "bully.victory") ((eq_iff t s).0 e) ∙ f

dispatch-asks :
    (m : ElectionMsg) (w : ℤ) (b : Bully) → asks m.type ≡ true → dispatch m w b ≡ on_msg_ping m w b
unfolding dispatch
dispatch-asks m w b t = ground (arith, t, asks-no_victory m.type t)

-- Storing the sender first puts its key on record and keeps the rest.
after_read-Follows :
    (m : ElectionMsg) (p : ExtPeerInfo) (w : ℤ) (b : Bully)
    → p.pinfo.id ≡ m.source_id
    → asks m.type ≡ true
    → Follows (msg_key m w) b (after_read m p (some w) b).0
unfolding after_read
after_read-Follows m p w b e t =
    subst (λ r. Follows (msg_key m w) b r.0) (sym (dispatch-asks m w stored t))
      (on_msg_ping-Follows m w stored known)
  where
    q : ExtPeerInfo
    q = record p { weight = w }

    stored : Bully
    stored = store_peer m q b

    known : key_of (peer_at m.source_id stored) ≡ msg_key m w
    known = rw (find-insert m.source_id m.source_id q b.peers, same_refl m.source_id, e)

-- A ping or a challenge whose weight can be read.
abbrev pub Bids : ElectionMsg → ℤ → Type 0
Bids m w = (asks m.type ≡ true) × (read_weight m.detail ≡ some w)

pub on_message-after_read :
    (m : ElectionMsg) (b : Bully)
    → b.running ≡ true
    → on_election_message m b ≡ after_read m (note_peer m b) (read_weight m.detail) b
unfolding on_election_message
on_message-after_read m b on = ground (arith, on)

pub on_message-Follows :
    (m : ElectionMsg) (w : ℤ) (b : Bully)
    → b.running ≡ true
    → Bids m w
    → Follows (msg_key m w) b (on_election_message m b).0
unfolding note_peer
on_message-Follows m w b on (t, e) =
    subst (λ r. Follows (msg_key m w) b r.0)
      (sym (on_message-after_read m b on ∙ ap (λ o. after_read m (note_peer m b) o b) e))
      (after_read-Follows m (note_peer m b) w b refl t)
