-- ===== src/Election/Takeover.antt =====
-- The working thread of src/discoverymgr/election_methods/bully.cpp in a network that has gone silent.
use mathlib.Core.Option.{some-injective}
use ability_framework.Prelude.{
  ℕ, zero, suc, Bool, true, false, Option, none, some, List, [], ◌∷◌, ◌≡◌, refl, subst, sym, ap,
  ◌∙◌, All, ◌≤◌, ◌<◌, ◌==◌, ◌⊎◌, inl, inr, Map, find, erase, uuid_key, is_some, length, arith,
  if◌then◌else◌, Bool-cases, String, ltb, same_refl,
}
use ability_framework.Election.Message.{ElectionMsg, timeout}
use ability_framework.Election.Bully.{
  Key, Bully, ExtPeerInfo, max_id_loop, max_id_in_peers, self_is_leader, work_round, Network,
  leader_down, elect, ping_leader, send_ping, is_biggest, lead, make_msg, reached,
}

-- Peers are kept under their own ids, as `add_peers` stores them.
abbrev pub IsKeyed : Map ℕ ExtPeerInfo → Type 0
IsKeyed m = All (λ e. e.1.pinfo.id ≡ e.0) m

abbrev has : ℕ → Map ℕ ExtPeerInfo → Bool
has i m = is_some (find i m)

has-head : (i : ℕ) (p : ExtPeerInfo) (m : Map ℕ ExtPeerInfo) → has i ((i, p) ∷ m) ≡ true
unfolding find
has-head i p m = ground (arith, same_refl i)

has-tail :
    (i j : ℕ) (p : ExtPeerInfo) (m : Map ℕ ExtPeerInfo) → has i m ≡ true → has i ((j, p) ∷ m) ≡ true
unfolding find
has-tail i j p m h = ground (arith, h)

erase-IsKeyed : (i : ℕ) (m : Map ℕ ExtPeerInfo) → IsKeyed m → IsKeyed (erase i m)
unfolding erase
erase-IsKeyed i [] h = tt
erase-IsKeyed i ((j, p) ∷ m) h = ground (arith, h, erase-IsKeyed i m h.1)

length-erase : (i : ℕ) (m : Map ℕ ExtPeerInfo) → length (erase i m) ≤ length m
unfolding erase
length-erase i [] = omega arith
length-erase i ((j, p) ∷ m) = ground (arith, length-erase i m)

length-erase-has : (i : ℕ) (m : Map ℕ ExtPeerInfo) → has i m ≡ true → length (erase i m) < length m
unfolding erase find
length-erase-has i [] h = ground (arith, h)
length-erase-has i ((j, p) ∷ m) h = ground (arith, h, length-erase i m, length-erase-has i m)

-- The loop returns one of the peers, or what it started with.
from_head :
    (j : ℕ) (q r : ExtPeerInfo) (m : Map ℕ ExtPeerInfo)
    → q.pinfo.id ≡ j
    → (r ≡ q) ⊎ (has r.pinfo.id m ≡ true)
    → has r.pinfo.id ((j, q) ∷ m) ≡ true
from_head j q r m h (inl e) =
    subst (λ x. has x ((j, q) ∷ m) ≡ true) (sym (ap (λ s. s.pinfo.id) e ∙ h)) (has-head j q m)
from_head j q r m h (inr f) = has-tail r.pinfo.id j q m f

max_id_loop-has :
    (i : ℕ) (p : ExtPeerInfo) (m : Map ℕ ExtPeerInfo)
    → IsKeyed m
    → let r = max_id_loop i p m in (r ≡ p) ⊎ (has r.pinfo.id m ≡ true)
unfolding max_id_loop
max_id_loop-has i p [] h = inl refl
max_id_loop-has i p ((j, q) ∷ m) h =
    by_skip (if i == 0 then false else ltb j i) (max_id_loop-has i p m h.1)
      (max_id_loop-has j q m h.1)
  where
    OneOf : ExtPeerInfo → ExtPeerInfo → Type 0
    OneOf r s = (r ≡ s) ⊎ (has r.pinfo.id m ≡ true)

    by_skip :
        (c : Bool)
        → OneOf (max_id_loop i p m) p
        → OneOf (max_id_loop j q m) q
        → let r = max_id_loop (if c then i else j) (if c then p else q) m in
          (r ≡ p) ⊎ (has r.pinfo.id ((j, q) ∷ m) ≡ true)
    by_skip true (inl e) k = inl e
    by_skip true (inr f) k = inr (has-tail (max_id_loop i p m).pinfo.id j q m f)
    by_skip false o k = inr (from_head j q (max_id_loop j q m) m h.0 k)

-- max_id_in_peers returns a peer on record.
max_id-has :
    (m : Map ℕ ExtPeerInfo) (p : ExtPeerInfo)
    → IsKeyed m
    → max_id_in_peers m ≡ some p
    → has p.pinfo.id m ≡ true
unfolding max_id_in_peers max_id_loop
max_id-has [] p h e = ground (arith, e)
max_id-has ((j, q) ∷ m) p h e =
    subst (λ r. has r.pinfo.id ((j, q) ∷ m) ≡ true) (some-injective _ _ e)
      (from_head j q (max_id_loop j q m) m h.0 (max_id_loop-has j q m h.1))

-- A round of a leader without answers, or of a participant without a leader.
-- Nobody answers.
abbrev pub silent : Network
silent address m = timeout

send_ping-silent :
    (m : ElectionMsg) (addresses : List String) → send_ping silent m addresses ≡ timeout
unfolding send_ping
send_ping-silent m [] = refl
send_ping-silent m (a ∷ rest) = send_ping-silent m rest

-- What a silent round makes of the leader and of the peers.
abbrev pub silent_round : Bully → Bully
silent_round b = (work_round silent b).0

-- The participant leads after a silent round, or follows another peer on record, its leader erased.
abbrev TurnsTo : Bully → Bully → Type 0
TurnsTo b b' =
    (l : ExtPeerInfo) × (b.current_leader ≡ some l)
    × (b'.peers ≡ erase l.pinfo.id b.peers)
    × (p : ExtPeerInfo) × (b'.current_leader ≡ some p)
    × (has p.pinfo.id b'.peers ≡ true)

abbrev without_leader : ExtPeerInfo → Bully → Bully
without_leader l b = record b { peers = erase l.pinfo.id b.peers }

max_id-none : (k : Key) (m : Map ℕ ExtPeerInfo) → max_id_in_peers m ≡ none → is_biggest k m ≡ true
unfolding max_id_in_peers is_biggest
max_id-none k [] e = refl
max_id-none k (p ∷ m) e = ground (arith, e)

leader_down-lead :
    (l : ExtPeerInfo) (b : Bully)
    → is_biggest b.key (erase l.pinfo.id b.peers) ≡ true
    → (leader_down l b).0 ≡ lead (without_leader l b)
unfolding leader_down
leader_down-lead l b big = ground (arith, big)

leader_down-turn :
    (l p : ExtPeerInfo) (b : Bully)
    → is_biggest b.key (erase l.pinfo.id b.peers) ≡ false
    → max_id_in_peers (erase l.pinfo.id b.peers) ≡ some p
    → (leader_down l b).0 ≡ record (without_leader l b) { current_leader = some p }
unfolding leader_down
leader_down-turn l p b big m = ground (arith, big, m)

down-round :
    (l : ExtPeerInfo) (b : Bully)
    → IsKeyed b.peers
    → b.current_leader ≡ some l
    → let b' = (leader_down l b).0 in (self_is_leader b' ≡ true) ⊎ TurnsTo b b'
down-round l b h e = by_max (max_id_in_peers rest) refl (Bool-cases (is_biggest b.key rest))
  where
    rest : Map ℕ ExtPeerInfo
    rest = erase l.pinfo.id b.peers

    by_max :
        (o : Option ExtPeerInfo)
        → max_id_in_peers rest ≡ o
        → (is_biggest b.key rest ≡ true) ⊎ (is_biggest b.key rest ≡ false)
        → let b' = (leader_down l b).0 in (self_is_leader b' ≡ true) ⊎ TurnsTo b b'
    by_max o m (inl big) = inl (ap self_is_leader (leader_down-lead l b big) ∙ same_refl b.key.id)
    by_max none m (inr small) = ground (arith, small, max_id-none b.key rest m)
    by_max (some p) m (inr small) =
        let s = leader_down-turn l p b small m in
        inr (
          l,
          e,
          ap (λ (x : Bully). x.peers) s,
          p,
          ap (λ (x : Bully). x.current_leader) s,
          subst (λ x. has p.pinfo.id x ≡ true) (sym (ap (λ (x : Bully). x.peers) s))
              (max_id-has rest p (erase-IsKeyed l.pinfo.id b.peers h) m),
        )

victory-work_round :
    (send : Network) (b : Bully)
    → self_is_leader b ≡ true
    → (work_round send b).0 ≡ record b { peers = reached send (make_msg "bully.victory" b) b.peers }
unfolding work_round
victory-work_round send b h = ground (arith, h)

-- A leader stays one, whatever the network answers.
pub self_is_leader-work_round :
    (send : Network) (b : Bully)
    → self_is_leader b ≡ true
    → self_is_leader (work_round send b).0 ≡ true
self_is_leader-work_round send b h = ap self_is_leader (victory-work_round send b h) ∙ h

elect-work_round :
    (send : Network) (b : Bully)
    → self_is_leader b ≡ false
    → (work_round send b).0 ≡ (elect send b b.current_leader).0
unfolding work_round
elect-work_round send b h = ground (arith, h)

ping_leader-silent : (l : ExtPeerInfo) (b : Bully) → ping_leader silent l b ≡ leader_down l b
unfolding ping_leader
ping_leader-silent l b = rw (send_ping-silent (make_msg "bully.ping" b) l.pinfo.addresses)

silent_round-turns :
    (b : Bully)
    → IsKeyed b.peers
    → let b' = silent_round b in (self_is_leader b' ≡ true) ⊎ TurnsTo b b'
silent_round-turns b h = elim (Bool-cases (self_is_leader b)) [
  | inl leads ↦ inl (self_is_leader-work_round silent b leads)
  | inr other ↦
      subst (λ x. (self_is_leader x ≡ true) ⊎ TurnsTo b x) (sym (elect-work_round silent b other))
        (by_leader b.current_leader refl)
]
  where
    by_leader :
        (o : Option ExtPeerInfo)
        → b.current_leader ≡ o
        → let b' = (elect silent b o).0 in (self_is_leader b' ≡ true) ⊎ TurnsTo b b'
    by_leader none e = inl (same_refl b.key.id)
    by_leader (some l) e =
        subst (λ r. (self_is_leader r.0 ≡ true) ⊎ TurnsTo b r.0) (sym (ping_leader-silent l b))
          (down-round l b h e)

abbrev pub silent_rounds : ℕ → Bully → Bully
silent_rounds zero b = b
silent_rounds (suc n) b = silent_rounds n (silent_round b)

leader-silent_rounds :
    (n : ℕ) (b : Bully) → self_is_leader b ≡ true → self_is_leader (silent_rounds n b) ≡ true
leader-silent_rounds zero b h = h
leader-silent_rounds (suc n) b h =
    leader-silent_rounds n (silent_round b) (self_is_leader-work_round silent b h)

-- With the leader on record, each silent round loses a peer.
takeover_from_known :
    (n : ℕ) (b : Bully) (l : ExtPeerInfo)
    → IsKeyed b.peers
    → b.current_leader ≡ some l
    → has l.pinfo.id b.peers ≡ true
    → length b.peers ≤ n
    → self_is_leader (silent_rounds n b) ≡ true
takeover_from_known zero b l h e f k = ground (arith, length-erase-has l.pinfo.id b.peers f, k)
takeover_from_known (suc n) b l h e f k = elim (silent_round-turns b h) [
  | inl leads ↦ leader-silent_rounds n (silent_round b) leads
  | inr (l', e', gone, p, e'', f'') ↦
      let there : has l'.pinfo.id b.peers ≡ true =
        subst (λ (x : ExtPeerInfo). has x.pinfo.id b.peers ≡ true) (some-injective _ _ (sym e ∙ e'))
          f in
      takeover_from_known n (silent_round b) p
        (subst IsKeyed (sym gone) (erase-IsKeyed l'.pinfo.id b.peers h)) e'' f''
        (omega (arith, ap length gone, length-erase-has l'.pinfo.id b.peers there, k))
]

-- In a network where nobody answers and no message arrives, a participant that keeps its peers under
-- their ids leads after more rounds than it has peers, whomever it followed before.
pub silent_takeover :
    (n : ℕ) (b : Bully)
    → IsKeyed b.peers
    → length b.peers < n
    → self_is_leader (silent_rounds n b) ≡ true
silent_takeover zero b h k = ground (arith, k)
silent_takeover (suc n) b h k = elim (silent_round-turns b h) [
  | inl leads ↦ leader-silent_rounds n (silent_round b) leads
  | inr (l, e, gone, p, e', f) ↦
      takeover_from_known n (silent_round b) p
        (subst IsKeyed (sym gone) (erase-IsKeyed l.pinfo.id b.peers h)) e' f
        (omega (arith, ap length gone, length-erase l.pinfo.id b.peers, k))
]
