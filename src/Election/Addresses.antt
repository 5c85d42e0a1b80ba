-- ===== src/Election/Addresses.antt =====
-- The addresses of peers and the sending to them: src/discoverymgr/election_mgr.cpp. A text is the
-- list of its codes. The regular expression for IPv4 addresses, std::from_chars and the HTTP client
-- are parameters.
use ability_framework.Prelude.{
  ℕ, zero, suc, Bool, true, false, not, ◌&&◌, Option, none, some, List, [], ◌∷◌, ◌==◌,
  if◌then◌else◌, length,
}
use ability_framework.Prelude.Int.{ℤ, pos}
use ability_framework.Election.Message.{ElectionMsg, Answer, timeout, is_timeout}

abbrev pub slash : ℕ
slash = b'/'

-- `addr.find('/', start)` with the two parts that it separates.
unfoldable pub find_slash : List ℕ → Option (List ℕ × List ℕ)
find_slash [] = none
find_slash (c ∷ cs) =
    if c == slash
    then some ([], cs)
    else elim (find_slash cs) [ none ↦ none | some (seg, after) ↦ some (c ∷ seg, after) ]

-- A segment that is not empty is kept.
abbrev pub keep_segment : List ℕ → List (List ℕ) → List (List ℕ)
keep_segment [] segments = segments
keep_segment (c ∷ cs) segments = (c ∷ cs) ∷ segments

-- A round of the loop of multiaddr_segments, or the last segment after it.
abbrev pub take_segment :
    (List ℕ → List (List ℕ)) → List ℕ → Option (List ℕ × List ℕ) → List (List ℕ)
take_segment loop left none = keep_segment left []
take_segment loop left (some (seg, after)) = keep_segment seg (loop after)

-- The loop over what is left of the address. Each round takes a slash, so fuel above the length is
-- enough.
unfoldable pub segments_loop : ℕ → List ℕ → List (List ℕ)
segments_loop zero left = []
segments_loop (suc fuel) left = take_segment (segments_loop fuel) left (find_slash left)

unfoldable pub multiaddr_segments : List ℕ → List (List ℕ)
unfolding segments_loop find_slash
multiaddr_segments [] = []
multiaddr_segments (c ∷ cs) = if c == slash then segments_loop (suc (length cs)) cs else []

abbrev pub same_text : List ℕ → List ℕ → Bool
same_text [] [] = true
same_text (a ∷ s) (b ∷ t) = a == b && same_text s t
same_text _ _ = false

pub record HttpOverIpv4 : Type 0 where
  pub addr : List ℕ
  pub port : ℤ

-- `from_chars` gives the port, or `none` for each of its errors.
module _ (is_valid_ipv4 : List ℕ → Bool) (from_chars : List ℕ → Option ℤ) where
  abbrev pub with_port : List ℕ → Option ℤ → Option HttpOverIpv4
  with_port ip none = none
  with_port ip (some port) = some (record { addr = ip; port = port })

  -- HttpOverIpv4::from_segments: two segments or four, the first "ip4"; a third other than "http"
  -- leaves the port at 8080.
  unfoldable pub from_segments : List (List ℕ) → Option HttpOverIpv4
  from_segments (family ∷ ip ∷ []) =
      if same_text family (b'i' ∷ b'p' ∷ b'4' ∷ []) && is_valid_ipv4 ip
      then some (record { addr = ip; port = pos 8080 })
      else none
  from_segments (family ∷ ip ∷ protocol ∷ port ∷ []) =
      if same_text family (b'i' ∷ b'p' ∷ b'4' ∷ []) && is_valid_ipv4 ip
      then (if same_text protocol (b'h' ∷ b't' ∷ b't' ∷ b'p' ∷ [])
          then with_port ip (from_chars port)
          else some (record { addr = ip; port = pos 8080 }))
      else none
  from_segments _ = none

  -- impl_send to one address; `send` is HttpOverIpv4::send.
  module _ (send : HttpOverIpv4 → ElectionMsg → Answer) where
    abbrev pub send_to : Option HttpOverIpv4 → ElectionMsg → Answer
    send_to none msg = timeout
    send_to (some http) msg = send http msg

    unfoldable pub send_address : List ℕ → ElectionMsg → Answer
    unfolding multiaddr_segments from_segments
    send_address addr msg = send_to (from_segments (multiaddr_segments addr)) msg

    -- impl_send to a peer: the first answer that is no timeout.
    unfoldable pub send_peer : List (List ℕ) → ElectionMsg → Answer
    unfolding send_address
    send_peer [] msg = timeout
    send_peer (addr ∷ addrs) msg =
        let res = send_address addr msg in
        let rest = send_peer addrs msg in if not (is_timeout res) then res else rest
