-- ===== src/Election/Segments.antt =====
-- An address reads back as the segments that it was made of: src/discoverymgr/election_mgr.cpp.
use ability_framework.Prelude.{
  ℕ, zero, suc, ◌<◌, none, some, List, [], ◌∷◌, ◌++◌, ◌≡◌, ◌≢◌, refl, ap, ◌∙◌, arith, All, length,
  length-append,
}
use ability_framework.Election.Addresses.{
  slash, find_slash, keep_segment, take_segment, segments_loop, multiaddr_segments,
}

-- A segment is not empty and has no slash.
abbrev pub IsSegment : List ℕ → Type 0
IsSegment s = (s ≢ []) × All (λ c. c ≢ slash) s

-- An address of some segments.
abbrev pub address_of : List (List ℕ) → List ℕ
address_of [] = []
address_of (s ∷ ss) = slash ∷ (s ++ address_of ss)

find_slash-none : (s : List ℕ) → All (λ c. c ≢ slash) s → find_slash s ≡ none
unfolding find_slash
find_slash-none [] h = refl
find_slash-none (c ∷ s) h = ground (arith, h.0, find_slash-none s h.1)

find_slash-some :
    (s rest : List ℕ) → All (λ c. c ≢ slash) s → find_slash (s ++ slash ∷ rest) ≡ some (s, rest)
unfolding find_slash
find_slash-some [] rest h = ground arith
find_slash-some (c ∷ s) rest h = ground (arith, h.0, find_slash-some s rest h.1)

pub append_nil : (s : List ℕ) → s ++ [] ≡ s
append_nil [] = refl
append_nil (c ∷ s) = ap (λ r. c ∷ r) (append_nil s)

keep_segment_lem : (s : List ℕ) (ss : List (List ℕ)) → s ≢ [] → keep_segment s ss ≡ s ∷ ss
keep_segment_lem [] ss h = absurd (h refl)
keep_segment_lem (c ∷ s) ss h = refl

segments_loop-address_of :
    (fuel : ℕ) (s : List ℕ) (ss : List (List ℕ))
    → IsSegment s
    → All IsSegment ss
    → length (s ++ address_of ss) < fuel
    → segments_loop fuel (s ++ address_of ss) ≡ s ∷ ss
unfolding segments_loop
segments_loop-address_of zero s ss h k lt = absurd (omega arith)
segments_loop-address_of (suc fuel) s [] h k lt =
    ap (λ left. take_segment (segments_loop fuel) left (find_slash left)) (append_nil s)
    ∙ ap (take_segment (segments_loop fuel) s) (find_slash-none s h.1)
    ∙ keep_segment_lem s [] h.0
segments_loop-address_of (suc fuel) s (t ∷ ss) h k lt =
    ap (take_segment (segments_loop fuel) (s ++ address_of (t ∷ ss)))
      (find_slash-some s (t ++ address_of ss) h.1)
    ∙ ap (keep_segment s) (
        segments_loop-address_of fuel t ss k.0 k.1
          (omega (arith, lt, length-append s (slash ∷ (t ++ address_of ss)))))
    ∙ keep_segment_lem s (t ∷ ss) h.0

-- Reading the address that is made of any segments, none empty and none with a slash, gives these
-- segments in order.
pub multiaddr_segments-address_of :
    (segments : List (List ℕ))
    → All IsSegment segments
    → multiaddr_segments (address_of segments) ≡ segments
unfolding multiaddr_segments
multiaddr_segments-address_of [] h = refl
multiaddr_segments-address_of (s ∷ ss) h =
    segments_loop-address_of (suc (length (s ++ address_of ss))) s ss h.0 h.1 (omega arith)
