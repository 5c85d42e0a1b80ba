-- ===== src/Resources/Replies.antt =====
-- What the routes /api/cr/:id/occupation answer: src/resourcemgr/resource_mgr_http_apis.cpp.
use ability_framework.Prelude.{
  ℕ, String, Bool, true, Option, none, some, List, [], ◌∷◌, ◌==◌, if◌then◌else◌, ◌≡◌, refl, ap, ◌∙◌,
  arith,
}
use ability_framework.Resources.Tables.{
  ability, OwnershipMode, unique, shared, Resources, judge_ability_exist,
}
use ability_framework.Resources.Ownership.{
  select, to_id_str_map, first_row, get_ability_sharers, get_ability_owner,
}
use ability_framework.Resources.Occupy.{occupy, RemoteRequest, occupy_ability}
use ability_framework.Resources.Holds.{
  Hold, owned, shared_by, hold_of, hold_of_rows, grant, IsExclusive, AreExclusive,
}
use ability_framework.Resources.Requests.{handle}
use ability_framework.Resources.Exclusive.{IsLocal, handle-IsLocal, occupy_ability_refines}
use ability_framework.Resources.Routes.{
  HttpReply, done, failed, problem, occupation, OccupationBody, reply_of, occupation_of,
  parse_ownership_mode, get_occupation, read_body, occupy_known, post_occupation,
}

abbrev pub body_of : String → String → String → OccupationBody
body_of occupant text addr = record {
  occupy_id = some occupant;
  mode = some text;
  position = some addr;
}

-- What a GET shows of a hold.
abbrev pub shows : Hold → HttpReply
shows (owned p addr) = occupation [] (some (p, addr))
shows (shared_by m) = occupation m none

-- What a POST for an ability is answered, by its hold: the one owner may ask again, a writer is let in
-- where nobody holds the ability, and a reader where nobody owns it.
abbrev pub conflict : HttpReply
conflict = failed (problem 409 "occupy_ability_failed")

abbrev pub lock_reply : ℕ → OwnershipMode → Hold → HttpReply
lock_reply p mode (owned q a) = if q == p then done else conflict
lock_reply p unique (shared_by []) = done
lock_reply p unique (shared_by (x ∷ m)) = conflict
lock_reply p shared (shared_by m) = done

reply_of-grant :
    (p : ℕ) (addr : String) (mode : OwnershipMode) (hold : Hold)
    → reply_of "occupy_ability_failed" (grant p addr mode hold).0 ≡ lock_reply p mode hold
unfolding reply_of
reply_of-grant p addr unique (owned q a) = ground arith
reply_of-grant p addr shared (owned q a) = ground arith
reply_of-grant p addr unique (shared_by []) = refl
reply_of-grant p addr unique (shared_by (x ∷ m)) = refl
reply_of-grant p addr shared (shared_by m) = refl

-- The words for the modes.
abbrev pub mode_word : OwnershipMode → String
mode_word unique = "unique"
mode_word shared = "shared"

parse_ownership_mode-mode_word :
    (to_lower : String → String) (text : String) (mode : OwnershipMode)
    → to_lower text ≡ mode_word mode
    → parse_ownership_mode to_lower text ≡ some mode
unfolding parse_ownership_mode
parse_ownership_mode-mode_word to_lower text unique e = rw e refl
parse_ownership_mode-mode_word to_lower text shared e = rw e refl

shows-rows :
    (xs ys : List (ℕ × String))
    → AreExclusive xs ys
    → occupation (to_id_str_map ys []) (first_row xs) ≡ shows (hold_of_rows xs ys)
unfolding to_id_str_map
shows-rows [] ys h = refl
shows-rows (x ∷ []) [] h = refl
shows-rows (x ∷ []) (y ∷ ys) h = absurd h
shows-rows (x ∷ x' ∷ xs) ys h = absurd h

occupation_of-hold :
    (c : ℕ) (r : Resources)
    → judge_ability_exist c r ≡ true
    → IsExclusive c r.ownership
    → occupation_of c r ≡ shows (hold_of c r.ownership)
unfolding occupation_of get_ability_sharers get_ability_owner
occupation_of-hold c r e h = rw e (
    shows-rows (select ability c ability unique r.ownership)
      (select ability c ability shared r.ownership) h)

module _ (from_string : String → Option ℕ) (to_lower : String → String) (is_local : String → Bool)
    (post : RemoteRequest → Option Bool) where
  post_occupation_wanted :
      (id occupant text addr : String) (c p : ℕ) (mode : OwnershipMode) (r : Resources)
      → from_string id ≡ some c
      → from_string occupant ≡ some p
      → parse_ownership_mode to_lower text ≡ some mode
      → judge_ability_exist c r ≡ true
      → post_occupation from_string to_lower is_local post id (some (body_of occupant text addr)) r
        ≡ (
          reply_of "occupy_ability_failed" (occupy_ability is_local post p addr c mode r).0,
          (occupy_ability is_local post p addr c mode r).1,
        )
  unfolding post_occupation read_body occupy_known
  post_occupation_wanted id occupant text addr c p mode r ei eo em e = ground arith

  get_occupation_known :
      (id : String) (c : ℕ) (r : Resources)
      → from_string id ≡ some c
      → get_occupation from_string id r ≡ occupation_of c r
  unfolding get_occupation
  get_occupation_known id c r ei = ground arith

  -- A POST with the uuid of a known local ability that has one owner and no sharers, or no owner,
  -- and a body that names an occupant, a mode (a text that is "unique" or "shared" in small letters) and
  -- a position, answers as follows. To the owner of the ability it answers "OK", and to another the
  -- status 409; without an owner it answers "OK" to a request to share, and to one to own just when
  -- nobody shares, and else 409. A GET that follows shows the hold as a readers-writer lock would be.
  pub post_occupation-get_occupation :
      (id occupant text addr : String) (c p : ℕ) (mode : OwnershipMode) (r : Resources)
      → from_string id ≡ some c
      → from_string occupant ≡ some p
      → to_lower text ≡ mode_word mode
      → IsLocal is_local post c r
      → IsExclusive c r.ownership
      → let (reply, r') =
          post_occupation from_string to_lower is_local post id
            (some (body_of occupant text addr))
            r in
        (reply ≡ lock_reply p mode (hold_of c r.ownership))
        × (get_occupation from_string id r' ≡ shows (grant p addr mode (hold_of c r.ownership)).1)
  unfolding handle
  post_occupation-get_occupation id occupant text addr c p mode r ei eo em (spec, e, s, l) h =
      let (answer, hold, exclusive) =
        occupy_ability_refines is_local post p addr c mode r (spec, e, s, l) h in
      let (_, e', _, _) =
        handle-IsLocal is_local post occupy ability p addr c c mode r (spec, e, s, l) in
      let parsed = parse_ownership_mode-mode_word to_lower text mode em in
      rw (post_occupation_wanted id occupant text addr c p mode r ei eo parsed e) (
        ap (reply_of "occupy_ability_failed") answer
            ∙ reply_of-grant p addr mode (hold_of c r.ownership),
        get_occupation_known id c (occupy_ability is_local post p addr c mode r).1 ei
            ∙ occupation_of-hold c (occupy_ability is_local post p addr c mode r).1 e' exclusive
            ∙ ap shows hold,
      )
