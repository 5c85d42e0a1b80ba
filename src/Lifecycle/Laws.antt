-- ===== src/Lifecycle/Laws.antt =====
-- Properties of the table of heartbeats and of the requests: src/lifecyclemgr/lifecycle_mgr.cpp.
use Prim.Native.String.{◌++◌ as str_append}
use mathlib.Core.Option.{some-injective}
use text.Mathlib.Text.{◌==◌ as str_eq}
use ability_framework.Prelude.{
  ℕ, String, Bool, true, false, Option, none, some, List, [], ◌∷◌, ◌≡◌, refl, sym, ap, ◌∙◌, arith,
  ◌==◌, ==_iff, ◌||◌, if◌then◌else◌, find, erase, uuid_key, find-insert, find-erase, All,
  Bool-cases, inl, inr, ◌&&◌,
}
use ability_framework.Tasks.Task.{threw}
use ability_framework.Lifecycle.Heartbeat.{Heartbeat}
use ability_framework.Lifecycle.Client.{HttpClient, Posted, is_legal}
use ability_framework.Lifecycle.Manager.{
  Entry, Heartbeats, is_accepted, update_entry, on_heartbeat, get_heartbeat, heartbeat_of,
  contains_active, is_active_entry, is_stale, stale_ids, erase_ids, clear_stale_heartbeats,
  on_ability_exit,
}
use ability_framework.Lifecycle.Requests.{
  LifecycleRequest, Answered, make_lifecycle_adjust_request, on_lifecycle_request,
}

heartbeat-update_entry :
    (port_to_string : ℕ → String) (make : String → Option HttpClient) (now : ℕ) (h : Heartbeat)
    (o : Option Entry)
    → (update_entry port_to_string make now h o).heartbeat ≡ h
unfolding update_entry
heartbeat-update_entry port_to_string make now h none = refl
heartbeat-update_entry port_to_string make now h (some e) = refl

-- A heartbeat is answered as the ResourceMgr accepts it. Accepted, it is what is then known of its
-- instance, and nothing changes for other instances; otherwise nothing changes at all.
get_heartbeat-on_heartbeat :
    (port_to_string : ℕ → String) (make : String → Option HttpClient) (now : ℕ) (h : Heartbeat)
    (answer : Option Bool) (hs : Heartbeats) (j : ℕ)
    → let (accepted, hs') = on_heartbeat port_to_string make now h answer hs in
      (accepted ≡ is_accepted answer)
      × (get_heartbeat j hs' ≡ (
          if is_accepted answer
          then (if h.id == j then some h else get_heartbeat j hs)
          else get_heartbeat j hs))
unfolding on_heartbeat get_heartbeat
get_heartbeat-on_heartbeat port_to_string make now h none hs j = (refl, refl)
get_heartbeat-on_heartbeat port_to_string make now h (some false) hs j = (refl, refl)
get_heartbeat-on_heartbeat port_to_string make now h (some true) hs j =
    (refl, ap heartbeat_of (find-insert h.id j e hs) ∙ pick (h.id == j))
  where
    e : Entry
    e = update_entry port_to_string make now h (find h.id hs)

    pick :
        (c : Bool)
        → heartbeat_of (if c then some e else find j hs)
          ≡ (if c then some h else heartbeat_of (find j hs))
    pick true = ap some (heartbeat-update_entry port_to_string make now h (find h.id hs))
    pick false = refl

abbrev has : ℕ → List ℕ → Bool
has j [] = false
has j (i ∷ is) = i == j || has j is

pub find-erase_ids :
    (j : ℕ) (ids : List ℕ) (hs : Heartbeats)
    → find j (erase_ids ids hs) ≡ (if has j ids then none else find j hs)
unfolding erase_ids
find-erase_ids j [] hs = refl
find-erase_ids j (i ∷ ids) hs = ground (arith, find-erase_ids j ids (erase i hs), find-erase i j hs)

has-collected :
    (j i : ℕ) (c : Bool) (is : List ℕ)
    → has j (if c then i ∷ is else is) ≡ ((c && i == j) || has j is)
has-collected j i true is = refl
has-collected j i false is = refl

-- The first entry under an id, if it is stale, has its id among those collected.
has-stale_ids :
    (now j : ℕ) (hs : Heartbeats) (e : Entry)
    → find j hs ≡ some e
    → is_stale now e ≡ true
    → has j (stale_ids now hs) ≡ true
unfolding stale_ids find
has-stale_ids now j [] e f s = ground (arith, f)
has-stale_ids now j ((i, d) ∷ hs) e f s =
    has-collected j i (is_stale now d) (stale_ids now hs)
    ∙ by_same (i == j) f (λ g. has-stale_ids now j hs e g s)
  where
    by_same :
        (c : Bool)
        → (if c then some d else find j hs) ≡ some e
        → (find j hs ≡ some e → has j (stale_ids now hs) ≡ true)
        → ((is_stale now d && c) || has j (stale_ids now hs)) ≡ true
    by_same true g k = ground (arith, s, ap (is_stale now) (some-injective _ _ g))
    by_same false g k = ground (arith, k g)

abbrev pub IsFreshAt : ℕ → ℕ → ℕ × Entry → Type 0
IsFreshAt now j x = x.0 ≡ j → is_stale now x.1 ≡ false

has_no-stale_ids :
    (now j : ℕ) (hs : Heartbeats) → All (IsFreshAt now j) hs → has j (stale_ids now hs) ≡ false
unfolding stale_ids
has_no-stale_ids now j [] h = refl
has_no-stale_ids now j ((i, d) ∷ hs) h =
    has-collected j i (is_stale now d) (stale_ids now hs) ∙ (elim (Bool-cases (i == j)) [
      | inl eq ↦ ground (arith, eq, h.0 ((==_iff i j).0 eq), has_no-stale_ids now j hs h.1)
      | inr other ↦ ground (arith, other, has_no-stale_ids now j hs h.1)
    ])

-- An entry that is found after stale heartbeats were cleared was there before, as it is, and has been
-- updated within the last minute.
find-clear_stale_heartbeats :
    (now j : ℕ) (hs : Heartbeats) (e : Entry)
    → find j (clear_stale_heartbeats now hs) ≡ some e
    → (find j hs ≡ some e) × (is_stale now e ≡ false)
unfolding clear_stale_heartbeats
find-clear_stale_heartbeats now j hs e f = elim (Bool-cases (has j (stale_ids now hs))) [
  | inl gone ↦ ground (arith, gone, f, after)
  | inr left ↦
      let found : find j hs ≡ some e =
        sym (after ∙ ap (λ c. if c then none else find j hs) left) ∙ f in
      (
        found,
        elim (Bool-cases (is_stale now e)) [
          | inl stale ↦ ground (arith, left, has-stale_ids now j hs e found stale)
          | inr fresh ↦ fresh
        ],
      )
]
  where
    after :
        find j (erase_ids (stale_ids now hs) hs)
        ≡ (if has j (stale_ids now hs) then none else find j hs)
    after = find-erase_ids j (stale_ids now hs) hs

-- Clearing stale heartbeats changes nothing for an instance whose entries are all fresh.
find-clear_stale_heartbeats_fresh :
    (now j : ℕ) (hs : Heartbeats)
    → All (IsFreshAt now j) hs
    → find j (clear_stale_heartbeats now hs) ≡ find j hs
unfolding clear_stale_heartbeats
find-clear_stale_heartbeats_fresh now j hs h =
    find-erase_ids j (stale_ids now hs) hs
    ∙ ap (λ c. if c then none else find j hs) (has_no-stale_ids now j hs h)

-- After an ability exits it is not active, no heartbeat of it is known, and every other instance is as
-- it was.
contains_active-on_ability_exit :
    (id j : ℕ) (parent : Option ℕ) (hs : Heartbeats)
    → let hs' = (on_ability_exit id parent hs).1 in
      (contains_active j hs' ≡ (if id == j then false else contains_active j hs))
      × (get_heartbeat j hs' ≡ (if id == j then none else get_heartbeat j hs))
unfolding on_ability_exit contains_active get_heartbeat
contains_active-on_ability_exit id j parent hs = (
  ap is_active_entry (find-erase id j hs) ∙ active (id == j),
  ap heartbeat_of (find-erase id j hs) ∙ known (id == j),
)
  where
    active :
        (c : Bool)
        → is_active_entry (if c then none else find j hs)
          ≡ (if c then false else is_active_entry (find j hs))
    active true = refl
    active false = refl

    known :
        (c : Bool)
        → heartbeat_of (if c then none else find j hs)
          ≡ (if c then none else heartbeat_of (find j hs))
    known true = refl
    known false = refl

module _ {X : Type 0} (J : Type 0) (uuid_to_string : ℕ → String)
    (start_process : ℕ → X → Answered × X) (post : String → ℕ → String → X → Posted × X) where
  -- A request whose command is not one of the four in lower case, though from_json may have let it
  -- through (it tests the command in lower case and keeps it as it came), throws for every active
  -- ability instead of being carried out or refused.
  on_lifecycle_request-throws :
      (uuid now : ℕ) (q : LifecycleRequest) (found storage : Option String) (hs : Heartbeats)
      → is_legal q.command ≡ false
      → contains_active q.ability_instance_id hs ≡ true
      → on_lifecycle_request J uuid_to_string start_process post uuid now q found storage hs
        ≡ some (threw (str_append "unknown comand: " q.command))
  unfolding on_lifecycle_request make_lifecycle_adjust_request
  on_lifecycle_request-throws uuid now q found storage hs illegal active =
      let not_start : str_eq q.command "start" ≡ false = ground (arith, illegal) in
      let not_connect : str_eq q.command "connect" ≡ false = ground (arith, illegal) in
      let not_disconnect : str_eq q.command "disconnect" ≡ false = ground (arith, illegal) in
      let not_terminate : str_eq q.command "terminate" ≡ false = ground (arith, illegal) in
      rw (not_start, not_connect, not_disconnect, not_terminate, active)
