-- ===== src/Bus/Message.antt =====
-- Messages and replies: include/messagebus/messagebus.hpp and src/messagebus/messagebus.cpp.
use ability_framework.Prelude.{ℕ, String, Bool, true, false, Option, none, some, ◌≡◌, refl}

pub data Status : Type 0 where
  ok : Status
  failed : Status
  not_exist : Status

pub record Header : Type 0 where
  pub id : ℕ
  pub parent_id : ℕ
  pub timestamp : ℕ
  pub is_synchronous : Bool
  pub status : Status

-- `on_response` is the number of the callback, if there is one.
pub record RouteInfo : Type 0 where
  pub source : String
  pub destination : String
  pub operation : String
  pub on_response : Option ℕ

pub record Message : Type 0 where
  pub header : Header
  pub router : RouteInfo
  pub content : String

-- reply_from(RouteInfo)
unfoldable pub reply_route : RouteInfo → RouteInfo
reply_route r = record r { source = r.destination; destination = r.source }

-- reply_from(Header, Status), with the new uuid and the time.
unfoldable pub reply_header : ℕ → ℕ → Header → Status → Header
reply_header uuid now h status = record {
  id = uuid;
  parent_id = h.id;
  timestamp = now;
  is_synchronous = false;
  status = status;
}

-- What a response is: a message given to a callback, or std::logic_error.
pub data Responded : Type 0 where
  called : ℕ → Message → Responded
  non_responsible : Responded

abbrev pub respond_with : ℕ → ℕ → Message → Status → String → Option ℕ → Responded
respond_with uuid now m status body none = non_responsible
respond_with uuid now m status body (some k) = called k (record {
  header = reply_header uuid now m.header status;
  router = reply_route m.router;
  content = body;
})

-- Message::respond
unfoldable pub respond : ℕ → ℕ → Message → String → Responded
unfolding reply_header reply_route
respond uuid now m body = respond_with uuid now m ok body m.router.on_response

-- Message::respond_error
unfoldable pub respond_error : ℕ → ℕ → Message → String → Responded
unfolding reply_header reply_route
respond_error uuid now m body = respond_with uuid now m failed body m.router.on_response

-- Message::success
abbrev pub success : Message → Bool
success m = elim m.header.status [ ok ↦ true | failed ↦ false | not_exist ↦ false ]

abbrev pub IsReplyTo : Message → Message → Type 0
IsReplyTo m r =
    (r.header.parent_id ≡ m.header.id)
    × (r.router.destination ≡ m.router.source)
    × (r.router.source ≡ m.router.destination)
    × (r.router.operation ≡ m.router.operation)

abbrev pub IsAnswered : Message → Status → String → Responded → Type 0
IsAnswered m status text non_responsible = m.router.on_response ≡ none
IsAnswered m status text (called k r) =
    (m.router.on_response ≡ some k)
    × IsReplyTo m r
    × (r.header.status ≡ status)
    × (r.content ≡ text)

-- Both kinds of response go to the message's callback with a reply that names the message and returns
-- to its source, a success or a failure, with the text given; only a message without a callback makes
-- them throw.
respond-IsAnswered :
    (uuid now : ℕ) (m : Message) (text : String)
    → IsAnswered m ok text (respond uuid now m text)
      × IsAnswered m failed text (respond_error uuid now m text)
unfolding respond respond_error reply_header reply_route
respond-IsAnswered uuid now m text = by_callback m.router.on_response refl
  where
    by_callback :
        (o : Option ℕ)
        → m.router.on_response ≡ o
        → IsAnswered m ok text (respond_with uuid now m ok text o)
          × IsAnswered m failed text (respond_with uuid now m failed text o)
    by_callback none e = (e, e)
    by_callback (some k) e =
        ((e, (refl, refl, refl, refl), refl, refl), (e, (refl, refl, refl, refl), refl, refl))
