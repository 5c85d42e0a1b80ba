-- ===== src/Bus/Modules.antt =====
-- The table of modules and what is sent to them: src/messagebus/messagebus.cpp. A module is the number
-- of its object; `name_of` is Module::module_name. A shared or unique lock makes each operation a step.
use Prim.Native.String.{◌++◌ as str_append}
use text.Mathlib.Text.{◌==◌ as str_eq}
use ability_framework.Prelude.{
  ℕ, zero, suc, String, Bool, false, Option, none, some, List, [], ◌∷◌, ◌++◌, if◌then◌else◌, length,
  Map, find, insert, name_key,
}
use ability_framework.Bus.Message.{Message}

-- ModuleMap and ModuleStack, the stack's top last.
pub record Bus : Type 0 where
  pub modules : Map String ℕ
  pub stack : List ℕ

abbrev pub empty_bus : Bus
empty_bus = record { modules = []; stack = [] }

-- remove_module. Once ModuleMap.erase(name) has run, the iterator that the find has given is read: so
-- where the module is found the rest is undefined, which is `none`.
abbrev pub removed : Bus → Option ℕ → Option (Bool × Bus)
removed b none = some (false, b)
removed b (some p) = none

unfoldable pub remove_module : String → Bus → Option (Bool × Bus)
remove_module name b = removed b (find name b.modules)

-- vector::back and pop_back
unfoldable pub back : List ℕ → Option ℕ
back [] = none
back (p ∷ []) = some p
back (p ∷ q ∷ qs) = back (q ∷ qs)

unfoldable pub pop_back : List ℕ → List ℕ
pop_back [] = []
pop_back (p ∷ []) = []
pop_back (p ∷ q ∷ qs) = p ∷ pop_back (q ∷ qs)

-- The loop of stop_all_modules: the modules whose on_exit is called, in order.
unfoldable pub stop_loop : ℕ → List ℕ → List ℕ
unfolding back pop_back
stop_loop zero stack = []
stop_loop (suc fuel) stack =
    let rest = stop_loop fuel (pop_back stack) in
    elim (back stack) [ none ↦ [] | some p ↦ p ∷ rest ]

-- stop_all_modules
unfoldable pub stop_all_modules : Bus → List ℕ × Bus
unfolding stop_loop
stop_all_modules b = (stop_loop (length b.stack) b.stack, empty_bus)

-- How a module's on_receive ends.
pub data Received : Type 0 where
  returned : Received
  refused : String → Received
  format_error : String → String → Received
  threw : String → Received

-- expected<void, std::string>
pub data Sent : Type 0 where
  sent : Sent
  unsent : String → Sent

abbrev pub no_such_module : String → String
no_such_module destination = str_append "no such module: " destination

-- `send` after on_receive: an exception of the receiver counts as sent.
abbrev pub conclude_send : Received → Sent
conclude_send returned = sent
conclude_send (refused e) = unsent e
conclude_send (format_error what content) = sent
conclude_send (threw what) = sent

-- send_sync's expected<Message, std::string>; `broken` is the exception of a promise that was
-- destroyed unset, which the receiver leaves when it neither responds nor fails.
pub data Reply : Type 0 where
  reply : Message → Reply
  no_reply : String → Reply
  broken : Reply

module _ {W : Type 0} (receive : ℕ → Message → W → Received × List Message × W) where
  abbrev pub deliver : Message → W → Option ℕ → Sent × W
  deliver m w none = (unsent (no_such_module m.router.destination), w)
  deliver m w (some p) = let (r, answers, w1) = receive p m w in (conclude_send r, w1)

  -- send
  unfoldable pub send : Bus → Message → W → Sent × W
  send b m w =
      if str_eq m.router.destination ""
      then (unsent "need destination", w)
      else deliver m w (find m.router.destination b.modules)

  -- The first value that the promise is given.
  abbrev pub promised : (String → String → String) → Received → List Message → Reply
  promised dump r (a ∷ answers) = reply a
  promised dump returned [] = broken
  promised dump (refused e) [] = no_reply e
  promised dump (format_error what content) [] = no_reply (dump what content)
  promised dump (threw what) [] = no_reply what

  abbrev pub await : (String → String → String) → Bool → Message → W → Option ℕ → Reply × W
  await dump in_time m w none = (no_reply (no_such_module m.router.destination), w)
  await dump in_time m w (some p) =
      let (r, answers, w1) = receive p m w in
      (if in_time then promised dump r answers else no_reply "timeout", w1)

  -- send_sync; `in_time` says whether the receiver is done before the timeout.
  unfoldable pub send_sync : (String → String → String) → Bool → Bus → Message → W → Reply × W
  send_sync dump in_time b m w =
      if str_eq m.router.destination ""
      then (no_reply "need destination", w)
      else await dump in_time m w (find m.router.destination b.modules)

module _ (name_of : ℕ → String) where
  -- add_module
  unfoldable pub add_module : ℕ → Bus → Bus
  add_module p b = record { modules = insert (name_of p) p b.modules; stack = b.stack ++ p ∷ [] }

pub data BusEvent : Type 0 where
  adds : ℕ → BusEvent
  removes : String → BusEvent

module _ (name_of : ℕ → String) where
  abbrev pub bus_of : Option (Bool × Bus) → Option Bus
  bus_of none = none
  bus_of (some (found, b)) = some b

  unfoldable pub on_bus_event : BusEvent → Bus → Option Bus
  unfolding add_module remove_module
  on_bus_event (adds p) b = some (add_module name_of p b)
  on_bus_event (removes name) b = bus_of (remove_module name b)

  -- `none` from an undefined step on.
  unfoldable pub bus_after : List BusEvent → Option Bus → Option Bus
  unfolding on_bus_event
  bus_after es none = none
  bus_after [] (some b) = some b
  bus_after (e ∷ es) (some b) = bus_after es (on_bus_event e b)
