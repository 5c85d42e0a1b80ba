-- ===== src/Controllers/Starts.antt =====
-- How many processes of a controller a pass starts: src/controllermgr/controller_mgr.cpp.
use ability_framework.Prelude.{
  ◌+◌, leb, none, find, name_key, refl, ℕ, zero, suc, String, Bool, true, Option, some, List, [],
  ◌∷◌, ◌++◌, ◌≡◌, ap, ◌∙◌, arith, if◌then◌else◌, All, Map, length, uuid_key,
}
use ability_framework.Lifecycle.Manager.{Entry, Heartbeats, get_running_abilities}
use ability_framework.Subprocesses.{ProcessRequest, controller}
use ability_framework.Controllers.{
  ControllerEntry, is_process_running, AbilityClassInfo, controller_id_of,
  check_and_start_controllers, check_ability, check_abilities, fetch_and_check_abilities,
}

abbrev pub copies : ℕ → ProcessRequest → List ProcessRequest
copies zero q = []
copies (suc n) q = q ∷ copies n q

module _ (path_of : AbilityClassInfo → String → String) (file_exists : String → Bool)
    (nested : String) (class_of : ℕ → Option AbilityClassInfo) (c : AbilityClassInfo)
    (name : String) where
  -- An entry of the lifecycle manager for an instance of the ability.
  abbrev pub IsInstance : ℕ × Entry → Type 0
  IsInstance e = (class_of e.1.heartbeat.id ≡ some c) × (e.1.heartbeat.ability_name ≡ name)

  -- The starts of a pass over some instances, by what was last heard of the controller.
  abbrev pub starts : ℕ → Option ControllerEntry → ℕ → List ProcessRequest
  starts t none n = copies n (controller (path_of c name) (controller_id_of c name) nested)
  starts t (some e) n =
      if leb (e.last_update + 30) t
      then copies n (controller (path_of c name) (controller_id_of c name) nested)
      else []

  check_and_start_controllers-starts :
      (t : ℕ) (m : Map String ControllerEntry) (o : Option ControllerEntry)
      → find (controller_id_of c name) m ≡ o
      → file_exists (path_of c name) ≡ true
      → check_and_start_controllers path_of file_exists nested class_of t c name m ≡ starts t o 1
  unfolding check_and_start_controllers is_process_running
  check_and_start_controllers-starts t m none e f = rw (e, f) refl
  check_and_start_controllers-starts t m (some r) e f = ground (arith, e, f)

  starts-suc :
      (t n : ℕ) (o : Option ControllerEntry) → starts t o 1 ++ starts t o n ≡ starts t o (suc n)
  starts-suc t n none = refl
  starts-suc t n (some r) = ground arith

  starts-zero : (t : ℕ) (o : Option ControllerEntry) → [] ≡ starts t o 0
  starts-zero t none = refl
  starts-zero t (some r) = ground arith

  -- While every ability on record is an instance of one class whose controller has a file, a pass
  -- within one second sends one start for each instance, all of the same controller, if the controller
  -- has never sent a heartbeat or its last is thirty seconds old or older, and otherwise none.
  pub fetch_and_check_abilities-copies :
      (t : ℕ) (hs : Heartbeats) (m : Map String ControllerEntry)
      → file_exists (path_of c name) ≡ true
      → All IsInstance hs
      → fetch_and_check_abilities path_of file_exists nested class_of (λ id. t) hs m
        ≡ starts t (find (controller_id_of c name) m) (length hs)
  unfolding fetch_and_check_abilities check_abilities check_ability get_running_abilities
  fetch_and_check_abilities-copies t [] m f h = starts-zero t (find (controller_id_of c name) m)
  fetch_and_check_abilities-copies t ((id, e) ∷ hs) m f ((class, named), rest) =
      let others : List ProcessRequest =
        check_abilities path_of file_exists nested class_of (λ i. t) (get_running_abilities hs) m in
      let last = find (controller_id_of c name) m in
      ap (λ o. check_ability path_of file_exists nested class_of t e.heartbeat o m ++ others) class
      ∙ ap (λ n. check_and_start_controllers path_of file_exists nested class_of t c n m ++ others)
          named
      ∙ ap (λ x. x ++ others) (check_and_start_controllers-starts t m last refl f)
      ∙ ap (λ x. starts t last 1 ++ x) (fetch_and_check_abilities-copies t hs m f rest)
      ∙ starts-suc t (length hs) last
