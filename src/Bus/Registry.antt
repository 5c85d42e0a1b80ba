-- ===== src/Bus/Registry.antt =====
-- Registration and shutdown of modules: src/messagebus/messagebus.cpp.
use mathlib.Core.Option.{some-injective}
use text.Mathlib.Text.{◌==◌ as str_eq}
use text.Mathlib.TextEquality.{eq_iff}
use ability_framework.Prelude.{
  ℕ, zero, suc, String, Bool, true, false, Option, none, some, List, [], ◌∷◌, ◌++◌, ◌==◌, ◌||◌, ◌≡◌,
  refl, sym, ap, subst, ◌∙◌, arith, if◌then◌else◌, length, All, Map, find, insert, name_key,
}
use ability_framework.Bus.Modules.{
  Bus, empty_bus, removed, bus_of, remove_module, back, pop_back, stop_loop, stop_all_modules,
  add_module, BusEvent, adds, removes, on_bus_event, bus_after,
}

abbrev pub has : ℕ → List ℕ → Bool
has p [] = false
has p (q ∷ qs) = q == p || has p qs

abbrev pub backwards : List ℕ → List ℕ
backwards [] = []
backwards (p ∷ ps) = backwards ps ++ p ∷ []

has-append : (p : ℕ) (ps qs : List ℕ) → has p (ps ++ qs) ≡ (has p ps || has p qs)
has-append p [] qs = refl
has-append p (q ∷ ps) qs = ground (arith, has-append p ps qs)

has-backwards : (p : ℕ) (ps : List ℕ) → has p (backwards ps) ≡ has p ps
has-backwards p [] = refl
has-backwards p (q ∷ ps) = has-append p (backwards ps) (q ∷ []) ∙ ground (arith, has-backwards p ps)

back-append :
    (ps : List ℕ) (p : ℕ) → (back (ps ++ p ∷ []) ≡ some p) × (pop_back (ps ++ p ∷ []) ≡ ps)
unfolding back pop_back
back-append [] p = (refl, refl)
back-append (q ∷ []) p = (refl, refl)
back-append (q ∷ r ∷ ps) p = let (b, k) = back-append (r ∷ ps) p in (b, ap (λ x. q ∷ x) k)

backwards-append : (ps : List ℕ) (p : ℕ) → backwards (ps ++ p ∷ []) ≡ p ∷ backwards ps
backwards-append [] p = refl
backwards-append (q ∷ ps) p = ap (λ x. x ++ q ∷ []) (backwards-append ps p)

length-snoc : (ps : List ℕ) (p : ℕ) → length (ps ++ p ∷ []) ≡ suc (length ps)
length-snoc [] p = refl
length-snoc (q ∷ ps) p = omega (arith, length-snoc ps p)

split_last : (q : ℕ) (qs : List ℕ) → (ps : List ℕ) × (p : ℕ) × (q ∷ qs ≡ ps ++ p ∷ [])
split_last q [] = ([], q, refl)
split_last q (r ∷ qs) = let (ps, p, e) = split_last r qs in (q ∷ ps, p, ap (λ x. q ∷ x) e)

stop_loop-snoc :
    (n : ℕ) (ps : List ℕ) (p : ℕ) → stop_loop (suc n) (ps ++ p ∷ []) ≡ p ∷ stop_loop n ps
unfolding stop_loop
stop_loop-snoc n ps p =
    let (b, k) = back-append ps p in
    ap (λ o. elim o [ none ↦ [] | some q ↦ q ∷ stop_loop n (pop_back (ps ++ p ∷ [])) ]) b
    ∙ ap (λ x. p ∷ stop_loop n x) k

stop_loop-backwards : (n : ℕ) (ps : List ℕ) → length ps ≡ n → stop_loop n ps ≡ backwards ps
unfolding stop_loop
stop_loop-backwards zero [] h = refl
stop_loop-backwards zero (p ∷ ps) h = absurd (omega arith)
stop_loop-backwards (suc n) [] h = absurd (omega arith)
stop_loop-backwards (suc n) (q ∷ qs) h =
    let (ps, p, e) = split_last q qs in
    ap (stop_loop (suc n)) e
    ∙ stop_loop-snoc n ps p
    ∙ ap (λ x. p ∷ x) (stop_loop-backwards n ps (omega (arith, ap length e, length-snoc ps p)))
    ∙ sym (backwards-append ps p)
    ∙ ap backwards (sym e)

-- At shutdown on_exit is called on the modules of the stack, last added first, and nothing is left.
stop_all_modules-backwards : (b : Bus) → stop_all_modules b ≡ (backwards b.stack, empty_bus)
unfolding stop_all_modules
stop_all_modules-backwards b =
    ap (λ x. (x, empty_bus)) (stop_loop-backwards (length b.stack) b.stack refl)

insert-entries :
    (P : String × ℕ → Type 0) (name : String) (p : ℕ) (m : Map String ℕ)
    → P (name, p)
    → All P m
    → All P (insert name p m)
unfolding insert
insert-entries P name p [] k h = (k, tt)
insert-entries P name p ((n, q) ∷ m) k h = by_same (str_eq n name) (insert-entries P name p m k h.1)
  where
    by_same :
        (c : Bool)
        → All P (insert name p m)
        → All P (if c then (name, p) ∷ m else (n, q) ∷ insert name p m)
    by_same true r = (k, h.1)
    by_same false r = (h.0, r)

find-entry :
    (P : String × ℕ → Type 0) (name : String) (p : ℕ) (m : Map String ℕ)
    → All P m
    → find name m ≡ some p
    → P (name, p)
unfolding find
find-entry P name p [] h f = ground (arith, f)
find-entry P name p ((n, q) ∷ m) h f = by_same (str_eq n name) refl f (find-entry P name p m h.1)
  where
    by_same :
        (c : Bool)
        → str_eq n name ≡ c
        → (if c then some q else find name m) ≡ some p
        → (find name m ≡ some p → P (name, p))
        → P (name, p)
    by_same true e g r =
        subst P (ap (λ x. (x, p)) ((eq_iff n name).0 e))
          (subst (λ x. P (n, x)) (some-injective _ _ g) h.0)
    by_same false e g r = r g

All-map :
    (P Q : String × ℕ → Type 0) (m : Map String ℕ)
    → ((e : String × ℕ) → P e → Q e)
    → All P m
    → All Q m
All-map P Q [] f h = tt
All-map P Q (e ∷ m) f h = (f e h.0, All-map P Q m f h.1)

module _ (name_of : ℕ → String) where
  abbrev IsBackedBy : List ℕ → String × ℕ → Type 0
  IsBackedBy stack e = (name_of e.1 ≡ e.0) × (has e.1 stack ≡ true)

  -- Every entry of the map is under its module's name, and its module is on the stack.
  abbrev pub IsBacked : Bus → Type 0
  IsBacked b = All (IsBackedBy b.stack) b.modules

  add_module-IsBacked : (p : ℕ) (b : Bus) → IsBacked b → IsBacked (add_module name_of p b)
  unfolding add_module
  add_module-IsBacked p b h =
      insert-entries (IsBackedBy (b.stack ++ p ∷ [])) (name_of p) p b.modules
        (refl, has-append p b.stack (p ∷ []) ∙ ground arith)
        (All-map (IsBackedBy b.stack) (IsBackedBy (b.stack ++ p ∷ [])) b.modules
          (λ e k. (k.0, has-append e.1 b.stack (p ∷ []) ∙ ground (arith, k.1))) h)

  bus_after-IsBacked :
      (events : List BusEvent) (b b' : Bus)
      → IsBacked b
      → bus_after name_of events (some b) ≡ some b'
      → IsBacked b'
  unfolding bus_after on_bus_event remove_module
  bus_after-IsBacked [] b b' h e = subst IsBacked (some-injective _ _ e) h
  bus_after-IsBacked (adds p ∷ es) b b' h e =
      bus_after-IsBacked es (add_module name_of p b) b' (add_module-IsBacked p b h) e
  bus_after-IsBacked (removes name ∷ es) b b' h e =
      by_found (find name b.modules) (bus_after-IsBacked es b b' h) e
    where
      by_found :
          (o : Option ℕ)
          → (bus_after name_of es (some b) ≡ some b' → IsBacked b')
          → bus_after name_of es (bus_of name_of (removed b o)) ≡ some b'
          → IsBacked b'
      by_found none backed f = backed f
      by_found (some p) backed f = ends es f
        where
          ends : (es : List BusEvent) → bus_after name_of es none ≡ some b' → IsBacked b'
          ends [] f = cc
          ends (e ∷ es) f = cc

  -- After any registrations, and requests to remove modules that are not there, on an empty bus (a
  -- request to remove one that is there is undefined), a module that is found under a name has that
  -- name, and at shutdown its on_exit is called.
  pub bus_after-stops :
      (events : List BusEvent) (b : Bus) (name : String) (p : ℕ)
      → bus_after name_of events (some empty_bus) ≡ some b
      → find name b.modules ≡ some p
      → (name_of p ≡ name) × (has p (stop_all_modules b).0 ≡ true)
  bus_after-stops events b name p e f =
      let (named, there) =
        find-entry (IsBackedBy b.stack) name p b.modules
          (bus_after-IsBacked events empty_bus b tt e) f in
      (
        named,
        ap (λ (r : List ℕ × Bus). has p r.0) (stop_all_modules-backwards b)
            ∙ has-backwards p b.stack
            ∙ there,
      )
