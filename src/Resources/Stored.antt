-- ===== src/Resources/Stored.antt =====
-- What is read of a stored template: add_ability_cr and get_ability_cr of
-- src/resourcemgr/resource_mgr.cpp.
use ability_framework.Prelude.{
  ℕ, String, Bool, true, false, Option, none, some, [], ◌∷◌, ◌≡◌, ◌≢◌, refl, sym, ap, ◌∙◌, ◌==◌,
  arith, Map, find, insert, find-insert, uuid_key, if◌then◌else◌, is_some, Option-cases, inl, inr,
  same_refl, name_key,
}
use ability_framework.Resources.Tables.{
  AbilitySpec, AbilityCr, Template, Resources, get_ability_cr, cr_of_row,
}
use ability_framework.Resources.Templates.{
  value_or, template_of, is_named, exists_by_name, update_template, add_template, add_ability_cr,
}

module _ (spec : AbilitySpec) (name : String) where
  -- The row that is found by its name is in the table.
  exists_by_name-find :
      (id : ℕ) (ts : Map ℕ Template)
      → exists_by_name spec name ts ≡ some id
      → is_some (find id ts) ≡ true
  unfolding exists_by_name find
  exists_by_name-find id [] e = ground arith
  exists_by_name-find id ((j, t) ∷ ts) e = ground (arith, e, exists_by_name-find id ts)

  -- A row of that name, written over the one that was found, or where none was, is the one found.
  insert_found :
      (id : ℕ) (t : Template) (ts : Map ℕ Template)
      → is_named spec name t ≡ true
      → exists_by_name spec name ts ≡ some id
      → exists_by_name spec name (insert id t ts) ≡ some id
  unfolding exists_by_name insert
  insert_found id t [] n e = ground (arith, n)
  insert_found id t ((j, u) ∷ ts) n e = ground (arith, n, e, insert_found id t ts n)

  insert_absent :
      (id : ℕ) (t : Template) (ts : Map ℕ Template)
      → is_named spec name t ≡ true
      → exists_by_name spec name ts ≡ none
      → exists_by_name spec name (insert id t ts) ≡ some id
  unfolding exists_by_name insert
  insert_absent id t [] n e = ground (arith, n)
  insert_absent id t ((j, u) ∷ ts) n e = ground (arith, n, e, insert_absent id t ts n)

template_of-IsNamed :
    (cr : AbilityCr) (spec : AbilitySpec) (b : Bool)
    → cr.spec ≡ some spec
    → is_named spec cr.name (template_of cr spec b) ≡ true
template_of-IsNamed cr spec b e =
    rw (e, same_refl spec.ability_name, same_refl spec.version, same_refl cr.name) refl

-- What is written is a template of the document, at the answered id.
update_template_found :
    (id : ℕ) (cr : AbilityCr) (spec : AbilitySpec) (ts : Map ℕ Template)
    → is_some (find id ts) ≡ true
    → (b : Bool) × (update_template id cr spec ts ≡ insert id (template_of cr spec b) ts)
unfolding update_template
update_template_found id cr spec ts e = elim (Option-cases (find id ts)) [
  | inl f ↦ ground (arith, e, f)
  | inr (t, f) ↦ (t.auto_started, ground (arith, f))
]

abbrev IsWritten : AbilityCr → AbilitySpec → Map ℕ Template → ℕ × Map ℕ Template → Type 0
IsWritten cr spec ts (id, ts') =
    ((b : Bool) × (ts' ≡ insert id (template_of cr spec b) ts))
    × (exists_by_name spec cr.name ts' ≡ some id)

add_template-IsWritten :
    (fresh : ℕ) (cr : AbilityCr) (spec : AbilitySpec) (found : Option ℕ) (ts : Map ℕ Template)
    → cr.spec ≡ some spec
    → exists_by_name spec cr.name ts ≡ found
    → IsWritten cr spec ts (add_template fresh cr spec found ts)
unfolding add_template
add_template-IsWritten fresh cr spec none ts s e = (
  (false, refl),
  insert_absent spec cr.name fresh (template_of cr spec false) ts
      (template_of-IsNamed cr spec false s) e,
)
add_template-IsWritten fresh cr spec (some id) ts s e =
    let (b, w) = update_template_found id cr spec ts (exists_by_name-find spec cr.name id ts e) in
    (
      (b, w),
      ap (exists_by_name spec cr.name) w
          ∙ insert_found spec cr.name id (template_of cr spec b) ts
              (template_of-IsNamed cr spec b s) e,
    )

-- A document as it is read back: with the id of its row, and with the defaults of its flags.
abbrev pub stored : ℕ → AbilityCr → AbilitySpec → AbilityCr
stored id cr spec = record cr {
  id = id;
  spec = some (record spec {
    auto_start = some (value_or spec.auto_start false);
    keep_alive = some (value_or spec.keep_alive false);
    singleton = some (value_or spec.singleton true);
  });
}

cr_of_row-template_of :
    (id : ℕ) (cr : AbilityCr) (spec : AbilitySpec) (b : Bool)
    → cr.spec ≡ some spec
    → cr_of_row id (template_of cr spec b) ≡ stored id cr spec
unfolding cr_of_row
cr_of_row-template_of id cr spec b s = rw s refl

read_row : ℕ → Option Template → Option AbilityCr
read_row id none = none
read_row id (some t) = some (cr_of_row id t)

get_ability_cr-read :
    (id : ℕ) (r : Resources) → get_ability_cr id r ≡ read_row id (find id r.templates)
unfolding get_ability_cr read_row
get_ability_cr-read id r = ground arith

module _ (id : ℕ) (cr : AbilityCr) (spec : AbilitySpec) (b : Bool) (r r' : Resources)
    (w : r'.templates ≡ insert id (template_of cr spec b) r.templates) where
  find_after :
      (j : ℕ)
      → find j r'.templates ≡ (if id == j then some (template_of cr spec b) else find j r.templates)
  find_after j = ap (find j) w ∙ find-insert id j (template_of cr spec b) r.templates

  find_own : find id r'.templates ≡ some (template_of cr spec b)
  find_own = ground (arith, find_after id)

  find_other : (j : ℕ) → j ≢ id → find j r'.templates ≡ find j r.templates
  find_other j n = ground (arith, n, find_after j)

  read_stored : cr.spec ≡ some spec → get_ability_cr id r' ≡ some (stored id cr spec)
  unfolding read_row
  read_stored s =
      get_ability_cr-read id r'
      ∙ ap (read_row id) find_own
      ∙ ap some (cr_of_row-template_of id cr spec b s)

  read_other : (j : ℕ) → j ≢ id → get_ability_cr j r' ≡ get_ability_cr j r
  read_other j n =
      get_ability_cr-read j r' ∙ ap (read_row j) (find_other j n) ∙ sym (get_ability_cr-read j r)

add_stored :
    (fresh : ℕ) (cr : AbilityCr) (spec : AbilitySpec) (found : Option ℕ) (r : Resources)
    → cr.spec ≡ some spec
    → exists_by_name spec cr.name r.templates ≡ found
    → let (id, ts) = add_template fresh cr spec found r.templates in
      add_ability_cr fresh cr r ≡ some (id, record r { templates = ts })
unfolding add_ability_cr
add_stored fresh cr spec found r s e = rw (s, e) refl

-- Storing a document with a specification succeeds. Afterwards the document is read back under the
-- answered id, with that id and with the defaults of its flags; every other id reads as before; and
-- storing the document again answers the same id, whatever uuid is drawn.
pub get_ability_cr-add_ability_cr :
    (fresh : ℕ) (cr : AbilityCr) (spec : AbilitySpec) (r : Resources)
    → cr.spec ≡ some spec
    → (id : ℕ) × (r' : Resources) × (add_ability_cr fresh cr r ≡ some (id, r'))
      × (get_ability_cr id r' ≡ some (stored id cr spec))
      × ((j : ℕ) → j ≢ id → get_ability_cr j r' ≡ get_ability_cr j r)
      × ((again : ℕ) → (r'' : Resources) × (add_ability_cr again cr r' ≡ some (id, r'')))
unfolding add_template
get_ability_cr-add_ability_cr fresh cr spec r s =
    let found = exists_by_name spec cr.name r.templates in
    let res = add_template fresh cr spec found r.templates in
    let r' : Resources = record r { templates = res.1 } in
    let ((b, w), named) = add_template-IsWritten fresh cr spec found r.templates s refl in
    (
      res.0,
      r',
      add_stored fresh cr spec found r s refl,
      read_stored res.0 cr spec b r r' w s,
      read_other res.0 cr spec b r r' w,
      (λ again. (
        record r { templates = update_template res.0 cr spec res.1 },
        add_stored again cr spec (some res.0) r' s named,
      )),
    )
