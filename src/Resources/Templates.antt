-- ===== src/Resources/Templates.antt =====
-- How templates of abilities are stored: add_ability_cr of src/resourcemgr/resource_mgr.cpp. The
-- columns for the name and the version of the ability hold what the stored document says. The times
-- of a row, its labels and its annotations are left out.
use text.Mathlib.Text.{◌==◌ as str_eq}
use ability_framework.Prelude.{
  ℕ, String, Bool, true, false, Option, none, some, [], ◌∷◌, ◌&&◌, if◌then◌else◌, Map, find, insert,
  uuid_key,
}
use ability_framework.Resources.Tables.{AbilitySpec, AbilityCr, Template, Resources}

abbrev pub value_or : Option Bool → Bool → Bool
value_or none b = b
value_or (some a) b = a

-- The columns that are written, with the flag auto_started.
abbrev pub template_of : AbilityCr → AbilitySpec → Bool → Template
template_of cr spec auto_started = record {
  cr_detail = cr;
  instance_name = cr.name;
  autostart = value_or spec.auto_start false;
  auto_started = auto_started;
  keep_alive = value_or spec.keep_alive false;
  singleton = value_or spec.singleton true;
}

-- `WHERE ability_name = ? AND ability_version = ? AND instance_name = ?`
abbrev pub has_name_of : Option AbilitySpec → AbilitySpec → Bool
has_name_of none spec = false
has_name_of (some s) spec = str_eq s.ability_name spec.ability_name && str_eq s.version spec.version

abbrev pub is_named : AbilitySpec → String → Template → Bool
is_named spec name t = has_name_of t.cr_detail.spec spec && str_eq t.instance_name name

-- db_exists_ability_cr_by_name
unfoldable pub exists_by_name : AbilitySpec → String → Map ℕ Template → Option ℕ
exists_by_name spec name [] = none
exists_by_name spec name ((id, t) ∷ ts) =
    let rest = exists_by_name spec name ts in if is_named spec name t then some id else rest

-- The UPDATE keeps the flag auto_started of the row.
unfoldable pub update_template : ℕ → AbilityCr → AbilitySpec → Map ℕ Template → Map ℕ Template
update_template id cr spec ts = elim (find id ts) [
  | none ↦ ts
  | some t ↦ insert id (template_of cr spec t.auto_started) ts
]

-- From the row that was found, and the uuid to use when there is none.
unfoldable pub add_template :
    ℕ → AbilityCr → AbilitySpec → Option ℕ → Map ℕ Template → ℕ × Map ℕ Template
add_template fresh cr spec none ts = (fresh, insert fresh (template_of cr spec false) ts)
add_template fresh cr spec (some id) ts = (id, update_template id cr spec ts)

-- `none` is the use of a null specification.
unfoldable pub add_ability_cr : ℕ → AbilityCr → Resources → Option (ℕ × Resources)
add_ability_cr fresh cr r = elim (cr.spec) [
  | none ↦ none
  | some spec ↦
      let (id, ts) =
        add_template fresh cr spec (exists_by_name spec cr.name r.templates) r.templates in
      some (id, record r { templates = ts })
]
