-- ===== src/Inertia/Props.antt =====
-- inertia/inertia.go: the props of a page, and which of them a response has. The order in which
-- `range` visits the props is an argument. A deferred prop stands for what its callback returns; a
-- result also lists the props whose callbacks ran, in order.
pub mod Loads
use cartridge.Prelude.{
  ℕ, String, Bool, true, false, Option, none, some, List, [], ◌∷◌, ◌++◌, ◌==◌, ◌||◌, ◌&&◌, not, map,
  string_comparable, if◌then◌else◌, contains, split_at, trim_space,
}
use cartridge.GoMap.{lookup, insert}

-- A value, or a DeferredProp: what its callback returns, and its group.
pub data Prop {ℓ} (V : Type ℓ) : Type ℓ where
  plain : V → Prop V
  deferred : V → String → Prop V

unfoldable pub defer {ℓ} : {V : Type ℓ} → V → Prop V
defer v = deferred v ""

unfoldable pub defer_group {ℓ} : {V : Type ℓ} → V → String → Prop V
defer_group v group = deferred v group

-- The keys that X-Inertia-Partial-Data names.
unfoldable pub requested_keys : String → List String
unfolding split_at trim_space
requested_keys partial_data = map trim_space (split_at b',' partial_data)

-- The props of a response, and the keys whose callbacks ran.
pub record Resolved {ℓ} (V : Type ℓ) : Type ℓ where
  pub props : List (String × V)
  pub ran : List String

pub record Loaded {ℓ} (V : Type ℓ) : Type ℓ where
  pub props : List (String × V)
  pub deferred_keys : List (String × List String)

abbrev pub is_partial : String → String → String → Bool
is_partial partial_data partial_component name =
    not (partial_data == "") && (partial_component == "" || partial_component == name)

abbrev pub group_or_default : String → String
group_or_default group = if group == "" then "default" else group

-- A missing group is an empty list.
abbrev pub keys_in : String → List (String × List String) → List String
keys_in group groups = elim (lookup group groups) [ none ↦ [] | some ks ↦ ks ]

module _ {ℓ} {V : Type ℓ} where
  abbrev add_resolved : String → Option (Prop V) → Resolved V → Resolved V
  add_resolved key none out = out
  add_resolved key (some (plain v)) out = record out { props = insert key v out.props }
  add_resolved key (some (deferred v group)) out = record out {
    props = insert key v out.props;
    ran = out.ran ++ key ∷ [];
  }

  -- The loops of resolveProps over the keys that `wanted` holds of.
  unfoldable pub resolve_wanted :
      (String → Bool) → List String → List (String × Prop V) → Resolved V → Resolved V
  resolve_wanted wanted [] props out = out
  resolve_wanted wanted (key ∷ visit) props out =
      resolve_wanted wanted visit props
        (if wanted key then add_resolved key (lookup key props) out else out)

  unfoldable pub resolve_props :
      List String → List (String × Prop V) → String → String → String → Resolved V
  unfolding resolve_wanted requested_keys
  resolve_props visit props partial_data partial_component name =
      if is_partial partial_data partial_component name
      then resolve_wanted (contains (requested_keys partial_data)) visit props
          (record { props = []; ran = [] })
      else resolve_wanted (λ key. true) visit props (record { props = []; ran = [] })

  abbrev add_loaded : String → Option (Prop V) → Loaded V → Loaded V
  add_loaded key none out = out
  add_loaded key (some (plain v)) out = record out { props = insert key v out.props }
  add_loaded key (some (deferred v group)) out =
      let g = group_or_default group in
      record out {
        deferred_keys = insert g (keys_in g out.deferred_keys ++ key ∷ []) out.deferred_keys;
      }

  unfoldable pub load_visited : List String → List (String × Prop V) → Loaded V → Loaded V
  load_visited [] props out = out
  load_visited (key ∷ visit) props out =
      load_visited visit props (add_loaded key (lookup key props) out)

  unfoldable pub resolve_props_for_initial_load : List String → List (String × Prop V) → Loaded V
  unfolding load_visited
  resolve_props_for_initial_load visit props =
      load_visited visit props (record { props = []; deferred_keys = [] })
