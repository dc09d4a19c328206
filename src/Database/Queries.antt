-- ===== src/Database/Queries.antt =====
-- SQL that several statements of internal/data share: subqueries, ORDER BY, DELETE.
use pbuf_registry.Prelude.{
  ℕ, String, Bool, false, not, ◌&&◌, Option, none, some, List, [], ◌∷◌, ◌==◌, nat_eq, string_eq,
  ltb, if◌then◌else◌, first, select, any, length,
}
use mathlib.Core.Option
use pbuf_registry.Database.Tables.{Db, ModuleRow, TagRow}

-- SELECT id, name FROM modules WHERE name = $1
abbrev pub module_by_name : String → Db → Option ModuleRow
module_by_name name d = first (λ m. m.name == name) d.modules

-- (SELECT id FROM modules WHERE name = $1), which is NULL for an unknown name
abbrev pub module_id_by_name : String → Db → Option ℕ
module_id_by_name name d = Option.map (λ (m : ModuleRow). m.id) (module_by_name name d)

-- A comparison with NULL is not true.
abbrev pub is_id : Option ℕ → ℕ → Bool
is_id none n = false
is_id (some i) n = n == i

-- SELECT id FROM tags WHERE module_id = m AND tag = $2
abbrev pub tag_id_in : Option ℕ → String → Db → Option ℕ
tag_id_in m tag d =
    Option.map (λ (t : TagRow). t.id) (first (λ t. is_id m t.module_id && t.tag == tag) d.tags)

-- ... with m = (SELECT id FROM modules WHERE name = $1)
abbrev pub tag_id_by_name : String → String → Db → Option ℕ
tag_id_by_name name tag d = tag_id_in (module_id_by_name name d) tag d

module _ {ℓ} {A : Type ℓ} where
  pub insert_desc : (A → ℕ) → A → List A → List A
  insert_desc key x [] = x ∷ []
  insert_desc key x (y ∷ ys) =
      let rest = insert_desc key x ys in if ltb (key x) (key y) then y ∷ rest else x ∷ y ∷ ys

  -- ORDER BY key DESC; rows with equal keys stay in the order of the table
  unfoldable pub order_desc : (A → ℕ) → List A → List A
  unfolding insert_desc
  order_desc key [] = []
  order_desc key (x ∷ xs) = insert_desc key x (order_desc key xs)

  -- DELETE FROM xs WHERE p: the rows that are left, and RowsAffected.
  abbrev pub without : (A → Bool) → List A → List A
  without p = select (λ x. not (p x))

  abbrev pub affected : (A → Bool) → List A → ℕ
  affected p xs = length (select p xs)

-- t.id IN (SELECT id FROM tags WHERE module_id = m)
abbrev pub is_tag_of : Option ℕ → List TagRow → ℕ → Bool
is_tag_of m tags i = any (λ t. is_id m t.module_id && t.id == i) tags

-- DELETE FROM tags WHERE p, with drift_events' ON DELETE CASCADE
abbrev pub delete_tags : (TagRow → Bool) → Db → Db
delete_tags p d = record d {
  tags = without p d.tags;
  drift_events = without (λ e. any (λ t. p t && t.id == e.tag_id) d.tags) d.drift_events;
}
