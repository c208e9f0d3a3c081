-- ===== src/Catalog/Names/Inverse.antt =====
-- The two tables of libs/names/names.cpp agree.
use eve_industry_planner.Prelude.{
  ℕ, ◌≡◌, subst, refl, none, some, List, [], ◌∷◌, if◌then◌else◌, lookup, lookup-insert, lookup_by,
  insert_by, ok, or_throw-eq-ok, out_of_range, arith, Option-cases, Bool-cases, inl, inr,
}
use eve_industry_planner.Text.{Text, text_eq, text_eq_iff, text_eq_refl}
use eve_industry_planner.Catalog.Names.{Names, get_name, get_type_id, set_name, ensure_name}

lookup_by-insert_by :
    (k j : Text) (v : ℕ) (m : List (Text × ℕ))
    → lookup_by text_eq j (insert_by text_eq k v m)
      ≡ (if text_eq k j then some v else lookup_by text_eq j m)
unfolding lookup_by insert_by
lookup_by-insert_by k j v [] = refl
lookup_by-insert_by k j v ((i, w) ∷ m) = ground (
  arith,
  text_eq_iff i k,
  text_eq_iff i j,
  text_eq_iff k j,
  text_eq_refl i,
  lookup_by-insert_by k j v m,
)

-- The id that a name has bears that name.
pub record IsInverse (n : Names) : Type 0 where
  pub named :
      (name : Text) (id : ℕ)
      → lookup_by text_eq name n.type_ids ≡ some id
      → lookup id n.names ≡ some name

set_name-IsInverse :
    (n : Names) (id : ℕ) (name : Text)
    → lookup id n.names ≡ none
    → IsInverse n
    → IsInverse (set_name n id name)
unfolding set_name
set_name-IsInverse n id name fresh v = record {
  named = λ other i e. elim (Bool-cases (text_eq name other)) [
    | inl same ↦
        let found : i ≡ id = ground (arith, lookup_by-insert_by name other id n.type_ids) in
        ground (arith, text_eq_iff name other same, lookup-insert id i name n.names)
    | inr new ↦
        let old : lookup_by text_eq other n.type_ids ≡ some i =
          ground (arith, lookup_by-insert_by name other id n.type_ids) in
        ground (arith, v.named other i old, lookup-insert id i name n.names)
  ];
}

-- `ensureName` keeps the tables in agreement, whatever the id and the name: the id that a name has
-- bears that name.
pub ensure_name-IsInverse :
    (n : Names) (id : ℕ) (name : Text) → IsInverse n → IsInverse (ensure_name n id name)
unfolding ensure_name
ensure_name-IsInverse n id name v = elim (Option-cases (lookup id n.names)) [
  | inl fresh ↦ subst IsInverse (ground arith) (set_name-IsInverse n id name fresh v)
  | inr (old, e) ↦ subst IsInverse (ground arith) v
]

-- In tables that agree, the id that `getTypeId` finds has the name that was looked up, and `getName`
-- finds it.
pub get_name-get_type_id :
    (n : Names) (name : Text) (id : ℕ)
    → IsInverse n
    → get_type_id n name ≡ ok id
    → get_name n id ≡ ok name
unfolding get_name get_type_id
get_name-get_type_id n name id v h =
    rw (v.named name id (or_throw-eq-ok (lookup_by text_eq name n.type_ids) out_of_range h))
