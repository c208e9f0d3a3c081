-- ===== src/Catalog/Names.antt =====
-- libs/names/names.cpp: the names of the published items, by id and back. Of an entry of typeIDs.yaml
-- the code asks for the English name and the flag `published`; `none` is a node that is not defined.
pub mod Inverse
use eve_industry_planner.Prelude.{
  ℕ, ◌≡◌, refl, Bool, true, false, Option, none, some, List, [], ◌∷◌, if◌then◌else◌, lookup, insert,
  lookup_by, insert_by, Result, ok, throw, or_throw, out_of_range,
}
use eve_industry_planner.Text.{Text, text_eq}

pub record Names : Type 0 where
  pub names : List (ℕ × Text)
  pub type_ids : List (Text × ℕ)

pub record TypeNode : Type 0 where
  pub id : ℕ
  pub name : Option Text
  pub published : Option Bool

-- `getName(typeId)`, which uses `at`
unfoldable pub get_name : Names → ℕ → Result Text
get_name n id = or_throw (lookup id n.names) out_of_range

unfoldable pub get_name_or : Names → ℕ → Text → Text
get_name_or n id alternative = elim (lookup id n.names) [ none ↦ alternative | some name ↦ name ]

unfoldable pub get_type_id : Names → Text → Result ℕ
get_type_id n name = or_throw (lookup_by text_eq name n.type_ids) out_of_range

unfoldable pub check_name : Names → ℕ → Option Text
check_name n id = lookup id n.names

unfoldable pub set_name : Names → ℕ → Text → Names
set_name n id name = record {
  names = insert id name n.names;
  type_ids = insert_by text_eq name id n.type_ids;
}

load_name : Names → ℕ → Option Text → Option Bool → Names
unfolding set_name
load_name n id (some name) (some true) = set_name n id name
load_name n id _ _ = n

unfoldable pub load_names : Names → List TypeNode → Names
unfolding load_name
load_names n [] = n
load_names n (t ∷ ts) = load_names (load_name n t.id t.name t.published) ts

unfoldable pub ensure_name : Names → ℕ → Text → Names
ensure_name n id name = elim (lookup id n.names) [ none ↦ set_name n id name | some old ↦ n ]
