-- ===== src/Catalog/Groups.antt =====
-- libs/groups/groups.cpp: the group of each published item; `none` is a YAML node that is not defined.
use eve_industry_planner.Prelude.{ℕ, Bool, true, Option, some, List, [], ◌∷◌, lookup, insert}

pub record GroupNode : Type 0 where
  pub id : ℕ
  pub group_id : Option ℕ
  pub published : Option Bool

load_group : List (ℕ × ℕ) → ℕ → Option ℕ → Option Bool → List (ℕ × ℕ)
load_group groups id (some group) (some true) = insert id group groups
load_group groups id _ _ = groups

unfoldable pub load_groups : List (ℕ × ℕ) → List GroupNode → List (ℕ × ℕ)
unfolding load_group
load_groups groups [] = groups
load_groups groups (t ∷ ts) = load_groups (load_group groups t.id t.group_id t.published) ts

unfoldable pub check_group : List (ℕ × ℕ) → ℕ → Option ℕ
check_group groups id = lookup id groups
