-- ===== src/Industry/Resource.antt =====
-- `Resource_Base` of libs/industry_resources/resource_base.h. The program shares resources by
-- `std::shared_ptr` and compares the pointers: a store holds the resources, and a pointer is a place in
-- it. Nothing is ever removed. `row_id` is not initialised by the constructor.
use eve_industry_planner.Prelude.{
  ℕ, ◌≡◌, Option, none, some, List, [], ◌∷◌, ◌++◌, length, get_elem?,
}
use eve_industry_planner.Text.{Text}
use eve_industry_planner.Double.{Double}

pub record Resource {ℓ} (W : Type ℓ) : Type ℓ where
  pub lower_limit : W
  pub upper_limit : W
  pub name : Text
  pub full_name : Text
  pub row_id : Option ℕ

abbrev pub Store {ℓ} : Type ℓ → Type ℓ
Store W = List (Resource W)

unfoldable pub new_resource {ℓ} : {W : Type ℓ} ⦃d : Double W⦄ → Text → Text → W → Resource W
new_resource ⦃d⦄ name full_name lower = record {
  lower_limit = lower;
  upper_limit = d.infinity;
  name = name;
  full_name = full_name;
  row_id = none;
}

module _ {ℓ} {W : Type ℓ} where
  -- `std::make_shared<Resource_Base>(...)`
  unfoldable pub make_shared : Resource W → Store W → ℕ × Store W
  make_shared r store = (length store, store ++ (r ∷ []))

  -- The second store has what the first one has, at the same places.
  abbrev pub Extends : Store W → Store W → Type ℓ
  Extends store store' =
      (p : ℕ) (r : Resource W) → get_elem? store p ≡ some r → get_elem? store' p ≡ some r
