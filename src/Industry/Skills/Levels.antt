-- ===== src/Industry/Skills/Levels.antt =====
-- The filters by skill of libs/industry_resources/production/products.cpp and research/inventions.cpp,
-- over libs/skills/skills.cpp.
use eve_industry_planner.Prelude.{
  ◌≤◌, ◌≡◌, refl, false, List, [], ◌∷◌, remove_if, All, All-remove_if, remove_if_none, arith,
}
use eve_industry_planner.Industry.Skills.{
  Skills, SkillRequirement, get_skill_level, skill_too_low, any_skill_too_low,
}

module _ {ℓ} {W : Type ℓ} where
  -- The player has every skill at the level that is asked for.
  abbrev pub HasSkills : Skills W → List SkillRequirement → Type 0
  HasSkills s required = All (λ r. r.1 ≤ get_skill_level s r.0) required

  pub HasSkills-of :
      (s : Skills W) (required : List SkillRequirement)
      → any_skill_too_low s required ≡ false
      → HasSkills s required
  unfolding any_skill_too_low skill_too_low
  HasSkills-of s [] h = tt
  HasSkills-of s ((skill, level) ∷ rest) h =
      (ground (arith, h), HasSkills-of s rest (ground (arith, h)))

  pub too_low_of :
      (s : Skills W) (required : List SkillRequirement)
      → HasSkills s required
      → any_skill_too_low s required ≡ false
  unfolding any_skill_too_low skill_too_low
  too_low_of s [] h = refl
  too_low_of s ((skill, level) ∷ rest) (h, hs) = ground (arith, h, too_low_of s rest hs)

  -- A filter by skill leaves only what the player has the skills for, and does nothing where they suffice for all.
  pub filter_by_skill {κ} :
      {A : Type κ} (s : Skills W) (skills_of : A → List SkillRequirement) (xs : List A)
      → All (λ x. HasSkills s (skills_of x)) (remove_if (λ x. any_skill_too_low s (skills_of x)) xs)
        × (All (λ x. HasSkills s (skills_of x)) xs
            → remove_if (λ x. any_skill_too_low s (skills_of x)) xs ≡ xs)
  filter_by_skill {A = A} s skills_of xs = (
    each (remove_if (λ x. any_skill_too_low s (skills_of x)) xs)
        (All-remove_if (λ x. any_skill_too_low s (skills_of x)) xs),
    (λ h. remove_if_none (λ x. any_skill_too_low s (skills_of x)) xs (none_low xs h)),
  )
    where
      each :
          (ys : List A)
          → All (λ x. any_skill_too_low s (skills_of x) ≡ false) ys
          → All (λ x. HasSkills s (skills_of x)) ys
      each [] v = tt
      each (y ∷ ys) (v, vs) = (HasSkills-of s (skills_of y) v, each ys vs)

      none_low :
          (ys : List A)
          → All (λ x. HasSkills s (skills_of x)) ys
          → All (λ x. any_skill_too_low s (skills_of x) ≡ false) ys
      none_low [] v = tt
      none_low (y ∷ ys) (v, vs) = (too_low_of s (skills_of y) v, none_low ys vs)
