-- ===== src/Pricing/Writer/Mirror/Slots.antt =====
-- How the three writes of `extract2` in apps/pricing/json_writer.cpp move the relation `IsStored`.
use eve_industry_planner.Prelude.{
  ℕ, ◌<◌, ◌≡◌, sym, ◌∙◌, none, some, List, arith, ◌==◌, length, get_elem?, set, get_elem?-set_self,
  get_elem?-set_ne, lookup, emplace, erase, lookup-emplace, lookup-erase, Bool-cases, inl, inr,
}
use eve_industry_planner.Pricing.Order.{Order}
use eve_industry_planner.Pricing.Writer.Mirror.{Market, put, drop_id, IsStored, Unused}

module _ {ℓ} {W : Type ℓ} {index : List (ℕ × ℕ)} {slots : List (Order W)} {v : Market W}
    (m : IsStored index slots v) where
  open m use {held, known, apart, dead}

  module _ (id : ℕ) (o : Order W) (s : ℕ) (new : lookup id index ≡ none) (unused : Unused index s)
      (h : s < length slots) where
    put-held :
        (i t : ℕ)
        → lookup i (emplace id s index) ≡ some t
        → (x : Order W) × (put id o v i ≡ some x) × (get_elem? (set slots s o) t ≡ some x)
    put-held i t e = elim (Bool-cases (id == i)) [
      | inl q ↦
          (o, rw q, ground (arith, lookup-emplace id i s index new, get_elem?-set_self slots s o h))
      | inr q ↦
          let old : lookup i index ≡ some t = ground (arith, lookup-emplace id i s index new) in
          let (x, a, b) = held i t old in
          (x, rw q a, get_elem?-set_ne slots s t o (λ (st : s ≡ t). unused i (rw st old)) ∙ b)
    ]

    put-dead :
        (t : ℕ) (x : Order W)
        → get_elem? (set slots s o) t ≡ some x
        → Unused (emplace id s index) t
        → x.volume ≡ 0
    put-dead t x e free = elim (Bool-cases (s == t)) [
      | inl q ↦ absurd (free id (ground (arith, lookup-emplace id id s index new)))
      | inr q ↦
          dead t x (sym (get_elem?-set_ne slots s t o (ground arith)) ∙ e)
            λ i old. free i (ground (arith, lookup-emplace id i s index new))
    ]

    -- A new order in an unused slot.
    pub put-IsStored : IsStored (emplace id s index) (set slots s o) (put id o v)
    put-IsStored = record {
      held = put-held;
      known = λ i e. ground (arith, lookup-emplace id i s index new, known i);
      apart = λ i j t p q. ground (
        arith,
        lookup-emplace id i s index new,
        lookup-emplace id j s index new,
        apart i j t,
        unused i,
        unused j,
      );
      dead = put-dead;
    }

  module _ (id s : ℕ) (x : Order W) (here : lookup id index ≡ some s) (h : s < length slots) where
    change-held :
        (i t : ℕ)
        → lookup i index ≡ some t
        → (y : Order W) × (put id x v i ≡ some y) × (get_elem? (set slots s x) t ≡ some y)
    change-held i t e = elim (Bool-cases (id == i)) [
      | inl q ↦ (x, rw q, ground (arith, get_elem?-set_self slots s x h))
      | inr q ↦
          let (y, a, b) = held i t e in
          (
            y,
            rw q a,
            get_elem?-set_ne slots s t x (λ (st : s ≡ t). ground (arith, apart id i t)) ∙ b,
          )
    ]

    change-dead :
        (t : ℕ) (y : Order W) → get_elem? (set slots s x) t ≡ some y → Unused index t → y.volume ≡ 0
    change-dead t y e free = elim (Bool-cases (s == t)) [
      | inl q ↦ absurd (free id (ground arith))
      | inr q ↦ dead t y (sym (get_elem?-set_ne slots s t x (ground arith)) ∙ e) free
    ]

    -- Another order in the slot of the id.
    pub change-IsStored : IsStored index (set slots s x) (put id x v)
    change-IsStored = record {
      held = change-held;
      known = λ i e. ground (arith, known i);
      apart = apart;
      dead = change-dead;
    }

    remove-held :
        (i t : ℕ)
        → lookup i (erase id index) ≡ some t
        → (y : Order W) × (drop_id id v i ≡ some y) × (get_elem? (set slots s x) t ≡ some y)
    remove-held i t e = elim (Bool-cases (id == i)) [
      | inl q ↦ absurd (ground (arith, lookup-erase id i index))
      | inr q ↦
          let old : lookup i index ≡ some t = ground (arith, lookup-erase id i index) in
          let (y, a, b) = held i t old in
          (
            y,
            rw q a,
            get_elem?-set_ne slots s t x (λ (st : s ≡ t). ground (arith, apart id i t)) ∙ b,
          )
    ]

    remove-dead :
        x.volume ≡ 0
        → (t : ℕ) (y : Order W) → get_elem? (set slots s x) t ≡ some y
        → Unused (erase id index) t
        → y.volume ≡ 0
    remove-dead zero t y e free = elim (Bool-cases (s == t)) [
      | inl q ↦ ground (arith, get_elem?-set_self slots s x h)
      | inr q ↦
          dead t y (sym (get_elem?-set_ne slots s t x (ground arith)) ∙ e)
            λ i old. free i (ground (arith, lookup-erase id i index))
    ]

    -- An order without volume in the slot of the id, which the index forgets.
    pub remove-IsStored : x.volume ≡ 0 → IsStored (erase id index) (set slots s x) (drop_id id v)
    remove-IsStored zero = record {
      held = remove-held;
      known = λ i e. ground (arith, lookup-erase id i index, known i);
      apart = λ i j t p q.
          ground (arith, lookup-erase id i index, lookup-erase id j index, apart i j t);
      dead = remove-dead zero;
    }
