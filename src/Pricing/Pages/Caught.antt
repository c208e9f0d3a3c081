-- ===== src/Pricing/Pages/Caught.antt =====
-- What the conversion of a page in apps/pricing/json_writer_util.cpp and read_json_order.cpp throws is
-- a `std::runtime_error`, which `readOrders` catches.
use eve_industry_planner.Prelude.{
  ℕ, ◌≡◌, ◌^◌, ltb, refl, Bool, true, false, Option, none, some, List, [], ◌∷◌, arith, Error,
  runtime_error, Result, ok, throw, ◌>>=◌, or_throw, if◌then◌else◌, length, ◌==◌, ◌≢◌,
}
use eve_industry_planner.Text.{Text}
use eve_industry_planner.Pricing.Order.{Order}
use eve_industry_planner.Pricing.Json.{
  Value, boolean, unsigned, real, string, other, Converted, first_byte, get_uint64, get_uint,
  get_bool, get_double, get_string, parse_datetime, write_member, read_member, read_members,
  convert, all_read,
}
use eve_industry_planner.Pricing.Paths.{parse_file_name, parse_page_number}
use eve_industry_planner.Pricing.Pages.{
  Item, object, no_object, Document, unparsed, items, no_items, convert_item, convert_items,
  convert_orders, read_page,
}

-- It returns or throws a `std::runtime_error`.
abbrev pub IsTame {ℓ} : {A : Type ℓ} → Result A → Type 0
IsTame (ok a) = Unit
IsTame (throw e) = e ≡ runtime_error

IsTame-bind {ℓ κ} :
    {A : Type ℓ} {B : Type κ} (m : Result A) (f : A → Result B)
    → IsTame m
    → ((a : A) → IsTame (f a))
    → IsTame (m >>= f)
IsTame-bind (ok a) f h g = g a
IsTame-bind (throw e) f h g = h

IsTame-if {ℓ} : {A : Type ℓ} (b : Bool) (a : A) → IsTame (if b then ok a else throw runtime_error)
IsTame-if true a = tt
IsTame-if false a = refl

-- What a tame result throws.
pub IsTame-throw {ℓ} :
    {A : Type ℓ} (m : Result A) (e : Error) → IsTame m → m ≡ throw e → e ≡ runtime_error
IsTame-throw (ok a) e h q = cc
IsTame-throw (throw x) e h q = ground arith

name-IsTame :
    (b : Bool) (o : Option ℕ)
    → IsTame (if b then (or_throw o runtime_error >>= λ n. ok (some n)) else ok none)
name-IsTame true none = refl
name-IsTame true (some n) = tt
name-IsTame false o = tt

pub parse_file_name-IsTame : (path : Text) → IsTame (parse_file_name path)
unfolding parse_file_name parse_page_number
parse_file_name-IsTame path = name-IsTame _ _

or_throw-IsTame {ℓ} : {A : Type ℓ} (o : Option A) → IsTame (or_throw o runtime_error)
or_throw-IsTame none = refl
or_throw-IsTame (some a) = tt

datetime-IsTame : (time : Text → Option ℕ) (s : Text) → IsTame (parse_datetime time s)
unfolding parse_datetime
datetime-IsTame time s =
    IsTame-bind (or_throw (time s) runtime_error) _ (or_throw-IsTame (time s)) (λ t. tt)

module _ {ℓ} {W : Type ℓ} where
  uint64-IsTame : (v : Value W) → IsTame (get_uint64 v)
  unfolding get_uint64
  uint64-IsTame (unsigned n) = IsTame-if (ltb n (2 ^ 64)) n
  uint64-IsTame (boolean b) = refl
  uint64-IsTame (real x) = refl
  uint64-IsTame (string s) = refl
  uint64-IsTame other = refl

  uint-IsTame : (v : Value W) → IsTame (get_uint v)
  unfolding get_uint
  uint-IsTame (unsigned n) = IsTame-if (ltb n (2 ^ 32)) n
  uint-IsTame (boolean b) = refl
  uint-IsTame (real x) = refl
  uint-IsTame (string s) = refl
  uint-IsTame other = refl

  bool-IsTame : (v : Value W) → IsTame (get_bool v)
  unfolding get_bool
  bool-IsTame (boolean true) = tt
  bool-IsTame (boolean false) = tt
  bool-IsTame (unsigned n) = refl
  bool-IsTame (real x) = refl
  bool-IsTame (string s) = refl
  bool-IsTame other = refl

  double-IsTame : (v : Value W) → IsTame (get_double v)
  unfolding get_double
  double-IsTame (real x) = tt
  double-IsTame (unsigned n) = refl
  double-IsTame (boolean b) = refl
  double-IsTame (string s) = refl
  double-IsTame other = refl

  string-IsTame : (v : Value W) → IsTame (get_string v)
  unfolding get_string
  string-IsTame (string s) = tt
  string-IsTame (unsigned n) = refl
  string-IsTame (boolean b) = refl
  string-IsTame (real x) = refl
  string-IsTame other = refl

  write-IsTame {κ} :
      {A : Type κ} (k : ℕ) (m : Result A) (f : A → Order W → Order W) (c : Converted W)
      → IsTame m
      → IsTame (write_member k m f c)
  unfolding write_member
  write-IsTame k m f c h = IsTame-bind m _ h (λ a. tt)

  branch-IsTame :
      (b : Bool) (f g : Converted W → Result (Converted W)) (c : Converted W)
      → IsTame (f c)
      → IsTame (g c)
      → IsTame ((if b then f else g) c)
  branch-IsTame true f g c p q = p
  branch-IsTame false f g c p q = q

  module _ (time : Text → Option ℕ) where
    member-IsTame :
        (name : Text) (v : Value W) (c : Converted W) → IsTame (read_member time name v c)
    unfolding read_member
    member-IsTame name v c =
        branch-IsTame (length name == 2) _ _ c (write-IsTame 0 (get_uint64 v) _ c (uint64-IsTame v))
          (branch-IsTame (length name == 3) _ _ c (write-IsTame 1 (get_bool v) _ c (bool-IsTame v))
            (branch-IsTame (length name == 4) _ _ c
              (write-IsTame 2 (get_uint v) _ c (uint-IsTame v))
              (branch-IsTame (length name == 5) _ _ c
                (branch-IsTame (first_byte name == b'p') _ _ c
                  (write-IsTame 3 (get_double v) _ c (double-IsTame v))
                  (write-IsTame 4 (get_string v) _ c (string-IsTame v)))
                (branch-IsTame (length name == 6) _ _ c
                  (branch-IsTame (first_byte name == b'i') _ _ c
                    (write-IsTame 5 (get_string v >>= parse_datetime time) _ c
                      (IsTame-bind (get_string v) _ (string-IsTame v) (datetime-IsTame time)))
                    (write-IsTame 6 (get_uint v) _ c (uint-IsTame v)))
                  (branch-IsTame (length name == 8) _ _ c
                    (write-IsTame 7 (get_uint v) _ c (uint-IsTame v))
                    (branch-IsTame (length name == 9) _ _ c
                      (branch-IsTame (first_byte name == b's') _ _ c
                        (write-IsTame 8 (get_uint64 v) _ c (uint64-IsTame v))
                        (write-IsTame 9 (get_uint v) _ c (uint-IsTame v)))
                      (write-IsTame 10 (get_uint v) _ c (uint-IsTame v))))))))

    members-IsTame :
        (ms : List (Text × Value W)) (c : Converted W) → IsTame (read_members time ms c)
    unfolding read_members
    members-IsTame [] c = tt
    members-IsTame ((name, v) ∷ ms) c =
        IsTame-bind (read_member time name v c) _ (member-IsTame name v c) (members-IsTame ms)

    module _ (indeterminate : Order W) where
      convert-IsTame : (ms : List (Text × Value W)) → IsTame (convert time indeterminate ms)
      unfolding convert
      convert-IsTame ms =
          IsTame-bind (read_members time ms _) _ (members-IsTame ms _)
            (λ c. IsTame-if (all_read c.members_read) c.order)

      item-IsTame : (i : Item W) → IsTame (convert_item time indeterminate i)
      unfolding convert_item
      item-IsTame (object ms) = convert-IsTame ms
      item-IsTame no_object = refl

      items-IsTame : (is : List (Item W)) → IsTame (convert_items time indeterminate is)
      unfolding convert_items
      items-IsTame [] = tt
      items-IsTame (i ∷ is) =
          IsTame-bind (convert_item time indeterminate i) _ (item-IsTame i)
            (λ o. IsTame-bind (convert_items time indeterminate is) _ (items-IsTame is) (λ os. tt))

      orders-IsTame : (d : Document W) → d ≢ no_items → IsTame (convert_orders time indeterminate d)
      unfolding convert_orders
      orders-IsTame unparsed h = tt
      orders-IsTame (items is) h = items-IsTame is
      orders-IsTame no_items h = absurd (h refl)

      pub read_page-IsTame :
          (d : Document W) → d ≢ no_items → IsTame (read_page time indeterminate d)
      unfolding read_page
      read_page-IsTame d h =
          IsTame-bind (convert_orders time indeterminate d) _ (orders-IsTame d h) (λ os. tt)
