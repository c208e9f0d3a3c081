-- ===== src/Pricing/Tests.antt =====
-- The theorems about the archive of apps/pricing, at concrete orders and documents.
mod Input
mod Views
use eve_industry_planner.Prelude.{
  ℕ, zero, suc, ◌^◌, ◌<◌, ◌≡◌, refl, Bool, true, false, none, some, List, [], ◌∷◌, ◌++◌, ◌==◌,
  get_elem?, set, ok, throw, undefined, lookup, emplace, arith,
}
use eve_industry_planner.Double.{Double, IsBitwise}
use eve_industry_planner.Pricing.Order.{Order, Diff, IsOrder, apply_diff}
use eve_industry_planner.Pricing.Codec.{write_order, write_diff, read_order, read_diff}
use eve_industry_planner.Pricing.Codec.Bytes.{le_bytes}
use eve_industry_planner.Pricing.Codec.RoundTrip.{read_order-write_order, read_diff-write_diff}
use eve_industry_planner.Pricing.Reader.{Reader, read_step, read_doc}
use eve_industry_planner.Pricing.Reader.Total.{Shrinks, Ends, read_step-Shrinks, read_doc-Ends}
use eve_industry_planner.Pricing.Reader.Records.{read_step-order, read_step-diff}
use eve_industry_planner.Pricing.Writer.{
  Writer, write_new, write_changed, write_removed, check, new_index,
}
use eve_industry_planner.Pricing.Writer.PastEnd.{next_write_undefined}
use eve_industry_planner.Pricing.Writer.Extract.{extract2}
use eve_industry_planner.Pricing.Writer.Extract.Fails.{Fails, check-Fails, extract2-Fails}
use eve_industry_planner.Pricing.Writer.Mirror.{put}
use eve_industry_planner.Pricing.Writer.Mirror.Steps.{Mirrors, Emits, new_next}
use eve_industry_planner.Pricing.Writer.Mirror.Replay.{Story, done, wrote_new, read_doc_replays}

-- The numbers 0 and 1: a type with the operations whose eight bytes determine it.
instance abbrev flag_double : Double Bool
flag_double = record {
  literal = λ m e. m == 1;
  of_nat = λ n. n == 1;
  infinity = true;
  neg = λ a. a;
  plus = λ a b. a;
  minus = λ a b. a;
  times = λ a b. b;
  divide = λ a b. a;
  ceil = λ a. a;
  lt = λ a b. false;
  le = λ a b. true;
  eq = λ a b. true;
  abs = λ a. a;
  llround = λ a. 1;
  show = λ a. [];
  bits = λ a. elim a [ true ↦ 1 | false ↦ 0 ];
  of_bits = λ n. n == 1;
}

flag_bits : IsBitwise Bool
flag_bits = record { bits-lt = small; of_bits-bits = back }
  where
    small : (w : Bool) → flag_double.bits w < 2 ^ 64
    small true = omega arith
    small false = omega arith

    back : (w : Bool) → flag_double.of_bits (flag_double.bits w) ≡ w
    back true = refl
    back false = refl

abbrev sale : Order Bool
sale = record {
  buy = 0;
  issued = 1480550713;
  price = true;
  volume_entered = 500;
  station_id = 60003760;
  volume = 300;
  range = 253;
  min_volume = 1;
  duration = 90;
  type = 34;
  id = 4681236211;
}

sale-IsOrder : IsOrder sale
sale-IsOrder = record {
  buy_lt = omega arith;
  issued_lt = omega arith;
  volume_entered_lt = omega arith;
  station_id_lt = omega arith;
  volume_lt = omega arith;
  range_lt = omega arith;
  min_volume_lt = omega arith;
  duration_lt = omega arith;
  type_lt = omega arith;
  id_lt = omega arith;
}

abbrev change : Diff Bool
change = record { buy = 2; price = false; volume = 250 }

abbrev unused : Order Bool
unused = record {
  buy = 0;
  issued = 0;
  price = false;
  volume_entered = 0;
  station_id = 0;
  volume = 0;
  range = 0;
  min_volume = 0;
  duration = 0;
  type = 0;
  id = 0;
}

abbrev blank : Reader Bool
blank = record {
  text = [];
  viewtime = 0;
  active_orders = unused ∷ unused ∷ unused ∷ [];
  deleted = [];
  inserted = [];
}

abbrev fresh : Writer Bool
fresh = record {
  active_orders = [];
  active_orders2 = [];
  index = [];
  free_list = [];
  written = [];
  reader = blank;
  consumed = 0;
  started = false;
}

read_order-write_order_example : read_order (write_order sale ++ (7 ∷ [])) ≡ some (sale, 7 ∷ [])
read_order-write_order_example = read_order-write_order flag_bits sale (7 ∷ []) sale-IsOrder

read_diff-write_diff_example : read_diff (write_diff change ++ []) ≡ some (change, [])
read_diff-write_diff_example = read_diff-write_diff flag_bits change [] (omega arith) (omega arith)

read_doc-Ends_example : Ends blank (read_doc blank (1 ∷ 2 ∷ 3 ∷ []))
read_doc-Ends_example = read_doc-Ends blank (1 ∷ 2 ∷ 3 ∷ [])

extract2-Fails_example : Fails (extract2 fresh (some 1480550713) ((sale ∷ []) ∷ []))
extract2-Fails_example = extract2-Fails fresh (some 1480550713) sale [] [] refl

abbrev stored : Writer Bool
stored = record fresh {
  active_orders2 = sale ∷ [];
  index = emplace 4681236211 1 [];
  written = [] ++ (le_bytes 4 1 ++ write_order sale);
}

write_new_stored : write_new fresh sale ≡ ok stored
unfolding write_new new_index lookup
write_new_stored = refl

next_write_undefined_example :
    (write_changed stored sale ≡ throw undefined) × (write_removed stored sale ≡ throw undefined)
next_write_undefined_example = next_write_undefined fresh sale sale refl write_new_stored refl

blank_dead : (s : ℕ) (o : Order Bool) → get_elem? blank.active_orders s ≡ some o → o.volume ≡ 0
blank_dead zero o e = cc e
blank_dead (suc zero) o e = cc e
blank_dead (suc (suc zero)) o e = cc e
blank_dead (suc (suc (suc s))) o e = absurd (cc e)

blank-Mirrors : Mirrors fresh blank (λ i. none)
unfolding lookup
blank-Mirrors = record {
  stored = record {
    held = λ i s e. absurd (cc e);
    known = λ i e. refl;
    apart = λ i j s e f. absurd (cc e);
    dead = λ s o e h. blank_dead s o e;
  };
  free = record {
    below = λ i s e. absurd (cc e);
    free_below = tt;
    free_unused = tt;
    free_distinct = tt;
  };
  room = omega arith;
  small = omega arith;
}

one_sale : Story 3 fresh (λ i. none) stored (put sale.id sale (λ i. none))
one_sale = wrote_new sale sale-IsOrder refl (omega arith) write_new_stored done

read_doc_replays_example :
    (bytes : List ℕ) × (r' : Reader Bool) × (stored.written ≡ fresh.written ++ bytes)
    × (read_doc blank bytes ≡ ok r')
    × Mirrors stored r' (put sale.id sale (λ i. none))
read_doc_replays_example = read_doc_replays flag_bits blank one_sale refl blank-Mirrors
