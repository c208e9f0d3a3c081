-- ===== src/Pricing/Writer/Write.antt =====
-- `JsonWriter::write` of apps/pricing/json_writer.cpp: the archives of a directory, in the order of
-- their paths. A path is opened when it is its turn, so what an archive holds is a function of its path.
pub mod Listing
use eve_industry_planner.Prelude.{
  ℕ, Bool, true, false, Option, List, [], ◌∷◌, ltb, ◌==◌, if◌then◌else◌, Result, ok, ◌>>=◌,
}
use eve_industry_planner.Text.{Text}
use eve_industry_planner.Double.{Double}
use eve_industry_planner.Pricing.Order.{Order}
use eve_industry_planner.Pricing.Paths.{is_tgz, split_directory_and_basename}
use eve_industry_planner.Pricing.Pages.{Entry, read_orders}
use eve_industry_planner.Pricing.Writer.{Writer}
use eve_industry_planner.Pricing.Writer.Extract.{extract2}

-- `<` on `std::string`
unfoldable pub text_lt : Text → Text → Bool
text_lt xs [] = false
text_lt [] (y ∷ ys) = true
text_lt (x ∷ xs) (y ∷ ys) = if ltb x y then true else if x == y then text_lt xs ys else false

unfoldable pub insert_path : Text → List Text → List Text
insert_path p [] = p ∷ []
insert_path p (q ∷ qs) =
    let more = insert_path p qs in if text_lt q p then q ∷ more else p ∷ (q ∷ qs)

-- `std::copy_if` with `isTgz`, and `std::sort`
unfoldable pub archives : List Text → List Text
archives [] = []
archives (p ∷ ps) = let rest = archives ps in if is_tgz p then insert_path p rest else rest

-- `view_time` is `timegm` of what `strptime` makes of the name of a file.
module _ {ℓ} {W : Type ℓ} ⦃d : Double W⦄ (time view_time : Text → Option ℕ)
    (indeterminate : Order W) (capacity : ℕ) (contents : Text → List (Entry W)) where
  unfoldable pub extract_files : Writer W → List Text → Result (Writer W)
  extract_files w [] = ok w
  extract_files w (path ∷ paths) = do
    docs ← read_orders time indeterminate capacity (contents path)
    w' ← extract2 w (view_time (split_directory_and_basename path).1) docs
    extract_files w' paths

  -- `paths` is what the directory and those below it hold, in the order in which they are gone through.
  unfoldable pub write : Writer W → List Text → Result (Writer W)
  write w paths = extract_files w (archives paths)
