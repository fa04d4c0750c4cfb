-- ===== src/Optimizer/Run.antt =====
-- `Optimizer::run` and `runOptimizerForPair` of Optimizer.cpp, for a data source that answers.
use Prim.Native.Char.{code}
use Prim.Native.String.{String}
use fts.Common.{
  Bool, Double, List, [], false, if◌then◌else◌, length, ltb, true, ◌&&◌, ◌==◌, ◌||◌, ◌∷◌, nat_key,
  string_key,
}
use fts.Optimizer.Types.{DataSource, Optimizer, Pair, pair_key}
use fts.Optimizer.Connections.{optimize_connections_for_pair}
use fts.Optimizer.Streams.{optimize_streams_for_pair}

-- `operator <` of `std::string`.
unfoldable pub lt_string : String → String → Bool
lt_string String.[] String.[] = false
lt_string String.[] (String.◌∷◌ c s) = true
lt_string (String.◌∷◌ b r) String.[] = false
lt_string (String.◌∷◌ b r) (String.◌∷◌ c s) =
    if ltb (code b) (code c) then true else if ltb (code c) (code b) then false else lt_string r s

-- `operator <` of `Pair`.
unfoldable pub lt_pair : Pair → Pair → Bool
unfolding lt_string
lt_pair a b =
    lt_string a.source b.source || (a.source == b.source && lt_string a.destination b.destination)

-- `std::list::sort` is stable, and so puts a pair before those that are not less.
unfoldable pub insert_pair : Pair → List Pair → List Pair
unfolding lt_pair
insert_pair p [] = p ∷ []
insert_pair p (q ∷ qs) = if lt_pair q p then q ∷ insert_pair p qs else p ∷ q ∷ qs

unfoldable pub sort_pairs : List Pair → List Pair
unfolding insert_pair
sort_pairs [] = []
sort_pairs (p ∷ ps) = insert_pair p (sort_pairs ps)

module _ {F W : Type 0} ⦃d : Double F⦄ ⦃ds : DataSource F W⦄ where
  unfoldable pub run_optimizer_for_pair : Pair → Optimizer F × W → Optimizer F × W
  run_optimizer_for_pair pair (o, w) =
      let mode = ds.get_optimizer_mode w pair.source pair.destination in
      let (o', w', stored) = optimize_connections_for_pair mode pair (o, w) in
      if stored then optimize_streams_for_pair mode pair (o', w') else (o', w')

  unfoldable pub run_pairs : List Pair → Optimizer F × W → Optimizer F × W
  run_pairs [] s = s
  run_pairs (p ∷ ps) s = run_pairs ps (run_optimizer_for_pair p s)

  unfoldable pub run : Optimizer F × W → Optimizer F × W
  unfolding sort_pairs run_pairs
  run (o, w) =
      let pairs = sort_pairs (ds.get_active_pairs w) in
      run_pairs pairs (record o { pairs_size = length pairs; pair_idx = 0 }, w)
