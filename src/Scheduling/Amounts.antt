-- ===== src/Scheduling/Amounts.antt =====
-- How much waits in the handler, with a number for each VO and index.
use mathlib.Core.Path.{fun_ext}
use fts.Common.{
  List, String, [], arith, find, length, refl, some, weigh, weigh-erase, weigh-put, ℕ, ◌++◌, ◌+◌,
  ◌∷◌, ◌≡◌, string_key, nat_key,
}
use fts.Optimizer.Types.{Pair, pair_key}
use fts.Scheduling.Handler.{Handler, count_links, size, store_links, without_front}
use fts.Scheduling.Turns.{taken, turned}
use fts.Scheduling.Types.{FileIndex, index_key}
use fts.Transfers.LinkMap.{LinkMap}

abbrev pub sum_of : (FileIndex → ℕ) → List FileIndex → ℕ
sum_of u [] = 0
sum_of u (i ∷ is) = u i + sum_of u is

unfoldable pub links_amount : (FileIndex → ℕ) → LinkMap FileIndex → ℕ
links_amount u m = weigh (λ p l. sum_of u l) m

abbrev pub amount : (String → FileIndex → ℕ) → Handler → ℕ
amount u h = weigh (λ vo m. links_amount (u vo) m) h.vo_to_file_indexes

pub sum_of-append :
    (u : FileIndex → ℕ) (l k : List FileIndex) → sum_of u (l ++ k) ≡ sum_of u l + sum_of u k
sum_of-append u [] k = omega arith
sum_of-append u (i ∷ l) k = omega (arith, sum_of-append u l k)

without_amount :
    (u : FileIndex → ℕ) (p : Pair) (i : FileIndex) (rest : List FileIndex) (m : LinkMap FileIndex)
    → find p m ≡ some (i ∷ rest)
    → links_amount u (without_front p rest m) + u i ≡ links_amount u m
unfolding links_amount
without_amount u p i [] m h = omega (arith, weigh-erase (λ p l. sum_of u l) p (i ∷ []) m h)
without_amount u p i (j ∷ rest) m h =
    omega (arith, weigh-put (λ p l. sum_of u l) p (i ∷ j ∷ rest) (j ∷ rest) m h)

pub no_amount : (u : FileIndex → ℕ) → links_amount u [] ≡ 0
unfolding links_amount weigh
no_amount u = refl

module _ (u : String → FileIndex → ℕ) (vo : String) where
  store_amount :
      (m m' : LinkMap FileIndex) (h : Handler)
      → find vo h.vo_to_file_indexes ≡ some m
      → amount u (store_links vo m' h) + links_amount (u vo) m ≡ amount u h + links_amount (u vo) m'
  store_amount m [] h e = omega (
    arith,
    weigh-erase (λ vo m. links_amount (u vo) m) vo m h.vo_to_file_indexes e,
    no_amount (u vo),
  )
  store_amount m (x ∷ m') h e =
      weigh-put (λ vo m. links_amount (u vo) m) vo m (x ∷ m') h.vo_to_file_indexes e

  pub amount-taken :
      (p : Pair) (i : FileIndex) (rest : List FileIndex) (m : LinkMap FileIndex) (h : Handler)
      → find vo h.vo_to_file_indexes ≡ some m
      → find p m ≡ some (i ∷ rest)
      → amount u (taken vo p rest m h) + u vo i ≡ amount u h
  amount-taken p i rest m h hm hp = omega (
    arith,
    store_amount m (without_front p rest m) (turned vo p m h) hm,
    without_amount (u vo) p i rest m hp,
  )

ones_length : (l : List FileIndex) → sum_of (λ i. 1) l ≡ length l
ones_length [] = refl
ones_length (i ∷ l) = omega (arith, ones_length l)

-- `size()` is the amount that counts every index as one.
pub size-amount : (h : Handler) → size h ≡ amount (λ vo i. 1) h
unfolding size count_links links_amount
size-amount h = rw (fun_ext ones_length)
