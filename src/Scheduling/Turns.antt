-- ===== src/Scheduling/Turns.antt =====
-- `getIndex` on a handler that is ready.
use fts.Common.{
  Each-find, List, Option, String, [], false, find, is_empty, none, put, refl, some, ◌∷◌, ◌≡◌,
  string_key, nat_key,
}
use fts.Optimizer.Types.{Pair, pair_key}
use fts.Scheduling.Handler.{
  Handler, first_link, get_index, get_next_pair, link_after, pop_link, store_links, without_front,
}
use fts.Scheduling.Ready.{Has, IsFilled, IsReady, first_link-Has}
use fts.Scheduling.Types.{FileIndex, index_key}
use fts.Transfers.LinkMap.{LinkMap}

abbrev pub turned : String → Pair → LinkMap FileIndex → Handler → Handler
turned vo p m h = record h { next_pair_for_vo = put vo (link_after p m) h.next_pair_for_vo }

-- The handler after the index was taken.
abbrev pub taken : String → Pair → List FileIndex → LinkMap FileIndex → Handler → Handler
taken vo p rest m h = store_links vo (without_front p rest m) (turned vo p m h)

-- What `getIndex` comes to: nothing for a VO without an entry, and otherwise the first index of a link.
pub data Takes (vo : String) (h : Handler) : Option FileIndex × Handler → Type 0 where
  no_entry : find vo h.vo_to_file_indexes ≡ none → Takes vo h (none, h)
  takes :
      (p : Pair) (i : FileIndex) (rest : List FileIndex) (m : LinkMap FileIndex)
      → find vo h.vo_to_file_indexes ≡ some m
      → find p m ≡ some (i ∷ rest)
      → Takes vo h (some i, taken vo p rest m h)

pop_link-Takes :
    (vo : String) (h : Handler) (p : Pair) (m : LinkMap FileIndex) (l : List FileIndex)
    → find vo h.vo_to_file_indexes ≡ some m
    → find p m ≡ some l
    → is_empty l ≡ false
    → Takes vo h (pop_link vo m (some p, turned vo p m h))
unfolding pop_link
pop_link-Takes vo h p m [] hm hp n = absurd (cc n)
pop_link-Takes vo h p m (i ∷ rest) hm hp n = rw hp (takes p i rest m hm hp)

module _ (vo : String) (h : Handler) (m : LinkMap FileIndex) (r : IsReady h)
    (hm : find vo h.vo_to_file_indexes ≡ some m) where
  filled : IsFilled m
  filled = Each-find (λ e. IsFilled e.1) vo m h.vo_to_file_indexes hm r.filled

  pop_at : (p : Pair) → Has p m → Takes vo h (pop_link vo m (some p, turned vo p m h))
  pop_at p (l, hp) =
      pop_link-Takes vo h p m l hm hp (Each-find (λ e. is_empty e.1 ≡ false) p l m hp filled.1)

  first_there : (p : Pair) × (first_link m ≡ some p)
  unfolding first_link
  first_there = there m filled.0
    where
      there : (m : LinkMap FileIndex) → is_empty m ≡ false → (p : Pair) × (first_link m ≡ some p)
      there [] n = absurd (cc n)
      there ((p, l) ∷ m) n = (p, refl)

  take_turn :
      (o : Option (Option Pair)) → find vo h.next_pair_for_vo ≡ o → Takes vo h (get_index vo h)
  unfolding get_index get_next_pair
  take_turn none ho =
      rw (hm, ho, filled.0, first_there.1) (pop_at first_there.0 (first_link-Has _ m first_there.1))
  take_turn (some none) ho =
      rw (hm, ho, filled.0, first_there.1) (pop_at first_there.0 (first_link-Has _ m first_there.1))
  take_turn (some (some p)) ho = rw (hm, ho, filled.0) (pop_at p (r.turns vo p m hm ho))

absent :
    (vo : String) (h : Handler) → find vo h.vo_to_file_indexes ≡ none → Takes vo h (get_index vo h)
unfolding get_index
absent vo h e = rw e (no_entry e)

pub get_index-Takes : (vo : String) (h : Handler) → IsReady h → Takes vo h (get_index vo h)
get_index-Takes vo h r = by_entry (find vo h.vo_to_file_indexes) refl
  where
    by_entry :
        (o : Option (LinkMap FileIndex))
        → find vo h.vo_to_file_indexes ≡ o
        → Takes vo h (get_index vo h)
    by_entry none e = absent vo h e
    by_entry (some m) e = take_turn vo h m r e _ refl
