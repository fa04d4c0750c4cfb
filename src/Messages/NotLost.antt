-- ===== src/Messages/NotLost.antt =====
-- A message is not lost: its state is stored, or it is put back.
use mathlib.Core.List.{Mem, mem-append_right, mem-cons_self}
use fts.Common.{
  Bool, Bool-cases, Each, List, Option, Result, String, [], continue, err, false, inl, inr, none,
  ok, refl, some, subst, suc, sym, ℕ, ◌++◌, ◌∷◌, ◌≡◌, ◌⊎◌,
}
use fts.Jobs.Types.{Db, State}
use fts.Messages.Held.{handle_rest-IsHeld, put_all-IsHeld}
use fts.Messages.Kept.{perform_state-Throws}
use fts.Messages.Stored.{IsStored, perform_state_ok}
use fts.Messages.Process.{
  Around, Call, Message, Station, Status, attempt, counted, dump_messages, handle_message,
  handle_other_messages, handle_rest, is_unrecoverable_error_message,
  perform_other_message_db_change, perform_state, put_all, put_back_message, put_message, reached,
  recover, update, watch_message, watch_status,
}

-- The tables tell the state of the message, if it has one.
abbrev pub IsDone : Around → Message → Db → Db → Status → Type 0
IsDone e m db db' update = Unit
IsDone e m db db' (reached a) = IsStored e m a db db'

-- Every message of a list, handled one after the other from a station, is stored by its handling or was
-- put back.
abbrev pub AreKept : Around → List Message → Station → Station → Type 0
AreKept e [] w v = Unit
AreKept e (m ∷ ms) w v =
    (IsDone e m w.db (handle_message e m w).db m.transfer_status ⊎ Mem m v.put_back)
    × AreKept e ms (handle_message e m w) v

module _ (e : Around) where
  attempt_safe :
      {A : Type 0} (c : Call) (f : Station → A × Station) (w : Station)
      → ((n : ℕ) → e.fails n c ≡ none)
      → attempt e c f w ≡ (ok (f (counted w)).0, (f (counted w)).1)
  unfolding attempt
  attempt_safe {A} c f w h = by_call (e.fails w.calls c) (h w.calls)
    where
      by_call :
          (o : Option String)
          → o ≡ none
          → (elim o as (λ _. Result String A × Station) [
            | some error ↦ (err error, counted w)
            | none ↦ (ok (f (counted w)).0, (f (counted w)).1)
          ])
            ≡ (ok (f (counted w)).0, (f (counted w)).1)
      by_call none h = refl
      by_call (some x) h = absurd (cc h)

  put_back-Mem :
      (m : Message) (w : Station)
      → ((n : ℕ) → e.fails n put_message ≡ none)
      → Mem m (put_back_message e m w).1.put_back
  unfolding put_back_message
  put_back-Mem m w h =
      rw (attempt_safe put_message _ w h) (mem-append_right w.put_back mem-cons_self)

  abbrev appended : Message → Station → Station
  appended m w = record (counted w) { put_back = w.put_back ++ m ∷ [] }

  put_all_step :
      (m : Message) (ms : List Message) (w : Station)
      → ((n : ℕ) → e.fails n put_message ≡ none)
      → (put_all e (m ∷ ms) w).1 ≡ (put_all e ms (appended m w)).1
  unfolding put_all put_back_message
  put_all_step m ms w h =
      rw (attempt_safe put_message (λ v. (tt, record v { put_back = v.put_back ++ m ∷ [] })) w h)
        refl

  put_all-Each :
      (ms : List Message) (w : Station)
      → ((n : ℕ) → e.fails n put_message ≡ none)
      → Each (λ m. Mem m (put_all e ms w).1.put_back) ms
  put_all-Each [] w h = tt
  put_all-Each (m ∷ ms) w h =
      subst (λ v. Each (λ x. Mem x v.put_back) (m ∷ ms)) (sym (put_all_step m ms w h))
        (
          put_all-IsHeld e m ms (appended m w) (mem-append_right w.put_back mem-cons_self),
          put_all-Each ms (appended m w) h,
        )

  watched_ok :
      (m : Message) (w : Station)
      → ((n : ℕ) → e.fails n watch_message ≡ none)
      → ((watch_status e m w).0 ≡ ok tt) × ((watch_status e m w).1.db ≡ w.db)
  unfolding watch_status
  watched_ok m w h = rw (attempt_safe watch_message _ w h) (refl, refl)

  recovered :
      (m : Message) (a : State) (w : Station) (r : Result String (Unit {0}) × Station)
      → ((n : ℕ) → e.fails n put_message ≡ none)
      → ((x : String) → r.0 ≡ err x → is_unrecoverable_error_message x ≡ false)
      → perform_state e m a w ≡ r
      → IsStored e m a w.db (recover e m r).1.db ⊎ Mem m (recover e m r).1.put_back
  unfolding recover
  recovered m a w (ok tt, v) h k q = inl (perform_state_ok e m a w v q)
  recovered m a w (err x, v) h k q = inr (rw (k x refl) (put_back-Mem m v h))

  handle_message_keeps :
      (m : Message) (w : Station)
      → ((n : ℕ) → e.fails n watch_message ≡ none)
      → ((n : ℕ) → e.fails n put_message ≡ none)
      → ((n : ℕ) (c : Call) (x : String)
          → e.fails n c ≡ some x
          → is_unrecoverable_error_message x ≡ false)
      → IsDone e m w.db (handle_message e m w).db m.transfer_status
        ⊎ Mem m (handle_message e m w).put_back
  unfolding handle_message perform_other_message_db_change
  handle_message_keeps m w hw hp k =
      by_status (watch_status e m w) (watched_ok m w hw).0 (watched_ok m w hw).1 m.transfer_status
    where
      handled : Result String (Unit {0}) × Station → Status → Station
      handled o t =
          (continue o.0
            (λ _ v. elim t as (λ _. Result String (Unit {0}) × Station) [
              | update ↦ (ok tt, v)
              | reached a ↦ recover e m (perform_state e m a v)
            ])
            o.1).1

      by_status :
          (o : Result String (Unit {0}) × Station)
          → o.0 ≡ ok tt
          → o.1.db ≡ w.db
          → (t : Status) → IsDone e m w.db (handled o t).db t ⊎ Mem m (handled o t).put_back
      by_status (err x, v) h d t = absurd (cc h)
      by_status (ok u, v) h d update = inl tt
      by_status (ok u, v) h d (reached a) =
          let r = perform_state e m a v in
          subst (λ db. IsStored e m a db (recover e m r).1.db ⊎ Mem m (recover e m r).1.put_back) d
            (recovered m a v r hp
              ((perform_state-Throws e (λ x. is_unrecoverable_error_message x ≡ false) k m a).only
                v)
              refl)

  AreKept-put_back :
      (ms : List Message) (w v : Station) → Each (λ m. Mem m v.put_back) ms → AreKept e ms w v
  AreKept-put_back [] w v a = tt
  AreKept-put_back (m ∷ ms) w v a = (inr a.0, AreKept-put_back ms (handle_message e m w) v a.1)

  handle_rest-AreKept :
      ((n : ℕ) → e.fails n watch_message ≡ none)
      → ((n : ℕ) → e.fails n put_message ≡ none)
      → ((n : ℕ) (c : Call) (x : String)
          → e.fails n c ≡ some x
          → is_unrecoverable_error_message x ≡ false)
      → (interrupted : ℕ → Bool) (messages : List Message) (n : ℕ) (ms : List Message) (w : Station)
      → ((v : Station) → Each (λ m. Mem m (put_all e messages v).1.put_back) ms)
      → AreKept e ms w (handle_rest e interrupted messages n ms w)
  unfolding handle_rest dump_messages
  handle_rest-AreKept hw hp k interrupted messages n [] w a = tt
  handle_rest-AreKept hw hp k interrupted messages n (m ∷ ms) w a =
      elim (Bool-cases (interrupted n)) [
        | inl i ↦ rw i (AreKept-put_back (m ∷ ms) w (put_all e messages w).1 (a w))
        | inr i ↦
            let v = handle_message e m w in
            let z = handle_rest e interrupted messages (suc n) ms v in
            rw i (
              elim (handle_message_keeps m w hw hp k)
                  as (λ _.
                    IsDone e m w.db (handle_message e m w).db m.transfer_status
                    ⊎ Mem m z.put_back) [
                      | inl s ↦ inl s
                      | inr s ↦ inr (handle_rest-IsHeld e m interrupted messages (suc n) ms v s)
                    ],
              handle_rest-AreKept hw hp k interrupted messages (suc n) ms v (λ u. (a u).1),
            )
      ]

-- No message is lost: wherever the loop is interrupted and whichever other calls throw, each message with a
-- state is put back, or its handling has changed the tables as it says: the transfer is submitted for another
-- try, or its state and that of its job are updated, where the calls that put a message back and that note it in
-- the list of running transfers do not throw, and no exception has a text that ends the transfer.
pub handle_other_messages-AreKept :
    (e : Around) (interrupted : ℕ → Bool) (messages : List Message) (w : Station)
    → ((n : ℕ) → e.fails n watch_message ≡ none)
    → ((n : ℕ) → e.fails n put_message ≡ none)
    → ((n : ℕ) (c : Call) (x : String)
        → e.fails n c ≡ some x
        → is_unrecoverable_error_message x ≡ false)
    → AreKept e messages w (handle_other_messages e interrupted messages w)
unfolding handle_other_messages
handle_other_messages-AreKept e interrupted messages w hw hp k =
    handle_rest-AreKept e hw hp k interrupted messages 0 messages w
      (λ v. put_all-Each e messages v hp)
