-- ===== src/CommandLine/Keeps.antt =====
-- Every setter of a command keeps it in a state that the process accepts.
use fts.Common.{
  Bool, Bool-cases, Dict, Each, Each-append, List, String, [], false, inl, inr, refl, str_beq_iff,
  subst, true, ◌==◌, ◌∷◌, ◌≡◌, string_key, nat_key,
}
use fts.CommandLine.Accepted.{flag_keys, text_keys}
use fts.CommandLine.Command.{
  Command, erase, erase_flag, has_flag, insert_option, set_flag, set_if, set_option,
}
use fts.CommandLine.Good.{IsAccepted, IsGoodFlag, IsGoodOption, good_flag, good_text}
use fts.CommandLine.Values.{TransferTypes}
use fts.CommandLine.Words.{HasNoSpace}
use fts.Optimizer.Run.{lt_string}

module _ (types : TransferTypes) where
  Each-erase :
      (k : String) (m : Dict String String)
      → Each (IsGoodOption types) m
      → Each (IsGoodOption types) (erase k m)
  unfolding erase
  Each-erase k [] h = h
  Each-erase k (e ∷ m) h = elim (Bool-cases (e.0 == k)) [
    | inl i ↦ rw i (Each-erase k m h.1)
    | inr i ↦ rw i (h.0, Each-erase k m h.1)
  ]

  Each-insert_option :
      (k v : String) (m : Dict String String)
      → (IsGoodOption types) (k, v)
      → Each (IsGoodOption types) m
      → Each (IsGoodOption types) (insert_option k v m)
  unfolding insert_option
  Each-insert_option k v [] g h = (g, tt)
  Each-insert_option k v ((j, w) ∷ m) g h = elim (Bool-cases (k == j)) [
    | inl i ↦ rw i (subst (λ x. IsGoodOption types (x, v)) ((str_beq_iff k j).0 i) g, h.1)
    | inr i ↦ elim (Bool-cases (lt_string k j)) [
      | inl l ↦ rw (i, l) (g, h)
      | inr l ↦ rw (i, l) (h.0, Each-insert_option k v m g h.1)
    ]
  ]

  Each-erase_flag :
      (k : String) (fs : List String)
      → Each (IsGoodFlag types) fs
      → Each (IsGoodFlag types) (erase_flag k fs)
  unfolding erase_flag
  Each-erase_flag k [] h = h
  Each-erase_flag k (f ∷ fs) h = elim (Bool-cases (f == k)) [
    | inl i ↦ rw i h.1
    | inr i ↦ rw i (h.0, Each-erase_flag k fs h.1)
  ]

  pub keeps_flag :
      {c : Command} (k : String) (b : Bool)
      → has_flag k flag_keys ≡ true
      → IsAccepted types c
      → IsAccepted types (set_flag k b c)
  unfolding set_flag
  keeps_flag {c} k true h a = record {
    flags_good = elim (Bool-cases (has_flag k c.flags)) [
      | inl i ↦ rw i a.flags_good
      | inr i ↦
          rw i
            (Each-append (IsGoodFlag types) c.flags (k ∷ []) a.flags_good (good_flag types k h, tt))
    ];
    options_good = Each-erase k c.options a.options_good;
  }
  keeps_flag {c} k false h a = record {
    flags_good = Each-erase_flag k c.flags a.flags_good;
    options_good = Each-erase k c.options a.options_good;
  }

  pub keeps_option :
      {c : Command} (k v : String)
      → IsGoodOption types (k, v)
      → IsAccepted types c
      → IsAccepted types (set_option k v c)
  unfolding set_option
  keeps_option {c} k v g a = record {
    flags_good = Each-erase_flag k c.flags a.flags_good;
    options_good = elim (Bool-cases (v == "")) [
      | inl e ↦ rw e a.options_good
      | inr e ↦ rw e (Each-insert_option k v c.options g a.options_good)
    ];
  }

  pub keeps_text :
      {c : Command} (k v : String)
      → has_flag k text_keys ≡ true
      → HasNoSpace v
      → IsAccepted types c
      → IsAccepted types (set_option k v c)
  keeps_text k v h i = keeps_option k v (good_text types k v h i)

  pub keeps_if :
      {c : Command} (b : Bool) (f : Command → Command)
      → (b ≡ true → IsAccepted types c → IsAccepted types (f c))
      → IsAccepted types c
      → IsAccepted types (set_if b f c)
  keeps_if true f h a = h refl a
  keeps_if false f h a = a
