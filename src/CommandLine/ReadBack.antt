-- ===== src/CommandLine/ReadBack.antt =====
-- The options that the process reads are those that the server wrote.
use Prim.Native.Char.{Char}
use fts.Common.{
  Bool, Bool-cases, Dict, Each, List, Option, String, [], ap, arith, contains_char, drop_while,
  false, if◌then◌else◌, inl, inr, is_char, is_empty_text, map, none, not, refl, some, str_beq_iff,
  tail, take_while, true, ℕ, ◌&&◌, ◌++◌, ◌==◌, ◌||◌, ◌∙◌, ◌∷◌, ◌≡◌, string_key, nat_key,
}
use fts.CommandLine.Arguments.{
  Event, State, find_option, found, get_argv, option_name, read_arguments, read_named, read_option,
  with_argument,
}
use fts.CommandLine.Command.{Command, generate_parameters}
use fts.CommandLine.Known.{IsSendable, case_of, is_known, is_of_kind, val_of}
use fts.CommandLine.Table.{long_options}
use fts.CommandLine.Words.{HasNoSpace, dashed, get_argv-generate_parameters, option_words, words}

abbrev pub is_key_char : Char → Bool
is_key_char c = not (is_char b'=' c)

take_while_all : (s : String) → contains_char b'=' s ≡ false → take_while is_key_char s ≡ s
unfolding take_while contains_char
take_while_all String.[] h = refl
take_while_all (String.◌∷◌ c s) h = ground (arith, h, take_while_all s)

drop_while_all : (s : String) → contains_char b'=' s ≡ false → drop_while is_key_char s ≡ ""
unfolding drop_while contains_char
drop_while_all String.[] h = refl
drop_while_all (String.◌∷◌ c s) h = ground (arith, h, drop_while_all s)

-- What it means that a key is known.
record IsOption (required : Bool) (key : String) : Type 0 where
  in_table : find_option key long_options ≡ some (required, case_of key)
  no_space : contains_char b' ' key ≡ false
  no_equals : contains_char b'=' key ≡ false
  no_end : is_empty_text key ≡ false

kind_in_table :
    (required : Bool) (o : Option (Bool × ℕ))
    → is_of_kind required o ≡ true
    → o ≡ some (required, val_of o)
kind_in_table required none h = absurd (cc h)
kind_in_table true (some (true, val)) h = refl
kind_in_table true (some (false, val)) h = absurd (cc h)
kind_in_table false (some (true, val)) h = absurd (cc h)
kind_in_table false (some (false, val)) h = refl

and_parts :
    (b x y z : Bool)
    → (b && not (x || y || z)) ≡ true
    → (b ≡ true) × (x ≡ false) × (y ≡ false) × (z ≡ false)
and_parts true false false false h = (refl, refl, refl, refl)
and_parts true false false true h = absurd (cc h)
and_parts true false true z h = absurd (cc h)
and_parts true true y z h = absurd (cc h)
and_parts false x y z h = absurd (cc h)

is_known-IsOption :
    (required : Bool) (key : String) → is_known required key ≡ true → IsOption required key
unfolding is_known case_of
is_known-IsOption required key h =
    let (kind, space, equals, end) =
      and_parts (is_of_kind required (find_option key long_options)) (contains_char b' ' key)
        (contains_char b'=' key) (is_empty_text key) h in
    record {
      in_table = kind_in_table required (find_option key long_options) kind;
      no_space = space;
      no_equals = equals;
      no_end = end;
    }

dashed-ne : (key : String) → is_empty_text key ≡ false → (dashed key == "--") ≡ false
dashed-ne key h = elim (Bool-cases (dashed key == "--")) [
  | inl e ↦
      absurd (cc (h, ap (λ s. is_empty_text (tail (tail s))) ((str_beq_iff (dashed key) "--").0 e)))
  | inr e ↦ e
]

abbrev pub flag_event : String → Event
flag_event f = found (case_of f) ""

abbrev pub option_event : String × String → Event
option_event (k, v) = found (case_of k) v

read_named-some :
    (required : Bool) (key : String)
    → IsOption required key
    → read_named long_options (some key) ≡ with_argument (some (required, case_of key)) ""
read_named-some required key o =
    rw (take_while_all key o.no_equals, drop_while_all key o.no_equals, o.in_table) refl

option_name-dashed :
    (key : String) → is_empty_text key ≡ false → option_name (dashed key) ≡ some key
option_name-dashed key h = refl

read_option-dashed :
    (required : Bool) (key : String)
    → IsOption required key
    → read_option long_options (dashed key) ≡ with_argument (some (required, case_of key)) ""
unfolding read_option
read_option-dashed required key o =
    ap (read_named long_options) (option_name-dashed key o.no_end) ∙ read_named-some required key o

after_word : List Event × State → Bool → (State → List Event) → List Event
after_word (events, state) ends more = if ends then [] else events ++ more state

read_arguments-cons :
    (s : String) (rest : List String)
    → read_arguments long_options none (s ∷ rest)
      ≡ after_word
          (read_option long_options s)
          (s == "--")
          (λ state. read_arguments long_options state rest)
unfolding read_arguments after_word
read_arguments-cons s rest = refl

read_arguments-dashed :
    (required : Bool) (key : String) (rest : List String)
    → IsOption required key
    → read_arguments long_options none (dashed key ∷ rest)
      ≡ after_word
          (with_argument (some (required, case_of key)) "")
          false
          (λ state. read_arguments long_options state rest)
read_arguments-dashed required key rest o =
    read_arguments-cons (dashed key) rest
    ∙ ap (λ r. after_word r (dashed key == "--") (λ state. read_arguments long_options state rest))
        (read_option-dashed required key o)
    ∙ ap
        (λ b.
          after_word (with_argument (some (required, case_of key)) "") b
            (λ state. read_arguments long_options state rest))
        (dashed-ne key o.no_end)

read_flags :
    (fs rest : List String)
    → Each (λ f. is_known false f ≡ true) fs
    → read_arguments long_options none (map dashed fs ++ rest)
      ≡ map flag_event fs ++ read_arguments long_options none rest
unfolding after_word read_arguments
read_flags [] rest h = refl
read_flags (f ∷ fs) rest h =
    read_arguments-dashed false f (map dashed fs ++ rest) (is_known-IsOption false f h.0)
    ∙ ap (◌∷◌ (flag_event f)) (read_flags fs rest h.1)

read_options :
    (m : Dict String String)
    → Each (λ e. (is_known true e.0 ≡ true) × HasNoSpace e.1) m
    → read_arguments long_options none (option_words m) ≡ map option_event m
unfolding read_arguments after_word
read_options [] h = refl
read_options ((k, v) ∷ m) h =
    read_arguments-dashed true k (v ∷ option_words m) (is_known-IsOption true k h.0.0)
    ∙ ap (◌∷◌ (option_event (k, v))) (read_options m h.1)

-- The words of flags and options have no space.
words_no_space :
    (fs : List String) (m : Dict String String)
    → Each (λ f. is_known false f ≡ true) fs
    → Each (λ e. (is_known true e.0 ≡ true) × HasNoSpace e.1) m
    → Each HasNoSpace (map dashed fs ++ option_words m)
unfolding contains_char
words_no_space [] [] h k = tt
words_no_space [] ((key, v) ∷ m) h k =
    ((is_known-IsOption true key k.0.0).no_space, (k.0.1, words_no_space [] m h k.1))
words_no_space (f ∷ fs) m h k =
    ((is_known-IsOption false f h.0).no_space, words_no_space fs m h.1 k)

read_arguments-empty :
    (rest : List String)
    → read_arguments long_options none ("" ∷ rest) ≡ read_arguments long_options none rest
unfolding read_arguments read_option
read_arguments-empty rest = refl

-- The process is given exactly the flags of a command that can be sent, in their order, and then its
-- options with their values.
pub read_arguments-get_argv :
    (c : Command)
    → IsSendable c
    → read_arguments long_options none (get_argv (generate_parameters c))
      ≡ map flag_event c.flags ++ map option_event c.options
read_arguments-get_argv c h =
    ap (read_arguments long_options none) (
      get_argv-generate_parameters c
        (words_no_space c.flags c.options h.flags_known h.options_known))
    ∙ read_arguments-empty (words c)
    ∙ read_flags c.flags (option_words c.options) h.flags_known
    ∙ ap (◌++◌ (map flag_event c.flags)) (read_options c.options h.options_known)
