-- ===== src/CommandLine/Words.antt =====
-- The arguments that a command comes to: its text splits into the words that it was built from.
use fts.Common.{
  Dict, Each, List, String, [], ap, concat, contains_char, false, map, refl, split_at,
  split_at-append, split_at_last, ◌++◌, ◌∙◌, ◌∷◌, ◌≡◌, string_key, nat_key,
}
use fts.CommandLine.Arguments.{get_argv}
use fts.CommandLine.Command.{Command, flags_text, generate_parameters, options_text}

abbrev pub dashed : String → String
dashed key = concat "--" key

abbrev pub option_words : Dict String String → List String
option_words [] = []
option_words ((k, v) ∷ m) = dashed k ∷ v ∷ option_words m

abbrev pub words : Command → List String
words c = map dashed c.flags ++ option_words c.options

-- Each word behind a space.
spaced : List String → String
spaced [] = ""
spaced (w ∷ ws) = concat " " (concat w (spaced ws))

flags_text-spaced : (fs ws : List String) → flags_text fs (spaced ws) ≡ spaced (map dashed fs ++ ws)
unfolding flags_text spaced
flags_text-spaced [] ws = refl
flags_text-spaced (f ∷ fs) ws = ap (λ t. concat " --" (concat f t)) (flags_text-spaced fs ws)

options_text-spaced : (m : Dict String String) → options_text m ≡ spaced (option_words m)
unfolding options_text spaced
options_text-spaced [] = refl
options_text-spaced ((k, v) ∷ m) =
    ap (λ t. concat " --" (concat k (concat " " (concat v t)))) (options_text-spaced m)

concat-nil : (s : String) → concat s "" ≡ s
concat-nil String.[] = refl
concat-nil (String.◌∷◌ c s) = ap (λ t. String.◌∷◌ c t) (concat-nil s)

abbrev pub HasNoSpace : String → Type 0
HasNoSpace s = contains_char b' ' s ≡ false

split_at-spaced :
    (w : String) (ws : List String)
    → HasNoSpace w
    → Each HasNoSpace ws
    → split_at b' ' (concat w (spaced ws)) ≡ w ∷ ws
unfolding spaced
split_at-spaced w [] h hs = rw (concat-nil w) (split_at_last b' ' w h)
split_at-spaced w (v ∷ ws) h hs =
    split_at-append b' ' " " w (concat v (spaced ws)) refl h
    ∙ ap (◌∷◌ w) (split_at-spaced v ws hs.0 hs.1)

-- An empty word, and then the words of the command.
pub get_argv-generate_parameters :
    (c : Command) → Each HasNoSpace (words c) → get_argv (generate_parameters c) ≡ "" ∷ words c
unfolding get_argv generate_parameters
get_argv-generate_parameters c h =
    ap (λ t. split_at b' ' (flags_text c.flags t)) (options_text-spaced c.options)
    ∙ ap (split_at b' ') (flags_text-spaced c.flags (option_words c.options))
    ∙ split_at-spaced "" (words c) (unfold contains_char in refl) h
