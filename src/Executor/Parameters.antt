-- ===== src/Executor/Parameters.antt =====
-- The numbers of the parameters are not above the type `int`.
use text.Mathlib.Text.{starts_with}
use fts.Common.{
  Bool, Bool-cases, List, Option, String, [], arith, begins, below, cast_signed, drop_chars, false,
  if◌then◌else◌, inl, inr, ltb, negated, none, pos, read_nat, some, split_at, suc, tail, true, zero,
  ℕ, ℤ, ◌==◌, ◌^◌, ◌∷◌, string_key, nat_key,
}
use fts.CommandLine.Types.{ProtocolParameters, TransferFile}
use fts.CommandLine.Words.{words}
use fts.Executor.Build.{map_option, or_defaults, parameters_of}
use fts.Executor.Numbers.{IsInt}
use fts.Executor.Protocol.{
  default_parameters, protocol_parameters, set_parameter, set_parameters, with_int,
}
use fts.Executor.Settings.{LinkSettings}
use fts.Executor.Steps.{IsPlainLink}

abbrev pub IfSome {ℓ κ} : {A : Type ℓ} → (A → Type κ) → Option A → Type κ
IfSome P none = Unit
IfSome P (some a) = P a

abbrev pub IsIntParameters : ProtocolParameters → Type 0
IsIntParameters p = IsInt p.nostreams × IsInt p.timeout × IsInt p.buffersize

IfSome-if {ℓ κ} :
    {A : Type ℓ} (P : A → Type κ) (b : Bool) (x y : Option A)
    → IfSome P x
    → IfSome P y
    → IfSome P (if b then x else y)
IfSome-if P true x y h k = h
IfSome-if P false x y h k = k

IsInt-below : (o : Option ℕ) → IfSome IsInt (below (2 ^ 31) (λ n. pos n) o)
IsInt-below none = tt
IsInt-below (some n) = elim (Bool-cases (ltb n (2 ^ 31))) [
  | inl e ↦ rw e (ground (arith, e))
  | inr e ↦ rw e tt
]

IsInt-negated : (n : ℕ) → IsInt (negated n)
IsInt-negated zero = ground arith
IsInt-negated (suc n) = ground arith

IsInt-below-negated : (o : Option ℕ) → IfSome IsInt (below (suc (2 ^ 31)) negated o)
IsInt-below-negated none = tt
IsInt-below-negated (some n) =
    IfSome-if IsInt (ltb n (suc (2 ^ 31))) (some (negated n)) none (IsInt-negated n) tt

cast_signed-IsInt : (s : String) → IfSome IsInt (cast_signed s)
unfolding cast_signed
cast_signed-IsInt s =
    IfSome-if IsInt (begins b'-' s) (below (suc (2 ^ 31)) negated (read_nat (tail s)))
      (below (2 ^ 31) (λ n. pos n) (read_nat (if begins b'+' s then tail s else s)))
      (IsInt-below-negated (read_nat (tail s)))
      (IsInt-below (read_nat (if begins b'+' s then tail s else s)))

IfSome-with_int :
    (o : Option ℤ) (f : ℤ → ProtocolParameters)
    → IfSome IsInt o
    → ((v : ℤ) → IsInt v → IsIntParameters (f v))
    → IfSome IsIntParameters (with_int o f)
IfSome-with_int none f h k = tt
IfSome-with_int (some v) f h k = k v h

set_parameter-IsIntParameters :
    (word : String) (p : ProtocolParameters)
    → IsIntParameters p
    → IfSome IsIntParameters (set_parameter word p)
unfolding set_parameter
set_parameter-IsIntParameters word p h = elim (Bool-cases (starts_with word "nostreams:")) [
  | inl e ↦ rw e (
      IfSome-with_int (cast_signed (drop_chars 10 word)) (λ n. record p { nostreams = n })
        (cast_signed-IsInt (drop_chars 10 word)) (λ v i. (i, h.1, h.2)))
  | inr e ↦ rw e (elim (Bool-cases (starts_with word "timeout:")) [
    | inl e ↦ rw e (
        IfSome-with_int (cast_signed (drop_chars 8 word)) (λ n. record p { timeout = n })
          (cast_signed-IsInt (drop_chars 8 word)) (λ v i. (h.0, i, h.2)))
    | inr e ↦ rw e (elim (Bool-cases (starts_with word "buffersize:")) [
      | inl e ↦ rw e (
          IfSome-with_int (cast_signed (drop_chars 11 word)) (λ n. record p { buffersize = n })
            (cast_signed-IsInt (drop_chars 11 word)) (λ v i. (h.0, h.1, i)))
      | inr e ↦ rw e (elim (Bool-cases (word == "strict")) [
        | inl e ↦ rw e (h)
        | inr e ↦ rw e (elim (Bool-cases (word == "ipv4")) [
          | inl e ↦ rw e (h)
          | inr e ↦ rw e (elim (Bool-cases (word == "ipv6")) [
            | inl e ↦ rw e (h)
            | inr e ↦
                rw e (elim (Bool-cases (word == "s3alternate")) [
                  | inl e ↦ rw e (h)
                  | inr e ↦ rw e (h)
                ])
          ])
        ])
      ])
    ])
  ])
]

IfSome-set_parameters :
    (words : List String) (p : ProtocolParameters)
    → IsIntParameters p
    → IfSome IsIntParameters (set_parameters words p)
unfolding set_parameters
IfSome-set_parameters [] p h = h
IfSome-set_parameters (word ∷ words) p h =
    go (set_parameter word p) (set_parameter-IsIntParameters word p h) (IfSome-set_parameters words)
  where
    go :
        (o : Option ProtocolParameters)
        → IfSome IsIntParameters o
        → ((q : ProtocolParameters)
            → IsIntParameters q
            → IfSome IsIntParameters (set_parameters words q))
        → IfSome IsIntParameters (elim o [ none ↦ none | some q ↦ set_parameters words q ])
    go none h rest = tt
    go (some q) h rest = rest q h

IfSome-map_option {ℓ κ κ'} :
    {A : Type ℓ} (P : A → Type κ) (Q : A → Type κ') (f : A → A) (o : Option A)
    → ((a : A) → P a → Q (f a))
    → IfSome P o
    → IfSome Q (map_option f o)
IfSome-map_option P Q f none k h = tt
IfSome-map_option P Q f (some a) k h = k a h

or_defaults-IsIntParameters :
    (l : LinkSettings) (t : TransferFile) (p : ProtocolParameters)
    → IsPlainLink l
    → IsIntParameters p
    → IsIntParameters (or_defaults l t p)
or_defaults-IsIntParameters l t p hl h = elim (Bool-cases (t.internal_file_params == "")) [
  | inl e ↦ rw e (hl.streams_int, hl.timeout_int, h.2)
  | inr e ↦ rw e h
]

-- The numbers of the parameters are below 2^31, wherever they come from.
pub parameters_of-IsIntParameters :
    (l : LinkSettings) (t : TransferFile)
    → IsPlainLink l
    → IfSome IsIntParameters (parameters_of l t)
unfolding parameters_of protocol_parameters default_parameters
parameters_of-IsIntParameters l t hl =
    IfSome-map_option IsIntParameters IsIntParameters (or_defaults l t)
      (set_parameters (split_at b',' t.internal_file_params) default_parameters)
      (λ p. or_defaults-IsIntParameters l t p hl)
      (IfSome-set_parameters (split_at b',' t.internal_file_params) default_parameters
        (ground arith, ground arith, ground arith))
