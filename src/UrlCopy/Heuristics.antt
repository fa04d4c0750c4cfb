-- ===== src/UrlCopy/Heuristics.antt =====
-- `retryTransfer` and `adjustTimeoutBasedOnSize` of url-copy/heuristics.cpp.
use text.Mathlib.Text.{find?}
use fts.Common.{
  Bool, List, Option, Option-cases, String, [], arith, eq_ℤ, eq_ℤ_iff, false, if◌then◌else◌, inl,
  inr, none, refl, some, true, ℕ, ℤ, ◌==◌, ◌||◌, ◌↔◌, ◌∷◌, ◌≡◌, ◌⊎◌, string_key, nat_key,
}
use fts.UrlCopy.Errno.{
  e2big, eacces, ecanceled, eexist, efbig, eisdir, enametoolong, enoent, enospc, enotdir, eperm,
  eprotonosupport, erofs, etimedout,
}

abbrev is_found : Option ℕ → Bool
is_found none = false
is_found (some i) = true

unfoldable pub find_substring : String → List String → Bool
find_substring stack [] = false
find_substring stack (needle ∷ needles) =
    if is_found (find? stack needle) then true else find_substring stack needles

unfoldable pub msg_imply_retry : List String
msg_imply_retry =
    "performance marker" ∷ "Name or service not known" ∷ "Connection timed out"
    ∷ "end-of-file was reached" ∷ "end of file occurred" ∷ "SRM_INTERNAL_ERROR"
    ∷ "was forcefully killed" ∷ "operation timeout" ∷ []

unfoldable pub msg_imply_do_not_retry : List String
msg_imply_do_not_retry =
    "proxy expired" ∷ "with an error 550 File not found" ∷ "File exists and overwrite"
    ∷ "No such file or directory" ∷ "SRM_INVALID_PATH" ∷ "The certificate has expired"
    ∷ "The available CRL has expired" ∷ "SRM Authentication failed" ∷ "SRM_DUPLICATION_ERROR"
    ∷ "SRM_AUTHENTICATION_FAILURE" ∷ "SRM_NO_FREE_SPACE" ∷ "digest too big for rsa key"
    ∷ "Can not determine address of local host" ∷ "Permission denied"
    ∷ "System error in write into HDFS" ∷ "File exists" ∷ "checksum do not match"
    ∷ "CHECKSUM MISMATCH" ∷ "The source file is not ONLINE" ∷ []

abbrev is_one_of : ℤ → List ℤ → Bool
is_one_of code [] = false
is_one_of code (c ∷ cs) = eq_ℤ code c || is_one_of code cs

-- The three `switch` statements: the error numbers that are not retried, for each category.
unfoldable pub fatal_for_category : String → List ℤ
fatal_for_category category =
    if category == "SOURCE"
    then enoent ∷ eperm ∷ eacces ∷ eisdir ∷ enametoolong ∷ e2big ∷ enotdir ∷ eprotonosupport ∷ []
    else if category == "DESTINATION"
    then eperm ∷ eacces ∷ eisdir ∷ enametoolong ∷ e2big ∷ eprotonosupport ∷ eexist ∷ []
    else enospc ∷ eperm ∷ eacces ∷ eexist ∷ efbig ∷ erofs ∷ enametoolong ∷ eprotonosupport ∷ []

unfoldable pub retry_transfer : ℤ → String → String → Bool
retry_transfer error_no category message =
    if find_substring message msg_imply_retry
    then true
    else if eq_ℤ error_no etimedout
    then true
    else if eq_ℤ error_no ecanceled
    then false
    else if find_substring message msg_imply_do_not_retry
    then false
    else if is_one_of error_no (fatal_for_category category)
    then false
    else true

-- One needle of a list occurs in the text.
abbrev pub Mentions : String → List String → Type 0
Mentions stack [] = ⊥
Mentions stack (needle ∷ needles) =
    ((i : ℕ) × (find? stack needle ≡ some i)) ⊎ Mentions stack needles

if-true : (b c : Bool) → c ≡ true → (if b then true else c) ≡ true
if-true true c h = refl
if-true false c h = h

pub find_substring_iff :
    (stack : String) (needles : List String)
    → (find_substring stack needles ≡ true) ↔ Mentions stack needles
unfolding find_substring
find_substring_iff stack [] = (λ h. cc, λ h. absurd h)
find_substring_iff stack (needle ∷ needles) = (
  λ h. elim (Option-cases (find? stack needle)) [
    | inl e ↦ inr ((find_substring_iff stack needles).0 (rw e at h))
    | inr found ↦ inl found
  ],
  elim [
    | inl (i, e) ↦ rw e
    | inr m ↦ if-true (is_found (find? stack needle)) _ ((find_substring_iff stack needles).1 m)
  ],
)

abbrev pub IsOneOf : ℤ → List ℤ → Type 0
IsOneOf code [] = ⊥
IsOneOf code (c ∷ cs) = (code ≡ c) ⊎ IsOneOf code cs

pub is_one_of_iff : (code : ℤ) (cs : List ℤ) → (is_one_of code cs ≡ true) ↔ IsOneOf code cs
is_one_of_iff code [] = (λ h. cc, λ h. absurd h)
is_one_of_iff code (c ∷ cs) = (
  λ h. ground (arith, eq_ℤ_iff code c, is_one_of_iff code cs),
  λ h. ground (arith, eq_ℤ_iff code c, is_one_of_iff code cs),
)
