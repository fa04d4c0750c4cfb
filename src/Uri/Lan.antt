-- ===== src/Uri/Lan.antt =====
-- `isLanTransfer` of common/Uri.cpp.
use Prim.Native.Char.{code}
use Prim.Native.String.{String}
use fts.Common.{
  Bool, arith, if◌then◌else◌, str_beq_iff, true, ◌==◌, ◌↔◌, ◌≡◌, ◌⊎◌, string_key, nat_key,
}

-- The text from its first dot on, or nothing: the domain of a host name.
unfoldable pub domain : String → String
domain String.[] = ""
domain (String.◌∷◌ c s) = if code c == b'.' then String.◌∷◌ c s else domain s

unfoldable pub is_lan_transfer : String → String → Bool
is_lan_transfer source dest = if source == dest then true else domain source == domain dest

-- A transfer is local exactly when the two hosts, or the two domains, are the same.
pub is_lan_transfer_iff :
    (source dest : String)
    → (is_lan_transfer source dest ≡ true) ↔ ((source ≡ dest) ⊎ (domain source ≡ domain dest))
unfolding is_lan_transfer
is_lan_transfer_iff source dest =
    ground (arith, str_beq_iff source dest, str_beq_iff (domain source) (domain dest))
