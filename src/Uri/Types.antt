-- ===== src/Uri/Types.antt =====
-- The class `Uri` of common/Uri.h.
use fts.Common.{String, ℕ}

pub record Uri : Type 0 where
  pub full_uri : String
  pub query_string : String
  pub path : String
  pub protocol : String
  pub host : String
  pub port : ℕ
