-- ===== src/Replacement.antt =====
-- ChampSim/replacement: the policies that choose which way of a cache set is replaced. The arguments
-- that a policy does not read are left out.
pub mod Lru
pub mod Srrip
pub mod Raise
pub mod Drrip
pub mod Ship
mod Tests
use cs230_branch_predictor.Prelude.{Bool, true, false}

-- ChampSim/inc/access_type.h: `access_type`
pub data AccessType : Type 0 where
  load rfo prefetch write translation : AccessType

abbrev pub is_write : AccessType → Bool
is_write load = false
is_write rfo = false
is_write prefetch = false
is_write write = true
is_write translation = false
