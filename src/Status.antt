-- ===== src/Status.antt =====
-- `BVStatus` (include/BV.hpp).
use local_chat_xxx.Common.{Bool, true, false}

pub data Status : Type 0 where
  ok nok in_progress fatal_error dead max_components : Status

unfoldable pub is_ok : Status → Bool
is_ok ok = true
is_ok _ = false
