-- ===== src/Prelude/Codes.antt =====
-- storage/status.h: the code of a `Status`. Messages are kept only where the program reads them.
use mathlib.Core.Bool.{Bool, true, false}

-- `StatusCode`
pub data Status : Type 0 where
  ok not_found timed_out conflict io_error invalid_argument not_supported : Status

-- `Status::ok`
abbrev pub is_ok : Status → Bool
is_ok ok = true
is_ok _ = false
