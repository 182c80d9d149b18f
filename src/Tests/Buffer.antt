-- ===== src/Tests/Buffer.antt =====
-- The operations of src/buffer.c on a buffer that holds two bytes.
use tpe_socks.Prelude.{[], ◌∷◌, arith}
use tpe_socks.Buffer.{Buffer}
use tpe_socks.Buffer.Inv.{IsValid, IsOrdered}

-- 8 and 9 between room for one byte before and one behind them.
abbrev pub two_bytes : Buffer
two_bytes = record { bytes = 7 ∷ 8 ∷ 9 ∷ 0 ∷ []; limit = 4; read = 1; write = 3 }

pub two_bytes-IsValid : IsValid two_bytes
two_bytes-IsValid = ground arith

pub two_bytes-IsOrdered : IsOrdered two_bytes
two_bytes-IsOrdered = ground arith
