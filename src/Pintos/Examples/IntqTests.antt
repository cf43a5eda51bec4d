-- ===== src/Pintos/Examples/IntqTests.antt =====
-- The circular buffer at concrete inputs.
use group.Shared.{◌≡◌, refl, some, [], ◌∷◌, replicate, arith}
use group.Pintos.Intq.{Intq, init, signal, getc_round, putc_round}
use group.Pintos.Intq.Ring.{Holds, init_lem, putc_round-Holds, getc_round-Holds}
use group.Pintos.Examples.ThreadTests.{kernel}

abbrev fresh : Intq
fresh = init (replicate 64 0)

fresh-Holds : Holds fresh []
fresh-Holds = init_lem (replicate 64 0) refl

abbrev with_byte : Intq
with_byte = (putc_round kernel fresh 7).2

with_byte-Holds : Holds with_byte (7 ∷ [])
with_byte-Holds = ((putc_round-Holds kernel fresh [] 7 fresh-Holds).0 (omega arith)).2

getc_round-Holds_example :
    ((getc_round kernel with_byte).0 ≡ some 7)
    × ((getc_round kernel with_byte).1 ≡ signal kernel with_byte.not_full)
    × Holds (getc_round kernel with_byte).2 []
getc_round-Holds_example = getc_round-Holds kernel with_byte 7 [] with_byte-Holds
