-- ===== src/MsgBuf/Tests.antt =====
-- Buffers at small sizes.
use sharegres.Base.{◌+◌, ◌*◌, ◌≤◌, ◌<◌, ◌≡◌, ◌⊎◌, refl, some, arith}
use sharegres.Base.Bytes.{codes}
use sharegres.MsgBuf.Growth.{ensure_room, IsValid}
use sharegres.MsgBuf.Words.{read_all-written, read_all, written}
use sharegres.MsgBuf.{MsgBuf, ensure, len}

abbrev full : MsgBuf
full = record { bytes = codes "abcd"; cap = 4; pos = 0 }

abbrev full-IsValid : IsValid full
full-IsValid = record { allocated = omega arith; within = omega arith }

-- Four bytes of capacity double to 16 for nine bytes.
ensure-full : ensure full 5 ≡ record { bytes = codes "abcd"; cap = 16; pos = 0 }
unfolding ensure
ensure-full = refl

ensure_room_example :
    ((ensure full 5).bytes ≡ full.bytes)
    × ((ensure full 5).pos ≡ full.pos)
    × (len full + 5 ≤ (ensure full 5).cap)
    × (((ensure full 5).cap ≡ full.cap) ⊎ ((ensure full 5).cap < 2 * (len full + 5)))
ensure_room_example = ensure_room full 5 full-IsValid (omega arith)

abbrev at_end : MsgBuf
at_end = record { bytes = codes "ab"; cap = 4; pos = 2 }

read_all-written_example :
    read_all (written at_end 7 1000 100000 (codes "ok")) ≡ some (7, 1000, 100000, codes "ok")
read_all-written_example =
    read_all-written at_end 7 1000 100000 (codes "ok") refl (omega arith) (omega arith)
      (omega arith, (omega arith, tt))
