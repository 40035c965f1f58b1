-- ===== src/Util/InternetChecksum/Tests.antt =====
-- The witness of the theorem on the checksum: an odd number of bytes, with carries.
use tcp_lab.Base.{◌≡◌, ◌-◌, [], ◌∷◌, arith}
use tcp_lab.Util.InternetChecksum.{new, add, value}
use tcp_lab.Util.InternetChecksum.Laws.{words}
use tcp_lab.Util.InternetChecksum.OnesComplement.{ones_sum, value-ones_sum}

value-ones_sum_example :
    value (add (new 0xfff0) (0xff ∷ 0xff ∷ 0x80 ∷ 0x01 ∷ 0xc0 ∷ []))
    ≡ 0xffff - ones_sum 0xfff0 (0xff ∷ 0xff ∷ 0x80 ∷ 0x01 ∷ 0xc0 ∷ [])
unfolding words
value-ones_sum_example =
    value-ones_sum 0xfff0 (0xff ∷ 0xff ∷ 0x80 ∷ 0x01 ∷ 0xc0 ∷ []) (omega arith) (omega arith)
      (omega arith)
