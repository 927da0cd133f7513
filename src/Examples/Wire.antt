-- ===== src/Examples/Wire.antt =====
-- Checksums and loads.
use netd_moduos.Common.{◌/◌, ◌%◌, ◌≡◌, refl, [], ◌∷◌, ◌++◌, arith}
use netd_moduos.Wire.Cksum.{inet_cksum}
use netd_moduos.Wire.Cksum.Laws.{inet_cksum-verifies}

inet_cksum-verifies_example :
    let c = inet_cksum ((8 ∷ 0 ∷ []) ++ 0 ∷ 0 ∷ (1 ∷ 2 ∷ 3 ∷ [])) in
    inet_cksum ((8 ∷ 0 ∷ []) ++ (c / 256) ∷ (c % 256) ∷ (1 ∷ 2 ∷ 3 ∷ [])) ≡ 0
inet_cksum-verifies_example =
    inet_cksum-verifies (8 ∷ 0 ∷ []) (1 ∷ 2 ∷ 3 ∷ []) (omega arith, (omega arith, tt))
      (omega arith, (omega arith, (omega arith, tt))) refl (omega arith)
