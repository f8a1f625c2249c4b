-- ===== src/Config/Tests.antt =====
-- A request that fails once.
use wetland.Prelude.{codes, [], ◌∷◌, ◌++◌, ◌≡◌, refl}
use wetland.Config.{failed, reply, found, reqpubip}
use wetland.Config.Laws.{reqpubip_found}

reqpubip_found_example :
    reqpubip (failed ∷ reply (codes "OK" ++ 13 ∷ 10 ∷ codes "1.2.3.4\n") (codes "10.0.0.2") ∷ [])
    ≡ found (codes "1.2.3.4") (codes "10.0.0.2")
reqpubip_found_example =
    reqpubip_found 1 (codes "OK") (codes "1.2.3.4") [] (codes "10.0.0.2") []
      (refl, (refl, (refl, (refl, (refl, (refl, (refl, (refl, tt))))))))
      (refl, (refl, (refl, (refl, (refl, (refl, (refl, tt)))))))
