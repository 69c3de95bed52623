-- ===== src/Sha1/Tests.antt =====
-- Known digests.
use udp_secure_transfer.Prelude.{[], ◌∷◌, ◌≡◌, refl, codes}
use udp_secure_transfer.Sha1.{sha1}
use udp_secure_transfer.Sha1.Transform.{sha1_transform}

sha1_abc :
    sha1 (codes "abc")
    ≡ 0xa9 ∷ 0x99 ∷ 0x3e ∷ 0x36 ∷ 0x47 ∷ 0x06 ∷ 0x81 ∷ 0x6a ∷ 0xba ∷ 0x3e ∷ 0x25 ∷ 0x71 ∷ 0x78
      ∷ 0x50 ∷ 0xc2 ∷ 0x6c ∷ 0x9c ∷ 0xd0 ∷ 0xd8 ∷ 0x9d ∷ []
unfolding sha1 sha1_transform
sha1_abc = refl
