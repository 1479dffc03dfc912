-- ===== src/Sha256/Stream.antt =====
-- The stream takes its input in pieces of any size.
use secure_boot_loader_with.Base.{◌≡◌, refl, ℕ, List, [], ◌∷◌, ◌++◌}
use secure_boot_loader_with.Sha256.{Context, update_byte, sha256_update}

-- Two updates are one update with both pieces, so the chunked loops over flash hash the whole
-- image.
pub sha256_update-append :
    (ctx : Context) (xs ys : List ℕ)
    → sha256_update ctx (xs ++ ys) ≡ sha256_update (sha256_update ctx xs) ys
unfolding sha256_update
sha256_update-append ctx [] ys = refl
sha256_update-append ctx (x ∷ xs) ys = sha256_update-append (update_byte ctx x) xs ys
