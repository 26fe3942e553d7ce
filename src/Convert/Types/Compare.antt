-- ===== src/Convert/Types/Compare.antt =====
-- The comparison of texts is equality.
use duckdb_engine.Prelude.{true, Bytes, [], ◌∷◌, ==_refl, ◌≡◌, refl, arith}
use duckdb_engine.Convert.Types.{same_bytes}

pub same_bytes_refl : (s : Bytes) → same_bytes s s ≡ true
unfolding same_bytes
same_bytes_refl [] = refl
same_bytes_refl (c ∷ s) = rw (==_refl, same_bytes_refl s) refl

pub same_bytes-eq : (s t : Bytes) → same_bytes s t ≡ true → s ≡ t
unfolding same_bytes
same_bytes-eq [] [] h = refl
same_bytes-eq [] (d ∷ t) h = cc
same_bytes-eq (c ∷ s) [] h = cc
same_bytes-eq (c ∷ s) (d ∷ t) h = ground (arith, same_bytes-eq s t)
