-- ===== src/Protocol/Bytes.antt =====
-- Integers and buffers through memory.
use file_storage_server.Base.{
  ℕ, zero, suc, ◌/◌, ◌^◌, ◌<◌, ◌≡◌, refl, ap, List, [], ◌∷◌, arith, length,
}
use file_storage_server.Protocol.{to_bytes, of_bytes, fill}
use native.Mathlib.Nat.{pow-suc}

pub length-to_bytes : (k n : ℕ) → length (to_bytes k n) ≡ k
unfolding to_bytes
length-to_bytes zero n = refl
length-to_bytes (suc k) n = ap suc (length-to_bytes k (n / 256))

pub of-to_bytes : (k n : ℕ) → n < 256 ^ k → of_bytes (to_bytes k n) ≡ n
unfolding to_bytes of_bytes
of-to_bytes zero n h = omega arith
of-to_bytes (suc k) n h = omega (arith, of-to_bytes k (n / 256) (omega (arith, pow-suc 256 k)))

pub fill-length : (xs : List ℕ) → fill (length xs) xs ≡ xs
unfolding fill
fill-length [] = refl
fill-length (x ∷ xs) = ap (λ t. x ∷ t) (fill-length xs)
