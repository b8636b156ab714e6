-- ===== src/Utilities/Strings.antt =====
-- `string_compare` decides equality of C strings.
use file_storage_server.Base.{◌≡◌, refl, true, [], ◌∷◌, arith}
use file_storage_server.Utilities.{CString, string_compare}

pub string_compare_refl : (a : CString) → string_compare a a ≡ true
unfolding string_compare
string_compare_refl [] = refl
string_compare_refl (x ∷ xs) = ground (arith, string_compare_refl xs)

pub eq_of_string_compare : (a b : CString) → string_compare a b ≡ true → a ≡ b
unfolding string_compare
eq_of_string_compare [] [] h = refl
eq_of_string_compare [] (b ∷ bs) h = cc
eq_of_string_compare (a ∷ cs) [] h = cc
eq_of_string_compare (a ∷ cs) (b ∷ bs) h = ground (arith, eq_of_string_compare cs bs)
