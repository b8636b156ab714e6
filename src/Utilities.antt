-- ===== src/Utilities.antt =====
-- utils/utilities.c: C strings, their comparison and their hash. A C string is the list of its
-- bytes before the NUL.
pub mod Flags
pub mod Strings
pub mod Host
pub mod Numbers
pub mod Tokens
pub mod Paths
pub mod Waits
pub mod Writes
use Prim.Native.Nat.{bit_and, bit_xor}
use file_storage_server.Base.{
  ℕ, ◌+◌, ◌*◌, ◌/◌, ◌%◌, ◌^◌, ◌-◌, Bool, true, false, List, [], ◌∷◌, ltb, ◌==◌, if◌then◌else◌, ◌&&◌,
}

abbrev pub CString : Type 0
CString = List ℕ

unfoldable pub string_compare : CString → CString → Bool
string_compare [] [] = true
string_compare [] (b ∷ bs) = false
string_compare (a ∷ cs) [] = false
string_compare (a ∷ cs) (b ∷ bs) = a == b && string_compare cs bs

-- ONE_EIGHTH is 4, THREE_QUARTERS is 24 and HIGH_BITS is 0xf0000000 for a 32-bit int. A `size_t`
-- has 64 bits, and a `char` is signed: a byte from 128 on adds its value less 256.
abbrev pub size_mod : ℕ
size_mod = 2 ^ 64

pub signed_char : ℕ → ℕ
signed_char c = if ltb c 128 then c else c + size_mod - 256

pub hash_step : ℕ → ℕ → ℕ
unfolding signed_char
hash_step hash_value datum =
    let shifted = (hash_value * 2 ^ 4 % size_mod + signed_char datum) % size_mod in
    let i = bit_and shifted 0xf0000000 in
    if i == 0 then shifted else bit_and (bit_xor shifted (i / 2 ^ 24)) 0x0fffffff

pub hash_loop : ℕ → CString → ℕ
unfolding hash_step
hash_loop hash_value [] = hash_value
hash_loop hash_value (datum ∷ rest) = hash_loop (hash_step hash_value datum) rest

unfoldable pub string_hash : CString → ℕ
unfolding hash_loop
string_hash key = hash_loop 0 key
