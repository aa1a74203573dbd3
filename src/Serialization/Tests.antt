-- ===== src/Serialization/Tests.antt =====
-- The theorems on the serialization at concrete buffers.
use libmw_core.Common.{◌+◌, ◌≤◌, ◌<◌, ◌≡◌, arith, [], ◌∷◌, ◌++◌, length, u64_mod}
use libmw_core.Exceptions.{ok, err, undefined, deserialization_exception}
use libmw_core.Util.EndianUtil.{to_memory, le_bytes, is_big_endian}
use libmw_core.Samples.{little_endian}
use libmw_core.Serialization.{Deserializer, append_int, append_string, read_var_str, read_vector}
use libmw_core.Serialization.RoundTrip.{standing, read_var_str-append_string}
use libmw_core.Serialization.Outcomes.{read_vector_outcomes}

int_fits : length (append_int 2 515 (9 ∷ []) ++ 4 ∷ []) < u64_mod
unfolding append_int to_memory le_bytes is_big_endian
int_fits = omega arith

string_fits : length (append_string (104 ∷ 105 ∷ []) [] ++ 4 ∷ []) < u64_mod
unfolding append_string append_int to_memory le_bytes is_big_endian
string_fits = omega arith

read_var_str-append_string_example :
    let out = append_string (104 ∷ 105 ∷ []) [] in
    read_var_str (standing [] (out ++ 4 ∷ [])) ≡ ok (104 ∷ 105 ∷ [], standing out (out ++ 4 ∷ []))
read_var_str-append_string_example =
    read_var_str-append_string (104 ∷ 105 ∷ []) [] (4 ∷ []) string_fits

abbrev four_bytes : Deserializer
four_bytes = record { index = 1; bytes = 1 ∷ 2 ∷ 3 ∷ 4 ∷ [] }

read_vector_outcomes_example :
    (1 + 2 ≤ 4
      → read_vector 2 four_bytes ≡ ok (2 ∷ 3 ∷ [], record { index = 3; bytes = four_bytes.bytes }))
    × (4 < 1 + 2 → 1 + 2 < u64_mod → read_vector 2 four_bytes ≡ err deserialization_exception)
    × (u64_mod ≤ 1 + 2 → read_vector 2 four_bytes ≡ undefined)
read_vector_outcomes_example =
    read_vector_outcomes four_bytes 2 (record { within = omega arith; addressable = omega arith })
      (omega arith)
