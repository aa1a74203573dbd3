-- ===== src/Serialization/RoundTrip.antt =====
-- `Deserializer` reads back what `Serializer` has appended, on a machine of either byte order.
use libmw_core.Common.{ℕ, ◌^◌, ◌<◌, ◌≡◌, refl, ap, ◌∙◌, [], ◌∷◌, ◌++◌, append_assoc, arith}
use libmw_core.Common.{length, length-append, u64_mod, ◌==◌, false}
use libmw_core.Exceptions.{ok}
use libmw_core.Util.EndianUtil.{Bytes, Platform}
use libmw_core.Serialization.{Deserializer, Read, append_int, append_string, read_int}
use libmw_core.Serialization.{read_var_str, read_chars}
use libmw_core.Serialization.Order.{be_bytes, append_int-be_bytes}
use libmw_core.Serialization.Reads.{Reads, Reads-bind, Reads-pure, read_int-Reads, read_slice-Reads}

-- The deserializer that stands behind `front` in the buffer `bytes`.
abbrev pub standing : Bytes → Bytes → Deserializer
standing front bytes = record { index = length front; bytes = bytes }

-- A read that fits what was appended to `front`, in the form of the code's calls.
pub Reads-standing :
    {A : Type 0} (r : Read A) (bs : Bytes) (a : A) (front out rest : Bytes)
    → Reads r bs a
    → out ≡ front ++ bs
    → length (out ++ rest) < u64_mod
    → r (standing front (out ++ rest)) ≡ ok (a, standing out (out ++ rest))
Reads-standing r bs a front out rest h e fits =
    let split = append_assoc front bs rest in
    rw (e, split) (h front rest (rw (e, split) at fits) ∙ rw split refl)

read_chars-Reads : (s : Bytes) → Reads (read_chars (length s)) s s
unfolding read_chars
read_chars-Reads [] = Reads-pure []
read_chars-Reads (b ∷ s) =
    let e : (length (b ∷ s) == 0) ≡ false = ground arith in rw e (read_slice-Reads (b ∷ s))

module _ ⦃p : Platform⦄ where
  -- An unsigned integer of `size` bytes that is appended anywhere is read back, and the read
  -- stops behind it.
  pub read_int-append_int :
      (size v : ℕ) (front rest : Bytes)
      → v < 256 ^ size
      → length (append_int size v front ++ rest) < u64_mod
      → let out = append_int size v front in
        read_int size (standing front (out ++ rest)) ≡ ok (v, standing out (out ++ rest))
  read_int-append_int size v front rest h fits =
      Reads-standing (read_int size) (be_bytes size v) v front (append_int size v front) rest
        (read_int-Reads size v h) (append_int-be_bytes size v front) fits

  pub read_var_str-Reads :
      (s : Bytes) → length s < u64_mod → Reads read_var_str (be_bytes 8 (length s) ++ s) s
  unfolding read_var_str
  read_var_str-Reads s h =
      Reads-bind (read_int 8) read_chars (be_bytes 8 (length s)) s (length s) s
        (read_int-Reads 8 (length s) h) (read_chars-Reads s)

  -- A string is read back, the empty one too, and the read stops behind it.
  pub read_var_str-append_string :
      (s front rest : Bytes)
      → length (append_string s front ++ rest) < u64_mod
      → let out = append_string s front in
        read_var_str (standing front (out ++ rest)) ≡ ok (s, standing out (out ++ rest))
  unfolding append_string
  read_var_str-append_string s front rest fits =
      let n = length s in
      let e : append_int 8 n front ++ s ≡ front ++ (be_bytes 8 n ++ s) =
        ap (λ t. t ++ s) (append_int-be_bytes 8 n front) ∙ append_assoc front (be_bytes 8 n) s in
      let small = length-append (append_int 8 n front ++ s) rest in
      let small' = length-append (append_int 8 n front) s in
      Reads-standing read_var_str (be_bytes 8 n ++ s) s front (append_string s front) rest
        (read_var_str-Reads s (omega arith)) e fits
