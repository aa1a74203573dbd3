-- ===== src/Models/ProofMessage/RoundTrip.antt =====
-- `ToKeyIndices` takes the indices back that `FromKeyIndices` has written.
use libmw_core.Common.{
  ℕ, zero, suc, not, ◌+◌, ◌-◌, ◌*◌, ◌%◌, ◌^◌, ◌≤◌, ◌<◌, ◌≡◌, refl, sym, ap, ◌∙◌, arith,
}
use libmw_core.Common.{List, [], ◌∷◌, ◌++◌, append_assoc, length, length-append, replicate}
use libmw_core.Common.{All, lt→ltb, ◌==◌, false, if◌then◌else◌, lt-or-le, inl, inr}
use libmw_core.Exceptions.{ok, undefined}
use libmw_core.Util.EndianUtil.{Bytes, Platform, le_bytes}
use libmw_core.Serialization.{◌>>=◌, pure, throw_if, append_int, append_all, read_int, read_times}
use libmw_core.Serialization.Order.{be_bytes, append_int-be_bytes, length-reverse, length-le_bytes}
use libmw_core.Serialization.Reads.{ltb_ge}
use libmw_core.Serialization.Appends.{
  RoundTrips, RoundTrips-bind, RoundTrips-pure, RoundTrips-standing,
}
use libmw_core.Serialization.Appends.{append_int-RoundTrips, append_all-RoundTrips}
use libmw_core.Models.BigInt.{BigInt, set_at, value_of}
use libmw_core.Models.ProofMessage.{
  BulletProofType, original, enhanced, write_path, from_key_indices,
}
use libmw_core.Models.ProofMessage.{read_length, read_key_indices, to_key_indices}

set_at-append :
    (pre post : Bytes) (m b : ℕ) → set_at (length pre) b (pre ++ m ∷ post) ≡ pre ++ b ∷ post
set_at-append [] post m b = refl
set_at-append (x ∷ pre) post m b = ap (λ t. x ∷ t) (set_at-append pre post m b)

length-set_at : (i b : ℕ) (path : Bytes) → length (set_at i b path) ≡ length path
length-set_at i b [] = refl
length-set_at zero b (x ∷ path) = refl
length-set_at (suc i) b (x ∷ path) = ap suc (length-set_at i b path)

-- The loop replaces a range of the path.
write_path-within :
    (pre mid post bs : Bytes)
    → length bs ≡ length mid
    → write_path (length pre) bs (pre ++ (mid ++ post)) ≡ ok (pre ++ (bs ++ post))
unfolding write_path
write_path-within pre [] post [] e = refl
write_path-within pre (m ∷ mid) post [] e = absurd (omega arith)
write_path-within pre [] post (b ∷ bs) e = absurd (omega arith)
write_path-within pre (m ∷ mid) post (b ∷ bs) e =
    let inside : length pre < length (pre ++ m ∷ (mid ++ post)) =
      omega (arith, length-append pre (m ∷ (mid ++ post))) in
    let next : suc (length pre) ≡ length (pre ++ b ∷ []) =
      omega (arith, length-append pre (b ∷ [])) in
    rw (lt→ltb (length pre) (length (pre ++ m ∷ (mid ++ post))) inside) (
      ap (write_path (suc (length pre)) bs) (set_at-append pre (mid ++ post) m b)
      ∙ ap (λ i. write_path i bs (pre ++ b ∷ (mid ++ post))) next
      ∙ ap (write_path (length (pre ++ b ∷ [])) bs) (sym (append_assoc pre (b ∷ []) (mid ++ post)))
      ∙ write_path-within (pre ++ b ∷ []) mid post bs (omega arith)
      ∙ ap ok (append_assoc pre (b ∷ []) (bs ++ post)))

write_path-beyond :
    (i : ℕ) (bs path : Bytes)
    → i ≤ length path
    → length path < i + length bs
    → write_path i bs path ≡ undefined
unfolding write_path
write_path-beyond i [] path h over = absurd (omega arith)
write_path-beyond i (b ∷ bs) path h over = elim (lt-or-le i (length path)) [
  | inl inside ↦
      let len = length-set_at i b path in
      rw (lt→ltb i (length path) inside)
        (write_path-beyond (suc i) bs (set_at i b path) (omega arith) (omega arith))
  | inr end ↦ rw (ltb_ge i (length path) end) refl
]

length-replicate : (n b : ℕ) → length (replicate n b) ≡ n
length-replicate zero b = refl
length-replicate (suc n) b = ap suc (length-replicate n b)

replicate-add : (m n b : ℕ) → replicate (m + n) b ≡ replicate m b ++ replicate n b
replicate-add zero n b = ap (λ k. replicate k b) (omega arith)
replicate-add (suc m) n b =
    let e : suc m + n ≡ suc (m + n) = omega arith in
    ap (λ k. replicate k b) e ∙ ap (λ t. b ∷ t) (replicate-add m n b)

module _ ⦃p : Platform⦄ where
  abbrev write_indices : List ℕ → Bytes → Bytes
  write_indices indices = append_all (append_int 4) indices

  length-write_indices :
      (xs : List ℕ) (s : Bytes) → length (write_indices xs s) ≡ length s + 4 * length xs
  unfolding append_all
  length-write_indices [] s = omega arith
  length-write_indices (x ∷ xs) s = omega (
    arith,
    length-write_indices xs (append_int 4 x s),
    ap length (append_int-be_bytes 4 x s),
    length-append s (be_bytes 4 x),
    length-reverse (le_bytes 4 x),
    length-le_bytes 4 x,
  )

  -- The first four bytes of the message.
  abbrev head : BulletProofType → ℕ → Bytes
  head original n = 0 ∷ 0 ∷ 0 ∷ 0 ∷ []
  head enhanced n = 0 ∷ 0 ∷ 1 ∷ n % 256 ∷ []

  abbrev write_head : BulletProofType → ℕ → Bytes → Bytes
  write_head original n s = append_int 4 0 s
  write_head enhanced n s = append_int 1 n (append_int 1 1 (append_int 1 0 (append_int 1 0 s)))

  from_run :
      (indices : List ℕ) (type : BulletProofType)
      → from_key_indices indices type
        ≡ write_path 4 (write_indices indices []) (head type (length indices) ++ replicate 16 0)
  unfolding from_key_indices value_of
  from_run indices original = refl
  from_run indices enhanced = refl

  append_byte : (v : ℕ) (s t x : Bytes) → x ≡ s ++ t → append_int 1 v x ≡ s ++ (t ++ v % 256 ∷ [])
  unfolding le_bytes
  append_byte v s t x e =
      ap (append_int 1 v) e ∙ append_int-be_bytes 1 v (s ++ t) ∙ append_assoc s t (v % 256 ∷ [])

  write_head-head :
      (type : BulletProofType) (n : ℕ) (s : Bytes) → write_head type n s ≡ s ++ head type n
  unfolding le_bytes
  write_head-head original n s = append_int-be_bytes 4 0 s
  write_head-head enhanced n s =
      append_byte n s (0 ∷ 0 ∷ 1 ∷ []) _
        (append_byte 1 s (0 ∷ 0 ∷ []) _ (append_byte 0 s (0 ∷ []) _ (append_int-be_bytes 1 0 s)))

  -- How many indices a message of each type is made for.
  abbrev pub IsCount : BulletProofType → ℕ → Type 0
  IsCount original n = n ≡ 3
  IsCount enhanced n = (0 < n) × (n ≤ 4)

  head-RoundTrips :
      (type : BulletProofType) (n : ℕ)
      → IsCount type n
      → RoundTrips (write_head type n) (read_length type) n
  unfolding read_length
  head-RoundTrips original n e = rw e (
      RoundTrips-bind (append_int 4 0) (λ s. s) (read_int 4)
        (λ x. throw_if (not (x == 0)) >>= λ _. pure 3) 0 3 (append_int-RoundTrips 4 0 (omega arith))
        (RoundTrips-bind (λ s. s) (λ s. s) (throw_if false) (λ _. pure 3) tt 3 (RoundTrips-pure tt)
          (RoundTrips-pure 3)))
  head-RoundTrips enhanced n (pos, le) =
      RoundTrips-bind (append_int 1 0) (λ s. append_int 1 n (append_int 1 1 (append_int 1 0 s)))
        (read_int 1) _ 0 n (append_int-RoundTrips 1 0 (omega arith))
        (RoundTrips-bind (append_int 1 0) (λ s. append_int 1 n (append_int 1 1 s)) (read_int 1) _ 0
          n (append_int-RoundTrips 1 0 (omega arith))
          (RoundTrips-bind (append_int 1 1) (append_int 1 n) (read_int 1) _ 1 n
            (append_int-RoundTrips 1 1 (omega arith)) (append_int-RoundTrips 1 n (omega arith))))

  each-RoundTrips :
      (xs : List ℕ)
      → All (λ i. i < 2 ^ 32) xs
      → All (λ i. RoundTrips (append_int 4 i) (read_int 4) i) xs
  each-RoundTrips [] h = tt
  each-RoundTrips (x ∷ xs) (h, hs) =
      (append_int-RoundTrips 4 x (omega arith), each-RoundTrips xs hs)

  indices-RoundTrips :
      (indices : List ℕ) (type : BulletProofType)
      → All (λ i. i < 2 ^ 32) indices
      → IsCount type (length indices)
      → RoundTrips
          (λ s. write_indices indices (write_head type (length indices) s))
          (read_key_indices type)
          indices
  unfolding read_key_indices
  indices-RoundTrips indices type h c =
      let some_read : (length indices == 0) ≡ false = counted type indices c in
      RoundTrips-bind (write_head type (length indices)) (write_indices indices) (read_length type)
        (λ n. read_times (if n == 0 then 3 else n) (read_int 4)) (length indices) indices
        (head-RoundTrips type (length indices) c)
        (rw some_read
          (append_all-RoundTrips (append_int 4) (read_int 4) indices (each-RoundTrips indices h)))
    where
      counted :
          (type : BulletProofType) (xs : List ℕ)
          → IsCount type (length xs)
          → (length xs == 0) ≡ false
      counted original xs c = ground (arith, c)
      counted enhanced xs c = ground (arith, c.0)

  length-head : (type : BulletProofType) (n : ℕ) → length (head type n) ≡ 4
  length-head original n = refl
  length-head enhanced n = refl

  count_bound : (type : BulletProofType) (n : ℕ) → IsCount type n → n ≤ 4
  count_bound original n c = omega (arith, c)
  count_bound enhanced n c = c.1

  module _ (indices : List ℕ) (type : BulletProofType) (h : All (λ i. i < 2 ^ 32) indices) where
    -- The indices as the serializer has them, and the zeros behind them.
    abbrev bytes : Bytes
    bytes = write_indices indices []

    abbrev zeros : Bytes
    zeros = replicate (16 - 4 * length indices) 0

    abbrev message : Bytes
    message = head type (length indices) ++ (bytes ++ zeros)

    written : IsCount type (length indices) → from_key_indices indices type ≡ ok message
    written c =
        let bound = count_bound type (length indices) c in
        let front = head type (length indices) in
        let size : length bytes ≡ 4 * length indices =
          omega (arith, length-write_indices indices []) in
        let filled : length bytes ≡ length (replicate (4 * length indices) 0) =
          size ∙ sym (length-replicate (4 * length indices) 0) in
        let sixteen : 16 ≡ 4 * length indices + (16 - 4 * length indices) = omega arith in
        let split : replicate 16 0 ≡ replicate (4 * length indices) 0 ++ zeros =
          ap (λ k. replicate k 0) sixteen
          ∙ replicate-add (4 * length indices) (16 - 4 * length indices) 0 in
        from_run indices type
        ∙ ap (λ z. write_path 4 bytes (front ++ z)) split
        ∙ ap (λ i. write_path i bytes (front ++ (replicate (4 * length indices) 0 ++ zeros)))
            (sym (length-head type (length indices)))
        ∙ write_path-within front (replicate (4 * length indices) 0) zeros bytes filled

    too_long : 4 < length indices → from_key_indices indices type ≡ undefined
    too_long over =
        let front = head type (length indices) in
        let size = length-write_indices indices [] in
        let four = length-head type (length indices) in
        let whole = length-append front (replicate 16 0) in
        from_run indices type
        ∙ write_path-beyond 4 bytes (front ++ replicate 16 0) (omega arith) (omega arith)

    length-message : IsCount type (length indices) → length message ≡ 20
    length-message c = omega (
      arith,
      count_bound type (length indices) c,
      length-head type (length indices),
      length-append (head type (length indices)) (bytes ++ zeros),
      length-append bytes zeros,
      length-write_indices indices [],
      length-replicate (16 - 4 * length indices) 0,
    )

    read_back : IsCount type (length indices) → to_key_indices message type ≡ ok indices
    unfolding to_key_indices
    read_back c =
        let e =
          append_all-RoundTrips (append_int 4) (read_int 4) indices (each-RoundTrips indices h) in
        let whole : write_indices indices (write_head type (length indices) []) ++ zeros ≡ message =
          ap (λ t. t ++ zeros)
            (ap (write_indices indices) (write_head-head type (length indices) [])
              ∙ e.appends (head type (length indices))
              ∙ ap (λ t. head type (length indices) ++ t) (sym (e.appends [])))
          ∙ append_assoc (head type (length indices)) bytes zeros in
        let run =
          RoundTrips-standing (λ s. write_indices indices (write_head type (length indices) s))
            (read_key_indices type) indices [] zeros (indices-RoundTrips indices type h c)
            (rw whole (omega (arith, length-message c))) in
        rw (to_key_indices, rw whole at run) refl

    -- One to four indices of 32 bits in an enhanced message, or three in an original one, are written
    -- into the 20 bytes of the message and read back. More than four are written past its end.
    pub to_key_indices-from_key_indices :
        (IsCount type (length indices)
          → (m : BigInt) × (from_key_indices indices type ≡ ok m)
            × (length m ≡ 20)
            × (to_key_indices m type ≡ ok indices))
        × (4 < length indices → from_key_indices indices type ≡ undefined)
    to_key_indices-from_key_indices =
        ((λ c. (message, written c, length-message c, read_back c)), too_long)
