-- ===== src/Models/Tx/RoundTrip.antt =====
-- What a transaction writes of itself is read back as the same transaction.
use mathlib.Core.Path.{subst}
use libmw_core.Common.{ℕ, ◌%◌, ◌≤◌, ◌<◌, ◌≡◌, sym, arith, List, [], ◌∷◌, ◌++◌, length, All, ltb}
use libmw_core.Common.{u64_mod, false}
use libmw_core.Crypto.{Hashing}
use libmw_core.Exceptions.{ok}
use libmw_core.Util.EndianUtil.{Bytes, Platform}
use libmw_core.Serialization.{
  Read, ◌>>=◌, pure, throw_if, append_int, append_vector, read_int, read_vector,
}
use libmw_core.Serialization.{append_all, read_times}
use libmw_core.Serialization.Reads.{ltb_ge}
use libmw_core.Serialization.RoundTrip.{standing}
use libmw_core.Serialization.Appends.{RoundTrips, RoundTrips-bind, RoundTrips-map}
use libmw_core.Serialization.Appends.{
  append_int-RoundTrips, append_vector-RoundTrips, append_all-RoundTrips,
}
use libmw_core.Serialization.Appends.{RoundTrips-standing}
use libmw_core.Models.BigInt.{BigInt, serialize_big_int, deserialize_big_int}
use libmw_core.Models.Tx.{
  Input, Output, IKernel, KernelFactory, TxBody, RangeProof, BlindingFactor, max_size,
}
use libmw_core.Models.Tx.{serialize_range_proof, deserialize_range_proof, serialize_input}
use libmw_core.Models.Tx.{
  serialize_output, make_input, make_output, deserialize_input, deserialize_output,
}
use libmw_core.Models.Tx.{
  serialize_tx_body, deserialize_tx_body, serialize_transaction, make_transaction,
}
use libmw_core.Models.Tx.{deserialize_transaction}

pub big_int-RoundTrips :
    (n : ℕ) (bs : BigInt)
    → length bs ≡ n
    → RoundTrips (serialize_big_int bs) (deserialize_big_int n) bs
unfolding serialize_big_int deserialize_big_int
big_int-RoundTrips n bs e = rw (sym e) (append_vector-RoundTrips bs)

module _ ⦃p : Platform⦄ where
  byte-RoundTrips : (f : ℕ) → f < 256 → RoundTrips (append_int 1 (f % 256)) (read_int 1) f
  byte-RoundTrips f h =
      let byte : f % 256 ≡ f = omega arith in
      subst (λ x. RoundTrips (append_int 1 x) (read_int 1) f) (sym byte)
        (append_int-RoundTrips 1 f (omega arith))

  pub range_proof-RoundTrips :
      (proof : RangeProof)
      → length proof ≤ max_size
      → RoundTrips (serialize_range_proof proof) deserialize_range_proof proof
  unfolding serialize_range_proof deserialize_range_proof
  range_proof-RoundTrips proof h =
      let test : ltb max_size (length proof) ≡ false = ltb_ge max_size (length proof) h in
      RoundTrips-bind (append_int 8 (length proof)) (append_vector proof) (read_int 8)
        (λ n. throw_if (ltb max_size n) >>= λ _. read_vector n) (length proof) proof
        (append_int-RoundTrips 8 (length proof) (omega arith))
        (rw (test) (append_vector-RoundTrips proof))

module _ ⦃p : Platform⦄ ⦃c : Hashing⦄ where
  -- An input and an output as their constructors make them.
  pub record IsInput (i : Input) : Type 0 where
    pub features : i.features < 256
    pub commitment : length i.commitment ≡ 33
    pub made : make_input i.features i.commitment ≡ i

  pub record IsOutput (o : Output) : Type 0 where
    pub features : o.features < 256
    pub commitment : length o.commitment ≡ 33
    pub proof : length o.proof ≤ max_size
    pub made : make_output o.features o.commitment o.proof ≡ o

  pub input-RoundTrips :
      (i : Input)
      → IsInput i
      → RoundTrips (serialize_input i.features i.commitment) deserialize_input i
  unfolding serialize_input deserialize_input
  input-RoundTrips i h =
      let f = i.features in
      let c = i.commitment in
      (subst (λ j. RoundTrips (serialize_input f c) deserialize_input j) h.made
        (RoundTrips-bind (append_int 1 (f % 256)) (serialize_big_int c) (read_int 1)
          (λ x. deserialize_big_int 33 >>= λ y. pure (make_input x y)) f (make_input f c)
          (byte-RoundTrips f h.features)
          (RoundTrips-map (serialize_big_int c) (deserialize_big_int 33) (make_input f) c
            (big_int-RoundTrips 33 c h.commitment))))

  pub output-RoundTrips :
      (o : Output)
      → IsOutput o
      → RoundTrips (serialize_output o.features o.commitment o.proof) deserialize_output o
  unfolding serialize_output deserialize_output
  output-RoundTrips o h =
      let f = o.features in
      let c = o.commitment in
      let proof = o.proof in
      let last =
        RoundTrips-map (serialize_range_proof proof) deserialize_range_proof (make_output f c) proof
          (range_proof-RoundTrips proof h.proof) in
      let middle =
        RoundTrips-bind (serialize_big_int c) (serialize_range_proof proof) (deserialize_big_int 33)
          (λ y. deserialize_range_proof >>= λ z. pure (make_output f y z)) c (make_output f c proof)
          (big_int-RoundTrips 33 c h.commitment) last in
      (subst (λ j. RoundTrips (serialize_output f c proof) deserialize_output j) h.made
        (RoundTrips-bind (append_int 1 (f % 256))
          (λ s. serialize_range_proof proof (serialize_big_int c s)) (read_int 1)
          (λ x. deserialize_big_int 33 >>= λ y.
            deserialize_range_proof >>= λ z. pure (make_output x y z))
          f (make_output f c proof) (byte-RoundTrips f h.features) middle))

  abbrev write_inputs : List Input → Bytes → Bytes
  write_inputs = append_all (λ i. serialize_input i.features i.commitment)

  abbrev pub write_outputs : List Output → Bytes → Bytes
  write_outputs = append_all (λ o. serialize_output o.features o.commitment o.proof)

  -- The proofs of the elements of a list, from those of the conditions on them.
  inputs-All :
      (xs : List Input)
      → All IsInput xs
      → All (λ i. RoundTrips (serialize_input i.features i.commitment) deserialize_input i) xs
  inputs-All [] h = tt
  inputs-All (x ∷ xs) (h, hs) = (input-RoundTrips x h, inputs-All xs hs)

  outputs-All :
      (xs : List Output)
      → All IsOutput xs
      → All
          (λ o. RoundTrips (serialize_output o.features o.commitment o.proof) deserialize_output o)
          xs
  outputs-All [] h = tt
  outputs-All (x ∷ xs) (h, hs) = (output-RoundTrips x h, outputs-All xs hs)

  inputs-RoundTrips :
      (xs : List Input)
      → All IsInput xs
      → RoundTrips (write_inputs xs) (read_times (length xs) deserialize_input) xs
  inputs-RoundTrips xs h =
      append_all-RoundTrips (λ i. serialize_input i.features i.commitment) deserialize_input xs
        (inputs-All xs h)

  pub outputs-RoundTrips :
      (xs : List Output)
      → All IsOutput xs
      → RoundTrips (write_outputs xs) (read_times (length xs) deserialize_output) xs
  outputs-RoundTrips xs h =
      append_all-RoundTrips (λ o. serialize_output o.features o.commitment o.proof)
        deserialize_output xs (outputs-All xs h)

  module _ (factory : KernelFactory) where
    -- A body that the program can hold: its inputs and outputs come from their constructors, the
    -- factory reads its kernels back, and the counts fit a `uint64_t`.
    pub record IsBody (body : TxBody) : Type 0 where
      pub inputs : All IsInput body.inputs
      pub outputs : All IsOutput body.outputs
      pub kernels : All (λ k. RoundTrips (factory.serialize k) factory.deserialize k) body.kernels
      pub num_inputs : length body.inputs < u64_mod
      pub num_outputs : length body.outputs < u64_mod
      pub num_kernels : length body.kernels < u64_mod

    pub tx_body-RoundTrips :
        (body : TxBody)
        → IsBody body
        → RoundTrips (serialize_tx_body factory body) (deserialize_tx_body factory) body
    unfolding serialize_tx_body deserialize_tx_body
    tx_body-RoundTrips body h =
        let ni = length body.inputs in
        let no = length body.outputs in
        let nk = length body.kernels in
        let wi = write_inputs body.inputs in
        let wo = write_outputs body.outputs in
        let wk = append_all factory.serialize body.kernels in
        let body_of : List Input → List Output → List IKernel → TxBody =
          λ xs ys zs. record { inputs = xs; outputs = ys; kernels = zs } in
        let read_kernels : ℕ → List Input → List Output → Read TxBody =
          λ n xs ys. read_times n factory.deserialize >>= λ zs. pure (body_of xs ys zs) in
        let read_outputs : ℕ → ℕ → List Input → Read TxBody =
          λ m n xs. read_times m deserialize_output >>= λ ys. read_kernels n xs ys in
        let read_inputs : ℕ → ℕ → ℕ → Read TxBody =
          λ l m n. read_times l deserialize_input >>= λ xs. read_outputs m n xs in
        let kernels =
          RoundTrips-map wk (read_times nk factory.deserialize) (body_of body.inputs body.outputs)
            body.kernels
            (append_all-RoundTrips factory.serialize factory.deserialize body.kernels h.kernels) in
        let outputs =
          RoundTrips-bind wo wk (read_times no deserialize_output) (read_kernels nk body.inputs)
            body.outputs body (outputs-RoundTrips body.outputs h.outputs) kernels in
        let inputs =
          RoundTrips-bind wi (λ s. wk (wo s)) (read_times ni deserialize_input) (read_outputs no nk)
            body.inputs body (inputs-RoundTrips body.inputs h.inputs) outputs in
        let third =
          RoundTrips-bind (append_int 8 nk) (λ s. wk (wo (wi s))) (read_int 8)
            (λ n. read_inputs ni no n) nk body
            (append_int-RoundTrips 8 nk (omega (arith, h.num_kernels))) inputs in
        let second =
          RoundTrips-bind (append_int 8 no) (λ s. wk (wo (wi (append_int 8 nk s)))) (read_int 8)
            (λ m. read_int 8 >>= λ n. read_inputs ni m n) no body
            (append_int-RoundTrips 8 no (omega (arith, h.num_outputs))) third in
        RoundTrips-bind (append_int 8 ni) (λ s. wk (wo (wi (append_int 8 nk (append_int 8 no s)))))
          (read_int 8) (λ l. read_int 8 >>= λ m. read_int 8 >>= λ n. read_inputs l m n) ni body
          (append_int-RoundTrips 8 ni (omega (arith, h.num_inputs))) second

    -- A transaction that is written anywhere is read back, its hash included, if its offset has
    -- 32 bytes and its body is one that the program can hold.
    pub deserialize_transaction-serialize_transaction :
        (offset : BlindingFactor) (body : TxBody) (front rest : Bytes)
        → length offset ≡ 32
        → IsBody body
        → length (serialize_transaction factory offset body front ++ rest) < u64_mod
        → let out = serialize_transaction factory offset body front in
          deserialize_transaction factory (standing front (out ++ rest))
          ≡ ok (make_transaction factory offset body, standing out (out ++ rest))
    unfolding serialize_transaction deserialize_transaction
    deserialize_transaction-serialize_transaction offset body front rest size h fits =
        RoundTrips-standing (λ s. serialize_tx_body factory body (serialize_big_int offset s))
          (deserialize_transaction factory) (make_transaction factory offset body) front rest
          (RoundTrips-bind (serialize_big_int offset) (serialize_tx_body factory body)
            (deserialize_big_int 32)
            (λ x. deserialize_tx_body factory >>= λ y. pure (make_transaction factory x y)) offset
            (make_transaction factory offset body) (big_int-RoundTrips 32 offset size)
            (RoundTrips-map (serialize_tx_body factory body) (deserialize_tx_body factory)
              (make_transaction factory offset) body (tx_body-RoundTrips body h)))
          fits
