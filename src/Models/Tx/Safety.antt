-- ===== src/Models/Tx/Safety.antt =====
-- Reading a transaction never leaves the buffer.
use libmw_core.Common.{ℕ, ◌≤◌, refl, arith, ltb, List}
use libmw_core.Crypto.{Hashing}
use libmw_core.Util.EndianUtil.{Platform}
use libmw_core.Serialization.{
  Deserializer, Read, ◌>>=◌, pure, throw_if, read_int, read_vector, read_times,
}
use libmw_core.Serialization.Safety.{
  IsSmall, Inside, IsSafe, max_count, bind-IsSafe, read_vector-IsSafe,
}
use libmw_core.Serialization.Safety.{read_int-IsSafe, read_times-IsSafe, guard-IsSafe}
use libmw_core.Models.BigInt.{deserialize_big_int}
use libmw_core.Models.Tx.{Input, Output, IKernel, KernelFactory, TxBody, max_size}
use libmw_core.Models.Tx.{deserialize_range_proof, make_input, make_output, deserialize_input}
use libmw_core.Models.Tx.{
  deserialize_output, deserialize_tx_body, make_transaction, deserialize_transaction,
}

big_int-IsSafe : (n : ℕ) → n ≤ max_count → IsSafe (deserialize_big_int n)
unfolding deserialize_big_int
big_int-IsSafe n h = read_vector-IsSafe n h

module _ ⦃p : Platform⦄ where
  -- The guard on the size comes before the read.
  range_proof-IsSafe : IsSafe deserialize_range_proof
  unfolding deserialize_range_proof
  range_proof-IsSafe =
      bind-IsSafe (read_int 8) (λ n. throw_if (ltb max_size n) >>= λ _. read_vector n)
        (read_int-IsSafe 8 (omega arith))
        (λ n.
          guard-IsSafe (ltb max_size n) (read_vector n) (λ e. read_vector-IsSafe n (ground arith)))

module _ ⦃p : Platform⦄ ⦃c : Hashing⦄ where
  input-IsSafe : IsSafe deserialize_input
  unfolding deserialize_input
  input-IsSafe =
      bind-IsSafe (read_int 1) (λ x. deserialize_big_int 33 >>= λ y. pure (make_input x y))
        (read_int-IsSafe 1 (omega arith))
        (λ x.
          bind-IsSafe (deserialize_big_int 33) (λ y. pure (make_input x y))
            (big_int-IsSafe 33 (omega arith)) (λ y d v. (refl, v)))

  output-IsSafe : IsSafe deserialize_output
  unfolding deserialize_output
  output-IsSafe =
      bind-IsSafe (read_int 1)
        (λ x.
          deserialize_big_int 33 >>= λ y. deserialize_range_proof >>= λ z. pure (make_output x y z))
        (read_int-IsSafe 1 (omega arith))
        (λ x.
          bind-IsSafe (deserialize_big_int 33)
            (λ y. deserialize_range_proof >>= λ z. pure (make_output x y z))
            (big_int-IsSafe 33 (omega arith))
            (λ y.
              bind-IsSafe deserialize_range_proof (λ z. pure (make_output x y z)) range_proof-IsSafe
                (λ z d v. (refl, v))))

  module _ (factory : KernelFactory) where
    abbrev body_of : List Input → List Output → List IKernel → TxBody
    body_of xs ys zs = record { inputs = xs; outputs = ys; kernels = zs }

    abbrev read_kernels : ℕ → List Input → List Output → Read TxBody
    read_kernels n xs ys = read_times n factory.deserialize >>= λ zs. pure (body_of xs ys zs)

    abbrev read_outputs : ℕ → ℕ → List Input → Read TxBody
    read_outputs m n xs = read_times m deserialize_output >>= λ ys. read_kernels n xs ys

    abbrev read_inputs : ℕ → ℕ → ℕ → Read TxBody
    read_inputs l m n = read_times l deserialize_input >>= λ xs. read_outputs m n xs

    tx_body-IsSafe : IsSafe factory.deserialize → IsSafe (deserialize_tx_body factory)
    unfolding deserialize_tx_body
    tx_body-IsSafe h =
        let kernels : (n : ℕ) (xs : List Input) (ys : List Output) → IsSafe (read_kernels n xs ys) =
          λ n xs ys.
            bind-IsSafe (read_times n factory.deserialize) (λ zs. pure (body_of xs ys zs))
              (read_times-IsSafe n factory.deserialize h) (λ zs d v. (refl, v)) in
        let outputs : (m n : ℕ) (xs : List Input) → IsSafe (read_outputs m n xs) = λ m n xs.
          bind-IsSafe (read_times m deserialize_output) (λ ys. read_kernels n xs ys)
            (read_times-IsSafe m deserialize_output output-IsSafe) (λ ys. kernels n xs ys) in
        let inputs : (l m n : ℕ) → IsSafe (read_inputs l m n) = λ l m n.
          bind-IsSafe (read_times l deserialize_input) (λ xs. read_outputs m n xs)
            (read_times-IsSafe l deserialize_input input-IsSafe) (λ xs. outputs m n xs) in
        let count = read_int-IsSafe 8 (omega arith) in
        bind-IsSafe (read_int 8) (λ l. read_int 8 >>= λ m. read_int 8 >>= λ n. read_inputs l m n)
          count
          (λ l.
            bind-IsSafe (read_int 8) (λ m. read_int 8 >>= λ n. read_inputs l m n) count
              (λ m. bind-IsSafe (read_int 8) (λ n. read_inputs l m n) count (λ n. inputs l m n)))

    -- Whatever the bytes are, reading a transaction throws or returns with the same buffer and an
    -- index inside it; it never reads outside of the buffer. The buffer is at least 65536 bytes
    -- shorter than the address space, and the kernel factory keeps to the buffer as well.
    pub deserialize_transaction-Inside :
        (d : Deserializer)
        → IsSmall d
        → IsSafe factory.deserialize
        → Inside d (deserialize_transaction factory d)
    unfolding deserialize_transaction
    deserialize_transaction-Inside d v h =
        bind-IsSafe (deserialize_big_int 32)
          (λ x. deserialize_tx_body factory >>= λ y. pure (make_transaction factory x y))
          (big_int-IsSafe 32 (omega arith))
          (λ x.
            bind-IsSafe (deserialize_tx_body factory) (λ y. pure (make_transaction factory x y))
              (tx_body-IsSafe h) (λ y d v. (refl, v)))
          d v
